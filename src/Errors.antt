-- ===== src/Errors.antt =====
-- The exceptions that the modelled code throws, and code that may throw.
use node_dtls_client.Prelude.{◌≡◌, ◌⊎◌, inl, inr, refl}

-- `out_of_range` and `type_error` are those of Node and of JavaScript; the others are the `Error`s
-- of src/TLS, src/DTLS and src/dtls.ts. `not_running` is what Node's UDP socket throws once it is
-- closed, `udp_error` one that it reports. `bad_crypto_input` is what
-- Node's crypto throws at keys, vectors and data of the wrong size. `out_of_fuel` has no counterpart in
-- the program.
pub data Error : Type 0 where
  nothing_to_deserialize zero_bytes_read out_of_range type_error out_of_fuel : Error
  multiple_messages empty_array zero_bytes_processed still_fragmented unsupported_type : Error
  invalid_mac not_authentic bad_crypto_input : Error
  flight_not_begun key_exchange_not_implemented handshake_failed : Error
  socket_closed handshake_not_finished connection_timed_out handshake_timed_out : Error
  fatal_alert udp_error not_running : Error

pub data Result {ℓ} (A : Type ℓ) : Type ℓ where
  ok : A → Result A
  err : Error → Result A

infixl 5 ◌>>=◌
abbrev pub ◌>>=◌ {ℓ κ} : {A : Type ℓ} {B : Type κ} → Result A → (A → Result B) → Result B
ok a >>= f = f a
err e >>= f = err e

-- The value, where nothing was thrown.
abbrev pub Succeeds {ℓ} : {A : Type ℓ} → Result A → Type 0
Succeeds (ok a) = Unit
Succeeds (err e) = ⊥

-- To split on a computed result and keep the equation.
pub Result-cases {ℓ} :
    {A : Type ℓ} (r : Result A) → ((a : A) × (r ≡ ok a)) ⊎ ((e : Error) × (r ≡ err e))
Result-cases (ok a) = inl (a, refl)
Result-cases (err e) = inr (e, refl)
