-- ===== src/Handshaker.antt =====
-- `ClientHandshakeHandler` of src/DTLS/HandshakeHandler.ts: its state, and what its methods are written
-- with. A method is a function from a state to a state and a result, which may be an exception; the
-- state that an exception leaves is kept.
pub mod Send
pub mod Handle
pub mod Quiet
pub mod QuietHandle
pub mod Verified
pub mod Complete
pub mod Carried
pub mod Sequence
pub mod Numbers
pub mod Tests
pub mod Process
use node_dtls_client.Prelude.{
  ℕ, ◌+◌, true, false, not, ◌&&◌, if◌then◌else◌, List, [], ◌∷◌, ◌++◌, Bool, Option, none, some,
  get_elem?,
}
use node_dtls_client.Errors.{Result, ok, err, Error, type_error, not_running}
use node_dtls_client.Convert.{Buffer}
use node_dtls_client.Record.{Message, RecordLayer, configure, next_epoch_nr}
use node_dtls_client.Fragment.Body.{Handshake}
use node_dtls_client.Flight.{Collector}
use node_dtls_client.Crypto.{Crypto}
use node_dtls_client.Connection.{ConnectionState}
use node_dtls_client.Connection.Protect.{protection}

-- An alert, by its level and its description.
pub record Alert : Type 0 where
  pub level : ℕ
  pub description : ℕ

-- What leaves the handler: a datagram, the datagram of an alert that `finishedCallback` was given with
-- the error that its callback gets, or a call of `finishedCallback` without an alert.
pub data Output : Type 0 where
  datagram : Buffer → Output
  alert_datagram : Buffer → Option Error → Output
  finished_callback : Option Error → Output

-- `next_sent` is `lastSentSeqNum + 1`, which starts at -1. The collector holds what concerns incoming
-- messages. `outputs` has no counterpart: it lists what left the handler, in order. `udp_open` is
-- whether the socket's UDP socket is open.
pub record Handler (c : Crypto) : Type 0 where
  pub layer : RecordLayer (protection c)
  pub collector : Collector
  pub is_handshaking : Bool
  pub next_sent : ℕ
  pub last_flight : List Handshake
  pub all_handshake_data : List Buffer
  pub buffered_outgoing : List Message
  pub begin_was_called : Bool
  pub outputs : List Output
  pub udp_open : Bool

abbrev pub M : Crypto → Type 0 → Type 0
M c A = Handler c → Handler c × Result A

infixl 5 ◌>>=◌ ◌>>◌
unfoldable pub ◌>>=◌ : {c : Crypto} {A B : Type 0} → M c A → (A → M c B) → M c B
◌>>=◌ m f s = let (s', r) = m s in elim r [ ok a ↦ f a s' | err e ↦ (s', err e) ]

abbrev pub ◌>>◌ : {c : Crypto} {B : Type 0} → M c (Unit {0}) → M c B → M c B
m >> k = m >>= λ _. k

abbrev pub pure : {c : Crypto} {A : Type 0} → A → M c A
pure a s = (s, ok a)

-- A computation that may throw, and leaves the state as it is.
abbrev pub lift : {c : Crypto} {A : Type 0} → Result A → M c A
lift r s = (s, r)

abbrev pub current : {c : Crypto} → M c (Handler c)
current s = (s, ok s)

abbrev pub modify : {c : Crypto} → (Handler c → Handler c) → M c (Unit {0})
modify f s = (f s, ok tt)

abbrev pub is_sent : Output → Bool
is_sent (datagram buf) = true
is_sent (alert_datagram buf e) = true
is_sent (finished_callback e) = false

-- `udp.send` throws where the UDP socket is closed.
unfoldable pub output : {c : Crypto} → Output → M c (Unit {0})
output o s =
    if is_sent o && not s.udp_open
    then (s, err not_running)
    else (record s { outputs = s.outputs ++ o ∷ [] }, ok tt)

-- `epochs[i].connectionState`, which throws where there is no such epoch.
unfoldable pub state_at : (c : Crypto) → ℕ → M c ConnectionState
state_at c i s = elim (get_elem? s.layer.epochs i) [
  | none ↦ (s, err type_error)
  | some e ↦ (s, ok e.connection_state)
]

abbrev pub set_state : (c : Crypto) → ℕ → ConnectionState → M c (Unit {0})
set_state c i state = modify (λ s. record s { layer = configure (protection c) s.layer i state })

abbrev pub next_epoch : {c : Crypto} → Handler c → ℕ
next_epoch {c} s = next_epoch_nr (protection c) s.layer
