-- ===== src/Handshaker/Complete.antt =====
-- A right Finished message finishes the handshake.
use mathlib.Core.Path.{subst}
use node_dtls_client.Prelude.{
  ◌+◌, ◌≡◌, ◌∙◌, refl, ap, sym, List, [], ◌∷◌, true, none, some, inl, inr, arith,
}
use node_dtls_client.Errors.{ok, Result-cases}
use node_dtls_client.Convert.{Buffer}
use node_dtls_client.Codec.{Memory}
use node_dtls_client.Fragment.{FragmentedHandshake}
use node_dtls_client.Fragment.Body.{Handshake}
use node_dtls_client.Fragment.Wire.{serialize_fragment}
use node_dtls_client.Flight as Incoming
use node_dtls_client.Crypto.{Crypto}
use node_dtls_client.Block.{server, equals}
use node_dtls_client.Connection.{need}
use node_dtls_client.Handshaker.{finished_callback, output, Handler, M, ◌>>=◌, current}
use node_dtls_client.Handshaker.Send.{map_result, buffer_handshake_data}
use node_dtls_client.Handshaker.Handle.{Options, finish_handshake, handle_finished, handle}
use node_dtls_client.Handshaker.Process.{try_handle, handle_flight, process_incoming_message}
use node_dtls_client.Handshaker.Quiet.{
  successes, successes-append, Quiet, Quiet-bind, when-Quiet, buffer-Quiet,
  compute_verify_data-Quiet,
}
use node_dtls_client.Handshaker.Verified.{IsVerified, IsFinishedFlight, handle-finished}

-- It reports one finished handshake.
abbrev Reports : (c : Crypto) {A : Type 0} → M c A → Handler c → Type 0
Reports c m s = successes (m s).0.outputs ≡ successes s.outputs + 1

Reports-bind :
    (c : Crypto) {A B : Type 0} (m : M c A) (f : A → M c B) (s : Handler c) (a : A)
    → Quiet c m
    → (m s).1 ≡ ok a
    → Reports c (f a) (m s).0
    → Reports c (m >>= f) s
unfolding ◌>>=◌
Reports-bind c m f s a q e r = rw (e, ◌>>=◌) (r ∙ ap (λ n. n + 1) (q s))

Reports-first :
    (c : Crypto) {A B : Type 0} (m : M c A) (f : A → M c B) (s : Handler c)
    → ((a : A) → Quiet c (f a))
    → Reports c m s
    → Reports c (m >>= f) s
unfolding ◌>>=◌
Reports-first c m f s q r = elim (Result-cases (m s).1) [
  | inr (thrown, e) ↦ rw (e, ◌>>=◌) r
  | inl (a, e) ↦ rw (e, ◌>>=◌) (q a (m s).0 ∙ r)
]

Reports-finish : (c : Crypto) (s : Handler c) → Reports c (finish_handshake c true) s
unfolding finish_handshake ◌>>=◌ output
Reports-finish c s = omega (arith, successes-append s.outputs (finished_callback none))

equals_self : (xs : Buffer) → equals xs xs ≡ true
equals_self [] = refl
equals_self (x ∷ xs) = ground (arith, equals_self xs)

handle_finished-Reports :
    (c : Crypto) (messages : List Handshake) (s : Handler c)
    → IsVerified c messages s
    → Reports c (handle_finished c messages) s
unfolding handle_finished
handle_finished-Reports c messages s v =
    let v' = v.verify_data in
    Reports-bind c _ _ s v.message (λ s. refl) (ap need v.is_last)
      (Reports-bind c current _ s s (λ s. refl) refl
        (Reports-bind c _ _ s v' (compute_verify_data-Quiet c _ server) v.is_expected (
          Reports-bind c _ _ _ v' (λ s. refl) (ap need v.carried)
            (rw (equals_self v') (Reports-finish c _)))))

try_handle-Reports :
    (c : Crypto) (m : M c (Unit {0})) (s : Handler c) → Reports c m s → Reports c (try_handle c m) s
unfolding try_handle
try_handle-Reports c m s r = elim (Result-cases (m s).1) [
  | inl (u, e) ↦ rw (e, try_handle) r
  | inr (thrown, e) ↦
      rw (e, try_handle)
        (omega (arith, successes-append (m s).0.outputs (finished_callback (some thrown)), r))
]

buffer-ok :
    (c : Crypto) (fragments : List FragmentedHandshake) (written : List Buffer) (s : Handler c)
    → map_result serialize_fragment fragments ≡ ok written
    → (buffer_handshake_data c fragments s).1 ≡ ok tt
unfolding buffer_handshake_data ◌>>=◌
buffer-ok c fragments written s e = rw e refl

handle_flight-Reports :
    (c : Crypto) (memory : Memory) (options : Options) (messages : List Handshake) (s : Handler c)
    (f : IsFinishedFlight c messages s) (written : List Buffer)
    → map_result serialize_fragment f.fragments ≡ ok written
    → Reports c (handle_flight c memory options messages) s
unfolding handle_flight
handle_flight-Reports c memory options messages s f written wrote =
    let s' = (buffer_handshake_data c f.fragments s).0 in
    let same =
      ap (λ t. handle c memory options t messages) f.is_finished
      ∙ handle-finished c memory options messages in
    let handled : Reports c (handle c memory options f.last.msg_type messages) s' =
      subst (λ (m : M c (Unit {0})). Reports c m s') (sym same)
        (handle_finished-Reports c messages s' f.verified) in
    Reports-bind c _ _ s f.last (λ s. refl) (ap need f.is_last)
      (Reports-bind c _ _ s f.fragments (λ s. refl) f.written
        (Reports-bind c _ _ s tt (buffer-Quiet c f.fragments)
          (buffer-ok c f.fragments written s wrote)
          (Reports-first c _ _ s'
            (λ b.
              when-Quiet c b _
                (when-Quiet c _ _ (Quiet-bind c _ _ (λ s. refl) (λ g. buffer-Quiet c (g ∷ [])))))
            (try_handle-Reports c _ s' handled))))

-- A message that completes a flight which ends with a Finished message that carries the verify data
-- computed for the server, where the messages before it could be written for it, makes the handler
-- report one finished handshake.
pub process_incoming_message-reports :
    (c : Crypto) (memory : Memory) (options : Options) (msg : FragmentedHandshake) (s : Handler c)
    (messages : List Handshake) (written : List Buffer)
    (f : IsFinishedFlight c messages
      (record s { collector = (Incoming.process_incoming_message memory s.collector msg).0 }))
    → (Incoming.process_incoming_message memory s.collector msg).1 ≡ ok (some messages)
    → map_result serialize_fragment f.fragments ≡ ok written
    → successes (process_incoming_message c memory options msg s).0.outputs
      ≡ successes s.outputs + 1
unfolding process_incoming_message
process_incoming_message-reports c memory options msg s messages written f taken wrote =
    Reports-bind c _ _ s (some messages) (λ s. refl) taken
      (handle_flight-Reports c memory options messages _ f written wrote)
