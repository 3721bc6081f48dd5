-- ===== src/Handshaker/Quiet.antt =====
-- What does not report the end of the handshake: everything but the handler of a Finished flight.
use node_dtls_client.Prelude.{
  ℕ, ◌+◌, ◌≡◌, ◌∙◌, refl, List, [], ◌∷◌, ◌++◌, Bool, true, false, none, some, inl, inr, not, ◌&&◌,
  Bool-cases, Option-cases, get_elem?, length, arith,
}
use node_dtls_client.Errors.{Error, Result-cases}
use node_dtls_client.Crypto.{Crypto}
use node_dtls_client.Handshaker.{
  Alert, Output, datagram, alert_datagram, is_sent, finished_callback, Handler, M, ◌>>=◌, output,
  state_at,
}
use node_dtls_client.Convert.{Buffer}
use node_dtls_client.Block.{ConnectionEnd, client}
use node_dtls_client.Fragment.{FragmentedHandshake}
use node_dtls_client.Fragment.Body.{Handshake}
use node_dtls_client.Record.{Message, process_flight, process_outgoing_message}
use node_dtls_client.Connection.Protect.{protection}
use node_dtls_client.Handshaker.Send.{
  finished_type, buffer_handshake_data, push_change_cipher_spec, number_message, push_fragments,
  process_handshake, process_handshakes, guard, send_flight_begin, send_flight_process_partial,
  send_buffered, send_flight_finish, send_flight, when,
}
use node_dtls_client.Handshaker.Handle.{
  finish_with_alert, alert_content, verifying_epoch, compute_verify_data, send_finished_flight,
}

-- Whether it reports that the handshake is finished, with neither an alert nor an error.
abbrev pub reports : Output → ℕ
reports (datagram b) = 0
reports (alert_datagram b e) = 0
reports (finished_callback none) = 1
reports (finished_callback (some e)) = 0

unfoldable pub successes : List Output → ℕ
successes [] = 0
successes (o ∷ os) = reports o + successes os

pub successes-append :
    (os : List Output) (o : Output) → successes (os ++ o ∷ []) ≡ successes os + reports o
unfolding successes
successes-append [] o = omega arith
successes-append (p ∷ os) o = omega (arith, successes-append os o)

abbrev pub Quiet : (c : Crypto) {A : Type 0} → M c A → Type 0
Quiet c m = (s : Handler c) → successes (m s).0.outputs ≡ successes s.outputs

pub Quiet-bind :
    (c : Crypto) {A B : Type 0} (m : M c A) (f : A → M c B)
    → Quiet c m
    → ((a : A) → Quiet c (f a))
    → Quiet c (m >>= f)
unfolding ◌>>=◌
Quiet-bind c m f q r s = elim (Result-cases (m s).1) [
  | inl (a, e) ↦ rw (e, ◌>>=◌) (r a (m s).0 ∙ q s)
  | inr (thrown, e) ↦ rw (e, ◌>>=◌) (q s)
]

pub state_at-Quiet : (c : Crypto) (i : ℕ) → Quiet c (state_at c i)
unfolding state_at
state_at-Quiet c i s = elim (Option-cases (get_elem? s.layer.epochs i)) [
  | inl e ↦ rw (e, state_at) refl
  | inr (a, e) ↦ rw (e, state_at) refl
]

pub when-Quiet : (c : Crypto) (b : Bool) (m : M c (Unit {0})) → Quiet c m → Quiet c (when c b m)
when-Quiet c true m q s = q s
when-Quiet c false m q s = refl

pub output-Quiet : (c : Crypto) (o : Output) → reports o ≡ 0 → Quiet c (output o)
unfolding output
output-Quiet c o e s = elim (Bool-cases (is_sent o && not s.udp_open)) [
  | inl shut ↦ rw (shut, output) refl
  | inr goes ↦ rw (goes, output) (omega (arith, successes-append s.outputs o, e))
]

pub buffer-Quiet :
    (c : Crypto) (fragments : List FragmentedHandshake)
    → Quiet c (buffer_handshake_data c fragments)
unfolding buffer_handshake_data
buffer-Quiet c fragments = Quiet-bind c _ _ (λ s. refl) (λ w s. refl)

push-Quiet : (c : Crypto) → Quiet c (push_change_cipher_spec c)
unfolding push_change_cipher_spec
push-Quiet c = Quiet-bind c _ _ (λ s. refl) (λ b s. refl)

number-Quiet :
    (c : Crypto) (again : Bool) (place : ℕ) (h : Handshake)
    → Quiet c (number_message c again place h)
unfolding number_message
number-Quiet c true place h s = refl
number-Quiet c false place h s =
    Quiet-bind c _ _ (λ s. refl) (λ s. Quiet-bind c _ _ (λ t. refl) (λ u t. refl)) s

push_fragments-Quiet :
    (c : Crypto) (again : Bool) (g : Handshake) → Quiet c (push_fragments c again g)
unfolding push_fragments
push_fragments-Quiet c again g =
    Quiet-bind c _ _ (λ s. refl)
      (λ f.
        Quiet-bind c _ _ (when-Quiet c _ _ (buffer-Quiet c (f ∷ [])))
          (λ _. Quiet-bind c _ _ (λ s. refl) (λ fs. Quiet-bind c _ _ (λ s. refl) (λ w s. refl))))

process_handshake-Quiet :
    (c : Crypto) (again : Bool) (place : ℕ) (h : Handshake)
    → Quiet c (process_handshake c again place h)
unfolding process_handshake
process_handshake-Quiet c again place h =
    Quiet-bind c _ _ (when-Quiet c _ _ (push-Quiet c))
      (λ _. Quiet-bind c _ _ (number-Quiet c again place h) (push_fragments-Quiet c again))

process_handshakes-Quiet :
    (c : Crypto) (again : Bool) (place : ℕ) (hs : List Handshake)
    → Quiet c (process_handshakes c again place hs)
unfolding process_handshakes
process_handshakes-Quiet c again place [] s = refl
process_handshakes-Quiet c again place (h ∷ hs) s =
    Quiet-bind c _ _ (process_handshake-Quiet c again place h)
      (λ _. process_handshakes-Quiet c again (place + 1) hs) s

guard-Quiet : (c : Crypto) (b : Bool) → Quiet c (guard c b)
guard-Quiet c true s = refl
guard-Quiet c false s = refl

partial-Quiet :
    (c : Crypto) (hs : List Handshake) (again : Bool)
    → Quiet c (send_flight_process_partial c hs again)
unfolding send_flight_process_partial
partial-Quiet c hs again =
    Quiet-bind c _ _ (λ s. refl)
      (λ s. Quiet-bind c _ _ (guard-Quiet c s.begin_was_called) (λ _.
        Quiet-bind c _ _ (λ t. refl)
          (λ _. process_handshakes-Quiet c again (length s.last_flight) hs)))

send_buffered-Quiet : (c : Crypto) → Quiet c (send_buffered c)
unfolding send_buffered
send_buffered-Quiet c s =
    elim (Result-cases (process_flight (protection c) s.layer s.buffered_outgoing).1) [
      | inl (buf, e) ↦
          rw (e, send_buffered)
            (output-Quiet c (datagram buf) refl
              (record s { layer = (process_flight (protection c) s.layer s.buffered_outgoing).0 }))
      | inr (thrown, e) ↦ rw (e, send_buffered) refl
    ]

send_flight_finish-Quiet : (c : Crypto) (types : List ℕ) → Quiet c (send_flight_finish c types)
unfolding send_flight_finish
send_flight_finish-Quiet c types =
    Quiet-bind c _ _ (λ s. refl) (λ _. Quiet-bind c _ _ (send_buffered-Quiet c) (λ _ s. refl))

begin-Quiet : (c : Crypto) → Quiet c (send_flight_begin c)
unfolding send_flight_begin
begin-Quiet c s = refl

pub send_flight-Quiet :
    (c : Crypto) (hs : List Handshake) (types : List ℕ) (again : Bool)
    → Quiet c (send_flight c hs types again)
unfolding send_flight
send_flight-Quiet c hs types again =
    Quiet-bind c _ _ (begin-Quiet c)
      (λ _. Quiet-bind c _ _ (partial-Quiet c hs again) (λ _. send_flight_finish-Quiet c types))

pub compute_verify_data-Quiet :
    (c : Crypto) (d : Buffer) (source : ConnectionEnd) → Quiet c (compute_verify_data c d source)
unfolding compute_verify_data
compute_verify_data-Quiet c d source =
    Quiet-bind c _ _ (λ s. refl)
      (λ s. Quiet-bind c _ _ (state_at-Quiet c (verifying_epoch source s)) (λ state.
        Quiet-bind c _ _ (λ s. refl)
          (λ suite.
            Quiet-bind c _ _ (λ s. refl) (λ hash. Quiet-bind c _ _ (λ s. refl) (λ m s. refl)))))

pub send_finished-Quiet : (c : Crypto) (h : Handshake) → Quiet c (send_finished_flight c h)
unfolding send_finished_flight
send_finished-Quiet c h = Quiet-bind c _ _ (begin-Quiet c) (λ _.
    Quiet-bind c _ _ (partial-Quiet c (h ∷ []) false) (λ _.
      Quiet-bind c _ _ (λ s. refl)
        (λ s. Quiet-bind c _ _ (compute_verify_data-Quiet c _ client) (λ v.
          Quiet-bind c _ _ (partial-Quiet c _ false)
            (λ _. send_flight_finish-Quiet c (finished_type ∷ []))))))

sent_alert-Quiet :
    (c : Crypto) (msg : Message)
    → Quiet c (λ s.
      let (layer', r) = process_outgoing_message (protection c) s.layer msg in
      (record s { layer = layer' }, r))
sent_alert-Quiet c msg s = refl

pub finish_with_alert-Quiet :
    (c : Crypto) (a : Alert) (e : Error) → Quiet c (finish_with_alert c a e)
unfolding finish_with_alert
finish_with_alert-Quiet c a e =
    Quiet-bind c _ _ (λ s. refl)
      (λ content.
        Quiet-bind c _ _ (sent_alert-Quiet c (record { type = alert_content; content = content }))
          (λ buf. output-Quiet c (alert_datagram buf (some e)) refl))
