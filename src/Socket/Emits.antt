-- ===== src/Socket/Emits.antt =====
-- The events that sending, the handshake and the end of a socket emit.
use node_dtls_client.Prelude.{
  ℕ, ◌≡◌, ◌∙◌, refl, List, [], ◌∷◌, ◌++◌, Bool, true, false, not, Option, none, some, if◌then◌else◌,
  inl, inr, arith, Option-cases, Bool-cases,
}
use node_dtls_client.Errors.{
  Error, ok, err, Result-cases, socket_closed, handshake_not_finished, not_running,
}
use node_dtls_client.Convert.{Buffer}
use node_dtls_client.Crypto.{Crypto}
use node_dtls_client.Connection.Protect.{protection}
use node_dtls_client.Record.{Message, process_outgoing_message}
use node_dtls_client.Handshaker.{
  Alert, Output, datagram, alert_datagram, finished_callback, Handler, M,
}
use node_dtls_client.Codec.{serialize}
use node_dtls_client.Socket.{
  Event, connected, closed, failed, sent, Callback, Socket, Outcome, emit, and_then, udp_close,
  kill_connection, udp_send, record_send, send, send_alert, close, to_events, do_next_step,
  handle_output, handle_outputs, run_handler,
}
use node_dtls_client.Socket.Events.{
  after_connected, after_connected-append, has_connected-append, has_connected, endings,
  endings-append, IsSound, Sound, IsSound-more,
}

pub and_then-Sound :
    (c : Crypto) (m : Outcome c) (f : Socket c → Outcome c)
    → Sound c m.0
    → ((s : Socket c) → Sound c s → Sound c (f s).0)
    → Sound c (and_then m f).0
and_then-Sound c (s, ok u) f h k = k s h
and_then-Sound c (s, err e) f h k = h

pub if-Sound :
    (c : Crypto) (b : Bool) (m n : Outcome c)
    → (b ≡ true → Sound c m.0)
    → (b ≡ false → Sound c n.0)
    → Sound c (if b then m else n).0
if-Sound c true m n h k = h refl
if-Sound c false m n h k = k refl

pub sent-Sound :
    (c : Crypto) (s : Socket c) (buf : Buffer) → Sound c s → Sound c (emit (sent buf) s)
unfolding after_connected has_connected endings
sent-Sound c s buf h =
    IsSound-more s.events (sent buf ∷ []) s.handshake_finished s.handshake_finished s.is_closed refl
      h.up refl h

-- The one ending, where none was reported.
pub ending-Sound :
    (es : List Event) (e : Event) (up : Bool)
    → after_connected (has_connected false es) (e ∷ []) ≡ true
    → has_connected (has_connected false es) (e ∷ []) ≡ has_connected false es
    → endings (e ∷ []) ≡ 1
    → IsSound es up false
    → IsSound (es ++ e ∷ []) up true
ending-Sound es e up good same one h = record {
  ordered = after_connected-append false es (e ∷ []) ∙ (rw (h.ordered, good) refl);
  up = λ u. has_connected-append false es (e ∷ []) ∙ same ∙ h.up u;
  ended = omega (arith, endings-append es (e ∷ []), one, h.ended);
}

-- Closed, and nothing reported.
pub shut-Sound : (es : List Event) (up : Bool) → IsSound es up false → IsSound es up true
shut-Sound es up h = record { ordered = h.ordered; up = h.up; ended = omega (arith, h.ended) }

pub failed-Sound :
    (es : List Event) (e : Error) (up : Bool)
    → IsSound es up false
    → IsSound (es ++ failed e ∷ []) up true
unfolding after_connected has_connected endings
failed-Sound es e up h = ending-Sound es (failed e) up refl refl refl h

pub closed-Sound :
    (es : List Event) (up : Bool) → IsSound es up false → IsSound (es ++ closed ∷ []) up true
unfolding after_connected has_connected endings
closed-Sound es up h = ending-Sound es closed up refl refl refl h

pub kill-Sound :
    (c : Crypto) (e : Error) (s : Socket c) → Sound c s → Sound c (kill_connection c e s).0
unfolding kill_connection udp_close
kill-Sound c e s h =
    if-Sound c s.is_closed (s, ok tt) _ (λ shut. h)
      (λ alive.
        let h' : IsSound s.events s.handshake_finished false = rw (← alive) h in
        elim (Bool-cases s.udp_open) [
          | inl running ↦ rw running (failed-Sound s.events e s.handshake_finished h')
          | inr stopped ↦ rw stopped (shut-Sound s.events s.handshake_finished h')
        ])

pub udp_send-Sound :
    (c : Crypto) (buf : Buffer) (ks : List Callback) (s : Socket c)
    → Sound c s
    → Sound c (udp_send c buf ks s).0
unfolding udp_send
udp_send-Sound c buf ks s h =
    if-Sound c s.udp_open _ (s, err not_running) (λ running. sent-Sound c s buf h) (λ stopped. h)

pub record_send-Sound :
    (c : Crypto) (msg : Message) (ks : List Callback) (s : Socket c)
    → Sound c s
    → Sound c (record_send c msg ks s).0
unfolding record_send
record_send-Sound c msg ks s h = elim (Option-cases s.handler) [
  | inl missing ↦ rw (missing, record_send) h
  | inr (k, there) ↦ elim (Result-cases (process_outgoing_message (protection c) k.layer msg).1) [
    | inr (e, thrown) ↦ rw (there, thrown, record_send) h
    | inl (buf, made) ↦ rw (there, made, record_send) (udp_send-Sound c buf ks _ h)
  ]
]

pub send-Sound :
    (c : Crypto) (content : Buffer) (s : Socket c) → Sound c s → Sound c (send c content s).0
unfolding send
send-Sound c content s h =
    if-Sound c s.is_closed (s, err socket_closed) _ (λ _. h)
      (λ _.
        if-Sound c (not s.handshake_finished) (s, err handshake_not_finished) _ (λ _. h)
          (λ _. record_send-Sound c _ [] s h))

pub send_alert-Sound :
    (c : Crypto) (a : Alert) (ks : List Callback) (s : Socket c)
    → Sound c s
    → Sound c (send_alert c a ks s).0
unfolding send_alert serialize
send_alert-Sound c a ks s h = record_send-Sound c _ ks s h

pub close-Sound : (c : Crypto) (s : Socket c) → Sound c s → Sound c (close c s).0
unfolding close
close-Sound c s h = send_alert-Sound c _ _ s h

pub messages_after :
    (ms : List (Buffer × ℕ))
    → (after_connected true (to_events ms) ≡ true)
      × (has_connected true (to_events ms) ≡ true)
      × (endings (to_events ms) ≡ 0)
unfolding after_connected has_connected endings
messages_after [] = (refl, refl, refl)
messages_after ((content, rinfo) ∷ ms) = messages_after ms

pub next_step-Sound :
    (c : Crypto) (e : Option Error) (s : Socket c) → Sound c s → Sound c (do_next_step c e s).0
unfolding do_next_step after_connected has_connected endings
next_step-Sound c (some e) s h = kill-Sound c e s h
next_step-Sound c none s h =
    let (good, up, none-more) = messages_after s.buffered_messages in
    IsSound-more s.events (connected ∷ to_events s.buffered_messages) s.handshake_finished true
      s.is_closed good (λ _. up) none-more h

pub output-Sound :
    (c : Crypto) (o : Output) (s : Socket c) → Sound c s → Sound c (handle_output c o s).0
unfolding handle_output
output-Sound c (datagram buf) s h = udp_send-Sound c buf [] s h
output-Sound c (alert_datagram buf e) s h = udp_send-Sound c buf _ s h
output-Sound c (finished_callback e) s h = next_step-Sound c e s h

pub outputs-Sound :
    (c : Crypto) (os : List Output) (s : Socket c) → Sound c s → Sound c (handle_outputs c os s).0
unfolding handle_outputs
outputs-Sound c [] s h = h
outputs-Sound c (o ∷ os) s h =
    and_then-Sound c (handle_output c o s) (handle_outputs c os) (output-Sound c o s h)
      (outputs-Sound c os)

pub run_handler-Sound :
    (c : Crypto) (m : M c (Unit {0})) (k : Handler c) (s : Socket c)
    → Sound c s
    → Sound c (run_handler c m k s).0
unfolding run_handler
run_handler-Sound c m k s h =
    let (k', r) = m (record k { outputs = []; udp_open = s.udp_open }) in
    let s' : Socket c = record s { handler = some (record k' { outputs = [] }) } in
    and_then-Sound c (handle_outputs c k'.outputs s') (λ t. (t, r))
      (outputs-Sound c k'.outputs s' h) (λ t u. u)
