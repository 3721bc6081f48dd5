-- ===== src/Socket/Kept.antt =====
-- What keeps the application data that was accepted.
use node_dtls_client.Prelude.{
  ℕ, ◌≡◌, ◌∙◌, refl, ap, List, [], ◌∷◌, ◌++◌, append-nil, Bool, true, false, ◌&&◌, Option, none,
  some, if◌then◌else◌, inl, inr, Option-cases, Bool-cases,
}
use node_dtls_client.Errors.{Error, ok, err, Result-cases, not_running}
use node_dtls_client.Convert.{Buffer}
use node_dtls_client.TypeSpecs.{struct}
use node_dtls_client.Codec.{Value, num, object, nil, cons, serialize, deserialize}
use node_dtls_client.Messages.{alert as alert_fields}
use node_dtls_client.Fragment.Wire.{parse_fragment}
use node_dtls_client.Crypto.{Crypto}
use node_dtls_client.Connection.Protect.{protection}
use node_dtls_client.Record.{Message, process_outgoing_message}
use node_dtls_client.Handshaker.{
  Alert, Output, datagram, alert_datagram, finished_callback, Handler, M,
}
use node_dtls_client.Socket.{
  Config, Event, connected, message, closed, failed, sent, Callback, Socket, Outcome, and_then,
  udp_close, kill_connection, udp_send, record_send, send_alert, close, to_events, do_next_step,
  handle_output, handle_outputs, run_handler,
}
use node_dtls_client.Socket.Receive.{
  is_number, on_handshake, on_change_cipher_spec, act_on_alert, on_alert,
}

-- The data of the messages emitted.
unfoldable pub emitted : List Event → List (Buffer × ℕ)
emitted [] = []
emitted (connected ∷ es) = emitted es
emitted (message content rinfo ∷ es) = (content, rinfo) ∷ emitted es
emitted (closed ∷ es) = emitted es
emitted (failed e ∷ es) = emitted es
emitted (sent buf ∷ es) = emitted es

pub emitted-append : (es fs : List Event) → emitted (es ++ fs) ≡ emitted es ++ emitted fs
unfolding emitted
emitted-append [] fs = refl
emitted-append (connected ∷ es) fs = emitted-append es fs
emitted-append (message content rinfo ∷ es) fs =
    ap (λ x. (content, rinfo) ∷ x) (emitted-append es fs)
emitted-append (closed ∷ es) fs = emitted-append es fs
emitted-append (failed e ∷ es) fs = emitted-append es fs
emitted-append (sent buf ∷ es) fs = emitted-append es fs

pub emitted-to_events : (ms : List (Buffer × ℕ)) → emitted (to_events ms) ≡ ms
unfolding emitted
emitted-to_events [] = refl
emitted-to_events ((content, rinfo) ∷ ms) = ap (λ x. (content, rinfo) ∷ x) (emitted-to_events ms)

-- The data that was emitted, and that waits for the handshake.
abbrev pub accepted : {c : Crypto} → Socket c → List (Buffer × ℕ)
accepted s = emitted s.events ++ s.buffered_messages

-- Nothing waits once the handshake is finished.
abbrev pub IsDrained : {c : Crypto} → Socket c → Type 0
IsDrained s = s.handshake_finished ≡ true → s.buffered_messages ≡ []

-- The data accepted is `d`, and nothing waits that should not.
abbrev pub Kept : (c : Crypto) → Socket c → Socket c → List (Buffer × ℕ) → Type 0
Kept c s t d = (accepted t ≡ d) × (IsDrained s → IsDrained t)

abbrev pub Keeps : (c : Crypto) → (Socket c → Outcome c) → Type 0
Keeps c f = (s : Socket c) → Kept c s (f s).0 (accepted s)

pub silent :
    (es : List Event) (e : Event) (waiting : List (Buffer × ℕ))
    → emitted (e ∷ []) ≡ []
    → emitted (es ++ e ∷ []) ++ waiting ≡ emitted es ++ waiting
silent es e waiting none-in =
    ap (λ x. x ++ waiting) (emitted-append es (e ∷ []) ∙ (rw none-in (append-nil (emitted es))))

pub if-Keeps :
    (c : Crypto) (b : Bool) (m n : Outcome c) (s : Socket c)
    → Kept c s m.0 (accepted s)
    → Kept c s n.0 (accepted s)
    → Kept c s (if b then m else n).0 (accepted s)
if-Keeps c true m n s h k = h
if-Keeps c false m n s h k = k

pub and_then-Keeps :
    (c : Crypto) (m : Outcome c) (f : Socket c → Outcome c) (s : Socket c)
    → Kept c s m.0 (accepted s)
    → Keeps c f
    → Kept c s (and_then m f).0 (accepted s)
and_then-Keeps c (t, ok u) f s (e, h) k = ((k t).0 ∙ e, λ d. (k t).1 (h d))
and_then-Keeps c (t, err e) f s h k = h

pub kill-Keeps : (c : Crypto) (e : Error) → Keeps c (kill_connection c e)
unfolding kill_connection udp_close emitted
kill-Keeps c e s =
    if-Keeps c s.is_closed (s, ok tt) _ s (refl, λ d. d)
      (elim (Bool-cases s.udp_open) [
        | inl running ↦ rw running (silent s.events (failed e) s.buffered_messages refl, λ d. d)
        | inr stopped ↦ rw stopped (refl, λ d. d)
      ])

pub udp_send-Keeps : (c : Crypto) (buf : Buffer) (ks : List Callback) → Keeps c (udp_send c buf ks)
unfolding udp_send emitted
udp_send-Keeps c buf ks s =
    if-Keeps c s.udp_open _ (s, err not_running) s
      (silent s.events (sent buf) s.buffered_messages refl, λ d. d) (refl, λ d. d)

pub record_send-Keeps :
    (c : Crypto) (msg : Message) (ks : List Callback) → Keeps c (record_send c msg ks)
unfolding record_send
record_send-Keeps c msg ks s = elim (Option-cases s.handler) [
  | inl missing ↦ rw (missing, record_send) (refl, λ d. d)
  | inr (k, there) ↦ elim (Result-cases (process_outgoing_message (protection c) k.layer msg).1) [
    | inr (e, thrown) ↦ rw (there, thrown, record_send) (refl, λ d. d)
    | inl (buf, made) ↦ rw (there, made, record_send) (udp_send-Keeps c buf ks _)
  ]
]

pub send_alert-Keeps : (c : Crypto) (a : Alert) (ks : List Callback) → Keeps c (send_alert c a ks)
unfolding send_alert serialize
send_alert-Keeps c a ks s = record_send-Keeps c _ ks s

pub next_step-Keeps : (c : Crypto) (e : Option Error) → Keeps c (do_next_step c e)
unfolding do_next_step emitted
next_step-Keeps c (some e) s = kill-Keeps c e s
next_step-Keeps c none s = (
  append-nil (emitted (s.events ++ connected ∷ to_events s.buffered_messages))
      ∙ emitted-append s.events (connected ∷ to_events s.buffered_messages)
      ∙ ap (λ x. emitted s.events ++ x) (emitted-to_events s.buffered_messages),
  λ d e. refl,
)

pub output-Keeps : (c : Crypto) (o : Output) → Keeps c (handle_output c o)
unfolding handle_output
output-Keeps c (datagram buf) s = udp_send-Keeps c buf [] s
output-Keeps c (alert_datagram buf e) s = udp_send-Keeps c buf _ s
output-Keeps c (finished_callback e) s = next_step-Keeps c e s

pub outputs-Keeps : (c : Crypto) (os : List Output) → Keeps c (handle_outputs c os)
unfolding handle_outputs
outputs-Keeps c [] s = (refl, λ d. d)
outputs-Keeps c (o ∷ os) s =
    and_then-Keeps c (handle_output c o s) (handle_outputs c os) s (output-Keeps c o s)
      (outputs-Keeps c os)

pub run_handler-Keeps :
    (c : Crypto) (m : M c (Unit {0})) (k : Handler c) → Keeps c (run_handler c m k)
unfolding run_handler
run_handler-Keeps c m k s =
    let (k', r) = m (record k { outputs = []; udp_open = s.udp_open }) in
    let s' : Socket c = record s { handler = some (record k' { outputs = [] }) } in
    and_then-Keeps c (handle_outputs c k'.outputs s') (λ t. (t, r)) s
      (outputs-Keeps c k'.outputs s') (λ t. (refl, λ d. d))

pub on_handshake-Keeps :
    (c : Crypto) (config : Config) (content : Buffer) → Keeps c (on_handshake c config content)
unfolding on_handshake
on_handshake-Keeps c config content s = elim (Result-cases (parse_fragment config.memory content)) [
  | inr (e, thrown) ↦ rw (thrown, on_handshake) (refl, λ d. d)
  | inl (f, parsed) ↦ elim (Option-cases s.handler) [
    | inl missing ↦ rw (parsed, missing, on_handshake) (refl, λ d. d)
    | inr (k, there) ↦ rw (parsed, there, on_handshake) (run_handler-Keeps c _ k s)
  ]
]

pub on_change-Keeps : (c : Crypto) → Keeps c (on_change_cipher_spec c)
unfolding on_change_cipher_spec
on_change-Keeps c s = elim (Option-cases s.handler) [
  | inl missing ↦ rw (missing, on_change_cipher_spec) (refl, λ d. d)
  | inr (k, there) ↦ rw (there, on_change_cipher_spec) (refl, λ d. d)
]

pub act-Keeps : (c : Crypto) (v : Value) → Keeps c (act_on_alert c v)
unfolding act_on_alert close
act-Keeps c (object (cons (num level) (cons (num description) nil))) s =
    if-Keeps c (is_number level 2) _ _ s (kill-Keeps c _ s) (
      if-Keeps c (is_number level 1 && is_number description 0) _ (s, ok tt) s
        (send_alert-Keeps c _ _ s) (refl, λ d. d))
act-Keeps c v s = (refl, λ d. d)

pub on_alert-Keeps :
    (c : Crypto) (config : Config) (content : Buffer) → Keeps c (on_alert c config content)
unfolding on_alert
on_alert-Keeps c config content s =
    elim (Result-cases (deserialize config.memory (struct alert_fields) content 0)) [
      | inr (e, thrown) ↦ rw (thrown, on_alert) (refl, λ d. d)
      | inl ((v, n), parsed) ↦ rw (parsed, on_alert) (act-Keeps c v s)
    ]
