-- ===== src/Socket/Sound.antt =====
-- The events of a socket in every state that it comes to.
use node_dtls_client.Prelude.{
  ℕ, refl, List, [], ◌∷◌, true, false, not, ◌&&◌, some, ◌==◌, inl, inr, arith, Option-cases,
  Bool-cases,
}
use node_dtls_client.Errors.{ok, err, Result-cases, not_running, fatal_alert}
use node_dtls_client.Convert.{Buffer}
use node_dtls_client.Crypto.{Crypto}
use node_dtls_client.Connection.Protect.{protection}
use node_dtls_client.Record.{Message, receive}
use node_dtls_client.Codec.{Value, num, object, nil, cons, deserialize}
use node_dtls_client.Fragment.Wire.{parse_fragment}
use node_dtls_client.TypeSpecs.{struct}
use node_dtls_client.Messages.{alert as alert_fields}
use node_dtls_client.Handshaker.Send.{handshake_content}
use node_dtls_client.Handshaker.Handle.{alert_content}
use node_dtls_client.Socket.{
  application_data, Config, message, Callback, close_udp, next_step, Timer, expect_connection,
  expect_handshake, Socket, new_socket, udp_close, udp_on_listening, expire, udp_on_close,
  run_callback,
}
use node_dtls_client.Socket.Receive.{
  is_number, change_cipher_spec_content, on_handshake, on_change_cipher_spec, act_on_alert,
  on_alert, on_application_data, on_message, on_messages, udp_on_message,
}
use node_dtls_client.Socket.Events.{
  after_connected, has_connected, endings, IsSound, Sound, IsSound-more,
}
use node_dtls_client.Socket.Steps.{
  Step, listening, datagram_arrives, udp_closes, udp_fails, times_out, calls_back, user_sends,
  user_closes, Reachable, start, next,
}
use node_dtls_client.Socket.Emits.{
  and_then-Sound, if-Sound, closed-Sound, kill-Sound, send-Sound, close-Sound, next_step-Sound,
  run_handler-Sound,
}

on_handshake-Sound :
    (c : Crypto) (config : Config) (content : Buffer) (s : Socket c)
    → Sound c s
    → Sound c (on_handshake c config content s).0
unfolding on_handshake
on_handshake-Sound c config content s h =
    elim (Result-cases (parse_fragment config.memory content)) [
      | inr (e, thrown) ↦ rw (thrown, on_handshake) h
      | inl (f, parsed) ↦ elim (Option-cases s.handler) [
        | inl missing ↦ rw (parsed, missing, on_handshake) h
        | inr (k, there) ↦ rw (parsed, there, on_handshake) (run_handler-Sound c _ k s h)
      ]
    ]

on_change-Sound : (c : Crypto) (s : Socket c) → Sound c s → Sound c (on_change_cipher_spec c s).0
unfolding on_change_cipher_spec
on_change-Sound c s h = elim (Option-cases s.handler) [
  | inl missing ↦ rw (missing, on_change_cipher_spec) h
  | inr (k, there) ↦ rw (there, on_change_cipher_spec) h
]

act-Sound : (c : Crypto) (v : Value) (s : Socket c) → Sound c s → Sound c (act_on_alert c v s).0
unfolding act_on_alert
act-Sound c (object (cons (num level) (cons (num description) nil))) s h =
    if-Sound c (is_number level 2) _ _ (λ _. kill-Sound c fatal_alert s h)
      (λ _.
        if-Sound c (is_number level 1 && is_number description 0) _ (s, ok tt)
          (λ _. close-Sound c s h) (λ _. h))
act-Sound c v s h = h

on_alert-Sound :
    (c : Crypto) (config : Config) (content : Buffer) (s : Socket c)
    → Sound c s
    → Sound c (on_alert c config content s).0
unfolding on_alert
on_alert-Sound c config content s h =
    elim (Result-cases (deserialize config.memory (struct alert_fields) content 0)) [
      | inr (e, thrown) ↦ rw (thrown, on_alert) h
      | inl ((v, n), parsed) ↦ rw (parsed, on_alert) (act-Sound c v s h)
    ]

on_data-Sound :
    (c : Crypto) (content : Buffer) (rinfo : ℕ) (s : Socket c)
    → Sound c s
    → Sound c (on_application_data c content rinfo s).0
unfolding on_application_data after_connected has_connected endings
on_data-Sound c content rinfo s h =
    if-Sound c s.handshake_finished _ _
      (λ finished.
        let up = h.up finished in
        IsSound-more s.events (message content rinfo ∷ []) s.handshake_finished s.handshake_finished
          s.is_closed (rw up refl) (λ _. up) refl h)
      (λ _. h)

on_message-Sound :
    (c : Crypto) (config : Config) (rinfo : ℕ) (msg : Message) (s : Socket c)
    → Sound c s
    → Sound c (on_message c config rinfo msg s).0
unfolding on_message
on_message-Sound c config rinfo msg s h =
    if-Sound c (msg.type == handshake_content) _ _
      (λ _. on_handshake-Sound c config msg.content s h)
      (λ _.
        if-Sound c (msg.type == change_cipher_spec_content) _ _ (λ _. on_change-Sound c s h)
          (λ _.
            if-Sound c (msg.type == alert_content) _ _
              (λ _. on_alert-Sound c config msg.content s h)
              (λ _.
                if-Sound c (msg.type == application_data) _ (s, ok tt)
                  (λ _. on_data-Sound c msg.content rinfo s h) (λ _. h))))

on_messages-Sound :
    (c : Crypto) (config : Config) (rinfo : ℕ) (msgs : List Message) (s : Socket c)
    → Sound c s
    → Sound c (on_messages c config rinfo msgs s).0
unfolding on_messages
on_messages-Sound c config rinfo [] s h = h
on_messages-Sound c config rinfo (msg ∷ msgs) s h =
    and_then-Sound c (on_message c config rinfo msg s) (on_messages c config rinfo msgs)
      (on_message-Sound c config rinfo msg s h) (on_messages-Sound c config rinfo msgs)

udp_on_message-Sound :
    (c : Crypto) (config : Config) (buf : Buffer) (rinfo : ℕ) (s : Socket c)
    → Sound c s
    → Sound c (udp_on_message c config buf rinfo s).0
unfolding udp_on_message
udp_on_message-Sound c config buf rinfo s h = elim (Option-cases s.handler) [
  | inl missing ↦ rw (missing, udp_on_message) h
  | inr (k, there) ↦
      let (layer', msgs) = receive (protection c) config.memory k.layer buf in
      rw (there, udp_on_message)
        (on_messages-Sound c config rinfo msgs
          (record s { handler = some (record k { layer = layer' }) }) h)
]

udp_on_close-Sound : (c : Crypto) (s : Socket c) → Sound c s → Sound c (udp_on_close c s)
unfolding udp_on_close
udp_on_close-Sound c s h = elim (Bool-cases s.is_closed) [
  | inl shut ↦
      rw (shut, udp_on_close)
        (let h' : IsSound s.events s.handshake_finished true = rw (← shut) h in h')
  | inr alive ↦
      let h' : IsSound s.events s.handshake_finished false = rw (← alive) h in
      rw (alive, udp_on_close) (closed-Sound s.events s.handshake_finished h')
]

expire-Sound : (c : Crypto) (t : Timer) (s : Socket c) → Sound c s → Sound c (expire c t s).0
unfolding expire
expire-Sound c expect_connection s h =
    if-Sound c (not s.is_closed && not s.udp_connected) _ (s, ok tt) (λ _. kill-Sound c _ s h)
      (λ _. h)
expire-Sound c expect_handshake s h =
    if-Sound c (not s.is_closed && not s.handshake_finished) _ (s, ok tt) (λ _. kill-Sound c _ s h)
      (λ _. h)

run_callback-Sound :
    (c : Crypto) (k : Callback) (s : Socket c) → Sound c s → Sound c (run_callback c k s).0
unfolding run_callback udp_close
run_callback-Sound c close_udp s h = if-Sound c s.udp_open _ (s, err not_running) (λ _. h) (λ _. h)
run_callback-Sound c (next_step e) s h = next_step-Sound c e s h

listening-Sound :
    (c : Crypto) (config : Config) (s : Socket c)
    → Sound c s
    → Sound c (udp_on_listening c config s).0
unfolding udp_on_listening
listening-Sound c config s h = run_handler-Sound c _ _ _ h

Step-Sound :
    (c : Crypto) (config : Config) {s t : Socket c} → Step c config s t → Sound c s → Sound c t
Step-Sound c config (listening s on first) h = listening-Sound c config s h
Step-Sound c config (datagram_arrives s buf rinfo on) h =
    udp_on_message-Sound c config buf rinfo s h
Step-Sound c config (udp_closes s on) h = udp_on_close-Sound c s h
Step-Sound c config (udp_fails s e on) h = kill-Sound c e s h
Step-Sound c config (times_out s timer runs) h = expire-Sound c timer _ h
Step-Sound c config (calls_back s k ks pending) h = run_callback-Sound c k _ h
Step-Sound c config (user_sends s content) h = send-Sound c content s h
Step-Sound c config (user_closes s) h = close-Sound c s h

-- In every state that a new socket comes to, each message was emitted after `connected`, the handshake
-- counts as finished only after it, and the end of the connection, as `close` or as `error`, was
-- reported once at most, and only if the socket is closed.
pub Reachable-IsSound :
    (c : Crypto) (config : Config) (s : Socket c)
    → Reachable c config s
    → IsSound s.events s.handshake_finished s.is_closed
unfolding new_socket after_connected endings
Reachable-IsSound c config s start = record { ordered = refl; up = λ e. cc; ended = omega arith }
Reachable-IsSound c config t (next {s} before step) =
    Step-Sound c config step (Reachable-IsSound c config s before)
