-- ===== src/Socket/Drained.antt =====
-- That nothing waits once the handshake is finished, in every state that a socket comes to.
use node_dtls_client.Prelude.{
  ℕ, ◌≡◌, refl, List, [], ◌∷◌, Bool, true, false, not, ◌&&◌, some, if◌then◌else◌, inl, inr,
  Option-cases, Bool-cases,
}
use node_dtls_client.Errors.{
  ok, err, Result-cases, not_running, socket_closed, handshake_not_finished,
}
use node_dtls_client.Convert.{Buffer}
use node_dtls_client.Crypto.{Crypto}
use node_dtls_client.Connection.Protect.{protection}
use node_dtls_client.Record.{Message, receive}
use node_dtls_client.Socket.{
  Config, Callback, close_udp, next_step, Timer, expect_connection, expect_handshake, Socket,
  Outcome, new_socket, udp_close, send, close, udp_on_listening, expire, udp_on_close, run_callback,
}
use node_dtls_client.Socket.Receive.{on_message, on_messages, udp_on_message}
use node_dtls_client.Socket.Accepted.{on_message-accepts}
use node_dtls_client.Socket.Kept.{
  IsDrained, kill-Keeps, send_alert-Keeps, run_handler-Keeps, next_step-Keeps, record_send-Keeps,
}
use node_dtls_client.Socket.Steps.{
  Step, listening, datagram_arrives, udp_closes, udp_fails, times_out, calls_back, user_sends,
  user_closes, Reachable, start, next,
}

if-IsDrained :
    (c : Crypto) (b : Bool) (m n : Outcome c)
    → IsDrained m.0
    → IsDrained n.0
    → IsDrained (if b then m else n).0
if-IsDrained c true m n h k = h
if-IsDrained c false m n h k = k

on_messages-IsDrained :
    (c : Crypto) (config : Config) (rinfo : ℕ) (msgs : List Message) (s : Socket c)
    → IsDrained s
    → IsDrained (on_messages c config rinfo msgs s).0
unfolding on_messages
on_messages-IsDrained c config rinfo [] s h = h
on_messages-IsDrained c config rinfo (msg ∷ msgs) s h =
    let (first, still) = on_message-accepts c config rinfo msg s h in
    elim (Result-cases (on_message c config rinfo msg s).1) [
      | inr (e, thrown) ↦ rw (thrown, on_messages) (still h)
      | inl (u, fine) ↦
          rw (fine, on_messages)
            (on_messages-IsDrained c config rinfo msgs (on_message c config rinfo msg s).0
              (still h))
    ]

udp_on_message-IsDrained :
    (c : Crypto) (config : Config) (buf : Buffer) (rinfo : ℕ) (s : Socket c)
    → IsDrained s
    → IsDrained (udp_on_message c config buf rinfo s).0
unfolding udp_on_message
udp_on_message-IsDrained c config buf rinfo s h = elim (Option-cases s.handler) [
  | inl missing ↦ rw (missing, udp_on_message) h
  | inr (k, there) ↦
      let (layer', msgs) = receive (protection c) config.memory k.layer buf in
      rw (there, udp_on_message)
        (on_messages-IsDrained c config rinfo msgs
          (record s { handler = some (record k { layer = layer' }) }) h)
]

udp_on_close-IsDrained : (c : Crypto) (s : Socket c) → IsDrained s → IsDrained (udp_on_close c s)
unfolding udp_on_close
udp_on_close-IsDrained c s h = elim (Bool-cases s.is_closed) [
  | inl shut ↦ rw (shut, udp_on_close) h
  | inr alive ↦ rw (alive, udp_on_close) h
]

expire-IsDrained :
    (c : Crypto) (t : Timer) (s : Socket c) → IsDrained s → IsDrained (expire c t s).0
unfolding expire
expire-IsDrained c expect_connection s h =
    if-IsDrained c (not s.is_closed && not s.udp_connected) _ (s, ok tt) ((kill-Keeps c _ s).1 h) h
expire-IsDrained c expect_handshake s h =
    if-IsDrained c (not s.is_closed && not s.handshake_finished) _ (s, ok tt)
      ((kill-Keeps c _ s).1 h) h

run_callback-IsDrained :
    (c : Crypto) (k : Callback) (s : Socket c) → IsDrained s → IsDrained (run_callback c k s).0
unfolding run_callback udp_close
run_callback-IsDrained c close_udp s h = if-IsDrained c s.udp_open _ (s, err not_running) h h
run_callback-IsDrained c (next_step e) s h = (next_step-Keeps c e s).1 h

send-IsDrained :
    (c : Crypto) (content : Buffer) (s : Socket c) → IsDrained s → IsDrained (send c content s).0
unfolding send
send-IsDrained c content s h =
    if-IsDrained c s.is_closed (s, err socket_closed) _ h
      (if-IsDrained c (not s.handshake_finished) (s, err handshake_not_finished) _ h
        ((record_send-Keeps c _ [] s).1 h))

Step-IsDrained :
    (c : Crypto) (config : Config) {s t : Socket c} → Step c config s t → IsDrained s → IsDrained t
unfolding udp_on_listening close
Step-IsDrained c config (listening s on first) h = (run_handler-Keeps c _ _ _).1 h
Step-IsDrained c config (datagram_arrives s buf rinfo on) h =
    udp_on_message-IsDrained c config buf rinfo s h
Step-IsDrained c config (udp_closes s on) h = udp_on_close-IsDrained c s h
Step-IsDrained c config (udp_fails s e on) h = (kill-Keeps c e s).1 h
Step-IsDrained c config (times_out s timer runs) h = expire-IsDrained c timer _ h
Step-IsDrained c config (calls_back s k ks pending) h = run_callback-IsDrained c k _ h
Step-IsDrained c config (user_sends s content) h = send-IsDrained c content s h
Step-IsDrained c config (user_closes s) h = (send_alert-Keeps c _ _ s).1 h

reached-IsDrained :
    (c : Crypto) (config : Config) (s : Socket c) → Reachable c config s → IsDrained s
unfolding new_socket
reached-IsDrained c config s start e = refl
reached-IsDrained c config t (next {s} before step) e =
    Step-IsDrained c config step (reached-IsDrained c config s before) e

-- In every state that a new socket comes to, no application data waits once the handshake is finished.
pub Reachable-IsDrained :
    (c : Crypto) (config : Config) (s : Socket c)
    → Reachable c config s
    → (if s.handshake_finished then s.buffered_messages else []) ≡ []
Reachable-IsDrained c config s reached = elim (Bool-cases s.handshake_finished) [
  | inl finished ↦ rw finished (reached-IsDrained c config s reached finished)
  | inr pending ↦ rw pending refl
]
