-- ===== src/Socket/Tests.antt =====
-- Runs of a socket, with a toy crypto.
use node_dtls_client.Prelude.{arith, ap, ◌≤◌, ◌≡◌, refl, [], ◌∷◌, none, some, if◌then◌else◌}
use node_dtls_client.Errors.{err, socket_closed, connection_timed_out}
use node_dtls_client.Convert.{Buffer}
use node_dtls_client.Record.{new_record_layer, receive}
use node_dtls_client.Crypto.Toy.{toy}
use node_dtls_client.Connection.Protect.{protection}
use node_dtls_client.Handshaker.{Handler}
use node_dtls_client.Handshaker.Process.{new_handler}
use node_dtls_client.Handshaker.Tests.{test_options, zeros}
use node_dtls_client.Socket.{
  send, Config, message, connected, failed, expect_connection, Socket, new_socket, udp_close,
  kill_connection, do_next_step, expire,
}
use node_dtls_client.Socket.Receive.{on_application_data, udp_on_message}
use node_dtls_client.Socket.Events.{endings, IsSound}
use node_dtls_client.Socket.Ended.{send-endings}
use node_dtls_client.Socket.Steps.{Reachable, start, next, times_out}
use node_dtls_client.Socket.Sound.{Reachable-IsSound}
use node_dtls_client.Socket.Accepted.{IsAccepted, udp_on_message-IsAccepted}
use node_dtls_client.Socket.Kept.{IsDrained}
use node_dtls_client.Socket.Drained.{Reachable-IsDrained}

abbrev test_config : Config
test_config = record {
  options = test_options;
  ciphers = none;
  memory = zeros;
  seconds = 5;
  draw = 0;
}

-- The connection times out before the UDP socket listens.
abbrev timed_out : Socket toy
timed_out = (expire toy expect_connection (record (new_socket toy) { connection_timeout = none })).0

timed_out_events : timed_out.events ≡ failed connection_timed_out ∷ []
unfolding expire kill_connection udp_close new_socket
timed_out_events = refl

timed_out-Reachable : Reachable toy test_config timed_out
unfolding new_socket
timed_out-Reachable = next start (times_out (new_socket toy) expect_connection refl)

Reachable-IsSound_example :
    IsSound timed_out.events timed_out.handshake_finished timed_out.is_closed
Reachable-IsSound_example = Reachable-IsSound toy test_config timed_out timed_out-Reachable

Reachable-IsDrained_example :
    (if timed_out.handshake_finished then timed_out.buffered_messages else []) ≡ []
Reachable-IsDrained_example = Reachable-IsDrained toy test_config timed_out timed_out-Reachable

-- Data that comes before the handshake is finished is emitted after it.
emitted_later :
    (do_next_step toy none (on_application_data toy (1 ∷ []) 7 (new_socket toy)).0).0.events
    ≡ connected ∷ message (1 ∷ []) 7 ∷ []
unfolding do_next_step on_application_data new_socket
emitted_later = refl

abbrev test_handler : Handler toy
test_handler = new_handler toy (new_record_layer (protection toy))

abbrev handshaking : Socket toy
handshaking = record (new_socket toy) { handler = some test_handler }

handshaking-IsDrained : IsDrained handshaking
unfolding new_socket
handshaking-IsDrained e = refl

-- A record of epoch 0 with two bytes of application data.
abbrev data_record : Buffer
data_record = 23 ∷ 254 ∷ 253 ∷ 0 ∷ 0 ∷ 0 ∷ 0 ∷ 0 ∷ 0 ∷ 0 ∷ 1 ∷ 0 ∷ 2 ∷ 104 ∷ 105 ∷ []

udp_on_message-IsAccepted_example :
    let (layer', msgs) = receive (protection toy) zeros test_handler.layer data_record in
    IsAccepted toy test_config 7 msgs
      (record handshaking { handler = some (record test_handler { layer = layer' }) })
      (udp_on_message toy test_config data_record 7 handshaking)
udp_on_message-IsAccepted_example =
    udp_on_message-IsAccepted toy test_config data_record 7 handshaking test_handler refl
      handshaking-IsDrained

timed_out_is_over : 1 ≤ endings timed_out.events
unfolding endings
timed_out_is_over = let e = ap endings timed_out_events in omega (arith, e)

send-endings_example : send toy (1 ∷ []) timed_out ≡ (timed_out, err socket_closed)
send-endings_example =
    send-endings toy test_config timed_out (1 ∷ []) timed_out-Reachable timed_out_is_over
