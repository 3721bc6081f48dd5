-- ===== src/Handshaker/Tests.antt =====
-- Runs of the handshake handler, with a toy crypto.
use node_dtls_client.Prelude.{◌+◌, ◌≡◌, ◌≢◌, refl, List, [], ◌∷◌, false, none, some, replicate}
use node_dtls_client.Errors.{ok}
use node_dtls_client.Codec.{
  object, cons, bytes, nil, Memory, serialize, deserialize, read_unbound, copy_bytes,
}
use node_dtls_client.Messages.{handshake_message}
use node_dtls_client.Fragment.{FragmentedHandshake, is_fragmented, split, split_loop}
use node_dtls_client.Fragment.Body.{Handshake, from_fragment, parse_body, to_fragment}
use node_dtls_client.Fragment.Wire.{serialize_fragment}
use node_dtls_client.Flight as Incoming
use node_dtls_client.Flight.{insert_message, consecutive, check_flight, take_flight}
use node_dtls_client.Keys.{prf, p_hash, expand, a_value}
use node_dtls_client.Record.{
  new_record_layer, create_epoch, process_flight, process_outgoing_message, protect, plaintext,
  finish_message,
}
use node_dtls_client.Record.Packet.{serialize_packet}
use node_dtls_client.Crypto.Toy.{toy}
use node_dtls_client.Block.{server}
use node_dtls_client.Connection.{ConnectionState, new_connection_state}
use node_dtls_client.Connection.Protect.{protection}
use node_dtls_client.Connection.Tests.{test_suite}
use node_dtls_client.Handshaker.{output, finished_callback, Handler, ◌>>=◌, state_at}
use node_dtls_client.Handshaker.Send.{
  fragment_of, map_result, buffer_handshake_data, needs_to_hash_message, send_flight,
  send_flight_begin, send_flight_process_partial, send_flight_finish, send_buffered, push_fragments,
  process_handshake, process_handshakes, number_message,
}
use node_dtls_client.Handshaker.Handle.{
  raw_message, concat, Options, compute_verify_data, handle, handle_finished, finish_handshake,
}
use node_dtls_client.Handshaker.Process.{
  before_handler, process_incoming_message, handle_flight, try_handle, new_handler,
}
use node_dtls_client.Handshaker.Numbers.{IsSentFlight, send_flight-IsSentFlight}
use node_dtls_client.Handshaker.Quiet.{successes}
use node_dtls_client.Handshaker.Complete.{process_incoming_message-reports}
use node_dtls_client.Handshaker.Verified.{
  IsFinishedFlight, process_incoming_message-IsFinishedFlight,
}

abbrev pub test_options : Options
test_options = record {
  psk_table = (1 ∷ [], 2 ∷ []) ∷ [];
  reset_window_before_server_hello = false;
}

abbrev pub zeros : Memory
zeros = λ i n. 0

-- A handler that waits for a Finished message, with the secrets in the epoch that it reads.
abbrev waiting_state : ConnectionState
waiting_state = record new_connection_state {
  cipher_suite = some test_suite;
  master_secret = some (7 ∷ []);
}

abbrev waiting : Handler toy
waiting =
    record (new_handler toy (record (new_record_layer (protection toy)) {
      epochs = record (create_epoch (protection toy) 0) { connection_state = waiting_state } ∷ [];
    })) {
      collector = record {
        next_seq = 0;
        incomplete = [];
        complete = [];
        expected = some (20 ∷ []);
      };
    }

abbrev finished_message : FragmentedHandshake
finished_message = record {
  msg_type = 20;
  total_length = 12;
  message_seq = 0;
  fragment_offset = 0;
  fragment = replicate 12 0;
}

finished_reported :
    (process_incoming_message toy zeros test_options finished_message waiting).0.outputs
    ≡ finished_callback none ∷ []
unfolding ◌>>=◌ output process_incoming_message handle_flight map_result buffer_handshake_data
    try_handle handle handle_finished finish_handshake compute_verify_data state_at
    Incoming.process_incoming_message insert_message consecutive check_flight take_flight
    is_fragmented from_fragment parse_body handshake_message deserialize read_unbound copy_bytes prf
    p_hash expand a_value new_record_layer create_epoch new_connection_state fragment_of to_fragment
    serialize serialize_fragment
finished_reported = refl

finished_is_loud :
    successes (process_incoming_message toy zeros test_options finished_message waiting).0.outputs
    ≢ successes waiting.outputs
unfolding successes
finished_is_loud same = let same' = rw finished_reported at same in cc

process_incoming_message-IsFinishedFlight_example :
    let (k, taken) = Incoming.process_incoming_message zeros waiting.collector finished_message in
    (messages : List Handshake) × (taken ≡ ok (some messages))
    × IsFinishedFlight toy messages (record waiting { collector = k })
process_incoming_message-IsFinishedFlight_example =
    process_incoming_message-IsFinishedFlight toy zeros test_options finished_message waiting
      finished_is_loud

-- A handler that waits for a Finished message, and has no secrets.
abbrev unready : Handler toy
unready = record (new_handler toy (new_record_layer (protection toy))) {
  collector = record { next_seq = 0; incomplete = []; complete = []; expected = some (20 ∷ []) };
}

abbrev exchange_message : Handshake
exchange_message = raw_message 16 (1 ∷ [])

exchange_sent : (send_flight toy (exchange_message ∷ []) (20 ∷ []) false unready).1 ≡ ok tt
unfolding send_flight send_flight_begin send_flight_process_partial process_handshakes
    process_handshake number_message push_fragments fragment_of to_fragment needs_to_hash_message
    buffer_handshake_data map_result split split_loop serialize_fragment serialize
    send_flight_finish send_buffered process_flight process_outgoing_message protect plaintext
    finish_message serialize_packet new_record_layer create_epoch new_connection_state ◌>>=◌ output
exchange_sent = refl

send_flight-IsSentFlight_example :
    IsSentFlight toy
      (exchange_message ∷ [])
      unready
      (send_flight toy (exchange_message ∷ []) (20 ∷ []) false unready).0
send_flight-IsSentFlight_example =
    send_flight-IsSentFlight toy (exchange_message ∷ []) (20 ∷ []) unready exchange_sent

abbrev parsed_finished : Handshake
parsed_finished = record {
  msg_type = 20;
  message_seq = 0;
  body = object (cons (bytes (replicate 12 0)) nil);
}

abbrev after_finished : Handler toy
after_finished = record waiting {
  collector = (Incoming.process_incoming_message zeros waiting.collector finished_message).0;
}

finished_taken :
    (Incoming.process_incoming_message zeros waiting.collector finished_message).1
    ≡ ok (some (parsed_finished ∷ []))
unfolding Incoming.process_incoming_message insert_message consecutive check_flight take_flight
    is_fragmented from_fragment parse_body handshake_message deserialize read_unbound copy_bytes
finished_taken = refl

no_fragments :
    map_result fragment_of (before_handler parsed_finished (parsed_finished ∷ [])) ≡ ok []
unfolding map_result
no_fragments = refl

nothing_written : map_result serialize_fragment [] ≡ ok []
unfolding map_result
nothing_written = refl

expected_zeros :
    (compute_verify_data toy
      (concat (buffer_handshake_data toy [] after_finished).0.all_handshake_data)
      server
      (buffer_handshake_data toy [] after_finished).0).1
    ≡ ok (replicate 12 0)
unfolding ◌>>=◌ map_result buffer_handshake_data compute_verify_data state_at prf p_hash expand
    a_value new_record_layer create_epoch new_connection_state
expected_zeros = refl

process_incoming_message-reports_example :
    successes (process_incoming_message toy zeros test_options finished_message waiting).0.outputs
    ≡ successes waiting.outputs + 1
process_incoming_message-reports_example =
    process_incoming_message-reports toy zeros test_options finished_message waiting
      (parsed_finished ∷ []) []
      (record {
        last = parsed_finished;
        is_last = refl;
        is_finished = refl;
        fragments = [];
        written = no_fragments;
        verified = record {
          message = parsed_finished;
          verify_data = replicate 12 0;
          is_last = refl;
          carried = refl;
          is_expected = expected_zeros;
        };
      })
      finished_taken nothing_written
