-- ===== src/Flight/Tests.antt =====
-- Runs of the collector.
use node_dtls_client.Prelude.{ℕ, ◌≡◌, refl, [], ◌∷◌, none, some, arith}
use node_dtls_client.Errors.{ok}
use node_dtls_client.Codec.{Memory, object, nil, deserialize}
use node_dtls_client.Messages.{handshake_message}
use node_dtls_client.Fragment.{FragmentedHandshake, is_fragmented}
use node_dtls_client.Fragment.Body.{Handshake, from_fragment, parse_body}
use node_dtls_client.Flight.{
  Collector, insert_message, consecutive, take_flight, check_flight, process_incoming_message,
}
use node_dtls_client.Flight.Order.{IsFlight, process_incoming_message-IsFlight}
use node_dtls_client.Flight.Stale.{flights, flights_after_stale}

abbrev old_memory : Memory
old_memory start pos = 170

-- A ServerHelloDone, and what it parses to.
abbrev done_fragment : ℕ → FragmentedHandshake
done_fragment n = record {
  msg_type = 14;
  total_length = 0;
  message_seq = n;
  fragment_offset = 0;
  fragment = [];
}

abbrev done_message : ℕ → Handshake
done_message n = record { msg_type = 14; message_seq = n; body = object nil }

abbrev waiting : Collector
waiting = record { next_seq = 1; incomplete = []; complete = []; expected = some (14 ∷ 3 ∷ []) }

abbrev handled : Collector
handled = record { next_seq = 2; incomplete = []; complete = []; expected = none }

parsed : (n : ℕ) → from_fragment old_memory (done_fragment n) ≡ ok (done_message n)
unfolding from_fragment parse_body is_fragmented handshake_message deserialize
parsed n = refl

completed :
    process_incoming_message old_memory waiting (done_fragment 1)
    ≡ (handled, ok (some (done_message 1 ∷ [])))
unfolding process_incoming_message check_flight take_flight consecutive insert_message from_fragment
    parse_body is_fragmented handshake_message deserialize
completed = refl

process_incoming_message-IsFlight_example : IsFlight waiting (done_message 1 ∷ []) handled
process_incoming_message-IsFlight_example =
    process_incoming_message-IsFlight old_memory waiting handled (done_fragment 1)
      (done_message 1 ∷ []) completed

flights_after_stale_example :
    flights old_memory waiting
      ((some (14 ∷ []), done_fragment 0) ∷ (some (14 ∷ []), done_fragment 1) ∷ [])
    ≡ []
flights_after_stale_example =
    flights_after_stale old_memory waiting (some (14 ∷ [])) (done_fragment 0) (done_message 0)
      ((some (14 ∷ []), done_fragment 1) ∷ []) (unfold is_fragmented in refl) (parsed 0)
      (omega arith)
