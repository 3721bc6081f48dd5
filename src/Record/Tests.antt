-- ===== src/Record/Tests.antt =====
-- Runs of the record layer without a cipher.
use node_dtls_client.Prelude.{
  ℕ, ◌≡◌, ◌<◌, ◌^◌, refl, ap, sym, [], ◌∷◌, false, some, length, map, arith,
}
use node_dtls_client.Errors.{ok}
use node_dtls_client.Record.{
  Epoch, Protection, RecordLayer, Message, new_record_layer, create_epoch, process_outgoing_message,
  receive_packets, acceptable, advance_read_epoch, filter_packets, decrypt_packets, decrypt_packet,
}
use node_dtls_client.Window.{reset, has_received, may_receive, locate, flag_is_set}
use node_dtls_client.Record.Packet.{DtlsPacket}
use node_dtls_client.Record.Invariant.{IsLayer, new-IsLayer}
use node_dtls_client.Record.Once.{
  send_step, read_step, here, next, Reach-IsLayer, receive-once, receive_packets_twice,
}
use node_dtls_client.Fragment.Sort.{All}
use node_dtls_client.Codec.{Memory}
use node_dtls_client.Convert.{Buffer}
use node_dtls_client.Record.Datagram.{
  parse_packets_enough, parse_packets-serialize_packets, IsPacket, serialize_packets, on_wire,
}
use node_dtls_client.Record.Packet.{parse_packets}

same_header :
    (p q : DtlsPacket)
    → some p ≡ some q
    → (q.epoch ≡ p.epoch) × (q.sequence_number ≡ p.sequence_number)
same_header p q e =
    let same : p ≡ q = cc in (ap (λ x. x.epoch) (sym same), ap (λ x. x.sequence_number) (sym same))

-- The state of a connection before any cipher: packets pass as they are.
abbrev null_protection : Protection
null_protection = record {
  ConnectionState = Unit;
  new_state = tt;
  protocol_version = λ s. record { major = 254; minor = 253 };
  has_cipher = λ s. false;
  encrypt = λ s p. (s, ok p);
  decrypt = λ s p. (s, some p);
  decrypt_header = λ s p q e. same_header p q e;
}

abbrev start : RecordLayer null_protection
start = new_record_layer null_protection

abbrev old_memory : Memory
old_memory start' pos = 170

abbrev first_epoch : Epoch null_protection
first_epoch = create_epoch null_protection 0

abbrev second_epoch : Epoch null_protection
second_epoch = record first_epoch { next_sequence_number = 1 }

abbrev packet : ℕ → DtlsPacket
packet n = record {
  type = 22;
  version = record { major = 254; minor = 253 };
  epoch = 0;
  sequence_number = n;
  fragment = 1 ∷ [];
}

abbrev greeting : Message
greeting = record { type = 22; content = 1 ∷ 2 ∷ [] }

abbrev after_sent : RecordLayer null_protection
after_sent = (process_outgoing_message null_protection start greeting).0

abbrev after_one : RecordLayer null_protection
after_one = (receive_packets null_protection start (packet 3 ∷ [])).0

Reach-IsLayer_example :
    IsLayer null_protection (
      advance_read_epoch null_protection
        (process_outgoing_message null_protection start greeting).0)
Reach-IsLayer_example = Reach-IsLayer null_protection (
    next (next here (send_step start greeting))
      (read_step (process_outgoing_message null_protection start greeting).0))

receive-once_example :
    All
      (λ p.
        acceptable null_protection (process_outgoing_message null_protection after_one greeting).0 p
        ≡ false)
      (receive_packets null_protection start (packet 3 ∷ [])).1
receive-once_example =
    receive-once null_protection start (packet 3 ∷ [])
      (process_outgoing_message null_protection after_one greeting).0 (new-IsLayer null_protection)
      (next here (send_step after_one greeting))

-- The packet of that datagram is delivered.
delivered : (receive_packets null_protection start (packet 3 ∷ [])).1 ≡ packet 3 ∷ []
unfolding receive_packets filter_packets acceptable decrypt_packets decrypt_packet new_record_layer
    create_epoch may_receive reset has_received locate flag_is_set
delivered = refl

receive_packets_twice_example :
    (receive_packets null_protection start (packet 3 ∷ packet 3 ∷ [])).1 ≡ packet 3 ∷ packet 3 ∷ []
receive_packets_twice_example =
    receive_packets_twice null_protection start (packet 3) (packet 3) first_epoch
      (unfold acceptable new_record_layer create_epoch may_receive reset has_received locate
          flag_is_set in
        refl)
      (unfold new_record_layer create_epoch in refl) refl refl

parse_packets_enough_example :
    parse_packets old_memory (22 ∷ 254 ∷ []) 2 0 ≡ parse_packets old_memory (22 ∷ 254 ∷ []) 10 0
parse_packets_enough_example =
    parse_packets_enough old_memory (22 ∷ 254 ∷ []) 2 10 0 (omega arith) (omega arith)

packet-IsPacket : (n : ℕ) → n < 2 ^ 32 → IsPacket (packet n)
packet-IsPacket n h = record {
  type_fits = omega arith;
  epoch_fits = omega arith;
  number_fits = h;
  fragment_fits = omega arith;
}

parse_packets-serialize_packets_example :
    (bs : Buffer) × (serialize_packets (packet 3 ∷ packet 4 ∷ []) ≡ ok bs)
    × (parse_packets old_memory bs (length bs) 0 ≡ map on_wire (packet 3 ∷ packet 4 ∷ []))
parse_packets-serialize_packets_example =
    parse_packets-serialize_packets old_memory (packet 3 ∷ packet 4 ∷ [])
      (packet-IsPacket 3 (omega arith), (packet-IsPacket 4 (omega arith), tt))
