-- ===== src/Record.antt =====
-- src/DTLS/RecordLayer.ts. The ciphers of a connection state, src/TLS/BlockCipher.ts and
-- src/TLS/AEADCipher.ts, are taken through the interface `Protection`. The UDP socket is left out:
-- `send` is the buffer that it is handed.
pub mod Packet
pub mod Grows
pub mod Invariant
pub mod Replay
pub mod Once
pub mod Numbers
pub mod Datagram
mod Tests
use node_dtls_client.Prelude.{
  ℕ, zero, suc, ◌+◌, ◌-◌, ◌^◌, ◌≡◌, List, [], ◌∷◌, ◌++◌, Bool, true, false, ◌&&◌, Option, none,
  some, length, max, ltb, leb, ◌==◌, if◌then◌else◌, get_elem?, set,
}
use node_dtls_client.Errors.{Result, ok, err, ◌>>=◌, type_error}
use node_dtls_client.Convert.{Buffer}
use node_dtls_client.Codec.{Memory}
use node_dtls_client.Messages.{dtls_ciphertext, dtls_compressed}
use node_dtls_client.Window.{AntiReplayWindow, reset, may_receive, mark_as_received}
use Packet.{DtlsPacket, ProtocolVersion, serialize_packet, parse_packets}

pub record Message : Type 0 where
  pub type : ℕ
  pub content : Buffer

-- `ContentType.change_cipher_spec`
abbrev pub change_cipher_spec : ℕ
change_cipher_spec = 20

-- What the record layer asks of a connection state. `encrypt` is `Cipher`, which may throw;
-- `decrypt` is `Decipher`, where `none` is an exception. Both may change the state, which caches its
-- delegates. A deciphered packet is made with the header of the packet that came in.
pub record Protection : Type 1 where
  pub ConnectionState : Type 0
  pub new_state : ConnectionState
  pub protocol_version : ConnectionState → ProtocolVersion
  pub has_cipher : ConnectionState → Bool
  pub encrypt : ConnectionState → DtlsPacket → ConnectionState × Result DtlsPacket
  pub decrypt : ConnectionState → DtlsPacket → ConnectionState × Option DtlsPacket
  pub decrypt_header :
      (s : ConnectionState) (p q : DtlsPacket)
      → (decrypt s p).1 ≡ some q
      → (q.epoch ≡ p.epoch) × (q.sequence_number ≡ p.sequence_number)

module _ (c : Protection) where
  open c use {ConnectionState, new_state, protocol_version, has_cipher, encrypt, decrypt}

  -- `next_sequence_number` is `writeSequenceNumber + 1`, which starts at -1.
  pub record Epoch : Type 0 where
    pub index : ℕ
    pub connection_state : ConnectionState
    pub next_sequence_number : ℕ
    pub anti_replay_window : AntiReplayWindow

  pub record RecordLayer : Type 0 where
    pub epochs : List Epoch
    pub read_epoch_nr : ℕ
    pub write_epoch_nr : ℕ

  unfoldable pub create_epoch : ℕ → Epoch
  create_epoch i = record {
    index = i;
    connection_state = new_state;
    next_sequence_number = 0;
    anti_replay_window = reset;
  }

  unfoldable pub new_record_layer : RecordLayer
  unfolding create_epoch
  new_record_layer = record {
    epochs = create_epoch 0 ∷ create_epoch 1 ∷ [];
    read_epoch_nr = 0;
    write_epoch_nr = 0;
  }

  abbrev pub next_epoch_nr : RecordLayer → ℕ
  next_epoch_nr r = max r.read_epoch_nr r.write_epoch_nr + 1

  -- The array has no holes: the next number is at most its length.
  unfoldable pub ensure_next_epoch : RecordLayer → RecordLayer
  unfolding create_epoch
  ensure_next_epoch r =
      if ltb (next_epoch_nr r) (length r.epochs)
      then r
      else record r { epochs = r.epochs ++ create_epoch (next_epoch_nr r) ∷ [] }

  unfoldable pub advance_read_epoch : RecordLayer → RecordLayer
  unfolding ensure_next_epoch
  advance_read_epoch r = ensure_next_epoch (record r { read_epoch_nr = r.read_epoch_nr + 1 })

  unfoldable pub advance_write_epoch : RecordLayer → RecordLayer
  unfolding ensure_next_epoch
  advance_write_epoch r = ensure_next_epoch (record r { write_epoch_nr = r.write_epoch_nr + 1 })

  -- What the handshake does to an epoch, once it has agreed on ciphers and keys: another connection
  -- state.
  unfoldable pub configure : RecordLayer → ℕ → ConnectionState → RecordLayer
  configure r i s = elim (get_elem? r.epochs i) [
    | none ↦ r
    | some e ↦ record r { epochs = set r.epochs i (record e { connection_state = s }) }
  ]

  -- The packet of a message, before it is encrypted. Compression is the identity.
  unfoldable pub plaintext : RecordLayer → Epoch → Message → DtlsPacket
  plaintext r e msg = record {
    type = msg.type;
    version = protocol_version e.connection_state;
    epoch = r.write_epoch_nr;
    sequence_number = e.next_sequence_number;
    fragment = msg.content;
  }

  -- The connection state after the encryption, and the buffer to send.
  unfoldable pub protect : ConnectionState → DtlsPacket → ConnectionState × Result Buffer
  protect s p =
      let (s', q) = encrypt s p in
      if has_cipher s
      then (s', (q >>= λ packet. serialize_packet dtls_ciphertext packet))
      else (s, serialize_packet dtls_compressed p)

  -- What follows the serialization: the write epoch advances after a ChangeCipherSpec.
  unfoldable pub finish_message :
      RecordLayer → Message → Result Buffer → RecordLayer × Result Buffer
  unfolding advance_write_epoch
  finish_message r msg (err e) = (r, err e)
  finish_message r msg (ok buf) =
      (if msg.type == change_cipher_spec then advance_write_epoch r else r, ok buf)

  -- The write epoch with its sequence number taken, and with the connection state after `Cipher`.
  abbrev pub take_number : RecordLayer → Epoch → ConnectionState → RecordLayer
  take_number r e s = record r {
    epochs =
        set r.epochs r.write_epoch_nr
          (record e { connection_state = s; next_sequence_number = e.next_sequence_number + 1 });
  }

  -- The sequence number is taken before anything can throw.
  unfoldable pub process_outgoing_message : RecordLayer → Message → RecordLayer × Result Buffer
  unfolding finish_message protect plaintext
  process_outgoing_message r msg = elim (get_elem? r.epochs r.write_epoch_nr) [
    | none ↦ (r, err type_error)
    | some e ↦
        let (s, result) = protect e.connection_state (plaintext r e msg) in
        finish_message (take_number r e s) msg result
  ]

  -- `sendFlight`: the buffers of the messages joined, unless one of them throws.
  unfoldable pub process_flight : RecordLayer → List Message → RecordLayer × Result Buffer
  unfolding process_outgoing_message
  process_flight r [] = (r, ok [])
  process_flight r (msg ∷ msgs) =
      let (r', first) = process_outgoing_message r msg in
      let more = process_flight r' msgs in
      elim first [ err e ↦ (r', err e) | ok buf ↦ (more.0, (more.1 >>= λ rest. ok (buf ++ rest))) ]

  -- The filter of `receive`: a known epoch that is not past, and a number that its window allows.
  unfoldable pub acceptable : RecordLayer → DtlsPacket → Bool
  acceptable r p = elim (get_elem? r.epochs p.epoch) [
    | none ↦ false
    | some e ↦ leb r.read_epoch_nr p.epoch && may_receive e.anti_replay_window p.sequence_number
  ]

  unfoldable pub filter_packets : RecordLayer → List DtlsPacket → List DtlsPacket
  unfolding acceptable
  filter_packets r [] = []
  filter_packets r (p ∷ ps) =
      if acceptable r p then p ∷ filter_packets r ps else filter_packets r ps

  unfoldable pub decrypt_packet : RecordLayer → DtlsPacket → RecordLayer × Option DtlsPacket
  decrypt_packet r p = elim (get_elem? r.epochs p.epoch) [
    | none ↦ (r, none)
    | some e ↦
        let (s, q) = decrypt e.connection_state p in
        (record r { epochs = set r.epochs p.epoch (record e { connection_state = s }) }, q)
  ]

  -- Packets that could not be decrypted are dropped.
  abbrev pub some_before : Option DtlsPacket → List DtlsPacket → List DtlsPacket
  some_before none ps = ps
  some_before (some p) ps = p ∷ ps

  unfoldable pub decrypt_packets : RecordLayer → List DtlsPacket → RecordLayer × List DtlsPacket
  unfolding decrypt_packet
  decrypt_packets r [] = (r, [])
  decrypt_packets r (p ∷ ps) =
      let (r', q) = decrypt_packet r p in
      let (r'', qs) = decrypt_packets r' ps in (r'', some_before q qs)

  unfoldable pub mark_packet : RecordLayer → DtlsPacket → RecordLayer
  mark_packet r p = elim (get_elem? r.epochs p.epoch) [
    | none ↦ r
    | some e ↦
        let w = mark_as_received e.anti_replay_window p.sequence_number in
        record r { epochs = set r.epochs p.epoch (record e { anti_replay_window = w }) }
  ]

  unfoldable pub mark_packets : RecordLayer → List DtlsPacket → RecordLayer
  unfolding mark_packet
  mark_packets r [] = r
  mark_packets r (p ∷ ps) = mark_packets (mark_packet r p) ps

  abbrev pub to_messages : List DtlsPacket → List Message
  to_messages [] = []
  to_messages (p ∷ ps) = record { type = p.type; content = p.fragment } ∷ to_messages ps

  -- What `receive` does with the packets of a datagram.
  unfoldable pub receive_packets : RecordLayer → List DtlsPacket → RecordLayer × List DtlsPacket
  unfolding filter_packets decrypt_packets mark_packets
  receive_packets r packets =
      let (r', decrypted) = decrypt_packets r (filter_packets r packets) in
      (mark_packets r' decrypted, decrypted)

  unfoldable pub receive : Memory → RecordLayer → Buffer → RecordLayer × List Message
  unfolding receive_packets parse_packets
  receive memory r buf =
      let (r', delivered) = receive_packets r (parse_packets memory buf (length buf) 0) in
      (r', to_messages delivered)
