-- ===== src/Record/Datagram.antt =====
-- Datagrams: the loop that takes one apart, and the records that are joined into one.
use native.Mathlib.Decide.{ℕ_discrete}
use node_dtls_client.Prelude.{
  ℕ, zero, suc, ◌+◌, ◌%◌, ◌^◌, ◌≤◌, ◌<◌, ◌≡◌, ◌≢◌, ◌∙◌, refl, ap, sym, List, [], ◌∷◌, ◌++◌, true,
  false, some, map, length, length-append, append_assoc, ltb, ◌==◌, if◌then◌else◌, arith, inl, inr,
  lt→ltb, le→ltb,
}
use node_dtls_client.Errors.{Result, ok, Result-cases, ◌>>=◌}
use node_dtls_client.Convert.{Buffer, number_to_buffer, fill_bytes, fit_to_whole_bytes, count_bytes}
use node_dtls_client.TypeSpecs.{struct}
use node_dtls_client.Codec.{Memory, serialize, deserialize, with_length}
use node_dtls_client.Codec.Fits.{Fits}
use node_dtls_client.Codec.RoundTrip.{spec_trip}
use node_dtls_client.Messages.{dtls_ciphertext, dtls_compressed}
use node_dtls_client.Record.Packet.{
  DtlsPacket, to_value, of_value, serialize_packet, packet_from, parse_packets,
}
use node_dtls_client.Fragment.Sort.{All}

parse_packets-end :
    (memory : Memory) (buf : Buffer) (f offset : ℕ)
    → length buf ≤ offset
    → parse_packets memory buf f offset ≡ []
unfolding parse_packets
parse_packets-end memory buf zero offset h = refl
parse_packets-end memory buf (suc f) offset h = rw (le→ltb (length buf) offset h) refl

pos-==0 : (n : ℕ) → n ≢ 0 → (n == 0) ≡ false
pos-==0 n h = ground arith

-- The loop over a datagram ends by its own test: from any offset, fuel for each byte that is left is
-- enough, and more changes nothing.
pub parse_packets_enough :
    (memory : Memory) (buf : Buffer) (f g offset : ℕ)
    → length buf ≤ f + offset
    → length buf ≤ g + offset
    → parse_packets memory buf f offset ≡ parse_packets memory buf g offset
unfolding parse_packets
parse_packets_enough memory buf zero g offset h k =
    sym (parse_packets-end memory buf g offset (omega arith))
parse_packets_enough memory buf (suc f) zero offset h k =
    parse_packets-end memory buf (suc f) offset (omega arith)
parse_packets_enough memory buf (suc f) (suc g) offset h k =
    elim (Result-cases (packet_from memory buf offset)) [
      | inr (e, failed) ↦ rw failed refl
      | inl ((p, n), read) ↦ rw read (elim (ℕ_discrete n 0) [
        | yes nothing ↦ rw nothing refl
        | no some_bytes ↦ rw (pos-==0 n some_bytes) (
            ap (λ rest. if ltb offset (length buf) then p ∷ rest else [])
              (parse_packets_enough memory buf f g (offset + n) (omega arith) (omega arith)))
      ])
    ]

-- The packet that arrives: each part of the version is a byte on the wire.
abbrev pub on_wire : DtlsPacket → DtlsPacket
on_wire p = record p {
  version = record { major = p.version.major % 256; minor = p.version.minor % 256 };
}

-- The fields within their sizes, the sequence number within the 32 bits that are written of it.
pub record IsPacket (p : DtlsPacket) : Type 0 where
  pub type_fits : p.type < 2 ^ 8
  pub epoch_fits : p.epoch < 2 ^ 16
  pub number_fits : p.sequence_number < 2 ^ 32
  pub fragment_fits : length p.fragment ≤ 1024 + 2 ^ 14

-- The records of a flight joined, as `sendFlight` does.
abbrev pub serialize_packets : List DtlsPacket → Result Buffer
serialize_packets [] = ok []
serialize_packets (p ∷ ps) = serialize_packet dtls_compressed p >>= λ first.
    serialize_packets ps >>= λ rest. ok (first ++ rest)

on_wire-Fits :
    (p : DtlsPacket) → IsPacket p → Fits false (struct dtls_ciphertext) (to_value (on_wire p))
unfolding Fits to_value
on_wire-Fits p h = omega arith

byte_mod : (v : ℕ) → number_to_buffer (some v) 8 ≡ number_to_buffer (some (v % 256)) 8
unfolding number_to_buffer fill_bytes
byte_mod v = let e : v % 256 % 256 ≡ v % 256 = omega arith in rw e refl

-- `DTLSCompressed` is laid out like `DTLSCiphertext`.
serialize_packet-on_wire :
    (p : DtlsPacket)
    → serialize_packet dtls_compressed p ≡ serialize_packet dtls_ciphertext (on_wire p)
unfolding serialize_packet to_value serialize with_length fit_to_whole_bytes count_bytes
serialize_packet-on_wire p = rw (← byte_mod p.version.major, ← byte_mod p.version.minor) refl

serialize_packet_head :
    (p : DtlsPacket)
    → (tail : Buffer) × (serialize_packet dtls_ciphertext p ≡ ok (p.type % 256 ∷ tail))
unfolding serialize_packet to_value serialize number_to_buffer fill_bytes
serialize_packet_head p = (_, refl)

packet_from-deserialize :
    (memory : Memory) (buf : Buffer) (offset n : ℕ) (q : DtlsPacket)
    → deserialize memory (struct dtls_ciphertext) buf offset ≡ ok (to_value q, n)
    → packet_from memory buf offset ≡ ok (q, n)
unfolding packet_from of_value to_value
packet_from-deserialize memory buf offset n q e = rw e refl

-- One record, wherever it stands in a datagram.
packet_trip :
    (memory : Memory) (p : DtlsPacket)
    → IsPacket p
    → (bs : Buffer) × (serialize_packet dtls_compressed p ≡ ok bs)
      × (0 < length bs)
      × ((pre rest : Buffer)
          → packet_from memory (pre ++ (bs ++ rest)) (length pre) ≡ ok (on_wire p, length bs))
unfolding serialize_packet
packet_trip memory p h =
    let (bs, written, back) =
      spec_trip memory false (struct dtls_ciphertext) (to_value (on_wire p)) (on_wire-Fits p h) in
    let (tail, head) = serialize_packet_head (on_wire p) in
    let same : bs ≡ (on_wire p).type % 256 ∷ tail = cc in
    (
      bs,
      serialize_packet-on_wire p ∙ written,
      rw same (omega arith),
      λ pre rest.
          packet_from-deserialize memory (pre ++ (bs ++ rest)) (length pre) (length bs) (on_wire p)
            (back pre rest (λ e. cc)),
    )

-- The first round of the loop, where the rest is known.
packet_step :
    (memory : Memory) (p : DtlsPacket) (first rest : Buffer) (qs : List DtlsPacket)
    → 0 < length first
    → ((pre rest : Buffer)
        → packet_from memory (pre ++ (first ++ rest)) (length pre) ≡ ok (on_wire p, length first))
    → ((pre : Buffer) (f : ℕ)
        → length rest ≤ f
        → parse_packets memory (pre ++ rest) f (length pre) ≡ qs)
    → (pre : Buffer) (f : ℕ) → length (first ++ rest) ≤ f
    → parse_packets memory (pre ++ (first ++ rest)) f (length pre) ≡ on_wire p ∷ qs
unfolding parse_packets
packet_step memory p first rest qs pos back more pre zero l =
    absurd (omega (arith, length-append first rest))
packet_step memory p first rest qs pos back more pre (suc f) l =
    let less : ltb (length pre) (length (pre ++ (first ++ rest))) ≡ true =
      lt→ltb _ _ (omega (arith, length-append pre (first ++ rest), length-append first rest)) in
    let at : length pre + length first ≡ length (pre ++ first) =
      omega (arith, length-append pre first) in
    let ih : parse_packets memory (pre ++ (first ++ rest)) f (length pre + length first) ≡ qs =
      rw (at, ← append_assoc pre first rest)
        (more (pre ++ first) f (omega (arith, length-append first rest))) in
    rw (back pre rest, less, pos-==0 (length first) (omega arith), ih) refl

packets_trip :
    (memory : Memory) (ps : List DtlsPacket)
    → All IsPacket ps
    → (bs : Buffer) × (serialize_packets ps ≡ ok bs)
      × ((pre : Buffer) (f : ℕ)
          → length bs ≤ f
          → parse_packets memory (pre ++ bs) f (length pre) ≡ map on_wire ps)
packets_trip memory [] h = (
  [],
  refl,
  λ pre f l.
      parse_packets-end memory (pre ++ []) f (length pre) (omega (arith, length-append pre [])),
)
packets_trip memory (p ∷ ps) (k, h) =
    let (first, w, pos, back) = packet_trip memory p k in
    let (rest, w', more) = packets_trip memory ps h in
    (first ++ rest, rw (w, w') refl, packet_step memory p first rest (map on_wire ps) pos back more)

-- The records of a flight, joined into one datagram, are taken apart again into the same records in
-- the same order, with each part of their versions cut to a byte. Their fields are within their sizes
-- and their sequence numbers below 2 ^ 32.
pub parse_packets-serialize_packets :
    (memory : Memory) (ps : List DtlsPacket)
    → All IsPacket ps
    → (bs : Buffer) × (serialize_packets ps ≡ ok bs)
      × (parse_packets memory bs (length bs) 0 ≡ map on_wire ps)
parse_packets-serialize_packets memory ps h =
    let (bs, written, back) = packets_trip memory ps h in
    (bs, written, back [] (length bs) (omega arith))
