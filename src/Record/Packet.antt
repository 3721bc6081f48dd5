-- ===== src/Record/Packet.antt =====
-- Records on the wire: `DTLSCompressed` and `DTLSCiphertext`, and the loop that takes a datagram
-- apart.
use node_dtls_client.Prelude.{
  ℕ, zero, suc, ◌+◌, List, [], ◌∷◌, some, length, ltb, ◌==◌, if◌then◌else◌,
}
use node_dtls_client.Errors.{Result, ok, err, ◌>>=◌, type_error}
use node_dtls_client.Convert.{Buffer}
use node_dtls_client.TypeSpecs.{Fields, struct}
use node_dtls_client.Codec.{Memory, Value, num, bytes, object, nil, cons, serialize, deserialize}
use node_dtls_client.Messages.{dtls_ciphertext}

-- A negative number is its 32-bit pattern: `~n` is 2 ^ 32 - 1 - n.
pub record ProtocolVersion : Type 0 where
  pub major : ℕ
  pub minor : ℕ

-- The fields that `DTLSPlaintext`, `DTLSCompressed` and `DTLSCiphertext` share.
pub record DtlsPacket : Type 0 where
  pub type : ℕ
  pub version : ProtocolVersion
  pub epoch : ℕ
  pub sequence_number : ℕ
  pub fragment : Buffer

unfoldable pub to_value : DtlsPacket → Value
to_value p = object (
    cons (num (some p.type)) (
      cons (object (cons (num (some p.version.major)) (cons (num (some p.version.minor)) nil))) (
        cons (num (some p.epoch))
          (cons (num (some p.sequence_number)) (cons (bytes p.fragment) nil)))))

-- Off the wire every field is a number, since the fragment is read last.
unfoldable pub of_value : Value → Result DtlsPacket
of_value
      (object (
        cons (num (some t)) (
          cons
            (object (cons (num (some x)) (cons (num (some y)) nil)))
            (cons (num (some e)) (cons (num (some s)) (cons (bytes b) nil)))))) =
    ok (record {
      type = t;
      version = record { major = x; minor = y };
      epoch = e;
      sequence_number = s;
      fragment = b;
    })
of_value _ = err type_error

-- `packet.serialize()`, by the spec of its class.
unfoldable pub serialize_packet : Fields → DtlsPacket → Result Buffer
unfolding to_value
serialize_packet spec p = serialize (struct spec) (to_value p)

-- `DTLSCiphertext.from`
unfoldable pub packet_from : Memory → Buffer → ℕ → Result (DtlsPacket × ℕ)
unfolding of_value
packet_from memory buf offset = deserialize memory (struct dtls_ciphertext) buf offset >>= λ (v, n).
    of_value v >>= λ p. ok (p, n)

-- The loop of `receive`, with fuel: an error ends it, and what was read so far is kept. Each round
-- takes at least one byte.
unfoldable pub parse_packets : Memory → Buffer → ℕ → ℕ → List DtlsPacket
parse_packets memory buf zero offset = []
parse_packets memory buf (suc f) offset =
    let round : List DtlsPacket = elim (packet_from memory buf offset) [
      | ok (p, n) ↦
          let rest = p ∷ parse_packets memory buf f (offset + n) in if n == 0 then [] else rest
      | err e ↦ []
    ] in
    if ltb offset (length buf) then round else []
