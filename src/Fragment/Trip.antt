-- ===== src/Fragment/Trip.antt =====
-- A handshake message from one side to the other: made a fragment, split, written, read and parsed.
use node_dtls_client.Prelude.{
  ◌-◌, ◌^◌, ◌≤◌, ◌<◌, ◌≡◌, ◌∙◌, refl, ap, sym, [], ◌∷◌, append-nil, none, some, length, true, arith,
}
use node_dtls_client.Errors.{ok, ◌>>=◌}
use node_dtls_client.Convert.{Buffer}
use node_dtls_client.TypeSpecs.{struct, Fields}
use node_dtls_client.Codec.{Memory, serialize}
use node_dtls_client.Codec.Fits.{Fits}
use node_dtls_client.Messages.{handshake_message}
use node_dtls_client.Fragment.{FragmentedHandshake, split, max_payload_size, header_length}
use node_dtls_client.Fragment.Split.{split_whole}
use node_dtls_client.Fragment.Wire.{
  serialize_fragment, parse_fragment, parse_fragment-serialize_fragment,
}
use node_dtls_client.Fragment.Body.{
  Handshake, to_fragment, from_fragment, from_fragment-to_fragment,
}

-- The fragment of a message whose body is known.
abbrev pub whole_fragment : Handshake → Buffer → FragmentedHandshake
whole_fragment h body = record {
  msg_type = h.msg_type;
  total_length = length body;
  message_seq = h.message_seq;
  fragment_offset = 0;
  fragment = body;
}

to_fragment-serialize :
    (fields : Fields) (h : Handshake) (body : Buffer)
    → serialize (struct fields) h.body ≡ ok body
    → to_fragment fields h ≡ ok (whole_fragment h body)
unfolding to_fragment
to_fragment-serialize fields h body e = rw e refl

from_fragment-whole :
    (memory : Memory) (fields : Fields) (h : Handshake) (body : Buffer)
    → handshake_message h.msg_type ≡ some fields
    → Fits true (struct fields) h.body
    → serialize (struct fields) h.body ≡ ok body
    → from_fragment memory (whole_fragment h body) ≡ ok h
from_fragment-whole memory fields h body class fits written =
    let (f, made, back) = from_fragment-to_fragment memory fields h class fits in
    let same : f ≡ whole_fragment h body =
      let both : ok f ≡ ok (whole_fragment h body) =
        sym made ∙ to_fragment-serialize fields h body written in
      cc in
    ap (from_fragment memory) (sym same) ∙ back

split-default :
    (m : FragmentedHandshake) → split m none ≡ split m (some (max_payload_size - header_length))
unfolding split
split-default m = refl

-- A message of a supported type whose body fits its spec, is not empty and fits one datagram is split by
-- `split` into one fragment, which is written without an exception; and the receiver, who reads those
-- bytes and parses them, gets the message back. The type and the number are within their sizes.
pub message_trip :
    (memory : Memory) (fields : Fields) (h : Handshake) (body : Buffer)
    → handshake_message h.msg_type ≡ some fields
    → Fits true (struct fields) h.body
    → serialize (struct fields) h.body ≡ ok body
    → 0 < length body
    → length body ≤ max_payload_size - header_length
    → h.msg_type < 2 ^ 8
    → h.message_seq < 2 ^ 16
    → (f : FragmentedHandshake) × (to_fragment fields h ≡ ok f)
      × (split f none ≡ ok (f ∷ []))
      × ((bs : Buffer) × (serialize_fragment f ≡ ok bs)
          × ((parse_fragment memory bs >>= from_fragment memory) ≡ ok h))
message_trip memory fields h body class fits written pos short type_fits seq_fits =
    let f = whole_fragment h body in
    let (bs, sent, back) = parse_fragment-serialize_fragment memory f [] (record {
      type_fits = type_fits;
      total_fits = omega arith;
      seq_fits = seq_fits;
      offset_fits = omega arith;
      fragment_fits = omega arith;
    }) in
    let got : parse_fragment memory bs ≡ ok f =
      ap (parse_fragment memory) (sym (append-nil bs)) ∙ back in
    (
      f,
      to_fragment-serialize fields h body written,
      split-default f ∙ split_whole f (max_payload_size - header_length) (refl, refl) pos short,
      (bs, sent, rw got (from_fragment-whole memory fields h body class fits written)),
    )
