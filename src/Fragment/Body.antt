-- ===== src/Fragment/Body.antt =====
-- `Handshake` of src/DTLS/Handshake.ts: a message to its unfragmented form, `toFragment`, and back,
-- `fromFragment`.
use node_dtls_client.Prelude.{
  ℕ, ◌≡◌, ◌∙◌, refl, ap, sym, [], append-nil, true, false, Option, none, some, length,
  if◌then◌else◌, arith,
}
use node_dtls_client.Errors.{Result, ok, err, ◌>>=◌, still_fragmented, unsupported_type}
use node_dtls_client.TypeSpecs.{struct, Fields}
use node_dtls_client.Codec.{Memory, Value, serialize, deserialize}
use node_dtls_client.Codec.Fits.{Fits}
use node_dtls_client.Codec.RoundTrip.{deserialize-serialize}
use node_dtls_client.Messages.{handshake_message}
use node_dtls_client.Fragment.{FragmentedHandshake, is_fragmented}

-- A message of a class, whose `body` is the object that the spec of the class lays out.
pub record Handshake : Type 0 where
  pub msg_type : ℕ
  pub message_seq : ℕ
  pub body : Value

-- The fields are those of the message's class.
unfoldable pub to_fragment : Fields → Handshake → Result FragmentedHandshake
to_fragment fields h = serialize (struct fields) h.body >>= λ body. ok (record {
  msg_type = h.msg_type;
  total_length = length body;
  message_seq = h.message_seq;
  fragment_offset = 0;
  fragment = body;
})

unfoldable pub parse_body : Memory → FragmentedHandshake → Option Fields → Result Handshake
parse_body memory assembled none = err unsupported_type
parse_body memory assembled (some fields) =
    deserialize memory (struct fields) assembled.fragment 0 >>= λ (v, n).
    ok (record { msg_type = assembled.msg_type; message_seq = assembled.message_seq; body = v })

unfoldable pub from_fragment : Memory → FragmentedHandshake → Result Handshake
unfolding parse_body
from_fragment memory assembled =
    let parsed = parse_body memory assembled (handshake_message assembled.msg_type) in
    if is_fragmented assembled then err still_fragmented else parsed

whole_is_not_fragmented :
    (f : FragmentedHandshake)
    → f.fragment_offset ≡ 0
    → f.total_length ≡ length f.fragment
    → is_fragmented f ≡ false
unfolding is_fragmented
whole_is_not_fragmented f e same = ground arith

-- A message of a supported type whose body fits the spec of its class is turned into a fragment
-- without an exception, and parsing that fragment gives the message back. Its body may end in data of
-- unbound length.
pub from_fragment-to_fragment :
    (memory : Memory) (fields : Fields) (h : Handshake)
    → handshake_message h.msg_type ≡ some fields
    → Fits true (struct fields) h.body
    → (f : FragmentedHandshake) × (to_fragment fields h ≡ ok f) × (from_fragment memory f ≡ ok h)
unfolding to_fragment from_fragment
from_fragment-to_fragment memory fields h class fits =
    let (bs, written, back) =
      deserialize-serialize memory true (struct fields) h.body [] [] fits (λ e. refl) in
    let f : FragmentedHandshake = record {
      msg_type = h.msg_type;
      total_length = length bs;
      message_seq = h.message_seq;
      fragment_offset = 0;
      fragment = bs;
    } in
    let back' : deserialize memory (struct fields) bs 0 ≡ ok (h.body, length bs) =
      ap (λ x. deserialize memory (struct fields) x 0) (sym (append-nil bs)) ∙ back in
    (f, rw written refl, rw (whole_is_not_fragmented f refl refl, class, back') refl)
