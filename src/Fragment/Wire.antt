-- ===== src/Fragment/Wire.antt =====
-- A handshake fragment on the wire, by the spec of `FragmentedHandshake`.
use node_dtls_client.Prelude.{◌^◌, ◌<◌, ◌≡◌, [], ◌++◌, false, some, length, arith}
use node_dtls_client.Errors.{Result, ok, err, ◌>>=◌, type_error}
use node_dtls_client.Convert.{Buffer}
use node_dtls_client.TypeSpecs.{struct}
use node_dtls_client.Codec.{Memory, Value, num, bytes, object, nil, cons, serialize, deserialize}
use node_dtls_client.Codec.Fits.{Fits}
use node_dtls_client.Codec.RoundTrip.{deserialize-serialize}
use node_dtls_client.Messages.{fragmented_handshake}
use node_dtls_client.Fragment.{FragmentedHandshake}

-- The properties of the object, in the order of its spec.
unfoldable pub to_value : FragmentedHandshake → Value
to_value f = object (
    cons (num (some f.msg_type)) (
      cons (num (some f.total_length)) (
        cons (num (some f.message_seq))
          (cons (num (some f.fragment_offset)) (cons (bytes f.fragment) nil)))))

unfoldable pub of_value : Value → Result FragmentedHandshake
of_value
      (object (
        cons
          (num (some t))
          (cons (num (some l)) (cons (num (some s)) (cons (num (some o)) (cons (bytes b) nil)))))) =
    ok (record {
      msg_type = t;
      total_length = l;
      message_seq = s;
      fragment_offset = o;
      fragment = b;
    })
of_value _ = err type_error

unfoldable pub serialize_fragment : FragmentedHandshake → Result Buffer
unfolding to_value
serialize_fragment f = serialize (struct fragmented_handshake) (to_value f)

-- `TLSStruct.from(FragmentedHandshake.spec, buf).result`
unfoldable pub parse_fragment : Memory → Buffer → Result FragmentedHandshake
unfolding of_value
parse_fragment memory buf =
    deserialize memory (struct fragmented_handshake) buf 0 >>= λ (v, n). of_value v

-- The header fields are within their sizes.
pub record IsSendable (f : FragmentedHandshake) : Type 0 where
  pub type_fits : f.msg_type < 2 ^ 8
  pub total_fits : f.total_length < 2 ^ 24
  pub seq_fits : f.message_seq < 2 ^ 16
  pub offset_fits : f.fragment_offset < 2 ^ 24
  pub fragment_fits : length f.fragment < 2 ^ 24

to_value-Fits :
    (f : FragmentedHandshake) → IsSendable f → Fits false (struct fragmented_handshake) (to_value f)
unfolding Fits to_value
to_value-Fits f h = omega arith

-- A fragment whose header fields are within their sizes is written without an exception, and
-- parsing a buffer that begins with those bytes gives it back.
pub parse_fragment-serialize_fragment :
    (memory : Memory) (f : FragmentedHandshake) (rest : Buffer)
    → IsSendable f
    → (bs : Buffer) × (serialize_fragment f ≡ ok bs) × (parse_fragment memory (bs ++ rest) ≡ ok f)
unfolding serialize_fragment parse_fragment
parse_fragment-serialize_fragment memory f rest h =
    let (bs, written, back) =
      deserialize-serialize memory false (struct fragmented_handshake) (to_value f) [] rest
        (to_value-Fits f h) (λ e. cc) in
    (bs, written, rw back)
