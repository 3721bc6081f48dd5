-- ===== src/Codec/RoundTrip.antt =====
-- Encoding and decoding of whole values.
use Prim.Native.String.{String}
use node_dtls_client.Prelude.{
  ◌+◌, ◌≡◌, ◌∙◌, refl, ap, sym, [], ◌++◌, Bool, true, false, ◌&&◌, length, length-append,
  append_assoc,
}
use node_dtls_client.TypeSpecs.{
  Spec, Fields, number, enum, struct, number_vector, struct_vector, buffer, unbound, end, field,
}
use node_dtls_client.Convert.{Buffer}
use node_dtls_client.Codec.{
  Memory, ok, Value, Values, nil, cons, object, num, bytes, numbers, structs, serialize,
  serialize_fields, deserialize, deserialize_fields,
}
use node_dtls_client.Codec.Pieces.{shift_append}
use node_dtls_client.Codec.Fits.{Fits, FitsFields, is_end}
use node_dtls_client.Codec.Kinds.{
  RoundTrips, number-RoundTrips, enum-RoundTrips, buffer-RoundTrips, unbound-RoundTrips,
  number_vector-RoundTrips, struct_vector-RoundTrips, pair_eq,
}

abbrev FieldsRoundTrip : Memory → Bool → Fields → Values → Type 0
FieldsRoundTrip memory last fs vs =
    (bs : Buffer) × (serialize_fields fs vs ≡ ok bs)
    × ((pre rest : Buffer)
        → (last ≡ true → rest ≡ [])
        → deserialize_fields memory fs (pre ++ (bs ++ rest)) (length pre) ≡ ok (vs, length bs))

struct-RoundTrips :
    (memory : Memory) (last : Bool) (fs : Fields) (vs : Values)
    → FieldsRoundTrip memory last fs vs
    → RoundTrips memory last (struct fs) (object vs)
unfolding serialize deserialize
struct-RoundTrips memory last fs vs (bs, e, r) = (bs, e, λ pre rest h. rw (r pre rest h))

end-RoundTrip : (memory : Memory) (last : Bool) → FieldsRoundTrip memory last end nil
unfolding serialize deserialize
end-RoundTrip memory last = ([], refl, λ pre rest h. refl)

-- Only the last field of all has nothing after it.
nothing_after :
    (memory : Memory) (last : Bool) (fs : Fields) (vs : Values) (bs rest : Buffer)
    → serialize_fields fs vs ≡ ok bs
    → (last ≡ true → rest ≡ [])
    → last && is_end fs ≡ true
    → bs ++ rest ≡ []
unfolding serialize
nothing_after memory true end nil bs rest e h t = let f : bs ≡ [] = cc in rw (f, h refl)
nothing_after memory true end (cons v vs) bs rest e h t = cc
nothing_after memory true (field n s fs) vs bs rest e h t = cc
nothing_after memory false fs vs bs rest e h t = cc

field-RoundTrip :
    (memory : Memory) (last : Bool) (name : String) (s : Spec) (fs : Fields) (v : Value)
    (vs : Values)
    → RoundTrips memory (last && is_end fs) s v
    → FieldsRoundTrip memory last fs vs
    → FieldsRoundTrip memory last (field name s fs) (cons v vs)
unfolding serialize deserialize
field-RoundTrip memory last name s fs v vs (b, wb, rb) (bs, ws, rs) = (
  b ++ bs,
  rw (wb, ws),
  λ pre rest h.
      let first : deserialize memory s (pre ++ ((b ++ bs) ++ rest)) (length pre)
          ≡ ok (v, length b) =
        ap (λ z. deserialize memory s (pre ++ z) (length pre)) (append_assoc b bs rest)
        ∙ rb pre (bs ++ rest) (nothing_after memory last fs vs bs rest ws h) in
      let second : deserialize_fields memory fs (pre ++ ((b ++ bs) ++ rest)) (length pre + length b)
          ≡ ok (vs, length bs) =
        ap (λ z. deserialize_fields memory fs z (length pre + length b))
          (shift_append pre b bs rest)
        ∙ ap (deserialize_fields memory fs ((pre ++ b) ++ (bs ++ rest))) (sym (length-append pre b))
        ∙ rs (pre ++ b) rest h in
      rw (first, second) (pair_eq refl (sym (length-append b bs))),
)

mutual
  unfolding Fits

  pub spec_trip :
      (memory : Memory) (last : Bool) (s : Spec) (v : Value)
      → Fits last s v
      → RoundTrips memory last s v
  spec_trip memory last (number s) (num v) h = number-RoundTrips memory last s v h
  spec_trip memory last (enum s) (num v) h = enum-RoundTrips memory last s v h
  spec_trip memory last (struct fs) (object vs) h =
      struct-RoundTrips memory last fs vs (fields_trip memory last fs vs h)
  spec_trip memory last (number_vector s lo hi optional) (numbers vs) (e, fit, h) =
      number_vector-RoundTrips memory last s lo hi optional vs e fit h
  spec_trip memory last (struct_vector fs lo hi optional) (structs vs) (e, items, h) =
      struct_vector-RoundTrips memory last fs lo hi optional vs (FitsFields false fs)
        (λ us p.
          let (bs, w, r) = fields_trip memory false fs us p in
          (bs, w, λ pre rest. r pre rest (λ x. cc)))
        e items h
  spec_trip memory last (buffer lo hi) (bytes b) h = buffer-RoundTrips memory last lo hi b h
  spec_trip memory last unbound (bytes b) h = unbound-RoundTrips memory last b h
  spec_trip memory last _ _ h = absurd h

  fields_trip :
      (memory : Memory) (last : Bool) (fs : Fields) (vs : Values)
      → FitsFields last fs vs
      → FieldsRoundTrip memory last fs vs
  fields_trip memory last end nil h = end-RoundTrip memory last
  fields_trip memory last (field name s fs) (cons v vs) (p, h) =
      field-RoundTrip memory last name s fs v vs (spec_trip memory (last && is_end fs) s v p)
        (fields_trip memory last fs vs h)
  fields_trip memory last _ _ h = absurd h

-- A value that fits its spec is written without an exception, and read back from any buffer in
-- which those bytes stand, with exactly as many bytes read. `last` allows data of unbound length,
-- and then nothing may follow the bytes.
pub deserialize-serialize :
    (memory : Memory) (last : Bool) (s : Spec) (v : Value) (pre rest : Buffer)
    → Fits last s v
    → (last ≡ true → rest ≡ [])
    → (bs : Buffer) × (serialize s v ≡ ok bs)
      × (deserialize memory s (pre ++ (bs ++ rest)) (length pre) ≡ ok (v, length bs))
deserialize-serialize memory last s v pre rest h tail =
    let (bs, written, back) = spec_trip memory last s v h in (bs, written, back pre rest tail)
