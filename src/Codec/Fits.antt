-- ===== src/Codec/Fits.antt =====
-- The values of a spec that keep their meaning on the wire.
use node_dtls_client.Prelude.{◌≡◌, Bool, true, false, ◌&&◌, length}
use node_dtls_client.TypeSpecs.{
  get_primitive_size, Spec, Fields, number, enum, struct, number_vector, struct_vector, buffer,
  unbound, end, field,
}
use node_dtls_client.Codec.{
  Value, Values, nil, cons, object, num, bytes, numbers, structs, is_empty, is_nil, concat_structs,
  concat_numbers, serialize_fields,
}
use node_dtls_client.Codec.Pieces.{FitsNumber, FitsLength, AllFit}
use node_dtls_client.Codec.Structs.{encoded_length, AllItems}

abbrev pub is_end : Fields → Bool
is_end end = true
is_end (field name s fs) = false

-- Numbers within their size and 32 bits,
-- lengths within their limits, no empty optional vector, and data of unbound length only where
-- nothing follows (`last`).
unfoldable mutual
  pub Fits : Bool → Spec → Value → Type 0
  Fits last (number s) (num v) = FitsNumber (get_primitive_size s) v
  Fits last (enum s) (num v) = FitsNumber (get_primitive_size s) v
  Fits last (struct fs) (object vs) = FitsFields last fs vs
  Fits last (number_vector s lo hi optional) (numbers vs) =
      (is_empty vs && optional ≡ false)
      × AllFit (get_primitive_size s) vs
      × FitsLength lo hi (length (concat_numbers (get_primitive_size s) vs))
  Fits last (struct_vector fs lo hi optional) (structs vs) =
      (is_nil vs && optional ≡ false)
      × AllItems (FitsFields false fs) (serialize_fields fs) vs
      × FitsLength lo hi (encoded_length (concat_structs (serialize_fields fs) vs))
  Fits last (buffer lo hi) (bytes b) = FitsLength lo hi (length b)
  Fits last unbound (bytes b) = last ≡ true
  Fits last _ _ = ⊥

  pub FitsFields : Bool → Fields → Values → Type 0
  FitsFields last end nil = Unit
  FitsFields last (field name s fs) (cons v vs) =
      Fits (last && is_end fs) s v × FitsFields last fs vs
  FitsFields last _ _ = ⊥
