-- ===== src/Codec.antt =====
-- src/TLS/TLSStruct.ts and src/TLS/Vector.ts: `serialize`, `deserialize` and `from`, over any spec.
-- An exception is `err`. A property's value is kept at the place of its field in the spec.
pub mod Pieces
pub mod Structs
pub mod Fits
pub mod Kinds
pub mod RoundTrip
mod Tests
pub use node_dtls_client.Errors.{
  Error, Result, ok, err, ◌>>=◌, nothing_to_deserialize, zero_bytes_read, out_of_range, type_error,
  out_of_fuel,
}
use node_dtls_client.Prelude.{
  ℕ, zero, suc, ◌+◌, ◌-◌, ◌*◌, ◌/◌, List, [], ◌∷◌, ◌++◌, Bool, true, false, Option, none, some,
  ◌&&◌, ltb, leb, ◌==◌, if◌then◌else◌, length, get_elem?, Option-cases,
}
use node_dtls_client.Convert.{
  Buffer, Number, number_to_buffer, buffer_to_number, fit_to_whole_bytes,
}
use node_dtls_client.TypeSpecs.{
  Numbers, get_primitive_size, Spec, Fields, number, enum, struct, number_vector, struct_vector,
  buffer, unbound, end, field, is_variable_length,
}

-- `bytes` is a Buffer, `numbers` and `structs` the items of a Vector, `object` the properties of a
-- TLSStruct in the order of its spec.
mutual
  pub data Value : Type 0 where
    num : Number → Value
    bytes : Buffer → Value
    numbers : List Number → Value
    structs : Values → Value
    object : Values → Value

  pub data Values : Type 0 where
    nil : Values
    cons : Value → Values → Values

-- A length in front of the data where it may vary.
unfoldable pub with_length : ℕ → ℕ → Buffer → Buffer
with_length min_length max_length data_bytes =
    if is_variable_length min_length max_length
    then number_to_buffer (some (length data_bytes)) (8 * fit_to_whole_bytes max_length)
      ++ data_bytes
    else data_bytes

unfoldable pub concat_numbers : ℕ → List Number → Buffer
concat_numbers size [] = []
concat_numbers size (v ∷ vs) = number_to_buffer v size ++ concat_numbers size vs

-- Each item of a vector of structs is serialized and the results joined.
unfoldable pub concat_structs : (Values → Result Buffer) → Values → Result Buffer
concat_structs serialize_item nil = ok []
concat_structs serialize_item (cons (object vs) items) = do
  item ← serialize_item vs
  rest ← concat_structs serialize_item items
  ok (item ++ rest)
concat_structs serialize_item (cons v items) = err type_error

-- Optional vectors that are empty become empty buffers.
abbrev pub is_empty {ℓ} : {A : Type ℓ} → List A → Bool
is_empty [] = true
is_empty (x ∷ xs) = false

abbrev pub is_nil : Values → Bool
is_nil nil = true
is_nil (cons v vs) = false

-- `TLSStruct.serialize` and `Vector.serialize`.
unfoldable mutual
  pub serialize : Spec → Value → Result Buffer
  serialize (number s) (num v) = ok (number_to_buffer v (get_primitive_size s))
  serialize (enum s) (num v) = ok (number_to_buffer v (get_primitive_size s))
  serialize (struct fs) (object vs) = serialize_fields fs vs
  serialize (number_vector s lo hi optional) (numbers vs) =
      if is_empty vs && optional
      then ok []
      else ok (with_length lo hi (concat_numbers (get_primitive_size s) vs))
  serialize (struct_vector fs lo hi optional) (structs vs) =
      let items = concat_structs (serialize_fields fs) vs in
      if is_nil vs && optional then ok [] else (items >>= λ body. ok (with_length lo hi body))
  serialize (buffer lo hi) (bytes b) = ok (with_length lo hi b)
  serialize unbound (bytes b) = ok b
  serialize _ _ = err type_error

  pub serialize_fields : Fields → Values → Result Buffer
  serialize_fields end nil = ok []
  serialize_fields (field name s fs) (cons v vs) =
      serialize s v >>= λ first. serialize_fields fs vs >>= λ rest. ok (first ++ rest)
  serialize_fields _ _ = err type_error

-- What fresh memory from `Buffer.allocUnsafe` holds: the byte at a place, for a copy that starts at
-- some offset of the source.
abbrev pub Memory : Type 0
Memory = ℕ → ℕ → ℕ

abbrev pub byte_or : ℕ → Option ℕ → ℕ
byte_or old none = old
byte_or old (some b) = b

-- `allocUnsafe(n)`, then `buf.copy` from `start`. The bytes past the end of `buf` stay as they were.
unfoldable pub copy_bytes : Memory → Buffer → ℕ → ℕ → ℕ → Buffer
copy_bytes memory buf start pos zero = []
copy_bytes memory buf start pos (suc n) =
    byte_or (memory start pos) (get_elem? buf pos) ∷ copy_bytes memory buf start (pos + 1) n

-- The length to read, and the bytes that it took.
unfoldable pub read_length : ℕ → ℕ → Buffer → ℕ → Number × ℕ
read_length lo hi buf offset =
    if is_variable_length lo hi
    then (buffer_to_number buf (8 * fit_to_whole_bytes hi) offset, fit_to_whole_bytes hi)
    else (some hi, 0)

-- A buffer of a finite spec. `allocUnsafe` refuses NaN, `copy` a start past the end.
unfoldable pub read_buffer : Memory → Buffer → ℕ → Number × ℕ → Result (Value × ℕ)
read_buffer memory buf offset (none, length_bytes) = err out_of_range
read_buffer memory buf offset (some len, length_bytes) =
    if ltb (length buf) (offset + length_bytes)
    then err out_of_range
    else ok (
      bytes (copy_bytes memory buf (offset + length_bytes) (offset + length_bytes) len),
      length_bytes + len,
    )

unfoldable pub read_unbound : Memory → Buffer → ℕ → Result (Value × ℕ)
read_unbound memory buf offset =
    if ltb (length buf) offset
    then err out_of_range
    else ok (bytes (copy_bytes memory buf offset offset (length buf - offset)), length buf - offset)

-- `for (i = 0; i < length; i += bitSize / 8)`: no round where the length is NaN.
abbrev pub rounds : Number → ℕ → ℕ
rounds none step = 0
rounds (some len) step = (len + step - 1) / step

unfoldable pub read_numbers : ℕ → Buffer → ℕ → ℕ → List Number
read_numbers size buf offset zero = []
read_numbers size buf offset (suc n) =
    buffer_to_number buf size offset ∷ read_numbers size buf (offset + size / 8) n

abbrev pub below : ℕ → Number → Bool
below i none = false
below i (some len) = ltb i len

abbrev pub fuel_for : Number → ℕ
fuel_for none = 1
fuel_for (some len) = suc len

-- `while (i < length)`, over the items of a vector of structs from `offset`; each item takes at
-- least one byte. The fuel is one more than the length.
unfoldable pub read_structs : (ℕ → Result (Values × ℕ)) → ℕ → Number → ℕ → ℕ → Result (Values × ℕ)
read_structs from zero len offset i = err out_of_fuel
read_structs from (suc f) len offset i =
    let step = from offset >>= λ (item, read).
    let more = read_structs from f len (offset + read) (i + read) >>= λ (items, total).
    ok (cons (object item) items, total) in
    if read == 0 then err zero_bytes_read else more in
    if below i len then step else ok (nil, i)

-- `Vector.from`: nothing but an optional vector is read from an empty buffer.
unfoldable pub vector_from : Buffer → Bool → Value → Result (Value × ℕ) → Result (Value × ℕ)
vector_from [] true empty read = ok (empty, 0)
vector_from [] false empty read = err nothing_to_deserialize
vector_from (b ∷ bs) optional empty read = read

-- `TLSStruct.deserialize` and `Vector.deserialize`: the value, and the bytes read.
unfoldable mutual
  pub deserialize : Memory → Spec → Buffer → ℕ → Result (Value × ℕ)
  deserialize memory (number s) buf offset =
      ok (num (buffer_to_number buf (get_primitive_size s) offset), get_primitive_size s / 8)
  deserialize memory (enum s) buf offset =
      ok (num (buffer_to_number buf (get_primitive_size s) offset), get_primitive_size s / 8)
  deserialize memory (struct fs) buf offset =
      deserialize_fields memory fs buf offset >>= λ (vs, n). ok (object vs, n)
  deserialize memory (number_vector s lo hi optional) buf offset =
      let (len, delta) = read_length lo hi buf offset in
      let n = rounds len (get_primitive_size s / 8) in
      vector_from buf optional (numbers []) (
        ok (
          numbers (read_numbers (get_primitive_size s) buf (offset + delta) n),
          delta + n * (get_primitive_size s / 8),
        ))
  deserialize memory (struct_vector fs lo hi optional) buf offset =
      let (len, delta) = read_length lo hi buf offset in
      vector_from buf optional (structs nil) (
        read_structs (λ pos. deserialize_fields memory fs buf pos) (fuel_for len) len
          (offset + delta) 0
        >>= λ (items, n). ok (structs items, delta + n))
  deserialize memory (buffer lo hi) buf offset =
      read_buffer memory buf offset (read_length lo hi buf offset)
  deserialize memory unbound buf offset = read_unbound memory buf offset

  pub deserialize_fields : Memory → Fields → Buffer → ℕ → Result (Values × ℕ)
  deserialize_fields memory end buf offset = ok (nil, 0)
  deserialize_fields memory (field name s fs) buf offset =
      deserialize memory s buf offset >>= λ (v, n).
      deserialize_fields memory fs buf (offset + n) >>= λ (vs, m). ok (cons v vs, n + m)
