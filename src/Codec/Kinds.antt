-- ===== src/Codec/Kinds.antt =====
-- The round trip of each kind of property: numbers, vectors and buffers.
use node_dtls_client.Prelude.{
  ℕ, suc, ◌+◌, ◌-◌, ◌*◌, ◌/◌, ◌≤◌, ◌<◌, ◌≡◌, ◌∙◌, refl, ap, sym, List, [], ◌∷◌, ◌++◌, Bool, true,
  false, some, ◌&&◌, length, length-append, append_assoc, arith, le→ltb, Bool-cases, inl, inr,
}
use mathlib.Core.Path.{ap₂}
use node_dtls_client.TypeSpecs.{
  Numbers, get_primitive_size, Spec, Fields, number, enum, number_vector, struct_vector, buffer,
  unbound, is_variable_length,
}
use node_dtls_client.Convert.{Buffer, Number, number_to_buffer, fit_to_whole_bytes}
use node_dtls_client.Convert.RoundTrip.{length-number_to_buffer, fit_to_whole_bytes_pos}
use node_dtls_client.Codec.{
  Memory, Result, ok, Value, Values, num, bytes, numbers, structs, is_empty, is_nil, concat_structs,
  concat_numbers, with_length, serialize, serialize_fields, deserialize, deserialize_fields,
  read_buffer, read_unbound, vector_from, read_numbers, read_length, rounds, copy_bytes,
}
use node_dtls_client.Codec.Pieces.{
  FitsNumber, FitsLength, AllFit, with_length-prefix, read_length-prefix, length_prefix,
  read_number, copy_bytes-append, read_numbers-concat, length-concat_numbers, rounds_exact,
}
use node_dtls_client.Codec.Structs.{encoded_length, AllItems, Returns, read_structs-concat}

-- The value is written, and read back wherever it stands; `last` says that nothing follows it.
abbrev pub RoundTrips : Memory → Bool → Spec → Value → Type 0
RoundTrips memory last s v =
    (bs : Buffer) × (serialize s v ≡ ok bs)
    × ((pre rest : Buffer)
        → (last ≡ true → rest ≡ [])
        → deserialize memory s (pre ++ (bs ++ rest)) (length pre) ≡ ok (v, length bs))

pub pair_eq {ℓ} :
    {A : Type ℓ} {a b : A} {m n : ℕ}
    → a ≡ b
    → m ≡ n
    → ◌≡◌ {A = Result (A × ℕ)} (ok (a, m)) (ok (b, n))
pair_eq {A} p q = ap₂ {C = Result (A × ℕ)} (λ x y. ok (x, y)) p q

-- What a reader finds where a body with its length in front stands in a buffer.
record IsFramed (lo hi : ℕ) (pre body rest buf : Buffer) : Type 0 where
  read :
      read_length lo hi buf (length pre) ≡ (some (length body), length (length_prefix lo hi body))
  shape : buf ≡ (pre ++ length_prefix lo hi body) ++ (body ++ rest)
  offset : length pre + length (length_prefix lo hi body) ≡ length (pre ++ length_prefix lo hi body)
  total : length (with_length lo hi body) ≡ length (length_prefix lo hi body) + length body
  nonempty : 0 < length buf
  room : length pre + length (length_prefix lo hi body) ≤ length buf

length-with_length_pos :
    (lo hi : ℕ) (body : Buffer)
    → FitsLength lo hi (length body)
    → 0 < length (with_length lo hi body)
unfolding with_length
length-with_length_pos lo hi body h = elim (Bool-cases (is_variable_length lo hi)) [
  | inl variable ↦ rw variable (
      omega (
        arith,
        length-append (number_to_buffer (some (length body)) (8 * fit_to_whole_bytes hi)) body,
        length-number_to_buffer (some (length body)) (8 * fit_to_whole_bytes hi),
        fit_to_whole_bytes_pos hi,
      ))
  | inr fixed ↦ rw fixed (let e : lo ≡ hi = ground arith in omega (arith, h.3 e))
]

framed :
    (lo hi : ℕ) (pre body rest : Buffer)
    → FitsLength lo hi (length body)
    → IsFramed lo hi pre body rest (pre ++ (with_length lo hi body ++ rest))
framed lo hi pre body rest h = record {
  read =
      ap (λ z. read_length lo hi (pre ++ z) (length pre)) whole
      ∙ read_length-prefix lo hi pre body (body ++ rest) h;
  shape = ap (λ z. pre ++ z) whole ∙ sym (append_assoc pre front (body ++ rest));
  offset = omega (arith, length-append pre front);
  total = rw (with_length-prefix lo hi body) (length-append front body);
  nonempty = omega (
    arith,
    length-append pre (with_length lo hi body ++ rest),
    length-append (with_length lo hi body) rest,
    length-with_length_pos lo hi body h,
  );
  room = omega (
    arith,
    length-append pre (with_length lo hi body ++ rest),
    length-append (with_length lo hi body) rest,
    ap length (with_length-prefix lo hi body),
    length-append front body,
  );
}
  where
    front : Buffer
    front = length_prefix lo hi body

    whole : with_length lo hi body ++ rest ≡ front ++ (body ++ rest)
    whole = rw (with_length-prefix lo hi body) (append_assoc front body rest)

at_body {ℓ} :
    {A : Type ℓ} {lo hi : ℕ} {pre body rest buf : Buffer} (g : Buffer → ℕ → A)
    → IsFramed lo hi pre body rest buf
    → g buf (length pre + length (length_prefix lo hi body))
      ≡ g
          ((pre ++ length_prefix lo hi body) ++ (body ++ rest))
          (length (pre ++ length_prefix lo hi body))
at_body g f = ap₂ g f.shape f.offset

vector_from_nonempty :
    (buf : Buffer) (optional : Bool) (empty : Value) (read : Result (Value × ℕ))
    → 0 < length buf
    → vector_from buf optional empty read ≡ read
unfolding vector_from
vector_from_nonempty [] optional empty read h = absurd (omega arith)
vector_from_nonempty (b ∷ bs) optional empty read h = refl

module _ (memory : Memory) (last : Bool) where
  pub number-RoundTrips :
      (s : Numbers) (v : Number)
      → FitsNumber (get_primitive_size s) v
      → RoundTrips memory last (number s) (num v)
  unfolding serialize deserialize
  number-RoundTrips s v h = (
    number_to_buffer v (get_primitive_size s),
    refl,
    λ pre rest _.
        pair_eq (ap num (read_number pre rest (get_primitive_size s) v h))
          (sym (length-number_to_buffer v (get_primitive_size s))),
  )

  pub enum-RoundTrips :
      (s : Numbers) (v : Number)
      → FitsNumber (get_primitive_size s) v
      → RoundTrips memory last (enum s) (num v)
  unfolding serialize deserialize
  enum-RoundTrips s v h = number-RoundTrips s v h

  pub buffer-RoundTrips :
      (lo hi : ℕ) (b : Buffer)
      → FitsLength lo hi (length b)
      → RoundTrips memory last (buffer lo hi) (bytes b)
  unfolding serialize deserialize read_buffer
  buffer-RoundTrips lo hi b h =
      (with_length lo hi b, refl, λ pre rest _. reads pre rest (framed lo hi pre b rest h))
    where
      reads :
          (pre rest : Buffer)
          → IsFramed lo hi pre b rest (pre ++ (with_length lo hi b ++ rest))
          → read_buffer memory
              (pre ++ (with_length lo hi b ++ rest))
              (length pre)
              (read_length lo hi (pre ++ (with_length lo hi b ++ rest)) (length pre))
            ≡ ok (bytes b, length (with_length lo hi b))
      reads pre rest f = rw f.read (
          rw (le→ltb _ _ f.room) (
            pair_eq
              (ap bytes (
                at_body
                  (λ z i.
                    copy_bytes memory z (length pre + length (length_prefix lo hi b)) i (length b))
                  f
                ∙ copy_bytes-append memory _ (pre ++ length_prefix lo hi b) b rest))
              (sym f.total)))

  pub unbound-RoundTrips : (b : Buffer) → last ≡ true → RoundTrips memory last unbound (bytes b)
  unfolding serialize deserialize read_unbound
  unbound-RoundTrips b h = (b, refl, λ pre rest e. reads pre rest (e h))
    where
      reads :
          (pre rest : Buffer)
          → rest ≡ []
          → read_unbound memory (pre ++ (b ++ rest)) (length pre) ≡ ok (bytes b, length b)
      reads pre rest e =
          let n : length (pre ++ (b ++ rest)) ≡ length pre + length b =
            omega (arith, length-append pre (b ++ rest), length-append b rest, ap length e) in
          let count : length (pre ++ (b ++ rest)) - length pre ≡ length b = omega arith in
          rw (le→ltb (length pre) (length (pre ++ (b ++ rest))) (omega arith)) (
            pair_eq
              (ap bytes (
                ap (copy_bytes memory (pre ++ (b ++ rest)) (length pre) (length pre)) count
                ∙ copy_bytes-append memory (length pre) pre b rest))
              count)

  pub number_vector-RoundTrips :
      (s : Numbers) (lo hi : ℕ) (optional : Bool) (vs : List Number)
      → is_empty vs && optional ≡ false
      → AllFit (get_primitive_size s) vs
      → FitsLength lo hi (length (concat_numbers (get_primitive_size s) vs))
      → RoundTrips memory last (number_vector s lo hi optional) (numbers vs)
  unfolding serialize deserialize
  number_vector-RoundTrips s lo hi optional vs e fit h = (
    with_length lo hi (concat_numbers (get_primitive_size s) vs),
    rw e,
    λ pre rest _. reads pre rest (framed lo hi pre body rest h),
  )
    where
      k : ℕ
      k = get_primitive_size s / 8

      body : Buffer
      body = concat_numbers (get_primitive_size s) vs

      count : rounds (some (length body)) k ≡ length vs
      count =
          ap (λ n. rounds (some n) k) (length-concat_numbers (get_primitive_size s) vs)
          ∙ rounds_exact s (length vs)

      reads :
          (pre rest : Buffer)
          → IsFramed lo hi pre body rest (pre ++ (with_length lo hi body ++ rest))
          → deserialize memory
              (number_vector s lo hi optional)
              (pre ++ (with_length lo hi body ++ rest))
              (length pre)
            ≡ ok (numbers vs, length (with_length lo hi body))
      reads pre rest f =
          rw (f.read, count)
            (vector_from_nonempty (pre ++ (with_length lo hi body ++ rest)) optional _ _ f.nonempty
              ∙ pair_eq
                  (ap numbers (
                    at_body (λ z i. read_numbers (get_primitive_size s) z i (length vs)) f
                    ∙ read_numbers-concat (get_primitive_size s) vs
                        (pre ++ length_prefix lo hi body) rest fit))
                  (omega (arith, f.total, length-concat_numbers (get_primitive_size s) vs)))

  pub struct_vector-RoundTrips :
      (fs : Fields) (lo hi : ℕ) (optional : Bool) (vs : Values) (P : Values → Type 0)
      → ((us : Values) → P us → Returns (serialize_fields fs) (deserialize_fields memory fs) us)
      → is_nil vs && optional ≡ false
      → AllItems P (serialize_fields fs) vs
      → FitsLength lo hi (encoded_length (concat_structs (serialize_fields fs) vs))
      → RoundTrips memory last (struct_vector fs lo hi optional) (structs vs)
  unfolding serialize deserialize
  struct_vector-RoundTrips fs lo hi optional vs P each e items h =
      let (body, written, back) =
        read_structs-concat P (serialize_fields fs) (deserialize_fields memory fs) each vs items in
      let fits : FitsLength lo hi (length body) = rw written at h in
      (
        with_length lo hi body,
        rw (e, written),
        λ pre rest _.
            let f = framed lo hi pre body rest fits in
            rw f.read (
              vector_from_nonempty _ optional _ _ f.nonempty
              ∙ rw
                  (
                    f.shape,
                    f.offset,
                    back (pre ++ length_prefix lo hi body) rest (suc (length body)) 0 (length body)
                        (omega arith) (omega arith),
                  )
                  (pair_eq refl (sym f.total))),
      )
