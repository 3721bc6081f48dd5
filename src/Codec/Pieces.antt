-- ===== src/Codec/Pieces.antt =====
-- Reading back the pieces of an encoding: lengths, copied bytes, and vectors of numbers.
use node_dtls_client.Prelude.{
  ℕ, ◌+◌, ◌*◌, ◌/◌, ◌^◌, ◌≤◌, ◌<◌, ◌≡◌, ◌∙◌, refl, ap, sym, List, [], ◌∷◌, ◌++◌, none, some,
  if◌then◌else◌, length, length-append, append_assoc, arith, Bool-cases, inl, inr,
}
use mathlib.Core.Path.{ap₂}
use native.Mathlib.Nat.{mod-eq_of_lt}
use node_dtls_client.TypeSpecs.{Numbers, get_primitive_size, uint8, is_variable_length}
use node_dtls_client.Convert.{
  Buffer, Number, number_to_buffer, buffer_to_number, fit_to_whole_bytes,
}
use node_dtls_client.Convert.RoundTrip.{
  buffer_to_number-number_to_buffer, length-number_to_buffer, fit_to_whole_bytes_least,
  get_elem?-skip,
}
use node_dtls_client.Codec.{
  Memory, byte_or, copy_bytes, read_length, with_length, rounds, read_numbers, concat_numbers,
}

-- What is appended past the first bytes of a buffer, reassociated.
pub shift_append : (pre a b rest : Buffer) → pre ++ ((a ++ b) ++ rest) ≡ (pre ++ a) ++ (b ++ rest)
shift_append pre a b rest = rw (append_assoc a b rest, ← append_assoc pre a (b ++ rest))

pub copy_bytes-append :
    (memory : Memory) (start : ℕ) (pre b rest : Buffer)
    → copy_bytes memory (pre ++ (b ++ rest)) start (length pre) (length b) ≡ b
unfolding copy_bytes
copy_bytes-append memory start pre [] rest = refl
copy_bytes-append memory start pre (x ∷ b) rest =
    let e : length pre + 1 ≡ length (pre ++ x ∷ []) = omega (arith, length-append pre (x ∷ [])) in
    ap₂ ◌∷◌ (ap (byte_or (memory start (length pre))) (get_elem?-skip pre x (b ++ rest))) (
      ap (λ z. copy_bytes memory z start (length pre + 1) (length b))
        (sym (append_assoc pre (x ∷ []) (b ++ rest)))
      ∙ ap (λ i. copy_bytes memory ((pre ++ x ∷ []) ++ (b ++ rest)) start i (length b)) e
      ∙ copy_bytes-append memory start (pre ++ x ∷ []) b rest)

-- A number that `numberToBuffer` keeps: at most 32 bits, and within its size.
abbrev pub FitsNumber : ℕ → Number → Type 0
FitsNumber size none = ⊥
FitsNumber size (some n) = (n < 2 ^ 32) × (n < 256 ^ (size / 8))

pub read_number :
    (pre rest : Buffer) (size : ℕ) (v : Number)
    → FitsNumber size v
    → buffer_to_number (pre ++ (number_to_buffer v size ++ rest)) size (length pre) ≡ v
read_number pre rest size none h = absurd h
read_number pre rest size (some n) h =
    buffer_to_number-number_to_buffer pre rest n size
    ∙ ap some (rw (mod-eq_of_lt h.0) (mod-eq_of_lt h.1))

-- A length that the limits of a spec allow.
abbrev pub FitsLength : ℕ → ℕ → ℕ → Type 0
FitsLength lo hi n = (0 < hi) × (hi < 2 ^ 32) × (n ≤ hi) × (lo ≡ hi → n ≡ hi)

-- The bytes in front of `body`.
unfoldable pub length_prefix : ℕ → ℕ → Buffer → Buffer
length_prefix lo hi body =
    if is_variable_length lo hi
    then number_to_buffer (some (length body)) (8 * fit_to_whole_bytes hi)
    else []

pub with_length-prefix :
    (lo hi : ℕ) (body : Buffer) → with_length lo hi body ≡ length_prefix lo hi body ++ body
unfolding with_length length_prefix
with_length-prefix lo hi body = elim (Bool-cases (is_variable_length lo hi)) [
  | inl yes' ↦ rw yes'
  | inr no' ↦ rw no'
]

length-lt-fit : (n hi : ℕ) → hi < 2 ^ 32 → n ≤ hi → n < 256 ^ (8 * fit_to_whole_bytes hi / 8)
length-lt-fit n hi h p =
    let e : 8 * fit_to_whole_bytes hi / 8 ≡ fit_to_whole_bytes hi = omega arith in
    rw e (omega (arith, (fit_to_whole_bytes_least hi h).0))

pub read_length-prefix :
    (lo hi : ℕ) (pre body rest : Buffer)
    → FitsLength lo hi (length body)
    → read_length lo hi (pre ++ (length_prefix lo hi body ++ rest)) (length pre)
      ≡ (some (length body), length (length_prefix lo hi body))
unfolding read_length length_prefix
read_length-prefix lo hi pre body rest (pos, small, le, fixed) =
    elim (Bool-cases (is_variable_length lo hi)) [
      | inl yes' ↦ rw yes' (
          ap₂ {C = Number × ℕ} (λ a b. (a, b))
            (read_number pre rest (8 * fit_to_whole_bytes hi) (some (length body))
              (omega arith, length-lt-fit (length body) hi small le))
            (omega
              (arith, length-number_to_buffer (some (length body)) (8 * fit_to_whole_bytes hi))))
      | inr no' ↦
          rw no' (ap₂ {C = Number × ℕ} (λ a b. (a, b)) (ap some (sym (fixed (ground arith)))) refl)
    ]

abbrev pub AllFit : ℕ → List Number → Type 0
AllFit size [] = Unit
AllFit size (v ∷ vs) = FitsNumber size v × AllFit size vs

pub read_numbers-concat :
    (size : ℕ) (vs : List Number) (pre rest : Buffer)
    → AllFit size vs
    → read_numbers size (pre ++ (concat_numbers size vs ++ rest)) (length pre) (length vs) ≡ vs
unfolding read_numbers concat_numbers
read_numbers-concat size [] pre rest h = refl
read_numbers-concat size (v ∷ vs) pre rest h =
    let b = number_to_buffer v size in
    let e : length pre + size / 8 ≡ length (pre ++ b) =
      omega (arith, length-append pre b, length-number_to_buffer v size) in
    ap₂ ◌∷◌
      (ap (λ z. buffer_to_number (pre ++ z) size (length pre))
          (append_assoc b (concat_numbers size vs) rest)
        ∙ read_number pre (concat_numbers size vs ++ rest) size v h.0)
      (ap (λ z. read_numbers size z (length pre + size / 8) (length vs))
          (shift_append pre b (concat_numbers size vs) rest)
        ∙ ap (λ i. read_numbers size ((pre ++ b) ++ (concat_numbers size vs ++ rest)) i (length vs))
            e
        ∙ read_numbers-concat size vs (pre ++ b) rest h.1)

pub length-concat_numbers :
    (size : ℕ) (vs : List Number) → length (concat_numbers size vs) ≡ length vs * (size / 8)
unfolding concat_numbers
length-concat_numbers size [] = omega arith
length-concat_numbers size (v ∷ vs) = omega (
  arith,
  length-append (number_to_buffer v size) (concat_numbers size vs),
  length-number_to_buffer v size,
  length-concat_numbers size vs,
)

pub rounds_exact :
    (s : Numbers) (n : ℕ)
    → rounds (some (n * (get_primitive_size s / 8))) (get_primitive_size s / 8) ≡ n
rounds_exact uint8 n = omega arith
rounds_exact _ n = omega arith
