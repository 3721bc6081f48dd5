-- ===== src/Convert/RoundTrip.antt =====
-- The conversions of numbers, there and back.
use native.Mathlib.Nat.{pow-suc, div-div-eq-div-mul, div-add-mod', mod-one, mul_comm}
use node_dtls_client.Prelude.{
  ℕ, zero, suc, ◌+◌, ◌-◌, ◌*◌, ◌/◌, ◌%◌, ◌^◌, ◌≤◌, ◌<◌, ◌≡◌, ◌⊎◌, ◌∙◌, refl, ap, sym, List, [], ◌∷◌,
  ◌++◌, append_assoc, some, get_elem?, length, length-append, arith,
}
use node_dtls_client.Convert.{
  Buffer, Number, add_byte, to_pattern, shr8, fill_bytes, number_to_buffer, read_bytes,
  buffer_to_number, count_bytes, fit_to_whole_bytes,
}

-- The number that bytes stand for, the highest first.
abbrev value_of : ℕ → Buffer → ℕ
value_of acc [] = acc
value_of acc (b ∷ bs) = value_of (acc * 256 + b) bs

pub get_elem?-skip {ℓ} :
    {A : Type ℓ} (pre : List A) (a : A) (rest : List A)
    → get_elem? (pre ++ a ∷ rest) (length pre) ≡ some a
get_elem?-skip [] a rest = refl
get_elem?-skip (x ∷ pre) a rest = get_elem?-skip pre a rest

read_bytes-append :
    (pre bs rest : Buffer) (acc : ℕ)
    → read_bytes (pre ++ (bs ++ rest)) (length bs) (length pre) (some acc) ≡ some (value_of acc bs)
unfolding read_bytes
read_bytes-append pre [] rest acc = refl
read_bytes-append pre (b ∷ bs) rest acc =
    let e : length pre + 1 ≡ length (pre ++ b ∷ []) = omega (arith, length-append pre (b ∷ [])) in
    ap
      (λ x.
        read_bytes (pre ++ b ∷ (bs ++ rest)) (length bs) (length pre + 1) (add_byte (some acc) x))
      (get_elem?-skip pre b (bs ++ rest))
    ∙ rw (e, ← append_assoc pre (b ∷ []) (bs ++ rest))
        (read_bytes-append (pre ++ b ∷ []) bs rest (acc * 256 + b))

value_of-snoc :
    (acc : ℕ) (bs : Buffer) (b : ℕ) → value_of acc (bs ++ b ∷ []) ≡ value_of acc bs * 256 + b
value_of-snoc acc [] b = refl
value_of-snoc acc (x ∷ bs) b = value_of-snoc (acc * 256 + x) bs b

fill_bytes-append : (n v : ℕ) (ret : Buffer) → fill_bytes n v ret ≡ fill_bytes n v [] ++ ret
unfolding fill_bytes
fill_bytes-append zero v ret = refl
fill_bytes-append (suc n) v ret =
    fill_bytes-append n (shr8 v) (v % 256 ∷ ret)
    ∙ sym (append_assoc (fill_bytes n (shr8 v) []) (v % 256 ∷ []) ret)
    ∙ ap (λ x. x ++ ret) (sym (fill_bytes-append n (shr8 v) (v % 256 ∷ [])))

length-fill_bytes : (n v : ℕ) (ret : Buffer) → length (fill_bytes n v ret) ≡ n + length ret
unfolding fill_bytes
length-fill_bytes zero v ret = omega arith
length-fill_bytes (suc n) v ret = omega (arith, length-fill_bytes n (shr8 v) (v % 256 ∷ ret))

mod_byte : (u p : ℕ) → u % (p * 256) ≡ u / 256 % p * 256 + u % 256
mod_byte u p = omega (
  arith,
  ap (λ (q : ℕ). q * p) (mul_comm p 256 ∙ refl),
  ap (λ (q : ℕ). q * p) (div-div-eq-div-mul u 256 p),
  ap (λ (q : ℕ). u / q) (mul_comm p 256),
  ap (λ (q : ℕ). q * p) (ap (λ (q : ℕ). u / q) (mul_comm p 256)),
  div-add-mod' u (p * 256),
  div-add-mod' (u / 256) p,
)

value_of-fill_bytes : (n v : ℕ) → value_of 0 (fill_bytes n v []) ≡ v % 2 ^ 32 % 256 ^ n
unfolding fill_bytes
value_of-fill_bytes zero v = rw mod-one
value_of-fill_bytes (suc n) v =
    let ih = value_of-fill_bytes n (shr8 v) in
    let e : shr8 v % 2 ^ 32 ≡ v % 2 ^ 32 / 256 = omega arith in
    let f : v % 256 ≡ v % 2 ^ 32 % 256 = omega arith in
    rw
      (
        fill_bytes-append n (shr8 v) (v % 256 ∷ []),
        value_of-snoc 0 (fill_bytes n (shr8 v) []) (v % 256),
        ih,
        e,
        pow-suc 256 n,
        f,
      )
      (sym (mod_byte (v % 2 ^ 32) (256 ^ n)))

abbrev pub IsByte : ℕ → Type 0
IsByte b = b < 256

abbrev pub AllBytes : Buffer → Type 0
AllBytes [] = Unit
AllBytes (b ∷ bs) = IsByte b × AllBytes bs

fill_bytes-AllBytes : (n v : ℕ) (ret : Buffer) → AllBytes ret → AllBytes (fill_bytes n v ret)
unfolding fill_bytes
fill_bytes-AllBytes zero v ret h = h
fill_bytes-AllBytes (suc n) v ret h =
    fill_bytes-AllBytes n (shr8 v) (v % 256 ∷ ret) (omega arith, h)

pub number_to_buffer-AllBytes : (v : Number) (size : ℕ) → AllBytes (number_to_buffer v size)
unfolding number_to_buffer
number_to_buffer-AllBytes v size = fill_bytes-AllBytes (size / 8) (to_pattern v) [] tt

pub length-number_to_buffer : (v : Number) (size : ℕ) → length (number_to_buffer v size) ≡ size / 8
unfolding number_to_buffer
length-number_to_buffer v size = omega (arith, length-fill_bytes (size / 8) (to_pattern v) [])

-- `bufferToNumber` reads back what `numberToBuffer` wrote, wherever it stands in a buffer: the
-- value cut to 32 bits and to the size. So a value that fits both comes back unchanged.
pub buffer_to_number-number_to_buffer :
    (pre rest : Buffer) (value size : ℕ)
    → buffer_to_number (pre ++ (number_to_buffer (some value) size ++ rest)) size (length pre)
      ≡ some (value % 2 ^ 32 % 256 ^ (size / 8))
unfolding buffer_to_number number_to_buffer
buffer_to_number-number_to_buffer pre rest value size =
    let whole : size / 8 ≡ length (fill_bytes (size / 8) value []) =
      omega (arith, length-fill_bytes (size / 8) value []) in
    ap (λ n. read_bytes (pre ++ (fill_bytes (size / 8) value [] ++ rest)) n (length pre) (some 0))
      whole
    ∙ read_bytes-append pre (fill_bytes (size / 8) value []) rest 0
    ∙ ap some (value_of-fill_bytes (size / 8) value)

-- The loop of `fitToWholeBytes` ends by its test within the rounds that the model gives it.
pub count_bytes_done : (v : ℕ) → (count_bytes 4 v 0).1 ≡ 0
unfolding count_bytes
count_bytes_done v = ground arith

-- `fitToWholeBytes` gives the least number of bytes, at least one, that hold a 32-bit value.
pub fit_to_whole_bytes_least :
    (v : ℕ)
    → v < 2 ^ 32
    → (v < 256 ^ fit_to_whole_bytes v)
      × ((fit_to_whole_bytes v ≡ 1) ⊎ (256 ^ (fit_to_whole_bytes v - 1) ≤ v))
      × (fit_to_whole_bytes v ≤ 4)
unfolding fit_to_whole_bytes
fit_to_whole_bytes_least v h = ground arith

pub fit_to_whole_bytes_pos : (v : ℕ) → 0 < fit_to_whole_bytes v
unfolding fit_to_whole_bytes
fit_to_whole_bytes_pos v = ground arith
