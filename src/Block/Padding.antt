-- ===== src/Block/Padding.antt =====
-- The padding of a block cipher.
use node_dtls_client.Prelude.{
  ℕ, zero, suc, ◌+◌, ◌-◌, ◌%◌, ◌≤◌, ◌<◌, ◌≡◌, ◌∙◌, refl, ap, [], ◌∷◌, ◌++◌, true, false, some, ltb,
  leb, length, length-append, length-replicate, get_elem?, take, drop, replicate, arith, le→ltb,
  le→leb,
}
use node_dtls_client.Errors.{ok}
use node_dtls_client.Convert.{Buffer}
use node_dtls_client.Crypto.{
  BlockAlgorithm, block_parameter, aes_128_cbc, aes_256_cbc, des_ede3_cbc,
}
use node_dtls_client.Block.{pad_length, padding, padding_is_right, strip_padding, strip_padding_of}

-- The padding fills the last block.
pub pad_length-whole :
    (a : BlockAlgorithm) (len : ℕ)
    → (len + (pad_length (block_parameter a).block_size len + 1)) % (block_parameter a).block_size
      ≡ 0
unfolding pad_length
pad_length-whole aes_128_cbc len = ground arith
pad_length-whole aes_256_cbc len = ground arith
pad_length-whole des_ede3_cbc len = ground arith

pub pad_length-lt :
    (a : BlockAlgorithm) (len : ℕ) → pad_length (block_parameter a).block_size len < 16
unfolding pad_length
pad_length-lt aes_128_cbc len = ground arith
pad_length-lt aes_256_cbc len = ground arith
pad_length-lt des_ede3_cbc len = ground arith

get_elem?-append_right :
    (xs ys : Buffer) (i : ℕ) → get_elem? (xs ++ ys) (length xs + i) ≡ get_elem? ys i
get_elem?-append_right [] ys i = let e : 0 + i ≡ i = omega arith in rw e refl
get_elem?-append_right (x ∷ xs) ys i =
    let e : suc (length xs) + i ≡ suc (length xs + i) = omega arith in
    rw e (get_elem?-append_right xs ys i)

get_elem?-replicate : (n i b : ℕ) → i < n → get_elem? (replicate n b) i ≡ some b
get_elem?-replicate zero i b h = absurd (omega arith)
get_elem?-replicate (suc n) zero b h = refl
get_elem?-replicate (suc n) (suc i) b h = get_elem?-replicate n i b (omega arith)

pub take-append_length : (xs ys : Buffer) → take (length xs) (xs ++ ys) ≡ xs
take-append_length [] ys = refl
take-append_length (x ∷ xs) ys = ap (λ r. x ∷ r) (take-append_length xs ys)

pub drop-append_length : (xs ys : Buffer) → drop (length xs) (xs ++ ys) ≡ ys
drop-append_length [] ys = refl
drop-append_length (x ∷ xs) ys = drop-append_length xs ys

module _ (plaintext : Buffer) (pad : ℕ) where
  padded_byte :
      (j : ℕ) → j ≤ pad → get_elem? (plaintext ++ padding pad) (length plaintext + j) ≡ some pad
  padded_byte j h =
      get_elem?-append_right plaintext (padding pad) j
      ∙ get_elem?-replicate (pad + 1) j pad (omega arith)

  length-padded : length (plaintext ++ padding pad) ≡ length plaintext + pad + 1
  length-padded =
      omega (arith, length-append plaintext (padding pad), length-replicate (pad + 1) pad)

  padding_is_right-padded :
      (n i : ℕ)
      → n + i ≤ pad + 1
      → 0 < i
      → padding_is_right (plaintext ++ padding pad) pad n i ≡ true
  unfolding padding_is_right
  padding_is_right-padded zero i h pos = refl
  padding_is_right-padded (suc n) i h pos =
      let at : length (plaintext ++ padding pad) - 1 - i ≡ length plaintext + (pad - i) =
        omega (arith, length-padded) in
      let inside : leb (i + 1) (length (plaintext ++ padding pad)) ≡ true =
        le→leb _ _ (omega (arith, length-padded)) in
      rw
        (
          inside,
          at,
          padded_byte (pad - i) (omega arith),
          padding_is_right-padded n (i + 1) (omega arith) (omega arith),
        )
        (ground arith)

  strip_padding_of-padded : strip_padding_of (plaintext ++ padding pad) (some pad) ≡ ok plaintext
  unfolding strip_padding_of
  strip_padding_of-padded =
      let enough : ltb (length (plaintext ++ padding pad)) pad ≡ false =
        le→ltb _ _ (omega (arith, length-padded)) in
      let size : length (plaintext ++ padding pad) - (1 + pad) ≡ length plaintext =
        omega (arith, length-padded) in
      rw
        (
          enough,
          padding_is_right-padded pad 1 (omega arith) (omega arith),
          size,
          take-append_length plaintext (padding pad),
        )
        refl

  strip_padding_nonempty :
      (d : Buffer)
      → 0 < length d
      → strip_padding d ≡ strip_padding_of d (get_elem? d (length d - 1))
  unfolding strip_padding
  strip_padding_nonempty [] h = absurd (omega arith)
  strip_padding_nonempty (b ∷ bs) h = refl

  -- What was padded is stripped again.
  pub strip_padding-padded : strip_padding (plaintext ++ padding pad) ≡ ok plaintext
  strip_padding-padded =
      let last : length (plaintext ++ padding pad) - 1 ≡ length plaintext + pad =
        omega (arith, length-padded) in
      strip_padding_nonempty (plaintext ++ padding pad) (omega (arith, length-padded))
      ∙ ap
          (λ i.
            strip_padding_of (plaintext ++ padding pad) (get_elem? (plaintext ++ padding pad) i))
          last
      ∙ ap (strip_padding_of (plaintext ++ padding pad)) (padded_byte pad (omega arith))
      ∙ strip_padding_of-padded
