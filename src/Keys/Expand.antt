-- ===== src/Keys/Expand.antt =====
-- The data expansion against its definition in RFC 5246, section 5.
use node_dtls_client.Prelude.{
  ℕ, zero, suc, ◌+◌, ◌-◌, ◌≤◌, ◌<◌, ◌≡◌, ◌∙◌, refl, ap, sym, [], ◌∷◌, ◌++◌, append-nil, length,
  length-append, length-take, take, arith, lt-cases, inl, inr, lt→ltb, le→ltb,
}
use node_dtls_client.Convert.{Buffer}
use node_dtls_client.Keys.{a_value, new_hash, expand, concat_to, p_hash}

pub take-prefix : (n : ℕ) (xs ys : Buffer) → n ≤ length xs → take n (xs ++ ys) ≡ take n xs
take-prefix zero xs ys h = refl
take-prefix (suc n) [] ys h = absurd (omega (arith, h))
take-prefix (suc n) (x ∷ xs) ys h = ap (λ r. x ∷ r) (take-prefix n xs ys (omega (arith, h)))

module _ (hmac : Buffer → Buffer → Buffer) (secret seed : Buffer) where
  -- A(i) of RFC 5246: A(0) = seed, A(i) = HMAC(secret, A(i - 1)).
  unfoldable pub rfc_a : ℕ → Buffer
  rfc_a zero = seed
  rfc_a (suc i) = hmac secret (rfc_a i)

  -- The hash i of the output: HMAC(secret, A(i) + seed).
  abbrev pub rfc_hash : ℕ → Buffer
  rfc_hash i = hmac secret (rfc_a i ++ seed)

  a_value-rfc_a : (i : ℕ) → a_value hmac secret seed i ≡ rfc_a i
  unfolding a_value rfc_a
  a_value-rfc_a zero = refl
  a_value-rfc_a (suc i) = ap (hmac secret) (a_value-rfc_a i)

  new_hash-rfc_hash : (i : ℕ) → new_hash hmac secret seed i ≡ rfc_hash i
  new_hash-rfc_hash i = ap (λ a. hmac secret (a ++ seed)) (a_value-rfc_a i)

  -- The first `n` hashes of the endless output, HMAC(secret, A(1) + seed) + HMAC(secret, A(2) + seed) + ...
  unfoldable pub output : ℕ → Buffer
  output zero = []
  output (suc n) = output n ++ rfc_hash (n + 1)

  output-next : (n : ℕ) → output (n + 1) ≡ output n ++ rfc_hash (n + 1)
  unfolding output
  output-next n = let e : n + 1 ≡ suc n = omega arith in ap output e

  length-output_next :
      (n : ℕ) → length (output (n + 1)) ≡ length (output n) + length (rfc_hash (n + 1))
  length-output_next n = ap length (output-next n) ∙ length-append (output n) (rfc_hash (n + 1))

  output-expand :
      (nonempty : (d : Buffer) → 0 < length (hmac secret d)) (len f n : ℕ)
      → len ≤ f + length (output n)
      → (k : ℕ) × (expand hmac secret seed len f (n + 1) (output n) ≡ output k)
        × (len ≤ length (output k))
  unfolding expand
  output-expand nonempty len zero n h = (n, refl, omega arith)
  output-expand nonempty len (suc f) n h = elim (lt-cases (length (output n)) len) [
    | inr enough ↦ (n, rw (le→ltb len (length (output n)) enough) refl, enough)
    | inl less ↦
        let grown = length-output_next n in
        let pos = nonempty (rfc_a (n + 1) ++ seed) in
        let (k, e, l) = output-expand nonempty len f (n + 1) (omega arith) in
        (
          k,
          rw (lt→ltb (length (output n)) len less, new_hash-rfc_hash (n + 1), ← output-next n) e,
          l,
        )
  ]

  -- More hashes leave the first bytes as they are.
  take-output :
      (len k d : ℕ)
      → len ≤ length (output k)
      → (take len (output (k + d)) ≡ take len (output k)) × (len ≤ length (output (k + d)))
  take-output len k zero h =
      let e : k + 0 ≡ k = omega arith in (ap (λ n. take len (output n)) e, rw e h)
  take-output len k (suc d) h =
      let e : k + suc d ≡ k + d + 1 = omega arith in
      let (same, enough) = take-output len k d h in
      let grown = length-output_next (k + d) in
      (
        ap (λ n. take len (output n)) e
            ∙ ap (take len) (output-next (k + d))
            ∙ take-prefix len (output (k + d)) (rfc_hash (k + d + 1)) enough
            ∙ same,
        rw e (omega arith),
      )

  take-output_any :
      (len j k : ℕ)
      → len ≤ length (output j)
      → len ≤ length (output k)
      → take len (output j) ≡ take len (output k)
  take-output_any len j k h l = elim (lt-cases j k) [
    | inl less ↦
        let e : j + (k - j) ≡ k = omega arith in
        sym (ap (λ n. take len (output n)) (sym e) ∙ (take-output len j (k - j) h).0)
    | inr more ↦
        let e : k + (j - k) ≡ j = omega arith in
        ap (λ n. take len (output n)) (sym e) ∙ (take-output len k (j - k) l).0
  ]

  concat_to-enough : (len : ℕ) (bs : Buffer) → len ≤ length bs → concat_to len bs ≡ take len bs
  concat_to-enough len bs h =
      let e : len - length bs ≡ 0 = omega arith in rw e (append-nil (take len bs))

  -- `P` gives the first bytes of the output that RFC 5246 defines, as many as it is asked for: of any
  -- number of hashes that reach that far. A hash has a byte at least.
  pub p_hash-output :
      (nonempty : (d : Buffer) → 0 < length (hmac secret d)) (len n : ℕ)
      → len ≤ length (output n)
      → (p_hash hmac secret seed len ≡ take len (output n))
        × (length (p_hash hmac secret seed len) ≡ len)
  unfolding p_hash output
  p_hash-output nonempty len n h =
      let (k, e, l) = output-expand nonempty len len 0 (omega arith) in
      let whole : p_hash hmac secret seed len ≡ take len (output n) =
        ap (concat_to len) e ∙ concat_to-enough len (output k) l ∙ take-output_any len k n l h in
      (whole, ap length whole ∙ omega (arith, length-take len (output n)))

  -- However long the output is to be, that many hashes reach far enough.
  pub length-output :
      (nonempty : (d : Buffer) → 0 < length (hmac secret d)) (n : ℕ) → n ≤ length (output n)
  unfolding output
  length-output nonempty zero = omega arith
  length-output nonempty (suc n) =
      let grown = length-append (output n) (rfc_hash (n + 1)) in
      let pos = nonempty (rfc_a (n + 1) ++ seed) in omega (arith, length-output nonempty n)
