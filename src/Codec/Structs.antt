-- ===== src/Codec/Structs.antt =====
-- Reading back a vector of structs, from the round trip of its items.
use node_dtls_client.Prelude.{
  ℕ, zero, suc, ◌+◌, ◌<◌, ◌≡◌, ◌∙◌, refl, ap, [], ◌++◌, false, some, ◌==◌, length, length-append,
  append_assoc, arith, lt→ltb, le→ltb,
}
use node_dtls_client.Convert.{Buffer}
use node_dtls_client.Codec.{
  Result, ok, err, Values, nil, cons, object, num, bytes, numbers, structs, concat_structs,
  read_structs,
}
use node_dtls_client.Codec.Pieces.{shift_append}

abbrev pub encoded_length : Result Buffer → ℕ
encoded_length (ok bs) = length bs
encoded_length (err e) = 0

-- What is written of a struct is read back, wherever it stands.
abbrev pub Returns : (Values → Result Buffer) → (Buffer → ℕ → Result (Values × ℕ)) → Values → Type 0
Returns write from vs =
    (bs : Buffer) × (write vs ≡ ok bs)
    × ((pre rest : Buffer) → from (pre ++ (bs ++ rest)) (length pre) ≡ ok (vs, length bs))

-- Each item is an object that meets `P`, and takes at least one byte.
abbrev pub AllItems : (Values → Type 0) → (Values → Result Buffer) → Values → Type 0
AllItems P write nil = Unit
AllItems P write (cons (object vs) items) =
    P vs × (0 < encoded_length (write vs)) × AllItems P write items
AllItems P write (cons v items) = ⊥

pos→ne : (n : ℕ) → 0 < n → (n == 0) ≡ false
pos→ne n h = ground arith

read_structs_step :
    (from : ℕ → Result (Values × ℕ)) (f len offset i n total : ℕ) (item items : Values)
    → i < len
    → from offset ≡ ok (item, n)
    → 0 < n
    → read_structs from f (some len) (offset + n) (i + n) ≡ ok (items, total)
    → read_structs from (suc f) (some len) offset i ≡ ok (cons (object item) items, total)
unfolding read_structs
read_structs_step from f len offset i n total item items lt e pos h =
    rw (lt→ltb i len lt, e, pos→ne n pos, h)

module _ (P : Values → Type 0) (write : Values → Result Buffer)
    (from : Buffer → ℕ → Result (Values × ℕ))
    (each : (vs : Values) → P vs → Returns write from vs) where
  abbrev ReadsItems : Values → Buffer → Type 0
  ReadsItems items body =
      (pre rest : Buffer) (f i len : ℕ)
      → i + length body ≡ len
      → length body < f
      → read_structs (from (pre ++ (body ++ rest))) f (some len) (length pre) i ≡ ok (items, len)

  read_none : ReadsItems nil []
  unfolding read_structs
  read_none pre rest zero i len e h = absurd (omega arith)
  read_none pre rest (suc f) i len e h =
      rw (le→ltb len i (omega arith)) (ap (λ (k : ℕ). ok (nil, k)) (omega arith))

  ReadsItems-cons :
      (vs items : Values) (b body : Buffer)
      → ((pre rest : Buffer) → from (pre ++ (b ++ rest)) (length pre) ≡ ok (vs, length b))
      → 0 < length b
      → ReadsItems items body
      → ReadsItems (cons (object vs) items) (b ++ body)
  ReadsItems-cons vs items b body r pos rs pre rest zero i len e h = absurd (omega arith)
  ReadsItems-cons vs items b body r pos rs pre rest (suc f) i len e h =
      read_structs_step (from (pre ++ ((b ++ body) ++ rest))) f len (length pre) i (length b) len vs
        items (omega (arith, length-append b body)) here pos there
    where
      here : from (pre ++ ((b ++ body) ++ rest)) (length pre) ≡ ok (vs, length b)
      here =
          ap (λ z. from (pre ++ z) (length pre)) (append_assoc b body rest) ∙ r pre (body ++ rest)

      there :
          read_structs
            (from (pre ++ ((b ++ body) ++ rest)))
            f
            (some len)
            (length pre + length b)
            (i + length b)
          ≡ ok (items, len)
      there =
          let after : length pre + length b ≡ length (pre ++ b) =
            omega (arith, length-append pre b) in
          rw (shift_append pre b body rest, after)
            (rs (pre ++ b) rest f (i + length b) len (omega (arith, length-append b body))
              (omega (arith, length-append b body)))

  pub read_structs-concat :
      (items : Values)
      → AllItems P write items
      → (body : Buffer) × (concat_structs write items ≡ ok body) × ReadsItems items body
  unfolding concat_structs
  read_structs-concat nil h = ([], refl, read_none)
  read_structs-concat (cons (object vs) items) (p, pos, h) =
      let (b, wb, r) = each vs p in
      let (body, wc, rs) = read_structs-concat items h in
      (b ++ body, rw (wb, wc), ReadsItems-cons vs items b body r (rw wb at pos) rs)
  read_structs-concat (cons (num v) items) h = absurd h
  read_structs-concat (cons (bytes v) items) h = absurd h
  read_structs-concat (cons (numbers v) items) h = absurd h
  read_structs-concat (cons (structs v) items) h = absurd h
