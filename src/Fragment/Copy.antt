-- ===== src/Fragment/Copy.antt =====
-- The bytes of a buffer after one fragment, or several, were copied into it.
use node_dtls_client.Prelude.{
  ℕ, zero, suc, ◌+◌, ◌-◌, ◌≤◌, ◌<◌, ◌≡◌, ◌∙◌, ◌⊎◌, inl, inr, refl, ap, sym, List, [], ◌∷◌, some,
  length, get_elem?, arith, lt-cases,
}
use mathlib.Core.Path.{ap₂}
use node_dtls_client.Convert.{Buffer}
use node_dtls_client.Codec.{Memory}
use node_dtls_client.Fragment.{FragmentedHandshake, copy_into, combine, alloc_unsafe}
use node_dtls_client.Fragment.Sort.{All}

pub length-copy_into :
    (t : Buffer) (offset : ℕ) (s : Buffer) → length (copy_into t offset s) ≡ length t
unfolding copy_into
length-copy_into [] offset s = refl
length-copy_into (x ∷ t) (suc offset) s = ap suc (length-copy_into t offset s)
length-copy_into (x ∷ t) zero [] = refl
length-copy_into (x ∷ t) zero (y ∷ s) = ap suc (length-copy_into t zero s)

-- A byte that the source does not reach stays.
pub copy_into_outside :
    (t : Buffer) (offset : ℕ) (s : Buffer) (i : ℕ)
    → (i < offset) ⊎ (offset + length s ≤ i)
    → get_elem? (copy_into t offset s) i ≡ get_elem? t i
unfolding copy_into
copy_into_outside [] offset s i h = refl
copy_into_outside (x ∷ t) (suc offset) s zero h = refl
copy_into_outside (x ∷ t) (suc offset) s (suc i) h = copy_into_outside t offset s i (omega arith)
copy_into_outside (x ∷ t) zero [] i h = refl
copy_into_outside (x ∷ t) zero (y ∷ s) zero h = absurd (omega arith)
copy_into_outside (x ∷ t) zero (y ∷ s) (suc i) h = copy_into_outside t zero s i (omega arith)

-- A byte that the source reaches is the source's.
pub copy_into_inside :
    (t : Buffer) (offset : ℕ) (s : Buffer) (i : ℕ)
    → i < length s
    → offset + i < length t
    → get_elem? (copy_into t offset s) (offset + i) ≡ get_elem? s i
unfolding copy_into
copy_into_inside [] offset s i h l = absurd (omega arith)
copy_into_inside (x ∷ t) (suc offset) s i h l =
    let e : suc offset + i ≡ suc (offset + i) = omega arith in
    rw e (copy_into_inside t offset s i h (omega arith))
copy_into_inside (x ∷ t) zero [] i h l = absurd (omega arith)
copy_into_inside (x ∷ t) zero (y ∷ s) zero h l = refl
copy_into_inside (x ∷ t) zero (y ∷ s) (suc i) h l =
    let e : 0 + suc i ≡ suc (0 + i) = omega arith in
    rw e (copy_into_inside t zero s i (omega arith) (omega arith))

pub length-alloc_unsafe : (memory : Memory) (n i : ℕ) → length (alloc_unsafe memory n i) ≡ n
unfolding alloc_unsafe
length-alloc_unsafe memory zero i = refl
length-alloc_unsafe memory (suc n) i = ap suc (length-alloc_unsafe memory n (i + 1))

-- The fragment holds the bytes of `body` from its offset on.
abbrev pub IsSlice : Buffer → FragmentedHandshake → Type 0
IsSlice body f =
    (f.fragment_offset + length f.fragment ≤ length body)
    × ((j : ℕ)
        → j < length f.fragment
        → get_elem? f.fragment j ≡ get_elem? body (f.fragment_offset + j))

-- Some fragment reaches the byte.
abbrev pub Covers : List FragmentedHandshake → ℕ → Type 0
Covers [] i = ⊥
Covers (f ∷ fs) i =
    ((f.fragment_offset ≤ i) × (i < f.fragment_offset + length f.fragment)) ⊎ Covers fs i

pub length-combine : (t : Buffer) (fs : List FragmentedHandshake) → length (combine t fs) ≡ length t
unfolding combine
length-combine t [] = refl
length-combine t (f ∷ fs) =
    length-combine (copy_into t f.fragment_offset f.fragment) fs
    ∙ length-copy_into t f.fragment_offset f.fragment

copied :
    (body t : Buffer) (f : FragmentedHandshake) (i : ℕ)
    → length t ≡ length body
    → IsSlice body f
    → f.fragment_offset ≤ i
    → i < f.fragment_offset + length f.fragment
    → get_elem? (copy_into t f.fragment_offset f.fragment) i ≡ get_elem? body i
copied body t f i same (fits, slice) lo hi =
    let j = i - f.fragment_offset in
    let e : i ≡ f.fragment_offset + (i - f.fragment_offset) = omega arith in
    ap (get_elem? (copy_into t f.fragment_offset f.fragment)) e
    ∙ copy_into_inside t f.fragment_offset f.fragment (i - f.fragment_offset) (omega arith)
        (omega arith)
    ∙ slice (i - f.fragment_offset) (omega arith)
    ∙ ap (get_elem? body) (sym e)

-- A byte that is right, or that some fragment reaches, is right in the end.
pub combine_right :
    (body t : Buffer) (fs : List FragmentedHandshake) (i : ℕ)
    → length t ≡ length body
    → All (IsSlice body) fs
    → (get_elem? t i ≡ get_elem? body i) ⊎ Covers fs i
    → get_elem? (combine t fs) i ≡ get_elem? body i
unfolding combine
combine_right body t [] i same h (inl e) = e
combine_right body t [] i same h (inr c) = absurd c
combine_right body t (f ∷ fs) i same (slice, h) c =
    combine_right body (copy_into t f.fragment_offset f.fragment) fs i
      (length-copy_into t f.fragment_offset f.fragment ∙ same) h
      (next c (lt-cases i f.fragment_offset) (lt-cases i (f.fragment_offset + length f.fragment)))
  where
    next :
        (get_elem? t i ≡ get_elem? body i) ⊎ Covers (f ∷ fs) i
        → (i < f.fragment_offset) ⊎ (f.fragment_offset ≤ i)
        → (i < f.fragment_offset + length f.fragment) ⊎ (f.fragment_offset + length f.fragment ≤ i)
        → (get_elem? (copy_into t f.fragment_offset f.fragment) i ≡ get_elem? body i) ⊎ Covers fs i
    next (inr (inr c)) lo hi = inr c
    next (inr (inl (lo, hi))) p q = inl (copied body t f i same slice lo hi)
    next (inl e) (inl before) q =
        inl (copy_into_outside t f.fragment_offset f.fragment i (inl before) ∙ e)
    next (inl e) (inr lo) (inl hi) = inl (copied body t f i same slice lo hi)
    next (inl e) (inr lo) (inr after) =
        inl (copy_into_outside t f.fragment_offset f.fragment i (inr after) ∙ e)

-- Two buffers of one length with the same bytes are equal.
pub get_elem?-ext :
    (xs ys : Buffer)
    → length xs ≡ length ys
    → ((i : ℕ) → i < length ys → get_elem? xs i ≡ get_elem? ys i)
    → xs ≡ ys
get_elem?-ext [] [] e h = refl
get_elem?-ext [] (y ∷ ys) e h = absurd (omega arith)
get_elem?-ext (x ∷ xs) [] e h = absurd (omega arith)
get_elem?-ext (x ∷ xs) (y ∷ ys) e h =
    let first : some x ≡ some y = h 0 (omega arith) in
    let same : x ≡ y = cc in
    ap₂ ◌∷◌ same (get_elem?-ext xs ys (omega arith) (λ i l. h (suc i) (omega arith)))
