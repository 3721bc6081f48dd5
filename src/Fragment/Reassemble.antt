-- ===== src/Fragment/Reassemble.antt =====
-- `isComplete`, `findAllFragments` and `reassemble` of src/DTLS/Handshake.ts together.
use node_dtls_client.Prelude.{
  ℕ, ◌+◌, ◌≤◌, ◌<◌, ◌≡◌, ◌≢◌, ◌∙◌, inl, inr, refl, ap, sym, List, [], ◌∷◌, Bool, true, false, map,
  not, ◌&&◌, ◌||◌, length, arith, lt-cases, leb, ◌==◌, Bool-cases,
}
use node_dtls_client.Errors.{ok}
use node_dtls_client.Convert.{Buffer}
use node_dtls_client.Codec.{Memory}
use node_dtls_client.Fragment.{
  FragmentedHandshake, Range, range, is_last, no_holes, is_complete, single_message, same_message,
  sort_by, reassemble, reassemble_sorted, combine, alloc_unsafe, find_all_fragments, every, keep,
}
use node_dtls_client.Fragment.Sort.{All, All-sort_by, map-sort_by, length-sort_by}
use node_dtls_client.Fragment.Copy.{
  IsSlice, Covers, combine_right, length-combine, length-alloc_unsafe, get_elem?-ext,
}

-- A message that is not fragmented.
abbrev pub IsWhole : FragmentedHandshake → Type 0
IsWhole m = (m.fragment_offset ≡ 0) × (m.total_length ≡ length m.fragment)

-- A fragment of the message: its type, sequence number and total length, and a slice of its bytes.
abbrev pub IsPart : FragmentedHandshake → FragmentedHandshake → Type 0
IsPart m f =
    (f.msg_type ≡ m.msg_type)
    × (f.message_seq ≡ m.message_seq)
    × (f.total_length ≡ length m.fragment)
    × IsSlice m.fragment f

and-true : (x y : Bool) → x && y ≡ true → (x ≡ true) × (y ≡ true)
and-true true y h = (refl, h)
and-true false y h = cc

no_holes-cons :
    (total reached : ℕ) (r : Range) (rs : List Range)
    → no_holes total reached (r ∷ rs) ≡ true
    → (r.start ≤ reached)
      × ((not (is_last rs) || r.after == total) ≡ true)
      × (no_holes total r.after rs ≡ true)
unfolding no_holes
no_holes-cons total reached r rs h =
    let (starts, more) = and-true (leb r.start reached) _ h in
    let (ends, rest) = and-true (not (is_last rs) || r.after == total) _ more in
    (ground arith, ends, rest)

-- Ranges with no holes reach every byte.
no_holes-Covers :
    (total reached : ℕ) (f : FragmentedHandshake) (fs : List FragmentedHandshake)
    → no_holes total reached (map range (f ∷ fs)) ≡ true
    → (i : ℕ) → reached ≤ i
    → i < total
    → Covers (f ∷ fs) i
no_holes-Covers total reached f [] h i lo hi =
    let (starts, ends, rest) = no_holes-cons total reached (range f) [] h in
    let whole : f.fragment_offset + length f.fragment ≡ total = ground arith in
    inl (omega arith, omega arith)
no_holes-Covers total reached f (g ∷ gs) h i lo hi =
    let (starts, ends, rest) = no_holes-cons total reached (range f) (map range (g ∷ gs)) h in
    elim (lt-cases i (f.fragment_offset + length f.fragment)) [
      | inl here ↦ inl (omega arith, here)
      | inr later ↦
          inr (no_holes-Covers total (f.fragment_offset + length f.fragment) g gs rest i later hi)
    ]

All-map :
    {P Q : FragmentedHandshake → Type 0}
    → ((f : FragmentedHandshake) → P f → Q f)
    → (fs : List FragmentedHandshake) → All P fs
    → All Q fs
All-map g [] h = tt
All-map g (f ∷ fs) (p, h) = (g f p, All-map g fs h)

reassembled :
    (memory : Memory) (m : FragmentedHandshake) (fs : List FragmentedHandshake)
    → IsWhole m
    → All (IsPart m) fs
    → fs ≢ []
    → no_holes (length m.fragment) 0 (map range fs) ≡ true
    → reassemble_sorted memory fs ≡ ok m
unfolding reassemble_sorted
reassembled memory m [] whole parts nonempty h = absurd (nonempty refl)
reassembled memory m (f ∷ fs) whole parts nonempty h = λ i. ok (record {
  msg_type = parts.0.0 i;
  total_length = (parts.0.2 ∙ sym whole.1) i;
  message_seq = parts.0.1 i;
  fragment_offset = sym whole.0 i;
  fragment = same i;
})
  where
    start : Buffer
    start = alloc_unsafe memory f.total_length 0

    size : length start ≡ length m.fragment
    size = length-alloc_unsafe memory f.total_length 0 ∙ parts.0.2

    same : combine start (f ∷ fs) ≡ m.fragment
    same =
        get_elem?-ext (combine start (f ∷ fs)) m.fragment (length-combine start (f ∷ fs) ∙ size)
          (λ i l.
            combine_right m.fragment start (f ∷ fs) i size (All-map (λ g p. p.3) (f ∷ fs) parts)
              (inr (no_holes-Covers (length m.fragment) 0 f fs h i (omega arith) l)))

sort_by_nonempty :
    (f : FragmentedHandshake) (fs : List FragmentedHandshake)
    → sort_by (λ g. g.fragment_offset) (f ∷ fs) ≢ []
sort_by_nonempty f fs e =
    omega
      (arith, length-sort_by (λ (g : FragmentedHandshake). g.fragment_offset) (f ∷ fs), ap length e)

complete-no_holes :
    (f : FragmentedHandshake) (fs : List FragmentedHandshake)
    → is_complete (f ∷ fs) ≡ ok true
    → no_holes f.total_length 0 (sort_by (λ r. r.start) (map range (f ∷ fs))) ≡ true
unfolding is_complete
complete-no_holes f fs h = elim (Bool-cases (single_message (f ∷ fs))) [
  | inl e ↦ let h' = rw e at h in cc
  | inr e ↦ let h' = rw e at h in cc
]

-- Fragments of one message, in any order and overlapping as they may, that `isComplete` passes are
-- put together by `reassemble` to exactly that message, whatever the new buffer held before.
pub reassemble-is_complete :
    (memory : Memory) (m : FragmentedHandshake) (fs : List FragmentedHandshake)
    → IsWhole m
    → All (IsPart m) fs
    → is_complete fs ≡ ok true
    → reassemble memory fs ≡ ok m
unfolding reassemble is_complete
reassemble-is_complete memory m [] whole parts h = cc
reassemble-is_complete memory m (f ∷ fs) whole parts h =
    reassembled memory m (sort_by (λ g. g.fragment_offset) (f ∷ fs)) whole
      (All-sort_by (λ g. g.fragment_offset) (IsPart m) (f ∷ fs) parts) (sort_by_nonempty f fs)
      (rw (← map-sort_by (λ r. r.start) range (f ∷ fs), ← parts.0.2) (complete-no_holes f fs h))

keep-All :
    (p : FragmentedHandshake → Bool) (fs : List FragmentedHandshake)
    → All (λ g. p g ≡ true) (keep p fs)
keep-All p [] = tt
keep-All p (f ∷ fs) = elim (Bool-cases (p f)) [
  | inl e ↦ rw e (e, keep-All p fs)
  | inr e ↦ rw e (keep-All p fs)
]

same_message_trans :
    (f g r : FragmentedHandshake)
    → same_message f r ≡ true
    → same_message g r ≡ true
    → same_message g f ≡ true
unfolding same_message
same_message_trans f g r p q = ground arith

every-All :
    (f r : FragmentedHandshake) (gs : List FragmentedHandshake)
    → same_message f r ≡ true
    → All (λ g. same_message g r ≡ true) gs
    → every (λ g. same_message g f) gs ≡ true
every-All f r [] p h = refl
every-All f r (g ∷ gs) p (q, h) = rw (same_message_trans f g r p q) (every-All f r gs p h)

checked :
    (r : FragmentedHandshake) (fs : List FragmentedHandshake)
    → All (λ g. same_message g r ≡ true) fs
    → (b : Bool) × (is_complete fs ≡ ok b)
unfolding is_complete single_message
checked r [] h = (false, refl)
checked r (f ∷ fs) (p, h) = (
  no_holes f.total_length 0 (sort_by (λ r. r.start) (map range (f ∷ fs))),
  rw (every-All f r fs p h),
)

-- The fragments that `findAllFragments` finds are of a single message, so `isComplete` throws
-- nothing on them.
pub is_complete-find_all_fragments :
    (fs : List FragmentedHandshake) (reference : FragmentedHandshake)
    → (b : Bool) × (is_complete (find_all_fragments fs reference) ≡ ok b)
unfolding find_all_fragments
is_complete-find_all_fragments fs reference =
    checked reference (keep (λ f. same_message f reference) fs)
      (keep-All (λ f. same_message f reference) fs)
