-- ===== src/Fragment/Split.antt =====
-- What `split` of src/DTLS/Handshake.ts makes of a message.
use node_dtls_client.Prelude.{
  ℕ, zero, suc, ◌-◌, ◌≤◌, ◌<◌, ◌≡◌, ◌∙◌, refl, ap, List, [], ◌∷◌, false, some, length, take, min,
  sym, length-take, arith, lt→ltb, ◌==◌,
}
use node_dtls_client.Errors.{ok}
use node_dtls_client.Fragment.{
  FragmentedHandshake, split, is_complete, single_message, no_holes, insert_by, sort_by,
}
use node_dtls_client.Fragment.Reassemble.{IsWhole}

-- The piece of `m` up to `n` bytes.
unfoldable pub first_piece : FragmentedHandshake → ℕ → FragmentedHandshake
first_piece m n = record {
  msg_type = m.msg_type;
  total_length = length m.fragment;
  message_seq = m.message_seq;
  fragment_offset = 0;
  fragment = take n m.fragment;
}

take-all {ℓ} : {A : Type ℓ} (n : ℕ) (xs : List A) → length xs ≤ n → take n xs ≡ xs
take-all zero [] h = refl
take-all zero (x ∷ xs) h = absurd (omega arith)
take-all (suc n) [] h = refl
take-all (suc n) (x ∷ xs) h = ap (◌∷◌ x) (take-all n xs (omega arith))

pos-== : (n : ℕ) → 0 < n → (n == 0) ≡ false
pos-== n h = ground arith

-- The loop takes one piece and stops, since it goes on only while there is none.
split_lem :
    (m : FragmentedHandshake) (max_length : ℕ)
    → 0 < max_length
    → 0 < length m.fragment
    → split m (some max_length) ≡ ok (first_piece m (min max_length (length m.fragment - 0)) ∷ [])
unfolding split first_piece
split_lem m max_length pos more =
    let size : length (take (min max_length (length m.fragment - 0)) m.fragment)
        ≡ min max_length (length m.fragment - 0) =
      omega (arith, length-take (min max_length (length m.fragment - 0)) m.fragment) in
    rw (
      lt→ltb 0 (length m.fragment) more,
      pos-== (length (take (min max_length (length m.fragment - 0)) m.fragment)) (omega arith),
    )

-- A whole message with a body, no longer than the limit, goes out as the one fragment that it is.
pub split_whole :
    (m : FragmentedHandshake) (max_length : ℕ)
    → IsWhole m
    → 0 < length m.fragment
    → length m.fragment ≤ max_length
    → split m (some max_length) ≡ ok (m ∷ [])
split_whole m max_length whole pos fits =
    split_lem m max_length (omega arith) pos ∙ ap (λ f. ok (f ∷ [])) same
  where
    enough : length m.fragment ≤ min max_length (length m.fragment - 0)
    enough = omega arith

    same : first_piece m (min max_length (length m.fragment - 0)) ≡ m
    same =
        unfold first_piece in
        λ i. record m {
          total_length = sym whole.1 i;
          fragment_offset = sym whole.0 i;
          fragment = take-all (min max_length (length m.fragment - 0)) m.fragment enough i;
        }

one_piece_incomplete :
    (f : FragmentedHandshake)
    → f.fragment_offset ≡ 0
    → length f.fragment < f.total_length
    → is_complete (f ∷ []) ≡ ok false
unfolding is_complete single_message no_holes sort_by insert_by
one_piece_incomplete f e short = ap ok (ground arith)

-- Of a longer message only the first piece is made, as long as the limit, though the function is
-- said to return all of them; and that piece alone is no complete message.
pub split_truncated :
    (m : FragmentedHandshake) (max_length : ℕ)
    → 0 < max_length
    → max_length < length m.fragment
    → (split m (some max_length) ≡ ok (first_piece m max_length ∷ []))
      × (length (first_piece m max_length).fragment ≡ max_length)
      × (is_complete (first_piece m max_length ∷ []) ≡ ok false)
split_truncated m max_length pos long = (
  split_lem m max_length pos (omega arith)
      ∙ ap (λ (n : ℕ). ok (first_piece m n ∷ [])) (omega arith),
  unfold first_piece in omega (arith, length-take max_length m.fragment),
  one_piece_incomplete (first_piece m max_length) (unfold first_piece in refl)
      (unfold first_piece in omega (arith, length-take max_length m.fragment)),
)
