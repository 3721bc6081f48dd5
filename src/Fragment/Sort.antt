-- ===== src/Fragment/Sort.antt =====
-- Sorting keeps what holds of every element, and commutes with a map that keeps the key.
use node_dtls_client.Prelude.{
  ℕ, ◌≡◌, ◌∙◌, refl, ap, List, [], ◌∷◌, map, leb, Bool-cases, inl, inr, length, suc,
}
use node_dtls_client.Fragment.{insert_by, sort_by}

abbrev pub All {ℓ} : {A : Type ℓ} → (A → Type 0) → List A → Type 0
All P [] = Unit
All P (x ∷ xs) = P x × All P xs

module _ {A : Type 0} (key : A → ℕ) (P : A → Type 0) where
  All-insert_by : (x : A) (xs : List A) → P x → All P xs → All P (insert_by key x xs)
  unfolding insert_by
  All-insert_by x [] p h = (p, tt)
  All-insert_by x (y ∷ ys) p (q, h) = elim (Bool-cases (leb (key x) (key y))) [
    | inl e ↦ rw e (p, (q, h))
    | inr e ↦ rw e (q, All-insert_by x ys p h)
  ]

  pub All-sort_by : (xs : List A) → All P xs → All P (sort_by key xs)
  unfolding sort_by
  All-sort_by [] h = tt
  All-sort_by (x ∷ xs) (p, h) = All-insert_by x (sort_by key xs) p (All-sort_by xs h)

module _ {A B : Type 0} (key : B → ℕ) (g : A → B) where
  map-insert_by :
      (x : A) (xs : List A)
      → insert_by key (g x) (map g xs) ≡ map g (insert_by (λ a. key (g a)) x xs)
  unfolding insert_by
  map-insert_by x [] = refl
  map-insert_by x (y ∷ ys) = elim (Bool-cases (leb (key (g x)) (key (g y)))) [
    | inl e ↦ rw e
    | inr e ↦ rw e (ap (◌∷◌ (g y)) (map-insert_by x ys))
  ]

  pub map-sort_by : (xs : List A) → sort_by key (map g xs) ≡ map g (sort_by (λ a. key (g a)) xs)
  unfolding sort_by
  map-sort_by [] = refl
  map-sort_by (x ∷ xs) =
      ap (insert_by key (g x)) (map-sort_by xs) ∙ map-insert_by x (sort_by (λ a. key (g a)) xs)

length-insert_by :
    {A : Type 0} (key : A → ℕ) (x : A) (xs : List A) → length (insert_by key x xs) ≡ suc (length xs)
unfolding insert_by
length-insert_by key x [] = refl
length-insert_by key x (y ∷ ys) = elim (Bool-cases (leb (key x) (key y))) [
  | inl e ↦ rw e
  | inr e ↦ rw e (ap suc (length-insert_by key x ys))
]

pub length-sort_by : {A : Type 0} (key : A → ℕ) (xs : List A) → length (sort_by key xs) ≡ length xs
unfolding sort_by
length-sort_by key [] = refl
length-sort_by key (x ∷ xs) =
    length-insert_by key x (sort_by key xs) ∙ ap suc (length-sort_by key xs)
