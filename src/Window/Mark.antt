-- ===== src/Window/Mark.antt =====
-- `markAsReceived` as seen through `hasReceived`.
use node_dtls_client.Prelude.{
  ℕ, ◌+◌, ◌-◌, ◌%◌, ◌≤◌, ◌<◌, ◌≡◌, ◌≢◌, ◌∙◌, refl, ap, Bool, true, false, ◌||◌, ◌⊎◌, arith,
  lt-cases, inl, inr, max, ◌==◌, le→leb, lt→leb, lt→ltb, le→ltb,
}
use node_dtls_client.Window.{
  AntiReplayWindow, advance, set_flag, locate, has_received, mark_as_received,
}
use node_dtls_client.Window.Shift.{bit_at}
use node_dtls_client.Window.Flag.{IsPair, flagged, bit_at-flagged, flagged-IsPair, has_received_lem}
use node_dtls_client.Window.Advance.{advance-IsMoved}

abbrev put : AntiReplayWindow → ℕ → AntiReplayWindow
put w s = set_flag w (locate w.ceiling s)

put-ceiling : (w : AntiReplayWindow) (s : ℕ) → (put w s).ceiling ≡ w.ceiling
unfolding set_flag locate
put-ceiling w s = elim (lt-cases (s + 63) w.ceiling) [
  | inl low ↦ rw (lt→leb w.ceiling (s + 63) low)
  | inr high ↦ rw (le→leb w.ceiling (s + 63) high)
]

put_inside :
    (w : AntiReplayWindow) (s : ℕ) (p : IsPair w.window)
    → w.ceiling ≤ s + 63
    → (put w s).window ≡ flagged p.a p.b (s + 63 - w.ceiling)
unfolding set_flag locate flagged
put_inside w s p h = rw (le→leb w.ceiling (s + 63) h, p.shape)

put_below : (w : AntiReplayWindow) (s : ℕ) → s + 63 < w.ceiling → (put w s).window ≡ w.window
unfolding set_flag locate
put_below w s h = rw (lt→leb w.ceiling (s + 63) h)

put-IsPair :
    (w : AntiReplayWindow) (s : ℕ) → IsPair w.window → s ≤ w.ceiling → IsPair (put w s).window
put-IsPair w s p h = elim (lt-cases (s + 63) w.ceiling) [
  | inl low ↦ rw (put_below w s low) p
  | inr high ↦
      rw (put_inside w s p high)
        (flagged-IsPair p.a p.b (s + 63 - w.ceiling) (omega arith) p.word_a p.word_b)
]

-- The bit of another number is no other number's bit.
same_bit : (s t c : ℕ) → c ≤ s + 63 → c ≤ t + 63 → (t + 63 - c == s + 63 - c) ≡ (t == s)
same_bit s t c p q = ground arith

has_received-put :
    (w : AntiReplayWindow) (s t : ℕ)
    → IsPair w.window
    → s ≤ w.ceiling
    → t ≤ w.ceiling
    → w.ceiling ≤ t + 63
    → has_received (put w s) t ≡ (has_received w t || t == s)
has_received-put w s t p hs ht h = rw (has_received_lem w t h) (
    has_received_lem (put w s) t (rw (put-ceiling w s) h)
    ∙ rw (put-ceiling w s) (elim (lt-cases (s + 63) w.ceiling) [
      | inl low ↦ rw (put_below w s low) (or_other _ s t (omega arith))
      | inr high ↦ rw (put_inside w s p high) (
          bit_at-flagged p.a p.b (s + 63 - w.ceiling) (t + 63 - w.ceiling) (omega arith)
            (omega arith)
          ∙ rw (same_bit s t w.ceiling high h, p.shape))
    ]))
  where
    or_other : (x : Bool) (s t : ℕ) → s < t → x ≡ (x || t == s)
    or_other true s t h = refl
    or_other false s t h = ground arith

pub mark_above :
    (w : AntiReplayWindow) (s : ℕ) → w.ceiling < s → mark_as_received w s ≡ put (advance w s) s
unfolding mark_as_received
mark_above w s h = rw (lt→ltb w.ceiling s h)

pub mark_within : (w : AntiReplayWindow) (s : ℕ) → s ≤ w.ceiling → mark_as_received w s ≡ put w s
unfolding mark_as_received
mark_within w s h = rw (le→ltb s w.ceiling h)

pub advance-ceiling : (w : AntiReplayWindow) (s : ℕ) → (advance w s).ceiling ≡ s
unfolding advance
advance-ceiling w s = refl

pub mark-ceiling : (w : AntiReplayWindow) (s : ℕ) → (mark_as_received w s).ceiling ≡ max w.ceiling s
mark-ceiling w s = elim (lt-cases w.ceiling s) [
  | inl above ↦
      rw (mark_above w s above) (omega (arith, put-ceiling (advance w s) s, advance-ceiling w s))
  | inr within ↦ rw (mark_within w s within) (omega (arith, put-ceiling w s))
]

pub mark-IsPair :
    (w : AntiReplayWindow) (s : ℕ) → IsPair w.window → IsPair (mark_as_received w s).window
mark-IsPair w s p = elim (lt-cases w.ceiling s) [
  | inl above ↦ rw (mark_above w s above) (
      put-IsPair (advance w s) s (advance-IsMoved w s p above).pair
        (omega (arith, advance-ceiling w s)))
  | inr within ↦ rw (mark_within w s within) (put-IsPair w s p within)
]

module _ (w : AntiReplayWindow) (s t : ℕ) (p : IsPair w.window) (low : s ≤ t + 63) where
  has_received-mark_above :
      w.ceiling < s
      → t ≤ s
      → has_received (mark_as_received w s) t ≡ (bit_at (advance w s).window (t + 63 - s) || t == s)
  has_received-mark_above above ht = rw (mark_above w s above) (
      has_received-put (advance w s) s t (advance-IsMoved w s p above).pair
        (omega (arith, advance-ceiling w s)) (omega (arith, advance-ceiling w s))
        (omega (arith, advance-ceiling w s))
      ∙ rw (
        has_received_lem (advance w s) t (omega (arith, advance-ceiling w s)),
        advance-ceiling w s,
      ))

  -- A jump that is no multiple of 32 leaves every number of the new window as it was, but the one
  -- marked.
  pub has_received-mark :
      (s ≤ w.ceiling) ⊎ ((s - w.ceiling) % 32 ≢ 0)
      → t ≤ max w.ceiling s
      → w.ceiling ≤ t + 63
      → has_received (mark_as_received w s) t ≡ (has_received w t || t == s)
  has_received-mark smooth ht h = elim (lt-cases w.ceiling s) [
    | inl above ↦
        has_received-mark_above above (omega arith)
        ∙ rw
            (
              (advance-IsMoved w s p above).exact (omega arith) (t + 63 - s) (omega arith),
              has_received_lem w t h,
            )
            (ap (λ k. bit_at w.window k || t == s) (omega arith))
    | inr within ↦ rw (mark_within w s within) (has_received-put w s t p within (omega arith) h)
  ]

  -- A jump by a multiple of 32 marks also each number that is 32 above one received.
  pub has_received-mark_whole :
      w.ceiling < s
      → (s - w.ceiling) % 32 ≡ 0
      → t ≤ s
      → 63 ≤ w.ceiling
      → has_received (mark_as_received w s) t
        ≡ ((has_received w (t - 32) || has_received w t) || t == s)
  has_received-mark_whole above whole ht high =
      has_received-mark_above above ht
      ∙ let e : t + 63 - s + (s - w.ceiling - 32) ≡ t - 32 + 63 - w.ceiling = omega arith in
        let f : t + 63 - s + (s - w.ceiling) ≡ t + 63 - w.ceiling = omega arith in
        rw (
          (advance-IsMoved w s p above).doubled whole (t + 63 - s) (omega arith),
          has_received_lem w t (omega arith),
          has_received_lem w (t - 32) (omega arith),
          e,
          f,
        )
