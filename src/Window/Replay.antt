-- ===== src/Window/Replay.antt =====
-- The anti-replay window over sequences of marks.
use node_dtls_client.Prelude.{
  ℕ, ◌+◌, ◌-◌, ◌%◌, ◌≤◌, ◌<◌, ◌≡◌, ◌≢◌, ◌∙◌, refl, Bool, true, false, ◌||◌, List, [], ◌∷◌, ◌++◌,
  ◌⊎◌, arith, lt-cases, inl, inr, max, ◌==◌,
}
use native.Mathlib.Decide.{ℕ_discrete}
use node_dtls_client.Window.{AntiReplayWindow, has_received, may_receive, mark_as_received, reset}
use node_dtls_client.Window.Flag.{IsPair}
use node_dtls_client.Window.Mark.{
  mark-ceiling, mark-IsPair, has_received-mark, has_received-mark_whole,
}

-- What every window meets: two words, and a ceiling at least the first one.
pub record IsWindow (w : AntiReplayWindow) : Type 0 where
  pub pair : IsPair w.window
  pub high : 63 ≤ w.ceiling

pub reset-IsWindow : IsWindow reset
unfolding reset
reset-IsWindow = record {
  pair = record { a = 0; b = 0; shape = refl; word_a = omega arith; word_b = omega arith };
  high = omega arith;
}

pub mark-IsWindow : (w : AntiReplayWindow) (s : ℕ) → IsWindow w → IsWindow (mark_as_received w s)
mark-IsWindow w s h = record {
  pair = mark-IsPair w s h.pair;
  high = omega (arith, mark-ceiling w s, h.high);
}

-- The numbers of a list marked in turn.
unfoldable pub mark_all : AntiReplayWindow → List ℕ → AntiReplayWindow
mark_all w [] = w
mark_all w (s ∷ ss) = mark_all (mark_as_received w s) ss

-- Below the window, or within it and received.
abbrev pub IsSpent : AntiReplayWindow → ℕ → Type 0
IsSpent w t =
    (t + 63 < w.ceiling) ⊎ ((t ≤ w.ceiling) × (w.ceiling ≤ t + 63) × (has_received w t ≡ true))

pub IsSpent-may_receive : (w : AntiReplayWindow) (t : ℕ) → IsSpent w t → may_receive w t ≡ false
unfolding may_receive
IsSpent-may_receive w t h = ground arith

smooth-cases : (c s : ℕ) → ((s ≤ c) ⊎ ((s - c) % 32 ≢ 0)) ⊎ ((c < s) × ((s - c) % 32 ≡ 0))
smooth-cases c s = elim (lt-cases c s) [
  | inl above ↦ elim (ℕ_discrete ((s - c) % 32) 0) [
    | yes whole ↦ inr (above, whole)
    | no rest ↦ inl (inr rest)
  ]
  | inr within ↦ inl (inl within)
]

or-left : (x y : Bool) → x ≡ true → (x || y) ≡ true
or-left x y h = rw h

or_middle : (x y z : Bool) → y ≡ true → ((x || y) || z) ≡ true
or_middle true y z h = refl
or_middle false y z h = rw h

or_right : (x y : Bool) → y ≡ true → (x || y) ≡ true
or_right true y h = refl
or_right false y h = h

==-refl : (t : ℕ) → (t == t) ≡ true
==-refl t = ground arith

-- A mark forgets no number that is still within the window.
mark-keeps :
    (w : AntiReplayWindow) (s t : ℕ)
    → IsWindow w
    → t ≤ w.ceiling
    → max w.ceiling s ≤ t + 63
    → has_received w t ≡ true
    → has_received (mark_as_received w s) t ≡ true
mark-keeps w s t h ht low got = elim (smooth-cases w.ceiling s) [
  | inl smooth ↦
      has_received-mark w s t h.pair (omega arith) smooth (omega arith) (omega arith)
      ∙ or-left _ (t == s) got
  | inr (above, whole) ↦
      has_received-mark_whole w s t h.pair (omega arith) above whole (omega arith) h.high
      ∙ or_middle (has_received w (t - 32)) _ (t == s) got
]

mark-IsSpent :
    (w : AntiReplayWindow) (s t : ℕ) → IsWindow w → IsSpent w t → IsSpent (mark_as_received w s) t
mark-IsSpent w s t h (inl old) = inl (omega (arith, mark-ceiling w s))
mark-IsSpent w s t h (inr (ht, low, got)) = elim (lt-cases (t + 63) (max w.ceiling s)) [
  | inl old ↦ inl (omega (arith, mark-ceiling w s))
  | inr high ↦ inr (
    omega (arith, mark-ceiling w s),
    omega (arith, mark-ceiling w s),
    mark-keeps w s t h ht high got,
  )
]

pub mark-IsSpent_self :
    (w : AntiReplayWindow) (s : ℕ) → IsWindow w → IsSpent (mark_as_received w s) s
mark-IsSpent_self w s h = elim (lt-cases (s + 63) w.ceiling) [
  | inl old ↦ inl (omega (arith, mark-ceiling w s))
  | inr high ↦ inr (
    omega (arith, mark-ceiling w s),
    omega (arith, mark-ceiling w s),
    elim (smooth-cases w.ceiling s) [
      | inl smooth ↦
          has_received-mark w s s h.pair (omega arith) smooth (omega arith) high
          ∙ or_right (has_received w s) _ (==-refl s)
      | inr (above, whole) ↦
          has_received-mark_whole w s s h.pair (omega arith) above whole (omega arith) h.high
          ∙ or_right _ _ (==-refl s)
    ],
  )
]

pub mark_all-IsSpent :
    (w : AntiReplayWindow) (ss : List ℕ) (t : ℕ)
    → IsWindow w
    → IsSpent w t
    → IsSpent (mark_all w ss) t
unfolding mark_all
mark_all-IsSpent w [] t h x = x
mark_all-IsSpent w (s ∷ ss) t h x =
    mark_all-IsSpent (mark_as_received w s) ss t (mark-IsWindow w s h) (mark-IsSpent w s t h x)

pub mark_all-IsWindow : (w : AntiReplayWindow) (ss : List ℕ) → IsWindow w → IsWindow (mark_all w ss)
unfolding mark_all
mark_all-IsWindow w [] h = h
mark_all-IsWindow w (s ∷ ss) h = mark_all-IsWindow (mark_as_received w s) ss (mark-IsWindow w s h)

pub mark_all-append :
    (w : AntiReplayWindow) (ss ts : List ℕ) → mark_all w (ss ++ ts) ≡ mark_all (mark_all w ss) ts
unfolding mark_all
mark_all-append w [] ts = refl
mark_all-append w (s ∷ ss) ts = mark_all-append (mark_as_received w s) ss ts

-- In a window that meets its invariant, a number that was marked is refused by `mayReceive` for
-- ever, whatever numbers are marked after it and in whatever order.
pub may_receive-mark_all :
    (w : AntiReplayWindow) (s : ℕ) (later : List ℕ)
    → IsWindow w
    → may_receive (mark_all (mark_as_received w s) later) s ≡ false
may_receive-mark_all w s later h = IsSpent-may_receive _ s (
    mark_all-IsSpent (mark_as_received w s) later s (mark-IsWindow w s h) (mark-IsSpent_self w s h))
