-- ===== src/Window/Fresh.antt =====
-- Fresh numbers: the window against the history of the numbers that it was given.
use node_dtls_client.Prelude.{
  ℕ, zero, suc, ◌+◌, ◌-◌, ◌/◌, ◌%◌, ◌≤◌, ◌<◌, ◌≡◌, ◌≢◌, ◌∙◌, refl, ap, sym, Bool, true, false, ◌||◌,
  ◌&&◌, not, List, [], ◌∷◌, ◌⊎◌, arith, lt-cases, inl, inr, max, ◌==◌, leb, get_or,
}
use node_dtls_client.Window.{AntiReplayWindow, has_received, may_receive, mark_as_received, reset}
use node_dtls_client.Window.Flag.{has_received_lem, has_received_above}
use node_dtls_client.Bits.{test_bit-zero}
use node_dtls_client.Window.Shift.{bit_at}
use node_dtls_client.Window.Mark.{mark-ceiling, has_received-mark, has_received-mark_whole}
use node_dtls_client.Window.Replay.{IsWindow, mark-IsWindow, reset-IsWindow}

-- What a replay window promises, over the numbers received so far: nothing is known of numbers
-- more than 63 below the highest (which starts at 63), one within 64 above it is new, and the
-- others are new unless they were received.
abbrev pub mem : ℕ → List ℕ → Bool
mem t [] = false
mem t (s ∷ ss) = mem t ss || t == s

abbrev pub highest : List ℕ → ℕ
highest [] = 63
highest (s ∷ ss) = max (highest ss) s

unfoldable pub is_fresh : List ℕ → ℕ → Bool
is_fresh seen t =
    leb t (highest seen + 64)
    && leb (highest seen) (t + 63)
    && not (leb t (highest seen) && mem t seen)

-- No number of the list is above all before it by a multiple of 32. The list is newest first.
abbrev pub IsSmooth : List ℕ → Type 0
IsSmooth [] = Unit
IsSmooth (s ∷ ss) = ((s ≤ highest ss) ⊎ ((s - highest ss) % 32 ≢ 0)) × IsSmooth ss

-- The window after the numbers of a list, newest first.
unfoldable pub window_after : List ℕ → AntiReplayWindow
window_after [] = reset
window_after (s ∷ ss) = mark_as_received (window_after ss) s

pub window_after-IsWindow : (seen : List ℕ) → IsWindow (window_after seen)
unfolding window_after
window_after-IsWindow [] = reset-IsWindow
window_after-IsWindow (s ∷ ss) = mark-IsWindow (window_after ss) s (window_after-IsWindow ss)

pub window_after-ceiling : (seen : List ℕ) → (window_after seen).ceiling ≡ highest seen
unfolding window_after reset
window_after-ceiling [] = refl
window_after-ceiling (s ∷ ss) =
    omega (arith, mark-ceiling (window_after ss) s, window_after-ceiling ss)

has_received-reset : (t : ℕ) → has_received reset t ≡ false
unfolding reset bit_at
has_received-reset t =
    rw (has_received_lem reset t (omega arith), zeros ((t + 63 - 63) / 32)) (test_bit-zero _)
  where
    zeros : (i : ℕ) → get_or {A = ℕ} (0 ∷ 0 ∷ []) i 0 ≡ 0
    zeros zero = refl
    zeros (suc zero) = refl
    zeros (suc (suc i)) = refl

mem_above : (seen : List ℕ) (t : ℕ) → highest seen < t → mem t seen ≡ false
mem_above [] t h = refl
mem_above (s ∷ ss) t h = ground (arith, mem_above ss t)

window_after-mem :
    (seen : List ℕ) (t : ℕ)
    → IsSmooth seen
    → t ≤ highest seen
    → highest seen ≤ t + 63
    → has_received (window_after seen) t ≡ mem t seen
unfolding window_after
window_after-mem [] t h ht low = has_received-reset t
window_after-mem (s ∷ ss) t h ht low =
    has_received-mark (window_after ss) s t (window_after-IsWindow ss).pair (omega arith)
      (rw (window_after-ceiling ss) h.0) (omega (arith, window_after-ceiling ss))
      (omega (arith, window_after-ceiling ss))
    ∙ ap (λ x. x || t == s)
        (elim (lt-cases (highest ss) t) [
          | inl above ↦
              has_received_above (window_after ss) t (window_after-IsWindow ss).pair
                (omega (arith, window_after-ceiling ss))
              ∙ sym (mem_above ss t above)
          | inr within ↦ window_after-mem ss t h.1 within (omega arith)
        ])

-- Let no marked number be a multiple of 32 above the highest of 63 and the numbers marked before it.
-- Then `mayReceive` accepts a number exactly if it is at most 64 above and at most 63 below the highest
-- of 63 and all marked numbers, and was not marked.
pub may_receive-is_fresh :
    (seen : List ℕ) (t : ℕ) → IsSmooth seen → may_receive (window_after seen) t ≡ is_fresh seen t
unfolding may_receive is_fresh
may_receive-is_fresh seen t h = ground (arith, window_after-ceiling seen, window_after-mem seen t h)

-- A number 32 above one received is refused, though it was acceptable before and not received
-- since, once the ceiling rises past it by a multiple of 32.
pub may_receive_phantom :
    (w : AntiReplayWindow) (t s : ℕ)
    → IsWindow w
    → t ≤ w.ceiling
    → w.ceiling ≤ t + 63
    → has_received w t ≡ true
    → w.ceiling < t + 32
    → t + 32 < s
    → s ≤ t + 95
    → (s - w.ceiling) % 32 ≡ 0
    → (may_receive w (t + 32) ≡ true) × (may_receive (mark_as_received w s) (t + 32) ≡ false)
unfolding may_receive
may_receive_phantom w t s h ht low got above below recent whole =
    (ground arith, ground (arith, mark-ceiling w s, refused))
  where
    same : t + 32 - 32 ≡ t
    same = omega arith

    refused : has_received (mark_as_received w s) (t + 32) ≡ true
    refused =
        has_received-mark_whole w s (t + 32) h.pair (omega arith) (omega arith) whole (omega arith)
          h.high
        ∙ rw (same, got)
