-- ===== src/Window/Advance.antt =====
-- `markAsReceived` on a number above the ceiling: where the bits of the window go.
use Prim.Native.Nat.{bit_or}
use node_dtls_client.Prelude.{
  ℕ, ◌+◌, ◌-◌, ◌%◌, ◌^◌, ◌<◌, ◌≡◌, ◌≢◌, ◌∙◌, refl, ap, ◌||◌, List, [], ◌∷◌, arith,
}
use native.Mathlib.Nat.{div-le_self}
use mathlib.Core.Path.{subst, sym, ap₂}
use node_dtls_client.Bits.{or-lt}
use node_dtls_client.Window.{AntiReplayWindow, advance, shift_bits, shift_blocks, shl32, shr32}
use node_dtls_client.Window.Shift.{
  bit_at, IsWord, bit_at-shift_bits, bit_at-shift_bits_whole, IsShifted, shift_blocks-IsShifted,
}
use node_dtls_client.Window.Flag.{IsPair}

shift_bits-IsPair : (n a b : ℕ) → IsWord a → IsWord b → IsPair (shift_bits n (a ∷ b ∷ []))
unfolding shift_bits
shift_bits-IsPair n a b ha hb = record {
  a = bit_or (shr32 a n) (shl32 b (32 - n));
  b = shr32 b n;
  shape = refl;
  word_a = or-lt 32 _ _ (omega (arith, div-le_self a (2 ^ (n % 32)))) (omega arith);
  word_b = omega (arith, div-le_self b (2 ^ (n % 32)));
}

-- The window `ws` shifted by `amount` places into `out`. By a multiple of 32 each bit is also left
-- 32 places above its own.
pub record IsMoved (amount : ℕ) (ws out : List ℕ) : Type 0 where
  pub pair : IsPair out
  pub exact : amount % 32 ≢ 0 → (k : ℕ) → k < 64 → bit_at out k ≡ bit_at ws (k + amount)
  pub doubled :
      amount % 32 ≡ 0
      → (k : ℕ) → k < 64
      → bit_at out k ≡ (bit_at ws (k + (amount - 32)) || bit_at ws (k + amount))

shift_bits-IsMoved :
    {amount left : ℕ} {ws ws' : List ℕ}
    → IsShifted amount left ws ws'
    → IsMoved amount ws (shift_bits left ws')
shift_bits-IsMoved {amount} {left} {ws} {ws'} s =
    subst (λ v. IsMoved amount ws (shift_bits left v)) (sym s.shape)
      (record {
        pair = shift_bits-IsPair left s.a s.b s.word_a s.word_b;
        exact = λ h k hk.
            bit_at-shift_bits left s.a s.b k s.left_pos (omega arith) hk s.word_a s.word_b
            ∙ moved (k + left)
            ∙ ap (bit_at ws) (omega arith);
        doubled = λ h k hk.
            let e : left ≡ 32 = omega arith in
            rw e (
              bit_at-shift_bits_whole s.a s.b k hk s.word_a s.word_b
              ∙ ap₂ ◌||◌ (moved k ∙ ap (bit_at ws) (omega arith))
                  (moved (k + 32) ∙ ap (bit_at ws) (omega arith)));
      })
  where
    moved : (k : ℕ) → bit_at (s.a ∷ s.b ∷ []) k ≡ bit_at ws (k + (amount - left))
    moved k = ap (λ v. bit_at v k) (sym s.shape) ∙ s.moved k

-- The shift of `markAsReceived` ends, and moves the window by the distance to the new ceiling.
pub advance-IsMoved :
    (w : AntiReplayWindow) (s : ℕ)
    → IsPair w.window
    → w.ceiling < s
    → IsMoved (s - w.ceiling) w.window (advance w s).window
unfolding advance
advance-IsMoved w s p h = shift_bits-IsMoved (
    subst
      (λ v.
        IsShifted (s - w.ceiling) (shift_blocks (s - w.ceiling) (s - w.ceiling) v).0 v
          (shift_blocks (s - w.ceiling) (s - w.ceiling) v).1)
      (sym p.shape)
      (shift_blocks-IsShifted (s - w.ceiling) (s - w.ceiling) p.a p.b (omega arith) (omega arith)
        p.word_a p.word_b))
