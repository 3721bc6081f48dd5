-- ===== src/Window/Flag.antt =====
-- `hasReceived` reads one bit of the window, and `|= flag` sets one.
use Prim.Native.Nat.{bit_or}
use native.Mathlib.Nat.{pow-le-pow_right, pow-suc, one-le-pow}
use node_dtls_client.Prelude.{
  ℕ, suc, ◌+◌, ◌-◌, ◌/◌, ◌%◌, ◌^◌, ◌≤◌, ◌<◌, ◌≡◌, ◌≢◌, refl, Bool, true, false, ◌||◌, le→leb, List,
  [], ◌∷◌, inl, inr, arith, ◌==◌, get_or, set, lt-cases,
}
use node_dtls_client.Bits.{test_bit, test_bit-or, test_bit-pow, test_flag, or-lt}
use node_dtls_client.Window.{AntiReplayWindow, locate, flag_is_set, has_received}
use node_dtls_client.Window.Shift.{bit_at, bit_at_low, bit_at_upper, bit_at_out, IsWord}

-- Two words of 32 bits.
pub record IsPair (ws : List ℕ) : Type 0 where
  pub a : ℕ
  pub b : ℕ
  pub shape : ws ≡ a ∷ b ∷ []
  pub word_a : IsWord a
  pub word_b : IsWord b

-- Within the 64 numbers up to the ceiling, a number is received if its bit is set.
pub has_received_lem :
    (w : AntiReplayWindow) (t : ℕ)
    → w.ceiling ≤ t + 63
    → has_received w t ≡ bit_at w.window (t + 63 - w.ceiling)
unfolding has_received locate flag_is_set bit_at
has_received_lem w t h =
    rw (le→leb w.ceiling (t + 63) h)
      (test_flag ((t + 63 - w.ceiling) % 32) (get_or w.window ((t + 63 - w.ceiling) / 32) 0))

-- A number above the ceiling has no bit.
pub has_received_above :
    (w : AntiReplayWindow) (t : ℕ) → IsPair w.window → w.ceiling < t → has_received w t ≡ false
has_received_above w t p h =
    let e : t + 63 - w.ceiling ≡ (t - w.ceiling - 1) + 64 = omega arith in
    rw (has_received_lem w t (omega arith), p.shape, e) (bit_at_out p.a p.b (t - w.ceiling - 1))

pub pow-lt : (b : ℕ) → b < 32 → IsWord (2 ^ b)
pow-lt b h = omega (
  arith,
  pow-le-pow_right {n = 2} (omega arith) {i = suc b} {j = 32} h,
  pow-suc 2 b,
  one-le-pow b 2 (omega arith),
)

or_flag : (x b k : ℕ) → test_bit (bit_or x (2 ^ b)) k ≡ (test_bit x k || k == b)
or_flag x b k = rw (test_bit-or k x (2 ^ b), test_bit-pow b k)

or_no_flag : (x : Bool) (k j : ℕ) → k ≢ j → x ≡ (x || k == j)
or_no_flag true k j h = refl
or_no_flag false k j h = ground arith

==-sub : (k j : ℕ) → 32 ≤ k → 32 ≤ j → (k - 32 == j - 32) ≡ (k == j)
==-sub k j p q = ground arith

-- The window after `window[i] |= flag`, for the bit `j`.
unfoldable pub flagged : ℕ → ℕ → ℕ → List ℕ
flagged a b j = set (a ∷ b ∷ []) (j / 32) (bit_or (get_or (a ∷ b ∷ []) (j / 32) 0) (2 ^ (j % 32)))

flagged_low : (a b j : ℕ) → j < 32 → flagged a b j ≡ bit_or a (2 ^ j) ∷ b ∷ []
unfolding flagged
flagged_low a b j h =
    let e : j / 32 ≡ 0 = omega arith in let f : j % 32 ≡ j = omega arith in rw (e, f)

flagged_high : (a b j : ℕ) → 32 ≤ j → j < 64 → flagged a b j ≡ a ∷ bit_or b (2 ^ (j - 32)) ∷ []
unfolding flagged
flagged_high a b j h l =
    let e : j / 32 ≡ 1 = omega arith in let f : j % 32 ≡ j - 32 = omega arith in rw (e, f)

-- Setting bit `j` changes that bit alone.
pub bit_at-flagged :
    (a b j k : ℕ) → j < 64 → k < 64 → bit_at (flagged a b j) k ≡ (bit_at (a ∷ b ∷ []) k || k == j)
bit_at-flagged a b j k hj hk = elim (lt-cases j 32) [
  | inl low ↦ rw (flagged_low a b j low) (elim (lt-cases k 32) [
    | inl klow ↦ rw (bit_at_low _ b k klow, bit_at_low a b k klow) (or_flag a j k)
    | inr khigh ↦
        rw (bit_at_upper _ b k khigh hk, bit_at_upper a b k khigh hk)
          (or_no_flag _ k j (omega arith))
  ])
  | inr high ↦ rw (flagged_high a b j high hj) (elim (lt-cases k 32) [
    | inl klow ↦ rw (bit_at_low a _ k klow, bit_at_low a b k klow) (or_no_flag _ k j (omega arith))
    | inr khigh ↦
        rw (bit_at_upper a _ k khigh hk, bit_at_upper a b k khigh hk, ← ==-sub k j khigh high)
          (or_flag b (j - 32) (k - 32))
  ])
]

pub flagged-IsPair : (a b j : ℕ) → j < 64 → IsWord a → IsWord b → IsPair (flagged a b j)
flagged-IsPair a b j hj ha hb = elim (lt-cases j 32) [
  | inl low ↦ record {
    a = bit_or a (2 ^ j);
    b = b;
    shape = flagged_low a b j low;
    word_a = or-lt 32 a (2 ^ j) ha (pow-lt j low);
    word_b = hb;
  }
  | inr high ↦ record {
    a = a;
    b = bit_or b (2 ^ (j - 32));
    shape = flagged_high a b j high hj;
    word_a = ha;
    word_b = or-lt 32 b (2 ^ (j - 32)) hb (pow-lt (j - 32) (omega arith));
  }
]
