-- ===== src/Window/Shift.antt =====
-- What the shift in `markAsReceived` does to the bits of the window.
use Prim.Native.Nat.{bit_or}
use native.Mathlib.Nat.{div-one, mul-one}
use node_dtls_client.Prelude.{
  ℕ, zero, suc, ◌+◌, ◌-◌, ◌*◌, ◌/◌, ◌%◌, ◌^◌, ◌≤◌, ◌<◌, ◌≡◌, ◌∙◌, refl, ap, Bool, true, false, ◌||◌,
  List, [], ◌∷◌, inl, inr, arith, get_or, lt-cases, lt→ltb, le→ltb,
}
use node_dtls_client.Bits.{
  test_bit, test_bit-zero, test_bit-or, test_bit-shr, test_bit-shl_low, test_bit-shl_high,
  test_bit_of_lt, test_bit-mod,
}
use node_dtls_client.Window.{shift_block, shift_blocks, shift_bits, shl32, shr32}

-- Bit `k` of a window, counted from its lower end.
unfoldable pub bit_at : List ℕ → ℕ → Bool
bit_at ws k = test_bit (get_or ws (k / 32) 0) (k % 32)

or-false : (x : Bool) → (x || false) ≡ x
or-false true = refl
or-false false = refl

abbrev pub IsWord : ℕ → Type 0
IsWord x = x < 2 ^ 32

pub bit_at_low : (a b k : ℕ) → k < 32 → bit_at (a ∷ b ∷ []) k ≡ test_bit a k
unfolding bit_at
bit_at_low a b k h =
    let e : k / 32 ≡ 0 = omega arith in let f : k % 32 ≡ k = omega arith in rw (e, f)

pub bit_at_high : (a b k : ℕ) → k < 32 → bit_at (a ∷ b ∷ []) (k + 32) ≡ test_bit b k
unfolding bit_at
bit_at_high a b k h =
    let e : (k + 32) / 32 ≡ 1 = omega arith in let f : (k + 32) % 32 ≡ k = omega arith in rw (e, f)

pub bit_at_upper : (a b k : ℕ) → 32 ≤ k → k < 64 → bit_at (a ∷ b ∷ []) k ≡ test_bit b (k - 32)
bit_at_upper a b k h l =
    let e : k ≡ (k - 32) + 32 = omega arith in
    ap (bit_at (a ∷ b ∷ [])) e ∙ bit_at_high a b (k - 32) (omega arith)

pub bit_at_out : (a b k : ℕ) → bit_at (a ∷ b ∷ []) (k + 64) ≡ false
unfolding bit_at
bit_at_out a b k =
    let e : (k + 64) / 32 ≡ suc (suc (k / 32)) = omega arith in rw e (test_bit-zero _)

-- A word shifted down by 1 to 31 places takes in the low bits of the next one.
carried :
    (n a b k : ℕ)
    → 0 < n
    → n < 32
    → k < 32
    → IsWord a
    → test_bit (bit_or (shr32 a n) (shl32 b (32 - n))) k ≡ bit_at (a ∷ b ∷ []) (k + n)
carried n a b k pos hn hk ha =
    let e : n % 32 ≡ n = omega arith in
    let f : (32 - n) % 32 ≡ 32 - n = omega arith in
    rw
      (
        test_bit-or k (shr32 a n) (shl32 b (32 - n)),
        e,
        f,
        test_bit-mod 32 (b * 2 ^ (32 - n)) k hk,
        test_bit-shr n a k,
      )
      (elim (lt-cases (k + n) 32) [
        | inl low ↦
            rw (bit_at_low a b (k + n) low, test_bit-shl_low (32 - n) b k (omega arith))
              (or-false _)
        | inr high ↦ carried_high (k + n - 32) (omega arith) high
      ])
  where
    carried_high :
        (j : ℕ)
        → k + n ≡ j + 32
        → 32 ≤ k + n
        → (test_bit a (k + n) || test_bit (b * 2 ^ (32 - n)) k) ≡ bit_at (a ∷ b ∷ []) (k + n)
    carried_high j e p =
        let g : k ≡ j + (32 - n) = omega arith in
        rw (test_bit_of_lt 32 a (k + n) ha p, e, bit_at_high a b j (omega arith))
          (ap (λ (i : ℕ). test_bit (b * 2 ^ (32 - n)) i) g ∙ test_bit-shl_high (32 - n) b j)

-- The last word takes in zeros.
last_word :
    (n a b k : ℕ)
    → n < 32
    → k < 32
    → IsWord b
    → test_bit (shr32 b n) k ≡ bit_at (a ∷ b ∷ []) (k + 32 + n)
last_word n a b k hn hk hb =
    let e : n % 32 ≡ n = omega arith in
    rw (e, test_bit-shr n b k)
      (elim (lt-cases (k + n) 32) [
        | inl low ↦
            let f : k + 32 + n ≡ (k + n) + 32 = omega arith in rw (f, bit_at_high a b (k + n) low)
        | inr high ↦
            let f : k + 32 + n ≡ (k + n - 32) + 64 = omega arith in
            rw (f, bit_at_out a b (k + n - 32), test_bit_of_lt 32 b (k + n) hb high)
      ])

-- A shift by 1 to 31 places moves each of the 64 bits down by as many.
pub bit_at-shift_bits :
    (n a b k : ℕ)
    → 0 < n
    → n < 32
    → k < 64
    → IsWord a
    → IsWord b
    → bit_at (shift_bits n (a ∷ b ∷ [])) k ≡ bit_at (a ∷ b ∷ []) (k + n)
unfolding shift_bits
bit_at-shift_bits n a b k pos hn hk ha hb = elim (lt-cases k 32) [
  | inl low ↦ rw (bit_at_low _ _ k low) (carried n a b k pos hn low ha)
  | inr high ↦
      let e : k ≡ (k - 32) + 32 = omega arith in
      rw e
        (rw (bit_at_high _ _ (k - 32) (omega arith)) (last_word n a b (k - 32) hn (omega arith) hb))
]

-- A shift by 32 leaves each bit where it was beside the one that moves there, since JavaScript
-- takes the count 32 for 0.
pub bit_at-shift_bits_whole :
    (a b k : ℕ)
    → k < 64
    → IsWord a
    → IsWord b
    → bit_at (shift_bits 32 (a ∷ b ∷ [])) k
      ≡ (bit_at (a ∷ b ∷ []) k || bit_at (a ∷ b ∷ []) (k + 32))
unfolding shift_bits
bit_at-shift_bits_whole a b k hk ha hb = elim (lt-cases k 32) [
  | inl low ↦ rw (
    bit_at_low _ _ k low,
    test_bit-or k (shr32 a 32) (shl32 b 0),
    div-one a,
    mul-one b,
    test_bit-mod 32 b k low,
    bit_at_low a b k low,
    bit_at_high a b k low,
  )
  | inr high ↦
      let e : k ≡ (k - 32) + 32 = omega arith in
      let f : k + 32 ≡ (k - 32) + 64 = omega arith in
      let low : k - 32 < 32 = omega arith in
      rw (f, bit_at_out a b (k - 32), or-false)
        (rw e (rw (bit_at_high _ _ (k - 32) low, bit_at_high a b (k - 32) low, div-one b)))
]

-- A whole block moves each bit down by 32.
pub bit_at-shift_block :
    (a b k : ℕ) → bit_at (shift_block (a ∷ b ∷ [])) k ≡ bit_at (a ∷ b ∷ []) (k + 32)
unfolding shift_block
bit_at-shift_block a b k = elim (lt-cases k 32) [
  | inl low ↦ rw (bit_at_low _ _ k low, bit_at_high a b k low)
  | inr high ↦
      let e : k ≡ (k - 32) + 32 = omega arith in
      let f : k + 32 ≡ (k - 32) + 64 = omega arith in
      rw (f, bit_at_out a b (k - 32))
        (elim (lt-cases (k - 32) 32) [
          | inl low ↦ rw e (rw (bit_at_high _ _ (k - 32) low, test_bit-zero))
          | inr higher ↦ let g : k ≡ (k - 64) + 64 = omega arith in rw g (bit_at_out b 0 (k - 64))
        ])
]

-- `ws'` is `ws` after whole blocks went, and `left` of `amount` places are to go.
pub record IsShifted (amount left : ℕ) (ws ws' : List ℕ) : Type 0 where
  pub a : ℕ
  pub b : ℕ
  pub shape : ws' ≡ a ∷ b ∷ []
  pub word_a : IsWord a
  pub word_b : IsWord b
  pub left_pos : 0 < left
  pub left_le : left ≤ 32
  pub left_le_amount : left ≤ amount
  pub same : amount % 32 ≡ left % 32
  pub moved : (k : ℕ) → bit_at ws' k ≡ bit_at ws (k + (amount - left))

IsShifted-block :
    (a b : ℕ) {amount left : ℕ} {ws : List ℕ}
    → 32 < amount
    → IsShifted (amount - 32) left (b ∷ 0 ∷ []) ws
    → IsShifted amount left (a ∷ b ∷ []) ws
unfolding shift_block
IsShifted-block a b {amount} {left} more s = record {
  a = s.a;
  b = s.b;
  shape = s.shape;
  word_a = s.word_a;
  word_b = s.word_b;
  left_pos = s.left_pos;
  left_le = s.left_le;
  left_le_amount = omega arith;
  same = omega arith;
  moved = λ k.
      s.moved k
      ∙ bit_at-shift_block a b (k + (amount - 32 - left))
      ∙ ap (bit_at (a ∷ b ∷ [])) (omega arith);
}

-- With fuel of at least `amount` the loop of `shift_blocks` ends by its test.
pub shift_blocks-IsShifted :
    (fuel amount a b : ℕ)
    → 0 < amount
    → amount ≤ fuel
    → IsWord a
    → IsWord b
    → IsShifted amount
        (shift_blocks fuel amount (a ∷ b ∷ [])).0
        (a ∷ b ∷ [])
        (shift_blocks fuel amount (a ∷ b ∷ [])).1
unfolding shift_blocks shift_block
shift_blocks-IsShifted zero amount a b pos enough ha hb = absurd (omega arith)
shift_blocks-IsShifted (suc f) amount a b pos enough ha hb = elim (lt-cases 32 amount) [
  | inl more ↦ rw (lt→ltb 32 amount more) (
      IsShifted-block a b more
        (shift_blocks-IsShifted f (amount - 32) b 0 (omega arith) (omega arith) hb (omega arith)))
  | inr done ↦ rw (le→ltb amount 32 done) (record {
    a = a;
    b = b;
    shape = refl;
    word_a = ha;
    word_b = hb;
    left_pos = pos;
    left_le = done;
    left_le_amount = omega arith;
    same = refl;
    moved = λ k. ap (bit_at (a ∷ b ∷ [])) (omega arith);
  })
]
