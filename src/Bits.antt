-- ===== src/Bits.antt =====
-- Bits of natural numbers: how `|`, `&`, `<<` and `>>>` act on them, at every width.
mod Step
use Step.{or_step, and_step}
use Prim.Native.Nat.{bit_and, bit_or}
use native.Mathlib.Nat.{
  pow-suc, pow-succ', one-le-pow, div-div-eq-div-mul, div-add-mod', div-one, mul-one, add-zero,
}
use node_dtls_client.Prelude.{
  ℕ, zero, suc, ◌+◌, ◌-◌, ◌*◌, ◌/◌, ◌%◌, ◌^◌, ◌≤◌, ◌<◌, ◌≡◌, refl, ap, ◌∙◌, sym, Bool, true, false,
  ◌&&◌, ◌||◌, arith, ltb, ◌==◌, if◌then◌else◌,
}

-- Bit `k` of `x`.
pub test_bit : ℕ → ℕ → Bool
test_bit x zero = x % 2 == 1
test_bit x (suc k) = test_bit (x / 2) k

pub test_bit-zero : (k : ℕ) → test_bit 0 k ≡ false
unfolding test_bit
test_bit-zero zero = refl
test_bit-zero (suc k) = test_bit-zero k

pub test_bit-or : (k a b : ℕ) → test_bit (bit_or a b) k ≡ (test_bit a k || test_bit b k)
unfolding test_bit
test_bit-or zero a b = ground (arith, or_step a b)
test_bit-or (suc k) a b =
    let half : bit_or a b / 2 ≡ bit_or (a / 2) (b / 2) = ground (arith, or_step a b) in
    rw half (test_bit-or k (a / 2) (b / 2))

twice_pow : (x n : ℕ) → x * 2 ^ suc n ≡ 2 * (x * 2 ^ n)
twice_pow x n = omega (arith, ap (λ (t : ℕ). x * t) (pow-suc 2 n))

half-twice : (x : ℕ) → 2 * x / 2 ≡ x
half-twice x = omega arith

mod-twice : (x p : ℕ) → x % (2 * p) / 2 ≡ x / 2 % p
mod-twice x p = omega (
  arith,
  ap (λ (q : ℕ). q * p) (div-div-eq-div-mul x 2 p),
  div-add-mod' x (2 * p),
  div-add-mod' (x / 2) p,
)

mod-twice_parity : (x p : ℕ) → x % (2 * p) % 2 ≡ x % 2
mod-twice_parity x p = omega (arith, div-add-mod' x (2 * p))

pub test_bit-shr : (n x k : ℕ) → test_bit (x / 2 ^ n) k ≡ test_bit x (k + n)
unfolding test_bit
test_bit-shr zero x k = rw (div-one x, add-zero k)
test_bit-shr (suc n) x k =
    let e : k + suc n ≡ suc (k + n) = omega arith in
    rw (pow-succ' 2 n, ← div-div-eq-div-mul x 2 (2 ^ n), e) (test_bit-shr n (x / 2) k)

pub test_bit-shl_low : (n x k : ℕ) → k < n → test_bit (x * 2 ^ n) k ≡ false
unfolding test_bit
test_bit-shl_low zero x k h = absurd (omega arith)
test_bit-shl_low (suc n) x zero h = rw (twice_pow x n) (ground arith)
test_bit-shl_low (suc n) x (suc k) h =
    rw (twice_pow x n, half-twice) (test_bit-shl_low n x k (omega arith))

pub test_bit-shl_high : (n x k : ℕ) → test_bit (x * 2 ^ n) (k + n) ≡ test_bit x k
unfolding test_bit
test_bit-shl_high zero x k = rw (mul-one x, add-zero k)
test_bit-shl_high (suc n) x k =
    let e : k + suc n ≡ suc (k + n) = omega arith in
    rw (e, twice_pow x n)
      (ap (λ (y : ℕ). test_bit y (k + n)) (half-twice (x * 2 ^ n)) ∙ test_bit-shl_high n x k)

-- A number below 2 ^ n has no bit from `n` on.
pub test_bit_of_lt : (n x k : ℕ) → x < 2 ^ n → n ≤ k → test_bit x k ≡ false
unfolding test_bit
test_bit_of_lt zero x k h p = let e : x ≡ 0 = omega arith in rw e (test_bit-zero k)
test_bit_of_lt (suc n) x zero h p = absurd (omega arith)
test_bit_of_lt (suc n) x (suc k) h p =
    test_bit_of_lt n (x / 2) k (omega (arith, pow-suc 2 n)) (omega arith)

pub test_bit-mod : (n x k : ℕ) → k < n → test_bit (x % 2 ^ n) k ≡ test_bit x k
unfolding test_bit
test_bit-mod zero x k h = absurd (omega arith)
test_bit-mod (suc n) x zero h = rw (pow-succ' 2 n, mod-twice_parity x (2 ^ n))
test_bit-mod (suc n) x (suc k) h =
    rw (pow-succ' 2 n, mod-twice x (2 ^ n)) (test_bit-mod n (x / 2) k (omega arith))

and-zero : (n x : ℕ) → x ≤ n → bit_and x 0 ≡ 0
and-zero zero x h = let e : x ≡ 0 = omega arith in rw e
and-zero (suc n) x h = omega (arith, and_step x 0, and-zero n (x / 2) (omega arith))

and-one : (x : ℕ) → bit_and x 1 ≡ x % 2
and-one x = omega (arith, and_step x 1, and-zero (x / 2) (x / 2) (omega arith))

and-twice : (x p : ℕ) → bit_and x (2 * p) ≡ 2 * bit_and (x / 2) p
and-twice x p =
    let e : 2 * p / 2 ≡ p = half-twice p in
    let h : bit_and (x / 2) (2 * p / 2) ≡ bit_and (x / 2) p = ap (bit_and (x / 2)) e in
    omega (arith, and_step x (2 * p))

twice_== : (a b : ℕ) → (2 * a == 2 * b) ≡ (a == b)
twice_== a b = ground arith

suc-== : (a b : ℕ) → (suc a == suc b) ≡ (a == b)
suc-== a b = ground arith

-- `(x & flag) === flag`, for the flag of one bit, tests that bit.
pub test_flag : (k x : ℕ) → (bit_and x (2 ^ k) == 2 ^ k) ≡ test_bit x k
unfolding test_bit
test_flag zero x = ground (arith, and-one x)
test_flag (suc k) x =
    rw (pow-succ' 2 k, and-twice x (2 ^ k), twice_== (bit_and (x / 2) (2 ^ k)) (2 ^ k))
      (test_flag k (x / 2))

pub test_bit-pow : (k j : ℕ) → test_bit (2 ^ k) j ≡ (j == k)
unfolding test_bit
test_bit-pow zero zero = refl
test_bit-pow zero (suc j) = rw (test_bit-zero j) (ground arith)
test_bit-pow (suc k) zero = rw (pow-succ' 2 k) (ground arith)
test_bit-pow (suc k) (suc j) = rw (pow-succ' 2 k, half-twice, suc-==) (test_bit-pow k j)

pub or-lt : (n x y : ℕ) → x < 2 ^ n → y < 2 ^ n → bit_or x y < 2 ^ n
or-lt zero x y p q =
    let e : x ≡ 0 = omega arith in let f : y ≡ 0 = omega arith in rw (e, f) (omega arith)
or-lt (suc n) x y p q = omega (
  arith,
  or_step x y,
  pow-suc 2 n,
  or-lt n (x / 2) (y / 2) (omega (arith, pow-suc 2 n)) (omega (arith, pow-suc 2 n)),
)
