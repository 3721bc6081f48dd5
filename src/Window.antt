-- ===== src/Window.antt =====
-- src/TLS/AntiReplayWindow.ts. The window is its array of 32-bit words, each kept as its bit
-- pattern below 2 ^ 32: every access goes through `&`, `|`, `<<` or `>>>`, which read a pattern.
-- Sequence numbers are the 48-bit numbers of the record header, so they are not negative.
-- An index below 0 is no element of a JavaScript array but a property beside it: `stray k` is the
-- property `-(k + 1)`, which `|=` creates and `reset` drops.
pub mod Shift
pub mod Flag
pub mod Mark
pub mod Replay
pub mod Fresh
mod Tests
pub mod Advance
use Prim.Native.Nat.{bit_and, bit_or}
use node_dtls_client.Prelude.{
  ℕ, zero, suc, ◌+◌, ◌-◌, ◌*◌, ◌/◌, ◌%◌, ◌^◌, Bool, true, false, not, ◌&&◌, List, [], ◌∷◌, ltb, leb,
  ◌==◌, if◌then◌else◌, get_or, set, replicate, length,
}

-- Bits, or entries; a multiple of `int_size`.
abbrev pub width : ℕ
width = 64

abbrev pub int_size : ℕ
int_size = 32

pub record AntiReplayWindow : Type 0 where
  pub window : List ℕ
  pub stray : ℕ → ℕ
  pub ceiling : ℕ

unfoldable pub reset : AntiReplayWindow
reset = record { window = replicate (width / int_size) 0; stray = λ k. 0; ceiling = width - 1 }

-- Where a bit stands: `windowIndex` and `windowBit`.
pub data Slot : Type 0 where
  inside : ℕ → ℕ → Slot
  below : ℕ → ℕ → Slot

-- The slot of a `bitIndex` that is not negative.
abbrev pub inside_at : ℕ → Slot
inside_at bit_index = inside (bit_index / int_size) (bit_index % int_size)

-- Where `bitIndex` is -(m + 1), the index of the word is -(m / 32 + 1), and `1 <<` takes the
-- remainder, which is not positive, modulo 32.
abbrev pub below_at : ℕ → Slot
below_at m = below (m / int_size) ((int_size - (m + 1) % int_size) % int_size)

-- `bitIndex` is `seq_num - (ceiling - width + 1)`.
unfoldable pub locate : ℕ → ℕ → Slot
locate ceiling seq_num =
    if leb ceiling (seq_num + (width - 1))
    then inside_at (seq_num + (width - 1) - ceiling)
    else below_at (ceiling - (seq_num + (width - 1)) - 1)

-- A word that is absent reads as undefined, which `&` takes for 0.
unfoldable pub flag_is_set : AntiReplayWindow → Slot → Bool
flag_is_set w (inside i b) = bit_and (get_or w.window i 0) (2 ^ b) == 2 ^ b
flag_is_set w (below k b) = bit_and (w.stray k) (2 ^ b) == 2 ^ b

unfoldable pub set_flag : AntiReplayWindow → Slot → AntiReplayWindow
set_flag w (inside i b) = record w {
  window = set w.window i (bit_or (get_or w.window i 0) (2 ^ b));
}
set_flag w (below k b) = record w {
  stray = λ j. if j == k then bit_or (w.stray k) (2 ^ b) else w.stray j;
}

unfoldable pub has_received : AntiReplayWindow → ℕ → Bool
has_received w seq_num = flag_is_set w (locate w.ceiling seq_num)

unfoldable pub may_receive : AntiReplayWindow → ℕ → Bool
may_receive w seq_num =
    if ltb (w.ceiling + width) seq_num
    then false
    else if ltb w.ceiling seq_num
    then true
    else if leb (w.ceiling + 1) (seq_num + width) && leb seq_num w.ceiling
    then not (has_received w seq_num)
    else false

-- `window[i - 1] = window[i]` for each `i` from 1, then 0 into the last.
unfoldable pub shift_block : List ℕ → List ℕ
shift_block [] = []
shift_block (x ∷ []) = 0 ∷ []
shift_block (x ∷ y ∷ ys) = y ∷ shift_block (y ∷ ys)

-- `while (amount > INT_SIZE)`, with fuel.
unfoldable pub shift_blocks : ℕ → ℕ → List ℕ → ℕ × List ℕ
shift_blocks zero amount ws = (amount, ws)
shift_blocks (suc f) amount ws =
    let rest = shift_blocks f (amount - int_size) (shift_block ws) in
    if ltb int_size amount then rest else (amount, ws)

-- `x << n` and `x >>> n` on 32-bit patterns: the count is taken modulo 32.
abbrev pub shl32 : ℕ → ℕ → ℕ
shl32 x n = x * 2 ^ (n % int_size) % 2 ^ 32

abbrev pub shr32 : ℕ → ℕ → ℕ
shr32 x n = x / 2 ^ (n % int_size)

-- Each word is shifted down, and takes in at its top the low bits of the word after it.
unfoldable pub shift_bits : ℕ → List ℕ → List ℕ
shift_bits amount [] = []
shift_bits amount (x ∷ []) = shr32 x amount ∷ []
shift_bits amount (x ∷ y ∷ ys) =
    bit_or (shr32 x amount) (shl32 y (int_size - amount)) ∷ shift_bits amount (y ∷ ys)

-- The shift of the window up to a new ceiling. Each round takes 32 off, so `amount` is fuel enough.
unfoldable pub advance : AntiReplayWindow → ℕ → AntiReplayWindow
advance w seq_num =
    let amount = seq_num - w.ceiling in
    let (left, ws) = shift_blocks amount amount w.window in
    record w { window = shift_bits left ws; ceiling = seq_num }

unfoldable pub mark_as_received : AntiReplayWindow → ℕ → AntiReplayWindow
unfolding advance
mark_as_received w seq_num =
    let w' = if ltb w.ceiling seq_num then advance w seq_num else w in
    set_flag w' (locate w'.ceiling seq_num)
