-- ===== src/Convert.antt =====
-- src/lib/BitConverter.ts and src/lib/util.ts. A Buffer is the list of its bytes. A number of the
-- program is `some n`, or `none` for NaN, which reading past the end of a buffer gives (the
-- bitwise operators take NaN, null and undefined for 0). A negative number is its 32-bit pattern,
-- which is all that `&` and `>>>` read of it. Sums are exact: no spec uses "uint64", so they stay
-- below 2 ^ 48.
pub mod RoundTrip
mod Tests
use node_dtls_client.Prelude.{
  ℕ, zero, suc, ◌+◌, ◌*◌, ◌/◌, ◌%◌, ◌^◌, List, [], ◌∷◌, Option, none, some, get_elem?, ◌==◌,
  if◌then◌else◌,
}

abbrev pub Buffer : Type 0
Buffer = List ℕ

abbrev pub Number : Type 0
Number = Option ℕ

abbrev pub to_pattern : Number → ℕ
to_pattern none = 0
to_pattern (some n) = n

-- `value >>>= 8`
abbrev pub shr8 : ℕ → ℕ
shr8 value = value % 2 ^ 32 / 256

-- The loop of `numberToBuffer` fills the bytes from the last one down.
unfoldable pub fill_bytes : ℕ → ℕ → Buffer → Buffer
fill_bytes zero value ret = ret
fill_bytes (suc i) value ret = fill_bytes i (shr8 value) (value % 256 ∷ ret)

-- `size` is a number of bits.
unfoldable pub number_to_buffer : Number → ℕ → Buffer
unfolding fill_bytes
number_to_buffer value size = fill_bytes (size / 8) (to_pattern value) []

-- `ret * 256 + byte`, where a byte past the end is undefined.
abbrev pub add_byte : Number → Option ℕ → Number
add_byte none byte = none
add_byte (some r) none = none
add_byte (some r) (some byte) = some (r * 256 + byte)

-- The loop of `bufferToNumber`, with `n` bytes to read from the index `i`.
unfoldable pub read_bytes : Buffer → ℕ → ℕ → Number → Number
read_bytes buf zero i ret = ret
read_bytes buf (suc n) i ret = read_bytes buf n (i + 1) (add_byte ret (get_elem? buf i))

unfoldable pub buffer_to_number : Buffer → ℕ → ℕ → Number
unfolding read_bytes
buffer_to_number buf size offset = read_bytes buf (size / 8) offset (some 0)

-- `while (value !== 0)`, with fuel: the bytes counted, and the value that is left.
unfoldable pub count_bytes : ℕ → ℕ → ℕ → ℕ × ℕ
count_bytes zero value ret = (ret, value)
count_bytes (suc f) value ret =
    let rest = count_bytes f (shr8 value) (ret + 1) in if value == 0 then (ret, value) else rest

-- The first shift leaves 24 bits at most, so four rounds do.
unfoldable pub fit_to_whole_bytes : ℕ → ℕ
unfolding count_bytes
fit_to_whole_bytes value = let (ret, _) = count_bytes 4 value 0 in if ret == 0 then ret + 1 else ret
