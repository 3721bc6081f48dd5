-- ===== src/Fragment.antt =====
-- `FragmentedHandshake` of src/DTLS/Handshake.ts. Its fields are numbers when it comes off the wire,
-- since its last field is read only after they were.
pub mod Sort
pub mod Copy
pub mod Reassemble
pub mod Split
pub mod Wire
pub mod Body
pub mod Trip
mod Tests
use node_dtls_client.Prelude.{
  ℕ, zero, suc, ◌+◌, ◌-◌, ◌≤◌, ◌<◌, List, [], ◌∷◌, ◌++◌, Bool, true, false, not, ◌&&◌, ◌||◌, Option,
  none, some, map, min, ltb, leb, ◌==◌, if◌then◌else◌, length, take, drop,
}
use node_dtls_client.Errors.{
  Result, ok, err, ◌>>=◌, multiple_messages, empty_array, zero_bytes_processed, out_of_fuel,
}
use node_dtls_client.Convert.{Buffer}
use node_dtls_client.Codec.{Memory}

pub record FragmentedHandshake : Type 0 where
  pub msg_type : ℕ
  pub total_length : ℕ
  pub message_seq : ℕ
  pub fragment_offset : ℕ
  pub fragment : Buffer

abbrev pub header_length : ℕ
header_length = 1 + 3 + 2 + 3 + 3

-- `RecordLayer.MAX_PAYLOAD_SIZE`, at the MTU that it starts with.
abbrev pub max_payload_size : ℕ
max_payload_size = 1280 - (20 + 8)

unfoldable pub is_fragmented : FragmentedHandshake → Bool
is_fragmented f = not (f.fragment_offset == 0) || ltb (length f.fragment) f.total_length

-- The test by which both `enforceSingleMessage` and `findAllFragments` compare fragments.
unfoldable pub same_message : FragmentedHandshake → FragmentedHandshake → Bool
same_message f g =
    f.msg_type == g.msg_type && f.message_seq == g.message_seq && f.total_length == g.total_length

abbrev pub every {ℓ} : {A : Type ℓ} → (A → Bool) → List A → Bool
every p [] = true
every p (x ∷ xs) = p x && every p xs

abbrev pub keep {ℓ} : {A : Type ℓ} → (A → Bool) → List A → List A
keep p [] = []
keep p (x ∷ xs) = if p x then x ∷ keep p xs else keep p xs

-- `enforceSingleMessage`: whether it passes.
unfoldable pub single_message : List FragmentedHandshake → Bool
single_message [] = true
single_message (f ∷ fs) = every (λ g. same_message g f) fs

unfoldable pub find_all_fragments :
    List FragmentedHandshake → FragmentedHandshake → List FragmentedHandshake
find_all_fragments fragments reference = keep (λ f. same_message f reference) fragments

-- `Array.prototype.sort` by the difference of a key; it is stable.
module _ {A : Type 0} (key : A → ℕ) where
  unfoldable pub insert_by : A → List A → List A
  insert_by x [] = x ∷ []
  insert_by x (y ∷ ys) = if leb (key x) (key y) then x ∷ y ∷ ys else y ∷ insert_by x ys

  unfoldable pub sort_by : List A → List A
  sort_by [] = []
  sort_by (x ∷ xs) = insert_by x (sort_by xs)

-- A range of the message, with the index after its last byte: `end + 1` of the source, which is -1
-- for an empty fragment at 0.
pub record Range : Type 0 where
  pub start : ℕ
  pub after : ℕ

abbrev pub range : FragmentedHandshake → Range
range f = record { start = f.fragment_offset; after = f.fragment_offset + length f.fragment }

abbrev pub is_last {ℓ} : {A : Type ℓ} → List A → Bool
is_last [] = true
is_last (x ∷ xs) = false

-- The test of `every`, from a range to the end: the first range starts at 0, which is as far as
-- nothing reaches; a later one touches or overlaps the one before; the last ends at the total.
unfoldable pub no_holes : ℕ → ℕ → List Range → Bool
no_holes total reached [] = true
no_holes total reached (r ∷ rs) =
    leb r.start reached && ((not (is_last rs) || r.after == total) && no_holes total r.after rs)

unfoldable pub is_complete : List FragmentedHandshake → Result Bool
is_complete [] = ok false
is_complete (f ∷ fs) =
    if single_message (f ∷ fs)
    then ok (no_holes f.total_length 0 (sort_by (λ r. r.start) (map range (f ∷ fs))))
    else err multiple_messages

-- `while (!fragments.length && start < totalLength)`, with fuel.
unfoldable pub split_loop :
    FragmentedHandshake → ℕ → ℕ → List FragmentedHandshake → ℕ → Result (List FragmentedHandshake)
split_loop m max_length zero fragments start = err out_of_fuel
split_loop m max_length (suc f) fragments start =
    let total = length m.fragment in
    let piece = take (min max_length (total - start)) (drop start m.fragment) in
    let pushed =
      fragments
      ++ record {
        msg_type = m.msg_type;
        total_length = total;
        message_seq = m.message_seq;
        fragment_offset = start;
        fragment = piece;
      }
        ∷ [] in
    let round =
      if length piece == 0
      then err zero_bytes_processed
      else split_loop m max_length f pushed (start + length piece) in
    if is_last fragments && ltb start total then round else ok fragments

-- One round fills `fragments`, so the test fails by the second.
unfoldable pub split : FragmentedHandshake → Option ℕ → Result (List FragmentedHandshake)
unfolding split_loop
split m none = split_loop m (max_payload_size - header_length) 2 [] 0
split m (some max_length) = split_loop m max_length 2 [] 0

-- `Buffer.allocUnsafe(n)`
unfoldable pub alloc_unsafe : Memory → ℕ → ℕ → Buffer
alloc_unsafe memory zero i = []
alloc_unsafe memory (suc n) i = memory 0 i ∷ alloc_unsafe memory n (i + 1)

-- `source.copy(target, offset)`: what lies past the end of the target is dropped.
unfoldable pub copy_into : Buffer → ℕ → Buffer → Buffer
copy_into [] offset source = []
copy_into (t ∷ ts) (suc offset) source = t ∷ copy_into ts offset source
copy_into (t ∷ ts) zero [] = t ∷ ts
copy_into (t ∷ ts) zero (s ∷ ss) = s ∷ copy_into ts zero ss

unfoldable pub combine : Buffer → List FragmentedHandshake → Buffer
combine target [] = target
combine target (f ∷ fs) = combine (copy_into target f.fragment_offset f.fragment) fs

unfoldable pub reassemble_sorted : Memory → List FragmentedHandshake → Result FragmentedHandshake
reassemble_sorted memory [] = err empty_array
reassemble_sorted memory (f ∷ fs) = ok (record {
  msg_type = f.msg_type;
  total_length = f.total_length;
  message_seq = f.message_seq;
  fragment_offset = 0;
  fragment = combine (alloc_unsafe memory f.total_length 0) (f ∷ fs);
})

unfoldable pub reassemble : Memory → List FragmentedHandshake → Result FragmentedHandshake
unfolding reassemble_sorted
reassemble memory messages = reassemble_sorted memory (sort_by (λ f. f.fragment_offset) messages)
