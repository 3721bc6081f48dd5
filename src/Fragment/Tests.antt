-- ===== src/Fragment/Tests.antt =====
-- Runs of the fragmentation of handshake messages.
use node_dtls_client.Prelude.{
  none, ℕ, zero, suc, get_elem?, ◌+◌, ◌<◌, ◌≡◌, ◌++◌, refl, List, [], ◌∷◌, Bool, false, some,
  length, arith,
}
use node_dtls_client.Errors.{◌>>=◌, ok, err, multiple_messages}
use node_dtls_client.Convert.{Buffer}
use node_dtls_client.Fragment.Trip.{message_trip}
use node_dtls_client.Messages.{finished, handshake_message}
use node_dtls_client.Codec.Fits.{Fits}
use node_dtls_client.Fragment.Body.{
  Handshake, to_fragment, from_fragment, from_fragment-to_fragment,
}
use node_dtls_client.Codec.{serialize, object, cons, nil, bytes, Memory}
use node_dtls_client.Fragment.{
  FragmentedHandshake, is_complete, no_holes, single_message, same_message, sort_by, insert_by,
  find_all_fragments, reassemble, split, split_loop,
}
use node_dtls_client.Fragment.Reassemble.{reassemble-is_complete, is_complete-find_all_fragments}
use node_dtls_client.Fragment.Split.{first_piece, split_whole, split_truncated}
use node_dtls_client.Fragment.Wire.{
  serialize_fragment, parse_fragment, parse_fragment-serialize_fragment,
}

abbrev old_memory : Memory
old_memory start pos = 170

abbrev piece : ℕ → ℕ → Buffer → FragmentedHandshake
piece total offset body = record {
  msg_type = 1;
  total_length = total;
  message_seq = 4;
  fragment_offset = offset;
  fragment = body;
}

abbrev whole : FragmentedHandshake
whole = piece 5 0 (10 ∷ 11 ∷ 12 ∷ 13 ∷ 14 ∷ [])

-- Out of order, and overlapping at index 2.
abbrev pieces : List FragmentedHandshake
pieces = piece 5 2 (12 ∷ 13 ∷ 14 ∷ []) ∷ piece 5 0 (10 ∷ 11 ∷ 12 ∷ []) ∷ []

-- A byte is missing.
hole : is_complete (piece 5 3 (13 ∷ 14 ∷ []) ∷ piece 5 0 (10 ∷ 11 ∷ []) ∷ []) ≡ ok false
unfolding is_complete no_holes single_message same_message sort_by insert_by
hole = refl

mixed : is_complete (whole ∷ record whole { message_seq = 5 } ∷ []) ≡ err multiple_messages
unfolding is_complete single_message same_message
mixed = refl

-- The body of an empty message is no fragment at all.
empty_body : split (piece 0 0 []) (some 100) ≡ ok []
unfolding split split_loop
empty_body = refl

slice_back : (j : ℕ) → j < 3 → get_elem? (12 ∷ 13 ∷ 14 ∷ []) j ≡ get_elem? whole.fragment (2 + j)
slice_back zero l = refl
slice_back (suc zero) l = refl
slice_back (suc (suc zero)) l = refl
slice_back (suc (suc (suc j))) l = absurd (omega arith)

slice_front : (j : ℕ) → j < 3 → get_elem? (10 ∷ 11 ∷ 12 ∷ []) j ≡ get_elem? whole.fragment (0 + j)
slice_front zero l = refl
slice_front (suc zero) l = refl
slice_front (suc (suc zero)) l = refl
slice_front (suc (suc (suc j))) l = absurd (omega arith)

reassemble-is_complete_example : reassemble old_memory pieces ≡ ok whole
reassemble-is_complete_example =
    reassemble-is_complete old_memory whole pieces (refl, refl)
      (
        (refl, refl, refl, (omega arith, slice_back)),
        ((refl, refl, refl, (omega arith, slice_front)), tt),
      )
      (unfold is_complete no_holes single_message same_message sort_by insert_by in refl)

is_complete-find_all_fragments_example :
    (b : Bool) × (is_complete
        (find_all_fragments (whole ∷ record whole { message_seq = 5 } ∷ pieces) whole)
      ≡ ok b)
is_complete-find_all_fragments_example =
    is_complete-find_all_fragments (whole ∷ record whole { message_seq = 5 } ∷ pieces) whole

split_whole_example : split whole (some 100) ≡ ok (whole ∷ [])
split_whole_example = split_whole whole 100 (refl, refl) (omega arith) (omega arith)

split_truncated_example :
    (split whole (some 3) ≡ ok (first_piece whole 3 ∷ []))
    × (length (first_piece whole 3).fragment ≡ 3)
    × (is_complete (first_piece whole 3 ∷ []) ≡ ok false)
split_truncated_example = split_truncated whole 3 (omega arith) (omega arith)

parse_fragment-serialize_fragment_example :
    (bs : Buffer) × (serialize_fragment whole ≡ ok bs)
    × (parse_fragment old_memory (bs ++ 1 ∷ 2 ∷ []) ≡ ok whole)
parse_fragment-serialize_fragment_example =
    parse_fragment-serialize_fragment old_memory whole (1 ∷ 2 ∷ []) (record {
      type_fits = omega arith;
      total_fits = omega arith;
      seq_fits = omega arith;
      offset_fits = omega arith;
      fragment_fits = omega arith;
    })

abbrev finished_message : Handshake
finished_message = record {
  msg_type = 20;
  message_seq = 3;
  body = object (cons (bytes (7 ∷ 8 ∷ 9 ∷ [])) nil);
}

from_fragment-to_fragment_example :
    (f : FragmentedHandshake) × (to_fragment finished finished_message ≡ ok f)
    × (from_fragment old_memory f ≡ ok finished_message)
from_fragment-to_fragment_example =
    from_fragment-to_fragment old_memory finished finished_message
      (unfold handshake_message in refl) (unfold Fits in (refl, tt))

message_trip_example :
    (f : FragmentedHandshake) × (to_fragment finished finished_message ≡ ok f)
    × (split f none ≡ ok (f ∷ []))
    × ((bs : Buffer) × (serialize_fragment f ≡ ok bs)
        × ((parse_fragment old_memory bs >>= from_fragment old_memory) ≡ ok finished_message))
message_trip_example =
    message_trip old_memory finished finished_message (7 ∷ 8 ∷ 9 ∷ [])
      (unfold handshake_message in refl) (unfold Fits in (refl, tt)) (unfold serialize in refl)
      (omega arith) (omega arith) (omega arith) (omega arith)
