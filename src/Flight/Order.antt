-- ===== src/Flight/Order.antt =====
-- What a flight is that was handed on.
use node_dtls_client.Prelude.{
  ℕ, both_true, zero, suc, ◌+◌, ◌≡◌, ◌∙◌, refl, ap, List, [], ◌∷◌, ◌++◌, true, false, inl, inr,
  Option, none, some, map, length, ◌==◌, arith, Bool-cases,
}
use mathlib.Core.Path.{ap₂}
use node_dtls_client.Errors.{ok, ◌>>=◌, Result-cases}
use node_dtls_client.Codec.{Memory}
use node_dtls_client.Fragment.{
  FragmentedHandshake, is_fragmented, find_all_fragments, is_complete, reassemble,
}
use node_dtls_client.Fragment.Body.{Handshake, from_fragment}
use node_dtls_client.Flight.{
  Collector, add_message, consecutive, last_message, includes, take_flight, check_flight,
  try_assemble_fragments, process_incoming_message,
}

-- `len` numbers from `n` on.
abbrev pub count_up : ℕ → ℕ → List ℕ
count_up n zero = []
count_up n (suc len) = n ∷ count_up (n + 1) len

-- The sequence numbers of the flight follow the last one handled, without a gap. Its last message is of
-- an expected type. After it, the collector waits for the number that follows, holds no message, and
-- expects no flight.
pub record IsFlight (s : Collector) (flight : List Handshake) (s' : Collector) : Type 0 where
  pub in_order : map (λ h. h.message_seq) flight ≡ count_up s.next_seq (length flight)
  pub next : s'.next_seq ≡ s.next_seq + length flight
  pub cleared : s'.complete ≡ []
  pub closed : s'.expected ≡ none
  pub awaited :
      (types : List ℕ) × (last : Handshake) × (s.expected ≡ some types)
      × (last_message flight ≡ some last)
      × (includes types last.msg_type ≡ true)

same_number : (a b : ℕ) → (a == b) ≡ true → a ≡ b
same_number a b e = ground arith

consecutive-count_up :
    (n : ℕ) (hs : List Handshake)
    → consecutive n hs ≡ true
    → map (λ h. h.message_seq) hs ≡ count_up n (length hs)
unfolding consecutive
consecutive-count_up n [] e = refl
consecutive-count_up n (h ∷ hs) e =
    let (first, rest) = both_true (h.message_seq == n) (consecutive (h.message_seq + 1) hs) e in
    let at : h.message_seq ≡ n = same_number h.message_seq n first in
    ap₂ ◌∷◌ at
      (consecutive-count_up (h.message_seq + 1) hs rest ∙ ap (λ m. count_up (m + 1) (length hs)) at)

consecutive-last_message :
    (n : ℕ) (hs : List Handshake) (last : Handshake)
    → consecutive n hs ≡ true
    → last_message hs ≡ some last
    → last.message_seq + 1 ≡ n + length hs
unfolding consecutive
consecutive-last_message n [] last e f = cc
consecutive-last_message n (h ∷ []) last e f =
    let (first, rest) = both_true (h.message_seq == n) true e in
    let same : h ≡ last = cc in rw (← same) (omega (arith, same_number h.message_seq n first))
consecutive-last_message n (h ∷ g ∷ gs) last e f =
    let (first, rest) =
      both_true (h.message_seq == n) (consecutive (h.message_seq + 1) (g ∷ gs)) e in
    omega (
      arith,
      same_number h.message_seq n first,
      consecutive-last_message (h.message_seq + 1) (g ∷ gs) last rest f,
    )

take_flight-IsFlight :
    (s s' : Collector) (last : Option Handshake) (types : Option (List ℕ)) (flight : List Handshake)
    → last_message s.complete ≡ last
    → s.expected ≡ types
    → consecutive s.next_seq s.complete ≡ true
    → take_flight s last types ≡ (s', ok (some flight))
    → IsFlight s flight s'
unfolding take_flight
take_flight-IsFlight s s' last none flight l x e h = cc
take_flight-IsFlight s s' none (some types) flight l x e h = cc
take_flight-IsFlight s s' (some last) (some types) flight l x e h =
    elim (Bool-cases (includes types last.msg_type)) [
      | inr no' ↦ let h' = rw no' at h in cc
      | inl yes' ↦
          let h' = rw yes' at h in
          let complete : s.complete ≡ flight = cc in
          let after : record s { next_seq = last.message_seq + 1; complete = []; expected = none }
              ≡ s' =
            cc in
          rw (← complete, ← after)
            (record {
              in_order = consecutive-count_up s.next_seq s.complete e;
              next = consecutive-last_message s.next_seq s.complete last e l;
              cleared = refl;
              closed = refl;
              awaited = (types, last, x, l, yes');
            })
    ]

check_flight-IsFlight :
    (s s' : Collector) (flight : List Handshake)
    → check_flight s ≡ (s', ok (some flight))
    → IsFlight s flight s'
unfolding check_flight
check_flight-IsFlight s s' flight h = elim (Bool-cases (consecutive s.next_seq s.complete)) [
  | inl e ↦
      let h' = rw e at h in
      take_flight-IsFlight s s' (last_message s.complete) s.expected flight refl refl e h'
  | inr e ↦ let h' = rw e at h in cc
]

IsFlight-from :
    (s t s' : Collector) (flight : List Handshake)
    → t.next_seq ≡ s.next_seq
    → t.expected ≡ s.expected
    → IsFlight t flight s'
    → IsFlight s flight s'
IsFlight-from s t s' flight same_next same_expected h = record {
  in_order = rw (← same_next) h.in_order;
  next = rw (← same_next) h.next;
  cleared = h.cleared;
  closed = h.closed;
  awaited = rw (← same_expected) h.awaited;
}

pub try_assemble_fragments-keeps :
    (memory : Memory) (s : Collector) (reference : FragmentedHandshake)
    → ((try_assemble_fragments memory s reference).0.next_seq ≡ s.next_seq)
      × ((try_assemble_fragments memory s reference).0.expected ≡ s.expected)
unfolding try_assemble_fragments
try_assemble_fragments-keeps memory s reference =
    let all_fragments = find_all_fragments s.incomplete reference in
    elim (Result-cases (is_complete all_fragments)) [
      | inr (e, thrown) ↦ rw (thrown, try_assemble_fragments) (refl, refl)
      | inl (false, holes) ↦ rw (holes, try_assemble_fragments) (refl, refl)
      | inl (true, whole) ↦
          elim (Result-cases (reassemble memory all_fragments >>= from_fragment memory)) [
            | inr (e, thrown) ↦ rw (whole, try_assemble_fragments, thrown) (refl, refl)
            | inl (h, parsed) ↦ rw (whole, try_assemble_fragments, parsed) (refl, refl)
          ]
    ]

-- Whenever a received message completes a flight, the flight is in the order of its sequence numbers,
-- which follow the last one handled without a gap; its last message is of an expected type; and the
-- collector then waits for the next number, with no message left and no flight expected.
pub process_incoming_message-IsFlight :
    (memory : Memory) (s s' : Collector) (msg : FragmentedHandshake) (flight : List Handshake)
    → process_incoming_message memory s msg ≡ (s', ok (some flight))
    → IsFlight s flight s'
unfolding process_incoming_message
process_incoming_message-IsFlight memory s s' msg flight h = elim (Bool-cases (is_fragmented msg)) [
  | inl fragmented ↦
      let t = record s { incomplete = s.incomplete ++ msg ∷ [] } in
      let (same_next, same_expected) = try_assemble_fragments-keeps memory t msg in
      elim (Result-cases (try_assemble_fragments memory t msg).1) [
        | inr (e, thrown) ↦ let h' = rw (fragmented, thrown) at h in cc
        | inl (false, holes) ↦ let h' = rw (fragmented, holes) at h in cc
        | inl (true, done) ↦
            let h' = rw (fragmented, done) at h in
            IsFlight-from s (try_assemble_fragments memory t msg).0 s' flight same_next
              same_expected
              (check_flight-IsFlight (try_assemble_fragments memory t msg).0 s' flight h')
      ]
  | inr whole ↦ elim (Result-cases (from_fragment memory msg)) [
    | inr (e, thrown) ↦ let h' = rw (whole, thrown) at h in cc
    | inl (m, parsed) ↦
        let h' = rw (whole, parsed) at h in
        IsFlight-from s (add_message s m) s' flight refl refl
          (check_flight-IsFlight (add_message s m) s' flight h')
  ]
]
