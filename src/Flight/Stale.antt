-- ===== src/Flight/Stale.antt =====
-- What a message does that belongs to a flight already handled.
use node_dtls_client.Prelude.{
  ℕ, ◌<◌, ◌≡◌, refl, List, [], ◌∷◌, ◌++◌, true, false, ◌⊎◌, inl, inr, Option, none, some, ltb, ◌==◌,
  arith, Bool-cases,
}
use node_dtls_client.Errors.{Result, Error, ok, err, ◌>>=◌, Result-cases}
use node_dtls_client.Codec.{Memory}
use node_dtls_client.Fragment.{
  FragmentedHandshake, is_fragmented, find_all_fragments, is_complete, reassemble,
}
use node_dtls_client.Fragment.Body.{Handshake, from_fragment}
use node_dtls_client.Flight.{
  Collector, add_message, insert_message, consecutive, check_flight, try_assemble_fragments,
  process_incoming_message,
}

-- The first of the collected messages comes before the next one that is due.
abbrev pub StartsBelow : ℕ → List Handshake → Type 0
StartsBelow n [] = ⊥
StartsBelow n (h ∷ hs) = h.message_seq < n

-- The calls of `processIncomingMessage` for a list of messages: the flights handed on. Between two calls
-- the handlers may set what is expected, which is given with each message.
unfoldable pub flights :
    Memory → Collector → List (Option (List ℕ) × FragmentedHandshake) → List (List Handshake)
flights memory s [] = []
flights memory s ((types, msg) ∷ more) =
    let (s', out) = process_incoming_message memory (record s { expected = types }) msg in
    let rest = flights memory s' more in
    elim out [ ok (some flight) ↦ flight ∷ rest | ok none ↦ rest | err e ↦ rest ]

insert-StartsBelow :
    (n : ℕ) (h : Handshake) (hs : List Handshake)
    → StartsBelow n hs
    → StartsBelow n (insert_message h hs)
unfolding insert_message
insert-StartsBelow n h [] b = absurd b
insert-StartsBelow n h (g ∷ gs) b = elim (Bool-cases (ltb h.message_seq g.message_seq)) [
  | inl e ↦ rw e (ground arith)
  | inr e ↦ rw e (elim (Bool-cases (h.message_seq == g.message_seq)) [
    | inl f ↦ rw f (ground arith)
    | inr f ↦ rw f b
  ])
]

insert-StartsBelow_self :
    (n : ℕ) (h : Handshake) (hs : List Handshake)
    → h.message_seq < n
    → StartsBelow n (insert_message h hs)
unfolding insert_message
insert-StartsBelow_self n h [] b = b
insert-StartsBelow_self n h (g ∷ gs) b = elim (Bool-cases (ltb h.message_seq g.message_seq)) [
  | inl e ↦ rw e b
  | inr e ↦ rw e (elim (Bool-cases (h.message_seq == g.message_seq)) [
    | inl f ↦ rw f b
    | inr f ↦ rw f (ground arith)
  ])
]

StartsBelow-consecutive :
    (n : ℕ) (hs : List Handshake) → StartsBelow n hs → consecutive n hs ≡ false
unfolding consecutive
StartsBelow-consecutive n [] b = absurd b
StartsBelow-consecutive n (h ∷ hs) b = ground arith

check-StartsBelow :
    (s : Collector) → StartsBelow s.next_seq s.complete → check_flight s ≡ (s, ok none)
unfolding check_flight
check-StartsBelow s b = rw (StartsBelow-consecutive s.next_seq s.complete b) refl

-- What a call on a blocked collector gives: no flight, and a blocked collector.
abbrev IsBlocked : Collector × Result (Option (List Handshake)) → Type 0
IsBlocked (s, out) =
    StartsBelow s.next_seq s.complete × ((out ≡ ok none) ⊎ ((e : Error) × (out ≡ err e)))

check-IsBlocked : (s : Collector) → StartsBelow s.next_seq s.complete → IsBlocked (check_flight s)
check-IsBlocked s b = rw (check-StartsBelow s b) (b, inl refl)

try_assemble_fragments-StartsBelow :
    (memory : Memory) (s : Collector) (reference : FragmentedHandshake)
    → StartsBelow s.next_seq s.complete
    → StartsBelow
        (try_assemble_fragments memory s reference).0.next_seq
        (try_assemble_fragments memory s reference).0.complete
unfolding try_assemble_fragments
try_assemble_fragments-StartsBelow memory s reference b =
    let all_fragments = find_all_fragments s.incomplete reference in
    elim (Result-cases (is_complete all_fragments)) [
      | inr (e, thrown) ↦ rw (thrown, try_assemble_fragments) b
      | inl (false, holes) ↦ rw (holes, try_assemble_fragments) b
      | inl (true, whole) ↦
          elim (Result-cases (reassemble memory all_fragments >>= from_fragment memory)) [
            | inr (e, thrown) ↦ rw (whole, try_assemble_fragments, thrown) b
            | inl (h, parsed) ↦
                rw (whole, try_assemble_fragments, parsed)
                  (insert-StartsBelow s.next_seq h s.complete b)
          ]
    ]

process-IsBlocked :
    (memory : Memory) (s : Collector) (msg : FragmentedHandshake)
    → StartsBelow s.next_seq s.complete
    → IsBlocked (process_incoming_message memory s msg)
unfolding process_incoming_message
process-IsBlocked memory s msg b = elim (Bool-cases (is_fragmented msg)) [
  | inl fragmented ↦
      let t = record s { incomplete = s.incomplete ++ msg ∷ [] } in
      let below = try_assemble_fragments-StartsBelow memory t msg b in
      elim (Result-cases (try_assemble_fragments memory t msg).1) [
        | inr (e, thrown) ↦ rw (fragmented, thrown) (below, inr (e, refl))
        | inl (false, holes) ↦ rw (fragmented, holes) (below, inl refl)
        | inl (true, done) ↦
            rw (fragmented, done) (check-IsBlocked (try_assemble_fragments memory t msg).0 below)
      ]
  | inr whole ↦ elim (Result-cases (from_fragment memory msg)) [
    | inr (e, thrown) ↦ rw (whole, thrown) (b, inr (e, refl))
    | inl (m, parsed) ↦
        rw (whole, parsed)
          (check-IsBlocked (add_message s m) (insert-StartsBelow s.next_seq m s.complete b))
  ]
]

flights-IsBlocked :
    (memory : Memory) (s : Collector) (types : Option (List ℕ)) (msg : FragmentedHandshake)
    (more : List (Option (List ℕ) × FragmentedHandshake))
    → IsBlocked (process_incoming_message memory (record s { expected = types }) msg)
    → ((t : Collector) → StartsBelow t.next_seq t.complete → flights memory t more ≡ [])
    → flights memory s ((types, msg) ∷ more) ≡ []
unfolding flights
flights-IsBlocked memory s types msg more (b, inl silent) rest = rw (flights, silent) (rest _ b)
flights-IsBlocked memory s types msg more (b, inr (e, thrown)) rest =
    rw (flights, thrown) (rest _ b)

flights-StartsBelow :
    (memory : Memory) (more : List (Option (List ℕ) × FragmentedHandshake)) (s : Collector)
    → StartsBelow s.next_seq s.complete
    → flights memory s more ≡ []
unfolding flights
flights-StartsBelow memory [] s b = refl
flights-StartsBelow memory ((types, msg) ∷ more) s b =
    flights-IsBlocked memory s types msg more
      (process-IsBlocked memory (record s { expected = types }) msg b)
      (λ t. flights-StartsBelow memory more t)

stale-IsBlocked :
    (memory : Memory) (s : Collector) (msg : FragmentedHandshake) (m : Handshake)
    → is_fragmented msg ≡ false
    → from_fragment memory msg ≡ ok m
    → m.message_seq < s.next_seq
    → IsBlocked (process_incoming_message memory s msg)
unfolding process_incoming_message
stale-IsBlocked memory s msg m whole parsed old =
    rw (whole, parsed)
      (check-IsBlocked (add_message s m) (insert-StartsBelow_self s.next_seq m s.complete old))

-- Once an unfragmented message with a number that was handled before is received and parsed, no later
-- message completes a flight, whatever is received and whatever is expected: the old message is never
-- removed and stands before every sequence.
pub flights_after_stale :
    (memory : Memory) (s : Collector) (types : Option (List ℕ)) (msg : FragmentedHandshake)
    (m : Handshake) (later : List (Option (List ℕ) × FragmentedHandshake))
    → is_fragmented msg ≡ false
    → from_fragment memory msg ≡ ok m
    → m.message_seq < s.next_seq
    → flights memory s ((types, msg) ∷ later) ≡ []
flights_after_stale memory s types msg m later whole parsed old =
    flights-IsBlocked memory s types msg later
      (stale-IsBlocked memory (record s { expected = types }) msg m whole parsed old)
      (λ t. flights-StartsBelow memory later t)
