-- ===== src/Flight.antt =====
-- The collection of flights in `ClientHandshakeHandler`, src/DTLS/HandshakeHandler.ts: how handshake
-- messages are kept until they are a flight that is expected. A flight that is ready is returned: what
-- its handler does with it is in Handshaker.
pub mod Order
pub mod Stale
mod Tests
use node_dtls_client.Prelude.{
  ℕ, ◌+◌, List, [], ◌∷◌, ◌++◌, Bool, true, false, not, ◌&&◌, ◌||◌, Option, none, some, ltb, ◌==◌,
  if◌then◌else◌,
}
use node_dtls_client.Errors.{Result, ok, err, ◌>>=◌, type_error}
use node_dtls_client.Codec.{Memory}
use node_dtls_client.Fragment.{
  FragmentedHandshake, is_fragmented, same_message, keep, find_all_fragments, is_complete,
  reassemble,
}
use node_dtls_client.Fragment.Body.{Handshake, from_fragment}

-- `next_seq` is `lastProcessedSeqNum + 1`, which starts at -1. The messages of `completeMessages` are
-- in the order of their indices, which are their sequence numbers. `expected` is `none` for null.
pub record Collector : Type 0 where
  pub next_seq : ℕ
  pub incomplete : List FragmentedHandshake
  pub complete : List Handshake
  pub expected : Option (List ℕ)

-- `completeMessages[message_seq] = message`; an object lists its integer keys in ascending order.
unfoldable pub insert_message : Handshake → List Handshake → List Handshake
insert_message h [] = h ∷ []
insert_message h (g ∷ gs) =
    if ltb h.message_seq g.message_seq
    then h ∷ g ∷ gs
    else if h.message_seq == g.message_seq
    then h ∷ gs
    else g ∷ insert_message h gs

abbrev pub add_message : Collector → Handshake → Collector
add_message s h = record s { complete = insert_message h s.complete }

-- Each index is one more than the one before; `n` is one more than what stands before the list.
unfoldable pub consecutive : ℕ → List Handshake → Bool
consecutive n [] = true
consecutive n (h ∷ hs) = h.message_seq == n && consecutive (h.message_seq + 1) hs

abbrev pub last_message : List Handshake → Option Handshake
last_message [] = none
last_message (h ∷ []) = some h
last_message (h ∷ g ∷ gs) = last_message (g ∷ gs)

abbrev pub includes : List ℕ → ℕ → Bool
includes [] t = false
includes (x ∷ xs) t = x == t || includes xs t

-- A flight is handed on if one is expected that ends in a message of this type.
unfoldable pub take_flight :
    Collector → Option Handshake → Option (List ℕ) → Collector × Result (Option (List Handshake))
take_flight s last none = (s, ok none)
take_flight s none (some types) = (s, err type_error)
take_flight s (some last) (some types) =
    if includes types last.msg_type
    then (
      record s { next_seq = last.message_seq + 1; complete = []; expected = none },
      ok (some s.complete),
    )
    else (s, ok none)

unfoldable pub check_flight : Collector → Collector × Result (Option (List Handshake))
unfolding take_flight
check_flight s =
    if consecutive s.next_seq s.complete
    then take_flight s (last_message s.complete) s.expected
    else (s, ok none)

-- The fragments that were put together are removed, each by its identity: those of the message.
abbrev pub remove_fragments :
    List FragmentedHandshake → FragmentedHandshake → List FragmentedHandshake
remove_fragments fragments reference = keep (λ f. not (same_message f reference)) fragments

unfoldable pub try_assemble_fragments :
    Memory → Collector → FragmentedHandshake → Collector × Result Bool
try_assemble_fragments memory s reference =
    let all_fragments = find_all_fragments s.incomplete reference in
    elim (is_complete all_fragments) [
      | err e ↦ (s, err e)
      | ok false ↦ (s, ok false)
      | ok true ↦ elim (reassemble memory all_fragments >>= from_fragment memory) [
        | err e ↦ (s, err e)
        | ok h ↦ (
          record (add_message s h) { incomplete = remove_fragments s.incomplete reference },
          ok true,
        )
      ]
    ]

-- `processIncomingMessage` up to the handler of the flight. A fragment is kept even if what follows
-- throws.
unfoldable pub process_incoming_message :
    Memory → Collector → FragmentedHandshake → Collector × Result (Option (List Handshake))
unfolding check_flight try_assemble_fragments
process_incoming_message memory s msg =
    let s' = record s { incomplete = s.incomplete ++ msg ∷ [] } in
    let (s'', assembled) = try_assemble_fragments memory s' msg in
    let fragment : Collector × Result (Option (List Handshake)) = elim assembled [
      | err e ↦ (s'', err e)
      | ok false ↦ (s'', ok none)
      | ok true ↦ check_flight s''
    ] in
    let whole : Collector × Result (Option (List Handshake)) = elim (from_fragment memory msg) [
      | err e ↦ (s, err e)
      | ok h ↦ check_flight (add_message s h)
    ] in
    if is_fragmented msg then fragment else whole
