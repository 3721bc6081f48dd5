-- ===== src/Handshaker/Numbers.antt =====
-- What is sent for a flight: its numbers, its records and its datagram.
use node_dtls_client.Prelude.{
  ℕ, ◌+◌, ◌≡◌, ◌∙◌, refl, ap, sym, List, [], ◌∷◌, ◌++◌, true, false, not, ◌&&◌, some, length, inl,
  inr, Bool-cases,
}
use node_dtls_client.Errors.{Result, ok, Result-cases}
use node_dtls_client.Convert.{Buffer}
use node_dtls_client.Fragment.Body.{Handshake}
use node_dtls_client.Crypto.{Crypto}
use node_dtls_client.Connection.Protect.{protection}
use node_dtls_client.Record.{Message, process_flight}
use node_dtls_client.Handshaker.{Handler, modify, ◌>>=◌, output, datagram, is_sent}
use node_dtls_client.Handshaker.Send.{
  send_flight_begin, send_flight_process_partial, send_buffered, send_flight_finish, send_flight,
}
use node_dtls_client.Handshaker.Carried.{bind-ok, numbered_from, AreCarried}
use node_dtls_client.Handshaker.Sequence.{sends_all}

-- A buffer that is written to the UDP socket.
goes_out :
    (c : Crypto) (buf : Buffer) (s : Handler c)
    → (output (datagram buf) s).1 ≡ ok tt
    → output (datagram buf) s ≡ (record s { outputs = s.outputs ++ datagram buf ∷ [] }, ok tt)
unfolding output
goes_out c buf s e = elim (Bool-cases (is_sent (datagram buf) && not s.udp_open)) [
  | inl shut ↦ let e' = rw (shut, output) at e in cc
  | inr goes ↦ rw (goes, output) refl
]

sends_buffered :
    (c : Crypto) (s : Handler c)
    → (send_buffered c s).1 ≡ ok tt
    → (buf : Buffer) × ((process_flight (protection c) s.layer s.buffered_outgoing).1 ≡ ok buf)
      × ((send_buffered c s).0 ≡ record s {
        layer = (process_flight (protection c) s.layer s.buffered_outgoing).0;
        outputs = s.outputs ++ datagram buf ∷ [];
      })
unfolding send_buffered
sends_buffered c s e =
    let out = process_flight (protection c) s.layer s.buffered_outgoing in
    elim (Result-cases out.1) [
      | inr (thrown, failed) ↦ let e' = rw (failed, send_buffered) at e in cc
      | inl (buf, made) ↦
          let e' = rw (made, send_buffered) at e in
          (
            buf,
            made,
            rw (made, send_buffered)
                (ap (λ (o : Handler c × Result (Unit {0})). o.0)
                  (goes_out c buf (record s { layer = out.0 }) e')),
          )
    ]

-- A flight that went out: its messages are numbered on from the last message that was sent and so
-- remembered, their records follow those that were left over, all are joined into one datagram by the
-- record layer, and the handshake data grows by the bytes of the messages that are to be hashed.
pub record IsSentFlight (c : Crypto) (flight : List Handshake) (s s' : Handler c) : Type 0 where
  pub records : List Message
  pub noted : List Buffer
  pub buf : Buffer
  pub are_carried : AreCarried (numbered_from s.next_sent flight) records noted
  pub is_protected :
      (process_flight (protection c) s.layer (s.buffered_outgoing ++ records)).1 ≡ ok buf
  pub went_out : s'.outputs ≡ s.outputs ++ datagram buf ∷ []
  pub all_numbered : s'.next_sent ≡ s.next_sent + length flight
  pub flight_kept : s'.last_flight ≡ numbered_from s.next_sent flight
  pub data_noted : s'.all_handshake_data ≡ s.all_handshake_data ++ noted
  pub none_left : s'.buffered_outgoing ≡ []

finishes :
    (c : Crypto) (types : List ℕ) (s : Handler c)
    → (send_flight_finish c types s).1 ≡ ok tt
    → (buf : Buffer) × ((process_flight (protection c) s.layer s.buffered_outgoing).1 ≡ ok buf)
      × ((send_flight_finish c types s).0 ≡ record s {
        layer = (process_flight (protection c) s.layer s.buffered_outgoing).0;
        collector = record s.collector { expected = some types };
        outputs = s.outputs ++ datagram buf ∷ [];
        buffered_outgoing = [];
        begin_was_called = false;
      })
unfolding send_flight_finish ◌>>=◌
finishes c types s e =
    let s1 : Handler c = record s { collector = record s.collector { expected = some types } } in
    let (u, fine, is, e1) =
      bind-ok c (send_buffered c)
        (λ _. modify (λ s. record s { buffered_outgoing = []; begin_was_called = false })) s1 tt
        e in
    let (buf, made, left) = sends_buffered c s1 fine in
    (
      buf,
      made,
      ap (λ (o : Handler c × Result (Unit {0})). o.0) is
          ∙ ap (λ (t : Handler c). record t { buffered_outgoing = []; begin_was_called = false })
              left,
    )

-- A flight that is sent without an exception goes out as one datagram, which holds the records of the
-- fragments of its messages, in order and numbered on from the last message that was sent, one number
-- for each message, and a ChangeCipherSpec before a Finished message, behind the records that were left
-- over. It is remembered with its numbers, and the handshake data grows by the same numbered messages,
-- those that are not to be hashed left out.
pub send_flight-IsSentFlight :
    (c : Crypto) (flight : List Handshake) (types : List ℕ) (s : Handler c)
    → (send_flight c flight types false s).1 ≡ ok tt
    → IsSentFlight c flight s (send_flight c flight types false s).0
unfolding send_flight send_flight_begin send_flight_process_partial ◌>>=◌
send_flight-IsSentFlight c flight types s e =
    let partial = send_flight_process_partial c flight false in
    let s0 : Handler c = record s { begin_was_called = true; last_flight = [] } in
    let (w, fine, is, e1) = bind-ok c partial (λ _. send_flight_finish c types) s0 tt e in
    let (records, noted, carried, left) =
      sends_all c [] flight (record s0 { last_flight = flight }) refl fine in
    let (buf, made, done) = finishes c types (partial s0).0 e1 in
    let all = ap (λ (o : Handler c × Result (Unit {0})). o.0) is ∙ done in
    record {
      records = records;
      noted = noted;
      buf = buf;
      are_carried = carried;
      is_protected =
          sym (
            ap (λ (t : Handler c). (process_flight (protection c) t.layer t.buffered_outgoing).1)
              left)
          ∙ made;
      went_out =
          ap (λ (t : Handler c). t.outputs) all
          ∙ ap (λ (t : Handler c). t.outputs ++ datagram buf ∷ []) left;
      all_numbered =
          ap (λ (t : Handler c). t.next_sent) (all) ∙ ap (λ (t : Handler c). t.next_sent) left;
      flight_kept =
          ap (λ (t : Handler c). t.last_flight) all ∙ ap (λ (t : Handler c). t.last_flight) left;
      data_noted =
          ap (λ (t : Handler c). t.all_handshake_data) all
          ∙ ap (λ (t : Handler c). t.all_handshake_data) left;
      none_left = ap (λ (t : Handler c). t.buffered_outgoing) all;
    }
