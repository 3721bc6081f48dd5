-- ===== src/Handshaker/Sequence.antt =====
-- What is made of the messages of a flight, one after the other.
use node_dtls_client.Prelude.{
  ℕ, ◌+◌, ◌≡◌, ◌∙◌, refl, ap, sym, List, [], ◌∷◌, ◌++◌, append-nil, append_assoc, false, length,
  length-append, set, arith,
}
use node_dtls_client.Errors.{Result, ok}
use node_dtls_client.Convert.{Buffer}
use node_dtls_client.Fragment.Body.{Handshake}
use node_dtls_client.Crypto.{Crypto}
use node_dtls_client.Record.{Message}
use node_dtls_client.Handshaker.{Handler}
use node_dtls_client.Handshaker.Send.{process_handshake, process_handshakes}
use node_dtls_client.Handshaker.Carried.{
  bind-ok, numbered_with, numbered_from, AreCarried, added, sends,
}

set-append :
    (xs ys : List Handshake) (h g : Handshake)
    → set (xs ++ h ∷ ys) (length xs) g ≡ (xs ++ g ∷ []) ++ ys
set-append [] ys h g = refl
set-append (x ∷ xs) ys h g = ap (λ r. x ∷ r) (set-append xs ys h g)

-- The state after a flight whose messages took the place of `before ++ flight`.
abbrev pub after_flight :
    {c : Crypto}
    → Handler c
    → List Handshake
    → List Handshake
    → List Message
    → List Buffer
    → Handler c
after_flight s before flight records noted = record (added s records noted) {
  next_sent = s.next_sent + length flight;
  last_flight = before ++ numbered_from s.next_sent flight;
}

pub sends_all :
    (c : Crypto) (before flight : List Handshake) (s : Handler c)
    → s.last_flight ≡ before ++ flight
    → (process_handshakes c false (length before) flight s).1 ≡ ok tt
    → (records : List Message) × (noted : List Buffer) × AreCarried
        (numbered_from s.next_sent flight)
        records
        noted
      × ((process_handshakes c false (length before) flight s).0
          ≡ after_flight s before flight records noted)
unfolding process_handshakes
sends_all c before [] s there e = (
  [],
  [],
  (refl, refl),
  rw
      (
        ← there,
        append-nil s.buffered_outgoing,
        append-nil s.all_handshake_data,
        zero_more s.next_sent,
      )
      refl,
)
  where
    zero_more : (n : ℕ) → n + 0 ≡ n
    zero_more n = omega arith
sends_all c before (h ∷ hs) s there e =
    let rest = process_handshakes c false (length before + 1) hs in
    let (v, fine, is, e1) =
      bind-ok c (process_handshake c false (length before) h) (λ _. rest) s tt e in
    let (first, kept, carried, left) = sends c (length before) h s fine in
    let s1 = (process_handshake c false (length before) h s).0 in
    let g = numbered_with s.next_sent h in
    let there' : s1.last_flight ≡ (before ++ g ∷ []) ++ hs =
      ap (λ (t : Handler c). t.last_flight) left
      ∙ ap (λ x. set x (length before) g) there
      ∙ set-append before hs h g in
    let place : length before + 1 ≡ length (before ++ g ∷ []) =
      sym (length-append before (g ∷ [])) in
    let e2 : (process_handshakes c false (length (before ++ g ∷ [])) hs s1).1 ≡ ok tt =
      ap (λ i. (process_handshakes c false i hs s1).1) (sym place) ∙ e1 in
    let (more, noted, all, left') = sends_all c (before ++ g ∷ []) hs s1 there' e2 in
    let n : s1.next_sent ≡ s.next_sent + 1 = ap (λ (t : Handler c). t.next_sent) left in
    (
      first ++ more,
      kept ++ noted,
      (first, more, kept, noted, carried, rw (← n) all, refl, refl),
      ap (λ (o : Handler c × Result (Unit {0})). o.0)
            (is ∙ ap (λ i. process_handshakes c false i hs s1) place)
          ∙ left'
          ∙ ap (λ (t : Handler c). after_flight t (before ++ g ∷ []) hs more noted) left
          ∙ joined c s before h hs first more kept noted,
    )
  where
    joined :
        (c : Crypto) (s : Handler c) (before : List Handshake) (h : Handshake) (hs : List Handshake)
        (first more : List Message) (kept noted : List Buffer)
        → after_flight
            (record (added s first kept) {
              next_sent = s.next_sent + 1;
              last_flight = set s.last_flight (length before) (numbered_with s.next_sent h);
            })
            (before ++ numbered_with s.next_sent h ∷ [])
            hs
            more
            noted
          ≡ after_flight s before (h ∷ hs) (first ++ more) (kept ++ noted)
    joined c s before h hs first more kept noted =
        let counted : s.next_sent + 1 + length hs ≡ s.next_sent + length (h ∷ hs) = omega arith in
        rw
          (
            counted,
            append_assoc s.buffered_outgoing first more,
            append_assoc s.all_handshake_data kept noted,
            append_assoc before (numbered_with s.next_sent h ∷ [])
                (numbered_from (s.next_sent + 1) hs),
          )
          refl
