-- ===== src/Handshaker/Carried.antt =====
-- What is made of a message that is sent: its number and its records.
use node_dtls_client.Prelude.{
  ℕ, ◌+◌, ◌≡◌, ◌∙◌, refl, ap, sym, List, [], ◌∷◌, ◌++◌, append-nil, append_assoc, false, ◌==◌,
  if◌then◌else◌, none, set, inl, inr, Bool-cases,
}
use node_dtls_client.Errors.{Result, ok, err, Result-cases}
use node_dtls_client.Convert.{Buffer, number_to_buffer}
use node_dtls_client.Codec.{serialize}
use node_dtls_client.Fragment.{FragmentedHandshake, split}
use node_dtls_client.Fragment.Body.{Handshake}
use node_dtls_client.Fragment.Wire.{serialize_fragment}
use node_dtls_client.Crypto.{Crypto}
use node_dtls_client.Record.{Message, change_cipher_spec}
use node_dtls_client.Handshaker.{Handler, M, ◌>>=◌}
use node_dtls_client.Handshaker.Send.{
  finished_type, needs_to_hash_message, fragment_of, map_result, buffer_handshake_data,
  push_change_cipher_spec, number_message, push_fragments, process_handshake, to_handshake_messages,
  when,
}

-- The parts of a computation that did not throw.
pub bind-ok :
    (c : Crypto) {A B : Type 0} (m : M c A) (f : A → M c B) (s : Handler c) (b : B)
    → ((m >>= f) s).1 ≡ ok b
    → (a : A) × ((m s).1 ≡ ok a) × ((m >>= f) s ≡ f a (m s).0) × ((f a (m s).0).1 ≡ ok b)
unfolding ◌>>=◌
bind-ok c m f s b h = elim (Result-cases (m s).1) [
  | inl (a, e) ↦ let h' = rw (e, ◌>>=◌) at h in (a, e, rw (e, ◌>>=◌) refl, h')
  | inr (thrown, e) ↦ let h' = rw (e, ◌>>=◌) at h in cc
]

bind-is :
    (c : Crypto) {A B : Type 0} (m : M c A) (f : A → M c B) (s s' : Handler c) (a : A)
    → m s ≡ (s', ok a)
    → (m >>= f) s ≡ f a s'
unfolding ◌>>=◌
bind-is c {A = A} m f s s' a e =
    ap (λ (o : Handler c × Result A). elim o.1 [ ok b ↦ f b o.0 | err thrown ↦ (o.0, err thrown) ])
      e

abbrev pub numbered_with : ℕ → Handshake → Handshake
numbered_with n h = record h { message_seq = n }

-- The messages with numbers from `n` on.
abbrev pub numbered_from : ℕ → List Handshake → List Handshake
numbered_from n [] = []
numbered_from n (h ∷ hs) = numbered_with n h ∷ numbered_from (n + 1) hs

-- The handshake data that a message leaves: its bytes in one piece, if it is to be hashed.
abbrev IsRemembered : Handshake → FragmentedHandshake → List Buffer → Type 0
IsRemembered h whole noted =
    if needs_to_hash_message h
    then map_result serialize_fragment (whole ∷ []) ≡ ok noted
    else noted ≡ []

abbrev ccs_before : Handshake → List Message
ccs_before h =
    if h.msg_type == finished_type
    then record { type = change_cipher_spec; content = 1 ∷ [] } ∷ []
    else []

-- The records that carry a message: those of its fragments, behind a ChangeCipherSpec if it is Finished.
pub record IsCarried (h : Handshake) (records : List Message) (noted : List Buffer) : Type 0 where
  pub whole : FragmentedHandshake
  pub is_whole : fragment_of h ≡ ok whole
  pub pieces : List FragmentedHandshake
  pub are_pieces : split whole none ≡ ok pieces
  pub written : List Buffer
  pub are_written : map_result serialize_fragment pieces ≡ ok written
  pub are_records : records ≡ ccs_before h ++ to_handshake_messages written
  pub is_remembered : IsRemembered h whole noted

-- The records that carry messages, one after the other.
abbrev pub AreCarried : List Handshake → List Message → List Buffer → Type 0
AreCarried [] records noted = (records ≡ []) × (noted ≡ [])
AreCarried (h ∷ hs) records noted =
    (first : List Message) × (more : List Message) × (kept : List Buffer) × (rest : List Buffer)
    × IsCarried h first kept
    × AreCarried hs more rest
    × (records ≡ first ++ more)
    × (noted ≡ kept ++ rest)

-- The state with records and handshake data added.
abbrev pub added : {c : Crypto} → Handler c → List Message → List Buffer → Handler c
added s records noted = record s {
  buffered_outgoing = s.buffered_outgoing ++ records;
  all_handshake_data = s.all_handshake_data ++ noted;
}

remembers :
    (c : Crypto) (h : Handshake) (whole : FragmentedHandshake) (s : Handler c) (u : Unit {0})
    → (when c (needs_to_hash_message h) (buffer_handshake_data c (whole ∷ [])) s).1 ≡ ok u
    → (noted : List Buffer) × IsRemembered h whole noted
      × ((when c (needs_to_hash_message h) (buffer_handshake_data c (whole ∷ [])) s).0
          ≡ record s { all_handshake_data = s.all_handshake_data ++ noted })
unfolding buffer_handshake_data
remembers c h whole s u e = elim (Bool-cases (needs_to_hash_message h)) [
  | inr plain ↦ ([], rw plain refl, rw (plain, append-nil s.all_handshake_data) refl)
  | inl hashed ↦
      let e' = rw hashed at e in
      let (noted, wrote, is, done) = bind-ok c _ _ s u e' in
      (noted, rw hashed wrote, rw hashed (ap (λ (o : Handler c × Result (Unit {0})). o.0) is))
]

pushes :
    (c : Crypto) (h : Handshake) (s : Handler c)
    → (push_fragments c false h s).1 ≡ ok tt
    → (written : List Buffer) × (noted : List Buffer) × IsCarried h
        (ccs_before h ++ to_handshake_messages written)
        noted
      × ((push_fragments c false h s).0 ≡ added s (to_handshake_messages written) noted)
unfolding push_fragments
pushes c h s e =
    let (whole, is_whole, e1, r1) = bind-ok c _ _ s tt e in
    let (u, fine, e2, r2) = bind-ok c _ _ s tt r1 in
    let (noted, is_remembered, left) = remembers c h whole s u fine in
    let s1 = (when c (needs_to_hash_message h) (buffer_handshake_data c (whole ∷ [])) s).0 in
    let (pieces, cut, e3, r3) = bind-ok c _ _ s1 tt r2 in
    let (written, wrote, e4, r4) = bind-ok c _ _ s1 tt r3 in
    (
      written,
      noted,
      record {
        whole = whole;
        is_whole = is_whole;
        pieces = pieces;
        are_pieces = cut;
        written = written;
        are_written = wrote;
        are_records = refl;
        is_remembered = is_remembered;
      },
      ap (λ (o : Handler c × Result (Unit {0})). o.0) (e1 ∙ e2 ∙ e3 ∙ e4)
          ∙ ap
              (λ (t : Handler c). record t {
                buffered_outgoing = t.buffered_outgoing ++ to_handshake_messages written;
              })
              left,
    )

changes :
    (c : Crypto) (h : Handshake) (s : Handler c)
    → when c (h.msg_type == finished_type) (push_change_cipher_spec c) s
      ≡ (record s { buffered_outgoing = s.buffered_outgoing ++ ccs_before h }, ok tt)
unfolding push_change_cipher_spec ◌>>=◌ serialize number_to_buffer
changes c h s = elim (Bool-cases (h.msg_type == finished_type)) [
  | inl finished ↦ rw finished refl
  | inr other ↦ rw (other, append-nil s.buffered_outgoing) refl
]

-- One message: it takes the next number and its place in the last flight, and is carried.
pub sends :
    (c : Crypto) (place : ℕ) (h : Handshake) (s : Handler c)
    → (process_handshake c false place h s).1 ≡ ok tt
    → (records : List Message) × (noted : List Buffer) × IsCarried
        (numbered_with s.next_sent h)
        records
        noted
      × ((process_handshake c false place h s).0 ≡ record (added s records noted) {
        next_sent = s.next_sent + 1;
        last_flight = set s.last_flight place (numbered_with s.next_sent h);
      })
unfolding process_handshake number_message ◌>>=◌
sends c place h s e =
    let numbered = numbered_with s.next_sent h in
    let s1 : Handler c = record s { buffered_outgoing = s.buffered_outgoing ++ ccs_before h } in
    let s2 : Handler c = record s1 {
      next_sent = s.next_sent + 1;
      last_flight = set s.last_flight place numbered;
    } in
    let first = changes c h s in
    let is : process_handshake c false place h s ≡ push_fragments c false numbered s2 =
      bind-is c (when c (h.msg_type == finished_type) (push_change_cipher_spec c))
        (λ _. number_message c false place h >>= push_fragments c false) s s1 tt first in
    let e2 : (push_fragments c false numbered s2).1 ≡ ok tt =
      ap (λ (o : Handler c × Result (Unit {0})). o.1) (sym is) ∙ e in
    let (written, noted, carried, left) = pushes c numbered s2 e2 in
    (
      ccs_before h ++ to_handshake_messages written,
      noted,
      carried,
      ap (λ (o : Handler c × Result (Unit {0})). o.0) is
          ∙ left
          ∙ ap (λ (l : List Message). record (added s2 [] noted) { buffered_outgoing = l })
              (append_assoc s.buffered_outgoing (ccs_before h) (to_handshake_messages written)),
    )
