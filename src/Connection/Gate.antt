-- ===== src/Connection/Gate.antt =====
-- What the record layer hands on in an epoch whose decipher is set.
use node_dtls_client.Prelude.{
  ℕ, ◌≡◌, ◌∙◌, refl, ap, sym, ◌⊎◌, inl, inr, List, [], ◌∷◌, Option, none, some, get_elem?, set,
  get_elem?-set_self, get_elem?-set_ne, Option-cases, Bool-cases,
}
use native.Mathlib.Decide.{ℕ_discrete}
use node_dtls_client.Errors.{ok}
use node_dtls_client.Record.Packet.{DtlsPacket}
use node_dtls_client.Record.{
  Epoch, RecordLayer, acceptable, filter_packets, decrypt_packet, decrypt_packets, some_before,
  receive_packets,
}
use node_dtls_client.Record.Grows.{get_elem?-lt}
use node_dtls_client.Crypto.{Crypto}
use node_dtls_client.Suite.{suite_decipher}
use node_dtls_client.Connection.{ConnectionState, Delegate, get_decipher, decipher_packet}
use node_dtls_client.Connection.Protect.{
  protection, caught, caught-some, decrypt_incoming, decrypt_incoming-header,
}

-- The delegate deciphers one of the packets to `q`.
abbrev pub Deciphered : Crypto → Delegate → DtlsPacket → List DtlsPacket → Type 0
Deciphered c d q [] = ⊥
Deciphered c d q (p ∷ ps) =
    (suite_decipher c d.suite p d.keys d.end_point ≡ ok q) ⊎ Deciphered c d q ps

abbrev pub IsOneOf : DtlsPacket → List DtlsPacket → Type 0
IsOneOf q [] = ⊥
IsOneOf q (p ∷ ps) = (p ≡ q) ⊎ IsOneOf q ps

module _ (c : Crypto) where
  -- The epoch has the delegate.
  abbrev pub HasDelegate : RecordLayer (protection c) → ℕ → Delegate → Type 0
  HasDelegate r i d =
      (e : Epoch (protection c)) × (get_elem? r.epochs i ≡ some e)
      × (e.connection_state.decipher ≡ some d)

  decrypt_keeps :
      (s : ConnectionState) (p : DtlsPacket) (d : Delegate)
      → s.decipher ≡ some d
      → (decrypt_incoming c s p).0.decipher ≡ some d
  unfolding decrypt_incoming decipher_packet get_decipher
  decrypt_keeps s p d h = rw h refl

  decrypt_by :
      (s : ConnectionState) (p : DtlsPacket) (d : Delegate)
      → s.decipher ≡ some d
      → (decrypt_incoming c s p).1 ≡ caught (suite_decipher c d.suite p d.keys d.end_point)
  unfolding decrypt_incoming decipher_packet get_decipher
  decrypt_by s p d h = rw h refl

  HasDelegate-set :
      (r : RecordLayer (protection c)) (j i : ℕ) (d : Delegate) (e e' : Epoch (protection c))
      → get_elem? r.epochs j ≡ some e
      → (e.connection_state.decipher ≡ some d → e'.connection_state.decipher ≡ some d)
      → HasDelegate r i d
      → HasDelegate (record r { epochs = set r.epochs j e' }) i d
  HasDelegate-set r j i d e e' at keeps (f, at', kept) = elim (ℕ_discrete j i) [
    | yes same ↦
        let p : some e ≡ some f = sym at ∙ ap (get_elem? r.epochs) same ∙ at' in
        let q : e ≡ f = cc in
        (
          e',
          ap (get_elem? (set r.epochs j e')) (sym same)
              ∙ get_elem?-set_self r.epochs j e' (get_elem?-lt r.epochs j at),
          keeps (ap (λ (x : Epoch (protection c)). x.connection_state.decipher) q ∙ kept),
        )
    | no other ↦ (f, get_elem?-set_ne r.epochs e' other ∙ at', kept)
  ]

  decrypt_packet_keeps :
      (r : RecordLayer (protection c)) (p : DtlsPacket) (i : ℕ) (d : Delegate)
      → HasDelegate r i d
      → HasDelegate (decrypt_packet (protection c) r p).0 i d
  unfolding decrypt_packet
  decrypt_packet_keeps r p i d h = elim (Option-cases (get_elem? r.epochs p.epoch)) [
    | inl missing ↦ rw (missing, decrypt_packet) h
    | inr (e, at) ↦
        rw (at, decrypt_packet)
          (HasDelegate-set r p.epoch i d e _ at (decrypt_keeps e.connection_state p d) h)
  ]

  -- What a packet of the epoch is deciphered to.
  decrypt_packet_by :
      (r : RecordLayer (protection c)) (p q : DtlsPacket) (d : Delegate)
      → HasDelegate r q.epoch d
      → (decrypt_packet (protection c) r p).1 ≡ some q
      → suite_decipher c d.suite p d.keys d.end_point ≡ ok q
  unfolding decrypt_packet
  decrypt_packet_by r p q d (f, at', kept) h = elim (Option-cases (get_elem? r.epochs p.epoch)) [
    | inl missing ↦ let h' = rw (missing, decrypt_packet) at h in cc
    | inr (e, at) ↦
        let h' : (decrypt_incoming c e.connection_state p).1 ≡ some q =
          rw (at, decrypt_packet) at h in
        let same = (decrypt_incoming-header c e.connection_state p q h').0 in
        let e-is : some f ≡ some e = sym at' ∙ ap (get_elem? r.epochs) same ∙ at in
        let is : f ≡ e = cc in
        caught-some _ q (
          sym (
            decrypt_by e.connection_state p d
              (ap (λ (x : Epoch (protection c)). x.connection_state.decipher) (sym is) ∙ kept))
          ∙ h')
  ]

  some_before-IsOneOf :
      (o : Option DtlsPacket) (q : DtlsPacket) (ps : List DtlsPacket)
      → IsOneOf q (some_before (protection c) o ps)
      → (o ≡ some q) ⊎ IsOneOf q ps
  some_before-IsOneOf none q ps h = inr h
  some_before-IsOneOf (some p) q ps (inl e) = inl (ap some e)
  some_before-IsOneOf (some p) q ps (inr h) = inr h

  decrypt_packets-Deciphered :
      (r : RecordLayer (protection c)) (ps : List DtlsPacket) (q : DtlsPacket) (d : Delegate)
      → HasDelegate r q.epoch d
      → IsOneOf q (decrypt_packets (protection c) r ps).1
      → Deciphered c d q ps
  unfolding decrypt_packets
  decrypt_packets-Deciphered r [] q d h one = one
  decrypt_packets-Deciphered r (p ∷ ps) q d h one =
      elim (some_before-IsOneOf (decrypt_packet (protection c) r p).1 q _ one) [
        | inl made ↦ inl (decrypt_packet_by r p q d h made)
        | inr later ↦ inr (
            decrypt_packets-Deciphered (decrypt_packet (protection c) r p).0 ps q d
              (decrypt_packet_keeps r p q.epoch d h) later)
      ]

  filter_packets-Deciphered :
      (r : RecordLayer (protection c)) (ps : List DtlsPacket) (q : DtlsPacket) (d : Delegate)
      → Deciphered c d q (filter_packets (protection c) r ps)
      → Deciphered c d q ps
  unfolding filter_packets
  filter_packets-Deciphered r [] q d h = h
  filter_packets-Deciphered r (p ∷ ps) q d h = elim (Bool-cases (acceptable (protection c) r p)) [
    | inr dropped ↦ let h' = rw dropped at h in inr (filter_packets-Deciphered r ps q d h')
    | inl kept ↦
        let h' : (suite_decipher c d.suite p d.keys d.end_point ≡ ok q)
            ⊎ Deciphered c d q (filter_packets (protection c) r ps) =
          rw kept at h in
        elim h' [ inl made ↦ inl made | inr later ↦ inr (filter_packets-Deciphered r ps q d later) ]
  ]

-- Every packet that is handed on in an epoch with a decipher is what that decipher made of a packet that
-- came in, whatever else came with it.
pub receive-Deciphered :
    (c : Crypto) (r : RecordLayer (protection c)) (ps : List DtlsPacket) (q : DtlsPacket)
    (d : Delegate)
    → HasDelegate c r q.epoch d
    → IsOneOf q (receive_packets (protection c) r ps).1
    → Deciphered c d q ps
unfolding receive_packets
receive-Deciphered c r ps q d h one =
    filter_packets-Deciphered c r ps q d
      (decrypt_packets-Deciphered c r (filter_packets (protection c) r ps) q d h one)
