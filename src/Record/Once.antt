-- ===== src/Record/Once.antt =====
-- Runs of the record layer, and what becomes of the packets that were delivered.
use mathlib.Core.Path.{subst}
use node_dtls_client.Prelude.{
  ℕ, get_elem?-set_self, ◌≡◌, ◌∙◌, inl, inr, refl, sym, List, [], ◌∷◌, true, false, none, some,
  get_elem?, Option-cases, Bool-cases,
}
use node_dtls_client.Window.Replay.{IsWindow}
use node_dtls_client.Record.{
  Protection, Epoch, RecordLayer, Message, advance_read_epoch, advance_write_epoch, configure,
  process_outgoing_message, decrypt_packet, decrypt_packets, mark_packets, filter_packets,
  receive_packets, acceptable, new_record_layer,
}
use node_dtls_client.Record.Packet.{DtlsPacket}
use node_dtls_client.Record.Grows.{
  Grows, Grows-trans, Grows-refl, Grows-receive, Grows-process, Grows-advance_read,
  Grows-advance_write, Grows-configure, Grows-decrypt, Grows-decrypt_packet, EpochAt, get_elem?-lt,
}
use node_dtls_client.Record.Invariant.{
  IsLayer, IsWindow-at, new-IsLayer, process-IsLayer, receive-IsLayer, advance_read-IsLayer,
  advance_write-IsLayer, configure-IsLayer,
}
use node_dtls_client.Record.Replay.{
  IsSpentPacket, IsKnown, IsSpentPacket-acceptable, Grows-IsSpentPacket, Grows-IsKnown, All-IsKnown,
  mark_packets-All,
}
use node_dtls_client.Fragment.Sort.{All}

module _ (c : Protection) where
  -- One call of an operation of the record layer, or a change of a connection state. That the handshake
  -- handler replaces a window for `resetAntiReplayWindowBeforeServerHello` is not among the steps.
  pub data Step : RecordLayer c → RecordLayer c → Type 0 where
    receive_step : (r : RecordLayer c) (ps : List DtlsPacket) → Step r (receive_packets c r ps).0
    send_step : (r : RecordLayer c) (msg : Message) → Step r (process_outgoing_message c r msg).0
    read_step : (r : RecordLayer c) → Step r (advance_read_epoch c r)
    write_step : (r : RecordLayer c) → Step r (advance_write_epoch c r)
    configure_step :
        (r : RecordLayer c) (i : ℕ) (s : c.ConnectionState) → Step r (configure c r i s)

  pub data Reach (r : RecordLayer c) : RecordLayer c → Type 0 where
    here : Reach r r
    next : {s t : RecordLayer c} → Reach r s → Step s t → Reach r t

  Step-Grows : {r s : RecordLayer c} → Step r s → Grows c r s
  Step-Grows (receive_step r ps) = Grows-receive c r ps
  Step-Grows (send_step r msg) = Grows-process c r msg
  Step-Grows (read_step r) = Grows-advance_read c r
  Step-Grows (write_step r) = Grows-advance_write c r
  Step-Grows (configure_step r i s) = Grows-configure c r i s

  pub Reach-Grows : {r s : RecordLayer c} → Reach r s → Grows c r s
  Reach-Grows {r} here = Grows-refl c r
  Reach-Grows {r} (next {s} {t} p q) = Grows-trans c r s t (Reach-Grows p) (Step-Grows q)

  Step-IsLayer : {r s : RecordLayer c} → Step r s → IsLayer c r → IsLayer c s
  Step-IsLayer (receive_step r ps) h = receive-IsLayer c r ps h
  Step-IsLayer (send_step r msg) h = process-IsLayer c r msg h
  Step-IsLayer (read_step r) h = advance_read-IsLayer c r h
  Step-IsLayer (write_step r) h = advance_write-IsLayer c r h
  Step-IsLayer (configure_step r i s) h = configure-IsLayer c r i s h

  Reach-keeps : {r s : RecordLayer c} → IsLayer c r → Reach r s → IsLayer c s
  Reach-keeps h here = h
  Reach-keeps h (next p q) = Step-IsLayer q (Reach-keeps h p)

  -- From the constructor on, whatever is received and sent, every window is sound and the epoch
  -- after the current ones exists.
  pub Reach-IsLayer : {s : RecordLayer c} → Reach (new_record_layer c) s → IsLayer c s
  Reach-IsLayer p = Reach-keeps (new-IsLayer c) p

  missing-acceptable :
      (r : RecordLayer c) (p : DtlsPacket)
      → get_elem? r.epochs p.epoch ≡ none
      → acceptable c r p ≡ false
  unfolding acceptable
  missing-acceptable r p missing = rw (missing, acceptable) refl

  acceptable-IsKnown :
      (r : RecordLayer c) (p : DtlsPacket) → IsLayer c r → acceptable c r p ≡ true → IsKnown c r p
  acceptable-IsKnown r p h yes' = elim (Option-cases (get_elem? r.epochs p.epoch)) [
    | inl missing ↦ let no' = missing-acceptable r p missing in cc
    | inr (e, at) ↦ (e, at, IsWindow-at c r p.epoch e h at)
  ]

  filter-All :
      (r : RecordLayer c) (ps : List DtlsPacket)
      → IsLayer c r
      → All (IsKnown c r) (filter_packets c r ps)
  unfolding filter_packets
  filter-All r [] h = tt
  filter-All r (p ∷ ps) h = elim (Bool-cases (acceptable c r p)) [
    | inl yes' ↦ rw yes' (acceptable-IsKnown r p h yes', filter-All r ps h)
    | inr no' ↦ rw no' (filter-All r ps h)
  ]

  decrypt_packet-at :
      (r : RecordLayer c) (p : DtlsPacket) (e : Epoch c)
      → EpochAt c r p.epoch e
      → (decrypt_packet c r p).1 ≡ (c.decrypt e.connection_state p).1
  unfolding decrypt_packet
  decrypt_packet-at r p e at = rw (at, decrypt_packet) refl

  -- A deciphered packet has the header of the packet that came in.
  decrypt_packet-IsKnown :
      (r : RecordLayer c) (p q : DtlsPacket)
      → IsKnown c r p
      → (decrypt_packet c r p).1 ≡ some q
      → IsKnown c (decrypt_packet c r p).0 q
  decrypt_packet-IsKnown r p q (e, at, w) out =
      let here' : (c.decrypt e.connection_state p).1 ≡ some q =
        sym (decrypt_packet-at r p e at) ∙ out in
      let same = c.decrypt_header e.connection_state p q here' in
      subst
        (λ (i : ℕ).
          (e' : Epoch c) × EpochAt c (decrypt_packet c r p).0 i e' × IsWindow e'.anti_replay_window)
        (sym same.0)
        (Grows-IsKnown c r (decrypt_packet c r p).0 p (Grows-decrypt_packet c r p) (e, at, w))

  decrypt_packets-All :
      (r : RecordLayer c) (ps : List DtlsPacket)
      → All (IsKnown c r) ps
      → All (IsKnown c (decrypt_packets c r ps).0) (decrypt_packets c r ps).1
  unfolding decrypt_packets
  decrypt_packets-All r [] h = tt
  decrypt_packets-All r (p ∷ ps) (k, h) =
      let r' = (decrypt_packet c r p).0 in
      let rest = decrypt_packets-All r' ps (All-IsKnown c r r' ps (Grows-decrypt_packet c r p) h) in
      elim (Option-cases (decrypt_packet c r p).1) [
        | inl failed ↦ rw failed rest
        | inr (q, out) ↦ rw out (
          Grows-IsKnown c r' (decrypt_packets c r' ps).0 q (Grows-decrypt c r' ps)
              (decrypt_packet-IsKnown r p q k out),
          rest,
        )
      ]

  spent-later :
      (r s : RecordLayer c) (ps : List DtlsPacket)
      → Grows c r s
      → All (IsSpentPacket c r) ps
      → All (λ p. acceptable c s p ≡ false) ps
  spent-later r s [] g h = tt
  spent-later r s (p ∷ ps) g (k, h) =
      (IsSpentPacket-acceptable c s p (Grows-IsSpentPacket c r s p g k), spent-later r s ps g h)

  -- A packet that a datagram delivered is refused by the filter of every later datagram, whatever
  -- the layer received and sent in between and whatever epochs it switched to. The layer that gets
  -- the datagram is any that meets the invariant.
  pub receive-once :
      (r : RecordLayer c) (ps : List DtlsPacket) (s : RecordLayer c)
      → IsLayer c r
      → Reach (receive_packets c r ps).0 s
      → All (λ p. acceptable c s p ≡ false) (receive_packets c r ps).1
  unfolding receive_packets
  receive-once r ps s h later =
      let out = decrypt_packets c r (filter_packets c r ps) in
      spent-later (mark_packets c out.0 out.1) s out.1 (Reach-Grows later) (
        mark_packets-All c out.0 out.1
          (decrypt_packets-All r (filter_packets c r ps) (filter-All r ps h)))

  state-after :
      (r : RecordLayer c) (p : DtlsPacket) (e : Epoch c)
      → EpochAt c r p.epoch e
      → EpochAt c
          (decrypt_packet c r p).0
          p.epoch
          (record e { connection_state = (c.decrypt e.connection_state p).0 })
  unfolding decrypt_packet
  state-after r p e at =
      rw (at, decrypt_packet)
        (get_elem?-set_self r.epochs p.epoch _ (get_elem?-lt r.epochs p.epoch at))

  -- A datagram that holds the same record twice delivers it twice: both copies pass the filter before
  -- either is marked. The record is acceptable, and the connection state of its epoch deciphers it, once
  -- and again.
  pub receive_packets_twice :
      (r : RecordLayer c) (p q : DtlsPacket) (e : Epoch c)
      → acceptable c r p ≡ true
      → EpochAt c r p.epoch e
      → (c.decrypt e.connection_state p).1 ≡ some q
      → (c.decrypt (c.decrypt e.connection_state p).0 p).1 ≡ some q
      → (receive_packets c r (p ∷ p ∷ [])).1 ≡ q ∷ q ∷ []
  unfolding receive_packets filter_packets decrypt_packets
  receive_packets_twice r p q e yes' at opens again =
      let after : Epoch c = record e { connection_state = (c.decrypt e.connection_state p).0 } in
      let second = decrypt_packet-at (decrypt_packet c r p).0 p after (state-after r p e at) in
      rw (yes', decrypt_packet-at r p e at, opens, second, again) refl
