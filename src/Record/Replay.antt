-- ===== src/Record/Replay.antt =====
-- Packets whose numbers are spent in the window of their epoch.
use mathlib.Core.Path.{subst}
use node_dtls_client.Prelude.{◌≡◌, sym, List, [], ◌∷◌, false, get_elem?-set_self, arith}
use node_dtls_client.Window.{mark_as_received}
use node_dtls_client.Window.Replay.{
  IsWindow, IsSpent, IsSpent-may_receive, mark-IsSpent_self, mark_all-IsSpent, mark-IsWindow,
  mark_all-IsWindow,
}
use node_dtls_client.Record.{Protection, Epoch, RecordLayer, mark_packet, mark_packets, acceptable}
use node_dtls_client.Record.Packet.{DtlsPacket}
use node_dtls_client.Record.Grows.{Grows, Grows-mark, Grows-mark_packet, EpochAt, get_elem?-lt}
use node_dtls_client.Fragment.Sort.{All}

module _ (c : Protection) where
  -- The packet's epoch exists, its window is sound, and its number is spent.
  abbrev pub IsSpentPacket : RecordLayer c → DtlsPacket → Type 0
  IsSpentPacket r p =
      (e : Epoch c) × EpochAt c r p.epoch e
      × IsWindow e.anti_replay_window
      × IsSpent e.anti_replay_window p.sequence_number

  -- The packet's epoch exists, and its window is sound.
  abbrev pub IsKnown : RecordLayer c → DtlsPacket → Type 0
  IsKnown r p = (e : Epoch c) × EpochAt c r p.epoch e × IsWindow e.anti_replay_window

  pub IsSpentPacket-acceptable :
      (r : RecordLayer c) (p : DtlsPacket) → IsSpentPacket r p → acceptable c r p ≡ false
  unfolding acceptable
  IsSpentPacket-acceptable r p (e, at, w, spent) =
      rw (at, acceptable)
        (rw (IsSpent-may_receive e.anti_replay_window p.sequence_number spent) (ground arith))

  pub Grows-IsSpentPacket :
      (r r' : RecordLayer c) (p : DtlsPacket)
      → Grows c r r'
      → IsSpentPacket r p
      → IsSpentPacket r' p
  Grows-IsSpentPacket r r' p g (e, at, w, spent) =
      let (e', at', ((ss, grown), le)) = g.1 p.epoch e at in
      (
        e',
        at',
        rw grown (mark_all-IsWindow e.anti_replay_window ss w),
        subst (λ x. IsSpent x p.sequence_number) (sym grown)
            (mark_all-IsSpent e.anti_replay_window ss p.sequence_number w spent),
      )

  pub Grows-IsKnown :
      (r r' : RecordLayer c) (p : DtlsPacket) → Grows c r r' → IsKnown r p → IsKnown r' p
  Grows-IsKnown r r' p g (e, at, w) =
      let (e', at', ((ss, grown), le)) = g.1 p.epoch e at in
      (e', at', rw grown (mark_all-IsWindow e.anti_replay_window ss w))

  mark_packet-IsSpentPacket :
      (r : RecordLayer c) (p : DtlsPacket) → IsKnown r p → IsSpentPacket (mark_packet c r p) p
  unfolding mark_packet
  mark_packet-IsSpentPacket r p (e, at, w) =
      rw (at, mark_packet)
        (
          record e { anti_replay_window = mark_as_received e.anti_replay_window p.sequence_number },
          get_elem?-set_self r.epochs p.epoch _ (get_elem?-lt r.epochs p.epoch at),
          mark-IsWindow e.anti_replay_window p.sequence_number w,
          mark-IsSpent_self e.anti_replay_window p.sequence_number w,
        )

  pub All-IsKnown :
      (r r' : RecordLayer c) (ps : List DtlsPacket)
      → Grows c r r'
      → All (IsKnown r) ps
      → All (IsKnown r') ps
  All-IsKnown r r' [] g h = tt
  All-IsKnown r r' (p ∷ ps) g (k, h) = (Grows-IsKnown r r' p g k, All-IsKnown r r' ps g h)

  pub mark_packets-All :
      (r : RecordLayer c) (ps : List DtlsPacket)
      → All (IsKnown r) ps
      → All (IsSpentPacket (mark_packets c r ps)) ps
  unfolding mark_packets
  mark_packets-All r [] h = tt
  mark_packets-All r (p ∷ ps) (k, h) = (
    Grows-IsSpentPacket (mark_packet c r p) (mark_packets c (mark_packet c r p) ps) p
        (Grows-mark c (mark_packet c r p) ps) (mark_packet-IsSpentPacket r p k),
    mark_packets-All (mark_packet c r p) ps
        (All-IsKnown r (mark_packet c r p) ps (Grows-mark_packet c r p) h),
  )
