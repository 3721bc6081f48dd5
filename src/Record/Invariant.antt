-- ===== src/Record/Invariant.antt =====
-- The invariant of the record layer: sound windows, and always a next epoch to switch to.
use node_dtls_client.Prelude.{
  ℕ, zero, suc, ◌+◌, ◌≤◌, ◌<◌, ◌≡◌, inl, inr, List, [], ◌∷◌, ◌++◌, some, length, max, ltb, ◌==◌,
  get_elem?, set, length-set, length-append, Option-cases, Bool-cases, arith, ltb→lt,
}
use node_dtls_client.Errors.{Result, ok, err}
use node_dtls_client.Convert.{Buffer}
use node_dtls_client.Window.Replay.{IsWindow, mark-IsWindow, reset-IsWindow}
use node_dtls_client.Record.{
  Protection, Epoch, RecordLayer, Message, advance_read_epoch, advance_write_epoch, configure,
  process_outgoing_message, finish_message, protect, plaintext, ensure_next_epoch, next_epoch_nr,
  change_cipher_spec, take_number, decrypt_packet, decrypt_packets, mark_packet, mark_packets,
  filter_packets, receive_packets, new_record_layer, create_epoch,
}
use node_dtls_client.Record.Packet.{DtlsPacket}
use node_dtls_client.Record.Grows.{EpochAt}
use node_dtls_client.Fragment.Sort.{All}

All-set :
    {A : Type 0} (P : A → Type 0) (xs : List A) (i : ℕ) (x : A)
    → All P xs
    → P x
    → All P (set xs i x)
All-set P [] i x h p = tt
All-set P (y ∷ ys) zero x (q, h) p = (p, h)
All-set P (y ∷ ys) (suc i) x (q, h) p = (q, All-set P ys i x h p)

All-append : {A : Type 0} (P : A → Type 0) (xs ys : List A) → All P xs → All P ys → All P (xs ++ ys)
All-append P [] ys h k = k
All-append P (x ∷ xs) ys (p, h) k = (p, All-append P xs ys h k)

All-get :
    {A : Type 0} (P : A → Type 0) (xs : List A) (i : ℕ) (x : A)
    → All P xs
    → get_elem? xs i ≡ some x
    → P x
All-get P [] i x h e = cc
All-get P (y ∷ ys) zero x (p, h) e = let same : y ≡ x = cc in rw (← same) p
All-get P (y ∷ ys) (suc i) x (p, h) e = All-get P ys i x h e

module _ (c : Protection) where
  -- The windows are sound, and the epoch after both the read and the write epoch exists.
  pub record IsLayer (r : RecordLayer c) : Type 0 where
    pub windows : All (λ (e : Epoch c). IsWindow e.anti_replay_window) r.epochs
    pub room : max r.read_epoch_nr r.write_epoch_nr + 1 < length r.epochs

  -- The layer that the constructor makes meets the invariant.
  pub new-IsLayer : IsLayer (new_record_layer c)
  unfolding new_record_layer
  new-IsLayer = record { windows = (reset-IsWindow, (reset-IsWindow, tt)); room = omega arith }

  ensure-IsLayer :
      (r : RecordLayer c)
      → All (λ (e : Epoch c). IsWindow e.anti_replay_window) r.epochs
      → max r.read_epoch_nr r.write_epoch_nr + 1 ≤ length r.epochs
      → IsLayer (ensure_next_epoch c r)
  unfolding ensure_next_epoch
  ensure-IsLayer r windows room = elim (Bool-cases (ltb (next_epoch_nr c r) (length r.epochs))) [
    | inl there ↦ rw there (record { windows = windows; room = ltb→lt _ _ there })
    | inr missing ↦ rw missing (record {
      windows =
          All-append (λ (e : Epoch c). IsWindow e.anti_replay_window) r.epochs
            (create_epoch c (next_epoch_nr c r) ∷ []) windows (reset-IsWindow, tt);
      room = omega (arith, length-append r.epochs (create_epoch c (next_epoch_nr c r) ∷ []));
    })
  ]

  pub advance_read-IsLayer : (r : RecordLayer c) → IsLayer r → IsLayer (advance_read_epoch c r)
  unfolding advance_read_epoch
  advance_read-IsLayer r h =
      ensure-IsLayer (record r { read_epoch_nr = r.read_epoch_nr + 1 }) h.windows
        (omega (arith, h.room))

  pub advance_write-IsLayer : (r : RecordLayer c) → IsLayer r → IsLayer (advance_write_epoch c r)
  unfolding advance_write_epoch
  advance_write-IsLayer r h =
      ensure-IsLayer (record r { write_epoch_nr = r.write_epoch_nr + 1 }) h.windows
        (omega (arith, h.room))

  set-IsLayer :
      (r : RecordLayer c) (i : ℕ) (e : Epoch c)
      → IsLayer r
      → IsWindow e.anti_replay_window
      → IsLayer (record r { epochs = set r.epochs i e })
  set-IsLayer r i e h w = record {
    windows = All-set (λ (e : Epoch c). IsWindow e.anti_replay_window) r.epochs i e h.windows w;
    room = omega (arith, h.room, length-set r.epochs i e);
  }

  pub IsWindow-at :
      (r : RecordLayer c) (i : ℕ) (e : Epoch c)
      → IsLayer r
      → EpochAt c r i e
      → IsWindow e.anti_replay_window
  IsWindow-at r i e h at =
      All-get (λ (e : Epoch c). IsWindow e.anti_replay_window) r.epochs i e h.windows at

  pub configure-IsLayer :
      (r : RecordLayer c) (i : ℕ) (s : c.ConnectionState) → IsLayer r → IsLayer (configure c r i s)
  unfolding configure
  configure-IsLayer r i s h = elim (Option-cases (get_elem? r.epochs i)) [
    | inl missing ↦ rw (missing, configure) h
    | inr (e, at) ↦ rw (at, configure) (set-IsLayer r i _ h (IsWindow-at r i e h at))
  ]

  finish-IsLayer :
      (r : RecordLayer c) (msg : Message) (result : Result Buffer)
      → IsLayer r
      → IsLayer (finish_message c r msg result).0
  unfolding finish_message
  finish-IsLayer r msg (err e) h = h
  finish-IsLayer r msg (ok buf) h = elim (Bool-cases (msg.type == change_cipher_spec)) [
    | inl yes' ↦ rw yes' (advance_write-IsLayer r h)
    | inr no' ↦ rw no' h
  ]

  pub process-IsLayer :
      (r : RecordLayer c) (msg : Message) → IsLayer r → IsLayer (process_outgoing_message c r msg).0
  unfolding process_outgoing_message
  process-IsLayer r msg h = elim (Option-cases (get_elem? r.epochs r.write_epoch_nr)) [
    | inl missing ↦ rw (missing, process_outgoing_message) h
    | inr (e, at) ↦
        let out = protect c e.connection_state (plaintext c r e msg) in
        rw (at, process_outgoing_message)
          (finish-IsLayer (take_number c r e out.0) msg out.1
            (set-IsLayer r r.write_epoch_nr _ h (IsWindow-at r r.write_epoch_nr e h at)))
  ]

  decrypt_packet-IsLayer :
      (r : RecordLayer c) (p : DtlsPacket) → IsLayer r → IsLayer (decrypt_packet c r p).0
  unfolding decrypt_packet
  decrypt_packet-IsLayer r p h = elim (Option-cases (get_elem? r.epochs p.epoch)) [
    | inl missing ↦ rw (missing, decrypt_packet) h
    | inr (e, at) ↦
        rw (at, decrypt_packet) (set-IsLayer r p.epoch _ h (IsWindow-at r p.epoch e h at))
  ]

  pub decrypt-IsLayer :
      (r : RecordLayer c) (ps : List DtlsPacket) → IsLayer r → IsLayer (decrypt_packets c r ps).0
  unfolding decrypt_packets
  decrypt-IsLayer r [] h = h
  decrypt-IsLayer r (p ∷ ps) h =
      decrypt-IsLayer (decrypt_packet c r p).0 ps (decrypt_packet-IsLayer r p h)

  mark_packet-IsLayer :
      (r : RecordLayer c) (p : DtlsPacket) → IsLayer r → IsLayer (mark_packet c r p)
  unfolding mark_packet
  mark_packet-IsLayer r p h = elim (Option-cases (get_elem? r.epochs p.epoch)) [
    | inl missing ↦ rw (missing, mark_packet) h
    | inr (e, at) ↦
        rw (at, mark_packet)
          (set-IsLayer r p.epoch _ h
            (mark-IsWindow e.anti_replay_window p.sequence_number (IsWindow-at r p.epoch e h at)))
  ]

  mark-IsLayer :
      (r : RecordLayer c) (ps : List DtlsPacket) → IsLayer r → IsLayer (mark_packets c r ps)
  unfolding mark_packets
  mark-IsLayer r [] h = h
  mark-IsLayer r (p ∷ ps) h = mark-IsLayer (mark_packet c r p) ps (mark_packet-IsLayer r p h)

  pub receive-IsLayer :
      (r : RecordLayer c) (ps : List DtlsPacket) → IsLayer r → IsLayer (receive_packets c r ps).0
  unfolding receive_packets
  receive-IsLayer r ps h =
      let out = decrypt_packets c r (filter_packets c r ps) in
      mark-IsLayer out.0 out.1 (decrypt-IsLayer r (filter_packets c r ps) h)
