-- ===== src/Record/Grows.antt =====
-- How one state of the record layer comes after another: its epochs, their windows and counters.
use mathlib.Core.Path.{subst}
use node_dtls_client.Prelude.{
  ℕ, zero, suc, ◌+◌, ◌<◌, ◌≤◌, ◌≡◌, ◌∙◌, inl, inr, refl, ap, sym, List, [], ◌∷◌, ◌++◌, some, length,
  ltb, ◌==◌, get_elem?, set, get_elem?-set_self, get_elem?-set_ne, Option-cases, Bool-cases, arith,
}
use native.Mathlib.Decide.{ℕ_discrete}
use node_dtls_client.Errors.{Result, ok, err}
use node_dtls_client.Convert.{Buffer}
use node_dtls_client.Window.{AntiReplayWindow, mark_as_received}
use node_dtls_client.Window.Replay.{mark_all, mark_all-append}
use node_dtls_client.Record.{
  Protection, Epoch, RecordLayer, Message, create_epoch, configure, ensure_next_epoch,
  advance_read_epoch, advance_write_epoch, finish_message, process_outgoing_message, protect,
  plaintext, decrypt_packet, decrypt_packets, mark_packet, mark_packets, filter_packets,
  receive_packets, next_epoch_nr, change_cipher_spec, take_number,
}
use node_dtls_client.Record.Packet.{DtlsPacket}

pub get_elem?-lt {ℓ} :
    {A : Type ℓ} (xs : List A) (i : ℕ) {x : A} → get_elem? xs i ≡ some x → i < length xs
get_elem?-lt [] i h = cc
get_elem?-lt (x ∷ xs) zero h = omega arith
get_elem?-lt (x ∷ xs) (suc i) h = omega (arith, get_elem?-lt xs i h)

pub get_elem?-append {ℓ} :
    {A : Type ℓ} (xs ys : List A) (i : ℕ) {x : A}
    → get_elem? xs i ≡ some x
    → get_elem? (xs ++ ys) i ≡ some x
get_elem?-append [] ys i h = cc
get_elem?-append (x ∷ xs) ys zero h = h
get_elem?-append (x ∷ xs) ys (suc i) h = get_elem?-append xs ys i h

-- The window `w'` is `w` after some marks.
abbrev pub WindowGrows : AntiReplayWindow → AntiReplayWindow → Type 0
WindowGrows w w' = (ss : List ℕ) × (w' ≡ mark_all w ss)

pub WindowGrows-refl : (w : AntiReplayWindow) → WindowGrows w w
unfolding mark_all
WindowGrows-refl w = ([], refl)

pub WindowGrows-trans :
    (u v w : AntiReplayWindow) → WindowGrows u v → WindowGrows v w → WindowGrows u w
WindowGrows-trans u v w (ss, e) (ts, f) =
    (ss ++ ts, f ∙ ap (λ x. mark_all x ts) e ∙ sym (mark_all-append u ss ts))

pub WindowGrows-mark : (w : AntiReplayWindow) (s : ℕ) → WindowGrows w (mark_as_received w s)
unfolding mark_all
WindowGrows-mark w s = (s ∷ [], refl)

module _ (c : Protection) where
  abbrev pub EpochAt : RecordLayer c → ℕ → Epoch c → Type 0
  EpochAt r i e = get_elem? r.epochs i ≡ some e

  -- The epoch `e'` is `e` after some marks and some sent packets.
  abbrev pub EpochGrows : Epoch c → Epoch c → Type 0
  EpochGrows e e' =
      WindowGrows e.anti_replay_window e'.anti_replay_window
      × (e.next_sequence_number ≤ e'.next_sequence_number)

  -- The write epoch never goes back, and each epoch of `r` is in `r'`, grown.
  abbrev pub Grows : RecordLayer c → RecordLayer c → Type 0
  Grows r r' =
      (r.write_epoch_nr ≤ r'.write_epoch_nr)
      × ((i : ℕ) (e : Epoch c) → EpochAt r i e → (e' : Epoch c) × EpochAt r' i e' × EpochGrows e e')

  EpochGrows-refl : (e : Epoch c) → EpochGrows e e
  EpochGrows-refl e = (WindowGrows-refl e.anti_replay_window, omega arith)

  pub Grows-refl : (r : RecordLayer c) → Grows r r
  Grows-refl r = (omega arith, λ i e h. (e, h, EpochGrows-refl e))

  pub Grows-trans : (r s t : RecordLayer c) → Grows r s → Grows s t → Grows r t
  Grows-trans r s t (l, g) (m, h) = (omega arith, both)
    where
      both :
          (i : ℕ) (e : Epoch c) → EpochAt r i e → (e' : Epoch c) × EpochAt t i e' × EpochGrows e e'
      both i e at =
          let (e', at', (grown, le)) = g i e at in
          let (e'', at'', (more, le')) = h i e' at' in
          (
            e'',
            at'',
            (
              WindowGrows-trans e.anti_replay_window e'.anti_replay_window e''.anti_replay_window
                  grown more,
              omega arith,
            ),
          )

  -- Replacing one epoch by one that grew.
  pub Grows-set :
      (r : RecordLayer c) (i : ℕ) (e e' : Epoch c)
      → EpochAt r i e
      → EpochGrows e e'
      → Grows r (record r { epochs = set r.epochs i e' })
  Grows-set r i e e' at grown = (
    omega arith,
    λ j f atj. elim (ℕ_discrete i j) [
      | yes same ↦ (
        e',
        ap (get_elem? (set r.epochs i e')) (sym same)
            ∙ get_elem?-set_self r.epochs i e' (get_elem?-lt r.epochs i at),
        let p : some e ≡ some f = sym at ∙ ap (get_elem? r.epochs) same ∙ atj in
            let q : e ≡ f = cc in subst (λ x. EpochGrows x e') q grown,
      )
      | no other ↦ (f, get_elem?-set_ne r.epochs e' other ∙ atj, EpochGrows-refl f)
    ],
  )

  pub Grows-ensure : (r : RecordLayer c) → Grows r (ensure_next_epoch c r)
  unfolding ensure_next_epoch
  Grows-ensure r = elim (Bool-cases (ltb (next_epoch_nr c r) (length r.epochs))) [
    | inl there ↦ rw there (Grows-refl r)
    | inr missing ↦ rw missing (
      omega arith,
      λ i e at. (
        e,
        get_elem?-append r.epochs (create_epoch c (next_epoch_nr c r) ∷ []) i at,
        EpochGrows-refl e,
      ),
    )
  ]

  pub Grows-configure :
      (r : RecordLayer c) (i : ℕ) (s : c.ConnectionState) → Grows r (configure c r i s)
  unfolding configure
  Grows-configure r i s = elim (Option-cases (get_elem? r.epochs i)) [
    | inl missing ↦ rw (missing, configure) (Grows-refl r)
    | inr (e, at) ↦ rw (at, configure) (Grows-set r i e _ at (EpochGrows-refl e))
  ]

  pub Grows-advance_read : (r : RecordLayer c) → Grows r (advance_read_epoch c r)
  unfolding advance_read_epoch
  Grows-advance_read r = Grows-ensure (record r { read_epoch_nr = r.read_epoch_nr + 1 })

  pub Grows-advance_write : (r : RecordLayer c) → Grows r (advance_write_epoch c r)
  unfolding advance_write_epoch
  Grows-advance_write r =
      let (l, g) = Grows-ensure (record r { write_epoch_nr = r.write_epoch_nr + 1 }) in
      (omega arith, g)

  pub Grows-finish :
      (r : RecordLayer c) (msg : Message) (result : Result Buffer)
      → Grows r (finish_message c r msg result).0
  unfolding finish_message
  Grows-finish r msg (err e) = Grows-refl r
  Grows-finish r msg (ok buf) = elim (Bool-cases (msg.type == change_cipher_spec)) [
    | inl yes' ↦ rw yes' (Grows-advance_write r)
    | inr no' ↦ rw no' (Grows-refl r)
  ]

  pub Grows-process :
      (r : RecordLayer c) (msg : Message) → Grows r (process_outgoing_message c r msg).0
  unfolding process_outgoing_message
  Grows-process r msg = elim (Option-cases (get_elem? r.epochs r.write_epoch_nr)) [
    | inl missing ↦ rw (missing, process_outgoing_message) (Grows-refl r)
    | inr (e, at) ↦
        rw (at, process_outgoing_message)
          (let out = protect c e.connection_state (plaintext c r e msg) in
            Grows-trans r (take_number c r e out.0)
              (finish_message c (take_number c r e out.0) msg out.1).0
              (Grows-set r r.write_epoch_nr e _ at
                (WindowGrows-refl e.anti_replay_window, omega arith))
              (Grows-finish (take_number c r e out.0) msg out.1))
  ]

  pub Grows-decrypt_packet : (r : RecordLayer c) (p : DtlsPacket) → Grows r (decrypt_packet c r p).0
  unfolding decrypt_packet
  Grows-decrypt_packet r p = elim (Option-cases (get_elem? r.epochs p.epoch)) [
    | inl missing ↦ rw (missing, decrypt_packet) (Grows-refl r)
    | inr (e, at) ↦ rw (at, decrypt_packet) (Grows-set r p.epoch e _ at (EpochGrows-refl e))
  ]

  pub Grows-decrypt :
      (r : RecordLayer c) (ps : List DtlsPacket) → Grows r (decrypt_packets c r ps).0
  unfolding decrypt_packets
  Grows-decrypt r [] = Grows-refl r
  Grows-decrypt r (p ∷ ps) =
      Grows-trans r (decrypt_packet c r p).0 (decrypt_packets c (decrypt_packet c r p).0 ps).0
        (Grows-decrypt_packet r p) (Grows-decrypt (decrypt_packet c r p).0 ps)

  pub Grows-mark_packet : (r : RecordLayer c) (p : DtlsPacket) → Grows r (mark_packet c r p)
  unfolding mark_packet
  Grows-mark_packet r p = elim (Option-cases (get_elem? r.epochs p.epoch)) [
    | inl missing ↦ rw (missing, mark_packet) (Grows-refl r)
    | inr (e, at) ↦
        rw (at, mark_packet)
          (Grows-set r p.epoch e _ at
            (WindowGrows-mark e.anti_replay_window p.sequence_number, omega arith))
  ]

  pub Grows-mark : (r : RecordLayer c) (ps : List DtlsPacket) → Grows r (mark_packets c r ps)
  unfolding mark_packets
  Grows-mark r [] = Grows-refl r
  Grows-mark r (p ∷ ps) =
      Grows-trans r (mark_packet c r p) (mark_packets c (mark_packet c r p) ps)
        (Grows-mark_packet r p) (Grows-mark (mark_packet c r p) ps)

  pub Grows-receive :
      (r : RecordLayer c) (ps : List DtlsPacket) → Grows r (receive_packets c r ps).0
  unfolding receive_packets
  Grows-receive r ps =
      let out = decrypt_packets c r (filter_packets c r ps) in
      Grows-trans r out.0 (mark_packets c out.0 out.1) (Grows-decrypt r (filter_packets c r ps))
        (Grows-mark out.0 out.1)
