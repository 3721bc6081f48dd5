-- ===== src/Handshaker/Verified.antt =====
-- The one way to a finished handshake.
use mathlib.Core.Path.{subst}
use node_dtls_client.Prelude.{
  ℕ, ◌≡◌, ◌≢◌, ◌∙◌, refl, ap, sym, List, [], ◌∷◌, Bool, true, false, Option, none, some, inl, inr,
  Bool-cases, ◌==◌, ==_iff, arith,
}
use node_dtls_client.Errors.{Result, ok, Result-cases}
use node_dtls_client.Convert.{Buffer}
use node_dtls_client.Codec.{Memory}
use node_dtls_client.Fragment.{FragmentedHandshake}
use node_dtls_client.Fragment.Body.{Handshake}
use node_dtls_client.Flight as Incoming
use node_dtls_client.Flight.{last_message}
use node_dtls_client.Crypto.{Crypto}
use node_dtls_client.Block.{server, equals}
use node_dtls_client.Block.Authentic.{equals-eq}
use node_dtls_client.Connection.{need}
use node_dtls_client.Handshaker.{finished_callback, Handler, M, ◌>>=◌, current}
use node_dtls_client.Handshaker.Send.{finished_type, fragment_of, map_result, buffer_handshake_data}
use node_dtls_client.Handshaker.Handle.{
  Options, compute_verify_data, concat, raw_data, finish_handshake, handle_finished, handle,
}
use node_dtls_client.Handshaker.Process.{
  before_handler, try_handle, handle_flight, handle_if_ready, process_incoming_message,
}
use node_dtls_client.Handshaker.QuietHandle.{handle-Quiet}
use node_dtls_client.Handshaker.Quiet.{
  successes, successes-append, Quiet, Quiet-bind, when-Quiet, finish_with_alert-Quiet, buffer-Quiet,
  compute_verify_data-Quiet,
}

abbrev pub Loud : (c : Crypto) {A : Type 0} → M c A → Handler c → Type 0
Loud c m s = successes (m s).0.outputs ≢ successes s.outputs

Loud-bind :
    (c : Crypto) {A B : Type 0} (m : M c A) (f : A → M c B) (s : Handler c)
    → Quiet c m
    → Loud c (m >>= f) s
    → (a : A) × ((m s).1 ≡ ok a) × Loud c (f a) (m s).0
unfolding ◌>>=◌
Loud-bind c m f s q loud = elim (Result-cases (m s).1) [
  | inr (thrown, e) ↦ absurd (loud (rw (e, ◌>>=◌) (q s)))
  | inl (a, e) ↦ (a, e, λ same. loud (rw (e, ◌>>=◌) (same ∙ q s)))
]

Loud-first :
    (c : Crypto) {A B : Type 0} (m : M c A) (f : A → M c B) (s : Handler c)
    → ((a : A) → Quiet c (f a))
    → Loud c (m >>= f) s
    → Loud c m s
unfolding ◌>>=◌
Loud-first c m f s q loud = elim (Result-cases (m s).1) [
  | inr (thrown, e) ↦ λ same. loud (rw (e, ◌>>=◌) same)
  | inl (a, e) ↦ λ same. loud (rw (e, ◌>>=◌) (q a (m s).0 ∙ same))
]

need-ok : {A : Type 0} (o : Option A) (a : A) → need o ≡ ok a → o ≡ some a
need-ok none a h = cc
need-ok (some b) a h = cc

-- The last message is a Finished message whose verify data is what the handler computes from the
-- handshake data that it holds.
pub record IsVerified (c : Crypto) (messages : List Handshake) (s : Handler c) : Type 0 where
  pub message : Handshake
  pub verify_data : Buffer
  pub is_last : last_message messages ≡ some message
  pub carried : raw_data message.body ≡ some verify_data
  pub is_expected :
      (compute_verify_data c (concat s.all_handshake_data) server s).1 ≡ ok verify_data

Loud-current :
    (c : Crypto) {B : Type 0} (f : Handler c → M c B) (s : Handler c)
    → Loud c (current >>= f) s
    → Loud c (f s) s
unfolding ◌>>=◌
Loud-current c f s loud = loud

finish_handshake-true :
    (c : Crypto) (b : Bool) (s : Handler c) → Loud c (finish_handshake c b) s → b ≡ true
unfolding finish_handshake
finish_handshake-true c true s loud = refl
finish_handshake-true c false s loud =
    absurd (loud (Quiet-bind c _ _ (λ s. refl) (λ _. finish_with_alert-Quiet c _ _) s))

handle_finished-IsVerified :
    (c : Crypto) (messages : List Handshake) (s : Handler c)
    → Loud c (handle_finished c messages) s
    → IsVerified c messages s
unfolding handle_finished
handle_finished-IsVerified c messages s loud =
    let (message, is_last, l1) = Loud-bind c _ _ s (λ s. refl) loud in
    let l2 = Loud-current c _ s l1 in
    let (expected, computed, l3) = Loud-bind c _ _ s (compute_verify_data-Quiet c _ server) l2 in
    let (v, carried, l4) = Loud-bind c _ _ _ (λ s. refl) l3 in
    let same = equals-eq v expected (finish_handshake-true c (equals v expected) _ l4) in
    record {
      message = message;
      verify_data = v;
      is_last = need-ok _ message is_last;
      carried = need-ok _ v carried;
      is_expected = computed ∙ ap ok (sym same);
    }

try_handle-Loud :
    (c : Crypto) (m : M c (Unit {0})) (s : Handler c) → Loud c (try_handle c m) s → Loud c m s
unfolding try_handle
try_handle-Loud c m s loud = elim (Result-cases (m s).1) [
  | inl (u, e) ↦ λ same. loud (rw (e, try_handle) same)
  | inr (thrown, e) ↦ λ same. loud (
      rw (e, try_handle)
        (omega (arith, successes-append (m s).0.outputs (finished_callback (some thrown)), same)))
]

finished_type-if-Loud :
    (c : Crypto) (memory : Memory) (options : Options) (type : ℕ) (hs : List Handshake)
    (s : Handler c)
    → Loud c (handle c memory options type hs) s
    → type ≡ finished_type
finished_type-if-Loud c memory options type hs s loud = elim (Bool-cases (type == finished_type)) [
  | inl same ↦ (==_iff type finished_type).0 same
  | inr other ↦ absurd (loud (handle-Quiet c memory options type hs other s))
]

pub handle-finished :
    (c : Crypto) (memory : Memory) (options : Options) (hs : List Handshake)
    → handle c memory options finished_type hs ≡ handle_finished c hs
unfolding handle
handle-finished c memory options hs = refl

-- The messages before the Finished message were remembered, and it carries what they call for.
pub record IsFinishedFlight (c : Crypto) (messages : List Handshake) (s : Handler c) : Type 0 where
  pub last : Handshake
  pub is_last : last_message messages ≡ some last
  pub is_finished : last.msg_type ≡ finished_type
  pub fragments : List FragmentedHandshake
  pub written : map_result fragment_of (before_handler last messages) ≡ ok fragments
  pub verified : IsVerified c messages (buffer_handshake_data c fragments s).0

handle_flight-IsFinishedFlight :
    (c : Crypto) (memory : Memory) (options : Options) (messages : List Handshake) (s : Handler c)
    → Loud c (handle_flight c memory options messages) s
    → IsFinishedFlight c messages s
unfolding handle_flight
handle_flight-IsFinishedFlight c memory options messages s loud =
    let (last, is_last, l1) = Loud-bind c _ _ s (λ s. refl) loud in
    let (fragments, written, l2) = Loud-bind c _ _ s (λ s. refl) l1 in
    let (u, buffered, l3) = Loud-bind c _ _ s (buffer-Quiet c fragments) l2 in
    let s' = (buffer_handshake_data c fragments s).0 in
    let l4 =
      Loud-first c _ _ s'
        (λ b.
          when-Quiet c b _
            (when-Quiet c _ _ (Quiet-bind c _ _ (λ s. refl) (λ f. buffer-Quiet c (f ∷ [])))))
        l3 in
    let l5 = try_handle-Loud c _ s' l4 in
    let type = finished_type-if-Loud c memory options last.msg_type messages s' l5 in
    let same =
      ap (λ t. handle c memory options t messages) type
      ∙ handle-finished c memory options messages in
    record {
      last = last;
      is_last = need-ok _ last is_last;
      is_finished = type;
      fragments = fragments;
      written = written;
      verified =
          handle_finished-IsVerified c messages s'
            (subst (λ (m : M c (Unit {0})). Loud c m s') same l5);
    }

-- A received message makes the handler report a finished handshake only if it completes a flight whose
-- last message is a Finished message, and the verify data in it is what the handler computes for the
-- server from all handshake data up to the message before it.
pub process_incoming_message-IsFinishedFlight :
    (c : Crypto) (memory : Memory) (options : Options) (msg : FragmentedHandshake) (s : Handler c)
    → successes (process_incoming_message c memory options msg s).0.outputs ≢ successes s.outputs
    → let (k, taken) = Incoming.process_incoming_message memory s.collector msg in
      (messages : List Handshake) × (taken ≡ ok (some messages))
      × IsFinishedFlight c messages (record s { collector = k })
unfolding process_incoming_message
process_incoming_message-IsFinishedFlight c memory options msg s loud =
    let (ready, taken, l1) = Loud-bind c _ _ s (λ s. refl) loud in
    ready-cases c memory options ready _ _ taken l1
  where
    ready-cases :
        (c : Crypto) (memory : Memory) (options : Options) (ready : Option (List Handshake))
        (r : Result (Option (List Handshake))) (s : Handler c)
        → r ≡ ok ready
        → Loud c (handle_if_ready c memory options ready) s
        → (messages : List Handshake) × (r ≡ ok (some messages)) × IsFinishedFlight c messages s
    ready-cases c memory options none r s e loud = absurd (loud refl)
    ready-cases c memory options (some messages) r s e loud =
        (messages, e, handle_flight-IsFinishedFlight c memory options messages s loud)
