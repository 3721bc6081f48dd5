-- ===== src/Handshaker/QuietHandle.antt =====
-- The handlers that report nothing.
use node_dtls_client.Prelude.{
  ℕ, ◌≡◌, refl, List, [], ◌∷◌, Bool, true, false, inl, inr, Option-cases, ◌==◌, if◌then◌else◌,
  get_elem?,
}
use node_dtls_client.Codec.{Memory}
use node_dtls_client.Fragment.Body.{Handshake}
use node_dtls_client.Crypto.{Crypto}
use node_dtls_client.Connection.{ConnectionState}
use node_dtls_client.Handshaker.{M, next_epoch}
use node_dtls_client.Handshaker.Send.{
  server_hello_type, server_key_exchange_type, server_hello_done_type, hello_verify_request_type,
  finished_type,
}
use node_dtls_client.Handshaker.Handle.{
  Options, is_psk, reset_read_window, handle_hello_verify_request, set_version, handle_server_hello,
  handle_server_key_exchange, exchange_psk, answer, handle_server_hello_done, handle_server_message,
  handle_server_messages, handle,
}
use node_dtls_client.Handshaker.Quiet.{
  Quiet, Quiet-bind, state_at-Quiet, when-Quiet, finish_with_alert-Quiet, send_flight-Quiet,
  send_finished-Quiet,
}

reset-Quiet : (c : Crypto) → Quiet c (reset_read_window c)
unfolding reset_read_window
reset-Quiet c s = elim (Option-cases (get_elem? s.layer.epochs s.layer.read_epoch_nr)) [
  | inl e ↦ rw (e, reset_read_window) refl
  | inr (a, e) ↦ rw (e, reset_read_window) refl
]

hello_verify-Quiet :
    (c : Crypto) (options : Options) (messages : List Handshake)
    → Quiet c (handle_hello_verify_request c options messages)
unfolding handle_hello_verify_request
hello_verify-Quiet c options messages =
    Quiet-bind c _ _ (λ s. refl)
      (λ request.
        Quiet-bind c _ _ (λ s. refl)
          (λ s.
            Quiet-bind c _ _ (λ s. refl)
              (λ hello.
                Quiet-bind c _ _ (λ s. refl)
                  (λ cookie.
                    Quiet-bind c _ _ (λ s. refl)
                      (λ _.
                        Quiet-bind c _ _ (when-Quiet c _ _ (reset-Quiet c))
                          (λ _. send_flight-Quiet c _ _ false))))))

set_version-Quiet : (c : Crypto) (i : ℕ) (version : _) → Quiet c (set_version c i version)
unfolding set_version
set_version-Quiet c i version = Quiet-bind c _ _ (state_at-Quiet c i) (λ state s. refl)

server_hello-Quiet : (c : Crypto) (h : Handshake) → Quiet c (handle_server_hello c h)
unfolding handle_server_hello
server_hello-Quiet c h =
    Quiet-bind c _ _ (λ s. refl)
      (λ hello.
        Quiet-bind c _ _ (λ s. refl)
          (λ s. Quiet-bind c _ _ (state_at-Quiet c (next_epoch s)) (λ state.
            Quiet-bind c _ _ (λ s. refl)
              (λ written.
                Quiet-bind c _ _ (λ s. refl)
                  (λ _.
                    Quiet-bind c _ _ (set_version-Quiet c _ _) (λ _. set_version-Quiet c _ _))))))

key_exchange-Quiet :
    (c : Crypto) (memory : Memory) (h : Handshake) → Quiet c (handle_server_key_exchange c memory h)
unfolding handle_server_key_exchange
key_exchange-Quiet c memory h =
    Quiet-bind c _ _ (λ s. refl)
      (λ s. Quiet-bind c _ _ (state_at-Quiet c (next_epoch s)) (λ state.
        Quiet-bind c _ _ (λ s. refl)
          (λ suite.
            when-Quiet c (is_psk suite.key_exchange) _ (
              Quiet-bind c _ _ (λ s. refl)
                (λ raw. Quiet-bind c _ _ (λ s. refl) (λ hint s. refl))))))

exchange-Quiet :
    (c : Crypto) (options : Options) (state : ConnectionState) (i : ℕ)
    → Quiet c (exchange_psk c options state i)
unfolding exchange_psk
exchange-Quiet c options state i =
    Quiet-bind c _ _ (λ s. refl)
      (λ pair.
        Quiet-bind c _ _ (λ s. refl)
          (λ raw.
            Quiet-bind c _ _ (λ s. refl)
              (λ state'. Quiet-bind c _ _ (λ s. refl) (λ _. send_finished-Quiet c _))))

if-Quiet :
    (c : Crypto) {A : Type 0} (b : Bool) (m n : M c A)
    → Quiet c m
    → Quiet c n
    → Quiet c (if b then m else n)
if-Quiet c true m n q r s = q s
if-Quiet c false m n q r s = r s

answer-Quiet :
    (c : Crypto) (options : Options) (state : ConnectionState) (i : ℕ) (b : Bool)
    → Quiet c (answer c options state i b)
unfolding answer
answer-Quiet c options state i true =
    Quiet-bind c _ _ (exchange-Quiet c options state i) (λ _ s. refl)
answer-Quiet c options state i false =
    Quiet-bind c _ _ (finish_with_alert-Quiet c _ _) (λ _ s. refl)

hello_done-Quiet : (c : Crypto) (options : Options) → Quiet c (handle_server_hello_done c options)
unfolding handle_server_hello_done
hello_done-Quiet c options =
    Quiet-bind c _ _ (λ s. refl)
      (λ s. Quiet-bind c _ _ (state_at-Quiet c (next_epoch s)) (λ state.
        Quiet-bind c _ _ (λ s. refl)
          (λ suite. answer-Quiet c options state (next_epoch s) (is_psk suite.key_exchange))))

server_message-Quiet :
    (c : Crypto) (memory : Memory) (options : Options) (h : Handshake)
    → Quiet c (handle_server_message c memory options h)
unfolding handle_server_message
server_message-Quiet c memory options h =
    if-Quiet c (h.msg_type == server_hello_type) _ _
      (Quiet-bind c _ _ (server_hello-Quiet c h) (λ _ s. refl))
      (if-Quiet c (h.msg_type == server_key_exchange_type) _ _
        (Quiet-bind c _ _ (key_exchange-Quiet c memory h) (λ _ s. refl))
        (if-Quiet c (h.msg_type == server_hello_done_type) _ _ (hello_done-Quiet c options)
          (λ s. refl)))

server_messages-Quiet :
    (c : Crypto) (memory : Memory) (options : Options) (hs : List Handshake)
    → Quiet c (handle_server_messages c memory options hs)
unfolding handle_server_messages
server_messages-Quiet c memory options [] s = refl
server_messages-Quiet c memory options (h ∷ hs) s =
    Quiet-bind c _ _ (server_message-Quiet c memory options h)
      (λ b. when-Quiet c b _ (server_messages-Quiet c memory options hs)) s

-- Every handler but that of a Finished flight.
pub handle-Quiet :
    (c : Crypto) (memory : Memory) (options : Options) (type : ℕ) (hs : List Handshake)
    → (type == finished_type) ≡ false
    → Quiet c (handle c memory options type hs)
unfolding handle
handle-Quiet c memory options type hs other =
    if-Quiet c (type == hello_verify_request_type) _ _ (hello_verify-Quiet c options hs) (
      if-Quiet c (type == server_hello_done_type) _ _ (server_messages-Quiet c memory options hs)
        (λ s. rw other refl))
