-- ===== src/Handshaker/Process.antt =====
-- `processIncomingMessage` and `renegotiate` of src/DTLS/HandshakeHandler.ts.
use Prim.Native.String.{String}
use node_dtls_client.Prelude.{
  ℕ, ◌-◌, ◌^◌, List, [], ◌∷◌, ◌++◌, Bool, true, false, Option, none, some, ◌==◌, if◌then◌else◌,
}
use node_dtls_client.Errors.{Result, ok, err, type_error}
use node_dtls_client.TypeSpecs.{struct}
use node_dtls_client.Codec.{
  Memory, Value, num, bytes, numbers, structs, object, nil, cons, serialize,
}
use node_dtls_client.Messages.{random}
use node_dtls_client.Fragment.{FragmentedHandshake, keep}
use node_dtls_client.Fragment.Body.{Handshake}
use node_dtls_client.Flight as Incoming
use node_dtls_client.Flight.{last_message}
use node_dtls_client.Record.{RecordLayer}
use node_dtls_client.Crypto.{Crypto}
use node_dtls_client.Suite.Table.{suite_number, cipher_suites}
use node_dtls_client.Connection.{need}
use node_dtls_client.Connection.Protect.{protection}
use node_dtls_client.Handshaker.{
  Handler, M, ◌>>=◌, ◌>>◌, pure, lift, current, modify, finished_callback, state_at, set_state,
  next_epoch,
}
use node_dtls_client.Handshaker.Send.{
  client_hello_type, hello_verify_request_type, server_hello_done_type, finished_type,
  needs_to_hash_message, fragment_of, map_result, buffer_handshake_data, when, send_flight,
}
use node_dtls_client.Handshaker.Handle.{Options, handle}

-- `messages.slice(0, -1)`
abbrev pub without_last : List Handshake → List Handshake
without_last [] = []
without_last (h ∷ []) = []
without_last (h ∷ g ∷ gs) = h ∷ without_last (g ∷ gs)

-- The `try` around the handler: whether nothing was thrown.
unfoldable pub try_handle : (c : Crypto) → M c (Unit {0}) → M c Bool
try_handle c m s =
    let (s', r) = m s in
    elim r [
      | ok u ↦ (s', ok true)
      | err e ↦ (
        record s' {
          is_handshaking = false;
          outputs = s'.outputs ++ finished_callback (some e) ∷ [];
        },
        ok false,
      )
    ]

abbrev pub before_handler : Handshake → List Handshake → List Handshake
before_handler last messages =
    keep needs_to_hash_message
      (if last.msg_type == finished_type then without_last messages else messages)

-- What is done with a flight that is ready. The Finished message is remembered after it is handled.
unfoldable pub handle_flight : (c : Crypto) → Memory → Options → List Handshake → M c (Unit {0})
handle_flight c memory options messages = do
  last ← lift (need (last_message messages))
  fragments ← lift (map_result fragment_of (before_handler last messages))
  buffer_handshake_data c fragments
  handled ← try_handle c (handle c memory options last.msg_type messages)
  when c handled (
      when c (last.msg_type == finished_type)
        (do fragment ← lift (fragment_of last); buffer_handshake_data c (fragment ∷ [])))

abbrev pub handle_if_ready :
    (c : Crypto) → Memory → Options → Option (List Handshake) → M c (Unit {0})
handle_if_ready c memory options none = pure tt
handle_if_ready c memory options (some messages) = handle_flight c memory options messages

-- The collector takes the message, and a flight that is ready goes to its handler.
unfoldable pub process_incoming_message :
    (c : Crypto) → Memory → Options → FragmentedHandshake → M c (Unit {0})
process_incoming_message c memory options msg = do
  ready ← λ s.
      let (k, taken) = Incoming.process_incoming_message memory s.collector msg in
      (record s { collector = k }, taken)
  handle_if_ready c memory options ready

-- The suites that are offered if the options name none.
abbrev pub default_ciphers : List String
default_ciphers =
    "TLS_PSK_WITH_3DES_EDE_CBC_SHA" ∷ "TLS_PSK_WITH_AES_128_CBC_SHA"
    ∷ "TLS_PSK_WITH_AES_256_CBC_SHA" ∷ "TLS_PSK_WITH_AES_128_CBC_SHA256"
    ∷ "TLS_PSK_WITH_AES_256_CBC_SHA384" ∷ "TLS_PSK_WITH_AES_128_GCM_SHA256"
    ∷ "TLS_PSK_WITH_AES_256_GCM_SHA384" ∷ "TLS_PSK_WITH_AES_128_CCM" ∷ "TLS_PSK_WITH_AES_256_CCM"
    ∷ "TLS_PSK_WITH_AES_128_CCM_8" ∷ "TLS_PSK_WITH_AES_256_CCM_8" ∷ []

abbrev pub offered : Option (List String) → List String
offered none = default_ciphers
offered (some names) = names

abbrev pub offered_id : String → Result (Option ℕ)
offered_id name = elim (suite_number name cipher_suites) [
  | none ↦ err type_error
  | some id ↦ ok (some id)
]

-- `Random.createNew()`: the seconds since 1970, and 28 random bytes.
abbrev pub new_random : Crypto → ℕ → ℕ → Value
new_random c seconds draw =
    object (cons (num (some seconds)) (cons (bytes (c.random_bytes draw 28)) nil))

abbrev pub new_client_hello : Value → List (Option ℕ) → Handshake
new_client_hello random ids = record {
  msg_type = client_hello_type;
  message_seq = 0;
  body = object (
      cons (object (cons (num (some (2 ^ 32 - 2))) (cons (num (some (2 ^ 32 - 3))) nil))) (
        cons random (
          cons (bytes []) (
            cons (bytes [])
              (cons (numbers ids) (cons (numbers (some 0 ∷ [])) (cons (structs nil) nil)))))));
}

abbrev pub reset_handshake : {c : Crypto} → Handler c → Handler c
reset_handshake s = record s {
  is_handshaking = true;
  collector = record { next_seq = 0; incomplete = []; complete = []; expected = some [] };
  next_sent = 0;
  all_handshake_data = [];
}

-- `renegotiate`, with the suites that the options name, the time and a random draw.
unfoldable pub renegotiate : (c : Crypto) → Option (List String) → ℕ → ℕ → M c (Unit {0})
renegotiate c ciphers seconds draw = do
  modify reset_handshake
  s ← current
  state ← state_at c (next_epoch s)
  written ← lift (serialize (struct random) (new_random c seconds draw))
  set_state c (next_epoch s) (record state { client_random = some written })
  ids ← lift (map_result offered_id (offered ciphers))
  send_flight c (new_client_hello (new_random c seconds draw) ids ∷ [])
      (server_hello_done_type ∷ hello_verify_request_type ∷ []) false

-- The constructor, before it calls `renegotiate`. Properties that it does not set are undefined.
abbrev pub new_handler : (c : Crypto) → RecordLayer (protection c) → Handler c
new_handler c layer = record {
  layer = layer;
  collector = record { next_seq = 0; incomplete = []; complete = []; expected = some [] };
  is_handshaking = false;
  next_sent = 0;
  last_flight = [];
  all_handshake_data = [];
  buffered_outgoing = [];
  begin_was_called = false;
  outputs = [];
  udp_open = true;
}
