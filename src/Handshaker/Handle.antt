-- ===== src/Handshaker/Handle.antt =====
-- The handlers of flights, `handle` of src/DTLS/HandshakeHandler.ts, and `computeVerifyData`.
use node_dtls_client.Prelude.{
  ℕ, ◌+◌, List, [], ◌∷◌, ◌++◌, Bool, true, false, Option, none, some, ◌==◌, if◌then◌else◌,
  get_elem?, set,
}
use node_dtls_client.Errors.{
  Error, ok, err, type_error, key_exchange_not_implemented, handshake_failed,
}
use node_dtls_client.Convert.{Buffer, Number, to_pattern}
use node_dtls_client.TypeSpecs.{struct}
use node_dtls_client.Codec.{Memory, Value, num, bytes, object, nil, cons, serialize, deserialize}
use node_dtls_client.Messages.{
  alert as alert_fields, random, server_key_exchange_psk, client_key_exchange_psk,
}
use node_dtls_client.Window.{reset}
use node_dtls_client.Fragment.Body.{Handshake}
use node_dtls_client.Flight.{last_message}
use node_dtls_client.Record.{RecordLayer, process_outgoing_message}
use node_dtls_client.Record.Packet.{ProtocolVersion}
use node_dtls_client.Keys.{prf}
use node_dtls_client.Crypto.{Crypto}
use node_dtls_client.Block.{ConnectionEnd, server, client, equals}
use node_dtls_client.Suite.{KeyExchangeAlgorithm, psk, CipherSuite}
use node_dtls_client.Suite.Table.{suite_of_id}
use node_dtls_client.Connection.{ConnectionState, need, psk_secret, compute_master_secret}
use node_dtls_client.Connection.Protect.{protection}
use node_dtls_client.Handshaker.{
  Alert, Handler, M, ◌>>=◌, ◌>>◌, pure, lift, current, modify, output, alert_datagram,
  finished_callback, state_at, set_state, next_epoch,
}
use node_dtls_client.Handshaker.Send.{
  server_hello_type, server_key_exchange_type, server_hello_done_type, hello_verify_request_type,
  client_key_exchange_type, finished_type, when, send_flight, send_flight_begin,
  send_flight_process_partial, send_flight_finish,
}

-- What the handler reads of `dtls.Options`. `psk_table` has the identities and the keys as bytes, in
-- the order of `Object.keys`.
pub record Options : Type 0 where
  pub psk_table : List (Buffer × Buffer)
  pub reset_window_before_server_hello : Bool

-- `ContentType.alert`
abbrev pub alert_content : ℕ
alert_content = 21

-- "client finished" and "server finished" in ASCII.
abbrev pub finished_label : ConnectionEnd → Buffer
finished_label client =
    99 ∷ 108 ∷ 105 ∷ 101 ∷ 110 ∷ 116 ∷ 32 ∷ 102 ∷ 105 ∷ 110 ∷ 105 ∷ 115 ∷ 104 ∷ 101 ∷ 100 ∷ []
finished_label server =
    115 ∷ 101 ∷ 114 ∷ 118 ∷ 101 ∷ 114 ∷ 32 ∷ 102 ∷ 105 ∷ 110 ∷ 105 ∷ 115 ∷ 104 ∷ 101 ∷ 100 ∷ []

abbrev pub verifying_epoch : {c : Crypto} → ConnectionEnd → Handler c → ℕ
verifying_epoch client s = s.layer.write_epoch_nr + 1
verifying_epoch server s = s.layer.read_epoch_nr

unfoldable pub compute_verify_data : (c : Crypto) → Buffer → ConnectionEnd → M c Buffer
compute_verify_data c handshake_messages source = do
  s ← current
  state ← state_at c (verifying_epoch source s)
  suite ← lift (need state.cipher_suite)
  hash ← lift (need suite.prf_algorithm)
  master_secret ← lift (need state.master_secret)
  pure (
      prf (c.hmac hash) master_secret (finished_label source) (c.hash hash handshake_messages)
        suite.verify_data_length)

abbrev pub concat : List Buffer → Buffer
concat [] = []
concat (b ∷ bs) = b ++ concat bs

abbrev pub head {ℓ} : {A : Type ℓ} → List A → Option A
head [] = none
head (x ∷ xs) = some x

abbrev pub request_cookie : Value → Option Value
request_cookie (object (cons version (cons cookie rest))) = some cookie
request_cookie _ = none

-- `hello.cookie = cookie`
abbrev pub with_cookie : Value → Value → Value
with_cookie cookie (object (cons version (cons random (cons session_id (cons old rest))))) =
    object (cons version (cons random (cons session_id (cons cookie rest))))
with_cookie cookie v = v

unfoldable pub reset_read_window : (c : Crypto) → M c (Unit {0})
reset_read_window c s = elim (get_elem? s.layer.epochs s.layer.read_epoch_nr) [
  | none ↦ (s, err type_error)
  | some e ↦
      let layer' : RecordLayer (protection c) = record s.layer {
        epochs = set s.layer.epochs s.layer.read_epoch_nr (record e { anti_replay_window = reset });
      } in
      (record s { layer = layer' }, ok tt)
]

unfoldable pub handle_hello_verify_request :
    (c : Crypto) → Options → List Handshake → M c (Unit {0})
handle_hello_verify_request c options messages = do
  request ← lift (need (last_message messages))
  s ← current
  hello ← lift (need (head s.last_flight))
  cookie ← lift (need (request_cookie request.body))
  let hello' : Handshake = record hello { body = with_cookie cookie hello.body }
  modify (λ s. record s { last_flight = set s.last_flight 0 hello' })
  when c options.reset_window_before_server_hello (reset_read_window c)
  send_flight c (hello' ∷ []) (server_hello_done_type ∷ []) false

-- What is read of a ServerHello; a number past the end of the message is NaN.
pub record ServerHello : Type 0 where
  pub server_version : ProtocolVersion
  pub server_random : Value
  pub suite_id : Number
  pub compression_method : Number

abbrev pub server_hello_of : Value → Option ServerHello
server_hello_of
      (object (
        cons
          (object (cons (num x) (cons (num y) nil)))
          (cons r (cons session_id (cons (num id) (cons (num m) rest)))))) =
    some (record {
      server_version = record { major = to_pattern x; minor = to_pattern y };
      server_random = r;
      suite_id = id;
      compression_method = m;
    })
server_hello_of _ = none

abbrev pub suite_by_number : Number → Option CipherSuite
suite_by_number none = none
suite_by_number (some id) = suite_of_id id

unfoldable pub set_version : (c : Crypto) → ℕ → ProtocolVersion → M c (Unit {0})
set_version c i version = do
  state ← state_at c i
  set_state c i (record state { protocol_version = version })

unfoldable pub handle_server_hello : (c : Crypto) → Handshake → M c (Unit {0})
handle_server_hello c h = do
  hello ← lift (need (server_hello_of h.body))
  s ← current
  state ← state_at c (next_epoch s)
  written ← lift (serialize (struct random) hello.server_random)
  set_state c (next_epoch s) (record state {
    server_random = some written;
    cipher_suite = suite_by_number hello.suite_id;
    compression_algorithm = hello.compression_method;
  })
  set_version c s.layer.write_epoch_nr hello.server_version
  set_version c (s.layer.write_epoch_nr + 1) hello.server_version

abbrev pub is_psk : Option KeyExchangeAlgorithm → Bool
is_psk (some psk) = true
is_psk _ = false

abbrev pub raw_data : Value → Option Buffer
raw_data (object (cons (bytes b) nil)) = some b
raw_data _ = none

-- The identity hint is parsed, which may throw, and left.
unfoldable pub handle_server_key_exchange : (c : Crypto) → Memory → Handshake → M c (Unit {0})
handle_server_key_exchange c memory h = do
  s ← current
  state ← state_at c (next_epoch s)
  suite ← lift (need state.cipher_suite)
  when c (is_psk suite.key_exchange) (do
    raw ← lift (need (raw_data h.body))
    hint ← lift (deserialize memory (struct server_key_exchange_psk) raw 0)
    pure tt)

abbrev pub raw_message : ℕ → Buffer → Handshake
raw_message t b = record { msg_type = t; message_seq = 0; body = object (cons (bytes b) nil) }

-- The flight with the key exchange and the Finished message, once the secrets are there.
unfoldable pub send_finished_flight : (c : Crypto) → Handshake → M c (Unit {0})
send_finished_flight c exchange = do
  send_flight_begin c
  send_flight_process_partial c (exchange ∷ []) false
  s ← current
  verify_data ← compute_verify_data c (concat s.all_handshake_data) client
  send_flight_process_partial c (raw_message finished_type verify_data ∷ []) false
  send_flight_finish c (finished_type ∷ [])

unfoldable pub exchange_psk : (c : Crypto) → Options → ConnectionState → ℕ → M c (Unit {0})
exchange_psk c options state i = do
  (identity, key) ← lift (need (head options.psk_table))
  raw ← lift (serialize (struct client_key_exchange_psk) (object (cons (bytes identity) nil)))
  state' ← lift (compute_master_secret c state (psk_secret key))
  set_state c i state'
  send_finished_flight c (raw_message client_key_exchange_type raw)

abbrev pub handshake_failure : Alert
handshake_failure = record { level = 2; description = 40 }

abbrev pub decrypt_error : Alert
decrypt_error = record { level = 2; description = 51 }

-- `finishedCallback` with an alert, which goes through the record layer to the socket.
unfoldable pub finish_with_alert : (c : Crypto) → Alert → Error → M c (Unit {0})
finish_with_alert c a e = do
  content ← lift (
      serialize (struct alert_fields)
        (object (cons (num (some a.level)) (cons (num (some a.description)) nil))))
  buf ← λ s.
      let (layer', r) =
        process_outgoing_message (protection c) s.layer
          (record { type = alert_content; content = content }) in
      (record s { layer = layer' }, r)
  output (alert_datagram buf (some e))

-- By the key exchange, whether it is by PSK. The result is whether the loop over the messages goes on.
unfoldable pub answer : (c : Crypto) → Options → ConnectionState → ℕ → Bool → M c Bool
answer c options state i true = exchange_psk c options state i >> pure true
answer c options state i false =
    finish_with_alert c handshake_failure key_exchange_not_implemented >> pure false

unfoldable pub handle_server_hello_done : (c : Crypto) → Options → M c Bool
handle_server_hello_done c options = do
  s ← current
  state ← state_at c (next_epoch s)
  suite ← lift (need state.cipher_suite)
  answer c options state (next_epoch s) (is_psk suite.key_exchange)

-- The `switch` on the type of a message.
unfoldable pub handle_server_message : (c : Crypto) → Memory → Options → Handshake → M c Bool
handle_server_message c memory options h =
    if h.msg_type == server_hello_type
    then handle_server_hello c h >> pure true
    else if h.msg_type == server_key_exchange_type
    then handle_server_key_exchange c memory h >> pure true
    else if h.msg_type == server_hello_done_type
    then handle_server_hello_done c options
    else pure true

unfoldable pub handle_server_messages :
    (c : Crypto) → Memory → Options → List Handshake → M c (Unit {0})
handle_server_messages c memory options [] = pure tt
handle_server_messages c memory options (h ∷ hs) = do
  goes_on ← handle_server_message c memory options h
  when c goes_on (handle_server_messages c memory options hs)

-- The end of the handshake, by whether the verify data is right.
unfoldable pub finish_handshake : (c : Crypto) → Bool → M c (Unit {0})
finish_handshake c true = do
  modify (λ s. record s { is_handshaking = false })
  output (finished_callback none)
finish_handshake c false = do
  modify (λ s. record s { is_handshaking = false })
  finish_with_alert c decrypt_error handshake_failed

-- The handler of a Finished flight.
unfoldable pub handle_finished : (c : Crypto) → List Handshake → M c (Unit {0})
handle_finished c messages = do
  message ← lift (need (last_message messages))
  s ← current
  expected ← compute_verify_data c (concat s.all_handshake_data) server
  verify_data ← lift (need (raw_data message.body))
  finish_handshake c (equals verify_data expected)

-- `handle[type]`
unfoldable pub handle : (c : Crypto) → Memory → Options → ℕ → List Handshake → M c (Unit {0})
handle c memory options type messages =
    if type == hello_verify_request_type
    then handle_hello_verify_request c options messages
    else if type == server_hello_done_type
    then handle_server_messages c memory options messages
    else if type == finished_type
    then handle_finished c messages
    else lift (err type_error)
