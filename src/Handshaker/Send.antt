-- ===== src/Handshaker/Send.antt =====
-- The sending of flights in src/DTLS/HandshakeHandler.ts: `sendFlight_begin`,
-- `sendFlight_processPartial`, `sendFlight_finish`, `sendFlight`, and what is remembered for the verify
-- data.
use node_dtls_client.Prelude.{
  ℕ, ◌+◌, List, [], ◌∷◌, ◌++◌, Bool, true, false, not, ◌&&◌, Option, none, some, ltb, ◌==◌,
  if◌then◌else◌, length, set,
}
use node_dtls_client.Errors.{Result, ok, err, type_error, flight_not_begun}
use node_dtls_client.Convert.{Buffer}
use node_dtls_client.TypeSpecs.{Fields, struct}
use node_dtls_client.Codec.{Value, num, bytes, object, nil, cons, serialize}
use node_dtls_client.Messages.{handshake_message, key_exchange, change_cipher_spec as ccs_fields}
use node_dtls_client.Fragment.{FragmentedHandshake, split}
use node_dtls_client.Fragment.Body.{Handshake, to_fragment}
use node_dtls_client.Fragment.Wire.{serialize_fragment}
use node_dtls_client.Record.{Message, change_cipher_spec, process_flight}
use node_dtls_client.Crypto.{Crypto}
use node_dtls_client.Connection.Protect.{protection}
use node_dtls_client.Handshaker.{
  Handler, M, ◌>>=◌, ◌>>◌, pure, lift, current, modify, output, datagram,
}

-- `HandshakeType`, the types that the handler names.
abbrev pub client_hello_type : ℕ
client_hello_type = 1

abbrev pub server_hello_type : ℕ
server_hello_type = 2

abbrev pub hello_verify_request_type : ℕ
hello_verify_request_type = 3

abbrev pub server_key_exchange_type : ℕ
server_key_exchange_type = 12

abbrev pub server_hello_done_type : ℕ
server_hello_done_type = 14

abbrev pub client_key_exchange_type : ℕ
client_key_exchange_type = 16

abbrev pub finished_type : ℕ
finished_type = 20

-- The cookie of a ClientHello.
abbrev pub cookie_of : Value → Buffer
cookie_of (object (cons version (cons random (cons session_id (cons (bytes cookie) rest))))) =
    cookie
cookie_of _ = []

unfoldable pub needs_to_hash_message : Handshake → Bool
needs_to_hash_message h =
    if h.msg_type == hello_verify_request_type
    then false
    else if h.msg_type == 0
    then false
    else if h.msg_type == client_hello_type
    then ltb 0 (length (cookie_of h.body))
    else true

-- The class of a message: those that can be parsed, and ClientKeyExchange.
abbrev pub class_fields : ℕ → Option Fields
class_fields t = if t == client_key_exchange_type then some key_exchange else handshake_message t

-- `toFragment` of a message of any class.
unfoldable pub fragment_of : Handshake → Result FragmentedHandshake
fragment_of h = elim (class_fields h.msg_type) [
  | none ↦ err type_error
  | some fields ↦ to_fragment fields h
]

unfoldable pub map_result : {A B : Type 0} → (A → Result B) → List A → Result (List B)
map_result f [] = ok []
map_result f (x ∷ xs) = elim (f x) [
  | err e ↦ err e
  | ok y ↦ elim (map_result f xs) [ err e ↦ err e | ok ys ↦ ok (y ∷ ys) ]
]

-- `bufferHandshakeData`
unfoldable pub buffer_handshake_data : (c : Crypto) → List FragmentedHandshake → M c (Unit {0})
buffer_handshake_data c fragments = do
  written ← lift (map_result serialize_fragment fragments)
  modify (λ s. record s { all_handshake_data = s.all_handshake_data ++ written })

unfoldable pub send_flight_begin : (c : Crypto) → M c (Unit {0})
send_flight_begin c = modify (λ s. record s { begin_was_called = true; last_flight = [] })

abbrev pub push_outgoing : (c : Crypto) → List Message → M c (Unit {0})
push_outgoing c messages =
    modify (λ s. record s { buffered_outgoing = s.buffered_outgoing ++ messages })

abbrev pub when : (c : Crypto) → Bool → M c (Unit {0}) → M c (Unit {0})
when c true m = m
when c false m = pure tt

-- A ChangeCipherSpec before a Finished message.
unfoldable pub push_change_cipher_spec : (c : Crypto) → M c (Unit {0})
push_change_cipher_spec c = do
  body ← lift (serialize (struct ccs_fields) (object (cons (num (some 1)) nil)))
  push_outgoing c (record { type = change_cipher_spec; content = body } ∷ [])

-- The next number for the message at this place of the last flight, unless it is sent again.
unfoldable pub number_message : (c : Crypto) → Bool → ℕ → Handshake → M c Handshake
number_message c true place h = pure h
number_message c false place h = do
  s ← current
  let numbered : Handshake = record h { message_seq = s.next_sent }
  modify (λ s. record s {
    next_sent = s.next_sent + 1;
    last_flight = set s.last_flight place numbered;
  })
  pure numbered

abbrev pub handshake_content : ℕ
handshake_content = 22

abbrev pub to_message : Buffer → Message
to_message content = record { type = handshake_content; content = content }

abbrev pub to_handshake_messages : List Buffer → List Message
to_handshake_messages [] = []
to_handshake_messages (b ∷ bs) = to_message b ∷ to_handshake_messages bs

-- A numbered message, remembered for the verify data unless it is sent again, and its fragments.
unfoldable pub push_fragments : (c : Crypto) → Bool → Handshake → M c (Unit {0})
push_fragments c retransmit numbered = do
  fragment ← lift (fragment_of numbered)
  when c (not retransmit && needs_to_hash_message numbered)
      (buffer_handshake_data c (fragment ∷ []))
  fragments ← lift (split fragment none)
  written ← lift (map_result serialize_fragment fragments)
  push_outgoing c (to_handshake_messages written)

-- The body of the `forEach`.
unfoldable pub process_handshake : (c : Crypto) → Bool → ℕ → Handshake → M c (Unit {0})
process_handshake c retransmit place h = do
  when c (h.msg_type == finished_type) (push_change_cipher_spec c)
  numbered ← number_message c retransmit place h
  push_fragments c retransmit numbered

unfoldable pub process_handshakes : (c : Crypto) → Bool → ℕ → List Handshake → M c (Unit {0})
process_handshakes c retransmit place [] = pure tt
process_handshakes c retransmit place (h ∷ hs) =
    process_handshake c retransmit place h >> process_handshakes c retransmit (place + 1) hs

abbrev pub guard : (c : Crypto) → Bool → M c (Unit {0})
guard c true = pure tt
guard c false = lift (err flight_not_begun)

-- `this.lastFlight.push(...flight)` shares the messages, which are numbered after it.
unfoldable pub send_flight_process_partial : (c : Crypto) → List Handshake → Bool → M c (Unit {0})
send_flight_process_partial c flight retransmit = do
  s ← current
  guard c s.begin_was_called
  modify (λ s. record s { last_flight = s.last_flight ++ flight })
  process_handshakes c retransmit (length s.last_flight) flight

-- What `recordLayer.sendFlight` hands to the socket.
unfoldable pub send_buffered : (c : Crypto) → M c (Unit {0})
send_buffered c s =
    let (layer', sent) = process_flight (protection c) s.layer s.buffered_outgoing in
    let s' : Handler c = record s { layer = layer' } in
    elim sent [ err e ↦ (s', err e) | ok buf ↦ output (datagram buf) s' ]

unfoldable pub send_flight_finish : (c : Crypto) → List ℕ → M c (Unit {0})
send_flight_finish c expected_responses = do
  modify (λ s. record s { collector = record s.collector { expected = some expected_responses } })
  send_buffered c
  modify (λ s. record s { buffered_outgoing = []; begin_was_called = false })

unfoldable pub send_flight : (c : Crypto) → List Handshake → List ℕ → Bool → M c (Unit {0})
send_flight c flight expected_responses retransmit = do
  send_flight_begin c
  send_flight_process_partial c flight retransmit
  send_flight_finish c expected_responses
