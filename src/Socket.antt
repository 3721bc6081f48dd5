-- ===== src/Socket.antt =====
-- `Socket` of src/dtls.ts: the connection from its UDP socket to its events. A method gives the state
-- that it leaves and whether it threw. The callbacks of `udp.send` run later, as a step of their own.
pub mod Receive
pub mod Steps
pub mod Events
pub mod Emits
pub mod Sound
pub mod Kept
pub mod Accepted
pub mod Drained
pub mod Ended
mod Tests
use node_dtls_client.Prelude.{
  ℕ, ◌+◌, List, [], ◌∷◌, ◌++◌, Bool, true, false, not, ◌&&◌, Option, none, some, ◌==◌,
  if◌then◌else◌, length, map,
}
use Prim.Native.String.{String}
use node_dtls_client.Errors.{
  Error, Result, ok, err, type_error, socket_closed, handshake_not_finished, connection_timed_out,
  handshake_timed_out, fatal_alert, not_running,
}
use node_dtls_client.Convert.{Buffer}
use node_dtls_client.TypeSpecs.{struct}
use node_dtls_client.Codec.{Memory, Value, num, object, nil, cons, serialize, deserialize}
use node_dtls_client.Messages.{alert as alert_fields}
use node_dtls_client.Record.{
  Message, RecordLayer, new_record_layer, process_outgoing_message, receive, advance_read_epoch,
}
use node_dtls_client.Fragment.Wire.{parse_fragment}
use node_dtls_client.Crypto.{Crypto}
use node_dtls_client.Connection.Protect.{protection}
use node_dtls_client.Handshaker.{
  Alert, Output, datagram, alert_datagram, finished_callback, Handler, M,
}
use node_dtls_client.Handshaker.Send.{handshake_content}
use node_dtls_client.Handshaker.Handle.{Options, alert_content}
use node_dtls_client.Handshaker.Process.{process_incoming_message, renegotiate, new_handler}

-- The options, the suites to offer, what memory holds, the time and the draw of the ClientHello.
pub record Config : Type 0 where
  pub options : Options
  pub ciphers : Option (List String)
  pub memory : Memory
  pub seconds : ℕ
  pub draw : ℕ

-- What is emitted, and the datagrams that are sent. `rinfo` is a number that stands for the sender.
pub data Event : Type 0 where
  connected : Event
  message : Buffer → ℕ → Event
  closed : Event
  failed : Error → Event
  sent : Buffer → Event

-- The callback of a `udp.send`: to close the UDP socket, or what follows the alert of a handshake.
pub data Callback : Type 0 where
  close_udp : Callback
  next_step : Option Error → Callback

-- What a timer that runs calls.
pub data Timer : Type 0 where
  expect_connection expect_handshake : Timer

-- `handler` has the record layer too; it is there once the UDP socket listens. `listens` is whether the
-- UDP socket has its listeners, but that for errors.
pub record Socket (c : Crypto) : Type 0 where
  pub handler : Option (Handler c)
  pub handshake_finished : Bool
  pub udp_connected : Bool
  pub connection_timeout : Option Timer
  pub buffered_messages : List (Buffer × ℕ)
  pub is_closed : Bool
  pub udp_open : Bool
  pub listens : Bool
  pub listens_to_errors : Bool
  pub callbacks : List Callback
  pub events : List Event

-- The state that a method leaves, and whether it threw.
abbrev pub Outcome : Crypto → Type 0
Outcome c = Socket c × Result (Unit {0})

unfoldable pub new_socket : (c : Crypto) → Socket c
new_socket c = record {
  handler = none;
  handshake_finished = false;
  udp_connected = false;
  connection_timeout = some expect_connection;
  buffered_messages = [];
  is_closed = false;
  udp_open = true;
  listens = true;
  listens_to_errors = true;
  callbacks = [];
  events = [];
}

abbrev pub emit : {c : Crypto} → Event → Socket c → Socket c
emit e s = record s { events = s.events ++ e ∷ [] }

abbrev pub and_then : {c : Crypto} → Outcome c → (Socket c → Outcome c) → Outcome c
and_then (s, r) f = elim r [ ok u ↦ f s | err e ↦ (s, err e) ]

-- `udp.close()`
unfoldable pub udp_close : (c : Crypto) → Socket c → Outcome c
udp_close c s = if s.udp_open then (record s { udp_open = false }, ok tt) else (s, err not_running)

abbrev pub shut_down : {c : Crypto} → Socket c → Socket c
shut_down s = record s { is_closed = true; connection_timeout = none; listens = false }

unfoldable pub kill_connection : (c : Crypto) → Error → Socket c → Outcome c
kill_connection c e s =
    if s.is_closed
    then (s, ok tt)
    else and_then (udp_close c (shut_down s)) (λ s'. (emit (failed e) s', ok tt))

-- `udp.send` of a buffer, with its callback.
unfoldable pub udp_send : (c : Crypto) → Buffer → List Callback → Socket c → Outcome c
udp_send c buf callbacks s =
    if s.udp_open
    then (record (emit (sent buf) s) { callbacks = s.callbacks ++ callbacks }, ok tt)
    else (s, err not_running)

-- `recordLayer.send`
unfoldable pub record_send : (c : Crypto) → Message → List Callback → Socket c → Outcome c
record_send c msg callbacks s = elim s.handler [
  | none ↦ (s, err type_error)
  | some h ↦
      let (layer', r) = process_outgoing_message (protection c) h.layer msg in
      let s' : Socket c = record s { handler = some (record h { layer = layer' }) } in
      elim r [ err e ↦ (s', err e) | ok buf ↦ udp_send c buf callbacks s' ]
]

abbrev pub application_data : ℕ
application_data = 23

-- `send`
unfoldable pub send : (c : Crypto) → Buffer → Socket c → Outcome c
send c content s =
    if s.is_closed
    then (s, err socket_closed)
    else if not s.handshake_finished
    then (s, err handshake_not_finished)
    else record_send c (record { type = application_data; content = content }) [] s

unfoldable pub send_alert : (c : Crypto) → Alert → List Callback → Socket c → Outcome c
send_alert c a callbacks s =
    elim (serialize (struct alert_fields)
      (object (cons (num (some a.level)) (cons (num (some a.description)) nil)))) [
        | err e ↦ (s, err e)
        | ok content ↦
            record_send c (record { type = alert_content; content = content }) callbacks s
      ]

abbrev pub close_notify : Alert
close_notify = record { level = 1; description = 0 }

-- `close`
unfoldable pub close : (c : Crypto) → Socket c → Outcome c
close c s = send_alert c close_notify (close_udp ∷ []) s

abbrev pub to_events : List (Buffer × ℕ) → List Event
to_events [] = []
to_events ((content, rinfo) ∷ ms) = message content rinfo ∷ to_events ms

-- `nextStep`: the connection is killed, or it is up, and what was buffered is emitted.
unfoldable pub do_next_step : (c : Crypto) → Option Error → Socket c → Outcome c
do_next_step c (some e) s = kill_connection c e s
do_next_step c none s = (
  record s {
    handshake_finished = true;
    connection_timeout = none;
    events = s.events ++ connected ∷ to_events s.buffered_messages;
    buffered_messages = [];
  },
  ok tt,
)

-- What left the handler, in order. The callback that the handler is given calls `nextStep`, at once or
-- as the callback of the `udp.send` of its alert.
unfoldable pub handle_output : (c : Crypto) → Output → Socket c → Outcome c
handle_output c (datagram buf) s = udp_send c buf [] s
handle_output c (alert_datagram buf e) s = udp_send c buf (next_step e ∷ []) s
handle_output c (finished_callback e) s = do_next_step c e s

unfoldable pub handle_outputs : (c : Crypto) → List Output → Socket c → Outcome c
handle_outputs c [] s = (s, ok tt)
handle_outputs c (o ∷ os) s = and_then (handle_output c o s) (handle_outputs c os)

-- A call of the handler. What it sends and calls is done once it returns; that a `udp.send` throws is
-- known to it before, and after a call of `finishedCallback` that may close the UDP socket it does no more.
unfoldable pub run_handler : (c : Crypto) → M c (Unit {0}) → Handler c → Socket c → Outcome c
run_handler c m h s =
    let (h', r) = m (record h { outputs = []; udp_open = s.udp_open }) in
    and_then
      (handle_outputs c h'.outputs (record s { handler = some (record h' { outputs = [] }) }))
      (λ s'. (s', r))

-- `udp_onListening`. The socket's record layer is a field of the handler here, so the handler stays
-- also where `renegotiate` throws; there the source assigns only the record layer.
unfoldable pub udp_on_listening : (c : Crypto) → Config → Socket c → Outcome c
udp_on_listening c config s =
    run_handler c (renegotiate c config.ciphers config.seconds config.draw)
      (new_handler c (new_record_layer (protection c)))
      (record s { udp_connected = true; connection_timeout = some expect_handshake })

-- `expectConnection` and `expectHandshake`
unfoldable pub expire : (c : Crypto) → Timer → Socket c → Outcome c
expire c expect_connection s =
    if not s.is_closed && not s.udp_connected
    then kill_connection c connection_timed_out s
    else (s, ok tt)
expire c expect_handshake s =
    if not s.is_closed && not s.handshake_finished
    then kill_connection c handshake_timed_out s
    else (s, ok tt)

-- `udp_onClose`
unfoldable pub udp_on_close : (c : Crypto) → Socket c → Socket c
udp_on_close c s =
    let s' : Socket c = record s { listens = false; listens_to_errors = false } in
    if s.is_closed then s' else emit closed (record s' { is_closed = true })

-- The callback of a `udp.send`.
unfoldable pub run_callback : (c : Crypto) → Callback → Socket c → Outcome c
run_callback c close_udp s = udp_close c s
run_callback c (next_step e) s = do_next_step c e s
