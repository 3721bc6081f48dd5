-- ===== src/Socket/Receive.antt =====
-- How a `Socket` of src/dtls.ts receives: `udp_onMessage`.
use node_dtls_client.Prelude.{
  ℕ, Bool, false, List, [], ◌∷◌, ◌++◌, ◌&&◌, none, some, ◌==◌, if◌then◌else◌,
}
use node_dtls_client.Errors.{ok, err, type_error, fatal_alert}
use node_dtls_client.Convert.{Buffer, Number}
use node_dtls_client.TypeSpecs.{struct}
use node_dtls_client.Codec.{Value, num, object, nil, cons, deserialize}
use node_dtls_client.Messages.{alert as alert_fields}
use node_dtls_client.Record.{Message, receive, advance_read_epoch}
use node_dtls_client.Fragment.Wire.{parse_fragment}
use node_dtls_client.Crypto.{Crypto}
use node_dtls_client.Connection.Protect.{protection}
use node_dtls_client.Handshaker.Send.{handshake_content}
use node_dtls_client.Handshaker.Process.{process_incoming_message}
use node_dtls_client.Handshaker.Handle.{alert_content}
use node_dtls_client.Socket.{
  Config, Socket, Outcome, emit, and_then, kill_connection, application_data, close, run_handler,
  message,
}

abbrev pub change_cipher_spec_content : ℕ
change_cipher_spec_content = 20

unfoldable pub on_handshake : (c : Crypto) → Config → Buffer → Socket c → Outcome c
on_handshake c config content s = elim (parse_fragment config.memory content) [
  | err e ↦ (s, err e)
  | ok fragment ↦ elim s.handler [
    | none ↦ (s, err type_error)
    | some h ↦ run_handler c (process_incoming_message c config.memory config.options fragment) h s
  ]
]

unfoldable pub on_change_cipher_spec : (c : Crypto) → Socket c → Outcome c
on_change_cipher_spec c s = elim s.handler [
  | none ↦ (s, err type_error)
  | some h ↦ (
    record s { handler = some (record h { layer = advance_read_epoch (protection c) h.layer }) },
    ok tt,
  )
]

-- The test `===` of a number that was read with a constant: `NaN` equals none.
abbrev pub is_number : Number → ℕ → Bool
is_number none m = false
is_number (some n) m = n == m

-- A fatal alert kills the connection, a `close_notify` warning closes it.
unfoldable pub act_on_alert : (c : Crypto) → Value → Socket c → Outcome c
act_on_alert c (object (cons (num level) (cons (num description) nil))) s =
    if is_number level 2
    then kill_connection c fatal_alert s
    else if is_number level 1 && is_number description 0
    then close c s
    else (s, ok tt)
act_on_alert c v s = (s, ok tt)

unfoldable pub on_alert : (c : Crypto) → Config → Buffer → Socket c → Outcome c
on_alert c config content s = elim (deserialize config.memory (struct alert_fields) content 0) [
  | err e ↦ (s, err e)
  | ok (v, n) ↦ act_on_alert c v s
]

-- Application data is kept until the handshake is finished.
unfoldable pub on_application_data : (c : Crypto) → Buffer → ℕ → Socket c → Outcome c
on_application_data c content rinfo s =
    if s.handshake_finished
    then (emit (message content rinfo) s, ok tt)
    else (record s { buffered_messages = s.buffered_messages ++ (content, rinfo) ∷ [] }, ok tt)

unfoldable pub on_message : (c : Crypto) → Config → ℕ → Message → Socket c → Outcome c
on_message c config rinfo msg s =
    if msg.type == handshake_content
    then on_handshake c config msg.content s
    else if msg.type == change_cipher_spec_content
    then on_change_cipher_spec c s
    else if msg.type == alert_content
    then on_alert c config msg.content s
    else if msg.type == application_data
    then on_application_data c msg.content rinfo s
    else (s, ok tt)

unfoldable pub on_messages : (c : Crypto) → Config → ℕ → List Message → Socket c → Outcome c
on_messages c config rinfo [] s = (s, ok tt)
on_messages c config rinfo (msg ∷ msgs) s =
    and_then (on_message c config rinfo msg s) (on_messages c config rinfo msgs)

-- `udp_onMessage`
unfoldable pub udp_on_message : (c : Crypto) → Config → Buffer → ℕ → Socket c → Outcome c
udp_on_message c config udp_msg rinfo s = elim s.handler [
  | none ↦ (s, err type_error)
  | some h ↦
      let (layer', msgs) = receive (protection c) config.memory h.layer udp_msg in
      on_messages c config rinfo msgs (record s { handler = some (record h { layer = layer' }) })
]
