-- ===== src/Messages.antt =====
-- The struct specs of the protocol: src/TLS/{ProtocolVersion, Random, Extension, PreMasterSecret,
-- Alert, ChangeCipherSpec, ContentType, SessionID, SignatureAndHashAlgorithm}.ts, src/DTLS/{Cookie,
-- DTLSCompressed, DTLSCiphertext}.ts and the messages of src/DTLS/Handshake.ts.
use node_dtls_client.Prelude.{
  ℕ, ◌+◌, ◌-◌, ◌^◌, true, false, Option, some, none, ◌==◌, if◌then◌else◌,
}
use node_dtls_client.TypeSpecs.{
  Spec, Fields, uint8, uint16, uint24, uint32, uint48, number, enum, struct, number_vector,
  struct_vector, buffer, unbound, end, field,
}

abbrev pub protocol_version : Fields
protocol_version = field "major" (number uint8) (field "minor" (number uint8) end)

abbrev pub random : Fields
random = field "gmt_unix_time" (number uint32) (field "random_bytes" (buffer 28 28) end)

abbrev pub extension : Fields
extension =
    field "extension_type" (enum uint16) (field "extension_data" (buffer 0 (2 ^ 16 - 1)) end)

abbrev pub pre_master_secret : Fields
pre_master_secret =
    field "other_secret" (buffer 0 (2 ^ 16 - 1)) (field "psk" (buffer 0 (2 ^ 16 - 1)) end)

abbrev pub alert : Fields
alert = field "level" (enum uint8) (field "description" (enum uint8) end)

abbrev pub change_cipher_spec : Fields
change_cipher_spec = field "type" (enum uint8) end

abbrev pub content_type : Spec
content_type = enum uint8

abbrev pub session_id : Spec
session_id = buffer 0 32

abbrev pub cookie : Spec
cookie = buffer 0 (2 ^ 8 - 1)

abbrev pub signature_and_hash_algorithm : Fields
signature_and_hash_algorithm = field "hash" (enum uint8) (field "signature" (enum uint8) end)

-- The record header and its fragment, with the limit of the fragment.
abbrev record_fields : ℕ → Fields
record_fields limit = field "type" content_type (
    field "version" (struct protocol_version) (
      field "epoch" (number uint16)
        (field "sequence_number" (number uint48) (field "fragment" (buffer 0 limit) end))))

abbrev pub dtls_ciphertext : Fields
dtls_ciphertext = record_fields (2048 + 2 ^ 14)

abbrev pub dtls_compressed : Fields
dtls_compressed = record_fields (1024 + 2 ^ 14)

abbrev pub mac_header : Fields
mac_header = field "epoch" (number uint16) (
    field "sequence_number" (number uint48) (
      field "type" content_type
        (field "version" (struct protocol_version) (field "fragment_length" (number uint16) end))))

-- `AdditionalData` of src/TLS/AEADCipher.ts.
abbrev pub additional_data : Fields
additional_data = field "epoch" (number uint16) (
    field "sequence_number" (number uint48) (
      field "type" content_type
        (field "version" (struct protocol_version) (field "fragment_length" (number uint16) end))))

abbrev pub fragmented_handshake : Fields
fragmented_handshake = field "msg_type" (enum uint8) (
    field "total_length" (number uint24) (
      field "message_seq" (number uint16)
        (field "fragment_offset" (number uint24) (field "fragment" (buffer 0 (2 ^ 24 - 1)) end))))

abbrev pub hello_request : Fields
hello_request = end

abbrev pub extensions : Spec
extensions = struct_vector extension 0 (2 ^ 16 - 1) true

abbrev pub cipher_suite_id : Spec
cipher_suite_id = number uint16

abbrev pub client_hello : Fields
client_hello = field "client_version" (struct protocol_version) (
    field "random" (struct random) (
      field "session_id" session_id (
        field "cookie" cookie (
          field "cipher_suites" (number_vector uint16 2 (2 ^ 16 - 2) false) (
            field "compression_methods" (number_vector uint8 1 (2 ^ 8 - 1) false)
              (field "extensions" extensions end))))))

abbrev pub server_hello : Fields
server_hello = field "server_version" (struct protocol_version) (
    field "random" (struct random) (
      field "session_id" session_id (
        field "cipher_suite" cipher_suite_id
          (field "compression_method" (enum uint8) (field "extensions" extensions end)))))

abbrev pub hello_verify_request : Fields
hello_verify_request = field "server_version" (struct protocol_version) (field "cookie" cookie end)

-- `ServerKeyExchange` and `ClientKeyExchange`.
abbrev pub key_exchange : Fields
key_exchange = field "raw_data" unbound end

abbrev pub server_key_exchange_psk : Fields
server_key_exchange_psk = field "psk_identity_hint" (buffer 0 (2 ^ 16 - 1)) end

abbrev pub client_key_exchange_psk : Fields
client_key_exchange_psk = field "psk_identity" (buffer 0 (2 ^ 16 - 1)) end

abbrev pub server_hello_done : Fields
server_hello_done = end

abbrev pub finished : Fields
finished = field "verify_data" unbound end

-- The lookup `HandshakeMessages[msg_type]`.
unfoldable pub handshake_message : ℕ → Option Fields
handshake_message t =
    if t == 0
    then some hello_request
    else if t == 1
    then some client_hello
    else if t == 2
    then some server_hello
    else if t == 3
    then some hello_verify_request
    else if t == 12
    then some key_exchange
    else if t == 14
    then some server_hello_done
    else if t == 20
    then some finished
    else none
