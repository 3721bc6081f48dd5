-- ===== src/Connection/Tests.antt =====
-- Runs of the ciphers, of the suites and of a connection, with a toy crypto.
use node_dtls_client.Prelude.{
  ◌<◌, ◌^◌, arith, ◌≡◌, refl, [], ◌∷◌, ◌++◌, length, take, drop, replicate, some, true, inl,
  get_elem?,
}
use node_dtls_client.Errors.{ok}
use node_dtls_client.Convert.{Buffer}
use node_dtls_client.Codec.{serialize}
use node_dtls_client.Window.{reset, may_receive, has_received, flag_is_set, locate}
use node_dtls_client.Record.Packet.{DtlsPacket}
use node_dtls_client.Record.{
  Epoch, RecordLayer, new_record_layer, create_epoch, receive_packets, filter_packets, acceptable,
  decrypt_packets, decrypt_packet, mark_packets, mark_packet,
}
use node_dtls_client.Keys.{KeyMaterial}
use node_dtls_client.Crypto.{md5, sha256, aes_128_cbc, aes_128_gcm}
use node_dtls_client.Crypto.Toy.{toy, toy-IsCrypto}
use node_dtls_client.Block.{
  ConnectionEnd, server, client, other_end, write_key, block_cipher, block_decipher, strip_padding,
  verify_mac, split_mac, packet_mac, compute_mac_header, equals,
}
use node_dtls_client.Block.Trip.{IsMac, block_decipher-block_cipher}
use node_dtls_client.Block.Authentic.{IsAuthentic, block_decipher-IsAuthentic}
use node_dtls_client.Aead.{write_iv, aead_cipher, aead_decipher}
use node_dtls_client.Aead.Trip.{IsAeadKeyed, aead_decipher-aead_cipher}
use node_dtls_client.Suite.{
  CipherSuite, hash_mac, suite_cipher, suite_decipher, dispatch_decipher, block_algorithm, block,
  psk,
}
use node_dtls_client.Suite.Table.{suite, suite_of_id, find_suite, cipher_suites}
use node_dtls_client.Suite.Trip.{suite_decipher-suite_cipher, create_mac-IsMac}
use node_dtls_client.Connection.{
  ConnectionState, Delegate, get_decipher, new_connection_state, psk_secret, encipher,
  decipher_packet, set_secrets, compute_master_secret,
}
use node_dtls_client.Connection.Derive.{IsReady}
use node_dtls_client.Connection.Channel.{decipher_packet-encipher}
use node_dtls_client.Connection.Early.{receive_unauthenticated}
use node_dtls_client.Connection.Gate.{HasDelegate, Deciphered, receive-Deciphered}
use node_dtls_client.Connection.Protect.{protection, decrypt_incoming}

abbrev pub test_keys : KeyMaterial
test_keys = record {
  client_write_mac_key = replicate 16 1;
  server_write_mac_key = replicate 16 2;
  client_write_key = replicate 16 3;
  server_write_key = replicate 16 4;
  client_write_iv = replicate 4 5;
  server_write_iv = replicate 4 6;
}

abbrev pub test_packet : DtlsPacket
test_packet = record {
  type = 23;
  version = record { major = 254; minor = 253 };
  epoch = 1;
  sequence_number = 5;
  fragment = 104 ∷ 105 ∷ [];
}

md5-IsMac : IsMac (hash_mac toy md5)
md5-IsMac = create_mac-IsMac toy (some block) (some md5) toy-IsCrypto

test_key_sizes : (end : ConnectionEnd) → length (write_key end test_keys) ≡ 16
test_key_sizes server = refl
test_key_sizes client = refl

test_iv_sizes : (end : ConnectionEnd) → length (write_iv end test_keys) ≡ 4
test_iv_sizes server = refl
test_iv_sizes client = refl

block_decipher-block_cipher_example :
    (q : DtlsPacket) × (block_cipher toy aes_128_cbc
        (hash_mac toy md5)
        7
        test_packet
        test_keys
        client
      ≡ ok q)
    × (block_decipher toy aes_128_cbc (hash_mac toy md5) q test_keys server ≡ ok test_packet)
block_decipher-block_cipher_example =
    block_decipher-block_cipher toy aes_128_cbc (hash_mac toy md5) 7 test_packet test_keys client
      toy-IsCrypto md5-IsMac test_key_sizes

-- A vector, the content, its MAC and one byte of padding.
abbrev ciphered_packet : DtlsPacket
ciphered_packet = record test_packet {
  fragment = replicate 16 7 ++ (104 ∷ 105 ∷ replicate 16 0 ++ 0 ∷ []);
}

ciphered_packet_passes :
    block_decipher toy aes_128_cbc (hash_mac toy md5) ciphered_packet test_keys server
    ≡ ok test_packet
unfolding block_decipher strip_padding verify_mac split_mac packet_mac compute_mac_header serialize
    equals
ciphered_packet_passes = refl

block_decipher-IsAuthentic_example :
    (deciphered : Buffer) × (plaintext : Buffer) × (toy.cbc_decrypt aes_128_cbc
        (write_key client test_keys)
        (take 16 ciphered_packet.fragment)
        (drop 16 ciphered_packet.fragment)
      ≡ ok deciphered)
    × (strip_padding deciphered ≡ ok plaintext)
    × IsAuthentic (hash_mac toy md5) ciphered_packet test_packet test_keys client plaintext
block_decipher-IsAuthentic_example =
    block_decipher-IsAuthentic toy aes_128_cbc (hash_mac toy md5) ciphered_packet test_packet
      test_keys server ciphered_packet_passes

test_keys-IsAeadKeyed : IsAeadKeyed aes_128_gcm test_keys
test_keys-IsAeadKeyed = record { key_size = test_key_sizes; iv_size = test_iv_sizes }

is_short : length test_packet.fragment < 2 ^ 24
is_short = omega arith

aead_decipher-aead_cipher_example :
    (q : DtlsPacket) × (aead_cipher toy aes_128_gcm 7 test_packet test_keys client ≡ ok q)
    × (aead_decipher toy aes_128_gcm q test_keys server ≡ ok test_packet)
aead_decipher-aead_cipher_example =
    aead_decipher-aead_cipher toy aes_128_gcm 7 test_packet test_keys client toy-IsCrypto
      test_keys-IsAeadKeyed is_short

-- An explicit nonce, the content and the tag.
abbrev sealed_packet : DtlsPacket
sealed_packet = record test_packet { fragment = replicate 8 7 ++ (104 ∷ 105 ∷ replicate 16 0) }

-- TLS_PSK_WITH_AES_128_CBC_SHA256
abbrev pub test_suite : CipherSuite
test_suite =
    suite 174 (some psk) (some sha256) (some sha256) (some block) (block_algorithm aes_128_cbc)

suite_174 : suite_of_id 174 ≡ some test_suite
unfolding suite_of_id find_suite cipher_suites
suite_174 = refl

suite_decipher-suite_cipher_example :
    (q : DtlsPacket) × (suite_cipher toy test_suite 7 test_packet (some test_keys) client ≡ ok q)
    × (suite_decipher toy test_suite q (some test_keys) server ≡ ok test_packet)
suite_decipher-suite_cipher_example =
    suite_decipher-suite_cipher toy 174 test_suite 7 test_packet test_keys client suite_174
      toy-IsCrypto test_key_sizes is_short

abbrev ready_client : ConnectionState
ready_client = record new_connection_state {
  cipher_suite = some test_suite;
  client_random = some (replicate 32 1);
  server_random = some (replicate 32 2);
}

ready_client-IsReady : IsReady ready_client test_suite (replicate 32 1) (replicate 32 2)
unfolding new_connection_state
ready_client-IsReady = record {
  has_suite = refl;
  has_client_random = refl;
  has_server_random = refl;
  no_cipher = refl;
  no_decipher = refl;
}

abbrev ready_server : ConnectionState
ready_server = record ready_client { entity = server }

ready_server-IsReady : IsReady ready_server test_suite (replicate 32 1) (replicate 32 2)
unfolding new_connection_state
ready_server-IsReady = record {
  has_suite = refl;
  has_client_random = refl;
  has_server_random = refl;
  no_cipher = refl;
  no_decipher = refl;
}

ends_are_opposite : ready_server.entity ≡ other_end ready_client.entity
unfolding new_connection_state
ends_are_opposite = refl

decipher_packet-encipher_example :
    (s' : ConnectionState) × (t' : ConnectionState) × (q : DtlsPacket) × (compute_master_secret toy
        ready_client
        (psk_secret (9 ∷ []))
      ≡ ok s')
    × (compute_master_secret toy ready_server (psk_secret (9 ∷ [])) ≡ ok t')
    × ((encipher toy s' test_packet).1 ≡ ok q)
    × ((decipher_packet toy t' q).1 ≡ ok test_packet)
decipher_packet-encipher_example =
    decipher_packet-encipher toy 174 test_suite sha256 (9 ∷ []) (replicate 32 1) (replicate 32 2)
      ready_client ready_server test_packet toy-IsCrypto suite_174 refl ready_client-IsReady
      ready_server-IsReady ends_are_opposite is_short

may_receive_5 : may_receive reset 5 ≡ true
unfolding may_receive has_received reset flag_is_set locate
may_receive_5 = refl

receive_unauthenticated_example :
    let early = record test_packet { epoch = 1 } in
    let (r, delivered) =
      receive_packets (protection toy) (new_record_layer (protection toy)) (early ∷ []) in
    (delivered ≡ early ∷ [])
    × ((e : Epoch (protection toy))
        → get_elem? r.epochs 1 ≡ some e
        → (decipher_packet toy
            (set_secrets toy
              (record e.connection_state { cipher_suite = some test_suite })
              test_suite
              sha256
              []
              []
              [])
            ciphered_packet).1
          ≡ ok ciphered_packet)
receive_unauthenticated_example =
    receive_unauthenticated toy test_packet ciphered_packet test_suite sha256 [] [] [] may_receive_5

-- A new layer whose epoch 1 deciphers with the suite.
abbrev server_delegate : Delegate
server_delegate = record { suite = test_suite; keys = some test_keys; end_point = server }

abbrev deciphering_layer : RecordLayer (protection toy)
deciphering_layer = record (new_record_layer (protection toy)) {
  epochs =
      create_epoch (protection toy) 0
      ∷ record (create_epoch (protection toy) 1) {
        connection_state = record new_connection_state { decipher = some server_delegate };
      }
      ∷ [];
}

abbrev protected_packet : DtlsPacket
protected_packet = record test_packet {
  fragment = replicate 16 7 ++ (104 ∷ 105 ∷ replicate 32 0 ++ 0 ∷ []);
}

deciphering_layer-HasDelegate : HasDelegate toy deciphering_layer 1 server_delegate
deciphering_layer-HasDelegate = (_, refl, refl)

test_packet_delivered :
    (receive_packets (protection toy) deciphering_layer (protected_packet ∷ [])).1
    ≡ test_packet ∷ []
unfolding receive_packets filter_packets acceptable decrypt_packets decrypt_packet mark_packets
    mark_packet new_record_layer create_epoch may_receive has_received reset flag_is_set locate
    decrypt_incoming decipher_packet get_decipher suite_decipher dispatch_decipher block_decipher
    strip_padding verify_mac split_mac packet_mac compute_mac_header serialize equals
    new_connection_state
test_packet_delivered = refl

receive-Deciphered_example : Deciphered toy server_delegate test_packet (protected_packet ∷ [])
receive-Deciphered_example =
    receive-Deciphered toy deciphering_layer (protected_packet ∷ []) test_packet server_delegate
      deciphering_layer-HasDelegate (rw test_packet_delivered (inl refl))
