-- ===== src/Connection/Channel.antt =====
-- Two ends of a connection, from their secrets to a packet between them.
use node_dtls_client.Prelude.{ℕ, ◌<◌, ◌^◌, length, ◌≡◌, ◌∙◌, sym, ap, refl, some, none}
use node_dtls_client.Errors.{ok}
use node_dtls_client.Convert.{Buffer}
use node_dtls_client.Record.Packet.{DtlsPacket}
use node_dtls_client.Keys.{KeyMaterial}
use node_dtls_client.Crypto.{Crypto, IsCrypto, HashAlgorithm}
use node_dtls_client.Block.{other_end}
use node_dtls_client.Suite.{CipherSuite, suite_cipher, suite_decipher}
use node_dtls_client.Suite.Table.{suite_of_id}
use node_dtls_client.Suite.Trip.{suite_decipher-suite_cipher}
use node_dtls_client.Connection.{
  ConnectionState, psk_secret, get_cipher, get_decipher, encipher, decipher_packet, derived_keys,
  set_secrets, compute_master_secret,
}
use node_dtls_client.Connection.Derive.{
  IsReady, psk_bytes, suite_keys-IsSized, compute_master_secret-ready,
}

-- An end with its suite and keys, before its first packet.
record HasKeys (s : ConnectionState) (suite : CipherSuite) (keys : KeyMaterial) : Type 0 where
  has_suite : s.cipher_suite ≡ some suite
  has_keys : s.key_material ≡ some keys
  no_cipher : s.cipher ≡ none
  no_decipher : s.decipher ≡ none

encipher_first :
    (c : Crypto) (s : ConnectionState) (suite : CipherSuite) (keys : KeyMaterial) (p : DtlsPacket)
    → HasKeys s suite keys
    → (encipher c s p).1 ≡ suite_cipher c suite s.drawn p (some keys) s.entity
unfolding encipher get_cipher
encipher_first c s suite keys p h = rw (h.no_cipher, h.has_suite, h.has_keys) refl

decipher_first :
    (c : Crypto) (s : ConnectionState) (suite : CipherSuite) (keys : KeyMaterial) (p : DtlsPacket)
    → HasKeys s suite keys
    → (decipher_packet c s p).1 ≡ suite_decipher c suite p (some keys) s.entity
unfolding decipher_packet get_decipher
decipher_first c s suite keys p h = rw (h.no_decipher, h.has_suite, h.has_keys) refl

set_secrets-HasKeys :
    (c : Crypto) (s : ConnectionState) (suite : CipherSuite) (hash : HashAlgorithm)
    (secret client_random server_random : Buffer)
    → IsReady s suite client_random server_random
    → HasKeys
        (set_secrets c s suite hash secret client_random server_random)
        suite
        (derived_keys c suite hash secret client_random server_random)
unfolding set_secrets
set_secrets-HasKeys c s suite hash secret client_random server_random ready = record {
  has_suite = ready.has_suite;
  has_keys = refl;
  no_cipher = ready.no_cipher;
  no_decipher = ready.no_decipher;
}

entity-set_secrets :
    (c : Crypto) (s : ConnectionState) (suite : CipherSuite) (hash : HashAlgorithm)
    (secret client_random server_random : Buffer)
    → (set_secrets c s suite hash secret client_random server_random).entity ≡ s.entity
unfolding set_secrets
entity-set_secrets c s suite hash secret client_random server_random = refl

-- Two opposite ends that know the same suite of the table, one with a pseudorandom function, the same
-- randoms and the same PSK both derive their secrets without an exception; and what one of them then
-- enciphers first, a packet of fewer than 2 ^ 24 bytes, the other deciphers to the same packet.
pub decipher_packet-encipher :
    (c : Crypto) (id : ℕ) (suite : CipherSuite) (hash : HashAlgorithm)
    (psk client_random server_random : Buffer) (s t : ConnectionState) (p : DtlsPacket)
    → IsCrypto c
    → suite_of_id id ≡ some suite
    → suite.prf_algorithm ≡ some hash
    → IsReady s suite client_random server_random
    → IsReady t suite client_random server_random
    → t.entity ≡ other_end s.entity
    → length p.fragment < 2 ^ 24
    → (s' : ConnectionState) × (t' : ConnectionState) × (q : DtlsPacket) × (compute_master_secret c
          s
          (psk_secret psk)
        ≡ ok s')
      × (compute_master_secret c t (psk_secret psk) ≡ ok t')
      × ((encipher c s' p).1 ≡ ok q)
      × ((decipher_packet c t' q).1 ≡ ok p)
decipher_packet-encipher c id suite hash psk client_random server_random s t p lawful found has_prf
      here there opposite short =
    let s' = set_secrets c s suite hash (psk_bytes psk) client_random server_random in
    let t' = set_secrets c t suite hash (psk_bytes psk) client_random server_random in
    let keys = derived_keys c suite hash (psk_bytes psk) client_random server_random in
    let sized = suite_keys-IsSized c suite hash _ client_random server_random lawful in
    let (q, made, back) =
      suite_decipher-suite_cipher c id suite s'.drawn p keys s'.entity found lawful sized short in
    let sent =
      encipher_first c s' suite keys p
        (set_secrets-HasKeys c s suite hash _ client_random server_random here) in
    let received =
      decipher_first c t' suite keys q
        (set_secrets-HasKeys c t suite hash _ client_random server_random there) in
    let ends : t'.entity ≡ other_end s'.entity =
      entity-set_secrets c t suite hash _ client_random server_random
      ∙ (opposite
          ∙ ap other_end (sym (entity-set_secrets c s suite hash _ client_random server_random))) in
    (
      s',
      t',
      q,
      compute_master_secret-ready c s suite hash psk client_random server_random has_prf here,
      compute_master_secret-ready c t suite hash psk client_random server_random has_prf there,
      sent ∙ made,
      received ∙ (ap (λ end. suite_decipher c suite q (some keys) end) ends ∙ back),
    )
