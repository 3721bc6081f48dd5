-- ===== src/Connection/Derive.antt =====
-- The derivation of the secrets on one end of a connection.
use node_dtls_client.Prelude.{ℕ, ◌<◌, ◌≡◌, refl, none, some, length, arith}
use node_dtls_client.Errors.{ok}
use node_dtls_client.Convert.{Buffer}
use node_dtls_client.TypeSpecs.{struct}
use node_dtls_client.Codec.{serialize}
use node_dtls_client.Messages.{pre_master_secret}
use node_dtls_client.Keys.{KeyMaterial}
use node_dtls_client.Keys.Split.{IsPartition, compute_key_material-IsPartition}
use node_dtls_client.Crypto.{
  Crypto, IsCrypto, HashAlgorithm, md5, sha1, sha256, sha384, sha512, hash_length,
}
use node_dtls_client.Block.{ConnectionEnd, server, client, write_key}
use node_dtls_client.Aead.{write_iv}
use node_dtls_client.Suite.{
  CipherSuite, CipherAlgorithm, no_algorithm, block_algorithm, aead_algorithm, suite_mac,
  key_length_of, fixed_iv_length_of,
}
use node_dtls_client.Suite.Trip.{IsSized}
use node_dtls_client.Connection.{
  ConnectionState, psk_secret, expansion_label, suite_keys, set_secrets, compute_master_secret,
}

hash_length-pos : (a : HashAlgorithm) → 0 < hash_length a
hash_length-pos md5 = omega arith
hash_length-pos sha1 = omega arith
hash_length-pos sha256 = omega arith
hash_length-pos sha384 = omega arith
hash_length-pos sha512 = omega arith

hmac-pos :
    (c : Crypto) (hash : HashAlgorithm) (secret d : Buffer)
    → IsCrypto c
    → 0 < length (c.hmac hash secret d)
hmac-pos c hash secret d lawful =
    let e = lawful.hmac_size hash secret d in let h = hash_length-pos hash in omega arith

both_ends : (P : ConnectionEnd → Type 0) → P server → P client → (end : ConnectionEnd) → P end
both_ends P s c server = s
both_ends P s c client = c

partition-IsSized :
    (a : CipherAlgorithm) (block : Buffer) (mac_length : ℕ) (keys : KeyMaterial)
    → IsPartition block mac_length (key_length_of a) (fixed_iv_length_of a) keys
    → IsSized a keys
partition-IsSized no_algorithm block mac_length keys parts = tt
partition-IsSized (block_algorithm a) block mac_length keys parts =
    both_ends (λ end. length (write_key end keys) ≡ key_length_of (block_algorithm a))
      parts.server_key_size parts.client_key_size
partition-IsSized (aead_algorithm a) block mac_length keys parts = record {
  key_size =
      both_ends (λ end. length (write_key end keys) ≡ key_length_of (aead_algorithm a))
        parts.server_key_size parts.client_key_size;
  iv_size =
      both_ends (λ end. length (write_iv end keys) ≡ fixed_iv_length_of (aead_algorithm a))
        parts.server_iv_size parts.client_iv_size;
}

-- The keys of a suite have the sizes of its algorithm.
pub suite_keys-IsSized :
    (c : Crypto) (suite : CipherSuite) (hash : HashAlgorithm)
    (master_secret client_random server_random : Buffer)
    → IsCrypto c
    → IsSized suite.algorithm (suite_keys c suite hash master_secret client_random server_random)
unfolding suite_keys
suite_keys-IsSized c suite hash master_secret client_random server_random lawful =
    partition-IsSized suite.algorithm _ (suite_mac c suite).key_and_hash_length _ (
      compute_key_material-IsPartition (c.hmac hash) master_secret expansion_label server_random
        client_random (suite_mac c suite).key_and_hash_length (key_length_of suite.algorithm)
        (fixed_iv_length_of suite.algorithm) (λ d. hmac-pos c hash master_secret d lawful))

-- An end that knows the suite and both randoms, and has made no delegate.
pub record IsReady (s : ConnectionState) (suite : CipherSuite)
    (client_random server_random : Buffer) : Type 0 where
  pub has_suite : s.cipher_suite ≡ some suite
  pub has_client_random : s.client_random ≡ some client_random
  pub has_server_random : s.server_random ≡ some server_random
  pub no_cipher : s.cipher ≡ none
  pub no_decipher : s.decipher ≡ none

pub psk_secret-ok :
    (psk : Buffer)
    → (secret : Buffer) × (serialize (struct pre_master_secret) (psk_secret psk) ≡ ok secret)
unfolding serialize
psk_secret-ok psk = (_, refl)

-- The bytes of the pre-master secret of a PSK.
unfoldable pub psk_bytes : Buffer → Buffer
psk_bytes psk = (psk_secret-ok psk).0

pub compute_master_secret-ready :
    (c : Crypto) (s : ConnectionState) (suite : CipherSuite) (hash : HashAlgorithm)
    (psk client_random server_random : Buffer)
    → suite.prf_algorithm ≡ some hash
    → IsReady s suite client_random server_random
    → compute_master_secret c s (psk_secret psk)
      ≡ ok (set_secrets c s suite hash (psk_bytes psk) client_random server_random)
unfolding compute_master_secret psk_bytes
compute_master_secret-ready c s suite hash psk client_random server_random has_prf ready =
    rw
      (
        ready.has_suite,
        (psk_secret-ok psk).1,
        ready.has_client_random,
        ready.has_server_random,
        has_prf,
      )
      refl
