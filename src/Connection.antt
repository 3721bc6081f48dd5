-- ===== src/Connection.antt =====
-- src/TLS/ConnectionState.ts: the suite, the randoms and the keys of an epoch, the delegates that it
-- keeps, and the derivation of the master secret and of the keys.
pub mod Derive
pub mod Channel
pub mod Early
pub mod Gate
pub mod Protect
pub mod Tests
use node_dtls_client.Prelude.{
  ℕ, ◌+◌, ◌-◌, ◌^◌, Bool, true, false, List, [], ◌∷◌, ◌++◌, Option, none, some, replicate, length,
}
use node_dtls_client.Errors.{Result, ok, err, ◌>>=◌, type_error}
use node_dtls_client.Convert.{Buffer, Number}
use node_dtls_client.TypeSpecs.{struct}
use node_dtls_client.Codec.{Value, bytes, object, nil, cons, serialize}
use node_dtls_client.Messages.{pre_master_secret}
use node_dtls_client.Record.Packet.{ProtocolVersion, DtlsPacket}
use node_dtls_client.Keys.{KeyMaterial, prf, compute_key_material}
use node_dtls_client.Crypto.{Crypto, HashAlgorithm}
use node_dtls_client.Block.{ConnectionEnd, client}
use node_dtls_client.Suite.{
  CipherSuite, suite_mac, suite_cipher, suite_decipher, key_length_of, fixed_iv_length_of,
}
use node_dtls_client.Suite.Table.{null_suite}

-- What `specifyCipher` and `specifyDecipher` make: a function of a packet that holds the suite, and the
-- keys and the end of that moment.
pub record Delegate : Type 0 where
  pub suite : CipherSuite
  pub keys : Option KeyMaterial
  pub end_point : ConnectionEnd

-- `none` is undefined; the suite is so once it is looked up by a number that has none. `drawn` is how
-- many random vectors were drawn.
pub record ConnectionState : Type 0 where
  pub entity : ConnectionEnd
  pub cipher_suite : Option CipherSuite
  pub protocol_version : ProtocolVersion
  pub compression_algorithm : Number
  pub master_secret : Option Buffer
  pub client_random : Option Buffer
  pub server_random : Option Buffer
  pub key_material : Option KeyMaterial
  pub cipher : Option Delegate
  pub decipher : Option Delegate
  pub drawn : ℕ

-- `new ProtocolVersion(~1, ~0)`
abbrev pub dtls_version_1_0 : ProtocolVersion
dtls_version_1_0 = record { major = 2 ^ 32 - 2; minor = 2 ^ 32 - 1 }

unfoldable pub new_connection_state : ConnectionState
new_connection_state = record {
  entity = client;
  cipher_suite = some null_suite;
  protocol_version = dtls_version_1_0;
  compression_algorithm = some 0;
  master_secret = none;
  client_random = none;
  server_random = none;
  key_material = none;
  cipher = none;
  decipher = none;
  drawn = 0;
}

-- A property of undefined throws.
abbrev pub need {ℓ} : {A : Type ℓ} → Option A → Result A
need none = err type_error
need (some a) = ok a

abbrev pub specify : ConnectionState → CipherSuite → Delegate
specify s suite = record { suite = suite; keys = s.key_material; end_point = s.entity }

-- The getter `Cipher`: the delegate that is kept, or a new one.
unfoldable pub get_cipher : ConnectionState → ConnectionState × Result Delegate
get_cipher s = elim s.cipher [
  | some d ↦ (s, ok d)
  | none ↦ elim s.cipher_suite [
    | none ↦ (s, err type_error)
    | some suite ↦ (record s { cipher = some (specify s suite) }, ok (specify s suite))
  ]
]

unfoldable pub get_decipher : ConnectionState → ConnectionState × Result Delegate
get_decipher s = elim s.decipher [
  | some d ↦ (s, ok d)
  | none ↦ elim s.cipher_suite [
    | none ↦ (s, err type_error)
    | some suite ↦ (record s { decipher = some (specify s suite) }, ok (specify s suite))
  ]
]

-- `Cipher(packet)`
unfoldable pub encipher :
    Crypto → ConnectionState → DtlsPacket → ConnectionState × Result DtlsPacket
unfolding get_cipher
encipher c s p =
    let (s', specified) = get_cipher s in
    (
      record s' { drawn = s'.drawn + 1 },
      (specified >>= λ d. suite_cipher c d.suite s'.drawn p d.keys d.end_point),
    )

-- `Decipher(packet)`
unfoldable pub decipher_packet :
    Crypto → ConnectionState → DtlsPacket → ConnectionState × Result DtlsPacket
unfolding get_decipher
decipher_packet c s p =
    let (s', specified) = get_decipher s in
    (s', (specified >>= λ d. suite_decipher c d.suite p d.keys d.end_point))

-- The pre-master secret of a PSK: other_secret is as many zeros.
abbrev pub psk_secret : Buffer → Value
psk_secret psk = object (cons (bytes (replicate (length psk) 0)) (cons (bytes psk) nil))

-- "master secret" and "key expansion" in ASCII.
abbrev pub master_label : Buffer
master_label = 109 ∷ 97 ∷ 115 ∷ 116 ∷ 101 ∷ 114 ∷ 32 ∷ 115 ∷ 101 ∷ 99 ∷ 114 ∷ 101 ∷ 116 ∷ []

abbrev pub expansion_label : Buffer
expansion_label = 107 ∷ 101 ∷ 121 ∷ 32 ∷ 101 ∷ 120 ∷ 112 ∷ 97 ∷ 110 ∷ 115 ∷ 105 ∷ 111 ∷ 110 ∷ []

unfoldable pub suite_keys :
    Crypto → CipherSuite → HashAlgorithm → Buffer → Buffer → Buffer → KeyMaterial
suite_keys c suite hash master_secret client_random server_random =
    compute_key_material (c.hmac hash) master_secret expansion_label server_random client_random
      (suite_mac c suite).key_and_hash_length (key_length_of suite.algorithm)
      (fixed_iv_length_of suite.algorithm)

abbrev pub derived_secret : Crypto → HashAlgorithm → Buffer → Buffer → Buffer → Buffer
derived_secret c hash secret client_random server_random =
    prf (c.hmac hash) secret master_label (client_random ++ server_random) 48

abbrev pub derived_keys :
    Crypto → CipherSuite → HashAlgorithm → Buffer → Buffer → Buffer → KeyMaterial
derived_keys c suite hash secret client_random server_random =
    suite_keys c suite hash (derived_secret c hash secret client_random server_random) client_random
      server_random

-- The master secret and the key material that are set once the parts are there.
unfoldable pub set_secrets :
    Crypto
    → ConnectionState
    → CipherSuite
    → HashAlgorithm
    → Buffer
    → Buffer
    → Buffer
    → ConnectionState
set_secrets c s suite hash secret client_random server_random = record s {
  master_secret = some (derived_secret c hash secret client_random server_random);
  key_material = some (derived_keys c suite hash secret client_random server_random);
}

-- `computeMasterSecret`. The arguments are evaluated before the call; whatever throws does so before the
-- state is changed.
unfoldable pub compute_master_secret : Crypto → ConnectionState → Value → Result ConnectionState
unfolding set_secrets
compute_master_secret c s pre_secret = need s.cipher_suite >>= λ suite.
    serialize (struct pre_master_secret) pre_secret >>= λ secret.
    need s.client_random >>= λ client_random. need s.server_random >>= λ server_random.
    need suite.prf_algorithm >>= λ hash.
    ok (set_secrets c s suite hash secret client_random server_random)
