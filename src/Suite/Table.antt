-- ===== src/Suite/Table.antt =====
-- src/DTLS/CipherSuites.ts: the suites by name, and by number.
use Prim.Native.String.{String}
use text.Mathlib.Text.{◌==◌ as str_eq}
use node_dtls_client.Prelude.{ℕ, List, [], ◌∷◌, Option, none, some, ◌==◌, if◌then◌else◌}
use node_dtls_client.Crypto.{
  HashAlgorithm, md5, sha1, sha256, sha384, aes_128_cbc, aes_256_cbc, des_ede3_cbc, aes_128_ccm,
  aes_256_ccm, aes_128_ccm8, aes_256_ccm8, aes_128_gcm, aes_256_gcm,
}
use node_dtls_client.Suite.{
  KeyExchangeAlgorithm, CipherType, block, aead, CipherAlgorithm, no_algorithm, block_algorithm,
  aead_algorithm, CipherSuite, dhe_dss, dhe_rsa, rsa, dh_dss, dh_rsa, psk, dhe_psk, rsa_psk,
}

-- The constructor, with the default length of the verify data.
abbrev pub suite :
    ℕ
    → Option KeyExchangeAlgorithm
    → Option HashAlgorithm
    → Option HashAlgorithm
    → Option CipherType
    → CipherAlgorithm
    → CipherSuite
suite id key_exchange mac_algorithm prf_algorithm cipher_type algorithm = record {
  id = id;
  key_exchange = key_exchange;
  mac_algorithm = mac_algorithm;
  prf_algorithm = prf_algorithm;
  cipher_type = cipher_type;
  algorithm = algorithm;
  verify_data_length = 12;
}

abbrev pub null_suite : CipherSuite
null_suite = suite 0 none none none none no_algorithm

unfoldable pub cipher_suites : List (String × CipherSuite)
cipher_suites =
    ("TLS_NULL_WITH_NULL_NULL", suite 0 none none none none no_algorithm)
    ∷ ("TLS_RSA_WITH_NULL_MD5", suite 1 (some rsa) (some md5) (some sha256) none no_algorithm)
    ∷ ("TLS_RSA_WITH_NULL_SHA", suite 2 (some rsa) (some sha1) (some sha256) none no_algorithm)
    ∷ (
      "TLS_RSA_WITH_NULL_SHA256",
      suite 59 (some rsa) (some sha256) (some sha256) none no_algorithm,
    )
    ∷ (
      "TLS_RSA_WITH_3DES_EDE_CBC_SHA",
      suite 10 (some rsa) (some sha1) (some sha256) (some block) (block_algorithm des_ede3_cbc),
    )
    ∷ (
      "TLS_RSA_WITH_AES_128_CBC_SHA",
      suite 47 (some rsa) (some sha1) (some sha256) (some block) (block_algorithm aes_128_cbc),
    )
    ∷ (
      "TLS_RSA_WITH_AES_256_CBC_SHA",
      suite 53 (some rsa) (some sha1) (some sha256) (some block) (block_algorithm aes_256_cbc),
    )
    ∷ (
      "TLS_RSA_WITH_AES_128_CBC_SHA256",
      suite 60 (some rsa) (some sha256) (some sha256) (some block) (block_algorithm aes_128_cbc),
    )
    ∷ (
      "TLS_RSA_WITH_AES_256_CBC_SHA256",
      suite 61 (some rsa) (some sha256) (some sha256) (some block) (block_algorithm aes_256_cbc),
    )
    ∷ (
      "TLS_DH_DSS_WITH_3DES_EDE_CBC_SHA",
      suite 13 (some dh_dss) (some sha1) (some sha256) (some block) (block_algorithm des_ede3_cbc),
    )
    ∷ (
      "TLS_DH_RSA_WITH_3DES_EDE_CBC_SHA",
      suite 16 (some dh_rsa) (some sha1) (some sha256) (some block) (block_algorithm des_ede3_cbc),
    )
    ∷ (
      "TLS_DHE_DSS_WITH_3DES_EDE_CBC_SHA",
      suite 19 (some dhe_dss) (some sha1) (some sha256) (some block) (block_algorithm des_ede3_cbc),
    )
    ∷ (
      "TLS_DHE_RSA_WITH_3DES_EDE_CBC_SHA",
      suite 22 (some dhe_rsa) (some sha1) (some sha256) (some block) (block_algorithm des_ede3_cbc),
    )
    ∷ (
      "TLS_DH_DSS_WITH_AES_128_CBC_SHA",
      suite 48 (some dh_dss) (some sha1) (some sha256) (some block) (block_algorithm aes_128_cbc),
    )
    ∷ (
      "TLS_DH_RSA_WITH_AES_128_CBC_SHA",
      suite 49 (some dh_rsa) (some sha1) (some sha256) (some block) (block_algorithm aes_128_cbc),
    )
    ∷ (
      "TLS_DHE_DSS_WITH_AES_128_CBC_SHA",
      suite 50 (some dhe_dss) (some sha1) (some sha256) (some block) (block_algorithm aes_128_cbc),
    )
    ∷ (
      "TLS_DHE_RSA_WITH_AES_128_CBC_SHA",
      suite 51 (some dhe_rsa) (some sha1) (some sha256) (some block) (block_algorithm aes_128_cbc),
    )
    ∷ (
      "TLS_DH_DSS_WITH_AES_256_CBC_SHA",
      suite 54 (some dh_dss) (some sha1) (some sha256) (some block) (block_algorithm aes_256_cbc),
    )
    ∷ (
      "TLS_DH_RSA_WITH_AES_256_CBC_SHA",
      suite 55 (some dh_rsa) (some sha1) (some sha256) (some block) (block_algorithm aes_256_cbc),
    )
    ∷ (
      "TLS_DHE_DSS_WITH_AES_256_CBC_SHA",
      suite 56 (some dhe_dss) (some sha1) (some sha256) (some block) (block_algorithm aes_256_cbc),
    )
    ∷ (
      "TLS_DHE_RSA_WITH_AES_256_CBC_SHA",
      suite 57 (some dhe_rsa) (some sha1) (some sha256) (some block) (block_algorithm aes_256_cbc),
    )
    ∷ (
      "TLS_DH_DSS_WITH_AES_128_CBC_SHA256",
      suite 62 (some dh_dss) (some sha256) (some sha256) (some block) (block_algorithm aes_128_cbc),
    )
    ∷ (
      "TLS_DH_RSA_WITH_AES_128_CBC_SHA256",
      suite 63 (some dh_rsa) (some sha256) (some sha256) (some block) (block_algorithm aes_128_cbc),
    )
    ∷ (
      "TLS_DHE_DSS_WITH_AES_128_CBC_SHA256",
      suite 64 (some dhe_dss) (some sha256) (some sha256) (some block)
          (block_algorithm aes_128_cbc),
    )
    ∷ (
      "TLS_DHE_RSA_WITH_AES_128_CBC_SHA256",
      suite 103 (some dhe_rsa) (some sha256) (some sha256) (some block)
          (block_algorithm aes_128_cbc),
    )
    ∷ (
      "TLS_DH_DSS_WITH_AES_256_CBC_SHA256",
      suite 104 (some dh_dss) (some sha256) (some sha256) (some block)
          (block_algorithm aes_256_cbc),
    )
    ∷ (
      "TLS_DH_RSA_WITH_AES_256_CBC_SHA256",
      suite 105 (some dh_rsa) (some sha256) (some sha256) (some block)
          (block_algorithm aes_256_cbc),
    )
    ∷ (
      "TLS_DHE_DSS_WITH_AES_256_CBC_SHA256",
      suite 106 (some dhe_dss) (some sha256) (some sha256) (some block)
          (block_algorithm aes_256_cbc),
    )
    ∷ (
      "TLS_DHE_RSA_WITH_AES_256_CBC_SHA256",
      suite 107 (some dhe_rsa) (some sha256) (some sha256) (some block)
          (block_algorithm aes_256_cbc),
    )
    ∷ (
      "TLS_PSK_WITH_3DES_EDE_CBC_SHA",
      suite 139 (some psk) (some sha1) (some sha256) (some block) (block_algorithm des_ede3_cbc),
    )
    ∷ (
      "TLS_PSK_WITH_AES_128_CBC_SHA",
      suite 140 (some psk) (some sha1) (some sha256) (some block) (block_algorithm aes_128_cbc),
    )
    ∷ (
      "TLS_PSK_WITH_AES_256_CBC_SHA",
      suite 141 (some psk) (some sha1) (some sha256) (some block) (block_algorithm aes_256_cbc),
    )
    ∷ (
      "TLS_DHE_PSK_WITH_3DES_EDE_CBC_SHA",
      suite 143 (some dhe_psk) (some sha1) (some sha256) (some block)
          (block_algorithm des_ede3_cbc),
    )
    ∷ (
      "TLS_DHE_PSK_WITH_AES_128_CBC_SHA",
      suite 144 (some dhe_psk) (some sha1) (some sha256) (some block) (block_algorithm aes_128_cbc),
    )
    ∷ (
      "TLS_DHE_PSK_WITH_AES_256_CBC_SHA",
      suite 145 (some dhe_psk) (some sha1) (some sha256) (some block) (block_algorithm aes_256_cbc),
    )
    ∷ (
      "TLS_RSA_PSK_WITH_3DES_EDE_CBC_SHA",
      suite 147 (some rsa_psk) (some sha1) (some sha256) (some block)
          (block_algorithm des_ede3_cbc),
    )
    ∷ (
      "TLS_RSA_PSK_WITH_AES_128_CBC_SHA",
      suite 148 (some rsa_psk) (some sha1) (some sha256) (some block) (block_algorithm aes_128_cbc),
    )
    ∷ (
      "TLS_RSA_PSK_WITH_AES_256_CBC_SHA",
      suite 149 (some rsa_psk) (some sha1) (some sha256) (some block) (block_algorithm aes_256_cbc),
    )
    ∷ (
      "TLS_PSK_WITH_AES_128_CBC_SHA256",
      suite 174 (some psk) (some sha256) (some sha256) (some block) (block_algorithm aes_128_cbc),
    )
    ∷ (
      "TLS_PSK_WITH_AES_256_CBC_SHA384",
      suite 175 (some psk) (some sha384) (some sha384) (some block) (block_algorithm aes_256_cbc),
    )
    ∷ (
      "TLS_DHE_PSK_WITH_AES_128_CBC_SHA256",
      suite 178 (some dhe_psk) (some sha256) (some sha256) (some block)
          (block_algorithm aes_128_cbc),
    )
    ∷ (
      "TLS_DHE_PSK_WITH_AES_256_CBC_SHA384",
      suite 179 (some dhe_psk) (some sha384) (some sha384) (some block)
          (block_algorithm aes_256_cbc),
    )
    ∷ (
      "TLS_RSA_PSK_WITH_AES_128_CBC_SHA256",
      suite 182 (some rsa_psk) (some sha256) (some sha256) (some block)
          (block_algorithm aes_128_cbc),
    )
    ∷ (
      "TLS_RSA_PSK_WITH_AES_256_CBC_SHA384",
      suite 183 (some rsa_psk) (some sha384) (some sha384) (some block)
          (block_algorithm aes_256_cbc),
    )
    ∷ (
      "TLS_PSK_WITH_AES_128_GCM_SHA256",
      suite 168 (some psk) none (some sha256) (some aead) (aead_algorithm aes_128_gcm),
    )
    ∷ (
      "TLS_PSK_WITH_AES_256_GCM_SHA384",
      suite 169 (some psk) none (some sha384) (some aead) (aead_algorithm aes_256_gcm),
    )
    ∷ (
      "TLS_PSK_WITH_AES_128_CCM",
      suite 49316 (some psk) none (some sha256) (some aead) (aead_algorithm aes_128_ccm),
    )
    ∷ (
      "TLS_PSK_WITH_AES_256_CCM",
      suite 49317 (some psk) none (some sha256) (some aead) (aead_algorithm aes_256_ccm),
    )
    ∷ (
      "TLS_DHE_PSK_WITH_AES_128_CCM",
      suite 49318 (some dhe_psk) none (some sha256) (some aead) (aead_algorithm aes_128_ccm),
    )
    ∷ (
      "TLS_DHE_PSK_WITH_AES_256_CCM",
      suite 49319 (some dhe_psk) none (some sha256) (some aead) (aead_algorithm aes_256_ccm),
    )
    ∷ (
      "TLS_PSK_WITH_AES_128_CCM_8",
      suite 49320 (some psk) none (some sha256) (some aead) (aead_algorithm aes_128_ccm8),
    )
    ∷ (
      "TLS_PSK_WITH_AES_256_CCM_8",
      suite 49321 (some psk) none (some sha256) (some aead) (aead_algorithm aes_256_ccm8),
    )
    ∷ (
      "TLS_PSK_DHE_WITH_AES_128_CCM_8",
      suite 49322 (some dhe_psk) none (some sha256) (some aead) (aead_algorithm aes_128_ccm8),
    )
    ∷ (
      "TLS_PSK_DHE_WITH_AES_256_CCM_8",
      suite 49323 (some dhe_psk) none (some sha256) (some aead) (aead_algorithm aes_256_ccm8),
    )
    ∷ []

-- `CipherSuites[id]`: the first suite with the number.
unfoldable pub find_suite : ℕ → List (String × CipherSuite) → Option CipherSuite
find_suite id [] = none
find_suite id ((name, s) ∷ rest) = if s.id == id then some s else find_suite id rest

-- `CipherSuites[name].id`
unfoldable pub suite_number : String → List (String × CipherSuite) → Option ℕ
suite_number name [] = none
suite_number name ((n, s) ∷ rest) = if str_eq n name then some s.id else suite_number name rest

unfoldable pub suite_of_id : ℕ → Option CipherSuite
unfolding find_suite cipher_suites
suite_of_id id = find_suite id cipher_suites
