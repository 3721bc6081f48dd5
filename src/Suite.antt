-- ===== src/Suite.antt =====
-- src/TLS/CipherSuite.ts and src/DTLS/CipherSuites.ts. A delegate is made anew where the source keeps
-- the one it made: it has no state.
pub mod Table
pub mod Trip
pub mod Header
use node_dtls_client.Prelude.{ℕ, [], Option, none, some}
use node_dtls_client.Errors.{Result, ok, err, type_error}
use node_dtls_client.Convert.{Buffer}
use node_dtls_client.Record.Packet.{DtlsPacket}
use node_dtls_client.Keys.{KeyMaterial}
use node_dtls_client.Crypto.{
  Crypto, HashAlgorithm, hash_length, BlockAlgorithm, AeadAlgorithm, block_parameter,
}
use node_dtls_client.Block.{
  ConnectionEnd, server, client, MacDelegate, block_cipher, block_decipher,
}
use node_dtls_client.Aead.{aead_parameter, aead_cipher, aead_decipher}

pub data KeyExchangeAlgorithm : Type 0 where
  dhe_dss dhe_rsa rsa dh_dss dh_rsa psk dhe_psk rsa_psk : KeyExchangeAlgorithm

-- `CipherType`, where null is `none`.
pub data CipherType : Type 0 where
  block aead : CipherType

-- `algorithm`, which may be left out.
pub data CipherAlgorithm : Type 0 where
  no_algorithm : CipherAlgorithm
  block_algorithm : BlockAlgorithm → CipherAlgorithm
  aead_algorithm : AeadAlgorithm → CipherAlgorithm

pub record CipherSuite : Type 0 where
  pub id : ℕ
  pub key_exchange : Option KeyExchangeAlgorithm
  pub mac_algorithm : Option HashAlgorithm
  pub prf_algorithm : Option HashAlgorithm
  pub cipher_type : Option CipherType
  pub algorithm : CipherAlgorithm
  pub verify_data_length : ℕ

abbrev pub write_mac_key : ConnectionEnd → KeyMaterial → Buffer
write_mac_key server k = k.server_write_mac_key
write_mac_key client k = k.client_write_mac_key

abbrev pub null_mac : MacDelegate
null_mac = record { key_and_hash_length = 0; compute = λ d keys source. [] }

abbrev pub hash_mac : Crypto → HashAlgorithm → MacDelegate
hash_mac c algorithm = record {
  key_and_hash_length = hash_length algorithm;
  compute = λ d keys source. c.hmac algorithm (write_mac_key source keys) d;
}

-- `createMAC`, by the cipher type and the MAC algorithm.
abbrev pub create_mac : Crypto → Option CipherType → Option HashAlgorithm → MacDelegate
create_mac c none algorithm = null_mac
create_mac c (some aead) algorithm = null_mac
create_mac c (some block) none = null_mac
create_mac c (some block) (some algorithm) = hash_mac c algorithm

abbrev pub suite_mac : Crypto → CipherSuite → MacDelegate
suite_mac c s = create_mac c s.cipher_type s.mac_algorithm

-- The delegate of a suite, called with the key material, which is undefined before the keys are there:
-- only the null cipher does without. An algorithm that is not of the type has no parameters.
unfoldable pub dispatch_cipher :
    Crypto
    → Option CipherType
    → CipherAlgorithm
    → MacDelegate
    → ℕ
    → DtlsPacket
    → Option KeyMaterial
    → ConnectionEnd
    → Result DtlsPacket
dispatch_cipher c none _ mac draw p keys end = ok p
dispatch_cipher c (some block) (block_algorithm a) mac draw p (some keys) end =
    block_cipher c a mac draw p keys end
dispatch_cipher c (some aead) (aead_algorithm a) mac draw p (some keys) end =
    aead_cipher c a draw p keys end
dispatch_cipher c _ _ mac draw p keys end = err type_error

unfoldable pub dispatch_decipher :
    Crypto
    → Option CipherType
    → CipherAlgorithm
    → MacDelegate
    → DtlsPacket
    → Option KeyMaterial
    → ConnectionEnd
    → Result DtlsPacket
dispatch_decipher c none _ mac p keys end = ok p
dispatch_decipher c (some block) (block_algorithm a) mac p (some keys) end =
    block_decipher c a mac p keys end
dispatch_decipher c (some aead) (aead_algorithm a) mac p (some keys) end =
    aead_decipher c a p keys end
dispatch_decipher c _ _ mac p keys end = err type_error

-- `specifyCipher(keyMaterial, connEnd)(packet)`
unfoldable pub suite_cipher :
    Crypto → CipherSuite → ℕ → DtlsPacket → Option KeyMaterial → ConnectionEnd → Result DtlsPacket
unfolding dispatch_cipher
suite_cipher c s draw p keys end =
    dispatch_cipher c s.cipher_type s.algorithm (suite_mac c s) draw p keys end

-- `specifyDecipher(keyMaterial, connEnd)(packet)`
unfoldable pub suite_decipher :
    Crypto → CipherSuite → DtlsPacket → Option KeyMaterial → ConnectionEnd → Result DtlsPacket
unfolding dispatch_decipher
suite_decipher c s p keys end =
    dispatch_decipher c s.cipher_type s.algorithm (suite_mac c s) p keys end

-- `Cipher.keyLength` and `Cipher.fixedIvLength`, where 0 stands for a length that is not given.
abbrev pub key_length_of : CipherAlgorithm → ℕ
key_length_of no_algorithm = 0
key_length_of (block_algorithm a) = (block_parameter a).key_length
key_length_of (aead_algorithm a) = (aead_parameter a).key_length

abbrev pub fixed_iv_length_of : CipherAlgorithm → ℕ
fixed_iv_length_of no_algorithm = 0
fixed_iv_length_of (block_algorithm a) = 0
fixed_iv_length_of (aead_algorithm a) = (aead_parameter a).fixed_iv_length
