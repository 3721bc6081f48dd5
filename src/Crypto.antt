-- ===== src/Crypto.antt =====
-- What the program takes from Node's crypto, and from src/lib/AEADCrypto.ts, which only hands the calls
-- on to it: hashes, random bytes and ciphers. Their names are those of src/TLS/BlockCipher.ts,
-- src/TLS/AEADCipher.ts and src/TLS/CipherSuite.ts.
pub mod Toy
use node_dtls_client.Prelude.{ℕ, ◌<◌, ◌^◌, ◌+◌, ◌%◌, ◌≡◌, ◌⊎◌, Bool, true, length}
use node_dtls_client.Errors.{Result, ok}
use node_dtls_client.Convert.{Buffer}

pub data HashAlgorithm : Type 0 where
  md5 sha1 sha256 sha384 sha512 : HashAlgorithm

-- `keyAndHashLenth` and `hashLength` of the tables of src/TLS/PRF.ts.
abbrev pub hash_length : HashAlgorithm → ℕ
hash_length md5 = 16
hash_length sha1 = 20
hash_length sha256 = 32
hash_length sha384 = 48
hash_length sha512 = 64

pub data BlockAlgorithm : Type 0 where
  aes_128_cbc aes_256_cbc des_ede3_cbc : BlockAlgorithm

pub data AeadAlgorithm : Type 0 where
  aes_128_ccm aes_256_ccm aes_128_ccm8 aes_256_ccm8 aes_128_gcm aes_256_gcm : AeadAlgorithm

pub data AeadMode : Type 0 where
  ccm gcm : AeadMode

pub record BlockParameter : Type 0 where
  pub key_length : ℕ
  pub block_size : ℕ
  pub record_iv_length : ℕ

abbrev pub block_parameter : BlockAlgorithm → BlockParameter
block_parameter aes_128_cbc = record { key_length = 16; block_size = 16; record_iv_length = 16 }
block_parameter aes_256_cbc = record { key_length = 32; block_size = 16; record_iv_length = 16 }
block_parameter des_ede3_cbc = record { key_length = 24; block_size = 8; record_iv_length = 8 }

-- `random_bytes i n` is the `i`-th draw. The block ciphers are those with automatic padding off: what
-- `update` and `final` give, joined. `aead_encrypt` gives a ciphertext and a tag of the length asked
-- for, `aead_decrypt` a plaintext and whether the tag is right.
pub record Crypto : Type 0 where
  pub hmac : HashAlgorithm → Buffer → Buffer → Buffer
  pub hash : HashAlgorithm → Buffer → Buffer
  pub random_bytes : ℕ → ℕ → Buffer
  pub cbc_encrypt : BlockAlgorithm → Buffer → Buffer → Buffer → Result Buffer
  pub cbc_decrypt : BlockAlgorithm → Buffer → Buffer → Buffer → Result Buffer
  pub aead_encrypt : AeadMode → Buffer → Buffer → Buffer → Buffer → ℕ → Result (Buffer × Buffer)
  pub aead_decrypt : AeadMode → Buffer → Buffer → Buffer → Buffer → Buffer → Result (Buffer × Bool)

-- What is documented of them. A digest has the length of its algorithm. With a key and a vector of the
-- right sizes and whole blocks, a block cipher is undone by its decipher. An AEAD cipher, with a key, a
-- vector and a tag of the sizes of AES, and fewer than 2 ^ 24 bytes, which is the limit of CCM with a
-- nonce of 12 bytes, keeps the length, and is undone by its decipher, which finds the tag right.
pub record IsCrypto (c : Crypto) : Type 0 where
  pub hmac_size :
      (a : HashAlgorithm) (secret d : Buffer) → length (c.hmac a secret d) ≡ hash_length a
  pub random_size : (i n : ℕ) → length (c.random_bytes i n) ≡ n
  pub cbc_trip :
      (a : BlockAlgorithm) (key iv d : Buffer)
      → length key ≡ (block_parameter a).key_length
      → length iv ≡ (block_parameter a).record_iv_length
      → length d % (block_parameter a).block_size ≡ 0
      → (ciphered : Buffer) × (c.cbc_encrypt a key iv d ≡ ok ciphered)
        × (c.cbc_decrypt a key iv ciphered ≡ ok d)
  pub aead_trip :
      (m : AeadMode) (key iv d extra : Buffer) (tag_length : ℕ)
      → (length key ≡ 16) ⊎ (length key ≡ 32)
      → length iv ≡ 12
      → (tag_length ≡ 8) ⊎ (tag_length ≡ 16)
      → length d < 2 ^ 24
      → (ciphered : Buffer) × (tag : Buffer) × (c.aead_encrypt m key iv d extra tag_length
          ≡ ok (ciphered, tag))
        × (length ciphered ≡ length d)
        × (length tag ≡ tag_length)
        × (c.aead_decrypt m key iv ciphered extra tag ≡ ok (d, true))
