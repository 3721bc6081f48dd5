-- ===== src/Aead.antt =====
-- src/TLS/AEADCipher.ts: the authenticated encryption of a packet's fragment, and the way back.
pub mod Trip
pub mod Authentic
use node_dtls_client.Prelude.{
  ℕ, ◌+◌, ◌-◌, ◌^◌, ◌++◌, Bool, true, false, leb, if◌then◌else◌, length, take, drop,
}
use node_dtls_client.Errors.{Result, ok, err, ◌>>=◌, not_authentic}
use node_dtls_client.Convert.{Buffer}
use node_dtls_client.TypeSpecs.{struct}
use node_dtls_client.Codec.{serialize}
use node_dtls_client.Messages.{additional_data}
use node_dtls_client.Record.Packet.{DtlsPacket}
use node_dtls_client.Keys.{KeyMaterial}
use node_dtls_client.Crypto.{
  Crypto, AeadAlgorithm, AeadMode, ccm, gcm, aes_128_ccm, aes_256_ccm, aes_128_ccm8, aes_256_ccm8,
  aes_128_gcm, aes_256_gcm,
}
use node_dtls_client.Block.{ConnectionEnd, server, client, other_end, write_key, header_value}

pub record AeadParameter : Type 0 where
  pub mode : AeadMode
  pub key_length : ℕ
  pub block_size : ℕ
  pub fixed_iv_length : ℕ
  pub record_iv_length : ℕ
  pub auth_tag_length : ℕ

abbrev aes_parameter : AeadMode → ℕ → ℕ → AeadParameter
aes_parameter m key tag = record {
  mode = m;
  key_length = key;
  block_size = 16;
  fixed_iv_length = 4;
  record_iv_length = 8;
  auth_tag_length = tag;
}

abbrev pub aead_parameter : AeadAlgorithm → AeadParameter
aead_parameter aes_128_ccm = aes_parameter ccm 16 16
aead_parameter aes_128_ccm8 = aes_parameter ccm 16 8
aead_parameter aes_256_ccm = aes_parameter ccm 32 16
aead_parameter aes_256_ccm8 = aes_parameter ccm 32 8
aead_parameter aes_128_gcm = aes_parameter gcm 16 16
aead_parameter aes_256_gcm = aes_parameter gcm 32 16

abbrev pub write_iv : ConnectionEnd → KeyMaterial → Buffer
write_iv server k = k.server_write_iv
write_iv client k = k.client_write_iv

unfoldable pub compute_additional_data : DtlsPacket → ℕ → Result Buffer
compute_additional_data p fragment_length =
    serialize (struct additional_data) (header_value p fragment_length)

-- `draw` is the number of the explicit nonce.
unfoldable pub aead_cipher :
    Crypto → AeadAlgorithm → ℕ → DtlsPacket → KeyMaterial → ConnectionEnd → Result DtlsPacket
aead_cipher c algorithm draw p keys end = do
  let a = aead_parameter algorithm
  let nonce_explicit = c.random_bytes draw a.record_iv_length
  let nonce = write_iv end keys ++ nonce_explicit
  extra ← compute_additional_data p (length p.fragment)
  (ciphertext, auth_tag) ←
      c.aead_encrypt a.mode (write_key end keys) nonce p.fragment extra a.auth_tag_length
  ok (record p { fragment = nonce_explicit ++ (ciphertext ++ auth_tag) })

-- The length without the overhead. Where that is negative, it is its 32-bit pattern.
abbrev pub content_length : ℕ → ℕ → ℕ
content_length len overhead = if leb overhead len then len - overhead else len + 2 ^ 32 - overhead

unfoldable pub accept_plaintext : DtlsPacket → Buffer × Bool → Result DtlsPacket
accept_plaintext p (plaintext, false) = err not_authentic
accept_plaintext p (plaintext, true) = ok (record p { fragment = plaintext })

unfoldable pub aead_decipher :
    Crypto → AeadAlgorithm → DtlsPacket → KeyMaterial → ConnectionEnd → Result DtlsPacket
unfolding accept_plaintext
aead_decipher c algorithm p keys end = do
  let a = aead_parameter algorithm
  let source = other_end end
  let nonce = write_iv source keys ++ take a.record_iv_length p.fragment
  extra ←
      compute_additional_data p
        (content_length (length p.fragment) (a.record_iv_length + a.auth_tag_length))
  let auth_tag = drop (length p.fragment - a.auth_tag_length) p.fragment
  let ciphered = drop a.record_iv_length (take (length p.fragment - a.auth_tag_length) p.fragment)
  result ← c.aead_decrypt a.mode (write_key source keys) nonce ciphered extra auth_tag
  accept_plaintext p result
