-- ===== src/Crypto/Toy.antt =====
-- A crypto for runs: digests of zeros, and ciphers that change nothing.
use node_dtls_client.Prelude.{refl, length-replicate, replicate, true}
use node_dtls_client.Errors.{ok}
use node_dtls_client.Crypto.{Crypto, IsCrypto, hash_length}

abbrev pub toy : Crypto
toy = record {
  hmac = λ a secret d. replicate (hash_length a) 0;
  hash = λ a d. replicate (hash_length a) 0;
  random_bytes = λ i n. replicate n i;
  cbc_encrypt = λ a key iv d. ok d;
  cbc_decrypt = λ a key iv d. ok d;
  aead_encrypt = λ m key iv d extra tag_length. ok (d, replicate tag_length 0);
  aead_decrypt = λ m key iv d extra tag. ok (d, true);
}

pub toy-IsCrypto : IsCrypto toy
toy-IsCrypto = record {
  hmac_size = λ a secret d. length-replicate (hash_length a) 0;
  random_size = λ i n. length-replicate n i;
  cbc_trip = λ a key iv d key_size iv_size whole. (d, refl, refl);
  aead_trip = λ m key iv d extra tag_length key_size iv_size tag_size short.
      (d, replicate tag_length 0, refl, refl, length-replicate tag_length 0, refl);
}
