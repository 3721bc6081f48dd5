-- ===== src/Suite/Header.antt =====
-- The decipher of any suite keeps the header.
use node_dtls_client.Prelude.{◌≡◌, refl, Option, none, some}
use node_dtls_client.Errors.{ok}
use node_dtls_client.Record.Packet.{DtlsPacket}
use node_dtls_client.Keys.{KeyMaterial}
use node_dtls_client.Crypto.{Crypto}
use node_dtls_client.Block.{ConnectionEnd, MacDelegate}
use node_dtls_client.Block.Authentic.{block_decipher-IsAuthentic}
use node_dtls_client.Aead.Authentic.{aead_decipher-auth_ok}
use node_dtls_client.Suite.{
  CipherType, block, aead, CipherAlgorithm, no_algorithm, block_algorithm, aead_algorithm,
  CipherSuite, suite_mac, dispatch_decipher, suite_decipher,
}

dispatch_decipher-header :
    (c : Crypto) (t : Option CipherType) (a : CipherAlgorithm) (mac : MacDelegate)
    (p q : DtlsPacket) (keys : Option KeyMaterial) (end : ConnectionEnd)
    → dispatch_decipher c t a mac p keys end ≡ ok q
    → q ≡ record p { fragment = q.fragment }
unfolding dispatch_decipher
dispatch_decipher-header c none a mac p q keys end h = let same : p ≡ q = cc in rw (← same) refl
dispatch_decipher-header c (some block) no_algorithm mac p q keys end h = cc
dispatch_decipher-header c (some block) (aead_algorithm a) mac p q keys end h = cc
dispatch_decipher-header c (some block) (block_algorithm a) mac p q none end h = cc
dispatch_decipher-header c (some block) (block_algorithm a) mac p q (some keys) end h =
    let (deciphered, plaintext, decrypted, stripped, authentic) =
      block_decipher-IsAuthentic c a mac p q keys end h in
    authentic.header
dispatch_decipher-header c (some aead) no_algorithm mac p q keys end h = cc
dispatch_decipher-header c (some aead) (block_algorithm a) mac p q keys end h = cc
dispatch_decipher-header c (some aead) (aead_algorithm a) mac p q none end h = cc
dispatch_decipher-header c (some aead) (aead_algorithm a) mac p q (some keys) end h =
    (aead_decipher-auth_ok c a p q keys end h).0

pub suite_decipher-header :
    (c : Crypto) (s : CipherSuite) (p q : DtlsPacket) (keys : Option KeyMaterial)
    (end : ConnectionEnd)
    → suite_decipher c s p keys end ≡ ok q
    → q ≡ record p { fragment = q.fragment }
unfolding suite_decipher
suite_decipher-header c s p q keys end h =
    dispatch_decipher-header c s.cipher_type s.algorithm (suite_mac c s) p q keys end h
