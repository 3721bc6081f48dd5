-- ===== src/Block/Trip.antt =====
-- A packet through the block cipher and back.
use node_dtls_client.Prelude.{
  ℕ, suc, ◌+◌, ◌-◌, ◌%◌, ◌≡◌, ◌∙◌, refl, ap, [], ◌∷◌, ◌++◌, append-nil, true, length, length-append,
  length-replicate, arith, lt→ltb,
}
use node_dtls_client.Errors.{ok}
use node_dtls_client.Convert.{Buffer}
use node_dtls_client.Codec.{serialize}
use node_dtls_client.Record.Packet.{DtlsPacket}
use node_dtls_client.Keys.{KeyMaterial}
use node_dtls_client.Crypto.{
  Crypto, IsCrypto, BlockAlgorithm, block_parameter, aes_128_cbc, aes_256_cbc, des_ede3_cbc,
}
use node_dtls_client.Block.{
  ConnectionEnd, server, client, other_end, write_key, MacDelegate, compute_mac_header, packet_mac,
  pad_length, padding, block_cipher, split_mac, equals, verify_mac, block_decipher,
}
use node_dtls_client.Block.Padding.{
  pad_length-whole, strip_padding-padded, take-append_length, drop-append_length,
}

pub equals_self : (xs : Buffer) → equals xs xs ≡ true
equals_self [] = refl
equals_self (x ∷ xs) = ground (arith, equals_self xs)

-- The MAC has the length that the delegate names.
abbrev pub IsMac : MacDelegate → Type 0
IsMac mac =
    (d : Buffer) (keys : KeyMaterial) (source : ConnectionEnd)
    → length (mac.compute d keys source) ≡ mac.key_and_hash_length

pub packet_mac-ok :
    (mac : MacDelegate) (p : DtlsPacket) (keys : KeyMaterial) (source : ConnectionEnd)
    → IsMac mac
    → (tag : Buffer) × (packet_mac mac p keys source ≡ ok tag)
      × (length tag ≡ mac.key_and_hash_length)
unfolding packet_mac compute_mac_header serialize
packet_mac-ok mac p keys source size = (_, refl, size _ keys source)

split_mac-append : (content tag : Buffer) → split_mac (length tag) (content ++ tag) ≡ (content, tag)
unfolding split_mac
split_mac-append content [] = ap (λ (x : Buffer). (x, [])) (append-nil content)
split_mac-append content (t ∷ ts) =
    let e : length (content ++ t ∷ ts) - length (t ∷ ts) ≡ length content =
      omega (arith, length-append content (t ∷ ts)) in
    rw
      (
        lt→ltb 0 (suc (length ts)) (omega arith),
        e,
        take-append_length content (t ∷ ts),
        drop-append_length content (t ∷ ts),
      )
      refl

verify_mac-append :
    (mac : MacDelegate) (p : DtlsPacket) (sent tag : Buffer) (keys : KeyMaterial)
    (source : ConnectionEnd)
    → packet_mac mac p keys source ≡ ok tag
    → length tag ≡ mac.key_and_hash_length
    → verify_mac mac (record p { fragment = sent }) keys source (p.fragment ++ tag) ≡ ok p
unfolding verify_mac
verify_mac-append mac p sent tag keys source e size =
    rw (← size, split_mac-append p.fragment tag, e, equals_self tag) refl

-- Both ends have keys of the algorithm's size.
abbrev pub IsKeyed : BlockAlgorithm → KeyMaterial → Type 0
IsKeyed a keys =
    (end : ConnectionEnd) → length (write_key end keys) ≡ (block_parameter a).key_length

iv-is-block :
    (a : BlockAlgorithm) → (block_parameter a).record_iv_length ≡ (block_parameter a).block_size
iv-is-block aes_128_cbc = refl
iv-is-block aes_256_cbc = refl
iv-is-block des_ede3_cbc = refl

pub other_end_twice : (end : ConnectionEnd) → other_end (other_end end) ≡ end
other_end_twice server = refl
other_end_twice client = refl

deciphers :
    (c : Crypto) (a : BlockAlgorithm) (mac : MacDelegate) (p : DtlsPacket) (keys : KeyMaterial)
    (end : ConnectionEnd) (iv ciphered tag : Buffer) (pad : ℕ)
    → length iv ≡ (block_parameter a).record_iv_length
    → c.cbc_decrypt a (write_key end keys) iv ciphered ≡ ok ((p.fragment ++ tag) ++ padding pad)
    → packet_mac mac p keys end ≡ ok tag
    → length tag ≡ mac.key_and_hash_length
    → block_decipher c a mac (record p { fragment = iv ++ ciphered }) keys (other_end end) ≡ ok p
unfolding block_decipher
deciphers c a mac p keys end iv ciphered tag pad iv_size back tagged size =
    rw
      (
        ← iv-is-block a,
        ← iv_size,
        take-append_length iv ciphered,
        drop-append_length iv ciphered,
        other_end_twice end,
        back,
        strip_padding-padded (p.fragment ++ tag) pad,
      )
      (verify_mac-append mac p (iv ++ ciphered) tag keys end tagged size)

-- What one end enciphers with a block cipher, the other end deciphers to the same packet, without an
-- exception on either side: for any packet, with keys of the algorithm's size, any random vector and a
-- MAC of a fixed length.
pub block_decipher-block_cipher :
    (c : Crypto) (a : BlockAlgorithm) (mac : MacDelegate) (draw : ℕ) (p : DtlsPacket)
    (keys : KeyMaterial) (end : ConnectionEnd)
    → IsCrypto c
    → IsMac mac
    → IsKeyed a keys
    → (q : DtlsPacket) × (block_cipher c a mac draw p keys end ≡ ok q)
      × (block_decipher c a mac q keys (other_end end) ≡ ok p)
unfolding block_cipher
block_decipher-block_cipher c a mac draw p keys end lawful sized keyed =
    let (tag, tagged, tag_size) = packet_mac-ok mac p keys end sized in
    let iv = c.random_bytes draw (block_parameter a).record_iv_length in
    let pad = pad_length (block_parameter a).block_size (length (p.fragment ++ tag)) in
    let whole = (p.fragment ++ tag) ++ padding pad in
    let size : length whole ≡ length (p.fragment ++ tag) + (pad + 1) =
      length-append (p.fragment ++ tag) (padding pad)
      ∙ ap (λ n. length (p.fragment ++ tag) + n) (length-replicate (pad + 1) pad) in
    let (ciphered, made, back) =
      lawful.cbc_trip a (write_key end keys) iv whole (keyed end) (lawful.random_size draw _) (
        ap (λ n. n % (block_parameter a).block_size) size
        ∙ pad_length-whole a (length (p.fragment ++ tag))) in
    (
      record p { fragment = iv ++ ciphered },
      rw (tagged, made) refl,
      deciphers c a mac p keys end iv ciphered tag pad (lawful.random_size draw _) back tagged
          tag_size,
    )
