-- ===== src/Aead/Trip.antt =====
-- A packet through the AEAD cipher and back.
use node_dtls_client.Prelude.{
  ℕ, ◌<◌, ◌^◌, ◌+◌, ◌-◌, ◌≡◌, ◌⊎◌, inl, inr, ◌∙◌, refl, ap, sym, ◌++◌, append_assoc, true, leb,
  length, length-append, take, drop, arith, le→leb,
}
use node_dtls_client.Errors.{ok}
use node_dtls_client.Convert.{Buffer}
use node_dtls_client.Codec.{serialize}
use node_dtls_client.Record.Packet.{DtlsPacket}
use node_dtls_client.Keys.{KeyMaterial}
use node_dtls_client.Crypto.{
  Crypto, IsCrypto, AeadAlgorithm, aes_128_ccm, aes_256_ccm, aes_128_ccm8, aes_256_ccm8,
  aes_128_gcm, aes_256_gcm,
}
use node_dtls_client.Block.{ConnectionEnd, other_end, write_key}
use node_dtls_client.Block.Padding.{take-append_length, drop-append_length}
use node_dtls_client.Block.Trip.{other_end_twice}
use node_dtls_client.Aead.{
  aead_parameter, write_iv, compute_additional_data, aead_cipher, content_length, accept_plaintext,
  aead_decipher,
}

-- Both ends have keys and fixed vectors of the algorithm's sizes.
pub record IsAeadKeyed (a : AeadAlgorithm) (keys : KeyMaterial) : Type 0 where
  pub key_size : (end : ConnectionEnd) → length (write_key end keys) ≡ (aead_parameter a).key_length
  pub iv_size :
      (end : ConnectionEnd) → length (write_iv end keys) ≡ (aead_parameter a).fixed_iv_length

key_sizes :
    (a : AeadAlgorithm)
    → ((aead_parameter a).key_length ≡ 16) ⊎ ((aead_parameter a).key_length ≡ 32)
key_sizes aes_128_ccm = inl refl
key_sizes aes_128_ccm8 = inl refl
key_sizes aes_256_ccm = inr refl
key_sizes aes_256_ccm8 = inr refl
key_sizes aes_128_gcm = inl refl
key_sizes aes_256_gcm = inr refl

tag_sizes :
    (a : AeadAlgorithm)
    → ((aead_parameter a).auth_tag_length ≡ 8) ⊎ ((aead_parameter a).auth_tag_length ≡ 16)
tag_sizes aes_128_ccm = inr refl
tag_sizes aes_128_ccm8 = inl refl
tag_sizes aes_256_ccm = inr refl
tag_sizes aes_256_ccm8 = inl refl
tag_sizes aes_128_gcm = inr refl
tag_sizes aes_256_gcm = inr refl

nonce_sizes :
    (a : AeadAlgorithm)
    → (aead_parameter a).fixed_iv_length + (aead_parameter a).record_iv_length ≡ 12
nonce_sizes aes_128_ccm = refl
nonce_sizes aes_128_ccm8 = refl
nonce_sizes aes_256_ccm = refl
nonce_sizes aes_256_ccm8 = refl
nonce_sizes aes_128_gcm = refl
nonce_sizes aes_256_gcm = refl

additional_data-ok :
    (p : DtlsPacket) (n : ℕ) → (extra : Buffer) × (compute_additional_data p n ≡ ok extra)
unfolding compute_additional_data serialize
additional_data-ok p n = (_, refl)

header_only :
    (p : DtlsPacket) (sent : Buffer) (n : ℕ)
    → compute_additional_data (record p { fragment = sent }) n ≡ compute_additional_data p n
unfolding compute_additional_data
header_only p sent n = refl

-- The parts of a fragment, cut where the decipher cuts.
module _ (nonce ciphered tag : Buffer) where
  length-parts : length (nonce ++ (ciphered ++ tag)) ≡ length nonce + length ciphered + length tag
  length-parts = omega (arith, length-append nonce (ciphered ++ tag), length-append ciphered tag)

  before_tag : length (nonce ++ (ciphered ++ tag)) - length tag ≡ length (nonce ++ ciphered)
  before_tag = omega (arith, length-parts, length-append nonce ciphered)

  cut_tag :
      drop (length (nonce ++ (ciphered ++ tag)) - length tag) (nonce ++ (ciphered ++ tag)) ≡ tag
  cut_tag =
      ap (λ n. drop n (nonce ++ (ciphered ++ tag))) before_tag
      ∙ ap (drop (length (nonce ++ ciphered))) (sym (append_assoc nonce ciphered tag))
      ∙ drop-append_length (nonce ++ ciphered) tag

  cut_ciphered :
      drop
        (length nonce)
        (take (length (nonce ++ (ciphered ++ tag)) - length tag) (nonce ++ (ciphered ++ tag)))
      ≡ ciphered
  cut_ciphered =
      ap (λ n. drop (length nonce) (take n (nonce ++ (ciphered ++ tag)))) before_tag
      ∙ ap (λ x. drop (length nonce) (take (length (nonce ++ ciphered)) x))
          (sym (append_assoc nonce ciphered tag))
      ∙ ap (drop (length nonce)) (take-append_length (nonce ++ ciphered) tag)
      ∙ drop-append_length nonce ciphered

  cut_length :
      content_length (length (nonce ++ (ciphered ++ tag))) (length nonce + length tag)
      ≡ length ciphered
  cut_length =
      let enough : leb (length nonce + length tag) (length (nonce ++ (ciphered ++ tag))) ≡ true =
        le→leb _ _ (omega (arith, length-parts)) in
      rw enough (omega (arith, length-parts))

deciphers :
    (c : Crypto) (a : AeadAlgorithm) (p : DtlsPacket) (keys : KeyMaterial) (end : ConnectionEnd)
    (nonce ciphered tag extra : Buffer)
    → length nonce ≡ (aead_parameter a).record_iv_length
    → length tag ≡ (aead_parameter a).auth_tag_length
    → length ciphered ≡ length p.fragment
    → compute_additional_data p (length p.fragment) ≡ ok extra
    → c.aead_decrypt
        (aead_parameter a).mode
        (write_key end keys)
        (write_iv end keys ++ nonce)
        ciphered
        extra
        tag
      ≡ ok (p.fragment, true)
    → aead_decipher c a (record p { fragment = nonce ++ (ciphered ++ tag) }) keys (other_end end)
      ≡ ok p
unfolding aead_decipher accept_plaintext
deciphers c a p keys end nonce ciphered tag extra nonce_size tag_size same_size made back =
    let sent = nonce ++ (ciphered ++ tag) in
    let same_header : compute_additional_data (record p { fragment = sent }) (length p.fragment)
        ≡ ok extra =
      header_only p sent (length p.fragment) ∙ made in
    rw
      (
        ← nonce_size,
        ← tag_size,
        other_end_twice end,
        cut_length nonce ciphered tag,
        same_size,
        same_header,
        cut_tag nonce ciphered tag,
        cut_ciphered nonce ciphered tag,
        take-append_length nonce (ciphered ++ tag),
        back,
      )
      refl

-- What one end enciphers with an AEAD cipher, the other end deciphers to the same packet, without an
-- exception on either side: for any such packet, with keys and fixed vectors of the algorithm's sizes and any
-- random nonce. The packet has fewer than 2 ^ 24 bytes, which every record that its length field can
-- tell has.
pub aead_decipher-aead_cipher :
    (c : Crypto) (a : AeadAlgorithm) (draw : ℕ) (p : DtlsPacket) (keys : KeyMaterial)
    (end : ConnectionEnd)
    → IsCrypto c
    → IsAeadKeyed a keys
    → length p.fragment < 2 ^ 24
    → (q : DtlsPacket) × (aead_cipher c a draw p keys end ≡ ok q)
      × (aead_decipher c a q keys (other_end end) ≡ ok p)
unfolding aead_cipher
aead_decipher-aead_cipher c a draw p keys end lawful keyed short =
    let (extra, made) = additional_data-ok p (length p.fragment) in
    let nonce = c.random_bytes draw (aead_parameter a).record_iv_length in
    let nonce_size = lawful.random_size draw (aead_parameter a).record_iv_length in
    let iv_size : length (write_iv end keys ++ nonce) ≡ 12 = omega (
      arith,
      length-append (write_iv end keys) nonce,
      keyed.iv_size end,
      nonce_size,
      nonce_sizes a,
    ) in
    let (ciphered, tag, sent, same_size, tag_size, back) =
      lawful.aead_trip (aead_parameter a).mode (write_key end keys) (write_iv end keys ++ nonce)
        p.fragment extra (aead_parameter a).auth_tag_length (rw (keyed.key_size end) (key_sizes a))
        iv_size (tag_sizes a) short in
    (
      record p { fragment = nonce ++ (ciphered ++ tag) },
      rw (made, sent) refl,
      deciphers c a p keys end nonce ciphered tag extra nonce_size tag_size same_size made back,
    )
