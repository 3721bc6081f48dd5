-- ===== src/Aead/Authentic.antt =====
-- What a packet must be for the AEAD decipher to let it pass.
use node_dtls_client.Prelude.{
  ℕ, some, ◌+◌, ◌-◌, ◌≡◌, refl, inl, inr, ◌++◌, true, false, length, take, drop,
}
use node_dtls_client.Errors.{ok, Result-cases}
use node_dtls_client.Convert.{Buffer, number_to_buffer}
use node_dtls_client.Record.Packet.{DtlsPacket}
use node_dtls_client.Keys.{KeyMaterial}
use node_dtls_client.Crypto.{Crypto, AeadAlgorithm}
use node_dtls_client.Block.{ConnectionEnd, other_end, write_key}
use node_dtls_client.Aead.{
  aead_parameter, write_iv, compute_additional_data, content_length, accept_plaintext,
  aead_decipher,
}

-- The calls of the AEAD decipher where it lets a packet pass.
pub aead_decipher-auth_ok :
    (c : Crypto) (a : AeadAlgorithm) (p q : DtlsPacket) (keys : KeyMaterial) (end : ConnectionEnd)
    → aead_decipher c a p keys end ≡ ok q
    → let t = aead_parameter a in
      (q ≡ record p { fragment = q.fragment })
      × ((extra : Buffer) × (compute_additional_data p
              (content_length (length p.fragment) (t.record_iv_length + t.auth_tag_length))
            ≡ ok extra)
          × (c.aead_decrypt t.mode
                (write_key (other_end end) keys)
                (write_iv (other_end end) keys ++ take t.record_iv_length p.fragment)
                (drop t.record_iv_length (take (length p.fragment - t.auth_tag_length) p.fragment))
                extra
                (drop (length p.fragment - t.auth_tag_length) p.fragment)
              ≡ ok (q.fragment, true)))
unfolding aead_decipher accept_plaintext
aead_decipher-auth_ok c a p q keys end h =
    let t = aead_parameter a in
    let len = content_length (length p.fragment) (t.record_iv_length + t.auth_tag_length) in
    elim (Result-cases (compute_additional_data p len)) [
      | inr (e, thrown) ↦ let h' = rw thrown at h in cc
      | inl (extra, made) ↦
          elim (Result-cases (
            c.aead_decrypt t.mode (write_key (other_end end) keys)
              (write_iv (other_end end) keys ++ take t.record_iv_length p.fragment)
              (drop t.record_iv_length (take (length p.fragment - t.auth_tag_length) p.fragment))
              extra (drop (length p.fragment - t.auth_tag_length) p.fragment))) [
                | inr (e, thrown) ↦ let h' = rw (made, thrown) at h in cc
                | inl ((plaintext, false), opened) ↦ let h' = rw (made, opened) at h in cc
                | inl ((plaintext, true), opened) ↦
                    let h' = rw (made, opened) at h in
                    let is : record p { fragment = plaintext } ≡ q = cc in
                    rw (← is) (refl, (extra, made, opened))
              ]
    ]

-- The additional data of RFC 5246, section 6.2.3.3: the number, with the epoch, the type, the version and
-- the length.
abbrev pub rfc_additional_data : DtlsPacket → ℕ → Buffer
rfc_additional_data p len =
    number_to_buffer (some p.epoch) 16
    ++ number_to_buffer (some p.sequence_number) 48
    ++ number_to_buffer (some p.type) 8
    ++ number_to_buffer (some p.version.major) 8
    ++ number_to_buffer (some p.version.minor) 8
    ++ number_to_buffer (some len) 16

-- A packet is an explicit nonce, a ciphertext and a tag of the algorithm's sizes, and the tag was found
-- right for the plaintext, for the header with the length of the ciphertext, and for the key and the
-- nonce of an end.
pub record IsSealed (c : Crypto) (a : AeadAlgorithm) (p : DtlsPacket) (plaintext : Buffer)
    (keys : KeyMaterial) (source : ConnectionEnd) : Type 0 where
  pub nonce : Buffer
  pub ciphered : Buffer
  pub tag : Buffer
  pub is_split : p.fragment ≡ nonce ++ (ciphered ++ tag)
  pub nonce_size : length nonce ≡ (aead_parameter a).record_iv_length
  pub tag_size : length tag ≡ (aead_parameter a).auth_tag_length
  pub opened :
      c.aead_decrypt
        (aead_parameter a).mode
        (write_key source keys)
        (write_iv source keys ++ nonce)
        ciphered
        (rfc_additional_data p (length ciphered))
        tag
      ≡ ok (plaintext, true)
