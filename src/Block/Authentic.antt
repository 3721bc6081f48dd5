-- ===== src/Block/Authentic.antt =====
-- What a packet must be for the block decipher to let it pass.
use node_dtls_client.Prelude.{
  ℕ, ◌-◌, ◌≡◌, ◌∙◌, refl, ap, [], ◌∷◌, ◌++◌, append-nil, true, ltb, length, take, drop,
  take-append-drop, arith, Bool-cases, inl, inr,
}
use node_dtls_client.Errors.{ok, Result-cases}
use node_dtls_client.Convert.{Buffer}
use node_dtls_client.Record.Packet.{DtlsPacket}
use node_dtls_client.Keys.{KeyMaterial}
use node_dtls_client.Crypto.{Crypto, BlockAlgorithm, block_parameter}
use node_dtls_client.Block.{
  ConnectionEnd, other_end, write_key, MacDelegate, packet_mac, strip_padding, split_mac, equals,
  verify_mac, block_decipher,
}

pub equals-eq : (xs ys : Buffer) → equals xs ys ≡ true → xs ≡ ys
equals-eq [] [] h = refl
equals-eq [] (y ∷ ys) h = cc
equals-eq (x ∷ xs) [] h = cc
equals-eq (x ∷ xs) (y ∷ ys) h = ground (arith, equals-eq xs ys)

split_mac_join :
    (k : ℕ) (plaintext : Buffer)
    → (split_mac k plaintext).0 ++ (split_mac k plaintext).1 ≡ plaintext
unfolding split_mac
split_mac_join k plaintext = elim (Bool-cases (ltb 0 k)) [
  | inl e ↦ rw e (take-append-drop (length plaintext - k) plaintext)
  | inr e ↦ rw e (append-nil plaintext)
]

-- The packet's header is kept, and the plaintext is the content with the MAC of both behind it.
pub record IsAuthentic (mac : MacDelegate) (p q : DtlsPacket) (keys : KeyMaterial)
    (source : ConnectionEnd) (plaintext : Buffer) : Type 0 where
  pub header : q ≡ record p { fragment = q.fragment }
  pub tag : Buffer
  pub tag_is_mac : packet_mac mac q keys source ≡ ok tag
  pub joined : q.fragment ++ tag ≡ plaintext

verify_mac-IsAuthentic :
    (mac : MacDelegate) (p q : DtlsPacket) (keys : KeyMaterial) (source : ConnectionEnd)
    (plaintext : Buffer)
    → verify_mac mac p keys source plaintext ≡ ok q
    → IsAuthentic mac p q keys source plaintext
unfolding verify_mac
verify_mac-IsAuthentic mac p q keys source plaintext h =
    let (content, received) = split_mac mac.key_and_hash_length plaintext in
    elim (Result-cases (packet_mac mac (record p { fragment = content }) keys source)) [
      | inr (e, thrown) ↦ let h' = rw thrown at h in cc
      | inl (tag, made) ↦ elim (Bool-cases (equals tag received)) [
        | inr other ↦ let h' = rw (made, other) at h in cc
        | inl same ↦
            let h' = rw (made, same) at h in
            let is : record p { fragment = content } ≡ q = cc in
            rw (← is) (record {
              header = refl;
              tag = tag;
              tag_is_mac = made;
              joined =
                  ap (λ x. content ++ x) (equals-eq tag received same)
                  ∙ split_mac_join mac.key_and_hash_length plaintext;
            })
      ]
    ]

-- A packet passes the block decipher only with its header as it came, and only if the fragment, once it
-- is decrypted and its padding is found right and stripped, is the content that is returned with the MAC
-- of the header and that content behind it.
pub block_decipher-IsAuthentic :
    (c : Crypto) (a : BlockAlgorithm) (mac : MacDelegate) (p q : DtlsPacket) (keys : KeyMaterial)
    (end : ConnectionEnd)
    → block_decipher c a mac p keys end ≡ ok q
    → (deciphered : Buffer) × (plaintext : Buffer) × (c.cbc_decrypt a
          (write_key (other_end end) keys)
          (take (block_parameter a).record_iv_length p.fragment)
          (drop (block_parameter a).block_size p.fragment)
        ≡ ok deciphered)
      × (strip_padding deciphered ≡ ok plaintext)
      × IsAuthentic mac p q keys (other_end end) plaintext
unfolding block_decipher
block_decipher-IsAuthentic c a mac p q keys end h =
    elim (Result-cases (
      c.cbc_decrypt a (write_key (other_end end) keys)
        (take (block_parameter a).record_iv_length p.fragment)
        (drop (block_parameter a).block_size p.fragment))) [
          | inr (e, thrown) ↦ let h' = rw thrown at h in cc
          | inl (deciphered, decrypted) ↦ elim (Result-cases (strip_padding deciphered)) [
            | inr (e, wrong) ↦ let h' = rw (decrypted, wrong) at h in cc
            | inl (plaintext, stripped) ↦
                let h' = rw (decrypted, stripped) at h in
                (
                  deciphered,
                  plaintext,
                  decrypted,
                  stripped,
                  verify_mac-IsAuthentic mac p q keys (other_end end) plaintext h',
                )
          ]
        ]
