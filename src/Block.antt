-- ===== src/Block.antt =====
-- src/TLS/BlockCipher.ts: MAC, padding and CBC encryption of a packet's fragment, and the way back. The
-- fake MAC that is computed against timing attacks has no result, and is left out.
pub mod Padding
pub mod Trip
pub mod Authentic
use node_dtls_client.Prelude.{
  ℕ, zero, suc, ◌+◌, ◌-◌, ◌%◌, List, [], ◌∷◌, ◌++◌, Bool, true, false, ◌&&◌, Option, none, some,
  ltb, leb, ◌==◌, if◌then◌else◌, length, get_elem?, take, drop, replicate,
}
use node_dtls_client.Errors.{Result, ok, err, ◌>>=◌, invalid_mac}
use node_dtls_client.Convert.{Buffer}
use node_dtls_client.TypeSpecs.{Fields, struct}
use node_dtls_client.Codec.{Value, num, object, nil, cons, serialize}
use node_dtls_client.Messages.{mac_header}
use node_dtls_client.Record.Packet.{DtlsPacket}
use node_dtls_client.Keys.{KeyMaterial}
use node_dtls_client.Crypto.{Crypto, BlockAlgorithm, BlockParameter, block_parameter}

pub data ConnectionEnd : Type 0 where
  server client : ConnectionEnd

abbrev pub other_end : ConnectionEnd → ConnectionEnd
other_end client = server
other_end server = client

abbrev pub write_key : ConnectionEnd → KeyMaterial → Buffer
write_key server k = k.server_write_key
write_key client k = k.client_write_key

-- `GenericMacDelegate`
pub record MacDelegate : Type 0 where
  pub key_and_hash_length : ℕ
  pub compute : Buffer → KeyMaterial → ConnectionEnd → Buffer

-- The header of a packet, with the length of the fragment: `MACHeader` and `AdditionalData`.
abbrev pub header_value : DtlsPacket → ℕ → Value
header_value p fragment_length = object (
    cons (num (some p.epoch)) (
      cons (num (some p.sequence_number)) (
        cons (num (some p.type)) (
          cons (object (cons (num (some p.version.major)) (cons (num (some p.version.minor)) nil)))
            (cons (num (some fragment_length)) nil)))))

unfoldable pub compute_mac_header : DtlsPacket → Result Buffer
compute_mac_header p = serialize (struct mac_header) (header_value p (length p.fragment))

-- The MAC of a packet: over its header and its fragment.
unfoldable pub packet_mac : MacDelegate → DtlsPacket → KeyMaterial → ConnectionEnd → Result Buffer
unfolding compute_mac_header
packet_mac mac p keys source =
    compute_mac_header p >>= λ header. ok (mac.compute (header ++ p.fragment) keys source)

unfoldable pub pad_length : ℕ → ℕ → ℕ
pad_length block_size len =
    let overflow = (len + 1) % block_size in if ltb 0 overflow then block_size - overflow else 0

abbrev pub padding : ℕ → Buffer
padding pad = replicate (pad + 1) pad

-- `draw` is the number of the random vector.
unfoldable pub block_cipher :
    Crypto
    → BlockAlgorithm
    → MacDelegate
    → ℕ
    → DtlsPacket
    → KeyMaterial
    → ConnectionEnd
    → Result DtlsPacket
unfolding packet_mac pad_length
block_cipher c algorithm mac draw p keys end = do
  tag ← packet_mac mac p keys end
  let plaintext = p.fragment ++ tag
  let pad = padding (pad_length (block_parameter algorithm).block_size (length plaintext))
  let record_iv = c.random_bytes draw (block_parameter algorithm).record_iv_length
  ciphertext ← c.cbc_encrypt algorithm (write_key end keys) record_iv (plaintext ++ pad)
  ok (record p { fragment = record_iv ++ ciphertext })

-- `deciphered[len - 1 - i] !== paddingLength`, for the rounds from `i` on. Before the first byte the
-- array is undefined.
abbrev pub byte_is : Option ℕ → ℕ → Bool
byte_is none b = false
byte_is (some a) b = a == b

unfoldable pub padding_is_right : Buffer → ℕ → ℕ → ℕ → Bool
padding_is_right deciphered pad zero i = true
padding_is_right deciphered pad (suc n) i =
    (leb (i + 1) (length deciphered)
      && byte_is (get_elem? deciphered (length deciphered - 1 - i)) pad)
    && padding_is_right deciphered pad n (i + 1)

unfoldable pub strip_padding_of : Buffer → Option ℕ → Result Buffer
unfolding padding_is_right
strip_padding_of deciphered none = err invalid_mac
strip_padding_of deciphered (some pad) =
    if ltb (length deciphered) pad
    then err invalid_mac
    else if padding_is_right deciphered pad pad 1
    then ok (take (length deciphered - (1 + pad)) deciphered)
    else err invalid_mac

-- The last byte is the length of the padding before it. With no data there is none.
unfoldable pub strip_padding : Buffer → Result Buffer
unfolding strip_padding_of
strip_padding [] = err invalid_mac
strip_padding (b ∷ bs) = strip_padding_of (b ∷ bs) (get_elem? (b ∷ bs) (length (b ∷ bs) - 1))

-- The content and the MAC received, cut apart at the length of a MAC.
unfoldable pub split_mac : ℕ → Buffer → Buffer × Buffer
split_mac mac_length plaintext =
    if ltb 0 mac_length
    then (
      take (length plaintext - mac_length) plaintext,
      drop (length plaintext - mac_length) plaintext,
    )
    else (plaintext, [])

-- `Buffer.equals`
abbrev pub equals : Buffer → Buffer → Bool
equals [] [] = true
equals (x ∷ xs) (y ∷ ys) = x == y && equals xs ys
equals _ _ = false

unfoldable pub verify_mac :
    MacDelegate → DtlsPacket → KeyMaterial → ConnectionEnd → Buffer → Result DtlsPacket
unfolding packet_mac split_mac
verify_mac mac p keys source plaintext =
    let (content, received_mac) = split_mac mac.key_and_hash_length plaintext in
    packet_mac mac (record p { fragment = content }) keys source >>= λ expected_mac.
    if equals expected_mac received_mac
    then ok (record p { fragment = content })
    else err invalid_mac

unfoldable pub block_decipher :
    Crypto
    → BlockAlgorithm
    → MacDelegate
    → DtlsPacket
    → KeyMaterial
    → ConnectionEnd
    → Result DtlsPacket
unfolding strip_padding verify_mac
block_decipher c algorithm mac p keys end = do
  let record_iv = take (block_parameter algorithm).record_iv_length p.fragment
  let ciphered = drop (block_parameter algorithm).block_size p.fragment
  deciphered ← c.cbc_decrypt algorithm (write_key (other_end end) keys) record_iv ciphered
  plaintext ← strip_padding deciphered
  verify_mac mac p keys (other_end end) plaintext
