-- ===== src/Connection/Protect.antt =====
-- The connection state as the record layer, src/DTLS/RecordLayer.ts, uses it: what it asks for through
-- `Protection`.
use node_dtls_client.Prelude.{◌≡◌, ap, Bool, true, false, Option, none, some, inl, inr}
use node_dtls_client.Errors.{Result, ok, err, type_error, Result-cases}
use node_dtls_client.Record.Packet.{DtlsPacket}
use node_dtls_client.Record.{Protection}
use node_dtls_client.Crypto.{Crypto}
use node_dtls_client.Suite.Header.{suite_decipher-header}
use node_dtls_client.Connection.{
  ConnectionState, new_connection_state, get_decipher, encipher, decipher_packet,
}

-- `cipherSuite.cipherType != null`, which throws where the suite is undefined: `encrypt` does it.
abbrev pub has_cipher_type : ConnectionState → Bool
has_cipher_type s = elim s.cipher_suite [
  | none ↦ true
  | some suite ↦ elim suite.cipher_type [ none ↦ false | some t ↦ true ]
]

unfoldable pub encrypt_outgoing :
    Crypto → ConnectionState → DtlsPacket → ConnectionState × Result DtlsPacket
encrypt_outgoing c s p = elim s.cipher_suite [
  | none ↦ (s, err type_error)
  | some suite ↦ encipher c s p
]

abbrev pub caught {ℓ} : {A : Type ℓ} → Result A → Option A
caught (ok a) = some a
caught (err e) = none

-- The `try` around `Decipher`.
unfoldable pub decrypt_incoming :
    Crypto → ConnectionState → DtlsPacket → ConnectionState × Option DtlsPacket
decrypt_incoming c s p = let (s', q) = decipher_packet c s p in (s', caught q)

pub caught-some : (r : Result DtlsPacket) (q : DtlsPacket) → caught r ≡ some q → r ≡ ok q
caught-some (ok a) q h = cc
caught-some (err e) q h = cc

decipher_packet-header :
    (c : Crypto) (s : ConnectionState) (p q : DtlsPacket)
    → (decipher_packet c s p).1 ≡ ok q
    → q ≡ record p { fragment = q.fragment }
unfolding decipher_packet
decipher_packet-header c s p q h = elim (Result-cases (get_decipher s).1) [
  | inl (d, e) ↦ let h' = rw e at h in suite_decipher-header c d.suite p q d.keys d.end_point h'
  | inr (thrown, e) ↦ let h' = rw e at h in cc
]

pub decrypt_incoming-header :
    (c : Crypto) (s : ConnectionState) (p q : DtlsPacket)
    → (decrypt_incoming c s p).1 ≡ some q
    → (q.epoch ≡ p.epoch) × (q.sequence_number ≡ p.sequence_number)
unfolding decrypt_incoming
decrypt_incoming-header c s p q h =
    let e = decipher_packet-header c s p q (caught-some (decipher_packet c s p).1 q h) in
    (ap (λ (x : DtlsPacket). x.epoch) e, ap (λ (x : DtlsPacket). x.sequence_number) e)

abbrev pub protection : Crypto → Protection
protection c = record {
  ConnectionState = ConnectionState;
  new_state = new_connection_state;
  protocol_version = λ s. s.protocol_version;
  has_cipher = has_cipher_type;
  encrypt = encrypt_outgoing c;
  decrypt = decrypt_incoming c;
  decrypt_header = decrypt_incoming-header c;
}
