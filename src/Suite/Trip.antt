-- ===== src/Suite/Trip.antt =====
-- A packet through any suite of the table, and back.
use Prim.Native.String.{String}
use node_dtls_client.Prelude.{
  ℕ, ◌<◌, ◌^◌, length, both_true, ◌≡◌, refl, inl, inr, List, [], ◌∷◌, Bool, true, false, ◌&&◌,
  Option, none, some, ◌==◌, Bool-cases,
}
use node_dtls_client.Errors.{ok}
use node_dtls_client.Record.Packet.{DtlsPacket}
use node_dtls_client.Keys.{KeyMaterial}
use node_dtls_client.Crypto.{Crypto, IsCrypto, HashAlgorithm}
use node_dtls_client.Block.{ConnectionEnd, other_end, MacDelegate}
use node_dtls_client.Block.Trip.{IsMac, IsKeyed, block_decipher-block_cipher}
use node_dtls_client.Aead.Trip.{IsAeadKeyed, aead_decipher-aead_cipher}
use node_dtls_client.Suite.{
  CipherType, block, aead, CipherAlgorithm, no_algorithm, block_algorithm, aead_algorithm,
  CipherSuite, create_mac, suite_mac, dispatch_cipher, dispatch_decipher, suite_cipher,
  suite_decipher,
}
use node_dtls_client.Suite.Table.{cipher_suites, find_suite, suite_of_id}

-- The algorithm is of the suite's type.
abbrev pub is_of_type : Option CipherType → CipherAlgorithm → Bool
is_of_type none _ = true
is_of_type (some block) (block_algorithm a) = true
is_of_type (some aead) (aead_algorithm a) = true
is_of_type _ _ = false

all_of_type : List (String × CipherSuite) → Bool
all_of_type [] = true
all_of_type ((name, s) ∷ rest) = is_of_type s.cipher_type s.algorithm && all_of_type rest

table_of_type : all_of_type cipher_suites ≡ true
unfolding all_of_type cipher_suites
table_of_type = refl

find_suite-is_of_type :
    (id : ℕ) (suites : List (String × CipherSuite)) (s : CipherSuite)
    → all_of_type suites ≡ true
    → find_suite id suites ≡ some s
    → is_of_type s.cipher_type s.algorithm ≡ true
unfolding find_suite all_of_type
find_suite-is_of_type id [] s h found = cc
find_suite-is_of_type id ((name, t) ∷ rest) s h found = elim (Bool-cases (t.id == id)) [
  | inl e ↦
      let found' = rw e at found in
      let same : t ≡ s = cc in
      rw (← same) (both_true (is_of_type t.cipher_type t.algorithm) (all_of_type rest) h).0
  | inr e ↦
      let found' = rw e at found in
      find_suite-is_of_type id rest s
        (both_true (is_of_type t.cipher_type t.algorithm) (all_of_type rest) h).1 found'
]

suite_of_id-is_of_type :
    (id : ℕ) (s : CipherSuite)
    → suite_of_id id ≡ some s
    → is_of_type s.cipher_type s.algorithm ≡ true
unfolding suite_of_id
suite_of_id-is_of_type id s found = find_suite-is_of_type id cipher_suites s table_of_type found

-- The keys have the sizes that the algorithm asks for, on both ends.
abbrev pub IsSized : CipherAlgorithm → KeyMaterial → Type 0
IsSized no_algorithm keys = Unit
IsSized (block_algorithm a) keys = IsKeyed a keys
IsSized (aead_algorithm a) keys = IsAeadKeyed a keys

pub create_mac-IsMac :
    (c : Crypto) (t : Option CipherType) (h : Option HashAlgorithm)
    → IsCrypto c
    → IsMac (create_mac c t h)
create_mac-IsMac c none h lawful d keys source = refl
create_mac-IsMac c (some aead) h lawful d keys source = refl
create_mac-IsMac c (some block) none lawful d keys source = refl
create_mac-IsMac c (some block) (some h) lawful d keys source = lawful.hmac_size h _ d

dispatch_trip :
    (c : Crypto) (t : Option CipherType) (a : CipherAlgorithm) (mac : MacDelegate) (draw : ℕ)
    (p : DtlsPacket) (keys : KeyMaterial) (end : ConnectionEnd)
    → IsCrypto c
    → IsMac mac
    → is_of_type t a ≡ true
    → IsSized a keys
    → length p.fragment < 2 ^ 24
    → (q : DtlsPacket) × (dispatch_cipher c t a mac draw p (some keys) end ≡ ok q)
      × (dispatch_decipher c t a mac q (some keys) (other_end end) ≡ ok p)
unfolding dispatch_cipher dispatch_decipher
dispatch_trip c none a mac draw p keys end lawful sized typed keyed short = (p, refl, refl)
dispatch_trip c (some block) no_algorithm mac draw p keys end lawful sized typed keyed short = cc
dispatch_trip c (some block) (block_algorithm a) mac draw p keys end lawful sized typed keyed
      short =
    block_decipher-block_cipher c a mac draw p keys end lawful sized keyed
dispatch_trip c (some block) (aead_algorithm a) mac draw p keys end lawful sized typed keyed short =
    cc
dispatch_trip c (some aead) no_algorithm mac draw p keys end lawful sized typed keyed short = cc
dispatch_trip c (some aead) (block_algorithm a) mac draw p keys end lawful sized typed keyed short =
    cc
dispatch_trip c (some aead) (aead_algorithm a) mac draw p keys end lawful sized typed keyed short =
    aead_decipher-aead_cipher c a draw p keys end lawful keyed short

-- Whatever suite of the table is chosen by its number, what one end enciphers the other end deciphers to
-- the same packet, without an exception, if the keys have the sizes of its algorithm and the packet has fewer
-- than 2 ^ 24 bytes.
pub suite_decipher-suite_cipher :
    (c : Crypto) (id : ℕ) (s : CipherSuite) (draw : ℕ) (p : DtlsPacket) (keys : KeyMaterial)
    (end : ConnectionEnd)
    → suite_of_id id ≡ some s
    → IsCrypto c
    → IsSized s.algorithm keys
    → length p.fragment < 2 ^ 24
    → (q : DtlsPacket) × (suite_cipher c s draw p (some keys) end ≡ ok q)
      × (suite_decipher c s q (some keys) (other_end end) ≡ ok p)
unfolding suite_cipher suite_decipher
suite_decipher-suite_cipher c id s draw p keys end found lawful keyed short =
    dispatch_trip c s.cipher_type s.algorithm (suite_mac c s) draw p keys end lawful
      (create_mac-IsMac c s.cipher_type s.mac_algorithm lawful) (suite_of_id-is_of_type id s found)
      keyed short
