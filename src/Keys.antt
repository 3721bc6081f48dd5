-- ===== src/Keys.antt =====
-- src/TLS/PRF.ts, and the key derivation of src/TLS/ConnectionState.ts. The HMAC, which is that of
-- Node's crypto, is a parameter; so is the label, which the source gives as an ASCII string.
pub mod Expand
pub mod Split
mod Tests
use node_dtls_client.Prelude.{
  ℕ, zero, suc, ◌+◌, ◌-◌, ◌*◌, List, [], ◌∷◌, ◌++◌, ltb, if◌then◌else◌, length, take, drop,
  replicate,
}
use node_dtls_client.Convert.{Buffer}

-- `Buffer.concat(hashes, length)`: cut to the length, or filled up with zeros.
abbrev pub concat_to : ℕ → Buffer → Buffer
concat_to len hashes = take len hashes ++ replicate (len - length hashes) 0

module _ (hmac : Buffer → Buffer → Buffer) where
  -- `A`, whose array only remembers the values.
  unfoldable pub a_value : Buffer → Buffer → ℕ → Buffer
  a_value secret seed zero = seed
  a_value secret seed (suc i) = hmac secret (a_value secret seed i)

  abbrev pub new_hash : Buffer → Buffer → ℕ → Buffer
  new_hash secret seed i = hmac secret (a_value secret seed i ++ seed)

  -- `for (let i = 1; hashesLength < length; i++)`, with fuel; the hashes are kept joined.
  unfoldable pub expand : Buffer → Buffer → ℕ → ℕ → ℕ → Buffer → Buffer
  expand secret seed len zero i hashes = hashes
  expand secret seed len (suc f) i hashes =
      if ltb (length hashes) len
      then expand secret seed len f (i + 1) (hashes ++ new_hash secret seed i)
      else hashes

  -- Each hash adds a byte at least, so `len` rounds are enough.
  unfoldable pub p_hash : Buffer → Buffer → ℕ → Buffer
  unfolding expand
  p_hash secret seed len = concat_to len (expand secret seed len len 1 [])

  -- A member of `PRF`.
  unfoldable pub prf : Buffer → Buffer → Buffer → ℕ → Buffer
  unfolding p_hash
  prf secret label seed len = p_hash secret (label ++ seed) len

pub record KeyMaterial : Type 0 where
  pub client_write_mac_key : Buffer
  pub server_write_mac_key : Buffer
  pub client_write_key : Buffer
  pub server_write_key : Buffer
  pub client_write_iv : Buffer
  pub server_write_iv : Buffer

-- `read`: a slice of the key block, and the offset after it.
abbrev pub read_key : Buffer → ℕ → ℕ → Buffer × ℕ
read_key key_block len offset = (take len (drop offset key_block), offset + len)

unfoldable pub split_key_block : Buffer → ℕ → ℕ → ℕ → KeyMaterial
split_key_block key_block mac_length key_length iv_length =
    let (a, o) = read_key key_block mac_length 0 in
    let (b, p) = read_key key_block mac_length o in
    let (c, q) = read_key key_block key_length p in
    let (d, r) = read_key key_block key_length q in
    let (e, s) = read_key key_block iv_length r in
    let (f, t) = read_key key_block iv_length s in
    record {
      client_write_mac_key = a;
      server_write_mac_key = b;
      client_write_key = c;
      server_write_key = d;
      client_write_iv = e;
      server_write_iv = f;
    }

-- `computeKeyMaterial`, from the master secret and the randoms.
unfoldable pub compute_key_material :
    (Buffer → Buffer → Buffer) → Buffer → Buffer → Buffer → Buffer → ℕ → ℕ → ℕ → KeyMaterial
unfolding split_key_block prf
compute_key_material hmac master_secret label server_random client_random mac_length key_length
      iv_length =
    split_key_block
      (prf hmac master_secret label (server_random ++ client_random)
        (2 * (mac_length + key_length + iv_length)))
      mac_length key_length iv_length
