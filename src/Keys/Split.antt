-- ===== src/Keys/Split.antt =====
-- The partition of the key block.
use node_dtls_client.Prelude.{
  ℕ, zero, suc, ◌+◌, ◌*◌, ◌≤◌, ◌<◌, ◌≡◌, ◌∙◌, refl, ap, sym, [], ◌∷◌, ◌++◌, length, length-take,
  length-drop, take-append-drop, take, drop, arith,
}
use node_dtls_client.Convert.{Buffer}
use node_dtls_client.Keys.{KeyMaterial, split_key_block, compute_key_material, prf, p_hash}
use node_dtls_client.Keys.Expand.{p_hash-output, length-output}

drop-drop : (n o : ℕ) (bs : Buffer) → drop n (drop o bs) ≡ drop (o + n) bs
drop-drop n zero bs = let e : 0 + n ≡ n = omega arith in rw e refl
drop-drop zero (suc o) [] = let e : suc o + 0 ≡ suc o = omega arith in rw e refl
drop-drop (suc n) (suc o) [] = let e : suc o + suc n ≡ suc (o + suc n) = omega arith in rw e refl
drop-drop n (suc o) (b ∷ bs) =
    let e : suc o + n ≡ suc (o + n) = omega arith in rw e (drop-drop n o bs)

-- A slice, followed by what comes after it.
slice-append :
    (n o : ℕ) (bs rest : Buffer) → rest ≡ drop (o + n) bs → take n (drop o bs) ++ rest ≡ drop o bs
slice-append n o bs rest e =
    ap (λ x. take n (drop o bs) ++ x) (e ∙ sym (drop-drop n o bs)) ∙ take-append-drop n (drop o bs)

drop_all : (o : ℕ) (bs : Buffer) → length bs ≡ o → [] ≡ drop o bs
drop_all zero [] e = refl
drop_all zero (b ∷ bs) e = absurd (omega (arith, e))
drop_all (suc o) [] e = absurd (omega (arith, e))
drop_all (suc o) (b ∷ bs) e = drop_all o bs (omega (arith, e))

length-slice : (n o : ℕ) (bs : Buffer) → o + n ≤ length bs → length (take n (drop o bs)) ≡ n
length-slice n o bs h = omega (arith, length-take n (drop o bs), length-drop o bs)

-- The keys have their sizes, and joined in their order they are the block.
pub record IsPartition (block : Buffer) (mac_length key_length iv_length : ℕ) (k : KeyMaterial)
    : Type 0 where
  pub client_mac_size : length k.client_write_mac_key ≡ mac_length
  pub server_mac_size : length k.server_write_mac_key ≡ mac_length
  pub client_key_size : length k.client_write_key ≡ key_length
  pub server_key_size : length k.server_write_key ≡ key_length
  pub client_iv_size : length k.client_write_iv ≡ iv_length
  pub server_iv_size : length k.server_write_iv ≡ iv_length
  pub joined :
      k.client_write_mac_key
        ++ (k.server_write_mac_key
            ++ (k.client_write_key
                ++ (k.server_write_key ++ (k.client_write_iv ++ (k.server_write_iv ++ [])))))
      ≡ block

split_key_block-IsPartition :
    (block : Buffer) (m k v : ℕ)
    → length block ≡ 2 * (m + k + v)
    → IsPartition block m k v (split_key_block block m k v)
unfolding split_key_block
split_key_block-IsPartition block m k v h = record {
  client_mac_size = length-slice m 0 block (omega arith);
  server_mac_size = length-slice m (0 + m) block (omega arith);
  client_key_size = length-slice k (0 + m + m) block (omega arith);
  server_key_size = length-slice k (0 + m + m + k) block (omega arith);
  client_iv_size = length-slice v (0 + m + m + k + k) block (omega arith);
  server_iv_size = length-slice v (0 + m + m + k + k + v) block (omega arith);
  joined = slice-append m 0 block _ (
      slice-append m (0 + m) block _ (
        slice-append k (0 + m + m) block _ (
          slice-append k (0 + m + m + k) block _ (
            slice-append v (0 + m + m + k + k) block _ (
              slice-append v (0 + m + m + k + k + v) block [] (drop_all _ block (omega arith)))))));
}

-- The keys that are derived from a master secret have the sizes that the cipher suite asks for, and
-- joined in the order of RFC 5246, section 6.3, they are what the pseudorandom function gives. A hash has a byte at
-- least.
pub compute_key_material-IsPartition :
    (hmac : Buffer → Buffer → Buffer) (master_secret label server_random client_random : Buffer)
    (mac_length key_length iv_length : ℕ)
    → ((d : Buffer) → 0 < length (hmac master_secret d))
    → IsPartition
        (prf hmac master_secret label
          (server_random ++ client_random)
          (2 * (mac_length + key_length + iv_length)))
        mac_length
        key_length
        iv_length
        (compute_key_material hmac master_secret label server_random client_random mac_length
          key_length iv_length)
unfolding compute_key_material prf
compute_key_material-IsPartition hmac master_secret label server_random client_random m k v
      nonempty =
    let seed = label ++ (server_random ++ client_random) in
    let total = 2 * (m + k + v) in
    split_key_block-IsPartition (p_hash hmac master_secret seed total) m k v
      (p_hash-output hmac master_secret seed nonempty total total
        (length-output hmac master_secret seed nonempty total)).1
