-- ===== src/Keys/Tests.antt =====
-- Runs of the key derivation, with a hash of two bytes.
use node_dtls_client.Prelude.{◌+◌, ◌*◌, ◌≡◌, ◌<◌, ◌++◌, refl, [], ◌∷◌, length, take, arith}
use node_dtls_client.Convert.{Buffer}
use node_dtls_client.Keys.{p_hash, expand, a_value, prf, compute_key_material}
use node_dtls_client.Keys.Expand.{output, p_hash-output}
use node_dtls_client.Keys.Split.{IsPartition, compute_key_material-IsPartition}

-- The lengths of its inputs.
abbrev toy_hmac : Buffer → Buffer → Buffer
toy_hmac secret bytes = length secret ∷ length bytes ∷ []

toy_nonempty : (secret d : Buffer) → 0 < length (toy_hmac secret d)
toy_nonempty secret d = omega arith

-- Two hashes, and the last byte cut off.
expanded : p_hash toy_hmac (5 ∷ []) (6 ∷ 7 ∷ 8 ∷ []) 3 ≡ 1 ∷ 5 ∷ 1 ∷ []
unfolding p_hash expand a_value
expanded = refl

p_hash-output_example :
    (p_hash toy_hmac (5 ∷ []) (6 ∷ 7 ∷ 8 ∷ []) 3
      ≡ take 3 (output toy_hmac (5 ∷ []) (6 ∷ 7 ∷ 8 ∷ []) 4))
    × (length (p_hash toy_hmac (5 ∷ []) (6 ∷ 7 ∷ 8 ∷ []) 3) ≡ 3)
p_hash-output_example =
    p_hash-output toy_hmac (5 ∷ []) (6 ∷ 7 ∷ 8 ∷ []) (toy_nonempty (5 ∷ [])) 3 4
      (unfold output in omega arith)

compute_key_material-IsPartition_example :
    IsPartition
      (prf toy_hmac (5 ∷ []) (9 ∷ []) (1 ∷ 2 ∷ [] ++ 3 ∷ []) (2 * (2 + 3 + 1)))
      2
      3
      1
      (compute_key_material toy_hmac (5 ∷ []) (9 ∷ []) (1 ∷ 2 ∷ []) (3 ∷ []) 2 3 1)
compute_key_material-IsPartition_example =
    compute_key_material-IsPartition toy_hmac (5 ∷ []) (9 ∷ []) (1 ∷ 2 ∷ []) (3 ∷ []) 2 3 1
      (toy_nonempty (5 ∷ []))
