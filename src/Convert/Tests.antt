-- ===== src/Convert/Tests.antt =====
-- Runs of the byte conversions.
use node_dtls_client.Prelude.{
  ◌+◌, ◌-◌, ◌≤◌, ◌<◌, ◌≡◌, ◌%◌, ◌/◌, ◌^◌, ◌++◌, ◌⊎◌, refl, [], ◌∷◌, some, arith,
}
use node_dtls_client.Convert.{number_to_buffer, fill_bytes, buffer_to_number, fit_to_whole_bytes}
use node_dtls_client.Convert.RoundTrip.{buffer_to_number-number_to_buffer, fit_to_whole_bytes_least}

written : number_to_buffer (some 43981) 24 ≡ 0 ∷ 171 ∷ 205 ∷ []
unfolding number_to_buffer fill_bytes
written = refl

-- A 48-bit number above 32 bits is written as its lower half.
upper_half_lost : number_to_buffer (some (2 ^ 32 + 7)) 48 ≡ 0 ∷ 0 ∷ 0 ∷ 0 ∷ 0 ∷ 7 ∷ []
unfolding number_to_buffer fill_bytes
upper_half_lost = refl

buffer_to_number-number_to_buffer_example :
    buffer_to_number (9 ∷ 8 ∷ [] ++ (number_to_buffer (some (2 ^ 32 + 70000)) 48 ++ 5 ∷ [])) 48 2
    ≡ some ((2 ^ 32 + 70000) % 2 ^ 32 % 256 ^ (48 / 8))
buffer_to_number-number_to_buffer_example =
    buffer_to_number-number_to_buffer (9 ∷ 8 ∷ []) (5 ∷ []) (2 ^ 32 + 70000) 48

fit_to_whole_bytes_least_example :
    (65535 < 256 ^ fit_to_whole_bytes 65535)
    × ((fit_to_whole_bytes 65535 ≡ 1) ⊎ (256 ^ (fit_to_whole_bytes 65535 - 1) ≤ 65535))
    × (fit_to_whole_bytes 65535 ≤ 4)
fit_to_whole_bytes_least_example = fit_to_whole_bytes_least 65535 (omega arith)
