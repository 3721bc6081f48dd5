-- ===== src/Codec/Tests.antt =====
-- Runs of the codec.
use node_dtls_client.Prelude.{◌≡◌, ◌++◌, refl, [], ◌∷◌, false, some, length, arith}
use node_dtls_client.Errors.{ok}
use node_dtls_client.TypeSpecs.{struct}
use node_dtls_client.Messages.{alert, client_hello}
use node_dtls_client.Convert.{Buffer, number_to_buffer, fill_bytes, fit_to_whole_bytes, count_bytes}
use node_dtls_client.Codec.{
  Memory, Value, num, bytes, numbers, structs, object, nil, cons, serialize, deserialize,
  with_length, concat_numbers, concat_structs,
}
use node_dtls_client.Codec.Fits.{Fits}
use node_dtls_client.Codec.RoundTrip.{deserialize-serialize}

abbrev old_memory : Memory
old_memory start pos = 170

-- A ClientHello with an empty session id, one cipher suite and one extension.
abbrev hello : Value
hello = object (
    cons (object (cons (num (some 254)) (cons (num (some 253)) nil))) (
      cons (object (cons (num (some 1000)) (cons (bytes (number_to_buffer (some 1) 224)) nil))) (
        cons (bytes []) (
          cons (bytes (7 ∷ [])) (
            cons (numbers (some 168 ∷ [])) (
              cons (numbers (some 0 ∷ [])) (
                cons
                  (structs
                    (cons (object (cons (num (some 23)) (cons (bytes (3 ∷ 4 ∷ [])) nil))) nil))
                  nil)))))))

abbrev warning_alert : Value
warning_alert = object (cons (num (some 1)) (cons (num (some 0)) nil))

alert_written : serialize (struct alert) warning_alert ≡ ok (1 ∷ 0 ∷ [])
unfolding serialize number_to_buffer fill_bytes
alert_written = refl

hello-Fits : Fits false (struct client_hello) hello
unfolding Fits number_to_buffer fill_bytes concat_structs with_length concat_numbers serialize
    fit_to_whole_bytes count_bytes
hello-Fits = (
  omega arith,
  (
    omega arith,
    (
      omega arith,
      (
        omega arith,
        (
          (refl, omega arith, omega arith),
          ((refl, omega arith, omega arith), ((refl, omega arith, omega arith), tt)),
        ),
      ),
    ),
  ),
)

deserialize-serialize_example :
    (bs : Buffer) × (serialize (struct client_hello) hello ≡ ok bs)
    × (deserialize old_memory (struct client_hello) (1 ∷ 2 ∷ [] ++ (bs ++ 3 ∷ [])) 2
        ≡ ok (hello, length bs))
deserialize-serialize_example =
    deserialize-serialize old_memory false (struct client_hello) hello (1 ∷ 2 ∷ []) (3 ∷ [])
      hello-Fits (λ e. cc)
