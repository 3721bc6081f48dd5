-- ===== src/Socket/Steps.antt =====
-- How a `Socket` of src/dtls.ts is driven: by its UDP socket, its timer, the callbacks and its user.
use node_dtls_client.Prelude.{ℕ, ◌≡◌, List, ◌∷◌, true, false, none, some}
use node_dtls_client.Errors.{Error}
use node_dtls_client.Convert.{Buffer}
use node_dtls_client.Crypto.{Crypto}
use node_dtls_client.Socket.{
  Config, Callback, Timer, Socket, new_socket, kill_connection, send, close, udp_on_listening,
  expire, udp_on_close, run_callback,
}
use node_dtls_client.Socket.Receive.{udp_on_message}

-- An event needs its listener, a timer must run, and a callback is run once.
pub data Step (c : Crypto) (config : Config) : Socket c → Socket c → Type 0 where
  listening :
      (s : Socket c)
      → s.listens ≡ true
      → s.udp_connected ≡ false
      → Step c config s (udp_on_listening c config s).0
  datagram_arrives :
      (s : Socket c) (buf : Buffer) (rinfo : ℕ)
      → s.listens ≡ true
      → Step c config s (udp_on_message c config buf rinfo s).0
  udp_closes : (s : Socket c) → s.listens ≡ true → Step c config s (udp_on_close c s)
  udp_fails :
      (s : Socket c) (e : Error)
      → s.listens_to_errors ≡ true
      → Step c config s (kill_connection c e s).0
  times_out :
      (s : Socket c) (t : Timer)
      → s.connection_timeout ≡ some t
      → Step c config s (expire c t (record s { connection_timeout = none })).0
  calls_back :
      (s : Socket c) (k : Callback) (ks : List Callback)
      → s.callbacks ≡ k ∷ ks
      → Step c config s (run_callback c k (record s { callbacks = ks })).0
  user_sends : (s : Socket c) (content : Buffer) → Step c config s (send c content s).0
  user_closes : (s : Socket c) → Step c config s (close c s).0

-- The states that a new socket comes to.
pub data Reachable (c : Crypto) (config : Config) : Socket c → Type 0 where
  start : Reachable c config (new_socket c)
  next : {s t : Socket c} → Reachable c config s → Step c config s t → Reachable c config t
