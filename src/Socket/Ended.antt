-- ===== src/Socket/Ended.antt =====
-- What a socket sends once its end was reported.
use node_dtls_client.Prelude.{◌≡◌, ◌≤◌, refl, inl, inr, arith, Bool-cases}
use node_dtls_client.Errors.{err, socket_closed}
use node_dtls_client.Convert.{Buffer}
use node_dtls_client.Crypto.{Crypto}
use node_dtls_client.Socket.{Config, Socket, send}
use node_dtls_client.Socket.Events.{endings}
use node_dtls_client.Socket.Steps.{Reachable}
use node_dtls_client.Socket.Sound.{Reachable-IsSound}

-- Once a socket has reported its end, as `close` or as `error`, `send` throws that it is closed, sends
-- nothing and leaves the state as it is.
pub send-endings :
    (c : Crypto) (config : Config) (s : Socket c) (content : Buffer)
    → Reachable c config s
    → 1 ≤ endings s.events
    → send c content s ≡ (s, err socket_closed)
unfolding send
send-endings c config s content reached over = elim (Bool-cases s.is_closed) [
  | inl shut ↦ rw (shut, send) refl
  | inr alive ↦
      let ended = (Reachable-IsSound c config s reached).ended in
      let once = rw alive at ended in absurd (omega (arith, over, once))
]
