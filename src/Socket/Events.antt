-- ===== src/Socket/Events.antt =====
-- What is said of the events of a socket: their order, and how they end.
use node_dtls_client.Prelude.{
  ℕ, ◌+◌, ◌≤◌, ◌≡◌, ◌∙◌, refl, List, [], ◌∷◌, ◌++◌, Bool, true, false, ◌&&◌, arith,
}
use node_dtls_client.Crypto.{Crypto}
use node_dtls_client.Socket.{Event, connected, message, closed, failed, sent, Socket}

-- Every message stands behind a `connected`; `up` is whether there was one before.
unfoldable pub after_connected : Bool → List Event → Bool
after_connected up [] = true
after_connected up (connected ∷ es) = after_connected true es
after_connected up (message content rinfo ∷ es) = up && after_connected up es
after_connected up (closed ∷ es) = after_connected up es
after_connected up (failed e ∷ es) = after_connected up es
after_connected up (sent buf ∷ es) = after_connected up es

unfoldable pub has_connected : Bool → List Event → Bool
has_connected up [] = up
has_connected up (connected ∷ es) = has_connected true es
has_connected up (message content rinfo ∷ es) = has_connected up es
has_connected up (closed ∷ es) = has_connected up es
has_connected up (failed e ∷ es) = has_connected up es
has_connected up (sent buf ∷ es) = has_connected up es

-- How often the connection was reported to have ended, by `close` or by `error`.
unfoldable pub endings : List Event → ℕ
endings [] = 0
endings (connected ∷ es) = endings es
endings (message content rinfo ∷ es) = endings es
endings (closed ∷ es) = 1 + endings es
endings (failed e ∷ es) = 1 + endings es
endings (sent buf ∷ es) = endings es

pub after_connected-append :
    (up : Bool) (es fs : List Event)
    → after_connected up (es ++ fs)
      ≡ after_connected up es && after_connected (has_connected up es) fs
unfolding after_connected has_connected
after_connected-append up [] fs = refl
after_connected-append up (connected ∷ es) fs = after_connected-append true es fs
after_connected-append true (message content rinfo ∷ es) fs = after_connected-append true es fs
after_connected-append false (message content rinfo ∷ es) fs = refl
after_connected-append up (closed ∷ es) fs = after_connected-append up es fs
after_connected-append up (failed e ∷ es) fs = after_connected-append up es fs
after_connected-append up (sent buf ∷ es) fs = after_connected-append up es fs

pub has_connected-append :
    (up : Bool) (es fs : List Event)
    → has_connected up (es ++ fs) ≡ has_connected (has_connected up es) fs
unfolding has_connected
has_connected-append up [] fs = refl
has_connected-append up (connected ∷ es) fs = has_connected-append true es fs
has_connected-append up (message content rinfo ∷ es) fs = has_connected-append up es fs
has_connected-append up (closed ∷ es) fs = has_connected-append up es fs
has_connected-append up (failed e ∷ es) fs = has_connected-append up es fs
has_connected-append up (sent buf ∷ es) fs = has_connected-append up es fs

pub endings-append : (es fs : List Event) → endings (es ++ fs) ≡ endings es + endings fs
unfolding endings
endings-append [] fs = omega arith
endings-append (connected ∷ es) fs = endings-append es fs
endings-append (message content rinfo ∷ es) fs = endings-append es fs
endings-append (closed ∷ es) fs = omega (arith, endings-append es fs)
endings-append (failed e ∷ es) fs = omega (arith, endings-append es fs)
endings-append (sent buf ∷ es) fs = endings-append es fs

abbrev pub at_most : Bool → ℕ
at_most true = 1
at_most false = 0

-- Messages come after `connected`, the handshake is finished only after it, and an ending is reported
-- once at most, and only if the socket is closed.
pub record IsSound (events : List Event) (handshake_finished is_closed : Bool) : Type 0 where
  pub ordered : after_connected false events ≡ true
  pub up : handshake_finished ≡ true → has_connected false events ≡ true
  pub ended : endings events ≤ at_most is_closed

abbrev pub Sound : (c : Crypto) → Socket c → Type 0
Sound c s = IsSound s.events s.handshake_finished s.is_closed

-- More events, none of which is an ending.
pub IsSound-more :
    (es fs : List Event) (up up' shut : Bool)
    → after_connected (has_connected false es) fs ≡ true
    → (up' ≡ true → has_connected (has_connected false es) fs ≡ true)
    → endings fs ≡ 0
    → IsSound es up shut
    → IsSound (es ++ fs) up' shut
IsSound-more es fs up up' shut good rise none-more h = record {
  ordered = after_connected-append false es fs ∙ (rw (h.ordered, good) refl);
  up = λ e. has_connected-append false es fs ∙ rise e;
  ended = omega (arith, endings-append es fs, none-more, h.ended);
}
