-- ===== src/Socket/Accepted.antt =====
-- What becomes of the application data that the record layer hands on.
use node_dtls_client.Prelude.{
  ℕ, ◌≡◌, ◌∙◌, refl, ap, sym, List, [], ◌∷◌, ◌++◌, append-nil, append_assoc, Bool, true, false,
  some, ◌==◌, if◌then◌else◌, inl, inr, ◌⊎◌, Bool-cases,
}
use node_dtls_client.Errors.{Error, ok, err, Result-cases}
use node_dtls_client.Convert.{Buffer}
use node_dtls_client.Crypto.{Crypto}
use node_dtls_client.Connection.Protect.{protection}
use node_dtls_client.Record.{Message, receive}
use node_dtls_client.Handshaker.{Handler}
use node_dtls_client.Handshaker.Send.{handshake_content}
use node_dtls_client.Handshaker.Handle.{alert_content}
use node_dtls_client.Socket.{Config, message, Socket, Outcome, application_data}
use node_dtls_client.Socket.Receive.{
  on_handshake, on_change_cipher_spec, on_alert, on_application_data, on_message, on_messages,
  udp_on_message, change_cipher_spec_content,
}
use node_dtls_client.Socket.Kept.{
  emitted, emitted-append, accepted, IsDrained, Kept, on_handshake-Keeps, on_change-Keeps,
  on_alert-Keeps,
}

-- The application data of a message: none, or its content.
abbrev pub data_of : ℕ → Message → List (Buffer × ℕ)
data_of rinfo msg =
    if msg.type == handshake_content
    then []
    else if msg.type == change_cipher_spec_content
    then []
    else if msg.type == alert_content
    then []
    else if msg.type == application_data
    then (msg.content, rinfo) ∷ []
    else []

on_data-accepts :
    (c : Crypto) (content : Buffer) (rinfo : ℕ) (s : Socket c)
    → IsDrained s
    → Kept c s (on_application_data c content rinfo s).0 (accepted s ++ (content, rinfo) ∷ [])
unfolding on_application_data emitted
on_data-accepts c content rinfo s drained = elim (Bool-cases s.handshake_finished) [
  | inl finished ↦
      let empty = drained finished in
      rw (finished, on_application_data)
        (
          ap (λ x. emitted (s.events ++ message content rinfo ∷ []) ++ x) empty
              ∙ append-nil _
              ∙ emitted-append s.events (message content rinfo ∷ [])
              ∙ ap (λ x. x ++ (content, rinfo) ∷ [])
                  (sym (ap (λ x. emitted s.events ++ x) empty ∙ append-nil _)),
          λ d e. empty,
        )
  | inr pending ↦
      rw (pending, on_application_data)
        (
          sym (append_assoc (emitted s.events) s.buffered_messages ((content, rinfo) ∷ [])),
          λ d e. cc,
        )
]

when-data :
    (c : Crypto) (b : Bool) (m n : Outcome c) (s : Socket c) (d e : List (Buffer × ℕ))
    → Kept c s m.0 (accepted s ++ d)
    → Kept c s n.0 (accepted s ++ e)
    → Kept c s (if b then m else n).0 (accepted s ++ (if b then d else e))
when-data c true m n s d e h k = h
when-data c false m n s d e h k = k

no_data : (c : Crypto) (s t : Socket c) → Kept c s t (accepted s) → Kept c s t (accepted s ++ [])
no_data c s t (e, h) = (e ∙ sym (append-nil (accepted s)), h)

pub on_message-accepts :
    (c : Crypto) (config : Config) (rinfo : ℕ) (msg : Message) (s : Socket c)
    → IsDrained s
    → Kept c s (on_message c config rinfo msg s).0 (accepted s ++ data_of rinfo msg)
unfolding on_message
on_message-accepts c config rinfo msg s drained =
    when-data c (msg.type == handshake_content) _ _ s [] _
      (no_data c s (on_handshake c config msg.content s).0
        (on_handshake-Keeps c config msg.content s))
      (when-data c (msg.type == change_cipher_spec_content) _ _ s [] _
        (no_data c s (on_change_cipher_spec c s).0 (on_change-Keeps c s))
        (when-data c (msg.type == alert_content) _ _ s [] _
          (no_data c s (on_alert c config msg.content s).0 (on_alert-Keeps c config msg.content s))
          (when-data c (msg.type == application_data) _ (s, ok tt) s ((msg.content, rinfo) ∷ []) []
            (on_data-accepts c msg.content rinfo s drained) (no_data c s s (refl, λ d. d)))))

abbrev pub all_data : ℕ → List Message → List (Buffer × ℕ)
all_data rinfo [] = []
all_data rinfo (msg ∷ msgs) = data_of rinfo msg ++ all_data rinfo msgs

-- An exception: it is that of the last message done, and the messages before it threw none.
pub record IsThrown (c : Crypto) (config : Config) (rinfo : ℕ) (done : List Message) (s : Socket c)
    (out : Outcome c) : Type 0 where
  pub before : List Message
  pub thrower : Message
  pub error : Error
  pub middle : Socket c
  pub is_last : done ≡ before ++ thrower ∷ []
  pub went_well : on_messages c config rinfo before s ≡ (middle, ok tt)
  pub threw : on_message c config rinfo thrower middle ≡ (out.0, err error)
  pub is_thrown : out.1 ≡ err error

-- What was done of the messages, and what an exception left.
pub record IsAccepted (c : Crypto) (config : Config) (rinfo : ℕ) (msgs : List Message)
    (s : Socket c) (out : Outcome c) : Type 0 where
  pub done : List Message
  pub left : List Message
  pub all_messages : msgs ≡ done ++ left
  pub data_accepted : accepted out.0 ≡ accepted s ++ all_data rinfo done
  pub ended : ((out.1 ≡ ok tt) × (left ≡ [])) ⊎ IsThrown c config rinfo done s out

on_messages-IsAccepted :
    (c : Crypto) (config : Config) (rinfo : ℕ) (msgs : List Message) (s : Socket c)
    → IsDrained s
    → IsAccepted c config rinfo msgs s (on_messages c config rinfo msgs s)
unfolding on_messages
on_messages-IsAccepted c config rinfo [] s drained = record {
  done = [];
  left = [];
  all_messages = refl;
  data_accepted = sym (append-nil (accepted s));
  ended = inl (refl, refl);
}
on_messages-IsAccepted c config rinfo (msg ∷ msgs) s drained =
    let (first, still) = on_message-accepts c config rinfo msg s drained in
    let s' = (on_message c config rinfo msg s).0 in
    elim (Result-cases (on_message c config rinfo msg s).1) [
      | inr (e, thrown) ↦
          rw (thrown, on_messages)
            (record {
              done = msg ∷ [];
              left = msgs;
              all_messages = refl;
              data_accepted =
                  first ∙ ap (λ x. accepted s ++ x) (sym (append-nil (data_of rinfo msg)));
              ended = inr (record {
                before = [];
                thrower = msg;
                error = e;
                middle = s;
                is_last = refl;
                went_well = refl;
                threw = ap (λ r. (s', r)) thrown;
                is_thrown = refl;
              });
            })
      | inl (u, fine) ↦
          let more = on_messages-IsAccepted c config rinfo msgs s' (still drained) in
          rw (fine, on_messages)
            (record {
              done = msg ∷ more.done;
              left = more.left;
              all_messages = ap (λ x. msg ∷ x) more.all_messages;
              data_accepted =
                  more.data_accepted
                  ∙ ap (λ x. x ++ all_data rinfo more.done) first
                  ∙ append_assoc (accepted s) (data_of rinfo msg) (all_data rinfo more.done);
              ended = elim more.ended [
                | inl all ↦ inl all
                | inr t ↦ inr (record {
                  before = msg ∷ t.before;
                  thrower = t.thrower;
                  error = t.error;
                  middle = t.middle;
                  is_last = ap (λ x. msg ∷ x) t.is_last;
                  went_well = rw (fine, on_messages) t.went_well;
                  threw = t.threw;
                  is_thrown = t.is_thrown;
                })
              ];
            })
    ]

-- Of the messages that the record layer hands on from a datagram, either all are done and nothing is
-- thrown, or those up to one that throws, whose exception is passed on with the state that it leaves,
-- while none before it threw. The application data of the messages that are done, and no other, is
-- added behind what was accepted before, each once and in the order of its arrival; accepted is what
-- was emitted and what waits. Nothing waits at the start once the handshake is finished.
pub udp_on_message-IsAccepted :
    (c : Crypto) (config : Config) (buf : Buffer) (rinfo : ℕ) (s : Socket c) (h : Handler c)
    → s.handler ≡ some h
    → IsDrained s
    → let (layer', msgs) = receive (protection c) config.memory h.layer buf in
      IsAccepted c config rinfo msgs
        (record s { handler = some (record h { layer = layer' }) })
        (udp_on_message c config buf rinfo s)
unfolding udp_on_message
udp_on_message-IsAccepted c config buf rinfo s h there drained =
    let (layer', msgs) = receive (protection c) config.memory h.layer buf in
    let s' : Socket c = record s { handler = some (record h { layer = layer' }) } in
    rw (there, udp_on_message) (on_messages-IsAccepted c config rinfo msgs s' drained)
