-- ===== src/Connection/Early.antt =====
-- A packet of epoch 1 that comes before the handshake has agreed on a suite.
use node_dtls_client.Prelude.{◌≡◌, refl, ap, sym, Option, none, [], ◌∷◌, true, some, get_elem?}
use node_dtls_client.Errors.{ok}
use node_dtls_client.Convert.{Buffer}
use node_dtls_client.Window.{reset, may_receive}
use node_dtls_client.Record.Packet.{DtlsPacket}
use node_dtls_client.Record.{
  Epoch, new_record_layer, create_epoch, acceptable, filter_packets, decrypt_packet,
  decrypt_packets, mark_packet, mark_packets, receive_packets,
}
use node_dtls_client.Crypto.{Crypto, HashAlgorithm}
use node_dtls_client.Block.{client}
use node_dtls_client.Suite.Table.{null_suite}
use node_dtls_client.Suite.{CipherSuite, suite_decipher, dispatch_decipher}
use node_dtls_client.Connection.{
  Delegate, ConnectionState, new_connection_state, get_decipher, decipher_packet, set_secrets,
}
use node_dtls_client.Connection.Protect.{protection, decrypt_incoming}

-- The delegate that the null suite makes.
abbrev null_delegate : Delegate
null_delegate = record { suite = null_suite; keys = none; end_point = client }

decipher_of : (c : Crypto) → Option (Epoch (protection c)) → Option Delegate
decipher_of c none = none
decipher_of c (some e) = e.connection_state.decipher

null_delegate_passes :
    (c : Crypto) (s : ConnectionState) (q : DtlsPacket)
    → s.decipher ≡ some null_delegate
    → (decipher_packet c s q).1 ≡ ok q
unfolding decipher_packet get_decipher suite_decipher dispatch_decipher
null_delegate_passes c s q kept = rw kept refl

-- A new record layer hands on any packet of epoch 1 whose number its window allows, with no MAC and no
-- tag checked; and whatever suite and secrets the epoch is given later, its decipher then lets every
-- packet pass unchanged.
pub receive_unauthenticated :
    (c : Crypto) (p q : DtlsPacket) (suite : CipherSuite) (hash : HashAlgorithm)
    (secret client_random server_random : Buffer)
    → may_receive reset p.sequence_number ≡ true
    → let early = record p { epoch = 1 } in
      let (r, delivered) =
        receive_packets (protection c) (new_record_layer (protection c)) (early ∷ []) in
      (delivered ≡ early ∷ [])
      × ((e : Epoch (protection c))
          → get_elem? r.epochs 1 ≡ some e
          → (decipher_packet c
              (set_secrets c
                (record e.connection_state { cipher_suite = some suite })
                suite
                hash
                secret
                client_random
                server_random)
              q).1
            ≡ ok q)
unfolding receive_packets filter_packets acceptable decrypt_packets decrypt_packet mark_packets
    mark_packet new_record_layer create_epoch decrypt_incoming decipher_packet get_decipher
    new_connection_state set_secrets decipher_of dispatch_decipher suite_decipher
receive_unauthenticated c p q suite hash secret client_random server_random fresh = rw fresh (
  refl,
  λ e found.
      null_delegate_passes c
        (set_secrets c (record e.connection_state { cipher_suite = some suite }) suite hash secret
          client_random server_random)
        q (sym (ap (decipher_of c) found)),
)
