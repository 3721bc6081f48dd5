-- ===== src/Lib.antt =====
-- node-dtls-client, a DTLS 1.2 client for Node.js, from its socket to its wire format.
--
-- The socket of src/dtls.ts drives everything: its UDP socket starts the handshake, brings datagrams and
-- reports its end. A datagram goes through src/DTLS/RecordLayer.ts. `receive` takes it apart into
-- records, filters them by their epoch and its src/TLS/AntiReplayWindow.ts, deciphers them with the
-- src/TLS/ConnectionState.ts of their epoch, and hands the messages on; `send` and `sendFlight` number,
-- encipher and serialize. A connection state keeps a suite of src/DTLS/CipherSuites.ts with its keys,
-- which src/TLS/PRF.ts derives; the suite, src/TLS/CipherSuite.ts, enciphers with
-- src/TLS/BlockCipher.ts or src/TLS/AEADCipher.ts. Handshake messages travel in fragments,
-- src/DTLS/Handshake.ts, which src/DTLS/HandshakeHandler.ts collects until they are a flight that it
-- expects, and answers. Everything on the wire is laid out by specs, src/TLS/TypeSpecs.ts, which
-- src/TLS/TLSStruct.ts and src/TLS/Vector.ts interpret on top of src/lib/BitConverter.ts and
-- src/lib/util.ts.
--
-- Which file models what:
-- - Prelude, Bits, Errors: shared names, tests and lemmas; bitwise operations; exceptions as values.
-- - Window: AntiReplayWindow. `may_receive`, `has_received` and `mark_as_received` are its methods;
--   the window is the list of its 32-bit words.
-- - Convert: `number_to_buffer`, `buffer_to_number`, `fit_to_whole_bytes`. A Buffer is the list of
--   its bytes, NaN is `none`.
-- - TypeSpecs, Codec, Messages: the specs as data, the codec over any spec, the specs of the protocol.
--   A struct's properties are the list of their values in the order of the spec.
-- - Fragment: FragmentedHandshake, with `split`, `is_complete`, `reassemble` and the wire format.
--   `Fragment.Body` is `toFragment` and `fromFragment` of a whole message.
-- - Flight: the collection of flights in ClientHandshakeHandler, src/DTLS/HandshakeHandler.ts, up to the
--   call of a flight's handler.
-- - Record: RecordLayer. Its state is the record `RecordLayer`, its methods are functions from a state
--   to a state and a result. What the ciphers do is the interface `Protection`.
-- - Keys: `P` of src/TLS/PRF.ts and computeKeyMaterial of src/TLS/ConnectionState.ts, over any HMAC.
-- - Crypto: what is taken from Node's crypto, as the record `Crypto`, with what is documented of it as
--   `IsCrypto`.
-- - Block, Aead, Suite: the delegates of src/TLS/BlockCipher.ts, AEADCipher.ts and CipherSuite.ts;
--   `Suite.Table` is the table of src/DTLS/CipherSuites.ts.
-- - Connection: ConnectionState. `Connection.Protect` makes it the `Protection` of the record layer.
-- - Handshaker: the rest of ClientHandshakeHandler. Its methods are computations of the monad `M`, whose
--   state is the record `Handler`; `Send` has the sending of flights, `Handle` the handlers, `Process`
--   processIncomingMessage and renegotiate.
-- - Socket: the Socket of src/dtls.ts; `Socket.Receive` is its udp_onMessage, `Socket.Steps` how it is
--   driven.
--
-- Loops are structural recursion, or recursion on fuel. `fitToWholeBytes` has four rounds, since the
-- shift leaves 24 bits of any number. A vector of structs has a round for each byte of its length and
-- one more, since an item takes a byte at least. `split` has two rounds, since its own test ends it
-- after one. The loop over a datagram has a round for each of its bytes. The data expansion has a round
-- for each byte that it is to give.
--
-- What memory from `Buffer.allocUnsafe` holds is a parameter, `Memory`; the time and the random draw of
-- a ClientHello are arguments. What the handshake handler sends and calls is listed in its outputs, and
-- done by the socket once the handler returns; the handler knows whether the UDP socket is open, and
-- throws inside its `try` where `udp.send` does. The callbacks of `udp.send` run as steps of their own.
--
-- Not modelled: `createSocket` and `checkOptions` of src/dtls.ts, which look at untyped options;
-- src/lib/AEADCrypto.ts, which hands calls on to Node's crypto or to a library; helpers on strings and
-- objects; the UDP socket itself. An exception in a listener of the user is not considered.
pub mod Prelude
pub mod Bits
pub mod Errors
pub mod Window
pub mod Convert
pub mod TypeSpecs
pub mod Codec
pub mod Messages
pub mod Fragment
pub mod Flight
pub mod Record
pub mod Keys
pub mod Crypto
pub mod Block
pub mod Aead
pub mod Suite
pub mod Connection
pub mod Handshaker
pub mod Socket
