-- ===== src/Lib.antt =====
-- Verification of tlslite-ng with DVNIZK-ECC, a TLS library in Python.
--
-- A connection (tlslite/tlsconnection.py) runs the handshake over message fragments
-- (tlslite/messagesocket.py, tlslite/defragmenter.py), these over the record layer
-- (tlslite/recordlayer.py), which protects each record under the keys that the handshake derives. All
-- formats are written and read by one codec (tlslite/utils/codec.py). In this variant the server of
-- TLS 1.3 may prove its identity by a proof for a designated verifier (tlslite/dvnizk.py) in the place
-- of a signature: only the client that takes part learns anything, since it can simulate such proofs.
--
-- Base/        shared helpers: Boolean tests and lists over native numbers, Python's exceptions as
--              values (Result, Method), byte strings, differences and powers modulo a number, and the
--              laws of the bitwise operations.
-- Codec/       tlslite/utils/codec.py. Writer and Parser are the classes with their methods; Writing,
--              Reading and RoundTrip have the theorems. Nested has writers inside writers and loops that read a
--              list, LengthChecks, Coded, Parts, Items and Endings the rules by which formats are put together.
-- ConstantTime/  tlslite/utils/constanttime.py. Words has the comparisons (ct_lt_u32 and the others),
--              Cbc has ct_compare_digest and ct_check_cbc_mac_and_pad; Comparisons, Loops, CbcCheck,
--              CbcPlaces and CbcVerdict say what they compute.
-- Ciphers/     ciphers of tlslite/utils written in Python: ChaCha (chacha.py), Poly1305 (poly1305.py),
--              ChaCha20Poly1305 (chacha20_poly1305.py) and Rc4 (python_rc4.py, rc4.py); Stream, ChaChaLaws,
--              Aead and Rc4Laws have the theorems.
-- Extensions/  tlslite/extensions.py: Shapes has the four generic classes of extensions with a single field
--              and the classes below them, Kinds the data of all extensions and the tables of classes, Data what
--              the other classes write and read, Extension the payload and the generic header.
--              Payloads, ListItems, Fields, RoundTrip and Headers have the theorems.
-- Messages/    the handshake messages of tlslite/messages.py: Kinds has the data, Bodies and Handshakes what
--              write and parse do, and the choice of the class by _getMsg (tlslite/tlsrecordlayer.py);
--              Suites has the lists of CipherSuite that choose the key exchange. Frames, Fields, Hellos,
--              Exchanges and RoundTrip have the theorems.
-- KeyExchange/ tlslite/keyexchange.py: Ffdh has FFDHKeyExchange and ADHKeyExchange, Srp has SRPKeyExchange and
--              its helpers in tlslite/mathtls.py, Groups the groups there; Agreement and SrpAgreement have
--              the theorems.
-- Numbers/     tlslite/utils/cryptomath.py: gcd, lcm and invMod (Divisors, and Inverse over Integers), and
--              numberToByteArray and bytesToNumber (ByteStrings).
-- Fragments/   Defragmenter is tlslite/defragmenter.py; Sending and Receiving are the two sides of
--              tlslite/messagesocket.py, and Message the class of that name in tlslite/messages.py.
--              Handlers, Slots, Draining, Flights, Delivery and Channel have the theorems.
-- Sessions/    tlslite/sessioncache.py: Cache has the class, Queue the queue of entries that it stands
--              for; Ring, Places, Refinement and Purging have the theorems.
-- Dvnizk/      tlslite/dvnizk.py. Curve has the parameters for PyNaCl and SHA-512 and their laws, Proof
--              the algorithms and the format, Keys the conversions of keys, Handshake the uses in
--              tlslite/tlsconnection.py; Honest, Simulation, Correspondence, Wire and Agreement have the
--              theorems.
-- RecordLayer/ tlslite/recordlayer.py, and the record headers of tlslite/messages.py. Suites has lists
--              of CipherSuite in tlslite/constants.py. State is ConnectionState, Protect the methods
--              that protect a record (sendRecord and below), Open those that take the protection off,
--              Receive the loop of recvRecord, Keys and Pending the settings and pending states.
--              Headers, Sealing, Stripping, Blocks, EncryptThenMac, Padding, Limits, Mirror and SuiteSettings have the
--              theorems, and ChaChaRecords those of records under ChaCha20-Poly1305.
--
-- An object with methods is a record, and a method that may raise is a function from the state to an
-- outcome and the state that it leaves, which an exception does not undo. A generator that waits for a
-- socket is modelled by what it does between waits: recvRecord takes the list of records that the
-- socket gives. Numbers are natural numbers; where Python would go below 0, the model writes out what
-- the source does. Loops are recursion on lists or counts, with fuel in nine places, where it is
-- enough: pow_mod halves its exponent, the loop of flush takes a byte at least of the buffer in
-- each round, and the loop of recvMessage that takes messages a byte at least of the buffers. The
-- loop of _purge goes round the circular list once at most, and the loops of gcd and invMod make a number
-- smaller in each round, as does the count of bits. A loop that reads a list has more fuel than its parser has
-- bytes, of which each item takes one.
--
-- A MAC object is a function of all that it was given. A cipher object answers each call by a function
-- of its earlier inputs, so that the state that a stream or CBC cipher keeps is its history. Elliptic
-- curve operations, hash functions and the cipher libraries are parameters; a theorem that needs them to
-- be lawful says so, and its laws are met by the toy ones of the test modules.
--
-- Not modelled: timing; sockets; the verification of a signature, to which the client goes on at a
-- CertificateVerify of another scheme than dvnizk_ed25519; the fallbacks for Python 2; the messages and
-- extensions that carry certificates, the ClientHello of SSL 2, the certificate code and the rest of the
-- handshake, with the key exchanges over RSA, elliptic curves and KEMs; AES, 3DES, the PRFs, and calc_key of
-- tlslite/mathtls.py, which is an argument of the pending states.
pub mod Base
pub mod Codec
pub mod ConstantTime
pub mod Ciphers
pub mod Dvnizk
pub mod Fragments
pub mod RecordLayer
pub mod Sessions
pub mod Numbers
pub mod Extensions
pub mod Messages
pub mod KeyExchange
