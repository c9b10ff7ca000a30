-- ===== src/Lib.antt =====
-- A verification library for pysui-crypto: the threshold encryption of src/seal, from the arithmetic
-- of GF(256) up to the `seal_encrypt` and `seal_decrypt` that Python calls, and the helpers for zkLogin
-- of src/lib.rs.
--
-- The parts, each in the file of its name with its theorems in the folder beside it:
--   Gf256       src/seal/gf256.rs: the tables EXP and LOG, `log` and `exp`, the operators of `GF256`.
--               `mul` keeps the assertions of `log`, `◌⊗◌` is its value, and the later parts use `◌⊗◌`.
--   Polynomial  src/seal/polynomial.rs: coefficients from the constant term up; every operation.
--   Utils       src/seal/utils.rs: `xor`, `xor_unchecked`, `transpose`, `generate_random_bytes`.
--   Tss         src/seal/tss.rs: `split` and `combine`, byte by byte; `interpolate`, whose closure is
--               `evaluate_all`.
--   Dem         src/seal/dem.rs: HMAC-CTR, AES-256-GCM and the choice between the modes.
--   Elgamal     src/seal/elgamal.rs, over any group.
--   Ibe         src/seal/ibe.rs: batch encryption of shares, extraction and verification of keys.
--   Core        src/seal/core.rs: `seal_encrypt`, `seal_decrypt` and what they are made of.
--   Python      what the functions for Python return: a value, a ValueError or RuntimeError, or a panic.
--   Bindings    src/seal/bindings.rs: the arguments read from bytes, and the calls of Core, Elgamal and
--               Ibe; Bindings.Message is the message that a user signs.
--   ObjectText  src/seal/mod.rs: the text forms of object ids.
--   Zklogin     src/lib.rs: seeds, addresses, claims of a token, nonces and signatures.
-- Tss shares each byte by a polynomial of Polynomial over Gf256; Core splits a base key with Tss,
-- encrypts the shares with Ibe and the payload with Dem; Bindings calls Core on what it reads from bytes.
--
-- How the code is read:
--   - a byte is eight bits (Byte), so exclusive or computes; lengths, indices, thresholds and u16 table
--     indices are numbers, with `as u8` written out as `% 256`; a `[u8; N]` is a list with its length
--     (Common.Array);
--   - a call returns, fails with an error or panics (Common.Outcome). An index out of bounds, an `unwrap`
--     or `expect` that fails, a failed assertion, debug assertions included, and an underflow of
--     usize are panics;
--   - random generators are explicit states (Utils.Rng), threaded in the order of the calls; Tss.Tape is one
--     that reads its bytes from a list, so that secrecy is a statement about all the bytes drawn;
--   - a text is the bytes of its UTF-8 form, and an exception its class without the message;
--   - `chunks` of Dem takes the length of the slice as fuel: each chunk takes at least one byte; `decimal`
--     of Bindings.Message takes four steps, as many as a u16 has digits after the first;
--   - itertools' `all_unique`, `contains`, `all_equal_value` and `zip_longest` are read as documented.
--
-- Library code is a parameter: the pairing groups, hashing and byte forms of fastcrypto (Groups.Curve,
-- with the laws used in Groups.GroupLaws and Groups.CurveLaws), AES-256-GCM, HMAC-SHA3-256 and BCS of a
-- u64 (Dem.Primitives), the generator of random numbers (Utils.Rng), BCS of the types of the crate
-- (Bindings.Bcs), Ed25519 keys and dates (Bindings.Message.Texts), hex (ObjectText.Hex), and the libraries of
-- src/lib.rs (Zklogin.Libraries), and the generation of key pairs of Ed25519 and secp256r1. Tests.Toy, Tests.Codec and Tests.Texts have an instance of each.
--
-- Not modelled: the registration of the Python module and of its classes, the texts of errors, and zeroing
-- of secrets in memory. The dictionaries that the functions for key pairs return stand as tuples.
pub mod Common
pub mod Byte
pub mod Gf256
pub mod Polynomial
pub mod Utils
pub mod Tss
pub mod Dem
pub mod Groups
pub mod Elgamal
pub mod Ibe
pub mod Core
pub mod Python
pub mod Bindings
pub mod Zklogin
pub mod ObjectText
pub mod Tests
