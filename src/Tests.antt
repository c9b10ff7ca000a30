-- ===== src/Tests.antt =====
-- Runs of the operations on concrete inputs.
mod Toy
mod Algebra
mod Shares
mod Secrecy
mod Protocols
mod Sealing
mod Consistency
mod Codec
mod Bytes
mod Verified
mod Tampered
mod Texts
use pysui_crypto.Common.{ℕ, ◌≡◌, refl, List, [], ◌∷◌, ok}
use pysui_crypto.Byte.{of_ℕ, to_ℕ, eq}
use pysui_crypto.Gf256.{from_u8, is_zero, log_entry, log, exp, mul}
use pysui_crypto.Gf256.Tables.{exp_table, log_table}
use pysui_crypto.Tss.{combine_byte}

-- From the test vectors of seal/gf256.rs.
mul_vector : mul (from_u8 (of_ℕ 83)) (from_u8 (of_ℕ 202)) ≡ ok (from_u8 (of_ℕ 1))
unfolding mul is_zero eq of_ℕ log exp exp_table log_entry log_table to_ℕ
mul_vector = refl
