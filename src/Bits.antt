-- ===== src/Bits.antt =====
-- Laws of `&`, `|` and `^` on words of every width. The native operations compute at numerals; at
-- variables they are known by their lowest digit, from which all else follows by strong induction.
mod Step
pub mod Xor
pub mod Fields
pub use Step.{bit_or_halves, bit_and_halves, bit_xor_halves}
