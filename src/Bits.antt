-- ===== src/Bits.antt =====
-- Laws of `^`, `&` and `|` on unsigned numbers of every width, from the recursion on binary digits
-- that the native operations stand for.
mod Step
mod Xor
mod Mask
pub use Step.*
pub use Xor.*
pub use Mask.*
pub use Prim.Native.Nat.{bit_and, bit_or, bit_xor}
