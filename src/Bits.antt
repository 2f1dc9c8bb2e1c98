-- ===== src/Bits.antt =====
-- Laws of `&` and `|` on words of any width. The native operations have no laws at variables, so
-- each law here is an induction on the binary digits, by the step equations of `Bits.Digit`.
mod Digit
mod Mask
pub use Mask.*
pub use Digit.{bit_and_digit, bit_or_digit}
