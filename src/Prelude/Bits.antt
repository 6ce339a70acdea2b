-- ===== src/Prelude/Bits.antt =====
-- Laws of `|` and `&` at every width, from their definition digit by digit.
mod Step
mod Fields
mod Split
pub use Fields.*
pub use Split.*
