-- ===== src/Xsm.antt =====
-- The XSM machine simulator, xsm/.
pub mod Word
pub mod Registers
pub mod State
pub mod Memory
pub mod Lexer
pub mod Machine
pub mod Simulator
