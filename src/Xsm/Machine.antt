-- ===== src/Xsm/Machine.antt =====
-- xsm/machine.c, one module for each group of its functions.
pub mod Base
pub mod Tokens
pub mod Stack
pub mod Data
pub mod Devices
pub mod Opcode
pub mod Execute
pub mod Cycle
pub mod Keeps
pub mod Open
pub mod Privilege
pub mod Boot
pub mod Comparison
pub mod Access
pub mod Transfers
pub mod Faults
pub mod Interrupts
mod Samples
mod Tests
mod UserTests
