-- ===== src/Examples.antt =====
-- The theorems at concrete inputs, with tests that run the code on them.
mod Traps
mod Protection
mod Machine
mod Soc
mod Loading
mod Terminal
mod Devices
mod Instructions
mod Interrupts
mod Registers
mod Reservations
