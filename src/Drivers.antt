-- ===== src/Drivers.antt =====
-- The drivers of the microcontrollers: the package mcudrivers.
pub mod Numbers
pub mod Packing
pub mod Head
pub mod Body
mod Examples
