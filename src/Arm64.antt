-- ===== src/Arm64.antt =====
-- The AArch64 parts of the engine: decoder, writer and relocator.
pub mod Reg
pub mod Decoder
pub mod Writer
pub mod Relocator
pub mod RoundTrip
