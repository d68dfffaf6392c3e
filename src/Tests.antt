-- ===== src/Tests.antt =====
-- Runs of the code at concrete inputs, and the theorems at inputs that meet their hypotheses.
mod Inputs
mod Placeholder
mod Store
mod Validators
mod Exemptions
mod Detect
mod Decoder
mod Seed
mod Tree
mod Body
mod Dialog
mod Engine
mod Restored
mod Blob
mod Stream
