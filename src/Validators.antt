-- ===== src/Validators.antt =====
-- src/mask/validators.rs: the checks that decide whether a candidate is a sensitive value.
pub mod Luhn
pub mod Weighted
pub mod IdCard
pub mod Uscc
pub mod Iban
pub mod Phone
pub mod Email
pub mod Ip
