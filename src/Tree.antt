-- ===== src/Tree.antt =====
-- src/mask/tree.rs: the walk over a JSON tree that masks it and the walk that restores it.
pub mod Mask
pub mod Restore
pub mod Literal
pub mod Duplicates
pub mod Dialog
pub mod Body
