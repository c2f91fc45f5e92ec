-- ===== src/Runtime.antt =====
-- runtime/: what keeps the abstract values beside the program that runs.
pub mod Shadow
pub mod Choose
pub mod ArrayMap
pub mod Stash
