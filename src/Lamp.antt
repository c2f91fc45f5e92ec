-- ===== src/Lamp.antt =====
-- lamp/: the domains as the compiled program uses them.
pub mod Semilattice
