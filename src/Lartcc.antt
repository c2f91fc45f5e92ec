-- ===== src/Lartcc.antt =====
-- lartcc/: the analysis that finds the values of a program that may be abstract.
pub mod Layer
pub mod Onion
pub mod Operation
pub mod Samples
pub mod TestTaint
pub mod Syntactic
pub mod Dataflow
pub mod Edges
pub mod Selection
pub mod Shadows
pub mod Generators
