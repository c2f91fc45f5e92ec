-- ===== src/Lib.antt =====
-- LART abstracts LLVM programs: the compiler (lartcc/) finds the values that may be abstract and
-- replaces the operations on them, the abstract domains (lava/, wrapped for the compiled program by
-- lamp/) carry these operations out, and a runtime (runtime/) keeps the abstract values beside the
-- concrete ones. This library models the domains, which decide whether an analysis is sound, and
-- the data flow analysis of the compiler, which decides what the domains are applied to, the
-- operations and shadows that the compiler puts in, the choice of a domain by lamp, and of the
-- runtime the shadow memory, the stash, the map and the choices.
--
-- Lava/Tristate: lava/include/lava/support/tristate.hpp, the truth values of abstract branches.
-- Lava/Sign: lava/include/lava/sign.hpp, tables over the eight signs.
-- Lava/Bound: lava/include/lava/support/interval.hpp, the type `sup::bound`, machine integers whose
--   extreme values are infinities.
-- Lava/Interval: the same file, the type `sup::interval`, pairs of bounds.
-- Lava/IntervalDomain: lava/include/lava/interval.hpp, the interval domain's values and operations.
-- Lava/Backward: the same file, how intervals are narrowed to a branch or to the result of an operation.
-- Lava/Constant: lava/include/lava/constant.hpp, concrete numbers of a width, with `call` of
--   lava/include/lava/support/base.hpp.
-- Lava/Product: lava/include/lava/support/product.hpp, two domains side by side.
-- Lava/UnitDomain: lava/include/lava/unit.hpp, the domain of one value.
-- Lava/Zero: lava/include/lava/zero.hpp, zero and nonzero machine words.
-- Lamp/Semilattice: lamp/include/lamp/support/semilattice.hpp, operations on values of several domains.
-- Lartcc/Layer, Lartcc/Onion: lartcc/include/cc/tristate.hpp and the types of
--   lartcc/include/cc/dfa.hpp, a layer for each level of pointers.
-- Lartcc/Dataflow: lartcc/dfa.cpp, the work list that joins these types along the edges of a program.
-- Lartcc/Operation: lartcc/include/cc/operation.hpp, the operations put in for those on abstract
--   values, with cc/arguments.hpp and lartcc/taint.cpp, the operands of their calls.
-- Lartcc/TestTaint: lartcc/backend/native/native.cpp and lartcc/lifter.cpp, the functions synthesised for these calls.
-- Lartcc/Syntactic: lartcc/syntactic.cpp, the calls and how the abstract values get to their operands.
-- Lartcc/Selection: the same file and lartcc/shadow.cpp, what is made for a value by its type.
-- Lartcc/Shadows: lartcc/shadow.cpp, the bits that tell which values are abstract at run time.
-- Lartcc/Generators: lartcc/include/cc/roots.hpp, the calls that the analysis starts from.
-- Lartcc/Edges: lartcc/dfa.cpp again, the edges of a value from its uses in the program.
-- Runtime/Shadow: runtime/native/shadow.cpp, the labels of the bytes in memory and the frames they
--   belong to.
-- Runtime/ArrayMap: runtime/include/runtime/map.hpp, the sorted vector that serves as a map.
-- Runtime/Stash: runtime/native/stash.cpp and stash.hpp, the stacks that pass abstract arguments.
-- Runtime/Choose: runtime/native/choose.cpp, the answers that `__lart_choose` explores.
-- Common: numbers, tests, and the outcomes of code that can give a path up.
--
-- The domains interact through tristates: a comparison of abstract values yields one, `to_tristate`
-- makes one of an abstract value, `lower` turns it into a branch, and `assume` narrows the value to
-- the branch taken. A file beside each domain named Meaning (Words for Zero) says which integers an
-- abstract value stands for; it is independent of the code.
--
-- `operator` functions bear the word for their operator (`add` is `operator+` and `operator+=`,
-- `not_t` is `operator!` of tristates), `op_add` and its like are clauses of one function `apply`
-- over the name of the operation, and a look-up table is a function of its row and its column. A
-- function that can end the process by `__lart_cancel`, or that can meet undefined behaviour or
-- `fail`, yields a `Run` of its result. An answer of `__lart_choose` is an argument; `bgt` has no
-- path for one outside the range that it asks for, and the other backward operations say in their
-- theorems how large it may be.
--
-- Bounds are integers from `negsuc limit` to `pos limit`, where `limit` is the largest value of the
-- bound's type, any number unless a theorem says more; examples take 127, and 32767 where a bound
-- on choices of 200 has to be below it. The sign domain does not track a width and is modelled over
-- all integers. A word of the zero domain is a number below the modulus `m`. A constant is a number
-- with a width; the C++ type that it is computed in, the promotion to `int` included, is written
-- out, and a result outside a signed type is undefined. The product of domains takes what it calls
-- of them as a record; its operations only pair those of its parts. The work list of the data flow
-- analysis runs on fuel: each change of a type costs it some of what it can lose (layers, and the
-- certainty of each), and pays for the edges that it pushes, so that their sum bounds the steps.
-- Reading a range of the shadow runs on fuel too, and as much as there are bytes suffices; the
-- offset in a range is an `int` in the code, so that ranges of 2 ^ 31 bytes or more are outside the
-- model, and so is a memory without a frame. The work list takes the edges of a value as a
-- parameter, with the hypotheses that the program has finitely many values and that no comparison
-- is a pointer. Lartcc/Edges says which edges these are: what the code asks LLVM and the alias
-- analysis for is a record of answers (the class of a value, its uses, the function that a call
-- names, what a pointer may point to), and the one thing relied on is that LLVM says of a parameter
-- that it is one. Lartcc/Generators collects the roots on fuel as well, bounded by a cost that
-- falls along the users of casts and constant expressions; what `sc::llvmcase` does on a value that
-- no case matches is an argument. An assertion that fails and code marked unreachable are
-- undefined.
--
-- Lartcc/Operation takes what LLVM answers on a value as a record, and so do the files that use it.
-- A value is a number, and a new call a new number. Lartcc/TestTaint runs the functions that are
-- synthesised on data, with the domain's operation, the wrappers and a copied instruction as
-- arguments. Lartcc/Syntactic keeps operands, the maps `abstract`, `identity`, `places` and the
-- shadows as functions; which uses the loop that replaces them comes to is an argument; following
-- the casts of a value runs on fuel, for which the distance to the newest value suffices, since a
-- cast comes after its operand. Lartcc/Shadows keeps a shadow as a term of the code made for it; it
-- runs on fuel as well, which has to exceed the rank of a value over its operands.
--
-- Not modelled: bitwise operations and shifts of bounds, shifts and conversions of constants,
-- floating point operations, printing, the terms of the solvers, the domain combinators but the
-- product, the order and the places at which the compiler inserts code, its lowering of pointer
-- arithmetic, and the rest of the runtime: its reports and traces.
pub mod Common
pub mod Lamp
pub mod Lava
pub mod Lartcc
pub mod Runtime
