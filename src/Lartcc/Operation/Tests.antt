-- ===== src/Lartcc/Operation/Tests.antt =====
-- The operands of the calls for an addition and for a `melt`.
use lart.Common.{◌≡◌, refl, List, [], ◌∷◌, done}
use lart.Lartcc.Operation.{
  Argument, argument, test, with_taint, concrete, binary, arguments, duplicate_all, call_operands,
  paired_view,
}
use lart.Lartcc.Samples.{module_ir, melting}
use lart.Lartcc.Operation.Layout.{AllShow, paired_view_exact}

melting_has :
    arguments module_ir melting
    ≡ done (argument 12 test ∷ argument 10 concrete ∷ argument 5 concrete ∷ [])
unfolding arguments
melting_has = refl

addition_operands :
    call_operands binary 7
      (duplicate_all module_ir (λ v. 2) (argument 10 with_taint ∷ argument 11 with_taint ∷ []))
    ≡ 7 ∷ 2 ∷ 10 ∷ 1 ∷ 2 ∷ 11 ∷ 1 ∷ []
unfolding call_operands
addition_operands = refl

abbrev mixed : List Argument
mixed = argument 10 with_taint ∷ argument 11 test ∷ argument 12 concrete ∷ []

paired_view_exact_example :
    AllShow module_ir
      (λ v. 2)
      (call_operands binary 7 (duplicate_all module_ir (λ v. 2) mixed))
      mixed
      (paired_view binary mixed)
paired_view_exact_example = paired_view_exact module_ir (λ v. 2) binary 7 mixed
