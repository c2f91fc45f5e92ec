-- ===== src/Lartcc/Shadows/Ends.antt =====
-- That lartcc/shadow.cpp ends where no value takes its own result, and that it does not end where one does.
use lart.Common.{
  ℕ, zero, suc, ◌<◌, ◌≡◌, refl, ap, subst, ◌∙◌, inl, inr, Bool, false, Option-cases, none, some,
  done, arith,
}
use lart.Lartcc.Dataflow.{Value}
use lart.Lartcc.Selection.{Code, ShadowKind, operation_kind}
use lart.Lartcc.Shadows.{Shadow, bit, Ops, process_operation, process_value}
use lart.Lartcc.Shadows.Taints.{IsBitKind, IsWell, Tells, IsSound}
use lart.Lartcc.Shadows.Soundness.{Tells-false, told_by_kind, told_once}

module _ (m : Code) (bytes : Value → ℕ) where
  pub kind_none :
      (fuel v : Value) (ops : Ops)
      → operation_kind m v ≡ done none
      → process_value m bytes (suc fuel) v ops ≡ some (done (bit false, ops))
  unfolding process_value
  kind_none fuel v ops e = rw e refl

  pub kind_some :
      (fuel v : Value) (ops : Ops) (k : ShadowKind)
      → operation_kind m v ≡ done (some k)
      → process_value m bytes (suc fuel) v ops
        ≡ process_operation m bytes (process_value m bytes fuel) k v ops
  unfolding process_value
  kind_some fuel v ops k e = rw e refl

module _ (m : Code) (bytes : Value → ℕ) (tests : Value → ℕ → Bool) (gave : Value → Bool)
    (first : Ops) (rank : Value → ℕ) (good : Value → Type 0) (well : IsWell m first rank good) where
  -- Where the values that are asked for do not take their own results, their shadows are bits, and those of the sources are
  -- there, making the shadow of a value ends, with more fuel than its rank. The bit that is made is set just if
  -- the value's shadow was given and is set, or the value is read from tainted memory by a load that melts it, one
  -- whose pointer is not abstract, or it is the result of an instruction on an operand of which one of these
  -- holds. For a load through an abstract pointer the bit is false whatever the memory, since `process_load` is not
  -- written yet. So are the shadows that are there afterwards.
  pub process_value-Tells :
      (fuel : ℕ) (v : Value) (ops : Ops)
      → good v
      → rank v < fuel
      → IsSound m bytes tests gave first good ops
      → (x : Shadow) × ((ops' : Ops) × (process_value m bytes fuel v ops ≡ some (done (x, ops')))
          × Tells m bytes tests gave first v x
          × IsSound m bytes tests gave first good ops')
  process_value-Tells zero v ops g lt s = absurd (omega arith)
  process_value-Tells (suc fuel) v ops g lt s =
      let (k, e, is_bit, given_none) = well.has_kind v g in
      elim (Option-cases k) [
        | inl no_kind ↦
            let none_kind : operation_kind m v ≡ done none = e ∙ ap done no_kind in
            (
              bit false,
              (
                ops,
                kind_none m bytes fuel v ops none_kind,
                Tells-false m bytes tests gave first good v (given_none no_kind)
                    (λ c. absurd (cc (none_kind, c))) (λ f. absurd (cc (f.0, none_kind))),
                s,
              ),
            )
        | inr (kind, is) ↦
            let some_kind : operation_kind m v ≡ done (some kind) = e ∙ ap done is in
            let (x, (ops', p, t, s')) =
              told_once m bytes tests gave first good (process_value m bytes fuel) v kind ops g s
                (λ absent.
                  told_by_kind m bytes tests gave first good (process_value m bytes fuel) v kind
                    (s.from_first v absent) some_kind
                    (subst IsBitKind is (is_bit (s.from_first v absent))) (well.has_operand v g)
                    (λ f u i o h.
                      let (good_u, less) = well.down v u g f i in
                      process_value-Tells fuel u o good_u (omega arith) h)) in
            (x, (ops', kind_some m bytes fuel v ops kind some_kind ∙ p, t, s'))
      ]
