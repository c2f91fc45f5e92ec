-- ===== src/Lava/IntervalDomain/Forward.antt =====
-- The forward operations of lava/include/lava/interval.hpp on the integers of their operands.
use mathlib.Core.Option.{some-injective}
use lart.Common.{
  ℕ, ◌≡◌, refl, Bool, true, false, not, if◌then◌else◌, Option, none, some, Run, done, ◌>>=◌, arith,
}
use lart.Common.Int.{ℤ, pos, ◌+ℤ◌, eq_ℤ, ltb_ℤ, leb_ℤ}
use lart.Lava.Tristate.{Tristate, false_value, true_value, maybe_value, maybe, to_bool}
use lart.Lava.Tristate.Meaning.{Denotes}
use lart.Lava.Bound
use lart.Lava.Bound.Range.{InRange, AllDone, add-InRange}
use lart.Lava.Interval
use lart.Lava.Interval.{Interval, interval, is_bottom, includes_bound, of_tristate, of_bool}
use lart.Lava.Interval.Meaning.{Contains, IsProper, IsMachine}
use lart.Lava.Interval.Compare.{comparisons_sound}
use lart.Lava.Interval.Sums.{add_sound}
use lart.Lava.IntervalDomain.{
  Operation, op_join, op_meet, op_add, op_sub, op_mul, op_sdiv, op_udiv, op_srem, op_urem, op_eq,
  op_ne, op_ugt, op_uge, op_ult, op_ule, op_sgt, op_sge, op_slt, op_sle, op_and, op_or, op_xor,
  of_interval, apply,
}

-- The outcome of a comparison on integers, of those that mean one on signed numbers.
abbrev pub compares : Operation → Option (ℤ → ℤ → Bool)
compares op_eq = some eq_ℤ
compares op_ne = some (λ x y. not (eq_ℤ x y))
compares op_slt = some ltb_ℤ
compares op_sgt = some (λ x y. ltb_ℤ y x)
compares op_sle = some leb_ℤ
compares op_sge = some (λ x y. leb_ℤ y x)
compares _ = none

abbrev pub bit : Bool → ℤ
bit b = if b then pos 1 else pos 0

held : (t : Tristate) (b : Bool) → Denotes t b → includes_bound (of_tristate t) (bit b) ≡ true
unfolding of_tristate maybe to_bool of_bool
held false_value false h = refl
held false_value true h = absurd (cc h)
held true_value false h = absurd (cc h)
held true_value true h = refl
held maybe_value false h = refl
held maybe_value true h = refl

module _ (limit : ℕ) where
  proper_full :
      (s : Interval) (x : ℤ) → IsMachine limit s → Contains limit s x → is_bottom s ≡ false
  proper_full s x m h = ground arith

  -- The answer of a comparison.
  answer :
      (t : Tristate) (g f : ℤ → ℤ → Bool) (x y : ℤ)
      → some g ≡ some f
      → Denotes t (g x y)
      → (r : Interval) × (done (of_tristate t) ≡ done r) × (includes_bound r (bit (f x y)) ≡ true)
  answer t g f x y s h = rw (← some-injective g f s) (of_tristate t, refl, held t (g x y) h)

  -- A signed comparison of two proper intervals ends, in a value that holds the outcome, 0 or 1, on any two integers
  -- of theirs.
  pub compares_sound :
      (op : Operation) (f : ℤ → ℤ → Bool) (a b : Interval) (x y : ℤ)
      → compares op ≡ some f
      → IsProper limit a
      → IsProper limit b
      → Contains limit a x
      → Contains limit b y
      → (r : Interval) × (apply limit op a b ≡ done r) × (includes_bound r (bit (f x y)) ≡ true)
  unfolding apply
  compares_sound op_join f a b x y h pa pb ha hb = absurd (cc h)
  compares_sound op_meet f a b x y h pa pb ha hb = absurd (cc h)
  compares_sound op_add f a b x y h pa pb ha hb = absurd (cc h)
  compares_sound op_sub f a b x y h pa pb ha hb = absurd (cc h)
  compares_sound op_mul f a b x y h pa pb ha hb = absurd (cc h)
  compares_sound op_sdiv f a b x y h pa pb ha hb = absurd (cc h)
  compares_sound op_udiv f a b x y h pa pb ha hb = absurd (cc h)
  compares_sound op_srem f a b x y h pa pb ha hb = absurd (cc h)
  compares_sound op_urem f a b x y h pa pb ha hb = absurd (cc h)
  compares_sound op_eq f a b x y h pa pb ha hb =
      answer (Interval.eq a b) eq_ℤ f x y h (comparisons_sound limit a b x y pa pb ha hb).0
  compares_sound op_ne f a b x y h pa pb ha hb =
      answer (Interval.ne a b) (λ u v. not (eq_ℤ u v)) f x y h
        (comparisons_sound limit a b x y pa pb ha hb).1
  compares_sound op_ugt f a b x y h pa pb ha hb = absurd (cc h)
  compares_sound op_uge f a b x y h pa pb ha hb = absurd (cc h)
  compares_sound op_ult f a b x y h pa pb ha hb = absurd (cc h)
  compares_sound op_ule f a b x y h pa pb ha hb = absurd (cc h)
  compares_sound op_sgt f a b x y h pa pb ha hb =
      answer (Interval.gt a b) (λ u v. ltb_ℤ v u) f x y h
        (comparisons_sound limit a b x y pa pb ha hb).3
  compares_sound op_sge f a b x y h pa pb ha hb =
      answer (Interval.ge a b) (λ u v. leb_ℤ v u) f x y h
        (comparisons_sound limit a b x y pa pb ha hb).5
  compares_sound op_slt f a b x y h pa pb ha hb =
      answer (Interval.lt a b) ltb_ℤ f x y h (comparisons_sound limit a b x y pa pb ha hb).2
  compares_sound op_sle f a b x y h pa pb ha hb =
      answer (Interval.le a b) leb_ℤ f x y h (comparisons_sound limit a b x y pa pb ha hb).4
  compares_sound op_and f a b x y h pa pb ha hb = absurd (cc h)
  compares_sound op_or f a b x y h pa pb ha hb = absurd (cc h)
  compares_sound op_xor f a b x y h pa pb ha hb = absurd (cc h)

  ends-IsMachine :
      (low high : Run ℤ) (s : Interval)
      → AllDone limit low (InRange limit)
      → AllDone limit high (InRange limit)
      → (low >>= λ l. high >>= λ h. done (interval l h)) ≡ done s
      → IsMachine limit s
  ends-IsMachine (done l) (done h) s a b e =
      let same : interval l h ≡ s = cc e in rw (← same) (record { low_range = a; high_range = b })
  ends-IsMachine (done l) Run.cancelled s a b e = absurd (cc e)
  ends-IsMachine (done l) Run.undefined s a b e = absurd (cc e)
  ends-IsMachine Run.cancelled high s a b e = absurd (cc e)
  ends-IsMachine Run.undefined high s a b e = absurd (cc e)

  add-IsMachine :
      (a b s : Interval)
      → IsMachine limit a
      → IsMachine limit b
      → Interval.add limit a b ≡ done s
      → IsMachine limit s
  unfolding Interval.add
  add-IsMachine a b s ma mb e =
      ends-IsMachine (Bound.add limit a.low b.low) (Bound.add limit a.high b.high) s
        (add-InRange limit a.low b.low ma.low_range mb.low_range)
        (add-InRange limit a.high b.high ma.high_range mb.high_range) e

  pub forward_add :
      (a b : Interval) (x y : ℤ)
      → IsProper limit a
      → IsProper limit b
      → Contains limit a x
      → Contains limit b y
      → (r : Interval) × (apply limit op_add a b ≡ done r) × Contains limit r (x +ℤ y)
  unfolding apply of_interval
  forward_add a b x y pa pb ha hb =
      let (s, e, c) = add_sound limit a b x y pa pb ha hb in
      let full = proper_full s (x +ℤ y) (add-IsMachine a b s pa.machine pb.machine e) c in
      (s, rw e (rw full refl), c)
