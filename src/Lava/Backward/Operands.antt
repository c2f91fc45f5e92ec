-- ===== src/Lava/Backward/Operands.antt =====
-- lava/include/lava/interval.hpp: how the operands of a sum, a difference, a product and a disequation are narrowed to the
-- result, and which operation a comparison selects. The answers of `__lart_choose` are the first arguments; a
-- correction that makes no choice ignores its answer.
use lart.Common.{ℕ, Bool, true, false, not, ◌&&◌, ◌||◌, if◌then◌else◌, Run, done, cancelled, ◌>>=◌}
use lart.Common.Int.{ℤ, pos, ltb_ℤ, leb_ℤ, eq_ℤ}
use lart.Lava.Tristate.{to_bool, lift}
use lart.Lava.Bound
use lart.Lava.Interval.{
  Interval, is_bottom, constant, includes, greatest, meet, meet_low, meet_high, eq, add, sub, mul,
  div, of_tristate,
}
use lart.Lava.Backward.{intersect, exclude, choose_bound, bgt, beq_impl}

abbrev pub Operands : Type 0
Operands = Run (Interval × Interval)

-- `0 < diff && diff <= choose_bound`.
abbrev pub to_correct : ℤ → Bool
to_correct diff = ltb_ℤ (pos 0) diff && leb_ℤ diff choose_bound

abbrev pub swapped : Interval × Interval → Interval × Interval
swapped (a, b) = (b, a)

module _ (limit : ℕ) where
  -- The lower bound correction of `badd_`.
  unfoldable pub badd_low : ℕ → ℤ → Interval → Interval → Operands
  unfolding meet_low
  badd_low i diff a b =
      if to_correct diff
      then (do
        al ← Bound.add limit a.low (pos i)
        bd ← Bound.add limit b.low diff
        bl ← Bound.sub limit bd (pos i)
        done (meet_low a al, meet_low b bl))
      else done (a, b)

  -- The upper bound correction of `badd_`.
  unfoldable pub badd_high : ℕ → ℤ → Interval → Interval → Operands
  unfolding meet_high
  badd_high i diff a b =
      if to_correct diff
      then (do
        ah ← Bound.sub limit a.high (pos i)
        bd ← Bound.sub limit b.high diff
        bh ← Bound.add limit bd (pos i)
        done (meet_high a ah, meet_high b bh))
      else done (a, b)

  unfoldable pub badd : (i j : ℕ) → Interval → Interval → Interval → Operands
  unfolding add eq to_bool badd_low badd_high
  badd i j r a b = do
    r_new ← add limit a b
    if to_bool (eq r_new r) then done (a, b) else (do
      diff_low ← Bound.sub limit r.low r_new.low
      diff_high ← Bound.sub limit r_new.high r.high
      (a', b') ← badd_low i diff_low a b
      badd_high j diff_high a' b')

  unfoldable pub bsub_low : ℕ → ℤ → Interval → Interval → Operands
  unfolding meet_low meet_high
  bsub_low i diff a b =
      if to_correct diff
      then (do
        al ← Bound.add limit a.low (pos i)
        bd ← Bound.sub limit b.high diff
        bh ← Bound.add limit bd (pos i)
        done (meet_low a al, meet_high b bh))
      else done (a, b)

  unfoldable pub bsub_high : ℕ → ℤ → Interval → Interval → Operands
  unfolding meet_low meet_high
  bsub_high i diff a b =
      if to_correct diff
      then (do
        ah ← Bound.sub limit a.high (pos i)
        bd ← Bound.add limit b.low diff
        bl ← Bound.sub limit bd (pos i)
        done (meet_high a ah, meet_low b bl))
      else done (a, b)

  unfoldable pub bsub : (i j : ℕ) → Interval → Interval → Interval → Operands
  unfolding sub eq to_bool bsub_low bsub_high
  bsub i j r a b = do
    r_new ← sub limit a b
    if to_bool (eq r_new r) then done (a, b) else (do
      diff_low ← Bound.sub limit r.low r_new.low
      diff_high ← Bound.sub limit r_new.high r.high
      (a', b') ← bsub_low i diff_low a b
      bsub_high j diff_high a' b')

  -- Division that is rounded up, for positive operands.
  unfoldable pub div_up : ℤ → ℤ → Run ℤ
  div_up a b = do
    q ← Bound.div limit a b
    m ← Bound.rem limit a b
    Bound.add limit q (if eq_ℤ m (pos 0) then pos 0 else pos 1)

  abbrev pub unless_bottom : Interval → Interval → Operands
  unless_bottom a b = if is_bottom a || is_bottom b then cancelled else done (a, b)

  unfoldable pub bmul_low : ℕ → ℤ → Interval → Interval → Interval → Operands
  unfolding div_up meet_low
  bmul_low i diff r a b =
      if to_correct diff
      then (do
        new_high ← div_up r.low b.low
        new_low ← div_up r.low b.high
        value ← Bound.sub limit new_high (pos i)
        quotient ← div_up r.low value
        unless_bottom (meet_low (meet_low a new_low) value) (meet_low b quotient))
      else done (a, b)

  unfoldable pub bmul_high : ℕ → ℤ → Interval → Interval → Interval → Operands
  unfolding meet_high
  bmul_high i diff r a b =
      if to_correct diff
      then (do
        q ← Bound.div limit r.high b.high
        value ← Bound.add limit (greatest q a.low) (pos i)
        quotient ← Bound.div limit r.high value
        unless_bottom (meet_high a value) (meet_high b quotient))
      else done (a, b)

  unfoldable pub bmul : (i j : ℕ) → Interval → Interval → Interval → Operands
  unfolding mul includes bmul_low bmul_high
  bmul i j r a b =
      let r_new = mul limit a b in
      if includes r r_new then done (a, b) else (do
        diff_low ← Bound.sub limit r.low r_new.low
        diff_high ← Bound.sub limit r_new.high r.high
        (a', b') ← bmul_low i diff_low r a b
        bmul_high j diff_high r a' b')

  unfoldable pub bop_add : (i j : ℕ) → Interval → Interval → Interval → Operands
  unfolding sub intersect badd
  bop_add i j r a b = do
    x ← sub limit r b
    a' ← intersect a x
    y ← sub limit r a'
    b' ← intersect b y
    badd i j r a' b'

  unfoldable pub bop_sub : (i j : ℕ) → Interval → Interval → Interval → Operands
  unfolding add sub intersect bsub
  bop_sub i j r a b = do
    x ← add limit r b
    a' ← intersect a x
    y ← sub limit a' r
    b' ← intersect b y
    bsub i j r a' b'

  -- `is_infinite` of the domain, which asks each bound for its own infinity.
  abbrev pub has_infinity : Interval → Bool
  has_infinity i = eq_ℤ i.low (Bound.min limit) || eq_ℤ i.high (Bound.max limit)

  -- As written, the `return` for infinite operands takes the next line with it.
  unfoldable pub bop_mul : (i j : ℕ) → Interval → Interval → Interval → Operands
  unfolding div intersect bmul
  bop_mul i j r a b =
      if has_infinity a || has_infinity b
      then (do x ← div limit r b; a' ← intersect a x; done (a', b))
      else (do y ← div limit r a; b' ← intersect b y; bmul i j r a b')

  -- Also `bop_udiv`.
  unfoldable pub bop_sdiv : Interval → Interval → Interval → Operands
  unfolding mul div intersect
  bop_sdiv r a b = do
    a' ← intersect a (mul limit b r)
    if not (has_infinity a') && not (has_infinity r)
        then (do y ← div limit a' r; b' ← intersect b y; done (a', b'))
        else done (a', b)

  unfoldable pub bop_join : Interval → Interval → Interval → Operands
  unfolding intersect
  bop_join r a b = do a' ← intersect a r; b' ← intersect b r; done (a', b')

  abbrev pub at_end : Interval → Interval → Bool
  at_end a b = constant a && (eq_ℤ a.low b.low || eq_ℤ a.low b.high)

  -- The answers are for `__lart_choose( 2 )` and for `bgt_`.
  unfoldable pub bne_impl : Bool → ℕ → Interval → Interval → Operands
  unfolding meet exclude bgt
  bne_impl first choice a b =
      if is_bottom (meet a b)
      then done (a, b)
      else if at_end a b
      then (do b' ← exclude b a.low; done (a, b'))
      else if at_end b a
      then (do a' ← exclude a b.low; done (a', b))
      else if first
      then bgt limit choice true a b
      else (do p ← bgt limit choice true b a; done (swapped p))

  -- `r.get() == tristate( v )`.
  unfoldable pub says : Interval → Bool → Bool
  unfolding eq of_tristate lift to_bool
  says r v = to_bool (eq r (of_tristate (lift v)))

  unfoldable pub beq : Bool → ℕ → Bool → Interval → Interval → Interval → Operands
  unfolding says beq_impl bne_impl
  beq first choice negated r a b = do
    (a', b') ← if says r (not negated) then beq_impl limit choice a b else done (a, b)
    if says r negated then bne_impl first choice a' b' else done (a', b')

  -- `bop_sgt` is `bgt( r, a, b )`, `bop_slt` `bgt( r, b, a )`, `bop_sge` and `bop_sle` are their negations;
  -- the unsigned ones are the same.
  unfoldable pub bgt_result : ℕ → Bool → Interval → Interval → Interval → Operands
  unfolding says bgt
  bgt_result choice negated r a b = do
    (a', b') ← if says r (not negated) then bgt limit choice true a b else done (a, b)
    if says r negated
        then (do p ← bgt limit choice false b' a'; done (swapped p))
        else done (a', b')

  -- `bop_eq` and `bop_ne`, by `negated`.
  unfoldable pub bop_eq : Bool → ℕ → Interval → Interval → Interval → Operands
  unfolding beq
  bop_eq first choice r a b = beq first choice false r a b

  unfoldable pub bop_ne : Bool → ℕ → Interval → Interval → Interval → Operands
  unfolding beq
  bop_ne first choice r a b = beq first choice true r a b

  -- These four and the unsigned ones, which are the same.
  unfoldable pub bop_sgt : ℕ → Interval → Interval → Interval → Operands
  unfolding bgt_result
  bop_sgt choice r a b = bgt_result choice false r a b

  unfoldable pub bop_slt : ℕ → Interval → Interval → Interval → Operands
  unfolding bgt_result
  bop_slt choice r a b = do p ← bgt_result choice false r b a; done (swapped p)

  unfoldable pub bop_sge : ℕ → Interval → Interval → Interval → Operands
  unfolding bgt_result
  bop_sge choice r a b = do p ← bgt_result choice true r b a; done (swapped p)

  unfoldable pub bop_sle : ℕ → Interval → Interval → Interval → Operands
  unfolding bgt_result
  bop_sle choice r a b = bgt_result choice true r a b
