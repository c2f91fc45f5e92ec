-- ===== src/Lava/Interval.antt =====
-- lava/include/lava/support/interval.hpp, `sup::interval`: pairs of bounds. `limit` is the largest
-- value of the bounds' underlying type, as in Lava/Bound.antt.
use lart.Common.{ℕ, Bool, true, false, ◌&&◌, ◌||◌, not, if◌then◌else◌, Run, done, cancelled, ◌>>=◌}
use lart.Common.Int.{ℤ, pos, negsuc, ltb_ℤ, leb_ℤ, eq_ℤ}
use lart.Lava.Tristate.{Tristate, false_value, true_value, maybe_value, maybe, to_bool, not_t, lift}
use lart.Lava.Bound
pub mod Meaning
pub mod Lattice
pub mod Compare
pub mod Sums
pub mod Multiplication
pub mod Products
mod Tests

pub record Interval : Type 0 where
  pub low : ℤ
  pub high : ℤ

abbrev pub interval : ℤ → ℤ → Interval
interval l h = record { low = l; high = h }

-- `std::min` and `std::max` on bounds.
abbrev pub least : ℤ → ℤ → ℤ
least a b = if ltb_ℤ b a then b else a

abbrev pub greatest : ℤ → ℤ → ℤ
greatest a b = if ltb_ℤ a b then b else a

-- `std::minmax` of four bounds.
abbrev pub minmax : ℤ → ℤ → ℤ → ℤ → Interval
minmax a b c d = interval (least (least (least a b) c) d) (greatest (greatest (greatest a b) c) d)

unfoldable pub of_bool : Bool → Interval
of_bool b = let v = if b then pos 1 else pos 0 in interval v v

unfoldable pub of_tristate : Tristate → Interval
unfolding maybe to_bool of_bool
of_tristate t = if maybe t then interval (pos 0) (pos 1) else of_bool (to_bool t)

abbrev pub bottom : Interval
bottom = interval (pos 0) (negsuc 0)

-- Also `empty`.
abbrev pub is_bottom : Interval → Bool
is_bottom i = ltb_ℤ i.high i.low

abbrev pub constant : Interval → Bool
constant i = eq_ℤ i.low i.high

abbrev pub includes_bound : Interval → ℤ → Bool
includes_bound i b = leb_ℤ i.low b && leb_ℤ b i.high

unfoldable pub includes : Interval → Interval → Bool
includes i j = leb_ℤ i.low j.low && leb_ℤ j.high i.high

unfoldable pub intersects : Interval → Interval → Bool
intersects i j =
    if ltb_ℤ j.low i.low && ltb_ℤ j.high i.low
    then false
    else if ltb_ℤ i.low j.low && ltb_ℤ i.high j.low
    then false
    else true

unfoldable pub excludes_bound : Interval → ℤ → Bool
excludes_bound i b = ltb_ℤ b i.low || ltb_ℤ i.high b

unfoldable pub excludes : Interval → Interval → Bool
excludes i j = ltb_ℤ j.high i.low || ltb_ℤ i.high j.low

unfoldable pub to_tristate : Interval → Tristate
to_tristate i =
    if eq_ℤ i.low (pos 0) && eq_ℤ i.high (pos 0)
    then false_value
    else if includes_bound i (pos 0)
    then maybe_value
    else true_value

unfoldable pub meet : Interval → Interval → Interval
meet l r =
    if is_bottom l
    then l
    else if is_bottom r
    then r
    else interval (greatest l.low r.low) (least l.high r.high)

unfoldable pub join : Interval → Interval → Interval
join l r =
    if is_bottom l
    then r
    else if is_bottom r
    then l
    else interval (least l.low r.low) (greatest l.high r.high)

unfoldable pub meet_low : Interval → ℤ → Interval
meet_low i b = record i { low = greatest i.low b }

unfoldable pub meet_high : Interval → ℤ → Interval
meet_high i b = record i { high = least i.high b }

unfoldable pub join_low : Interval → ℤ → Interval
join_low i b = record i { low = least i.low b }

-- As written, `join_high` assigns to `low`.
unfoldable pub join_high : Interval → ℤ → Interval
join_high i b = record i { low = greatest i.low b }

unfoldable pub eq : Interval → Interval → Tristate
unfolding intersects
eq l r =
    if eq_ℤ l.low l.high && (eq_ℤ r.low r.high && eq_ℤ r.low l.low)
    then true_value
    else if intersects l r
    then maybe_value
    else false_value

unfoldable pub ne : Interval → Interval → Tristate
unfolding eq not_t
ne l r = not_t (eq l r)

unfoldable pub lt : Interval → Interval → Tristate
unfolding lift
lt l r =
    if constant l && constant r
    then lift (ltb_ℤ l.low r.low)
    else if ltb_ℤ l.high r.low
    then true_value
    else if ltb_ℤ r.high l.low
    then false_value
    else maybe_value

unfoldable pub gt : Interval → Interval → Tristate
unfolding lift
gt l r =
    if constant l && constant r
    then lift (ltb_ℤ r.low l.low)
    else if ltb_ℤ r.high l.low
    then true_value
    else if ltb_ℤ l.high r.low
    then false_value
    else maybe_value

unfoldable pub le : Interval → Interval → Tristate
unfolding gt not_t
le l r = not_t (gt l r)

unfoldable pub ge : Interval → Interval → Tristate
unfolding lt not_t
ge l r = not_t (lt l r)

module _ (limit : ℕ) where
  unfoldable pub top : Interval
  top = interval (Bound.min limit) (Bound.max limit)

  unfoldable pub is_top : Interval → Bool
  is_top i = eq_ℤ i.low (Bound.min limit) && eq_ℤ i.high (Bound.max limit)

  unfoldable pub is_infinite : Interval → Bool
  is_infinite i = Bound.is_infinite limit i.low || Bound.is_infinite limit i.high

  unfoldable pub exclude : Interval → ℤ → Run Interval
  exclude i b =
      if eq_ℤ i.low b
      then (Bound.add limit i.low (pos 1) >>= λ l. done (interval l i.high))
      else if eq_ℤ i.high b
      then (Bound.sub limit i.high (pos 1) >>= λ h. done (interval i.low h))
      else done i

  unfoldable pub add : Interval → Interval → Run Interval
  add l r = do
    low ← Bound.add limit l.low r.low
    high ← Bound.add limit l.high r.high
    done (interval low high)

  unfoldable pub sub : Interval → Interval → Run Interval
  sub l r = do
    low ← Bound.sub limit l.low r.high
    high ← Bound.sub limit l.high r.low
    done (interval low high)

  unfoldable pub mul : Interval → Interval → Interval
  mul l r =
      minmax (Bound.mul limit l.low r.low) (Bound.mul limit l.low r.high)
        (Bound.mul limit l.high r.low) (Bound.mul limit l.high r.high)

  -- With 0 in the divisor `__lart_cancel` ends the process, and what follows it is never reached.
  unfoldable pub div : Interval → Interval → Run Interval
  div l r = if includes_bound r (pos 0) then cancelled else (do
    a ← Bound.div limit l.low r.low
    b ← Bound.div limit l.low r.high
    c ← Bound.div limit l.high r.low
    d ← Bound.div limit l.high r.high
    done (minmax a b c d))

  unfoldable pub rem : Interval → Interval → Run Interval
  rem l r = if includes_bound r (pos 0) then cancelled else (do
    a ← Bound.rem limit l.low r.low
    b ← Bound.rem limit l.low r.high
    c ← Bound.rem limit l.high r.low
    d ← Bound.rem limit l.high r.high
    done (minmax a b c d))
