-- ===== src/Lava/Sign/Lattice.antt =====
-- The set operations of lava/include/lava/sign.hpp: `meet`, `join`, `complement` and `setminus`.
use lart.Common.{◌≡◌, refl, Bool, true, false, ◌&&◌, ◌||◌, not, arith}
use lart.Common.Int.{ℤ}
use lart.Lava.Sign.{Sign, eqz, nez, meet, join, complement, setminus}
use lart.Lava.Sign.Meaning.{Class, has, class, contains}
use lart.Lava.Sign.Tables.{never, table, table_lem, pointwise_at, same_lem}

abbrev minus : Bool → Bool → Bool
minus x y = x && not y

-- The one pair at which `setminus` is not the difference.
abbrev pub eqz_nez : Sign → Sign → Bool
eqz_nez eqz nez = true
eqz_nez _ _ = false

meet-table : table never (pointwise_at ◌&&◌ meet) ≡ true
unfolding meet
meet-table = refl

join-table : table never (pointwise_at ◌||◌ join) ≡ true
unfolding join
join-table = refl

setminus-table : table eqz_nez (pointwise_at minus setminus) ≡ true
unfolding setminus
setminus-table = refl

has-complement : (a : Sign) (c : Class) → has (complement a) c ≡ not (has a c)
unfolding complement
has-complement a c = ground arith

-- `meet` is the intersection, `join` the union, and `complement` the complement of the sets of
-- integers that signs stand for: the domain loses nothing in any of the three.
pub lattice_exact :
    (a b : Sign) (x : ℤ)
    → (contains (meet a b) x ≡ (contains a x && contains b x))
      × (contains (join a b) x ≡ (contains a x || contains b x))
      × (contains (complement a) x ≡ not (contains a x))
lattice_exact a b x = (
  same_lem _ _ (table_lem never (pointwise_at ◌&&◌ meet) a b (class x) meet-table refl),
  same_lem _ _ (table_lem never (pointwise_at ◌||◌ join) a b (class x) join-table refl),
  has-complement a (class x),
)

-- `setminus` is the set difference, for every pair of signs but `eqz` and `nez`.
pub setminus_exact :
    (a b : Sign) (x : ℤ)
    → eqz_nez a b ≡ false
    → contains (setminus a b) x ≡ (contains a x && not (contains b x))
setminus_exact a b x h =
    same_lem _ _ (table_lem eqz_nez (pointwise_at minus setminus) a b (class x) setminus-table h)

-- Taking the nonzero integers from the set of 0 leaves nothing, where it should leave 0.
setminus_eqz_nez : (x : ℤ) → contains (setminus eqz nez) x ≡ false
unfolding setminus
setminus_eqz_nez x = refl
