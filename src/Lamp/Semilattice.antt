-- ===== src/Lamp/Semilattice.antt =====
-- lamp/include/lamp/support/semilattice.hpp: a value of one of several domains with the tag of its domain, and how an
-- operation is carried out in the domain that the tags of its operands join to.
use lart.Common.{
  ℕ, zero, suc, Bool, true, false, ◌==◌, ◌&&◌, ltb, if◌then◌else◌, Option, none, some, List, [],
  ◌∷◌, map, Run, done, undefined, ◌>>=◌,
}
pub mod Joins
pub mod Soundness
mod Tests

-- What `sl` gives of the domains: how many there are, the join of two, and how a value is lifted; `operate` is an
-- operation in a domain. A value in store is a pointer whose type only the tag tells.
pub record Domains (D Op : Type 0) : Type 0 where
  pub size : ℕ
  pub join : ℕ → ℕ → ℕ
  pub lift : (from to : ℕ) → D → D
  pub operate : ℕ → Op → List D → Run D

-- `semilattice`.
pub record Value (D : Type 0) : Type 0 where
  pub tag : ℕ
  pub stored : D

-- A number that is below 0 for what is no domain is `none`.
abbrev pub Index : Type 0
Index = Option ℕ

module _ {D Op : Type 0} (sl : Domains D Op) where
  -- `join`.
  unfoldable pub join : Index → List Index → Index
  join a [] = a
  join none (b ∷ bs) = join b bs
  join (some a) (none ∷ bs) = join (some a) bs
  join (some a) (some b ∷ bs) = elim (join (some b) bs) [
    | none ↦ none
    | some c ↦ some (sl.join a c)
  ]

  abbrev pub same_index : Index → ℕ → Bool
  same_index none d = false
  same_index (some a) d = a == d

  -- `lift_to`.
  unfoldable pub lift_to : ℕ → Value D → D
  lift_to to v = if v.tag == to then v.stored else sl.lift v.tag to v.stored

  abbrev pub tag_of : Value D → Index
  tag_of v = some v.tag

  -- `in_domain`, with the number of domains from `index` on.
  unfoldable pub in_domain : (left index : ℕ) → Index → Op → List (Value D) → Run (Value D)
  unfolding join lift_to
  in_domain zero index dom o args = undefined
  in_domain (suc left) index dom o args =
      let rest = in_domain left (suc index) dom o args in
      if same_index dom index && same_index (join (some index) (map tag_of args)) index
      then (sl.operate index o (map (lift_to index) args)
          >>= (λ x. done (record { tag = index; stored = x })))
      else rest

  -- `cast`: the tag of each operand must be that of a domain.
  abbrev pub all_known : List (Value D) → Bool
  all_known [] = true
  all_known (v ∷ vs) = ltb v.tag sl.size && all_known vs

  -- `op`, for an operation with at least one operand.
  unfoldable pub op : Op → Value D → List (Value D) → Run (Value D)
  unfolding join in_domain
  op o a args =
      let dom = join (tag_of a) (map tag_of args) in
      if all_known (a ∷ args) then in_domain sl.size 0 dom o (a ∷ args) else undefined

-- `join` of `trivial` in lamp/trivial.cpp, whose domains are `unit` and `constant` in this order.
unfoldable pub trivial_join : ℕ → ℕ → ℕ
trivial_join a b = if a == 1 then b else if b == 1 then a else 0
