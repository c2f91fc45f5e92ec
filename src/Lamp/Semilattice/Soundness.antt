-- ===== src/Lamp/Semilattice/Soundness.antt =====
-- That operations on values of several domains are sound if those of each domain are, lamp/include/lamp/support/semilattice.hpp.
use lart.Common.{
  ℕ, ◌<◌, ◌≡◌, refl, subst, ◌∙◌, inl, inr, true, ◌==◌, Bool-cases, List, [], ◌∷◌, map, Memᴰ, done,
  bind-done, arith,
}
use lart.Lamp.Semilattice.{Domains, Value, lift_to, all_known, op}
use lart.Lamp.Semilattice.Joins.{IsJoin, joined, joined_known, each_below, op_exact}

module _ {D Op A : Type 0} (sl : Domains D Op) (lattice : IsJoin sl) (means : ℕ → D → A → Type 0)
    (f : Op → List A → A) where
  -- The values of a domain stand for concrete ones.
  abbrev pub AllMean : ℕ → List D → List A → Type 0
  AllMean d [] [] = Unit
  AllMean d (x ∷ xs) (a ∷ cs) = means d x a × AllMean d xs cs
  AllMean d _ _ = ⊥

  abbrev pub EachMeans : List (Value D) → List A → Type 0
  EachMeans [] [] = Unit
  EachMeans (v ∷ vs) (a ∷ cs) = means v.tag v.stored a × EachMeans vs cs
  EachMeans _ _ = ⊥

  -- Each domain's operations are sound, and a lift to a domain above keeps the meaning.
  pub record AreSound : Type 0 where
    pub lifts :
        (t d : ℕ) (x : D) (a : A)
        → t < sl.size
        → d < sl.size
        → sl.join t d ≡ d
        → means t x a
        → means d (sl.lift t d x) a
    pub operates :
        (d : ℕ) (o : Op) (xs : List D) (cs : List A) (r : D)
        → AllMean d xs cs
        → sl.operate d o xs ≡ done r
        → means d r (f o cs)

  lift_to-means :
      (d : ℕ) (v : Value D) (a : A)
      → AreSound
      → d < sl.size
      → (v.tag < sl.size) × (sl.join v.tag d ≡ d)
      → means v.tag v.stored a
      → means d (lift_to sl d v) a
  unfolding lift_to
  lift_to-means d v a s small below h = elim (Bool-cases (v.tag == d)) [
    | inl same ↦ rw same (subst (λ t. means t v.stored a) (ground arith) h)
    | inr other ↦ rw other (s.lifts v.tag d v.stored a below.0 small below.1 h)
  ]

  lifted :
      (d : ℕ) (vs : List (Value D)) (cs : List A)
      → AreSound
      → d < sl.size
      → ((v : Value D) → Memᴰ v vs → (v.tag < sl.size) × (sl.join v.tag d ≡ d))
      → EachMeans vs cs
      → AllMean d (map (lift_to sl d) vs) cs
  lifted d [] [] s small below h = tt
  lifted d [] (a ∷ cs) s small below h = absurd h
  lifted d (v ∷ vs) [] s small below h = absurd h
  lifted d (v ∷ vs) (a ∷ cs) s small below h = (
    lift_to-means d v a s small (below v (Memᴰ.head refl)) h.0,
    lifted d vs cs s small (λ w i. below w (Memᴰ.tail i)) h.1,
  )

  -- An operation on values of several domains is carried out in the domain that their tags join to, whenever that domain
  -- yields a result on the operands lifted to it, and the result stands for that of the concrete operation.
  -- It is relied on that each domain's operations are sound, that the lift from a domain to one above it
  -- keeps what a value stands for, that the join of the domains is that of a semilattice, and that the
  -- operands have tags of domains and stand for concrete values.
  pub op_sound :
      (o : Op) (v : Value D) (vs : List (Value D)) (cs : List A) (x : D)
      → AreSound
      → all_known sl (v ∷ vs) ≡ true
      → EachMeans (v ∷ vs) cs
      → sl.operate
          (joined sl lattice v.tag vs)
          o
          (map (lift_to sl (joined sl lattice v.tag vs)) (v ∷ vs))
        ≡ done x
      → (op sl o v vs ≡ done (record { tag = joined sl lattice v.tag vs; stored = x }))
        × means (joined sl lattice v.tag vs) x (f o cs)
  op_sound o v vs cs x s known h e =
      let d : ℕ = joined sl lattice v.tag vs in
      let all =
        lifted d (v ∷ vs) cs s (joined_known sl lattice v vs known)
          (λ w i. each_below sl lattice w v vs known i) h in
      (
        op_exact sl lattice o v vs known ∙ bind-done (λ y. done (record { tag = d; stored = y })) e,
        s.operates d o (map (lift_to sl d) (v ∷ vs)) cs x all e,
      )
