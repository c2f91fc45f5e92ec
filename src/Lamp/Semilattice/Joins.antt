-- ===== src/Lamp/Semilattice/Joins.antt =====
-- The domain that lamp/include/lamp/support/semilattice.hpp carries an operation out in.
use mathlib.Core.List.Memᴰ
use lart.Common.{
  ℕ, zero, suc, ◌+◌, ◌<◌, ◌≤◌, ◌≡◌, refl, ap, sym, subst, ◌∙◌, inl, inr, true, ◌==◌, Bool-cases,
  some, List, [], ◌∷◌, map, Memᴰ, Run, done, ◌>>=◌, arith,
}
use lart.Lamp.Semilattice.{Domains, Value, join, lift_to, tag_of, in_domain, all_known, op}

-- The join of the domains is that of a semilattice.
pub record IsJoin {D Op : Type 0} (sl : Domains D Op) : Type 0 where
  pub idem : (a : ℕ) → a < sl.size → sl.join a a ≡ a
  pub comm : (a b : ℕ) → a < sl.size → b < sl.size → sl.join a b ≡ sl.join b a
  pub assoc :
      (a b c : ℕ)
      → a < sl.size
      → b < sl.size
      → c < sl.size
      → sl.join (sl.join a b) c ≡ sl.join a (sl.join b c)
  pub closed : (a b : ℕ) → a < sl.size → b < sl.size → sl.join a b < sl.size

module _ {D Op : Type 0} (sl : Domains D Op) (lattice : IsJoin sl) where
  -- The join of a tag and those of a list of values.
  abbrev pub joined : ℕ → List (Value D) → ℕ
  joined a [] = a
  joined a (v ∷ vs) = sl.join a (joined v.tag vs)

  join-tags :
      (a : ℕ) (vs : List (Value D)) → join sl (some a) (map (tag_of sl) vs) ≡ some (joined a vs)
  unfolding join
  join-tags a [] = refl
  join-tags a (v ∷ vs) = rw (join-tags v.tag vs) refl

  known_tag :
      (v : Value D) (vs : List (Value D))
      → all_known sl (v ∷ vs) ≡ true
      → (v.tag < sl.size) × (all_known sl vs ≡ true)
  known_tag v vs h = (ground arith, ground arith)

  pub joined_known :
      (v : Value D) (vs : List (Value D)) → all_known sl (v ∷ vs) ≡ true → joined v.tag vs < sl.size
  joined_known v [] h = (known_tag v [] h).0
  joined_known v (u ∷ us) h =
      let (lt, rest) = known_tag v (u ∷ us) h in
      lattice.closed v.tag (joined u.tag us) lt (joined_known u us rest)

  above :
      (a b c : ℕ)
      → a < sl.size
      → b < sl.size
      → c < sl.size
      → sl.join a b ≡ b
      → sl.join a (sl.join c b) ≡ sl.join c b
  above a b c p q r h =
      sym (lattice.assoc a c b p r q)
      ∙ ap (λ x. sl.join x b) (lattice.comm a c p r)
      ∙ lattice.assoc c a b r p q
      ∙ ap (sl.join c) h

  -- A tag of the list is below the join.
  first_below :
      (v : Value D) (vs : List (Value D))
      → all_known sl (v ∷ vs) ≡ true
      → sl.join v.tag (joined v.tag vs) ≡ joined v.tag vs
  first_below v [] k = lattice.idem v.tag (known_tag v [] k).0
  first_below v (u ∷ us) k =
      let (lt, rest) = known_tag v (u ∷ us) k in
      sym (lattice.assoc v.tag v.tag (joined u.tag us) lt lt (joined_known u us rest))
      ∙ ap (λ b. sl.join b (joined u.tag us)) (lattice.idem v.tag lt)

  pub each_below :
      (w v : Value D) (vs : List (Value D))
      → all_known sl (v ∷ vs) ≡ true
      → Memᴰ w (v ∷ vs)
      → (w.tag < sl.size) × (sl.join w.tag (joined v.tag vs) ≡ joined v.tag vs)
  each_below w v [] k i = elim (Memᴰ.cases_cons i) [
    | inl same ↦
        subst (λ x. (x.tag < sl.size) × (sl.join x.tag v.tag ≡ v.tag)) (sym same)
          ((known_tag v [] k).0, first_below v [] k)
    | inr rest ↦ absurd (Memᴰ.not-nil rest)
  ]
  each_below w v (u ∷ us) k i = elim (Memᴰ.cases_cons i) [
    | inl same ↦
        subst
          (λ x. (x.tag < sl.size) × (sl.join x.tag (joined v.tag (u ∷ us)) ≡ joined v.tag (u ∷ us)))
          (sym same) ((known_tag v (u ∷ us) k).0, first_below v (u ∷ us) k)
    | inr rest ↦
        let (lt, others) = known_tag v (u ∷ us) k in
        let (small, below) = each_below w u us others rest in
        (small, above w.tag (joined u.tag us) v.tag small (joined_known u us others) lt below)
  ]

  abbrev pub carried_out : ℕ → Op → List (Value D) → Run (Value D)
  carried_out d o args =
      sl.operate d o (map (lift_to sl d) args) >>= λ x. done (record { tag = d; stored = x })

  in_domain_here :
      (left d : ℕ) (o : Op) (args : List (Value D))
      → join sl (some d) (map (tag_of sl) args) ≡ some d
      → in_domain sl (suc left) d (some d) o args ≡ carried_out d o args
  unfolding in_domain
  in_domain_here left d o args h =
      let same : (d == d) ≡ true = ground arith in rw (same, h, same) refl

  in_domain_finds :
      (left index d : ℕ) (o : Op) (args : List (Value D))
      → index ≤ d
      → d < index + left
      → join sl (some d) (map (tag_of sl) args) ≡ some d
      → in_domain sl left index (some d) o args ≡ carried_out d o args
  unfolding in_domain
  in_domain_finds zero index d o args le lt h = absurd (omega arith)
  in_domain_finds (suc left) index d o args le lt h = elim (Bool-cases (d == index)) [
    | inl here ↦
        subst (λ i. in_domain sl (suc left) i (some d) o args ≡ carried_out d o args) (ground arith)
          (in_domain_here left d o args h)
    | inr later ↦
        rw later (in_domain_finds left (suc index) d o args (ground arith) (omega arith) h)
  ]

  -- An operation is carried out in the domain that the tags of its operands join to, on the operands lifted to it, and the
  -- result has its tag, where the tags are those of domains and the join of the domains is that of a
  -- semilattice.
  pub op_exact :
      (o : Op) (v : Value D) (vs : List (Value D))
      → all_known sl (v ∷ vs) ≡ true
      → op sl o v vs ≡ carried_out (joined v.tag vs) o (v ∷ vs)
  unfolding op
  op_exact o v vs h =
      let found =
        in_domain_finds sl.size 0 (joined v.tag vs) o (v ∷ vs) (omega arith)
          (let known = joined_known v vs h in omega arith)
          (join-tags (joined v.tag vs) (v ∷ vs)
            ∙ ap some (lattice.idem (joined v.tag vs) (joined_known v vs h))) in
      rw (h, join-tags v.tag vs) found
