-- ===== src/Lartcc/Generators/Gather.antt =====
-- Which calls lartcc/include/cc/roots.hpp registers for a module.
use mathlib.Core.List.Memᴰ
use lart.Common.{
  ℕ, suc, ◌≤◌, ◌≡◌, refl, ap, subst, ◌∙◌, ◌⊎◌, inl, inr, Option-cases, Option, none, some, List, [],
  ◌∷◌, Memᴰ,
}
use lart.Lartcc.Dataflow.{Value, Kind}
use lart.Lartcc.Generators.{
  Roots, Module, follow, case_of, get_abstract_kind, and_then, search, gather_from, gather_roots,
}
use lart.Lartcc.Generators.Reach.{kind_of, IsFound, total}
use lart.Lartcc.Generators.Search.{Registered, trace_finds}

-- What the whole search has registered for a call: the kind of a generator that it is found from, and nothing new
-- where there is none.
abbrev pub Gathered : Module → (Roots → Roots) → List Value → Roots → Roots → Value → Type 0
Gathered m otherwise fns before after c =
    ((g : Value) × (k : Kind) × Memᴰ g fns
      × (get_abstract_kind m otherwise g ≡ some k)
      × IsFound m (m.users g) c
      × (kind_of after c ≡ some k))
    ⊎ (((g : Value) (k : Kind)
          → Memᴰ g fns
          → get_abstract_kind m otherwise g ≡ some k
          → ¬ IsFound m (m.users g) c)
        × (kind_of after c ≡ kind_of before c))

module _ (m : Module) (otherwise : Roots → Roots) (passes : (r : Roots) → otherwise r ≡ r)
    (cost : Value → ℕ) (some_cost : (v : Value) → 1 ≤ cost v)
    (enough : (v : Value)
      → case_of (m.class v) ≡ follow
      → suc (total cost (m.users v)) ≤ cost v) where
  no_kind :
      (fn : Value) (fns : List Value) (before after : Roots) (c : Value)
      → get_abstract_kind m otherwise fn ≡ none
      → Gathered m otherwise fns before after c
      → Gathered m otherwise (fn ∷ fns) before after c
  no_kind fn fns before after c n (inl (g, k, i, h, r, e)) = inl (g, k, Memᴰ.tail i, h, r, e)
  no_kind fn fns before after c n (inr (h, e)) = inr (
    (λ g k i d. elim (Memᴰ.cases_cons i) [
      | inl s ↦ absurd (cc (rw s at d, n))
      | inr j ↦ h g k j d
    ]),
    e,
  )

  one_kind :
      (fn : Value) (fns : List Value) (kind : Kind) (before mid after : Roots) (c : Value)
      → get_abstract_kind m otherwise fn ≡ some kind
      → Registered m (m.users fn) kind before mid c
      → Gathered m otherwise fns mid after c
      → Gathered m otherwise (fn ∷ fns) before after c
  one_kind fn fns kind before mid after c n t (inl (g, k, i, h, r, e)) =
      inl (g, k, Memᴰ.tail i, h, r, e)
  one_kind fn fns kind before mid after c n (inl (r, e)) (inr (h, d)) =
      inl (fn, kind, Memᴰ.head refl, n, r, d ∙ e)
  one_kind fn fns kind before mid after c n (inr (r, e)) (inr (h, d)) = inr (
    (λ g k i w. elim (Memᴰ.cases_cons i) [
      | inl s ↦ λ found. r (subst (λ x. IsFound m (m.users x) c) s found)
      | inr j ↦ h g k j w
    ]),
    d ∙ e,
  )

  gather_finds :
      (fuel : ℕ) (fns : List Value) (roots : Roots)
      → ((g : Value) → Memᴰ g fns → total cost (m.users g) ≤ fuel)
      → (after : Roots) × (gather_from m otherwise fuel fns roots ≡ some after)
        × ((c : Value) → Gathered m otherwise fns roots after c)
  unfolding gather_from search
  gather_finds fuel [] roots f = (roots, refl, λ c. inr ((λ g k i. absurd (Memᴰ.not-nil i)), refl))
  gather_finds fuel (fn ∷ fns) roots f =
      let next = λ (o : Option Kind).
        and_then m otherwise (search m otherwise o fuel fn roots)
          (gather_from m otherwise fuel fns) in
      elim (Option-cases (get_abstract_kind m otherwise fn)) [
        | inl n ↦
            let (after, e, got) = gather_finds fuel fns roots (λ g i. f g (Memᴰ.tail i)) in
            (after, ap next n ∙ e, λ c. no_kind fn fns roots after c n (got c))
        | inr (kind, n) ↦
            let (mid, d, found) =
              trace_finds m otherwise passes cost some_cost enough fuel kind (m.users fn) roots
                (f fn (Memᴰ.head refl)) in
            let (after, e, got) = gather_finds fuel fns mid (λ g i. f g (Memᴰ.tail i)) in
            (
              after,
              ap next n ∙ ap (λ o. and_then m otherwise o (gather_from m otherwise fuel fns)) d ∙ e,
              λ c. one_kind fn fns kind roots mid after c n (found c) (got c),
            )
      ]

  -- Collecting the roots ends with as much fuel as the users of each generator cost, and finds just the calls that a
  -- generator reaches through casts and constant expressions, each with the kind of such a
  -- generator. A value that no case matches is passed over. Each value costs at least 1, and one
  -- that is followed more than its users together, so that the users that are followed
  -- come to an end.
  pub gather_roots_finds :
      (fuel : ℕ)
      → ((g : Value) → Memᴰ g m.functions → total cost (m.users g) ≤ fuel)
      → (roots : Roots) × (gather_roots m otherwise fuel ≡ some roots)
        × ((c : Value) → Gathered m otherwise m.functions [] roots c)
  unfolding gather_roots
  gather_roots_finds fuel f = gather_finds fuel m.functions [] f
