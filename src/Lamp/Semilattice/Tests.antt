-- ===== src/Lamp/Semilattice/Tests.antt =====
-- The domains of lamp/trivial.cpp with addition: 0 is the unit, and 1 holds a constant.
use lart.Common.{ℕ, zero, suc, ◌+◌, ◌<◌, ◌≡◌, refl, List, [], ◌∷◌, map, Run, done, arith, subst, ap}
use lart.Lamp.Semilattice.{Domains, Value, lift_to, op, trivial_join}
use lart.Lamp.Semilattice.Joins.{IsJoin, joined}
use lart.Lamp.Semilattice.Soundness.{AllMean, AreSound, op_sound}

abbrev sum : List ℕ → ℕ
sum [] = 0
sum (x ∷ xs) = x + sum xs

abbrev two : Domains ℕ Unit
two = record {
  size = 2;
  join = trivial_join;
  lift = λ from to x. x;
  operate = λ d o xs. done (sum xs);
}

trivial_idem : (a : ℕ) → a < 2 → trivial_join a a ≡ a
unfolding trivial_join
trivial_idem zero p = refl
trivial_idem (suc zero) p = refl
trivial_idem (suc (suc a)) p = absurd (omega arith)

trivial_comm : (a b : ℕ) → trivial_join a b ≡ trivial_join b a
unfolding trivial_join
trivial_comm a b = ground arith

trivial_assoc :
    (a b c : ℕ)
    → a < 2
    → b < 2
    → c < 2
    → trivial_join (trivial_join a b) c ≡ trivial_join a (trivial_join b c)
unfolding trivial_join
trivial_assoc a b c p q r = ground arith

trivial_closed : (a b : ℕ) → a < 2 → b < 2 → trivial_join a b < 2
unfolding trivial_join
trivial_closed a b p q = ground arith

two-IsJoin : IsJoin two
two-IsJoin = record {
  idem = trivial_idem;
  comm = λ a b p q. trivial_comm a b;
  assoc = trivial_assoc;
  closed = trivial_closed;
}

-- A unit stands for any number, a constant for itself.
abbrev Means : ℕ → ℕ → ℕ → Type 0
Means zero x a = Unit
Means (suc d) x a = a ≡ x

lifts_up : (t d x a : ℕ) → d < 2 → trivial_join t d ≡ d → Means t x a → Means d x a
unfolding trivial_join
lifts_up t zero x a q e h = tt
lifts_up zero (suc zero) x a q e h = absurd (omega (arith, e))
lifts_up zero (suc (suc d)) x a q e h = absurd (omega arith)
lifts_up (suc t) (suc d) x a q e h = h

sums :
    (d : ℕ) (xs cs : List ℕ)
    → AllMean two two-IsJoin Means (λ o. sum) d xs cs
    → Means d (sum xs) (sum cs)
sums zero xs cs h = tt
sums (suc d) [] [] h = refl
sums (suc d) (x ∷ xs) (a ∷ cs) h = let rest = sums (suc d) xs cs h.1 in omega (arith, h.0)
sums (suc d) [] (a ∷ cs) h = absurd h
sums (suc d) (x ∷ xs) [] h = absurd h

abbrev of_run : Run ℕ → ℕ
of_run (done x) = x
of_run _ = 0

done_is : (x r : ℕ) → done x ≡ done r → x ≡ r
done_is x r e = ap of_run e

two-AreSound : AreSound two two-IsJoin Means (λ o. sum)
two-AreSound = record {
  lifts = λ t d x a p q. lifts_up t d x a q;
  operates =
      λ d o xs cs r h e. subst (λ x. Means d x (sum cs)) (done_is (sum xs) r e) (sums d xs cs h);
}

abbrev five : Value ℕ
five = record { tag = 1; stored = 5 }

abbrev six : Value ℕ
six = record { tag = 1; stored = 6 }

abbrev unknown : Value ℕ
unknown = record { tag = 0; stored = 0 }

constants_join : joined two two-IsJoin 1 (six ∷ []) ≡ 1
unfolding trivial_join
constants_join = refl

-- With a unit, the sum is a unit.
units_join : joined two two-IsJoin 1 (unknown ∷ []) ≡ 0
unfolding trivial_join
units_join = refl

added :
    two.operate
      (joined two two-IsJoin 1 (six ∷ []))
      tt
      (map (lift_to two (joined two two-IsJoin 1 (six ∷ []))) (five ∷ six ∷ []))
    ≡ done 11
unfolding lift_to trivial_join
added = refl

op_sound_example :
    (op two tt five (six ∷ [])
      ≡ done (record { tag = joined two two-IsJoin 1 (six ∷ []); stored = 11 }))
    × Means (joined two two-IsJoin 1 (six ∷ [])) 11 11
op_sound_example =
    op_sound two two-IsJoin Means (λ o. sum) tt five (six ∷ []) (5 ∷ 6 ∷ []) 11 two-AreSound refl
      (refl, (refl, tt)) added
