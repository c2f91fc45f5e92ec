-- ===== src/Runtime/ArrayMap/Tests.antt =====
-- The map on concrete entries.
use mathlib.Core.Option.{some-injective}
use lart.Common.{
  get_elem?-inside, ℕ, zero, suc, ◌≤◌, ◌<◌, ◌≡◌, refl, sym, subst, if-cases, ap, inl, inr, true,
  false, ◌==◌, if◌then◌else◌, Bool-cases, List, [], ◌∷◌, length, get_elem?, Option, none, some,
  done, undefined, ◌⊎◌, arith,
}
use lart.Runtime.ArrayMap.{Entry, entry, sort, emplace, subscript, at, erase, erase_at}
use lart.Runtime.ArrayMap.Reads.{Has, key, first_of}
use lart.Runtime.ArrayMap.Search.{IsSortedTo}
use lart.Runtime.ArrayMap.Keys.{IsDistinct}
use lart.Runtime.ArrayMap.Refinement.{Represents, add_new, emplace_adds}
use lart.Runtime.ArrayMap.Entries.{subscript_misses}
use lart.Runtime.ArrayMap.Erasure.{erase_disorders}

abbrev shuffled : List (Entry ℕ)
shuffled = entry 5 50 ∷ (entry 1 10 ∷ (entry 3 30 ∷ []))

abbrev three : List (Entry ℕ)
three = entry 1 10 ∷ (entry 3 30 ∷ (entry 5 50 ∷ []))

abbrev four : List (Entry ℕ)
four = entry 1 10 ∷ (entry 2 20 ∷ (entry 3 30 ∷ (entry 5 50 ∷ [])))

sort-shuffled : sort shuffled ≡ three
unfolding sort
sort-shuffled = refl

emplace_two : emplace three (entry 2 20) ≡ done (four, 3, true)
unfolding emplace
emplace_two = refl

emplace-three : emplace three (entry 3 31) ≡ undefined
unfolding emplace
emplace-three = refl

subscript_two : subscript 20 three 2 ≡ done (four, 3)
unfolding subscript
subscript_two = refl

at_two : at three 2 ≡ done none
unfolding at
at_two = refl

at_five : at three 5 ≡ done (some 50)
unfolding at
at_five = refl

erase_one : erase three 1 ≡ done (entry 5 50 ∷ (entry 3 30 ∷ []), 1)
unfolding erase
erase_one = refl

empty-Represents : Represents {V = ℕ} [] (λ k. none)
empty-Represents = record {
  map = ((λ i j ij jn. absurd (omega arith)), λ i j a b h k e. absurd (cc h));
  to_entry = λ k v h. absurd (cc h);
  of_entry = λ e (i, h). absurd (cc h);
}

module _ (e : Entry ℕ) (xs : List (Entry ℕ)) (m : ℕ → Option ℕ) (r : Represents xs m)
    (before : (x : Entry ℕ) → Has xs x → e.first < x.first) where
  below : (i : ℕ) → i < length xs → e.first < key xs i
  below i h = let (x, p) = get_elem?-inside xs i h in omega (arith, before x (i, p), ap first_of p)

  cons-IsSortedTo : IsSortedTo (length (e ∷ xs)) (e ∷ xs)
  cons-IsSortedTo i zero ij jn = absurd (omega arith)
  cons-IsSortedTo zero (suc j) ij jn = omega (arith, below j (omega arith))
  cons-IsSortedTo (suc i) (suc j) ij jn = r.map.0 i j (omega arith) (omega arith)

  cons-IsDistinct : IsDistinct (e ∷ xs)
  cons-IsDistinct zero zero a b h k same = refl
  cons-IsDistinct zero (suc j) a b h k same =
      absurd (omega (arith, before b (j, k), same, ap first_of h))
  cons-IsDistinct (suc i) zero a b h k same =
      absurd (omega (arith, before a (i, h), same, ap first_of k))
  cons-IsDistinct (suc i) (suc j) a b h k same = ap suc (r.map.1 i j a b h k same)

  cons_to_entry :
      (k v : ℕ) → (if k == e.first then some e.second else m k) ≡ some v → Has (e ∷ xs) (entry k v)
  cons_to_entry k v h = elim (Bool-cases (k == e.first)) [
    | inl c ↦
        let same : k ≡ e.first = ground arith in
        let value : e.second ≡ v = some-injective e.second v (rw c at h) in
        (zero, rw (same, sym value) refl)
    | inr c ↦ let (i, p) = r.to_entry k v (rw c at h) in (suc i, p)
  ]

  cons_of_entry :
      (x : Entry ℕ)
      → Has (e ∷ xs) x
      → (if x.first == e.first then some e.second else m x.first) ≡ some x.second
  cons_of_entry x (zero, h) =
      subst
        (λ (y : Entry ℕ). (if y.first == e.first then some e.second else m y.first) ≡ some y.second)
        (some-injective e x h)
        (if-cases (e.first == e.first) (λ c. refl) (λ c. absurd (ground arith)))
  cons_of_entry x (suc i, h) =
      let far = before x (i, h) in
      let c : (x.first == e.first) ≡ false = ground arith in rw c (r.of_entry x (i, h))

  cons-Represents : Represents (e ∷ xs) (λ k. if k == e.first then some e.second else m k)
  cons-Represents = record {
    map = (cons-IsSortedTo, cons-IsDistinct);
    to_entry = cons_to_entry;
    of_entry = cons_of_entry;
  }

abbrev three_values : ℕ → Option ℕ
three_values k =
    if k == 1 then some 10 else if k == 3 then some 30 else if k == 5 then some 50 else none

abbrev five : List (Entry ℕ)
five = entry 5 50 ∷ []

five-Represents : Represents five (λ k. if k == 5 then some 50 else none)
five-Represents =
    cons-Represents (entry 5 50) [] (λ k. none) empty-Represents (λ x (i, h). absurd (cc h))

before_five : (x : Entry ℕ) → Has five x → 3 < x.first
before_five x (zero, h) = omega (arith, ap first_of h)
before_five x (suc i, h) = absurd (cc h)

before_three : (x : Entry ℕ) → Has (entry 3 30 ∷ five) x → 1 < x.first
before_three x (zero, h) = omega (arith, ap first_of h)
before_three x (suc zero, h) = omega (arith, ap first_of h)
before_three x (suc (suc i), h) = absurd (cc h)

three-Represents : Represents three three_values
three-Represents =
    cons-Represents (entry 1 10) _ _ (cons-Represents (entry 3 30) _ _ five-Represents before_five)
      before_three

emplace_adds_example :
    ((three_values 2 ≡ none)
      × (ys : List (Entry ℕ)) × (i : ℕ) × (emplace three (entry 2 20) ≡ done (ys, i, true))
      × Represents ys (add_new (entry 2 20) three_values))
    ⊎ ((v : ℕ) × (three_values 2 ≡ some v) × (emplace three (entry 2 20) ≡ undefined))
emplace_adds_example = emplace_adds three three_values three-Represents (entry 2 20)

subscript_misses_example :
    (ys : List (Entry ℕ)) × (i : ℕ) × (x : Entry ℕ) × (subscript 20 three 2 ≡ done (ys, i))
    × Represents ys (add_new (entry 2 20) three_values)
    × (get_elem? ys i ≡ some x)
    × ((y : Entry ℕ) → Has ys y → y.first ≤ x.first)
subscript_misses_example = subscript_misses three three_values three-Represents 20 2 refl

erase_disorders_example : ¬ IsSortedTo (length (erase_at three 0)) (erase_at three 0)
erase_disorders_example = erase_disorders three 0 three-Represents.map (omega arith)
