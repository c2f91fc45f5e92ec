-- ===== src/Runtime/ArrayMap/Erasure.antt =====
-- `erase`: the entries that are left, and their order.
use mathlib.Core.Option.{some-injective}
use lart.Common.{
  get_elem?-inside, inside_of_get, ℕ, zero, suc, ◌+◌, ◌-◌, ◌≤◌, ◌<◌, ◌≡◌, ◌≢◌, refl, sym, ap, ◌∙◌,
  ◌↔◌, inl, inr, ◌==◌, Bool-cases, List, [], ◌∷◌, length, get_elem?, some, done, arith,
}
use lart.Runtime.ArrayMap.{Entry, swap, pop_back, erase_at, erase}
use lart.Runtime.ArrayMap.Reads.{first_of, Has, length-swap, swap_left, swap_other}
use lart.Runtime.ArrayMap.Search.{IsSortedTo, find_cases}
use lart.Runtime.ArrayMap.Keys.{IsDistinct, IsMap}

module _ {ℓ} {A : Type ℓ} where
  length-pop_back : (xs : List A) → length (pop_back xs) ≡ length xs - 1
  unfolding pop_back
  length-pop_back [] = refl
  length-pop_back (x ∷ []) = refl
  length-pop_back (x ∷ (y ∷ xs)) = omega (arith, length-pop_back (y ∷ xs))

  get-pop_back :
      (xs : List A) (i : ℕ) → suc i < length xs → get_elem? (pop_back xs) i ≡ get_elem? xs i
  unfolding pop_back
  get-pop_back [] i h = absurd (omega arith)
  get-pop_back (x ∷ []) i h = absurd (omega arith)
  get-pop_back (x ∷ (y ∷ xs)) zero h = refl
  get-pop_back (x ∷ (y ∷ xs)) (suc i) h = get-pop_back (y ∷ xs) i (omega arith)

module _ {ℓ} {V : Type ℓ} where
  module _ (xs : List (Entry V)) (i n : ℕ) (len : length xs ≡ suc n) (hi : i ≤ n) where
    length-erase_at : length (erase_at xs i) ≡ n
    unfolding erase_at
    length-erase_at = omega (
      arith,
      length-pop_back (swap xs i (length xs - 1)),
      length-swap xs i (length xs - 1) (omega arith) (omega arith),
    )

    erase_at_other : (j : ℕ) → j < n → j ≢ i → get_elem? (erase_at xs i) j ≡ get_elem? xs j
    unfolding erase_at
    erase_at_other j hj ne =
        get-pop_back (swap xs i (length xs - 1)) j
          (omega (arith, length-swap xs i (length xs - 1) (omega arith) (omega arith)))
        ∙ swap_other xs i (length xs - 1) (omega arith) (omega arith) j ne (omega arith)

    erase_at_self : i < n → get_elem? (erase_at xs i) i ≡ get_elem? xs n
    unfolding erase_at
    erase_at_self h =
        get-pop_back (swap xs i (length xs - 1)) i
          (omega (arith, length-swap xs i (length xs - 1) (omega arith) (omega arith)))
        ∙ swap_left xs i (length xs - 1) (omega arith) (omega arith) (omega arith)
        ∙ ap (get_elem? xs) (omega arith)

    erase_at-Has :
        IsDistinct xs
        → (k : ℕ) (e : Entry V) → get_elem? xs i ≡ some e
        → e.first ≡ k
        → (x : Entry V) → Has (erase_at xs i) x ↔ (Has xs x × (x.first ≢ k))
    erase_at-Has d k e p same x = (forth, back)
      where
        forth : Has (erase_at xs i) x → Has xs x × (x.first ≢ k)
        forth (j, h) =
            let within : j < n =
              omega (arith, inside_of_get (erase_at xs i) j x h, length-erase_at) in
            elim (Bool-cases (j == i)) [
              | inl c ↦
                  let eq : j ≡ i = ground arith in
                  let last =
                    sym (erase_at_self (omega arith))
                    ∙ ap (get_elem? (erase_at xs i)) (sym eq)
                    ∙ h in
                  ((n, last), λ f. absurd (omega (arith, d n i x e last p (f ∙ sym same))))
              | inr c ↦
                  let ne : j ≢ i = ground arith in
                  let there = sym (erase_at_other j within ne) ∙ h in
                  ((j, there), λ f. ne (d j i x e there p (f ∙ sym same)))
            ]

        first_at : (j : ℕ) → j ≡ i → get_elem? xs j ≡ some x → x.first ≡ k
        first_at j eq h =
            ap (λ (y : Entry V). y.first) (some-injective x e (sym h ∙ ap (get_elem? xs) eq ∙ p))
            ∙ same

        back : Has xs x × (x.first ≢ k) → Has (erase_at xs i) x
        back ((j, h), f) =
            let within = inside_of_get xs j x h in
            let ne : j ≢ i = λ eq. f (first_at j eq h) in
            elim (Bool-cases (j == n)) [
              | inl c ↦
                  let eq : j ≡ n = ground arith in
                  (i, erase_at_self (omega arith) ∙ ap (get_elem? xs) (sym eq) ∙ h)
              | inr c ↦ (j, erase_at_other j (ground (arith, within, len)) ne ∙ h)
            ]

  -- On a map, `erase` of a key ends: it takes the entry of the key out and no other, and tells how many it took.
  pub erase_erases :
      (xs : List (Entry V)) (k : ℕ)
      → IsMap xs
      → (ys : List (Entry V)) × (c : ℕ) × (erase xs k ≡ done (ys, c))
        × (length ys + c ≡ length xs)
        × ((x : Entry V) → Has ys x ↔ (Has xs x × (x.first ≢ k)))
  unfolding erase
  erase_erases xs k (sorted, distinct) = elim (find_cases xs k sorted) [
    | inl (q, c, out) ↦ (xs, 0, rw (q, c) refl, omega arith, λ x. (λ h. (h, out x h), λ (h, f). h))
    | inr (i, e, q, c, h, same) ↦
        let n = length xs - 1 in
        let len : length xs ≡ suc n = omega (arith, inside_of_get xs i e h) in
        let hi : i ≤ n = omega (arith, inside_of_get xs i e h) in
        (
          erase_at xs i,
          1,
          rw (q, c) refl,
          omega (arith, length-erase_at xs i n len hi),
          erase_at-Has xs i n len hi distinct k e h same,
        )
  ]

  -- As written, erasing an entry that two others follow leaves the keys out of order.
  pub erase_disorders :
      (xs : List (Entry V)) (i : ℕ)
      → IsMap xs
      → i + 2 < length xs
      → ¬ IsSortedTo (length (erase_at xs i)) (erase_at xs i)
  erase_disorders xs i (sorted, distinct) h s =
      let n = length xs - 1 in
      let len : length xs ≡ suc n = omega arith in
      let (a, p) = get_elem?-inside xs (suc i) (omega arith) in
      let (b, q) = get_elem?-inside xs n (omega arith) in
      omega (
        arith,
        s i (suc i) (omega arith) (omega (arith, length-erase_at xs i n len (omega arith))),
        sorted (suc i) n (omega arith) (omega arith),
        ap first_of (erase_at_self xs i n len (omega arith) (omega arith)),
        ap first_of (erase_at_other xs i n len (omega arith) (suc i) (omega arith) (omega arith)),
        ap first_of p,
        ap first_of q,
        λ (e : a.first ≡ b.first). distinct (suc i) n a b p q e,
      )
