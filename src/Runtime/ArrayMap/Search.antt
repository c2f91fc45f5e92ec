-- ===== src/Runtime/ArrayMap/Search.antt =====
-- Binary search and `find`.
use lart.Common.{
  get_elem?-inside, inside_of_get, ℕ, zero, suc, ◌+◌, ◌-◌, ◌/◌, ◌≤◌, ◌<◌, ◌≡◌, refl, ap, ◌∙◌, subst,
  bind-done, ltb, ◌==◌, Bool, true, false, Bool-cases, inl, inr, ◌⊎◌, ◌≢◌, if◌then◌else◌, some,
  List, length, get_elem?, Run, done, arith,
}
use lart.Runtime.ArrayMap.{Entry, eq, lower_bound, hit, find}
use lart.Runtime.ArrayMap.Reads.{key, first_of, Has}

module _ {ℓ} {V : Type ℓ} where
  -- The keys of the first `n` entries do not decrease.
  abbrev pub IsSortedTo : ℕ → List (Entry V) → Type 0
  IsSortedTo n xs = (i j : ℕ) → i < j → j < n → key xs i ≤ key xs j

  -- `r` splits the range into the keys below `k` and the others.
  abbrev pub Splits : List (Entry V) → (first last : ℕ) → ℕ → ℕ → Type 0
  Splits xs first last k r =
      (first ≤ r)
      × (r ≤ last)
      × ((i : ℕ) → first ≤ i → i < r → key xs i < k)
      × ((i : ℕ) → r ≤ i → i < last → k ≤ key xs i)

  module _ (fuel : ℕ) (xs : List (Entry V)) (first last k : ℕ) (x : Entry V)
      (e : first == last ≡ false) (p : get_elem? xs (first + (last - first) / 2) ≡ some x) where
    -- The rest of the search, by the test at the pivot.
    half : Bool → Run ℕ
    half true = lower_bound fuel xs (first + (last - first) / 2 + 1) last k
    half false = lower_bound fuel xs first (first + (last - first) / 2) k

    right_half :
        ltb x.first k ≡ true
        → lower_bound (suc fuel) xs first last k
          ≡ lower_bound fuel xs (first + (last - first) / 2 + 1) last k
    unfolding lower_bound half
    right_half c = rw (e, p) (ap half c)

    left_half :
        ltb x.first k ≡ false
        → lower_bound (suc fuel) xs first last k
          ≡ lower_bound fuel xs first (first + (last - first) / 2) k
    unfolding lower_bound half
    left_half c = rw (e, p) (ap half c)

  module _ (xs : List (Entry V)) (k n : ℕ) (sorted : IsSortedTo n xs) (inside : n ≤ length xs) where
    empty-Splits : (first last : ℕ) → first ≤ last → last ≤ first → Splits xs first last k first
    empty-Splits first last h e =
        (omega arith, omega arith, λ i p q. absurd (omega arith), λ i p q. absurd (omega arith))

    module _ (first last p : ℕ) (h : first ≤ p) (l : p < last) (within : last ≤ n) where
      go_right : (r : ℕ) → key xs p < k → Splits xs (p + 1) last k r → Splits xs first last k r
      go_right r c s = (omega arith, omega arith, λ i a b. grind (arith, sorted i p, s.2 i), s.3)

      go_left : (r : ℕ) → k ≤ key xs p → Splits xs first p k r → Splits xs first last k r
      go_left r c s = (omega arith, omega arith, s.2, λ i a b. grind (arith, sorted p i, s.3 i))

    -- A search with as much fuel as the range is long ends, at a place that splits the range.
    pub lower_bound-Splits :
        (fuel first last : ℕ)
        → first ≤ last
        → last ≤ n
        → last - first ≤ fuel
        → (r : ℕ) × (lower_bound fuel xs first last k ≡ done r) × Splits xs first last k r
    unfolding lower_bound
    lower_bound-Splits zero first last h l f =
        (first, ground arith, empty-Splits first last h (omega arith))
    lower_bound-Splits (suc fuel) first last h l f = elim (Bool-cases (first == last)) [
      | inl e ↦ rw e (first, refl, empty-Splits first last h (ground arith))
      | inr e ↦
          let pivot = first + (last - first) / 2 in
          let (x, p) = get_elem?-inside xs pivot (ground arith) in
          elim (Bool-cases (ltb x.first k)) [
            | inl c ↦
                let (r, q, s) =
                  lower_bound-Splits fuel (pivot + 1) last (ground arith) l (ground arith) in
                (
                  r,
                  right_half fuel xs first last k x e p c ∙ q,
                  go_right first last pivot (omega arith) (ground arith) l r (rw p (ground arith))
                      s,
                )
            | inr c ↦
                let (r, q, s) =
                  lower_bound-Splits fuel first pivot (omega arith) (ground arith) (ground arith) in
                (
                  r,
                  left_half fuel xs first last k x e p c ∙ q,
                  go_left first last pivot (omega arith) (ground arith) l r (rw p (ground arith)) s,
                )
          ]
    ]

  -- `i` is the place of the key, or the end where no entry has it.
  abbrev pub IsPlace : List (Entry V) → ℕ → ℕ → Type ℓ
  IsPlace xs k i =
      ((i ≡ length xs) × ((e : Entry V) → Has xs e → e.first ≢ k))
      ⊎ ((e : Entry V) × (get_elem? xs i ≡ some e) × (e.first ≡ k))

  module _ (xs : List (Entry V)) (k : ℕ) (sorted : IsSortedTo (length xs) xs) where
    past_end : Splits xs 0 (length xs) k (length xs) → (e : Entry V) → Has xs e → e.first ≢ k
    past_end s e (j, p) h =
        omega (arith, h, ap first_of p, s.2 j (omega arith) (inside_of_get xs j e p))

    passed :
        (r : ℕ) (x : Entry V)
        → Splits xs 0 (length xs) k r
        → get_elem? xs r ≡ some x
        → eq x k ≡ false
        → (e : Entry V) → Has xs e
        → e.first ≢ k
    passed r x s p c e (j, q) h = grind (
      arith,
      ap first_of p,
      ap first_of q,
      inside_of_get xs j e q,
      inside_of_get xs r x p,
      s.2 j,
      s.3 r,
      sorted r j,
    )

    hit_lem :
        (r : ℕ) → Splits xs 0 (length xs) k r → (i : ℕ) × (hit xs k r ≡ done i) × IsPlace xs k i
    unfolding hit
    hit_lem r s = elim (Bool-cases (r == length xs)) [
      | inl e ↦ (
        r,
        rw e refl,
        inl (ground arith, past_end (subst (Splits xs 0 (length xs) k) (ground arith) s)),
      )
      | inr e ↦
          let (x, p) = get_elem?-inside xs r (ground arith) in
          elim (Bool-cases (eq x k)) [
            | inl c ↦ (
              r,
              rw (e, p) (ap (λ b. done (if b then r else length xs)) c),
              inr (x, p, ground arith),
            )
            | inr c ↦ (
              length xs,
              rw (e, p) (ap (λ b. done (if b then r else length xs)) c),
              inl (refl, passed r x s p c),
            )
          ]
    ]

    -- On a sorted vector `find` ends, at the place of the key.
    pub find_lem : (i : ℕ) × (find xs k ≡ done i) × IsPlace xs k i
    unfolding find
    find_lem =
        let (r, q, s) =
          lower_bound-Splits xs k (length xs) sorted (omega arith) (length xs) 0 (length xs)
            (omega arith) (omega arith) (omega arith) in
        let (i, h, place) = hit_lem r s in (i, bind-done (hit xs k) q ∙ h, place)

    -- The same, with what the test against the end answers.
    pub find_cases :
        ((find xs k ≡ done (length xs))
          × ((length xs == length xs) ≡ true)
          × ((e : Entry V) → Has xs e → e.first ≢ k))
        ⊎ ((i : ℕ) × (e : Entry V) × (find xs k ≡ done i)
            × ((i == length xs) ≡ false)
            × (get_elem? xs i ≡ some e)
            × (e.first ≡ k))
    find_cases =
        let (i, q, p) = find_lem in
        elim p [
          | inl (e, out) ↦ inl (q ∙ ap done e, ground arith, out)
          | inr (x, h, e) ↦
              let within = inside_of_get xs i x h in inr (i, x, q, ground (arith, within), h, e)
        ]
