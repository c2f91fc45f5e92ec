-- ===== src/Runtime/ArrayMap/Order.antt =====
-- The insertion sort.
use lart.Common.{
  get_elem?-inside, ℕ, zero, suc, ◌+◌, ◌-◌, ◌≤◌, ◌<◌, ◌≡◌, ◌≢◌, ap, ◌==◌, ◌∙◌, Bool-cases, inl, inr,
  true, false, List, [], ◌∷◌, length, ◌⊎◌, get_elem?, arith,
}
use lart.Runtime.ArrayMap.{Entry, less, less_at, swap, sink, sink_from, sort}
use lart.Runtime.ArrayMap.Reads.{key, first_of, swap_left, swap_right, swap_other}
use lart.Runtime.ArrayMap.Search.{IsSortedTo}
use lart.Runtime.ArrayMap.Rearrange.{Rearranges, Rearranges-refl, Rearranges-trans, swap-Rearranges}

-- The keys `f` with those at `j` and `j + 1` exchanged.
Exchanges : ℕ → (f g : ℕ → ℕ) → ℕ → Type 0
Exchanges j f g k =
    ((k ≡ suc j) × (g k ≡ f j))
    ⊎ ((k ≡ j) × (g k ≡ f (suc j)))
    ⊎ ((k ≢ suc j) × (k ≢ j) × (g k ≡ f k))

module _ (i j : ℕ) (f g : ℕ → ℕ) (s : (a b : ℕ) → a < b → b ≤ i → b ≢ suc j → f a ≤ f b)
    (lt : f (suc j) < f j) (hj : suc j ≤ i) where
  exchange_order :
      (a b : ℕ) → a < b → b ≤ i → b ≢ j → Exchanges j f g a → Exchanges j f g b → g a ≤ g b
  unfolding Exchanges
  exchange_order a b ab bi bj (inl (p, q)) (inl (u, v)) = absurd (omega arith)
  exchange_order a b ab bi bj (inl (p, q)) (inr (inl (u, v))) = absurd (omega arith)
  exchange_order a b ab bi bj (inl (p, q)) (inr (inr (u, v, w))) =
      omega (arith, s j b (omega arith) bi u)
  exchange_order a b ab bi bj (inr (inl (p, q))) (inl (u, v)) = omega arith
  exchange_order a b ab bi bj (inr (inl (p, q))) (inr (inl (u, v))) = absurd (omega arith)
  exchange_order a b ab bi bj (inr (inl (p, q))) (inr (inr (u, v, w))) =
      omega (arith, s (suc j) b (omega arith) bi u)
  exchange_order a b ab bi bj (inr (inr (p, q, r))) (inl (u, v)) =
      omega (arith, s a j (omega arith) (omega arith) (omega arith))
  exchange_order a b ab bi bj (inr (inr (p, q, r))) (inr (inl (u, v))) = absurd (omega arith)
  exchange_order a b ab bi bj (inr (inr (p, q, r))) (inr (inr (u, v, w))) =
      omega (arith, s a b ab bi u)

module _ {ℓ} {V : Type ℓ} where
  -- The first `i + 1` keys are in order, but for the one at `j`, which may have to move to the front.
  IsSinking : ℕ → ℕ → List (Entry V) → Type 0
  IsSinking i j xs = (a b : ℕ) → a < b → b ≤ i → b ≢ j → key xs a ≤ key xs b

  less_keys :
      (xs : List (Entry V)) (i j : ℕ)
      → i < length xs
      → j < length xs
      → ((less_at (get_elem? xs i) (get_elem? xs j) ≡ true) × (key xs i < key xs j))
        ⊎ ((less_at (get_elem? xs i) (get_elem? xs j) ≡ false) × (key xs j ≤ key xs i))
  less_keys xs i j hi hj =
      let (a, p) = get_elem?-inside xs i hi in
      let (b, q) = get_elem?-inside xs j hj in
      rw (p, q)
        (elim (Bool-cases (less a b)) [
          | inl c ↦ inl (c, ground arith)
          | inr c ↦ inr (c, ground arith)
        ])

  swap-Exchanges :
      (xs : List (Entry V)) (i j : ℕ)
      → i < length xs
      → suc j ≤ i
      → (k : ℕ) → Exchanges j (key xs) (key (swap xs (suc j) j)) k
  unfolding Exchanges
  swap-Exchanges xs i j hi hj k = elim (Bool-cases (k == suc j)) [
    | inl e ↦ inl (
      ground arith,
      ap (λ n. key (swap xs (suc j) j) n) (ground arith)
          ∙ ap first_of (swap_left xs (suc j) j (omega arith) (omega arith) (omega arith)),
    )
    | inr e ↦ elim (Bool-cases (k == j)) [
      | inl f ↦ inr (
          inl (
            ground arith,
            ap (λ n. key (swap xs (suc j) j) n) (ground arith)
                ∙ ap first_of (swap_right xs (suc j) j (omega arith) (omega arith)),
          ))
      | inr f ↦ inr (
          inr (
            ground arith,
            ground arith,
            ap first_of (
                swap_other xs (suc j) j (omega arith) (omega arith) k (ground arith)
                  (ground arith)),
          ))
    ]
  ]

  swap-IsSinking :
      (xs : List (Entry V)) (i j : ℕ)
      → i < length xs
      → suc j ≤ i
      → IsSinking i (suc j) xs
      → key xs (suc j) < key xs j
      → IsSinking i j (swap xs (suc j) j)
  unfolding IsSinking
  swap-IsSinking xs i j hi hj s lt a b ab bi bj =
      exchange_order i j (key xs) (key (swap xs (suc j) j)) s lt hj a b ab bi bj
        (swap-Exchanges xs i j hi hj a) (swap-Exchanges xs i j hi hj b)

  sink_lem :
      (j i : ℕ) (xs : List (Entry V))
      → i < length xs
      → j ≤ i
      → IsSinking i j xs
      → IsSortedTo (suc i) (sink j xs) × Rearranges xs (sink j xs)
  unfolding IsSinking sink
  sink_lem zero i xs hi hj s =
      (λ a b ab bi. s a b ab (omega arith) (omega arith), Rearranges-refl xs)
  sink_lem (suc j) i xs hi hj s = elim (less_keys xs (suc j) j (omega arith) (omega arith)) [
    | inl (c, lt) ↦
        let move = swap-Rearranges xs (suc j) j (omega arith) (omega arith) (omega arith) in
        let (sorted, moved) =
          sink_lem j i (swap xs (suc j) j) (rw move.same_length hi) (omega arith)
            (swap-IsSinking xs i j hi hj s lt) in
        rw (sink, c) (sorted, Rearranges-trans _ _ _ move moved)
    | inr (c, le) ↦
        rw (sink, c)
          (
            (λ a b ab bi. elim (Bool-cases (b == suc j)) [
              | inl e ↦ ground (arith, s a j)
              | inr e ↦ s a b ab (omega arith) (ground arith)
            ]),
            Rearranges-refl xs,
          )
  ]

  sink_from_lem :
      (n i : ℕ) (xs : List (Entry V))
      → n + i ≡ length xs
      → IsSortedTo i xs
      → IsSortedTo (n + i) (sink_from n i xs) × Rearranges xs (sink_from n i xs)
  unfolding sink_from IsSinking
  sink_from_lem zero i xs h s = (λ a b ab bn. s a b ab (omega arith), Rearranges-refl xs)
  sink_from_lem (suc n) i xs h s =
      let (sorted, moved) =
        sink_lem i i xs (omega arith) (omega arith) (λ a b ab bi ne. s a b ab (omega arith)) in
      let (sorted', moved') =
        sink_from_lem n (suc i) (sink i xs) (rw moved.same_length (omega arith)) sorted in
      (λ a b ab bn. sorted' a b ab (omega arith), Rearranges-trans _ _ _ moved moved')

  -- `sort` puts the keys in order and only permutes the entries.
  pub sort_sorts :
      (xs : List (Entry V)) → IsSortedTo (length xs) (sort xs) × Rearranges xs (sort xs)
  unfolding sort sink_from
  sort_sorts [] = ((λ a b ab bn. absurd (omega arith)), Rearranges-refl [])
  sort_sorts (x ∷ xs) =
      let (sorted, moved) =
        sink_from_lem (suc (length xs) - 1) 1 (x ∷ xs) (omega arith)
          (λ a b ab bn. absurd (omega arith)) in
      (λ a b ab bn. sorted a b ab (omega arith), moved)
