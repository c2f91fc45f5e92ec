-- ===== src/Runtime/ArrayMap/Places.antt =====
-- `emplace`, `insert` and `operator[]`: the entries after them, and the place that they return.
use lart.Common.{
  get_elem?-inside, inside_of_get, ℕ, suc, ◌-◌, ◌≡◌, refl, sym, ap, ◌∙◌, ◌⊎◌, inl, inr, Bool, true,
  not, ◌||◌, ◌==◌, if◌then◌else◌, Bool-cases, List, length, get_elem?, some, done, undefined, arith,
}
use lart.Runtime.ArrayMap.{
  Entry, of_read, read, back, push_back, eq, lower_bound, find, sort, place, withdraw, settle,
  emplace,
}
use lart.Runtime.ArrayMap.Reads.{key, first_of, Has}
use lart.Runtime.ArrayMap.Search.{Splits, lower_bound-Splits, find_lem}
use lart.Runtime.ArrayMap.Rearrange.{Rearranges-forth, Rearranges-back}
use lart.Runtime.ArrayMap.Order.{sort_sorts}
use lart.Runtime.ArrayMap.Keys.{
  IsMap, Misses, Rearranges-IsDistinct, push_back-IsDistinct, push_back-IsSortedTo, push_back-Has,
  Has-push_back, length-push_back, push_back_before, push_back_last,
}

module _ {ℓ} {V : Type ℓ} where
  -- `ys` is a map with the entries of `xs` and `e`.
  pub record Adds (xs : List (Entry V)) (e : Entry V) (ys : List (Entry V)) : Type ℓ where
    pub map : IsMap ys
    pub kept : (x : Entry V) → Has xs x → Has ys x
    pub added : Has ys e
    pub only : (x : Entry V) → Has ys x → Has xs x ⊎ (x ≡ e)
    pub longer : length ys ≡ suc (length xs)

  module _ (xs : List (Entry V)) (e : Entry V) where
    pub sort-Adds : IsMap xs → Misses xs e.first → Adds xs e (sort (push_back xs e))
    sort-Adds (sorted, distinct) out =
        let (order, moved) = sort_sorts (push_back xs e) in
        record {
          map = (
            rw moved.same_length order,
            Rearranges-IsDistinct moved (push_back-IsDistinct xs e distinct out),
          );
          kept = λ x h. Rearranges-forth moved x (Has-push_back xs e x h);
          added = Rearranges-forth moved e (length xs, push_back_last xs e);
          only = λ x h. push_back-Has xs e x (Rearranges-back moved x h);
          longer = moved.same_length ∙ length-push_back xs e;
        }

  -- On a map `find` returns the place of an entry.
  pub find_at :
      (xs : List (Entry V)) (i : ℕ) (x : Entry V)
      → IsMap xs
      → get_elem? xs i ≡ some x
      → find xs x.first ≡ done i
  find_at xs i x (sorted, distinct) h =
      let (j, q, p) = find_lem xs x.first sorted in
      elim p [
        | inl (u, out) ↦ absurd (out x (i, h) refl)
        | inr (y, r, s) ↦ q ∙ ap done (distinct j i y x r h s)
      ]

  back_done :
      (xs : List (Entry V)) (n : ℕ) (x : Entry V)
      → length xs ≡ suc n
      → get_elem? xs n ≡ some x
      → back xs ≡ done x
  back_done xs n x l h = ap of_read (ap (get_elem? xs) (omega arith) ∙ h)

  place_last :
      (xs : List (Entry V)) (e : Entry V)
      → IsMap xs
      → Misses xs e.first
      → place (push_back xs e) ≡ done (sort (push_back xs e), length xs, true)
  unfolding place
  place_last xs e m out =
      let adds = sort-Adds xs e m out in
      let (item, h) =
        get_elem?-inside (sort (push_back xs e)) (length xs) (omega (arith, adds.longer)) in
      rw
        (
          back_done (sort (push_back xs e)) (length xs) item adds.longer h,
          find_at (sort (push_back xs e)) (length xs) item adds.map h,
        )
        refl

  withdraw_stale : (ys : List (Entry V)) (i : ℕ) → withdraw ys i ≡ undefined
  unfolding withdraw
  withdraw_stale ys i = refl

  settle_at :
      (ys : List (Entry V)) (e x : Entry V) (r n : ℕ)
      → length ys ≡ suc n
      → back ys ≡ done e
      → lower_bound (length ys) ys 0 n e.first ≡ done r
      → read ys r ≡ done x
      → settle ys ≡ (if (r == n) || not (eq x e.first) then place ys else withdraw ys r)
  unfolding settle
  settle_at ys e x r n len h q p =
      let last : n ≡ length ys - 1 = omega arith in
      rw last
        (rw h (rw (ap (λ k. lower_bound (length ys) ys 0 k e.first) (sym last) ∙ q) (rw p refl)))

  module _ (xs : List (Entry V)) (e : Entry V) (m : IsMap xs) where
    -- The search for the new key among the old entries.
    search :
        (r : ℕ) × (lower_bound (length (push_back xs e)) (push_back xs e) 0 (length xs) e.first
          ≡ done r)
        × Splits (push_back xs e) 0 (length xs) e.first r
    search =
        lower_bound-Splits (push_back xs e) e.first (length xs) (push_back-IsSortedTo xs e m.0)
          (omega (arith, length-push_back xs e)) (length (push_back xs e)) 0 (length xs)
          (omega arith) (omega arith) (omega (arith, length-push_back xs e))

    old_key : (i : ℕ) (x : Entry V) → get_elem? xs i ≡ some x → key (push_back xs e) i ≡ x.first
    old_key i x h = ap first_of (push_back_before xs e i (inside_of_get xs i x h) ∙ h)

    missing :
        (r : ℕ) (x : Entry V)
        → Splits (push_back xs e) 0 (length xs) e.first r
        → get_elem? (push_back xs e) r ≡ some x
        → ((r == length xs) || not (eq x e.first)) ≡ true
        → Misses xs e.first
    missing r x s p c y (j, h) same = grind (
      arith,
      old_key j y h,
      inside_of_get xs j y h,
      ap first_of p,
      s.2 j,
      s.3 j,
      s.3 r,
      push_back-IsSortedTo xs e m.0 r j,
    )

    -- Both branches of `emplace`.
    pub emplace_branches :
        (Misses xs e.first × (emplace xs e ≡ done (sort (push_back xs e), length xs, true)))
        ⊎ ((i : ℕ) × (x : Entry V) × (get_elem? xs i ≡ some x)
            × (x.first ≡ e.first)
            × (emplace xs e ≡ undefined))
    unfolding emplace
    emplace_branches =
        let (r, q, s) = search in
        let (x, p) = get_elem?-inside (push_back xs e) r (omega (arith, length-push_back xs e)) in
        let at_r =
          settle_at (push_back xs e) e x r (length xs) (length-push_back xs e)
            (back_done _ (length xs) e (length-push_back xs e) (push_back_last xs e)) q
            (ap of_read p) in
        let branch =
          λ (b : Bool). if b then place (push_back xs e) else withdraw (push_back xs e) r in
        elim (Bool-cases ((r == length xs) || not (eq x e.first))) [
          | inl c ↦
              let out = missing r x s p c in inl (out, at_r ∙ ap branch c ∙ place_last xs e m out)
          | inr c ↦
              let h = sym (push_back_before xs e r (ground (arith, s.1))) ∙ p in
              inr (r, x, h, ground arith, at_r ∙ ap branch c ∙ withdraw_stale (push_back xs e) r)
        ]
