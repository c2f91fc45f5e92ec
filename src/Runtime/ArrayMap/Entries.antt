-- ===== src/Runtime/ArrayMap/Entries.antt =====
-- The entry that `insert` and `operator[]` refer to.
use mathlib.Core.Option.{some-injective}
use lart.Common.{
  get_elem?-inside, inside_of_get, ℕ, suc, ◌≤◌, ◌≡◌, refl, sym, ap, ◌∙◌, inl, inr, List, length,
  get_elem?, Option, none, some, done, arith,
}
use lart.Runtime.ArrayMap.{Entry, entry, push_back, sort, insert, subscript}
use lart.Runtime.ArrayMap.Reads.{first_of, Has}
use lart.Runtime.ArrayMap.Search.{IsSortedTo, find_cases}
use lart.Runtime.ArrayMap.Places.{sort-Adds, find_at, emplace_branches}
use lart.Runtime.ArrayMap.Refinement.{
  Represents, add_new, is_none, Misses-none, there-some, Adds-Represents, old-Represents,
  add_new_self, add_new_old,
}

module _ {ℓ} {V : Type ℓ} (xs : List (Entry V)) (m : ℕ → Option V) (r : Represents xs m) where
  -- On a map with the values `m`, `insert` ends; it says whether the key is new, keeps the value of
  -- a key that is there, and returns the place of the key's entry.
  pub insert_places :
      (e : Entry V)
      → (ys : List (Entry V)) × (i : ℕ) × (v : V) × (insert xs e
          ≡ done (ys, i, is_none (m e.first)))
        × Represents ys (add_new e m)
        × (get_elem? ys i ≡ some (entry e.first v))
        × (add_new e m e.first ≡ some v)
  unfolding insert
  insert_places e = elim (find_cases xs e.first r.map.0) [
    | inl (q, c, out) ↦
        let adds = sort-Adds xs e r.map out in
        let (i, h) = adds.added in
        (
          _,
          i,
          e.second,
          rw (q, c, find_at _ i e adds.map h, Misses-none xs m r e.first out) refl,
          Adds-Represents xs m r e _ out adds,
          h,
          add_new_self e m (Misses-none xs m r e.first out),
        )
    | inr (i, x, q, c, h, same) ↦
        let there = there-some xs m r i e.first x h same in
        (
          xs,
          i,
          x.second,
          rw (q, c, there) refl,
          old-Represents xs m r e x i h same,
          rw (sym same) h,
          add_new_old e m e.first x.second there,
        )
  ]

  -- The last entry of a map has the greatest key.
  last-greatest :
      (ys : List (Entry V)) (n : ℕ) (x : Entry V)
      → IsSortedTo (length ys) ys
      → length ys ≡ suc n
      → get_elem? ys n ≡ some x
      → (y : Entry V) → Has ys y
      → y.first ≤ x.first
  last-greatest ys n x s len h y (j, p) =
      grind (arith, ap first_of h, ap first_of p, inside_of_get ys j y p, s j n)

  -- As written, `operator[]` on a key that is not there makes its entry and then refers to the entry with
  -- the greatest key.
  pub subscript_misses :
      (fresh : V) (k : ℕ)
      → m k ≡ none
      → (ys : List (Entry V)) × (i : ℕ) × (x : Entry V) × (subscript fresh xs k ≡ done (ys, i))
        × Represents ys (add_new (entry k fresh) m)
        × (get_elem? ys i ≡ some x)
        × ((y : Entry V) → Has ys y → y.first ≤ x.first)
  unfolding subscript
  subscript_misses fresh k gone = elim (find_cases xs k r.map.0) [
    | inl (q, c, out) ↦ elim (emplace_branches xs (entry k fresh) r.map) [
      | inl (out', p) ↦
          let adds = sort-Adds xs (entry k fresh) r.map out in
          let (x, h) =
            get_elem?-inside (sort (push_back xs (entry k fresh))) (length xs)
              (omega (arith, adds.longer)) in
          (
            _,
            length xs,
            x,
            rw (q, c, p) refl,
            Adds-Represents xs m r (entry k fresh) _ out adds,
            h,
            last-greatest _ (length xs) x adds.map.0 adds.longer h,
          )
      | inr (i, x, h, same, p) ↦ absurd (out x (i, h) same)
    ]
    | inr (i, x, q, c, h, same) ↦ absurd (cc (there-some xs m r i k x h same, gone))
  ]

  pub subscript_finds :
      (fresh : V) (k : ℕ) (v : V)
      → m k ≡ some v
      → (i : ℕ) × (subscript fresh xs k ≡ done (xs, i)) × (get_elem? xs i ≡ some (entry k v))
  unfolding subscript
  subscript_finds fresh k v there = elim (find_cases xs k r.map.0) [
    | inl (q, c, out) ↦ absurd (cc (Misses-none xs m r k out, there))
    | inr (i, x, q, c, h, same) ↦
        let value : x.second ≡ v =
          some-injective x.second v (sym (there-some xs m r i k x h same) ∙ there) in
        (i, rw (q, c) refl, h ∙ rw (sym same, sym value) refl)
  ]
