-- ===== src/Runtime/ArrayMap/Refinement.antt =====
-- The map against a partial function from keys to values.
use mathlib.Core.Option.{some-injective}
use lart.Common.{
  if-cases, ℕ, ◌≡◌, refl, sym, ap, subst, ◌∙◌, ◌⊎◌, inl, inr, Bool, true, false, ◌==◌,
  if◌then◌else◌, Bool-cases, Option-cases, List, length, get_elem?, Option, none, some, done,
  undefined, arith,
}
use lart.Runtime.ArrayMap.{Entry, entry, count, emplace, at}
use lart.Runtime.ArrayMap.Reads.{Has}
use lart.Runtime.ArrayMap.Search.{find_cases}
use lart.Runtime.ArrayMap.Keys.{IsMap, Misses}
use lart.Runtime.ArrayMap.Places.{Adds, sort-Adds, emplace_branches}

module _ {ℓ} {V : Type ℓ} where
  -- The vector holds the graph of `m`.
  pub record Represents (xs : List (Entry V)) (m : ℕ → Option V) : Type ℓ where
    pub map : IsMap xs
    pub to_entry : (k : ℕ) (v : V) → m k ≡ some v → Has xs (entry k v)
    pub of_entry : (e : Entry V) → Has xs e → m e.first ≡ some e.second

  -- The function with a value for a key that has none.
  abbrev pub or_else : Option V → Option V → Option V
  or_else (some v) w = some v
  or_else none w = w

  unfoldable pub add_new : Entry V → (ℕ → Option V) → ℕ → Option V
  add_new e m k = or_else (m k) (if k == e.first then some e.second else none)

  abbrev pub is_none : Option V → Bool
  is_none none = true
  is_none (some v) = false

  module _ (e : Entry V) (m : ℕ → Option V) where
    pub add_new_old : (k : ℕ) (v : V) → m k ≡ some v → add_new e m k ≡ some v
    unfolding add_new
    add_new_old k v h = rw h refl

    pub add_new_self : m e.first ≡ none → add_new e m e.first ≡ some e.second
    unfolding add_new
    add_new_self h = rw h (if-cases (e.first == e.first) (λ c. refl) (λ c. absurd (ground arith)))

    add_new_cases :
        (k : ℕ) (v : V) → add_new e m k ≡ some v → (m k ≡ some v) ⊎ ((m k ≡ none) × (entry k v ≡ e))
    unfolding add_new
    add_new_cases k v h = elim (Option-cases (m k)) [
      | inl p ↦ elim (Bool-cases (k == e.first)) [
        | inl c ↦
            let same : k ≡ e.first = ground arith in
            let value : e.second ≡ v = some-injective e.second v (rw (p, c) at h) in
            inr (p, rw (same, sym value) refl)
        | inr c ↦ absurd (cc (rw (p, c) at h))
      ]
      | inr (w, p) ↦ inl (p ∙ rw p at h)
    ]

  module _ (xs : List (Entry V)) (m : ℕ → Option V) (r : Represents xs m) where
    pub Misses-none : (k : ℕ) → Misses xs k → m k ≡ none
    Misses-none k out = elim (Option-cases (m k)) [
      | inl e ↦ e
      | inr (v, e) ↦ absurd (out (entry k v) (r.to_entry k v e) refl)
    ]

    pub there-some :
        (i k : ℕ) (x : Entry V) → get_elem? xs i ≡ some x → x.first ≡ k → m k ≡ some x.second
    there-some i k x h e = ap m (sym e) ∙ r.of_entry x (i, h)

    -- `at` ends, and yields the value of the key; it traps where the key has none.
    pub at_finds : (k : ℕ) → at xs k ≡ done (m k)
    unfolding at
    at_finds k = elim (find_cases xs k r.map.0) [
      | inl (q, c, out) ↦ rw (q, c, Misses-none k out) refl
      | inr (i, x, q, c, h, e) ↦ rw (q, c, h, there-some i k x h e) refl
    ]

    pub count_finds : (k : ℕ) → count xs k ≡ done (if is_none (m k) then 0 else 1)
    unfolding count
    count_finds k = elim (find_cases xs k r.map.0) [
      | inl (q, c, out) ↦ rw (q, c, Misses-none k out) refl
      | inr (i, x, q, c, h, e) ↦ rw (q, c, there-some i k x h e) refl
    ]

    pub Adds-Represents :
        (e : Entry V) (ys : List (Entry V))
        → Misses xs e.first
        → Adds xs e ys
        → Represents ys (add_new e m)
    Adds-Represents e ys out adds = record {
      map = adds.map;
      to_entry = λ k v h. elim (add_new_cases e m k v h) [
        | inl p ↦ adds.kept (entry k v) (r.to_entry k v p)
        | inr (p, q) ↦ subst (Has ys) (sym q) adds.added
      ];
      of_entry = λ x h. elim (adds.only x h) [
        | inl p ↦ add_new_old e m x.first x.second (r.of_entry x p)
        | inr p ↦ rw p (add_new_self e m (Misses-none e.first out))
      ];
    }

    pub old-Represents :
        (e x : Entry V) (i : ℕ)
        → get_elem? xs i ≡ some x
        → x.first ≡ e.first
        → Represents xs (add_new e m)
    old-Represents e x i h same = record {
      map = r.map;
      to_entry = λ k v p. elim (add_new_cases e m k v p) [
        | inl q ↦ r.to_entry k v q
        | inr (q, u) ↦ absurd (cc (u, q, there-some i e.first x h same))
      ];
      of_entry = λ y p. add_new_old e m y.first y.second (r.of_entry y p);
    }

    -- On a vector sorted by its distinct keys, with the values `m`: `emplace` of a key that is not there
    -- ends, says that it is new, and adds its entry; of a key that is there it is undefined, since it
    -- reads through a reference after `pop_back` called `realloc` on the block.
    pub emplace_adds :
        (e : Entry V)
        → ((m e.first ≡ none)
            × (ys : List (Entry V)) × (i : ℕ) × (emplace xs e ≡ done (ys, i, true))
            × Represents ys (add_new e m))
          ⊎ ((v : V) × (m e.first ≡ some v) × (emplace xs e ≡ undefined))
    emplace_adds e = elim (emplace_branches xs e r.map) [
      | inl (out, q) ↦ inl (
        Misses-none e.first out,
        _,
        length xs,
        q,
        Adds-Represents e _ out (sort-Adds xs e r.map out),
      )
      | inr (i, x, h, same, q) ↦ inr (x.second, there-some i e.first x h same, q)
    ]
