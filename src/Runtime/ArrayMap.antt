-- ===== src/Runtime/ArrayMap.antt =====
-- runtime/include/runtime/map.hpp, `array_map` with `insert_sort< less_map >` over the vector of
-- runtime/include/runtime/vector.hpp. The vector is the list of its elements, an iterator its index, and a
-- key a number. A read past the end is undefined.
pub mod Reads
pub mod Search
pub mod Rearrange
pub mod Order
pub mod Keys
pub mod Places
pub mod Refinement
pub mod Entries
pub mod Erasure
mod Tests
use lart.Common.{
  ℕ, zero, suc, ◌+◌, ◌-◌, ◌/◌, Bool, true, false, not, ◌&&◌, ◌||◌, ltb, ◌==◌, if◌then◌else◌, Option,
  none, some, List, [], ◌∷◌, ◌++◌, length, get_elem?, set, Run, done, undefined, ◌>>=◌,
}

-- `std::pair`.
pub record Entry {ℓ} (V : Type ℓ) : Type ℓ where
  pub first : ℕ
  pub second : V

abbrev pub entry {ℓ} : {V : Type ℓ} → ℕ → V → Entry V
entry k v = record { first = k; second = v }

module _ {ℓ} {A : Type ℓ} where
  abbrev pub of_read : Option A → Run A
  of_read none = undefined
  of_read (some x) = done x

  abbrev pub read : List A → ℕ → Run A
  read xs i = of_read (get_elem? xs i)

  unfoldable pub push_back : List A → A → List A
  push_back xs x = xs ++ (x ∷ [])

  unfoldable pub pop_back : List A → List A
  pop_back [] = []
  pop_back (x ∷ []) = []
  pop_back (x ∷ (y ∷ xs)) = x ∷ pop_back (y ∷ xs)

  -- A read through a reference that was taken before `realloc` was called on the block: it is undefined.
  abbrev pub read_stale : List A → ℕ → Run A
  read_stale xs i = undefined

  abbrev pub back : List A → Run A
  back xs = read xs (length xs - 1)

  abbrev pub put_both : Option A → Option A → ℕ → ℕ → List A → List A
  put_both (some a) (some b) i j xs = set (set xs i b) j a
  put_both (some a) none i j xs = xs
  put_both none b i j xs = xs

  -- `std::swap` of two elements.
  unfoldable pub swap : List A → ℕ → ℕ → List A
  swap xs i j = put_both (get_elem? xs i) (get_elem? xs j) i j xs

module _ {ℓ} {V : Type ℓ} where
  -- `less_map` on two entries; on an entry and a key the source compares the key itself.
  abbrev pub less : Entry V → Entry V → Bool
  less a b = ltb a.first b.first

  -- `array_set::eq` of an entry and a key.
  abbrev pub eq : Entry V → ℕ → Bool
  eq a k = not (ltb a.first k) && not (ltb k a.first)

  -- `begin[ j ] < begin[ j - 1 ]`, false past the end.
  abbrev pub less_at : Option (Entry V) → Option (Entry V) → Bool
  less_at (some a) (some b) = less a b
  less_at (some a) none = false
  less_at none b = false

  -- The recursion on the range from `first` to `last`.
  unfoldable pub lower_bound : ℕ → List (Entry V) → (first last : ℕ) → ℕ → Run ℕ
  lower_bound zero xs first last k = if first == last then done first else undefined
  lower_bound (suc fuel) xs first last k =
      let pivot = first + (last - first) / 2 in
      if first == last then done first else (do
        x ← read xs pivot
        elim (ltb x.first k) [
          | true ↦ lower_bound fuel xs (pivot + 1) last k
          | false ↦ lower_bound fuel xs first pivot k
        ])

  -- The inner loop of `sort`, from `j` down.
  unfoldable pub sink : ℕ → List (Entry V) → List (Entry V)
  unfolding swap
  sink zero xs = xs
  sink (suc j) xs = elim (less_at (get_elem? xs (suc j)) (get_elem? xs j)) [
    | true ↦ sink j (swap xs (suc j) j)
    | false ↦ xs
  ]

  -- The outer loop, for the `n` indices from `i` on.
  unfoldable pub sink_from : (n i : ℕ) → List (Entry V) → List (Entry V)
  unfolding sink
  sink_from zero i xs = xs
  sink_from (suc n) i xs = sink_from n (suc i) (sink i xs)

  unfoldable pub sort : List (Entry V) → List (Entry V)
  unfolding sink_from
  sort xs = sink_from (length xs - 1) 1 xs

  -- `elem != end() && eq( *elem, key ) ? elem : end()`.
  unfoldable pub hit : List (Entry V) → ℕ → ℕ → Run ℕ
  hit xs k i =
      if i == length xs then done i else (do x ← read xs i; done (if eq x k then i else length xs))

  unfoldable pub find : List (Entry V) → ℕ → Run ℕ
  unfolding lower_bound hit
  find xs k = lower_bound (length xs) xs 0 (length xs) k >>= hit xs k

  unfoldable pub count : List (Entry V) → ℕ → Run ℕ
  unfolding find
  count xs k = do i ← find xs k; done (if i == length xs then 0 else 1)

  unfoldable pub insert : List (Entry V) → Entry V → Run (List (Entry V) × ℕ × Bool)
  unfolding find push_back sort
  insert xs e = do
    i ← find xs e.first
    if not (i == length xs)
        then done (xs, i, false)
        else (do j ← find (sort (push_back xs e)) e.first; done (sort (push_back xs e), j, true))

  -- The branch of `emplace` for a new key: `item` is a reference to the last element, which `sort` moves
  -- another entry to.
  unfoldable pub place : List (Entry V) → Run (List (Entry V) × ℕ × Bool)
  unfolding find sort
  place ys = do item ← back (sort ys); i ← find (sort ys) item.first; done (sort ys, i, true)

  -- The branch for a key that is there, at `it`. `item` refers to the entry as it was before `pop_back`,
  -- which calls `realloc`, and is read after it.
  unfoldable pub withdraw : List (Entry V) → ℕ → Run (List (Entry V) × ℕ × Bool)
  unfolding find pop_back
  withdraw ys it = do
    item ← read_stale (pop_back ys) it
    i ← find (pop_back ys) item.first
    done (pop_back ys, i, false)

  -- `emplace` once the vector is extended.
  unfoldable pub settle : List (Entry V) → Run (List (Entry V) × ℕ × Bool)
  unfolding lower_bound place withdraw
  settle ys = do
    e ← back ys
    it ← lower_bound (length ys) ys 0 (length ys - 1) e.first
    x ← read ys it
    if (it == (length ys - 1)) || not (eq x e.first) then place ys else withdraw ys it

  unfoldable pub emplace : List (Entry V) → Entry V → Run (List (Entry V) × ℕ × Bool)
  unfolding push_back settle
  emplace xs e = settle (push_back xs e)

  unfoldable pub erase_at : List (Entry V) → ℕ → List (Entry V)
  unfolding swap pop_back
  erase_at xs i = pop_back (swap xs i (length xs - 1))

  -- `erase` of a key, with the number of entries erased.
  unfoldable pub erase : List (Entry V) → ℕ → Run (List (Entry V) × ℕ)
  unfolding find erase_at
  erase xs k = do i ← find xs k; done (if i == length xs then (xs, 0) else (erase_at xs i, 1))

  -- `operator[]` for a key, with the value that the missing entry gets: the map after it and the index of
  -- the entry whose value it refers to.
  unfoldable pub subscript : V → List (Entry V) → ℕ → Run (List (Entry V) × ℕ)
  unfolding find emplace
  subscript fresh xs k = do
    i ← find xs k
    if not (i == length xs)
        then done (xs, i)
        else (do r ← emplace xs (entry k fresh); done (r.0, r.1))

  -- `at`, `none` for `__builtin_trap`.
  unfoldable pub at : List (Entry V) → ℕ → Run (Option V)
  unfolding find
  at xs k = do
    i ← find xs k
    if i == length xs then done none else (do x ← read xs i; done (some x.second))
