-- ===== src/Runtime/ArrayMap/Reads.antt =====
-- What a position of the vector holds, and what a swap does to it.
use lart.Common.{
  get_elem?-inside, length-set, get-set_self, get-set_other, ℕ, ◌<◌, ◌≡◌, ◌≢◌, refl, sym, ◌∙◌,
  Option, none, some, List, length, get_elem?, set,
}
use lart.Runtime.ArrayMap.{Entry, swap}

-- A value is stored somewhere in the vector.
abbrev pub Has {ℓ} : {A : Type ℓ} → List A → A → Type ℓ
Has xs x = (i : ℕ) × (get_elem? xs i ≡ some x)

abbrev pub first_of {ℓ} : {V : Type ℓ} → Option (Entry V) → ℕ
first_of none = 0
first_of (some e) = e.first

-- The key at a position.
abbrev pub key {ℓ} : {V : Type ℓ} → List (Entry V) → ℕ → ℕ
key xs i = first_of (get_elem? xs i)

module _ {ℓ} {A : Type ℓ} where
  module _ (xs : List A) (i j : ℕ) (hi : i < length xs) (hj : j < length xs) where
    swap-set :
        (a : A) × (b : A) × (get_elem? xs i ≡ some a)
        × (get_elem? xs j ≡ some b)
        × (swap xs i j ≡ set (set xs i b) j a)
    unfolding swap
    swap-set =
        let (a, p) = get_elem?-inside xs i hi in
        let (b, q) = get_elem?-inside xs j hj in (a, b, p, q, rw (p, q) refl)

    pub length-swap : length (swap xs i j) ≡ length xs
    length-swap =
        let (a, b, p, q, e) = swap-set in rw e (length-set (set xs i b) j a ∙ length-set xs i b)

    pub swap_right : get_elem? (swap xs i j) j ≡ get_elem? xs i
    swap_right =
        let (a, b, p, q, e) = swap-set in
        rw (e, p) (get-set_self (set xs i b) j a (rw (length-set xs i b) hj))

    pub swap_left : i ≢ j → get_elem? (swap xs i j) i ≡ get_elem? xs j
    swap_left ne =
        let (a, b, p, q, e) = swap-set in
        rw (e, q) (get-set_other (set xs i b) j i a (λ h. ne (sym h)) ∙ get-set_self xs i b hi)

    pub swap_other : (k : ℕ) → k ≢ i → k ≢ j → get_elem? (swap xs i j) k ≡ get_elem? xs k
    swap_other k ni nj =
        let (a, b, p, q, e) = swap-set in
        rw e (
          get-set_other (set xs i b) j k a (λ h. nj (sym h))
          ∙ get-set_other xs i k b (λ h. ni (sym h)))
