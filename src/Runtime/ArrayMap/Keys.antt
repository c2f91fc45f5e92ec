-- ===== src/Runtime/ArrayMap/Keys.antt =====
-- Vectors whose keys are distinct, and the entry added at the back.
use lart.Common.{
  inside_of_get, ℕ, zero, suc, ◌<◌, ◌≡◌, ◌≢◌, refl, sym, ap, ◌∙◌, ◌⊎◌, ⊎_map, inl, inr, List, [],
  ◌∷◌, length, get_elem?, some, length-append, arith,
}
use lart.Runtime.ArrayMap.{Entry, push_back, pop_back}
use lart.Runtime.ArrayMap.Reads.{Has}
use lart.Runtime.ArrayMap.Search.{IsSortedTo}
use lart.Runtime.ArrayMap.Rearrange.{Rearranges}

module _ {ℓ} {A : Type ℓ} where
  pub length-push_back : (xs : List A) (x : A) → length (push_back xs x) ≡ suc (length xs)
  unfolding push_back
  length-push_back xs x = omega (arith, length-append xs (x ∷ []))

  pub push_back_before :
      (xs : List A) (x : A) (i : ℕ) → i < length xs → get_elem? (push_back xs x) i ≡ get_elem? xs i
  unfolding push_back
  push_back_before [] x i h = absurd (omega arith)
  push_back_before (y ∷ xs) x zero h = refl
  push_back_before (y ∷ xs) x (suc i) h = push_back_before xs x i (omega arith)

  pub push_back_last : (xs : List A) (x : A) → get_elem? (push_back xs x) (length xs) ≡ some x
  unfolding push_back
  push_back_last [] x = refl
  push_back_last (y ∷ xs) x = push_back_last xs x

  pub push_back_cases :
      (xs : List A) (x y : A) (i : ℕ)
      → get_elem? (push_back xs x) i ≡ some y
      → (get_elem? xs i ≡ some y) ⊎ ((i ≡ length xs) × (y ≡ x))
  unfolding push_back
  push_back_cases [] x y zero h = inr (refl, cc)
  push_back_cases [] x y (suc i) h = absurd (cc)
  push_back_cases (z ∷ xs) x y zero h = inl h
  push_back_cases (z ∷ xs) x y (suc i) h =
      ⊎_map (λ p. p) (λ (p, q). (ap suc p, q)) (push_back_cases xs x y i h)

  pub pop_back-push_back : (xs : List A) (x : A) → pop_back (push_back xs x) ≡ xs
  unfolding pop_back push_back
  pop_back-push_back [] x = refl
  pop_back-push_back (y ∷ []) x = refl
  pop_back-push_back (y ∷ (z ∷ xs)) x = ap (λ l. y ∷ l) (pop_back-push_back (z ∷ xs) x)

module _ {ℓ} {V : Type ℓ} where
  -- No key occurs twice.
  abbrev pub IsDistinct : List (Entry V) → Type ℓ
  IsDistinct xs =
      (i j : ℕ) (a b : Entry V)
      → get_elem? xs i ≡ some a
      → get_elem? xs j ≡ some b
      → a.first ≡ b.first
      → i ≡ j

  -- What the operations keep: the keys increase.
  abbrev pub IsMap : List (Entry V) → Type ℓ
  IsMap xs = IsSortedTo (length xs) xs × IsDistinct xs

  abbrev pub Misses : List (Entry V) → ℕ → Type ℓ
  Misses xs k = (e : Entry V) → Has xs e → e.first ≢ k

  pub Rearranges-IsDistinct :
      {xs ys : List (Entry V)} → Rearranges xs ys → IsDistinct xs → IsDistinct ys
  Rearranges-IsDistinct p d i j a b h k e =
      let same =
        d (p.source i) (p.source j) a b (sym (p.read_back i) ∙ h) (sym (p.read_back j) ∙ k) e in
      sym (p.target-source i) ∙ ap p.target same ∙ p.target-source j

  module _ (xs : List (Entry V)) (e : Entry V) where
    pub push_back-IsDistinct : IsDistinct xs → Misses xs e.first → IsDistinct (push_back xs e)
    push_back-IsDistinct d out i j a b h k same = elim (push_back_cases xs e a i h) [
      | inl p ↦ elim (push_back_cases xs e b j k) [
        | inl q ↦ d i j a b p q same
        | inr (q, r) ↦ absurd (out a (i, p) (same ∙ ap (λ (x : Entry V). x.first) r))
      ]
      | inr (p, r) ↦ elim (push_back_cases xs e b j k) [
        | inl q ↦ absurd (out b (j, q) (sym same ∙ ap (λ (x : Entry V). x.first) r))
        | inr (q, s) ↦ p ∙ sym q
      ]
    ]

    pub push_back-IsSortedTo : IsSortedTo (length xs) xs → IsSortedTo (length xs) (push_back xs e)
    push_back-IsSortedTo s i j ij jn =
        rw (push_back_before xs e i (omega arith), push_back_before xs e j jn) (s i j ij jn)

    pub push_back-Has : (x : Entry V) → Has (push_back xs e) x → Has xs x ⊎ (x ≡ e)
    push_back-Has x (i, h) = ⊎_map (λ p. (i, p)) (λ (p, q). q) (push_back_cases xs e x i h)

    pub Has-push_back : (x : Entry V) → Has xs x → Has (push_back xs e) x
    Has-push_back x (i, h) = (i, push_back_before xs e i (inside_of_get xs i x h) ∙ h)
