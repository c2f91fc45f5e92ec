-- ===== src/Runtime/ArrayMap/Rearrange.antt =====
-- Vectors that hold the same elements at permuted places.
use lart.Common.{
  ℕ, ◌<◌, ◌≡◌, ◌≢◌, refl, sym, ap, ◌∙◌, ◌==◌, Bool-cases, inl, inr, if◌then◌else◌, List, length,
  get_elem?, arith,
}
use lart.Runtime.ArrayMap.{swap}
use lart.Runtime.ArrayMap.Reads.{Has, length-swap, swap_left, swap_right, swap_other}

transpose : (i j k : ℕ) → ℕ
transpose i j k = if k == i then j else if k == j then i else k

transpose-transpose : (i j k : ℕ) → transpose i j (transpose i j k) ≡ k
unfolding transpose
transpose-transpose i j k = ground arith

module _ {ℓ} {A : Type ℓ} where
  -- `ys` is `xs` with its places permuted.
  pub record Rearranges (xs ys : List A) : Type ℓ where
    pub source : ℕ → ℕ
    pub target : ℕ → ℕ
    pub read_back : (i : ℕ) → get_elem? ys i ≡ get_elem? xs (source i)
    pub source-target : (i : ℕ) → source (target i) ≡ i
    pub target-source : (i : ℕ) → target (source i) ≡ i
    pub same_length : length ys ≡ length xs

  pub Rearranges-refl : (xs : List A) → Rearranges xs xs
  Rearranges-refl xs = record {
    source = λ i. i;
    target = λ i. i;
    read_back = λ i. refl;
    source-target = λ i. refl;
    target-source = λ i. refl;
    same_length = refl;
  }

  pub Rearranges-trans :
      (xs ys zs : List A) → Rearranges xs ys → Rearranges ys zs → Rearranges xs zs
  Rearranges-trans xs ys zs p q = record {
    source = λ i. p.source (q.source i);
    target = λ i. q.target (p.target i);
    read_back = λ i. q.read_back i ∙ p.read_back (q.source i);
    source-target = λ i. ap p.source (q.source-target (p.target i)) ∙ p.source-target i;
    target-source = λ i. ap q.target (p.target-source (q.source i)) ∙ q.target-source i;
    same_length = q.same_length ∙ p.same_length;
  }

  module _ (xs : List A) (i j : ℕ) (hi : i < length xs) (hj : j < length xs) (ne : i ≢ j) where
    get-swap : (k : ℕ) → get_elem? (swap xs i j) k ≡ get_elem? xs (transpose i j k)
    unfolding transpose
    get-swap k = elim (Bool-cases (k == i)) [
      | inl e ↦ rw e (ap (get_elem? (swap xs i j)) (ground arith) ∙ swap_left xs i j hi hj ne)
      | inr e ↦ elim (Bool-cases (k == j)) [
        | inl f ↦ rw (e, f) (ap (get_elem? (swap xs i j)) (ground arith) ∙ swap_right xs i j hi hj)
        | inr f ↦ rw (e, f) (swap_other xs i j hi hj k (ground arith) (ground arith))
      ]
    ]

    pub swap-Rearranges : Rearranges xs (swap xs i j)
    swap-Rearranges = record {
      source = transpose i j;
      target = transpose i j;
      read_back = get-swap;
      source-target = transpose-transpose i j;
      target-source = transpose-transpose i j;
      same_length = length-swap xs i j hi hj;
    }

  module _ {xs ys : List A} (p : Rearranges xs ys) (x : A) where
    pub Rearranges-forth : Has xs x → Has ys x
    Rearranges-forth (i, h) =
        (p.target i, p.read_back (p.target i) ∙ ap (get_elem? xs) (p.source-target i) ∙ h)

    pub Rearranges-back : Has ys x → Has xs x
    Rearranges-back (i, h) = (p.source i, sym (p.read_back i) ∙ h)
