-- ===== src/Runtime/Stash/Slots.antt =====
-- One stack against the list of what it holds, the newest first.
use lart.Common.{
  ℕ, zero, suc, ◌+◌, ◌-◌, ◌%◌, ◌^◌, ◌≤◌, ◌<◌, ◌≡◌, refl, ap, ◌∙◌, some, List, ◌∷◌, length,
  get_elem?, set, take, length-set, get-set_self, get-set_other, get-take, inside_of_get,
  length-take, done, arith,
}
use lart.Runtime.Stash.{Stack, push, pop, popped}

-- The stack holds `l`: its top `length l` slots, going round.
pub record Holds {A : Type 0} (s : Stack A) (l : List A) : Type 0 where
  pub size : length s.slots ≡ 256
  pub small : s.top < 256
  pub fits : length l ≤ 256
  pub slot :
      (i : ℕ) (x : A)
      → get_elem? l i ≡ some x
      → get_elem? s.slots ((s.top + 255 - i) % 256) ≡ some x

module _ {A : Type 0} (s : Stack A) where
  -- A push keeps the newest 256 elements, whatever the stack held.
  pub push-Holds : (l : List A) (v : A) → Holds s l → Holds (push v s) (take 256 (v ∷ l))
  unfolding push
  push-Holds l v h = record {
    size = length-set s.slots s.top v ∙ h.size;
    small = omega arith;
    fits = length-take 256 (v ∷ l);
    slot = λ i x p. kept i x (get-take 256 (v ∷ l) i x p);
  }
    where
      kept :
          (i : ℕ) (x : A)
          → (i < 256) × (get_elem? (v ∷ l) i ≡ some x)
          → get_elem? (set s.slots s.top v) (((s.top + 1) % 2 ^ 8 + 255 - i) % 256) ≡ some x
      kept zero x (b, p) =
          ap (get_elem? (set s.slots s.top v)) (omega (arith, h.small))
          ∙ get-set_self s.slots s.top v (omega (arith, h.small, h.size))
          ∙ p
      kept (suc i) x (b, p) =
          get-set_other s.slots s.top _ v (λ e. absurd (omega (arith, h.small)))
          ∙ ap (get_elem? s.slots) (omega (arith, h.small))
          ∙ h.slot i x p

  pub pop-Holds :
      (x : A) (l : List A) → Holds s (x ∷ l) → (r : Stack A) × (pop s ≡ done (x, r)) × Holds r l
  unfolding pop
  pop-Holds x l h =
      let place : (s.top + 255) % 2 ^ 8 ≡ (s.top + 255 - 0) % 256 = omega arith in
      let r = record s { top = (s.top + 255) % 2 ^ 8 } in
      (
        r,
        ap (λ o. popped o r) (ap (get_elem? s.slots) place ∙ h.slot 0 x refl),
        record {
          size = h.size;
          small = omega arith;
          fits = omega (arith, h.fits);
          slot = λ i y p.
              ap (get_elem? s.slots) (omega (arith, h.small, inside_of_get l i y p, h.fits))
              ∙ h.slot (suc i) y p;
        },
      )
