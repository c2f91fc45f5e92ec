-- ===== src/Runtime/Stash/Lifo.antt =====
-- The calls of instrumented code against two lists, the newest elements first.
use lart.Common.{
  ℕ, zero, suc, ◌%◌, ◌^◌, ◌≤◌, ◌<◌, ◌≡◌, refl, ap, subst, Bool, true, false, ◌&&◌, ltb, List, [],
  ◌∷◌, length, take, done, arith,
}
use lart.Runtime.Stash.{
  Stack, Stashes, Call, put, get_value, get_taint, Answer, value, taint, push, stash, stash_taint,
  lart_stash, unstash, unstash_taint, run,
}
use lart.Runtime.Stash.Slots.{Holds, push-Holds, pop-Holds}

-- With `n` values and `t` taints stashed, no call needs a 257th slot or finds none.
unfoldable pub fits : List Call → (n t : ℕ) → Bool
fits [] n t = true
fits (put b v ∷ calls) n t = ltb n 256 && (ltb t 256 && fits calls (suc n) (suc t))
fits (get_value ∷ calls) zero t = false
fits (get_value ∷ calls) (suc n) t = fits calls n t
fits (get_taint ∷ calls) n zero = false
fits (get_taint ∷ calls) n (suc t) = fits calls n t

-- The answers that unbounded stacks give; a stack that is empty has none.
unfoldable pub answers : List Call → List ℕ → List Bool → List Answer
answers [] vs ts = []
answers (put t v ∷ calls) vs ts = answers calls (v % 2 ^ 64 ∷ vs) (t ∷ ts)
answers (get_value ∷ calls) [] ts = []
answers (get_value ∷ calls) (v ∷ vs) ts = value v ∷ answers calls vs ts
answers (get_taint ∷ calls) vs [] = []
answers (get_taint ∷ calls) vs (t ∷ ts) = taint t ∷ answers calls vs ts

both_true : (a b : Bool) → (a && b) ≡ true → (a ≡ true) × (b ≡ true)
both_true true b h = (refl, h)
both_true false b h = absurd (cc h)

take_short {ℓ} : {A : Type ℓ} (n : ℕ) (xs : List A) → length xs ≤ n → take n xs ≡ xs
take_short zero [] h = refl
take_short zero (x ∷ xs) h = absurd (omega arith)
take_short (suc n) [] h = refl
take_short (suc n) (x ∷ xs) h = ap (λ l. x ∷ l) (take_short n xs (omega arith))

push_fits :
    {A : Type 0} (s : Stack A) (l : List A) (v : A)
    → length l < 256
    → Holds s l
    → Holds (push v s) (v ∷ l)
push_fits s l v h k =
    subst (Holds (push v s)) (take_short 256 (v ∷ l) (omega arith)) (push-Holds s l v k)

-- Calls that fit in the stacks get the answers of unbounded stacks: the last argument stashed comes back first.
pub run-answers :
    (calls : List Call) (s : Stashes) (vs : List ℕ) (ts : List Bool)
    → Holds s.values vs
    → Holds s.taints ts
    → fits calls (length vs) (length ts) ≡ true
    → run calls s ≡ done (answers calls vs ts)
unfolding run answers fits lart_stash stash stash_taint unstash unstash_taint
run-answers [] s vs ts hv ht f = refl
run-answers (put t v ∷ calls) s vs ts hv ht f =
    let (nv, f') =
      both_true (ltb (length vs) 256)
        (ltb (length ts) 256 && fits calls (suc (length vs)) (suc (length ts))) f in
    let (nt, rest) =
      both_true (ltb (length ts) 256) (fits calls (suc (length vs)) (suc (length ts))) f' in
    run-answers calls (lart_stash t v s) (v % 2 ^ 64 ∷ vs) (t ∷ ts)
      (push_fits s.values vs (v % 2 ^ 64) (ground arith) hv)
      (push_fits s.taints ts t (ground arith) ht) rest
run-answers (get_value ∷ calls) s [] ts hv ht f = absurd (cc f)
run-answers (get_value ∷ calls) s (v ∷ vs) ts hv ht f =
    let (r, p, h) = pop-Holds s.values v vs hv in
    rw p (rw (run-answers calls (record s { values = r }) vs ts h ht f) refl)
run-answers (get_taint ∷ calls) s vs [] hv ht f = absurd (cc f)
run-answers (get_taint ∷ calls) s vs (t ∷ ts) hv ht f =
    let (r, p, h) = pop-Holds s.taints t ts ht in
    rw p (rw (run-answers calls (record s { taints = r }) vs ts hv h f) refl)
