-- ===== src/Common/Outcomes.antt =====
-- What a piece of the C++ code does: it yields a value, it ends the process through `__lart_cancel`
-- (runtime/native/lart.cpp: the path is given up, not reported), or it ends in `fail`
-- or in undefined behaviour.

use mathlib.Core.Path.{◌≡◌, ap}

pub data Run {ℓ} (A : Type ℓ) : Type ℓ where
  done : A → Run A
  cancelled : Run A
  undefined : Run A

infixl 5 ◌>>=◌
abbrev pub ◌>>=◌ {ℓ κ} : {A : Type ℓ} {B : Type κ} → Run A → (A → Run B) → Run B
done a >>= f = f a
cancelled >>= f = cancelled
undefined >>= f = undefined

pub bind-done {ℓ κ} :
    {A : Type ℓ} {B : Type κ} {m : Run A} {x : A} (f : A → Run B) → m ≡ done x → (m >>= f) ≡ f x
bind-done f h = ap (λ r. r >>= f) h
