-- ===== src/Lartcc/Syntactic/Filling.antt =====
-- That no place is left to wait for an abstract value that is there, lartcc/syntactic.cpp.
use mathlib.Core.List.Memᴰ
use mathlib.Core.Option.{some-injective}
use lart.Common.{
  ℕ, ◌<◌, ◌≡◌, ◌≢◌, refl, sym, subst, ◌∙◌, ◌⊎◌, inl, inr, ◌==◌, Bool-cases, Option, none, some,
  List, [], Memᴰ, arith,
}
use lart.Lartcc.Dataflow.{Value}
use lart.Lartcc.Operation.{Place}
use lart.Lartcc.Syntactic.{State, update, update_places, put}
use lart.Lartcc.Syntactic.Places.{Entry, abstract_position, patch_hit, patch_miss}

-- The operand is the abstract value.
abbrev pub Filled : State → Entry → Type 0
Filled s e = (a : Value) × (s.abstract e.concrete ≡ some a) × (s.operand e.call e.position ≡ a)

-- There is no abstract value yet: the operand is the null pointer, and its place waits.
abbrev pub Waits : Value → State → Entry → Type 0
Waits null s e =
    (s.abstract e.concrete ≡ none)
    × (s.operand e.call e.position ≡ null)
    × ((p : Place) × Memᴰ (e.call, p) (s.places e.concrete)
        × (abstract_position p ≡ some e.position))

abbrev pub entry : Value → ℕ → Value → Entry
entry c b v = record { call = c; position = b; concrete = v }

-- Every place made so far is filled in or waits, no other place waits, and no operand is a place twice.
pub record IsPatched (null bound : Value) (s : State) (log : List Entry) : Type 0 where
  pub each : (e : Entry) → Memᴰ e log → Filled s e ⊎ Waits null s e
  pub known :
      (v c : Value) (p : Place)
      → Memᴰ (c, p) (s.places v)
      → (b : ℕ) × (abstract_position p ≡ some b) × Memᴰ (entry c b v) log
  pub unique :
      (e f : Entry)
      → Memᴰ e log
      → Memᴰ f log
      → e.call ≡ f.call
      → e.position ≡ f.position
      → e.concrete ≡ f.concrete
  pub old : (e : Entry) → Memᴰ e log → (e.call < bound) × (e.concrete < bound)

-- The values of which no operand is a place.
abbrev pub IsUnlogged : List Entry → Value → Type 0
IsUnlogged log u = (e : Entry) → Memᴰ e log → e.call ≢ u

pub update_same :
    (v : Value) (a : Option Value) (f : Value → Option Value) (u : Value)
    → v ≡ u
    → update v a f u ≡ a
update_same v a f u h = ground arith

pub update_other {ℓ} :
    {A : Type ℓ} (v : Value) (a : A) (f : Value → A) (u : Value) → u ≢ v → update v a f u ≡ f u
update_other v a f u h = ground arith

module _ (null bound v a : Value) (s : State) (log : List Entry) (h : IsPatched null bound s log)
    (absent : s.abstract v ≡ none) where
  -- The places that wait for a value are not those of another entry.
  stranger :
      (u : Value) (i : ℕ)
      → ((e : Entry) → Memᴰ e log → e.call ≡ u → e.position ≡ i → e.concrete ≢ v)
      → (put v a s).operand u i ≡ s.operand u i
  unfolding put update_places
  stranger u i other = patch_miss (s.places v) a s.operand u i (λ c p b m e cu bi.
      let (d, k, l) = h.known v c p m in
      let same : d ≡ b = some-injective d b (sym k ∙ e) in
      other (entry c d v) l cu (same ∙ bi) refl)

  put_same : (e : Entry) → Memᴰ e log → e.concrete ≡ v → Filled (put v a s) e
  unfolding put update_places
  put_same e m same = elim (h.each e m) [
    | inl (x, k, o) ↦ absurd (cc (rw same at k, absent))
    | inr (n, o, (p, l, k)) ↦ (
      a,
      update_same v (some a) s.abstract e.concrete (sym same),
      patch_hit (s.places v) a s.operand e.call p e.position
          (subst (λ w. Memᴰ (e.call, p) (s.places w)) same l) k,
    )
  ]

  put_other :
      (e : Entry) → Memᴰ e log → e.concrete ≢ v → Filled (put v a s) e ⊎ Waits null (put v a s) e
  unfolding put update_places
  put_other e m other =
      let kept =
        stranger e.call e.position (λ f n c i. λ w. other (h.unique e f m n (sym c) (sym i) ∙ w)) in
      let abstract_kept = update_other v (some a) s.abstract e.concrete other in
      elim (h.each e m) [
        | inl (x, k, o) ↦ inl (x, abstract_kept ∙ k, kept ∙ o)
        | inr (n, o, (p, l, k)) ↦
            let places_kept = update_other v [] s.places e.concrete other in
            inr (abstract_kept ∙ n, kept ∙ o, (p, subst (Memᴰ (e.call, p)) (sym places_kept) l, k))
      ]

  put_known :
      (u c : Value) (p : Place)
      → Memᴰ (c, p) ((put v a s).places u)
      → (b : ℕ) × (abstract_position p ≡ some b) × Memᴰ (entry c b u) log
  unfolding put update_places
  put_known u c p m = elim (Bool-cases (u == v)) [
    | inl same ↦
        let gone : update v [] s.places u ≡ [] = rw same refl in
        absurd (Memᴰ.not-nil (subst (Memᴰ (c, p)) gone m))
    | inr other ↦
        let kept : update v [] s.places u ≡ s.places u = rw other refl in
        h.known u c p (subst (Memᴰ (c, p)) kept m)
  ]

  pub put-IsPatched : IsPatched null bound (put v a s) log
  put-IsPatched = record {
    each = λ e m. elim (Bool-cases (e.concrete == v)) [
      | inl same ↦ inl (put_same e m (ground arith))
      | inr other ↦ put_other e m (ground arith)
    ];
    known = put_known;
    unique = h.unique;
    old = h.old;
  }

  pub put_unlogged :
      (u : Value) (i : ℕ) → IsUnlogged log u → (put v a s).operand u i ≡ s.operand u i
  put_unlogged u i n = stranger u i (λ e m c. absurd (n e m c))
