-- ===== src/Runtime/Shadow/Labels.antt =====
-- `poke` of runtime/native/shadow.cpp keeps the labels in order, so that `peek` ends.
use lart.Common.{
  ℕ, zero, suc, ◌+◌, ◌<◌, ◌≤◌, ◌≡◌, ◌≢◌, ◌⊎◌, inl, inr, ⊎_map, refl, sym, ◌∙◌, arith, true, false,
  ◌==◌, ltb, some, List, [], ◌∷◌, Bool-cases, Option-cases, length,
}
use lart.Runtime.Shadow.{
  Memory, Info, info, Infos, byte_at, poke, peek, peek_from, item, stride, get_shadow_label_info,
}
use lart.Runtime.Shadow.Bytes.{covered}
use lart.Runtime.Shadow.Peek.{Numbered, IsWellLabelled, poke-value, poke-null, peek_from_end}

entry_new :
    (k l : ℕ) (i : Info) (rest : Infos)
    → (k == l) ≡ false
    → get_shadow_label_info l ((k, i) ∷ rest) ≡ get_shadow_label_info l rest
entry_new k l i rest e = rw e refl

poked_byte :
    (addr bytes value x l : ℕ) (m : Memory)
    → IsWellLabelled m
    → value ≢ 0
    → (poke addr bytes value m).shadow x ≡ some l
    → (covered bytes 0 addr x ≡ true) × (length m.shadow_info + 1 ≡ l) ⊎ (m.shadow x ≡ some l)
poked_byte addr bytes value x l m w h s = elim (Bool-cases (covered bytes 0 addr x)) [
  | inl e ↦ inl (e, cc (rw e at (poke-value addr bytes value x m w.numbered h).0, s))
  | inr e ↦ inr (sym (rw e at (poke-value addr bytes value x m w.numbered h).0) ∙ s)
]

poked_null :
    (addr bytes x l : ℕ) (m : Memory)
    → (poke addr bytes 0 m).shadow x ≡ some l
    → m.shadow x ≡ some l
poked_null addr bytes x l m s = elim (Bool-cases (covered bytes 0 addr x)) [
  | inl e ↦ absurd (cc (rw e at (poke-null addr bytes x m).0, s))
  | inr e ↦ sym (rw e at (poke-null addr bytes x m).0) ∙ s
]

null-IsWellLabelled :
    (addr bytes : ℕ) (m : Memory) → IsWellLabelled m → IsWellLabelled (poke addr bytes 0 m)
null-IsWellLabelled addr bytes m w = record {
  numbered = rw (poke-null addr bytes 0 m).1 w.numbered;
  known = λ x l s. rw (poke-null addr bytes 0 m).1 (w.known x l (poked_null addr bytes x l m s));
  given = λ x l s. rw (poke-null addr bytes 0 m).1 (w.given x l (poked_null addr bytes x l m s));
}

Numbered-new :
    (i : Info) (infos : Infos) → Numbered infos → Numbered ((length infos + 1, i) ∷ infos)
Numbered-new i infos n l h = ground (arith, n l (omega (arith, h)), h)

known_new :
    (i : Info) (infos : Infos) (l : ℕ)
    → 0 < i.bytes
    → (length infos + 1 ≡ l) ⊎ ((l ≤ length infos) × (0 < (get_shadow_label_info l infos).bytes))
    → 0 < (get_shadow_label_info l ((length infos + 1, i) ∷ infos)).bytes
known_new i infos l p (inl e) = let k : (length infos + 1 == l) ≡ true = ground (arith, e) in rw k p
known_new i infos l p (inr (g, q)) =
    let k : (length infos + 1 == l) ≡ false = ground (arith, g) in rw k q

value-IsWellLabelled :
    (addr bytes value : ℕ) (m : Memory)
    → IsWellLabelled m
    → 0 < bytes
    → value ≢ 0
    → IsWellLabelled (poke addr bytes value m)
value-IsWellLabelled addr bytes value m w p h =
    let entries = (poke-value addr bytes value 0 m w.numbered h).1 in
    record {
      numbered = rw entries (Numbered-new (info value addr bytes) m.shadow_info w.numbered);
      known = λ x l s. rw entries (
          known_new (info value addr bytes) m.shadow_info l p (
            ⊎_map (λ c. c.1) (λ o. (w.given x l o, w.known x l o))
              (poked_byte addr bytes value x l m w h s)));
      given = λ x l s. rw entries (
          given_new m.shadow_info l
            (⊎_map (λ c. c.1) (λ o. w.given x l o) (poked_byte addr bytes value x l m w h s)));
    }
  where
    given_new :
        (infos : Infos) (l : ℕ)
        → (length infos + 1 ≡ l) ⊎ (l ≤ length infos)
        → l ≤ suc (length infos)
    given_new infos l (inl e) = omega (arith, e)
    given_new infos l (inr g) = omega (arith, g)

-- A poke of a range that is not empty keeps the labels in order: those given out are the numbers up to that
-- of the entries, and each label of a byte is one of them, with an entry that is not empty.
pub poke-IsWellLabelled :
    (addr bytes value : ℕ) (m : Memory)
    → IsWellLabelled m
    → 0 < bytes
    → IsWellLabelled (poke addr bytes value m)
poke-IsWellLabelled addr bytes zero m w p = null-IsWellLabelled addr bytes m w
poke-IsWellLabelled addr bytes (suc v) m w p =
    value-IsWellLabelled addr bytes (suc v) m w p (λ z. ground (arith, z))

stride_pos : (x : ℕ) (m : Memory) → IsWellLabelled m → 0 < stride (m.shadow x) m
stride_pos x m w = elim (Option-cases (m.shadow x)) [
  | inl e ↦ rw e (omega arith)
  | inr (l, e) ↦ rw e (w.known x l e)
]

peek_from_ends :
    (fuel offset addr bytes : ℕ) (m : Memory)
    → IsWellLabelled m
    → bytes ≤ fuel + offset
    → (infos : List Info) × (peek_from fuel offset addr bytes m ≡ some infos)
unfolding peek_from
peek_from_ends zero offset addr bytes m w h =
    ([], peek_from_end zero offset addr bytes m (omega (arith, h)))
peek_from_ends (suc fuel) offset addr bytes m w h =
    let label = m.shadow (byte_at addr offset) in
    let (rest, e) =
      peek_from_ends fuel (offset + stride label m) addr bytes m w
        (omega (arith, h, stride_pos (byte_at addr offset) m w)) in
    elim (Bool-cases (ltb offset bytes)) [
      | inl c ↦ (item label m ∷ rest, rw (c, e) refl)
      | inr c ↦ ([], rw c refl)
    ]

-- `peek` ends on a memory whose labels are in order, with as much fuel as there are bytes to read.
pub peek_ends :
    (fuel addr bytes : ℕ) (m : Memory)
    → IsWellLabelled m
    → bytes ≤ fuel
    → (infos : List Info) × (peek fuel addr bytes m ≡ some infos)
unfolding peek
peek_ends fuel addr bytes m w h = peek_from_ends fuel 0 addr bytes m w (omega (arith, h))
