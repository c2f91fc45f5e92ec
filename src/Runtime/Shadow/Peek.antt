-- ===== src/Runtime/Shadow/Peek.antt =====
-- What `peek` and `test_taint` of runtime/native/shadow.cpp answer after a `poke`.
use lart.Common.{
  ℕ, zero, suc, ◌+◌, ◌^◌, ◌<◌, ◌≤◌, ◌≡◌, ◌≢◌, ◌⊎◌, inl, inr, refl, ap, sym, ◌∙◌, arith, true, false,
  ◌==◌, ltb, if◌then◌else◌, none, some, [], ◌∷◌, Bool-cases, length,
}
use lart.Runtime.Shadow.{
  Memory, Info, info, Infos, byte_at, has, create_shadow_label, set_shadow_label, erase_shadow,
  poke, peek, peek_from, tainted, test_taint, get_shadow_label_info,
}
use lart.Runtime.Shadow.Bytes.{
  covered, set_bytes-shadow, set_bytes-info, erase_bytes-shadow, erase_bytes-info, covered_inside,
  covered_outside,
}

-- The labels that have been given out are those up to the number of entries.
abbrev pub Numbered : Infos → Type 0
Numbered infos = (l : ℕ) → length infos < l → has l infos ≡ false

pub record IsWellLabelled (m : Memory) : Type 0 where
  pub numbered : Numbered m.shadow_info
  pub known : (x l : ℕ) → m.shadow x ≡ some l → 0 < (get_shadow_label_info l m.shadow_info).bytes
  pub given : (x l : ℕ) → m.shadow x ≡ some l → l ≤ length m.shadow_info

-- The memory after a value is poked.
pub poke-value :
    (addr bytes value x : ℕ) (m : Memory)
    → Numbered m.shadow_info
    → value ≢ 0
    → let label = length m.shadow_info + 1 in
      ((poke addr bytes value m).shadow x
        ≡ (if covered bytes 0 addr x then some label else m.shadow x))
      × ((poke addr bytes value m).shadow_info ≡ (label, info value addr bytes) ∷ m.shadow_info)
unfolding poke create_shadow_label set_shadow_label
poke-value addr bytes value x m n h =
    let e : (value == 0) ≡ false = ground (arith, h) in
    let fresh = n (length m.shadow_info + 1) (omega arith) in
    rw (e, fresh)
      (
        set_bytes-shadow bytes 0 (length m.shadow_info + 1) addr x (record m {
          shadow_info = (length m.shadow_info + 1, info value addr bytes) ∷ m.shadow_info;
        }),
        set_bytes-info bytes 0 (length m.shadow_info + 1) addr (record m {
          shadow_info = (length m.shadow_info + 1, info value addr bytes) ∷ m.shadow_info;
        }),
      )

pub poke-null :
    (addr bytes x : ℕ) (m : Memory)
    → ((poke addr bytes 0 m).shadow x ≡ (if covered bytes 0 addr x then none else m.shadow x))
      × ((poke addr bytes 0 m).shadow_info ≡ m.shadow_info)
unfolding poke erase_shadow
poke-null addr bytes x m = (erase_bytes-shadow bytes 0 addr x m, erase_bytes-info bytes 0 addr m)

pub peek_from_end :
    (fuel offset addr n : ℕ) (m : Memory) → n ≤ offset → peek_from fuel offset addr n m ≡ some []
unfolding peek_from
peek_from_end zero offset addr n m h = let e : ltb offset n ≡ false = ground (arith, h) in rw e refl
peek_from_end (suc fuel) offset addr n m h =
    let e : ltb offset n ≡ false = ground (arith, h) in rw e refl

own_entry : (l : ℕ) (i : Info) (rest : Infos) → get_shadow_label_info l ((l, i) ∷ rest) ≡ i
own_entry l i rest = let e : (l == l) ≡ true = ground arith in rw e refl

-- A byte whose label covers the rest of what is read ends it.
peek_from_label :
    (fuel addr n l : ℕ) (i : Info) (m : Memory)
    → 0 < n
    → m.shadow (byte_at addr 0) ≡ some l
    → (l == 0) ≡ false
    → get_shadow_label_info l m.shadow_info ≡ i
    → n ≤ i.bytes
    → peek_from (suc fuel) 0 addr n m ≡ some (i ∷ [])
unfolding peek_from
peek_from_label fuel addr n l i m p s z g q =
    let e : ltb 0 n ≡ true = ground (arith, p) in
    let last =
      peek_from_end fuel (0 + (get_shadow_label_info l m.shadow_info).bytes) addr n m
        (omega (arith, q, ap (λ i. i.bytes) g)) in
    rw (e, s, z, last, g) refl

-- Where the labels given out are those up to the number of entries, there is a frame, and the value is not null:
-- peeking at the start of what was poked, for at least one byte and no further than its end, finds the value that
-- was poked, once. The value has fewer than 2 ^ 31 bytes, so that the offset, an `int`, does not overflow.
pub peek-poke :
    (fuel addr bytes n value : ℕ) (m : Memory)
    → IsWellLabelled m
    → 0 < length m.frames
    → bytes < 2 ^ 31
    → value ≢ 0
    → 0 < n
    → n ≤ bytes
    → peek (suc fuel) addr n (poke addr bytes value m) ≡ some (info value addr bytes ∷ [])
unfolding peek
peek-poke fuel addr bytes n value m w framed narrow h p q =
    let spec = poke-value addr bytes value (byte_at addr 0) m w.numbered h in
    let hit : covered bytes 0 addr (byte_at addr 0) ≡ true =
      covered_inside bytes 0 addr 0 (omega (arith, p, q)) in
    peek_from_label fuel addr n (length m.shadow_info + 1) (info value addr bytes)
      (poke addr bytes value m) p (spec.0 ∙ rw hit refl) (ground arith)
      (ap (λ infos. get_shadow_label_info (length m.shadow_info + 1) infos) spec.1
        ∙ own_entry (length m.shadow_info + 1) (info value addr bytes) m.shadow_info)
      q

tainted-some :
    (left offset addr l : ℕ) (m : Memory)
    → m.shadow (byte_at addr offset) ≡ some l
    → tainted (suc left) offset addr m ≡ true
unfolding tainted
tainted-some left offset addr l m h = rw (tainted, h) refl

tainted-none :
    (left offset addr : ℕ) (m : Memory)
    → ((i : ℕ) → i < left → m.shadow (byte_at addr (offset + i)) ≡ none)
    → tainted left offset addr m ≡ false
unfolding tainted
tainted-none zero offset addr m h = refl
tainted-none (suc left) offset addr m h =
    let e : byte_at addr (offset + 0) ≡ byte_at addr offset =
      ap (λ i. byte_at addr i) (omega arith) in
    rw (tainted, sym (ap m.shadow e) ∙ h 0 (omega arith))
      (tainted-none left (suc offset) addr m (λ i l.
        let f : byte_at addr (suc offset + i) ≡ byte_at addr (offset + suc i) =
          ap (λ i. byte_at addr i) (omega arith) in
        ap m.shadow f ∙ h (suc i) (omega (arith, l))))

-- A byte is tainted by the poke of a value, and by that of the null pointer no more.
pub poke-test_taint :
    (addr bytes value : ℕ) (m : Memory)
    → IsWellLabelled m
    → value ≢ 0
    → 0 < bytes
    → (test_taint addr bytes (poke addr bytes value m) ≡ true)
      × (test_taint addr bytes (poke addr bytes 0 m) ≡ false)
unfolding test_taint
poke-test_taint addr zero value m w h p = absurd (ground (arith, p))
poke-test_taint addr (suc b) value m w h p =
    let spec = poke-value addr (suc b) value (byte_at addr 0) m w.numbered h in
    let hit : covered (suc b) 0 addr (byte_at addr 0) ≡ true =
      covered_inside (suc b) 0 addr 0 (omega arith) in
    (
      tainted-some b 0 addr (length m.shadow_info + 1) (poke addr (suc b) value m)
          (spec.0 ∙ rw hit refl),
      tainted-none (suc b) 0 addr (poke addr (suc b) 0 m) (λ i l.
          (poke-null addr (suc b) (byte_at addr (0 + i)) m).0
          ∙ rw (covered_inside (suc b) 0 addr i l) refl),
    )

-- A poke of any value changes no byte outside its range, if the range does not wrap around.
pub poke_elsewhere :
    (addr bytes value x : ℕ) (m : Memory)
    → IsWellLabelled m
    → addr + bytes ≤ 2 ^ 64
    → ((x < addr) ⊎ (addr + bytes ≤ x))
    → (poke addr bytes value m).shadow x ≡ m.shadow x
poke_elsewhere addr bytes value x m w h k =
    let miss = covered_outside bytes 0 addr x (omega (arith, h)) (side k) in
    elim (Bool-cases (value == 0)) [
      | inl e ↦
          (let z : value ≡ 0 = ground (arith, e) in
            rw z ((poke-null addr bytes x m).0 ∙ rw miss refl))
      | inr e ↦
          (poke-value addr bytes value x m w.numbered (λ z. ground (arith, e, z))).0 ∙ rw miss refl
    ]
  where
    side : (x < addr) ⊎ (addr + bytes ≤ x) → (x < addr + 0) ⊎ (addr + (0 + bytes) ≤ x)
    side (inl a) = inl (omega (arith, a))
    side (inr b) = inr (omega (arith, b))
