-- ===== src/Runtime/Shadow/Frames.antt =====
-- The frames of runtime/native/shadow.cpp: what is poked in a call is forgotten when it returns.
use lart.Common.{
  ℕ, zero, suc, ◌+◌, ◌≡◌, ◌≢◌, inl, inr, refl, ap, ◌∙◌, arith, Bool, true, false, not, ◌==◌, ◌||◌,
  ◌&&◌, if◌then◌else◌, Option, none, some, List, [], ◌∷◌, Bool-cases, length,
}
use lart.Runtime.Shadow.{
  Memory, put, byte_at, forget, entry_frame, exit_frame, current_frame, set_byte, set_bytes,
  set_shadow_label, create_shadow_label, info, poke,
}
use lart.Runtime.Shadow.Bytes.{covered, if-or}
use lart.Runtime.Shadow.Peek.{Numbered, poke-value}

abbrev pub member : ℕ → List ℕ → Bool
member x [] = false
member x (y ∷ ys) = (x == y) || member x ys

forget-shadow :
    (addrs : List ℕ) (m : Memory) (x : ℕ)
    → (forget addrs m).shadow x ≡ (if member x addrs then none else m.shadow x)
unfolding forget
forget-shadow [] m x = refl
forget-shadow (y ∷ ys) m x =
    forget-shadow ys
      (record m { shadow = put y none m.shadow; allocated = put y false m.allocated }) x
    ∙ if-or (x == y) (member x ys) none (m.shadow x)

-- Leaving a frame clears the bytes that the frame has allocated, and no other.
exit_frame-shadow :
    (m : Memory) (x : ℕ)
    → (exit_frame m).shadow x ≡ (if member x (current_frame m) then none else m.shadow x)
unfolding exit_frame
exit_frame-shadow m x = forget-shadow (current_frame m) m x

set_byte-frame :
    (label byte x : ℕ) (m : Memory)
    → member x (current_frame (set_byte label byte m))
      ≡ ((not (m.allocated byte) && (x == byte)) || member x (current_frame m))
unfolding set_byte
set_byte-frame label byte x m = elim (Bool-cases (m.allocated byte)) [
  | inl e ↦ rw e refl
  | inr e ↦ rw e refl
]

owned : (k a : Bool) → (k ≡ true → a ≡ true) → a ≡ (k || a)
owned true a h = h refl
owned false a h = refl

if-or-true : (k a : Bool) → (if k then true else a) ≡ (k || a)
if-or-true true a = refl
if-or-true false a = refl

frame_bool :
    (b c d : Bool)
    → ((not (true || b) && c) || ((not b && true) || d)) ≡ ((not b && (true || c)) || d)
frame_bool b c d = ground arith

set_byte-allocated :
    (label byte x : ℕ) (m : Memory)
    → (set_byte label byte m).allocated x ≡ ((x == byte) || m.allocated x)
unfolding set_byte
set_byte-allocated label byte x m = elim (Bool-cases (m.allocated byte)) [
  | inl e ↦ rw e (owned (x == byte) (m.allocated x) (λ k. ap m.allocated (ground (arith, k)) ∙ e))
  | inr e ↦ rw e (if-or-true (x == byte) (m.allocated x))
]

frame_step :
    (a b c d k : Bool)
    → (k ≡ true → a ≡ b)
    → ((not (k || a) && c) || ((not b && k) || d)) ≡ ((not a && (k || c)) || d)
frame_step a b c d true h = rw (h refl) (frame_bool b c d)
frame_step a b c d false h = ground arith

set_bytes-frame :
    (left offset label addr x : ℕ) (m : Memory)
    → member x (current_frame (set_bytes left offset label addr m))
      ≡ ((not (m.allocated x) && covered left offset addr x) || member x (current_frame m))
unfolding set_bytes
set_bytes-frame zero offset label addr x m = ground arith
set_bytes-frame (suc left) offset label addr x m =
    let b = byte_at addr offset in
    set_bytes-frame left (suc offset) label addr x (set_byte label b m)
    ∙ rw (set_byte-frame label b x m, set_byte-allocated label b x m)
        (frame_step (m.allocated x) (m.allocated b) (covered left (suc offset) addr x)
          (member x (current_frame m)) (x == b) (λ k. ap m.allocated (ground (arith, k))))

poke-frame :
    (addr bytes value x : ℕ) (m : Memory)
    → Numbered m.shadow_info
    → value ≢ 0
    → member x (current_frame (poke addr bytes value m))
      ≡ ((not (m.allocated x) && covered bytes 0 addr x) || member x (current_frame m))
unfolding poke create_shadow_label set_shadow_label
poke-frame addr bytes value x m n h =
    let e : (value == 0) ≡ false = ground (arith, h) in
    let fresh = n (length m.shadow_info + 1) (omega arith) in
    rw (e, fresh)
      (set_bytes-frame bytes 0 (length m.shadow_info + 1) addr x (record m {
        shadow_info = (length m.shadow_info + 1, info value addr bytes) ∷ m.shadow_info;
      }))

left_frame :
    (a c : Bool) (u v : Option ℕ)
    → (if (not a && c) || false then none else if c then u else v)
      ≡ (if c then (if a then u else none) else v)
left_frame true true u v = refl
left_frame true false u v = refl
left_frame false true u v = refl
left_frame false false u v = refl

-- A value that is poked in a frame of its own is forgotten when the frame is left, on the bytes that belong to no
-- outer frame; on the others its label stays, and the rest of the shadow is as it was.
pub frame_forgets :
    (addr bytes value x : ℕ) (m : Memory)
    → Numbered m.shadow_info
    → value ≢ 0
    → (exit_frame (poke addr bytes value (entry_frame m))).shadow x ≡ (
        if covered bytes 0 addr x
        then (if m.allocated x then some (length m.shadow_info + 1) else none)
        else m.shadow x)
unfolding entry_frame
frame_forgets addr bytes value x m n h =
    exit_frame-shadow (poke addr bytes value (entry_frame m)) x
    ∙ rw
        (
          poke-frame addr bytes value x (entry_frame m) n h,
          (poke-value addr bytes value x (entry_frame m) n h).0,
        )
        (left_frame (m.allocated x) (covered bytes 0 addr x) (some (length m.shadow_info + 1))
          (m.shadow x))
