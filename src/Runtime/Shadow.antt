-- ===== src/Runtime/Shadow.antt =====
-- runtime/native/shadow.cpp: the shadow memory. A byte has a label, and a label the abstract value that was
-- poked there. An address is a number below 2 ^ 64; the null pointer is 0. The vector of frames is
-- listed from its back, and `allocated`, whose pointers are never followed, is the set of its keys.
use lart.Common.{
  ℕ, zero, suc, ◌+◌, ◌%◌, ◌^◌, ◌<◌, Bool, true, false, not, ◌==◌, ◌||◌, ltb, if◌then◌else◌, Option,
  none, some, List, [], ◌∷◌, length,
}
use mathlib.Core.Option
pub mod Bytes
pub mod Peek
pub mod Labels
pub mod Frames
mod Tests

-- `shadow_label_info`.
pub record Info : Type 0 where
  pub value : ℕ
  pub origin : ℕ
  pub bytes : ℕ

abbrev pub info : ℕ → ℕ → ℕ → Info
info v o b = record { value = v; origin = o; bytes = b }

abbrev pub Infos : Type 0
Infos = List (ℕ × Info)

pub record Memory : Type 0 where
  pub shadow : ℕ → Option ℕ
  pub shadow_info : Infos
  pub frames : List (List ℕ)
  pub allocated : ℕ → Bool

abbrev pub put : {A : Type 0} → ℕ → A → (ℕ → A) → ℕ → A
put k v m x = if x == k then v else m x

-- `uintptr_t(addr) + offset`.
abbrev pub byte_at : ℕ → ℕ → ℕ
byte_at addr offset = (addr + offset) % 2 ^ 64

unfoldable pub entry_frame : Memory → Memory
entry_frame m = record m { frames = [] ∷ m.frames }

-- `current_frame`. `frames.back()` is undefined without a frame, which is outside the model: `setup_shadow`, which
-- runs first, makes the global one. What is said here of no frame stands for no behaviour of the code.
abbrev pub current_frame : Memory → List ℕ
current_frame m = elim m.frames [ [] ↦ [] | f ∷ fs ↦ f ]

abbrev pub outer_frames : Memory → List (List ℕ)
outer_frames m = elim m.frames [ [] ↦ [] | f ∷ fs ↦ fs ]

unfoldable pub forget : List ℕ → Memory → Memory
forget [] m = m
forget (addr ∷ addrs) m =
    forget addrs
      (record m { shadow = put addr none m.shadow; allocated = put addr false m.allocated })

unfoldable pub exit_frame : Memory → Memory
unfolding forget
exit_frame m = let r = forget (current_frame m) m in record r { frames = outer_frames m }

abbrev pub has : ℕ → Infos → Bool
has l [] = false
has l ((k, i) ∷ rest) = if k == l then true else has l rest

-- `create_shadow_label`: the label, and the memory with its entry. `emplace` keeps an entry that is there.
unfoldable pub create_shadow_label : Info → Memory → ℕ × Memory
create_shadow_label i m =
    let label = length m.shadow_info + 1 in
    (
      label,
      if has label m.shadow_info then m else record m { shadow_info = (label, i) ∷ m.shadow_info },
    )

-- The body of the loop of `set_shadow_label`.
unfoldable pub set_byte : ℕ → ℕ → Memory → Memory
set_byte label byte m =
    let a =
      if not (m.allocated byte)
      then record m {
        frames = (byte ∷ current_frame m) ∷ outer_frames m;
        allocated = put byte true m.allocated;
      }
      else m in
    record a { shadow = put byte (some label) a.shadow }

-- The loop, on the number of rounds that are left and the offset. As in all loops here, the offset is an `int`: it
-- overflows, which is undefined, on a range of 2 ^ 31 bytes or more, which is outside the model.
unfoldable pub set_bytes : ℕ → ℕ → ℕ → ℕ → Memory → Memory
unfolding set_byte
set_bytes zero offset label addr m = m
set_bytes (suc left) offset label addr m =
    set_bytes left (suc offset) label addr (set_byte label (byte_at addr offset) m)

unfoldable pub set_shadow_label : ℕ → ℕ → ℕ → Memory → Memory
unfolding set_bytes
set_shadow_label label addr size m = set_bytes size 0 label addr m

unfoldable pub erase_bytes : ℕ → ℕ → ℕ → Memory → Memory
erase_bytes zero offset addr m = m
erase_bytes (suc left) offset addr m =
    erase_bytes left (suc offset) addr
      (record m { shadow = put (byte_at addr offset) none m.shadow })

unfoldable pub erase_shadow : ℕ → ℕ → Memory → Memory
unfolding erase_bytes
erase_shadow addr size m = erase_bytes size 0 addr m

unfoldable pub poke : ℕ → ℕ → ℕ → Memory → Memory
unfolding create_shadow_label set_shadow_label erase_shadow
poke addr bytes value m =
    if not (value == 0)
    then (let c = create_shadow_label (info value addr bytes) m in
        set_shadow_label c.0 addr bytes c.1)
    else erase_shadow addr bytes m

-- `shadow_info[ label ]`: a label without an entry has a zeroed one.
abbrev pub get_shadow_label_info : ℕ → Infos → Info
get_shadow_label_info l [] = info 0 0 0
get_shadow_label_info l ((k, i) ∷ rest) = if k == l then i else get_shadow_label_info l rest

-- What `read_shadow_label` adds to the offset after a byte.
abbrev pub stride : Option ℕ → Memory → ℕ
stride none m = 1
stride (some l) m = (get_shadow_label_info l m.shadow_info).bytes

-- What `peek` makes of what `read_shadow_label` yields for a byte.
abbrev pub item : Option ℕ → Memory → Info
item none m = info 0 0 1
item (some l) m = if l == 0 then info 0 0 1 else get_shadow_label_info l m.shadow_info

-- The loops of `peek` and `read_shadow_label`, on fuel: a label without bytes would not move the offset.
unfoldable pub peek_from : ℕ → ℕ → ℕ → ℕ → Memory → Option (List Info)
peek_from zero offset addr bytes m = if ltb offset bytes then none else some []
peek_from (suc fuel) offset addr bytes m =
    let label = m.shadow (byte_at addr offset) in
    let rest = peek_from fuel (offset + stride label m) addr bytes m in
    if ltb offset bytes then Option.map (λ r. item label m ∷ r) rest else some []

unfoldable pub peek : ℕ → ℕ → ℕ → Memory → Option (List Info)
unfolding peek_from
peek fuel addr bytes m = peek_from fuel 0 addr bytes m

-- `test_taint`.
unfoldable pub tainted : ℕ → ℕ → ℕ → Memory → Bool
tainted zero offset addr m = false
tainted (suc left) offset addr m = elim (m.shadow (byte_at addr offset)) [
  | some l ↦ true
  | none ↦ tainted left (suc offset) addr m
]

unfoldable pub test_taint : ℕ → ℕ → Memory → Bool
unfolding tainted
test_taint addr bytes m = tainted bytes 0 addr m
