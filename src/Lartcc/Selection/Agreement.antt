-- ===== src/Lartcc/Selection/Agreement.antt =====
-- The two passes decide about a load or a store in code of their own: lartcc/syntactic.cpp and lartcc/shadow.cpp.
use lart.Common.{
  ◌≡◌, refl, ◌⊎◌, inl, inr, cancelled, Bool, true, false, if◌then◌else◌, Bool-cases, Option, none,
  some, Run, done, undefined, ◌>>=◌, arith,
}
use lart.Lartcc.Dataflow.{Value}
use lart.Lartcc.Onion.{Onion, is_abstract}
use lart.Lartcc.Operation.{Kind, freeze}
use lart.Lartcc.Selection.{
  freeze_shadow, store_inst, load_inst, Code, ShadowKind, operation_of, make_operation, make_load,
  make_store, operation_kind, load_kind, store_kind, freezes, abstract_value, abstract_pointer_at,
  at_type,
}

-- The operation that goes with what is made of a value, if anything is.
abbrev pub matched : Option ShadowKind → Option Kind
matched none = none
matched (some k) = operation_of k

-- A load or a store that the types tell about.
abbrev pub IsAccess : Code → Value → Type 0
IsAccess m v =
    (m.class v ≡ store_inst) ⊎ ((m.class v ≡ load_inst) × ((t : Onion) × (m.types v ≡ some t)))

module _ (m : Code) (v : Value) where
  after_freezes :
      (r : Run Bool)
      → (r >>= λ b. done (if b then some freeze else none))
        ≡ ((r >>= λ b. done (if b then some freeze_shadow else none)) >>= λ k. done (matched k))
  after_freezes (done true) = refl
  after_freezes (done false) = refl
  after_freezes cancelled = refl
  after_freezes undefined = refl

  stores_agree : make_store m v ≡ (store_kind m v >>= λ k. done (matched k))
  unfolding make_store store_kind
  stores_agree = elim (Bool-cases (abstract_pointer_at m (m.pointer_operand v))) [
    | inl p ↦ rw p refl
    | inr p ↦ rw p (after_freezes (freezes m v))
  ]

  value_known : (t : Onion) → m.types v ≡ some t → abstract_value m v ≡ is_abstract t
  unfolding abstract_value
  value_known t e = ground arith

  type_known : (t : Onion) → m.types v ≡ some t → at_type m is_abstract v ≡ done (is_abstract t)
  type_known t e = ground arith

  loads_agree : (t : Onion) → m.types v ≡ some t → make_load m v ≡ done (matched (load_kind m v))
  unfolding make_load load_kind
  loads_agree t e = elim (Bool-cases (abstract_pointer_at m (m.pointer_operand v))) [
    | inl p ↦ rw p refl
    | inr p ↦ elim (Bool-cases (is_abstract t)) [
      | inl a ↦ rw (p, type_known t e, value_known t e, a) refl
      | inr a ↦ rw (p, type_known t e, value_known t e, a) refl
    ]
  ]

  store_made :
      m.class v ≡ store_inst
      → (make_operation m v ≡ make_store m v) × (operation_kind m v ≡ store_kind m v)
  unfolding make_operation operation_kind
  store_made e = (ground arith, ground arith)

  load_made :
      m.class v ≡ load_inst
      → (make_operation m v ≡ make_load m v) × (operation_kind m v ≡ done (load_kind m v))
  unfolding make_operation operation_kind
  load_made e = (ground arith, ground arith)

  -- Of a store, and of a load in the map of types, the syntactic pass makes just the operation that goes with what the
  -- shadow pass makes, `store`, `load`, `freeze` and `melt`, and none if that makes none; where the
  -- assertion on the type of a pointer fails, it fails for both.
  pub passes_agree :
      IsAccess m v → make_operation m v ≡ (operation_kind m v >>= λ k. done (matched k))
  passes_agree (inl is_store) = let (o, k) = store_made is_store in rw (o, k) stores_agree
  passes_agree (inr (is_load, (t, e))) =
      let (o, k) = load_made is_load in rw (o, k) (loads_agree t e)
