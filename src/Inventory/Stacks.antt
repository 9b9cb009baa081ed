-- ===== src/Inventory/Stacks.antt =====
-- Units and room of a list of stacks, and the loop of `add_items` that tops stacks up.
use gfgdextension.Common.{
  ℕ, ◌+◌, ◌-◌, min, ◌≡◌, refl, List, [], ◌∷◌, true, if◌then◌else◌, ◌==◌, arith, Bool-cases,
  Option-cases, inl, inr,
}
use gfgdextension.Inventory.Replication.{Network}
use gfgdextension.Inventory.Store.{
  InventoryItemDefinition, InventoryItemInstance, Entry, has_definition, total_of, room_of,
}
use gfgdextension.Inventory.Operations.{top_up}

abbrev pub Items : Type 0
Items = ℕ → InventoryItemInstance

module _ (net : Network) (definitions : ℕ → InventoryItemDefinition) (items : Items)
    (self d max_stack : ℕ) where
  -- A stack of another size is of the same definition.
  has_definition-count :
      (c : ℕ) (e : Entry) (n : ℕ)
      → has_definition items c (record e { count = n }) ≡ has_definition items c e
  unfolding has_definition
  has_definition-count c e n = refl

  -- A stack of `d` counts for `c` when these are the same.
  pub has_definition-other :
      (c : ℕ) (e : Entry) → has_definition items d e ≡ true → has_definition items c e ≡ (d == c)
  unfolding has_definition
  has_definition-other c e h = elim (Option-cases (items e.instance_ref).definition) [
    | inl none_there ↦ ground (arith, h, none_there)
    | inr (b, there) ↦ rw (has_definition, there) (ground (arith, h, there))
  ]

  -- Topping up loses no unit, whichever definition is counted.
  pub total-top_up :
      (c : ℕ) (es : List Entry) (left : ℕ)
      → let r = top_up net definitions items self d max_stack es left in
        total_of items c r.0 + (if d == c then r.1 else 0)
        ≡ total_of items c es + (if d == c then left else 0)
  unfolding top_up total_of
  total-top_up c [] left = refl
  total-top_up c (e ∷ es) left = elim (Bool-cases (has_definition items d e)) [
    | inl h ↦
        let added = min (max_stack - e.count) left in
        let rest = total-top_up c es (left - added) in
        let other = has_definition-other c e h in
        elim (Bool-cases (added == 0)) [
          | inl z ↦ rw (h, z, other) (ground arith)
          | inr z ↦ rw (h, z, has_definition-count c, other) (ground arith)
        ]
    | inr h ↦ let rest = total-top_up c es (left - 0) in rw h (ground arith)
  ]

  -- It takes as many units as there is room for.
  pub left-top_up :
      (es : List Entry) (left : ℕ)
      → (top_up net definitions items self d max_stack es left).1
        ≡ left - room_of items d max_stack es
  unfolding top_up room_of
  left-top_up [] left = omega arith
  left-top_up (e ∷ es) left = elim (Bool-cases (has_definition items d e)) [
    | inl h ↦
        let added = min (max_stack - e.count) left in
        let rest = left-top_up es (left - added) in
        elim (Bool-cases (added == 0)) [
          | inl z ↦ rw (h, z) (ground arith)
          | inr z ↦ rw (h, z) (ground arith)
        ]
    | inr h ↦ let rest = left-top_up es (left - 0) in rw h (ground arith)
  ]
