-- ===== src/Inventory/Conserving.antt =====
-- Units of an inventory before and after `add_items`: each unit that it takes is in a stack.
use gfgdextension.Common.{
  ℕ, zero, suc, ◌+◌, ◌-◌, min, ◌≡◌, refl, List, [], ◌∷◌, ◌++◌, true, false, ◌==◌, ltb, ◌<◌, ◌≤◌,
  if◌then◌else◌, arith, Bool, some, Bool-cases, inl, inr,
}
use gfgdextension.Inventory.Replication.{Network}
use gfgdextension.Inventory.Store.{
  InventoryItemDefinition, Entry, Store, free_entry_slots, int_max, put, emit, changed, total_of,
  has_definition, get_total_item_count_by_definition,
}
use gfgdextension.Inventory.Operations.{
  start_stacks, top_up_stacks, add_items, create_instance, new_instance, append_entry,
  named_instance, queue_flush,
}
use gfgdextension.Inventory.Stacks.{Items, total-top_up}
use gfgdextension.Inventory.Adding.{
  IsBelow, IsReady, round, IsReady-open_stack, entries-open_stack, open_stack,
}
use gfgdextension.Inventory.Fitting.{entries-top_up_stacks, IsReady-top_up_stacks, left_over}

total-append :
    (items : Items) (c : ℕ) (xs ys : List Entry)
    → total_of items c (xs ++ ys) ≡ total_of items c xs + total_of items c ys
unfolding total_of
total-append items c [] ys = omega arith
total-append items c (x ∷ xs) ys = omega (arith, total-append items c xs ys)

has_definition-same :
    (items items' : Items) (c : ℕ) (e : Entry)
    → (items' e.instance_ref).definition ≡ (items e.instance_ref).definition
    → has_definition items' c e ≡ has_definition items c e
unfolding has_definition
has_definition-same items items' c e same = rw (has_definition, same) refl

total-same :
    (items items' : Items) (c n : ℕ) (es : List Entry)
    → IsBelow n es
    → ((r : ℕ) → r < n → (items' r).definition ≡ (items r).definition)
    → total_of items' c es ≡ total_of items c es
unfolding total_of
total-same items items' c n [] h same = refl
total-same items items' c n (e ∷ es) h same =
    rw
      (
        has_definition-same items items' c e (same e.instance_ref h.0),
        total-same items items' c n es h.1 same,
      )
      refl

module _ (net : Network) (definitions : ℕ → InventoryItemDefinition) where
  old-open_stack :
      (s : Store) (self d count r : ℕ)
      → r < s.next_instance
      → ((open_stack net definitions s self d count).items r).definition ≡ (s.items r).definition
  unfolding open_stack append_entry create_instance
  old-open_stack s self d count r old = ground (arith, old)

  new-open_stack :
      (s : Store) (self d count : ℕ)
      → ((open_stack net definitions s self d count).items s.next_instance).definition ≡ some d
  unfolding open_stack append_entry create_instance named_instance new_instance
  new-open_stack s self d count = ground arith

  new_entry :
      (s : Store) (self d c count : ℕ)
      → has_definition
          (open_stack net definitions s self d count).items
          c
          (record { instance_ref = s.next_instance; count = count })
        ≡ (d == c)
  unfolding has_definition
  new_entry s self d c count = rw (has_definition, new-open_stack s self d count) refl

  total-open_stack :
      (s : Store) (self d c count : ℕ)
      → IsReady net definitions s self
      → get_total_item_count_by_definition (open_stack net definitions s self d count) self c
        ≡ get_total_item_count_by_definition s self c + (if d == c then count else 0)
  unfolding get_total_item_count_by_definition total_of
  total-open_stack s self d c count h =
      let t = open_stack net definitions s self d count in
      let es = (s.inventories self).entries in
      rw
        (
          entries-open_stack net definitions s self d count,
          total-append t.items c es (record { instance_ref = s.next_instance; count = count } ∷ []),
          new_entry s self d c count,
          total-same s.items t.items c s.next_instance es h.below (old-open_stack s self d count),
        )
        (omega arith)

  total-start_stacks :
      (fuel : ℕ) (s : Store) (self d c left : ℕ)
      → IsReady net definitions s self
      → 1 ≤ (definitions d).max_stack_size
      → let r = start_stacks net definitions fuel s self d left in
        get_total_item_count_by_definition r.0 self c + (if d == c then r.1 else 0)
        ≡ get_total_item_count_by_definition s self c + (if d == c then left else 0)
  unfolding start_stacks
  total-start_stacks zero s self d c left h positive = refl
  total-start_stacks (suc fuel) s self d c left h positive = elim (Bool-cases (left == 0)) [
    | inl none_left ↦ rw none_left refl
    | inr some_left ↦ elim (Bool-cases (free_entry_slots (s.inventories self) == 0)) [
      | inl full ↦ rw (some_left, full) refl
      | inr room ↦
          let added = min (definitions d).max_stack_size left in
          let t = open_stack net definitions s self d added in
          let rest =
            total-start_stacks fuel t self d c (left - added)
              (IsReady-open_stack net definitions s self d added h) positive in
          let now = total-open_stack s self d c added h in
          rw (round net definitions fuel s self d left h room positive some_left)
            (ground (arith, rest, now))
    ]
  ]

  total-top_up_stacks :
      (s : Store) (self d c count : ℕ)
      → let r = top_up_stacks net definitions s self d count in
        get_total_item_count_by_definition r.0 self c + (if d == c then r.1 else 0)
        ≡ get_total_item_count_by_definition s self c + (if d == c then count else 0)
  unfolding get_total_item_count_by_definition top_up_stacks
  total-top_up_stacks s self d c count =
      let all =
        total-top_up net definitions s.items self d (definitions d).max_stack_size c
          (s.inventories self).entries count in
      rw (entries-top_up_stacks net definitions s self d count) all

  total_told :
      (t : Store) (self c : ℕ) (b : Bool)
      → get_total_item_count_by_definition
          (if b
            then t
            else emit
                (put t self (queue_flush net definitions (t.inventories self)))
                (changed self ∷ []))
          self
          c
        ≡ get_total_item_count_by_definition t self c
  unfolding get_total_item_count_by_definition queue_flush
  total_told t self c true = refl
  total_told t self c false = ground arith

  -- On the server, for a definition whose stacks hold at least one unit and a count of at most INT_MAX,
  -- `add_items` raises the inventory's total of that definition by what it returns, and leaves the
  -- total of every other definition as it was. The entries name instances that were already made.
  pub total-add_items :
      (s : Store) (self d c count : ℕ)
      → IsReady net definitions s self
      → 1 ≤ (definitions d).max_stack_size
      → count ≤ int_max
      → let r = add_items net definitions s self (some d) count in
        get_total_item_count_by_definition r.0 self c
        ≡ get_total_item_count_by_definition s self c + (if d == c then r.1 else 0)
  unfolding add_items
  total-add_items s self d c count h positive small = elim (Bool-cases (ltb count 1)) [
    | inl few ↦ rw (h.free_to, few) (ground arith)
    | inr enough ↦
        let r = top_up_stacks net definitions s self d count in
        let t = start_stacks net definitions r.1 r.0 self d r.1 in
        let first = total-top_up_stacks s self d c count in
        let second =
          total-start_stacks r.1 r.0 self d c r.1
            (IsReady-top_up_stacks net definitions s self d count h) positive in
        let left = left_over net definitions s self d count h positive small in
        rw (h.free_to, enough, total_told t.0 self c (t.1 == count))
          (ground (arith, first, second, left))
  ]
