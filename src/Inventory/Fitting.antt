-- ===== src/Inventory/Fitting.antt =====
-- `add_items` and `can_add_item_definition`: how many units fit.
use gfgdextension.Common.{
  ℕ, zero, suc, ◌+◌, ◌-◌, ◌*◌, ◌%◌, min, ◌≡◌, refl, List, [], ◌∷◌, true, false, ◌==◌, ltb, length,
  ◌≤◌, ◌↔◌, if◌then◌else◌, arith, some, Bool-cases, inl, inr,
}
use gfgdextension.Inventory.Replication.{Network}
use gfgdextension.Inventory.Store.{
  InventoryItemDefinition, Entry, Store, free_entry_slots, int_max, int_size, room_of,
  has_definition,
}
use gfgdextension.Inventory.Operations.{
  refuses, start_stacks, top_up, top_up_stacks, add_items, can_add_item_definition,
}
use gfgdextension.Inventory.Stacks.{Items, left-top_up}
use gfgdextension.Inventory.Adding.{
  IsBelow, IsReady, round, left-start_stacks, IsReady-open_stack, limit-open_stack, open_stack,
}

module _ (net : Network) (definitions : ℕ → InventoryItemDefinition) where
  free_unlimited :
      (s : Store) (self : ℕ)
      → ((s.inventories self).max_entries == 0) ≡ true
      → (free_entry_slots (s.inventories self) == 0) ≡ false
  unfolding free_entry_slots
  free_unlimited s self unlimited = rw unlimited refl

  all_free :
      (s : Store) (self : ℕ)
      → ((s.inventories self).max_entries == 0) ≡ true
      → free_entry_slots (s.inventories self) ≡ int_max
  unfolding free_entry_slots
  all_free s self unlimited = rw unlimited refl

  left-start_stacks_unlimited :
      (fuel : ℕ) (s : Store) (self d left : ℕ)
      → left ≤ fuel
      → IsReady net definitions s self
      → 1 ≤ (definitions d).max_stack_size
      → ((s.inventories self).max_entries == 0) ≡ true
      → (start_stacks net definitions fuel s self d left).1 ≡ 0
  unfolding start_stacks
  left-start_stacks_unlimited zero s self d left enough h positive unlimited = omega arith
  left-start_stacks_unlimited (suc fuel) s self d left enough h positive unlimited =
      elim (Bool-cases (left == 0)) [
        | inl none_left ↦ rw none_left (ground arith)
        | inr some_left ↦
            let added = min (definitions d).max_stack_size left in
            rw
              (round net definitions fuel s self d left h (free_unlimited s self unlimited) positive
                some_left)
              (left-start_stacks_unlimited fuel (open_stack net definitions s self d added) self d
                (left - added) (ground arith) (IsReady-open_stack net definitions s self d added h)
                positive (rw (limit-open_stack net definitions s self d added) unlimited))
      ]

  length-top_up :
      (items : Items) (self d max_stack : ℕ) (es : List Entry) (left : ℕ)
      → length (top_up net definitions items self d max_stack es left).0 ≡ length es
  unfolding top_up
  length-top_up items self d max_stack [] left = refl
  length-top_up items self d max_stack (e ∷ es) left =
      let added = if has_definition items d e then min (max_stack - e.count) left else 0 in
      let rest = length-top_up items self d max_stack es (left - added) in ground (arith, rest)

  IsBelow-top_up :
      (n : ℕ) (items : Items) (self d max_stack : ℕ) (es : List Entry) (left : ℕ)
      → IsBelow n es
      → IsBelow n (top_up net definitions items self d max_stack es left).0
  unfolding top_up
  IsBelow-top_up n items self d max_stack [] left h = tt
  IsBelow-top_up n items self d max_stack (e ∷ es) left h =
      let added = if has_definition items d e then min (max_stack - e.count) left else 0 in
      let rest = IsBelow-top_up n items self d max_stack es (left - added) h.1 in
      elim (Bool-cases (added == 0)) [ inl z ↦ rw z (h.0, rest) | inr z ↦ rw z (h.0, rest) ]

  pub mode-top_up_stacks :
      (s : Store) (self d count : ℕ)
      → ((top_up_stacks net definitions s self d count).0.inventories self).replication_mode
        ≡ (s.inventories self).replication_mode
  unfolding top_up_stacks
  mode-top_up_stacks s self d count = ground arith

  pub limit-top_up_stacks :
      (s : Store) (self d count : ℕ)
      → ((top_up_stacks net definitions s self d count).0.inventories self).max_entries
        ≡ (s.inventories self).max_entries
  unfolding top_up_stacks
  limit-top_up_stacks s self d count = ground arith

  pub entries-top_up_stacks :
      (s : Store) (self d count : ℕ)
      → ((top_up_stacks net definitions s self d count).0.inventories self).entries
        ≡ (top_up net definitions s.items self d
            (definitions d).max_stack_size
            (s.inventories self).entries
            count).0
  unfolding top_up_stacks
  entries-top_up_stacks s self d count = ground arith

  pub next-top_up_stacks :
      (s : Store) (self d count : ℕ)
      → (top_up_stacks net definitions s self d count).0.next_instance ≡ s.next_instance
  unfolding top_up_stacks
  next-top_up_stacks s self d count = refl

  -- The store after the first loop.
  pub IsReady-top_up_stacks :
      (s : Store) (self d count : ℕ)
      → IsReady net definitions s self
      → IsReady net definitions (top_up_stacks net definitions s self d count).0 self
  unfolding refuses
  IsReady-top_up_stacks s self d count h =
      let es = (s.inventories self).entries in
      record {
        free_to = rw (mode-top_up_stacks s self d count) h.free_to;
        below =
            rw (entries-top_up_stacks s self d count, next-top_up_stacks s self d count)
              (IsBelow-top_up s.next_instance s.items self d (definitions d).max_stack_size es count
                h.below);
      }

  pub free-top_up_stacks :
      (s : Store) (self d count : ℕ)
      → free_entry_slots ((top_up_stacks net definitions s self d count).0.inventories self)
        ≡ free_entry_slots (s.inventories self)
  unfolding free_entry_slots
  free-top_up_stacks s self d count =
      rw
        (
          limit-top_up_stacks s self d count,
          entries-top_up_stacks s self d count,
          length-top_up s.items self d (definitions d).max_stack_size (s.inventories self).entries
              count,
        )
        refl

  pub left-top_up_stacks :
      (s : Store) (self d count : ℕ)
      → (top_up_stacks net definitions s self d count).1
        ≡ count - room_of s.items d (definitions d).max_stack_size (s.inventories self).entries
  unfolding top_up_stacks
  left-top_up_stacks s self d count =
      left-top_up net definitions s.items self d (definitions d).max_stack_size
        (s.inventories self).entries count

  -- The number of units that fit is what the stacks have room for, and a whole stack for each free
  -- entry.
  pub capacity : Store → ℕ → ℕ → ℕ
  capacity s self d =
      room_of s.items d (definitions d).max_stack_size (s.inventories self).entries
      + free_entry_slots (s.inventories self) * (definitions d).max_stack_size

  -- Both loops together.
  pub left_over :
      (s : Store) (self d count : ℕ)
      → IsReady net definitions s self
      → 1 ≤ (definitions d).max_stack_size
      → count ≤ int_max
      → let r = top_up_stacks net definitions s self d count in
        (start_stacks net definitions r.1 r.0 self d r.1).1 ≡ count - capacity s self d
  unfolding capacity
  left_over s self d count h positive small =
      let r = top_up_stacks net definitions s self d count in
      let h' = IsReady-top_up_stacks s self d count h in
      elim (Bool-cases ((s.inventories self).max_entries == 0)) [
        | inl unlimited ↦
            rw
              (
                left-start_stacks_unlimited r.1 r.0 self d r.1 (omega arith) h' positive
                    (rw (limit-top_up_stacks s self d count) unlimited),
                all_free s self unlimited,
              )
              (omega arith)
        | inr limited ↦
            rw
              (
                left-start_stacks net definitions r.1 (free_entry_slots (s.inventories self)) r.0
                    self d r.1 (omega arith) h' positive
                    (rw (limit-top_up_stacks s self d count) limited)
                    (free-top_up_stacks s self d count),
                left-top_up_stacks s self d count,
              )
              (omega arith)
      ]

  -- On the server, for a definition whose stacks hold at least one unit and a count of 1 to INT_MAX,
  -- `add_items` returns the smaller of the count and the capacity: the room that the stacks of the
  -- definition have left, and a full stack for each free entry. The entries name instances that were
  -- already made.
  pub add_items_lem :
      (s : Store) (self d count : ℕ)
      → IsReady net definitions s self
      → 1 ≤ (definitions d).max_stack_size
      → 1 ≤ count
      → count ≤ int_max
      → (add_items net definitions s self (some d) count).1 ≡ min count (capacity s self d)
  unfolding add_items
  add_items_lem s self d count h positive some_units small =
      let units : ltb count 1 ≡ false = ground arith in
      rw (h.free_to, units, left_over s self d count h positive small) (omega arith)

  -- Under the same conditions, and when the room that the stacks have left is INT_MAX at most,
  -- `can_add_item_definition` answers true exactly when `add_items` would take the whole count.
  pub can_add-add_items :
      (s : Store) (self d count : ℕ)
      → IsReady net definitions s self
      → 1 ≤ (definitions d).max_stack_size
      → 1 ≤ count
      → count ≤ int_max
      → room_of s.items d (definitions d).max_stack_size (s.inventories self).entries ≤ int_max
      → (can_add_item_definition net definitions s self (some d) count ≡ true)
        ↔ ((add_items net definitions s self (some d) count).1 ≡ count)
  unfolding can_add_item_definition capacity
  can_add-add_items s self d count h positive some_units small summed =
      let all = add_items_lem s self d count h positive some_units small in
      let room = room_of s.items d (definitions d).max_stack_size (s.inventories self).entries in
      let exact : room % int_size ≡ room = omega (arith, summed) in
      let signed : ltb int_max room ≡ false = ground (arith, summed) in
      rw (exact, signed) (ground (arith, all))
