-- ===== src/Inventory/Adding.antt =====
-- `add_items`: its second loop opens stacks of new instances while there are units and free entries.
use gfgdextension.Common.{
  ℕ, zero, suc, ◌-◌, ◌*◌, min, ◌≡◌, refl, List, [], ◌∷◌, ◌++◌, true, false, ◌==◌, ltb, length, ◌<◌,
  ◌≤◌, arith, some, none, Bool-cases, inl, inr, length-append,
}
use gfgdextension.Inventory.Replication.{Network}
use gfgdextension.Inventory.Store.{
  InventoryItemDefinition, Entry, Store, find_entry_index, free_entry_slots,
}
use gfgdextension.Inventory.Operations.{
  refuses, add_item_instance, create_instance, start_stacks, append_entry, leave_previous,
  new_instance, queue_flush,
}

-- Every entry names an instance that was already made.
abbrev pub IsBelow : ℕ → List Entry → Type 0
IsBelow n [] = Unit
IsBelow n (e ∷ es) = (e.instance_ref < n) × IsBelow n es

IsBelow-suc : (n : ℕ) (es : List Entry) → IsBelow n es → IsBelow (suc n) es
IsBelow-suc n [] h = tt
IsBelow-suc n (e ∷ es) h = (omega (arith, h.0), IsBelow-suc n es h.1)

IsBelow-append :
    (n r k : ℕ) (es : List Entry)
    → IsBelow n es
    → r < n
    → IsBelow n (es ++ record { instance_ref = r; count = k } ∷ [])
IsBelow-append n r k [] h lt = (lt, tt)
IsBelow-append n r k (e ∷ es) h lt = (h.0, IsBelow-append n r k es h.1 lt)

find-new : (n : ℕ) (es : List Entry) → IsBelow n es → find_entry_index es (some n) ≡ none
unfolding find_entry_index
find-new n [] h = refl
find-new n (e ∷ es) h = rw (find-new n es h.1) (ground (arith, h.0))

pub eq_self : (n : ℕ) → (n == n) ≡ true
eq_self n = ground arith

module _ (net : Network) (definitions : ℕ → InventoryItemDefinition) where
  -- What the loop does in a round that has units left and a free entry.
  unfoldable pub open_stack : Store → ℕ → ℕ → ℕ → Store
  open_stack s self d count =
      append_entry net definitions (create_instance net definitions s d).0 self s.next_instance
        count

  stays :
      (s : Store) (self r : ℕ)
      → (s.items r).inventory_id ≡ none
      → leave_previous net definitions s self r ≡ s
  unfolding leave_previous
  stays s self r nowhere = rw (leave_previous, nowhere) refl

  new-inventory :
      (s : Store) (d : ℕ)
      → ((create_instance net definitions s d).0.items s.next_instance).inventory_id ≡ none
  unfolding create_instance new_instance
  new-inventory s d = rw (eq_self s.next_instance) refl

  -- The guards of `add_item_instance` are passed by a new instance.
  add-create :
      (s : Store) (self d count : ℕ)
      → refuses net definitions (s.inventories self) ≡ false
      → (free_entry_slots (s.inventories self) == 0) ≡ false
      → IsBelow s.next_instance (s.inventories self).entries
      → ltb count 1 ≡ false
      → (add_item_instance net definitions
          (create_instance net definitions s d).0
          self
          (some (create_instance net definitions s d).1)
          count).0
        ≡ open_stack s self d count
  unfolding add_item_instance create_instance open_stack
  add-create s self d count free_to room below some_units =
      rw
        (
          free_to,
          some_units,
          find-new s.next_instance (s.inventories self).entries below,
          room,
          stays (create_instance net definitions s d).0 self s.next_instance (new-inventory s d),
        )
        refl

  pub entries-open_stack :
      (s : Store) (self d count : ℕ)
      → ((open_stack s self d count).inventories self).entries
        ≡ (s.inventories self).entries
          ++ record { instance_ref = s.next_instance; count = count } ∷ []
  unfolding open_stack append_entry create_instance queue_flush
  entries-open_stack s self d count = ground arith

  mode-open_stack :
      (s : Store) (self d count : ℕ)
      → ((open_stack s self d count).inventories self).replication_mode
        ≡ (s.inventories self).replication_mode
  unfolding open_stack append_entry create_instance queue_flush
  mode-open_stack s self d count = ground arith

  pub limit-open_stack :
      (s : Store) (self d count : ℕ)
      → ((open_stack s self d count).inventories self).max_entries
        ≡ (s.inventories self).max_entries
  unfolding open_stack append_entry create_instance queue_flush
  limit-open_stack s self d count = ground arith

  next-open_stack :
      (s : Store) (self d count : ℕ)
      → (open_stack s self d count).next_instance ≡ suc s.next_instance
  unfolding open_stack append_entry create_instance
  next-open_stack s self d count = omega arith

  -- What the loop needs: the server, ids that were given out, entries that are limited in number.
  pub record IsReady (s : Store) (self : ℕ) : Type 0 where
    pub free_to : refuses net definitions (s.inventories self) ≡ false
    pub below : IsBelow s.next_instance (s.inventories self).entries

  pub IsReady-open_stack :
      (s : Store) (self d count : ℕ) → IsReady s self → IsReady (open_stack s self d count) self
  unfolding refuses
  IsReady-open_stack s self d count h = record {
    free_to = rw (mode-open_stack s self d count) h.free_to;
    below =
        rw (entries-open_stack s self d count, next-open_stack s self d count)
          (IsBelow-append (suc s.next_instance) s.next_instance count (s.inventories self).entries
            (IsBelow-suc s.next_instance (s.inventories self).entries h.below) (omega arith));
  }

  -- A free entry is used up, unless entries are not limited.
  free-open_stack :
      (s : Store) (self d count k : ℕ)
      → ((s.inventories self).max_entries == 0) ≡ false
      → free_entry_slots (s.inventories self) ≡ suc k
      → free_entry_slots ((open_stack s self d count).inventories self) ≡ k
  unfolding free_entry_slots
  free-open_stack s self d count k limited free =
      let n =
        length-append (s.inventories self).entries
          (record { instance_ref = s.next_instance; count = count } ∷ []) in
      let free' : (s.inventories self).max_entries - length (s.inventories self).entries ≡ suc k =
        ground (arith, free) in
      rw (limit-open_stack s self d count, entries-open_stack s self d count, limited, n)
        (omega (arith, free'))

  -- One round.
  pub round :
      (fuel : ℕ) (s : Store) (self d left : ℕ)
      → IsReady s self
      → (free_entry_slots (s.inventories self) == 0) ≡ false
      → 1 ≤ (definitions d).max_stack_size
      → (left == 0) ≡ false
      → start_stacks net definitions (suc fuel) s self d left
        ≡ start_stacks net definitions fuel
            (open_stack s self d (min (definitions d).max_stack_size left))
            self
            d
            (left - min (definitions d).max_stack_size left)
  unfolding start_stacks
  round fuel s self d left h room positive some_left =
      rw
        (
          some_left,
          room,
          add-create s self d (min (definitions d).max_stack_size left) h.free_to room h.below
              (ground arith),
        )
        refl

  pub left-start_stacks :
      (fuel k : ℕ) (s : Store) (self d left : ℕ)
      → left ≤ fuel
      → IsReady s self
      → 1 ≤ (definitions d).max_stack_size
      → ((s.inventories self).max_entries == 0) ≡ false
      → free_entry_slots (s.inventories self) ≡ k
      → (start_stacks net definitions fuel s self d left).1
        ≡ left - k * (definitions d).max_stack_size
  unfolding start_stacks
  left-start_stacks zero k s self d left enough h positive limited free = omega arith
  left-start_stacks (suc fuel) zero s self d left enough h positive limited free =
      rw free (ground arith)
  left-start_stacks (suc fuel) (suc k) s self d left enough h positive limited free =
      elim (Bool-cases (left == 0)) [
        | inl none_left ↦ rw none_left (ground arith)
        | inr some_left ↦
            let added = min (definitions d).max_stack_size left in
            let rest =
              left-start_stacks fuel k (open_stack s self d added) self d (left - added)
                (ground arith) (IsReady-open_stack s self d added h) positive
                (rw (limit-open_stack s self d added) limited)
                (free-open_stack s self d added k limited free) in
            rw (round fuel s self d left h (rw free (ground arith)) positive some_left, rest)
              (omega arith)
      ]
