-- ===== src/Inventory/QuickBar/Slots.antt =====
-- Putting items into slots and taking them out, and what is equipped.
use mathlib.Core.Option
use gfgdextension.Common.{
  ℕ, ◌≡◌, refl, Option, some, none, true, false, ◌==◌, leb, set, length, map, ◌≤◌, Bool-cases,
  Option-cases, inl, inr, arith,
}
use gfgdextension.Inventory.Replication.{Network}
use gfgdextension.Inventory.QuickBar.{
  Neighbours, QuickBarComponent, tell, activate, is_index, slot_id, bar_queue_flush,
  get_active_slot_item, get_slot_item, to_equip, unequip_item_in_slot, apply_active_slot_index,
  fill_slot, give_up, empty_slot, slots_changed, active_slot_changed, add_item_to_slot,
  remove_item_from_slot, reset_slots, set_num_slots, ensure_slot_count, active_within,
  bar_is_mirror, is_item_slot_free,
}
use gfgdextension.Inventory.QuickBar.Equipped.{
  IsWornFrom, bare-IsWornFrom, equip-IsWornFrom, flush-IsWornFrom, tell-IsWornFrom,
  slots-IsWornFrom, if-IsWornFrom, is_index-other, slot_id-set, equipped-unequip,
}

module _ (net : Network) (near : Neighbours) where
  -- A free slot that is active has nothing on.
  free_active :
      (i : ℕ) (b : QuickBarComponent)
      → is_item_slot_free b i ≡ true
      → is_index b.active_slot_index i ≡ true
      → to_equip net near b ≡ none
  unfolding is_item_slot_free to_equip get_active_slot_item get_slot_item Option.bind
  free_active i b free active = elim (Option-cases b.active_slot_index) [
    | inl e ↦ absurd (ground (arith, active, e))
    | inr (j, e) ↦
        let same : i ≡ j = ground (arith, active, e) in
        let empty : (slot_id b.slot_ids i == 0) ≡ true = ground (arith, free) in
        rw (e, ← same, empty) refl
  ]

  unworn :
      (b : QuickBarComponent)
      → to_equip net near b ≡ none
      → IsWornFrom net near b
      → b.equipped ≡ none
  unfolding IsWornFrom
  unworn b nothing h = elim (Option-cases b.equipped) [
    | inl e ↦ e
    | inr ((instance, manager), e) ↦ absurd (ground (arith, (h instance manager e).2, nothing))
  ]

  fill_slot-IsWornFrom :
      (i item : ℕ) (b : QuickBarComponent)
      → is_item_slot_free b i ≡ true
      → IsWornFrom net near b
      → IsWornFrom net near (fill_slot net near i item b)
  unfolding fill_slot
  fill_slot-IsWornFrom i item b free h =
      let b1 = record b { slot_ids = set b.slot_ids i (near.item_id item) } in
      elim (Bool-cases (is_index b.active_slot_index i)) [
        | inl e ↦ rw e (
            equip-IsWornFrom net near b1
              (bare-IsWornFrom net near b1 (unworn b (free_active i b free e) h)))
        | inr e ↦ rw e (
            slots-IsWornFrom net near b (set b.slot_ids i (near.item_id item))
              (λ j active.
                slot_id-set b.slot_ids i j (near.item_id item)
                  (is_index-other net near b.active_slot_index i j e active))
              h)
      ]

  -- After an item was put into a slot or refused, whatever is on is the instance that its manager hands
  -- out for the item in the active slot, if it was so before.
  pub add_item_to_slot-IsWornFrom :
      (i : ℕ) (item : Option ℕ) (b : QuickBarComponent)
      → IsWornFrom net near b
      → IsWornFrom net near (add_item_to_slot net near i item b).0
  unfolding add_item_to_slot
  add_item_to_slot-IsWornFrom i none b h = h
  add_item_to_slot-IsWornFrom i (some item) b h =
      let b1 = fill_slot net near i item b in
      elim (Bool-cases (bar_is_mirror net near b)) [
        | inl m ↦ rw m h
        | inr m ↦ elim (Bool-cases (is_item_slot_free b i)) [
          | inr f ↦ rw (m, f) h
          | inl f ↦
              rw (m, f)
                (tell-IsWornFrom net near slots_changed (bar_queue_flush net near b1)
                  (flush-IsWornFrom net near b1 (fill_slot-IsWornFrom i item b f h)))
        ]
      ]

  -- Once the slot is not the active one, or nothing is active, it can be emptied.
  empty_slot-IsWornFrom :
      (i : ℕ) (b : QuickBarComponent)
      → is_index b.active_slot_index i ≡ false
      → IsWornFrom net near b
      → IsWornFrom net near (empty_slot net near i b)
  unfolding empty_slot
  empty_slot-IsWornFrom i b other h =
      let b1 = record b { slot_ids = set b.slot_ids i 0 } in
      if-IsWornFrom net near (slot_id b.slot_ids i == 0) b (tell slots_changed b1) (λ e. h)
        (λ e. tell-IsWornFrom net near slots_changed b1 (
          slots-IsWornFrom net near b b1.slot_ids
            (λ j active.
              slot_id-set b.slot_ids i j 0
                (is_index-other net near b.active_slot_index i j other active))
            h))

  give_up-IsWornFrom :
      (i : ℕ) (b : QuickBarComponent)
      → IsWornFrom net near b
      → IsWornFrom net near (give_up net near i b)
  unfolding give_up
  give_up-IsWornFrom i b h =
      let b1 = activate none (unequip_item_in_slot net near b) in
      if-IsWornFrom net near (is_index b.active_slot_index i) (tell (active_slot_changed none) b1) b
        (λ e.
          tell-IsWornFrom net near (active_slot_changed none) b1
            (bare-IsWornFrom net near b1 (equipped-unequip net near b)))
        (λ e. h)

  give_up-other :
      (i : ℕ) (b : QuickBarComponent) → is_index (give_up net near i b).active_slot_index i ≡ false
  unfolding give_up
  give_up-other i b = elim (Bool-cases (is_index b.active_slot_index i)) [
    | inl e ↦ rw e refl
    | inr e ↦ rw e e
  ]

  -- After a slot was emptied or the call was refused, whatever is on is the instance that its manager
  -- hands out for the item in the active slot, if it was so before.
  pub remove_item_from_slot-IsWornFrom :
      (i : ℕ) (b : QuickBarComponent)
      → IsWornFrom net near b
      → IsWornFrom net near (remove_item_from_slot net near i b).0
  unfolding remove_item_from_slot
  remove_item_from_slot-IsWornFrom i b h =
      let b1 = give_up net near i b in
      let b2 = empty_slot net near i b1 in
      elim (Bool-cases (bar_is_mirror net near b)) [
        | inl m ↦ rw m h
        | inr m ↦ elim (Bool-cases (leb (length b.slot_ids) i)) [
          | inl f ↦ rw (m, f) h
          | inr f ↦
              rw (m, f)
                (flush-IsWornFrom net near b2
                  (empty_slot-IsWornFrom i b1 (give_up-other i b) (give_up-IsWornFrom i b h)))
        ]
      ]

  -- After all slots were emptied, nothing is on, unless the call was refused on a mirror.
  pub equipped-reset_slots :
      (b : QuickBarComponent)
      → bar_is_mirror net near b ≡ false
      → (reset_slots net near b).equipped ≡ none
  unfolding reset_slots bar_queue_flush
  equipped-reset_slots b here =
      let b1 = unequip_item_in_slot net near b in
      let b2 = record b1 { slot_ids = map (λ (id : ℕ). 0) b1.slot_ids; active_slot_index = none } in
      let off = equipped-unequip net near b in rw here (ground (arith, off))

  select_none-idle :
      (b : QuickBarComponent)
      → b.active_slot_index ≡ none
      → apply_active_slot_index net near none b ≡ b
  unfolding apply_active_slot_index
  select_none-idle b idle = elim (Bool-cases b.allow_no_active_slot) [
    | inl a ↦ rw (a, idle) refl
    | inr a ↦ rw (a, idle) refl
  ]

  active-set_num_slots :
      (value i : ℕ) (b : QuickBarComponent)
      → 1 ≤ value
      → value ≤ i
      → b.active_slot_index ≡ some i
      → (set_num_slots net near value b).active_slot_index ≡ none
  unfolding set_num_slots ensure_slot_count active_within bar_queue_flush
  active-set_num_slots value i b positive below active = rw active (ground arith)

  -- After the number of slots shrinks to or below the index of the active slot, no slot is active, but
  -- what was equipped is still equipped, and selecting no slot does not take it off.
  pub set_num_slots_leaves :
      (value i : ℕ) (worn : ℕ × ℕ) (b : QuickBarComponent)
      → 1 ≤ value
      → value ≤ i
      → b.active_slot_index ≡ some i
      → b.equipped ≡ some worn
      → let c = set_num_slots net near value b in
        (c.active_slot_index ≡ none)
        × (c.equipped ≡ some worn)
        × (apply_active_slot_index net near none c ≡ c)
  unfolding set_num_slots ensure_slot_count bar_queue_flush
  set_num_slots_leaves value i worn b positive below active on =
      let idle = active-set_num_slots value i b positive below active in
      (idle, ground (arith, on), select_none-idle (set_num_slots net near value b) idle)
