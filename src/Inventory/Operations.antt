-- ===== src/Inventory/Operations.antt =====
-- inventory/inventory_manager_component.cpp: what changes an inventory on the server. `net` is the
-- state of the network during the call and `definitions` the item definitions by their identity. A
-- count that the source would refuse as negative is 0 here. No listener of a signal calls back.
use mathlib.Core.Option
use gfgdextension.Common.{
  ℕ, zero, suc, ◌+◌, ◌-◌, ◌*◌, ◌%◌, min, List, [], ◌∷◌, ◌++◌, Option, none, some, Bool, true, false,
  not, ◌||◌, if◌then◌else◌, ◌==◌, ltb, leb, length, get_elem?, set, remove_at, keep,
}
use gfgdextension.Inventory.Replication.{Network, is_mirror, is_sending_server}
use gfgdextension.Inventory.Store.{
  InventoryItemDefinition, InventoryItemInstance, Entry, InventoryManagerComponent, Signal,
  item_added, item_removed, stack_changed, changed, Store, put, put_item, emit, audience_of,
  find_entry_index, find_entry_index_by_id, free_entry_slots, has_definition,
  get_total_item_count_by_definition, int_max, int_size, room_of, insert_id,
}

unfoldable pub entry_count : List Entry → ℕ → ℕ
entry_count es k = Option.get_or (Option.map (λ (e : Entry). e.count) (get_elem? es k)) 0

module _ (net : Network) (definitions : ℕ → InventoryItemDefinition) where
  unfoldable pub refuses : InventoryManagerComponent → Bool
  refuses i = is_mirror net (audience_of i.replication_mode)

  unfoldable pub queue_flush : InventoryManagerComponent → InventoryManagerComponent
  queue_flush i =
      if i.flush_queued || not (is_sending_server net (audience_of i.replication_mode))
      then i
      else record i { flush_queued = true }

  -- `dirty_ids.insert(id); queue_flush();`
  abbrev pub mark : ℕ → InventoryManagerComponent → InventoryManagerComponent
  mark id i = queue_flush (record i { dirty_ids = insert_id id i.dirty_ids })

  -- The room is summed up in an int. One above INT_MAX stands for what is `int_size` less, below zero.
  unfoldable pub can_add_item_definition : Store → ℕ → Option ℕ → ℕ → Bool
  can_add_item_definition s self none count = false
  can_add_item_definition s self (some d) count =
      let i = s.inventories self in
      let max_stack = (definitions d).max_stack_size in
      let room = room_of s.items d max_stack i.entries % int_size in
      if ltb count 1
      then false
      else if ltb int_max room
      then leb (count + int_size) (room + free_entry_slots i * max_stack)
      else if leb count room
      then true
      else leb count (room + free_entry_slots i * max_stack)

  unfoldable pub new_instance : Store → ℕ → InventoryItemInstance
  new_instance s d = record {
    item_id = s.next_item_id;
    definition = some d;
    stat_tags = (definitions d).initial_stats;
    inventory_id = none;
  }

  -- The new instance, before anybody is told of it, with the stats that its fragments set.
  unfoldable pub create_instance : Store → ℕ → Store × ℕ
  create_instance s d = (
    record s {
      items = λ r. if r == s.next_instance then new_instance s d else s.items r;
      next_item_id = s.next_item_id + 1;
      next_instance = s.next_instance + 1;
    },
    s.next_instance,
  )

  -- `inventory_id` of an instance that leaves the inventory `self`.
  abbrev pub leave : ℕ → InventoryItemInstance → InventoryItemInstance
  leave self item = elim item.inventory_id [
    | none ↦ item
    | some owner ↦ if owner == self then record item { inventory_id = none } else item
  ]

  -- An index out of range, which no caller passes, would stop the engine.
  unfoldable pub remove_entry_at : Store → ℕ → ℕ → Store
  remove_entry_at s self index =
      let i = s.inventories self in
      elim (get_elem? i.entries index) [
        | none ↦ s
        | some e ↦
            let id = (s.items e.instance_ref).item_id in
            emit
              (put (put_item s e.instance_ref (leave self (s.items e.instance_ref))) self (
                queue_flush (record i {
                  entries = remove_at i.entries index;
                  dirty_ids = keep (λ k. not (k == id)) i.dirty_ids;
                  removed_ids = i.removed_ids ++ id ∷ [];
                })))
              (stack_changed self e.instance_ref e.count 0
                ∷ item_removed self e.instance_ref
                ∷ changed self
                ∷ [])
      ]

  unfoldable pub remove_item_instance : Store → ℕ → Option ℕ → Store × Bool
  remove_item_instance s self r =
      let i = s.inventories self in
      if refuses i then (s, false) else elim (find_entry_index i.entries r) [
        | none ↦ (s, false)
        | some index ↦ (remove_entry_at s self index, true)
      ]

  -- The writes of `set_stack_count` once the entry is found.
  unfoldable pub set_count_at : Store → ℕ → ℕ → Entry → ℕ → Store
  set_count_at s self index e count =
      let i = s.inventories self in
      if e.count == count
      then s
      else emit
          (put s self (
            mark (s.items e.instance_ref).item_id
              (record i { entries = set i.entries index (record e { count = count }) })))
          (stack_changed self e.instance_ref e.count count ∷ changed self ∷ [])

  unfoldable pub set_stack_count : Store → ℕ → Option ℕ → ℕ → Store
  set_stack_count s self r count =
      let i = s.inventories self in
      if refuses i then s else elim (find_entry_index i.entries r) [
        | none ↦ s
        | some index ↦
            if count == 0 then remove_entry_at s self index else elim (get_elem? i.entries index) [
              | none ↦ s
              | some e ↦ set_count_at s self index e count
            ]
      ]

  -- The instance leaves another inventory that it is in.
  unfoldable pub leave_previous : Store → ℕ → ℕ → Store
  leave_previous s self r = elim (s.items r).inventory_id [
    | none ↦ s
    | some previous ↦ if previous == self then s else (remove_item_instance s previous (some r)).0
  ]

  -- The instance as the inventory takes it in.
  unfoldable pub named_instance : Store → ℕ → ℕ → InventoryItemInstance
  named_instance s self r = record (s.items r) {
    item_id = if (s.items r).item_id == 0 then s.next_item_id else (s.items r).item_id;
    inventory_id = some self;
  }

  -- The last part of `add_item_instance`: a new entry at the end.
  unfoldable pub append_entry : Store → ℕ → ℕ → ℕ → Store
  append_entry s self r count =
      emit
        (put
          (record s {
            items = λ q. if q == r then named_instance s self r else s.items q;
            next_item_id = if (s.items r).item_id == 0 then s.next_item_id + 1 else s.next_item_id;
          })
          self
          (mark (named_instance s self r).item_id (record (s.inventories self) {
            entries =
                (s.inventories self).entries ++ record { instance_ref = r; count = count } ∷ [];
          })))
        (item_added self r count ∷ stack_changed self r 0 count ∷ changed self ∷ [])

  unfoldable pub add_item_instance : Store → ℕ → Option ℕ → ℕ → Store × Bool
  add_item_instance s self none count = (s, false)
  add_item_instance s self (some r) count =
      let i = s.inventories self in
      if refuses i
      then (s, false)
      else if ltb count 1
      then (s, false)
      else elim (find_entry_index i.entries (some r)) [
        | some existing ↦
            (set_stack_count s self (some r) (entry_count i.entries existing + count), true)
        | none ↦
            if free_entry_slots i == 0
            then (s, false)
            else (append_entry (leave_previous s self r) self r count, true)
      ]

  -- The new instance, or null.
  unfoldable pub add_item_definition : Store → ℕ → Option ℕ → ℕ → Store × Option ℕ
  add_item_definition s self none count = (s, none)
  add_item_definition s self (some d) count =
      let i = s.inventories self in
      if refuses i
      then (s, none)
      else if ltb count 1 || free_entry_slots i == 0
      then (s, none)
      else (let (s', r) = create_instance s d in
          (
            (add_item_instance s' self (some r) (min count (definitions d).max_stack_size)).0,
            some r,
          ))

  -- The first loop of `add_items`: the entries, what is left, the ids touched and the signals.
  unfoldable pub top_up :
      (ℕ → InventoryItemInstance)
      → ℕ
      → ℕ
      → ℕ
      → List Entry
      → ℕ
      → List Entry × ℕ × List ℕ × List Signal
  top_up items self d max_stack [] left = ([], left, [], [])
  top_up items self d max_stack (e ∷ es) left =
      let added = if has_definition items d e then min (max_stack - e.count) left else 0 in
      let (es', left', ids, signals) = top_up items self d max_stack es (left - added) in
      if added == 0 then (e ∷ es', left', ids, signals) else (
        record e { count = e.count + added } ∷ es',
        left',
        (items e.instance_ref).item_id ∷ ids,
        stack_changed self e.instance_ref e.count (e.count + added) ∷ signals,
      )

  -- Its second loop. A round takes at least one unit, so the units left are fuel enough.
  unfoldable pub start_stacks : ℕ → Store → ℕ → ℕ → ℕ → Store × ℕ
  start_stacks zero s self d left = (s, left)
  start_stacks (suc fuel) s self d left =
      let added = min (definitions d).max_stack_size left in
      let next =
        start_stacks fuel
          (let (s', r) = create_instance s d in (add_item_instance s' self (some r) added).0) self d
          (left - added) in
      if left == 0
      then (s, left)
      else if free_entry_slots (s.inventories self) == 0
      then (s, left)
      else next

  abbrev pub insert_ids : List ℕ → List ℕ → List ℕ
  insert_ids [] set = set
  insert_ids (id ∷ ids) set = insert_ids ids (insert_id id set)

  -- The store after the first loop, and what is left to add.
  unfoldable pub top_up_stacks : Store → ℕ → ℕ → ℕ → Store × ℕ
  top_up_stacks s self d count =
      let i = s.inventories self in
      let (es, left, ids, signals) =
        top_up s.items self d (definitions d).max_stack_size i.entries count in
      (
        emit (put s self (record i { entries = es; dirty_ids = insert_ids ids i.dirty_ids }))
            signals,
        left,
      )

  -- How many units fitted.
  unfoldable pub add_items : Store → ℕ → Option ℕ → ℕ → Store × ℕ
  add_items s self none count = (s, 0)
  add_items s self (some d) count =
      if refuses (s.inventories self)
      then (s, 0)
      else if ltb count 1
      then (s, 0)
      else (let (s', left') = top_up_stacks s self d count in
          let (t, left) = start_stacks left' s' self d left' in
          (
            (if left == count
                then t
                else emit (put t self (queue_flush (t.inventories self))) (changed self ∷ [])),
            count - left,
          ))

  -- The loop of `consume_items`, from index `i` - 1 down.
  unfoldable pub consume_from : ℕ → Store → ℕ → ℕ → ℕ → Store
  consume_from zero s self d left = s
  consume_from (suc index) s self d left =
      if left == 0 then s else elim (get_elem? (s.inventories self).entries index) [
        | none ↦ s
        | some e ↦
            let taken = if has_definition s.items d e then min e.count left else 0 in
            consume_from index
              (if has_definition s.items d e
                then set_stack_count s self (some e.instance_ref) (e.count - taken)
                else s)
              self d (left - taken)
      ]

  unfoldable pub consume_items : Store → ℕ → Option ℕ → ℕ → Store × Bool
  consume_items s self none count = (s, false)
  consume_items s self (some d) count =
      let i = s.inventories self in
      if refuses i
      then (s, false)
      else if ltb count 1
      then (s, false)
      else if ltb (get_total_item_count_by_definition s self d) count
      then (s, false)
      else (consume_from (length i.entries) s self d count, true)

  unfoldable pub clear_from : ℕ → Store → ℕ → Store
  clear_from zero s self = s
  clear_from (suc n) s self = clear_from n (remove_entry_at s self n) self

  unfoldable pub clear : Store → ℕ → Store
  clear s self =
      let i = s.inventories self in if refuses i then s else clear_from (length i.entries) s self

  unfoldable pub mark_item_dirty : Store → ℕ → Option ℕ → Store
  mark_item_dirty s self none = s
  mark_item_dirty s self (some r) =
      let i = s.inventories self in
      let id = (s.items r).item_id in
      if refuses i then s else elim (find_entry_index_by_id s.items i.entries id) [
        | none ↦ s
        | some _ ↦ emit (put s self (mark id i)) (changed self ∷ [])
      ]
