-- ===== src/Inventory/QuickBar.antt =====
-- inventory/quick_bar_component.{h,cpp}: slots of item ids, the active slot and what it put on. The
-- inventory and the equipment manager that the bar finds beside it are arguments. `none` stands for
-- -1, a slot with id 0 is empty, and the negative indices that guards refuse are left out.
pub mod Messages
pub mod Equipped
pub mod Slots
pub mod Cycling
mod Scenarios
use mathlib.Core.Option
use gfgdextension.Common.{
  ℕ, zero, suc, ◌+◌, ◌-◌, ◌%◌, List, [], ◌∷◌, ◌++◌, map, Option, none, some, Bool, true, false, not,
  ◌&&◌, ◌||◌, if◌then◌else◌, ◌==◌, ltb, leb, length, get_elem?, set, take, replicate, is_some,
}
use gfgdextension.Inventory.Replication.{
  Audience, audience_owner, audience_none, Network, is_mirror, is_sending_server, resolve_peers,
  sender_is_owner, get_owner_peer,
}
use gfgdextension.Inventory.Store.{insert_id}

-- What the bar reads of its neighbours. `find_item` finds the instance with an id in the inventory;
-- `equippable` is the equipment definition of an instance, `manager` the manager of the pawn, and
-- `equip_item` what it hands out. `in_tree` says of a manager that it is still there.
pub record Neighbours : Type 0 where
  pub find_item : ℕ → Option ℕ
  pub item_id : ℕ → ℕ
  pub equippable : ℕ → Option ℕ
  pub slottable : ℕ → Bool
  pub manager : Option ℕ
  pub equip_item : ℕ → ℕ → ℕ → Option ℕ
  pub in_tree : ℕ → Bool

-- What a call tells others, in order.
pub data Effect : Type 0 where
  equip : ℕ → ℕ → ℕ → Effect
  unequip : ℕ → ℕ → Effect
  slots_changed : Effect
  active_slot_changed : Option ℕ → Effect
  ask_active_slot : Option ℕ → Effect
  ask_swap : ℕ → ℕ → Effect
  send_state : ℕ → List ℕ → Option ℕ → Effect

-- `equipped` is the instance with the manager that holds it.
pub record QuickBarComponent : Type 0 where
  pub num_slots : ℕ
  pub allow_no_active_slot : Bool
  pub auto_slot_new_items : Bool
  pub replicated : Bool
  pub slot_ids : List ℕ
  pub active_slot_index : Option ℕ
  pub equipped : Option (ℕ × ℕ)
  pub flush_queued : Bool
  pub subscribers : List ℕ
  pub effects : List Effect

unfoldable pub bar_audience : Bool → Audience
bar_audience replicated = if replicated then audience_owner else audience_none

abbrev pub tell : Effect → QuickBarComponent → QuickBarComponent
tell e b = record b { effects = b.effects ++ e ∷ [] }

abbrev pub slot_id : List ℕ → ℕ → ℕ
slot_id slots i = Option.get_or (get_elem? slots i) 0

abbrev pub is_index : Option ℕ → ℕ → Bool
is_index none i = false
is_index (some j) i = i == j

-- The active index that the new number of slots leaves.
unfoldable pub active_within : ℕ → Option ℕ → Option ℕ
active_within n none = none
active_within n (some i) = if leb n i then none else some i

unfoldable pub ensure_slot_count : QuickBarComponent → QuickBarComponent
ensure_slot_count b = record b {
  slot_ids = take b.num_slots (b.slot_ids ++ replicate (b.num_slots - length b.slot_ids) 0);
  active_slot_index = active_within b.num_slots b.active_slot_index;
}

-- The first empty slot from index `i` on.
unfoldable pub free_from : ℕ → List ℕ → Option ℕ
free_from i [] = none
free_from i (id ∷ ids) = let rest = free_from (suc i) ids in if id == 0 then some i else rest

unfoldable pub get_next_free_item_slot : QuickBarComponent → Option ℕ
get_next_free_item_slot b = free_from 0 b.slot_ids

unfoldable pub is_item_slot_free : QuickBarComponent → ℕ → Bool
is_item_slot_free b i = ltb i (length b.slot_ids) && slot_id b.slot_ids i == 0

unfoldable pub slot_from : ℕ → ℕ → List ℕ → Option ℕ
slot_from i id [] = none
slot_from i id (s ∷ ids) = let rest = slot_from (suc i) id ids in if s == id then some i else rest

-- What a search ends with: a slot with an item, no slot once it is back at the start, or out of rounds
-- while it still runs.
pub data Search : Type 0 where
  found : ℕ → Search
  stopped running : Search

-- The items that hold a slot, from the last one seen at `start` on. A round moves one slot on, so
-- as many rounds as slots come back to the start.
unfoldable pub next_occupied : ℕ → (ℕ → ℕ) → List ℕ → ℕ → ℕ → Search
next_occupied zero step slots start index = running
next_occupied (suc fuel) step slots start index =
    let i = step index in
    let rest = next_occupied fuel step slots start i in
    if not (slot_id slots i == 0) then found i else if i == start then stopped else rest

abbrev pub activate : Option ℕ → QuickBarComponent → QuickBarComponent
activate i b = record b { active_slot_index = i }

unfoldable pub swapped : ℕ → ℕ → List ℕ → List ℕ
swapped from to slots = set (set slots from (slot_id slots to)) to (slot_id slots from)

module _ (net : Network) (near : Neighbours) where
  unfoldable pub bar_is_mirror : QuickBarComponent → Bool
  bar_is_mirror b = is_mirror net (bar_audience b.replicated)

  unfoldable pub bar_queue_flush : QuickBarComponent → QuickBarComponent
  bar_queue_flush b =
      if b.flush_queued || not (is_sending_server net (bar_audience b.replicated))
      then b
      else record b { flush_queued = true }

  -- For a tree that the bar is in, outside the editor.
  unfoldable pub set_num_slots : ℕ → QuickBarComponent → QuickBarComponent
  set_num_slots value b = tell slots_changed (
      bar_queue_flush
        (ensure_slot_count (record b { num_slots = if value == 0 then 1 else value })))

  unfoldable pub get_slot_item : QuickBarComponent → Option ℕ → Option ℕ
  get_slot_item b none = none
  get_slot_item b (some i) =
      if slot_id b.slot_ids i == 0 then none else near.find_item (slot_id b.slot_ids i)

  unfoldable pub get_active_slot_item : QuickBarComponent → Option ℕ
  get_active_slot_item b = get_slot_item b b.active_slot_index

  unfoldable pub slots_items : QuickBarComponent → ℕ → List ℕ → List (Option ℕ)
  slots_items b i [] = []
  slots_items b i (id ∷ ids) = get_slot_item b (some i) ∷ slots_items b (suc i) ids

  unfoldable pub get_slots : QuickBarComponent → List (Option ℕ)
  get_slots b = slots_items b 0 b.slot_ids

  unfoldable pub find_slot_of_item : QuickBarComponent → Option ℕ → Option ℕ
  find_slot_of_item b none = none
  find_slot_of_item b (some item) = slot_from 0 (near.item_id item) b.slot_ids

  -- What equipping puts on: the manager, the definition and the item.
  unfoldable pub to_equip : QuickBarComponent → Option (ℕ × ℕ × ℕ)
  to_equip b = Option.bind (get_active_slot_item b) (λ (item : ℕ).
      Option.bind (near.equippable item) (λ (definition : ℕ).
        Option.map (λ (manager : ℕ). (manager, definition, item)) near.manager))

  abbrev pub equip_found : Option (ℕ × ℕ × ℕ) → QuickBarComponent → QuickBarComponent
  equip_found none b = b
  equip_found (some (manager, definition, item)) b =
      tell (equip manager definition item) (record b {
        equipped =
            Option.map (λ (instance : ℕ). (instance, manager))
              (near.equip_item manager definition item);
      })

  unfoldable pub equip_item_in_slot : QuickBarComponent → QuickBarComponent
  equip_item_in_slot b = if is_some b.equipped then b else equip_found (to_equip b) b

  abbrev pub take_off : Option (ℕ × ℕ) → QuickBarComponent → QuickBarComponent
  take_off none b = b
  take_off (some (instance, manager)) b =
      let b1 = if near.in_tree manager then tell (unequip manager instance) b else b in
      record b1 { equipped = none }

  unfoldable pub unequip_item_in_slot : QuickBarComponent → QuickBarComponent
  unequip_item_in_slot b = take_off b.equipped b

  unfoldable pub tell_active : QuickBarComponent → QuickBarComponent
  tell_active b = let c = bar_queue_flush b in tell (active_slot_changed c.active_slot_index) c

  unfoldable pub apply_active_slot_index : Option ℕ → QuickBarComponent → QuickBarComponent
  apply_active_slot_index none b =
      if not b.allow_no_active_slot || not (is_some b.active_slot_index)
      then b
      else tell_active (activate none (unequip_item_in_slot b))
  apply_active_slot_index (some i) b =
      if leb (length b.slot_ids) i || is_index b.active_slot_index i
      then b
      else tell_active (equip_item_in_slot (activate (some i) (unequip_item_in_slot b)))

  unfoldable pub set_active_slot_index : Option ℕ → QuickBarComponent → QuickBarComponent
  set_active_slot_index i b =
      if bar_is_mirror b then tell (ask_active_slot i) b else apply_active_slot_index i b

  abbrev pub activate_found : Search → QuickBarComponent → QuickBarComponent
  activate_found stopped b = b
  activate_found running b = b
  activate_found (found i) b = set_active_slot_index (some i) b

  unfoldable pub cycle_active_slot_forward : QuickBarComponent → QuickBarComponent
  cycle_active_slot_forward b =
      let size = length b.slot_ids in
      let start = Option.get_or b.active_slot_index (size - 1) in
      if ltb size 2
      then b
      else activate_found (next_occupied size (λ i. (i + 1) % size) b.slot_ids start start) b

  -- The bar has two slots at least, so the subtraction does not stop at 0.
  unfoldable pub cycle_active_slot_backward : QuickBarComponent → QuickBarComponent
  cycle_active_slot_backward b =
      let size = length b.slot_ids in
      let start = Option.get_or b.active_slot_index 0 in
      if ltb size 2
      then b
      else activate_found (next_occupied size (λ i. (i + (size - 1)) % size) b.slot_ids start start)
          b

  -- The swap once its indices are checked. What is equipped changes when the active slot takes part.
  unfoldable pub exchange : ℕ → ℕ → QuickBarComponent → QuickBarComponent
  exchange from to b =
      let touches_active = is_index b.active_slot_index from || is_index b.active_slot_index to in
      let b1 = if touches_active then unequip_item_in_slot b else b in
      let b2 = record b1 { slot_ids = swapped from to b1.slot_ids } in
      if touches_active then equip_item_in_slot b2 else b2

  unfoldable pub apply_swap : ℕ → ℕ → QuickBarComponent → QuickBarComponent
  apply_swap from to b =
      if from == to || leb (length b.slot_ids) from || leb (length b.slot_ids) to
      then b
      else tell slots_changed (bar_queue_flush (exchange from to b))

  unfoldable pub swap_slots : ℕ → ℕ → QuickBarComponent → QuickBarComponent
  swap_slots from to b = if bar_is_mirror b then tell (ask_swap from to) b else apply_swap from to b

  unfoldable pub fill_slot : ℕ → ℕ → QuickBarComponent → QuickBarComponent
  fill_slot i item b =
      let b1 = record b { slot_ids = set b.slot_ids i (near.item_id item) } in
      if is_index b.active_slot_index i then equip_item_in_slot b1 else b1

  unfoldable pub add_item_to_slot : ℕ → Option ℕ → QuickBarComponent → QuickBarComponent × Bool
  add_item_to_slot i none b = (b, false)
  add_item_to_slot i (some item) b =
      if bar_is_mirror b
      then (b, false)
      else if not (is_item_slot_free b i)
      then (b, false)
      else (tell slots_changed (bar_queue_flush (fill_slot i item b)), true)

  -- The active slot is given up when it is the one to empty.
  unfoldable pub give_up : ℕ → QuickBarComponent → QuickBarComponent
  give_up i b =
      if is_index b.active_slot_index i
      then tell (active_slot_changed none) (activate none (unequip_item_in_slot b))
      else b

  unfoldable pub empty_slot : ℕ → QuickBarComponent → QuickBarComponent
  empty_slot i b =
      if slot_id b.slot_ids i == 0
      then b
      else tell slots_changed (record b { slot_ids = set b.slot_ids i 0 })

  -- The bar without the slot's item, and the item.
  unfoldable pub remove_item_from_slot : ℕ → QuickBarComponent → QuickBarComponent × Option ℕ
  remove_item_from_slot i b =
      if bar_is_mirror b
      then (b, none)
      else if leb (length b.slot_ids) i
      then (b, none)
      else (bar_queue_flush (empty_slot i (give_up i b)), get_slot_item b (some i))

  unfoldable pub reset_slots : QuickBarComponent → QuickBarComponent
  reset_slots b =
      let b1 = unequip_item_in_slot b in
      let b2 = record b1 { slot_ids = map (λ (id : ℕ). 0) b1.slot_ids; active_slot_index = none } in
      if bar_is_mirror b
      then b
      else tell (active_slot_changed none) (tell slots_changed (bar_queue_flush b2))
