-- ===== src/Inventory/QuickBar/Scenarios.antt =====
-- A bar of three slots on a machine without a network: item 7 in slot 0, item 9 in slot 2, slot 0
-- active with its item on.
use gfgdextension.Common.{
  ℕ, suc, ◌+◌, ◌%◌, ◌≡◌, refl, [], ◌∷◌, some, none, true, false, ◌==◌, ◌<◌, arith,
}
use gfgdextension.Inventory.Replication.{Network}
use gfgdextension.Inventory.QuickBar.{
  Neighbours, QuickBarComponent, get_slot_item, get_active_slot_item, to_equip,
  apply_active_slot_index, apply_swap, add_item_to_slot, remove_item_from_slot, set_num_slots,
  running, next_occupied, slot_id,
}
use gfgdextension.Inventory.QuickBar.Equipped.{
  IsWornFrom, apply_active_slot_index-IsWornFrom, apply_swap-IsWornFrom,
}
use gfgdextension.Inventory.QuickBar.Slots.{
  add_item_to_slot-IsWornFrom, remove_item_from_slot-IsWornFrom, set_num_slots_leaves,
}
use gfgdextension.Inventory.QuickBar.Cycling.{times, next_occupied-some, next_occupied_stops}
use mathlib.Core.Option

abbrev alone : Network
alone = record {
  in_world = true;
  networked = false;
  authority = true;
  owner_peer = 1;
  connected = [];
  sender = 0;
}

abbrev around : Neighbours
around = record {
  find_item = λ id. some id;
  item_id = λ item. item;
  equippable = λ item. some 20;
  slottable = λ item. true;
  manager = some 3;
  equip_item = λ manager definition item. some 40;
  in_tree = λ manager. true;
}

abbrev bar : QuickBarComponent
bar = record {
  num_slots = 3;
  allow_no_active_slot = true;
  auto_slot_new_items = true;
  replicated = true;
  slot_ids = 7 ∷ 0 ∷ 9 ∷ [];
  active_slot_index = some 0;
  equipped = some (40, 3);
  flush_queued = false;
  subscribers = [];
  effects = [];
}

bar-IsWornFrom : IsWornFrom alone around bar
unfolding IsWornFrom to_equip get_active_slot_item get_slot_item Option.bind Option.map
bar-IsWornFrom = λ instance manager on.
    let same : 3 ≡ manager = ground (arith, on) in
    let what : 40 ≡ instance = ground (arith, on) in
    (20, 7, ground (arith, same), ground (arith, what))

apply_active_slot_index-IsWornFrom_example :
    IsWornFrom alone around (apply_active_slot_index alone around (some 2) bar)
apply_active_slot_index-IsWornFrom_example =
    apply_active_slot_index-IsWornFrom alone around (some 2) bar bar-IsWornFrom

apply_swap-IsWornFrom_example : IsWornFrom alone around (apply_swap alone around 0 1 bar)
apply_swap-IsWornFrom_example = apply_swap-IsWornFrom alone around 0 1 bar bar-IsWornFrom

add_item_to_slot-IsWornFrom_example :
    IsWornFrom alone around (add_item_to_slot alone around 1 (some 8) bar).0
add_item_to_slot-IsWornFrom_example =
    add_item_to_slot-IsWornFrom alone around 1 (some 8) bar bar-IsWornFrom

remove_item_from_slot-IsWornFrom_example :
    IsWornFrom alone around (remove_item_from_slot alone around 0 bar).0
remove_item_from_slot-IsWornFrom_example =
    remove_item_from_slot-IsWornFrom alone around 0 bar bar-IsWornFrom

set_num_slots_leaves_example :
    let small = record bar { active_slot_index = some 2 } in
    let c = set_num_slots alone around 2 small in
    (c.active_slot_index ≡ none)
    × (c.equipped ≡ some (40, 3))
    × (apply_active_slot_index alone around none c ≡ c)
set_num_slots_leaves_example =
    set_num_slots_leaves alone around 2 2 (40, 3) (record bar { active_slot_index = some 2 })
      (omega arith) (omega arith) refl refl

forward : ℕ → ℕ
forward i = (i + 1) % 3

next_occupied-some_example :
    (k : ℕ) × (2 ≡ times (suc k) forward 0)
    × ((slot_id bar.slot_ids 2 == 0) ≡ false)
    × ((j : ℕ) → j < k → (slot_id bar.slot_ids (times (suc j) forward 0) == 0) ≡ true)
unfolding next_occupied forward
next_occupied-some_example = next_occupied-some forward bar.slot_ids 0 3 0 2 refl

next_occupied_stops_example : ¬ (next_occupied 3 (λ i. (i + 1) % 3) (0 ∷ 0 ∷ 0 ∷ []) 1 1 ≡ running)
next_occupied_stops_example = next_occupied_stops 3 1 1 (0 ∷ 0 ∷ 0 ∷ []) (omega arith)
