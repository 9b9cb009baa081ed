-- ===== src/Inventory/Scenarios.antt =====
-- A server's inventory with two entries at most and one stack of 3 potions, of which 5 make a stack.
use gfgdextension.Common.{
  ℕ, ◌≡◌, refl, ◌↔◌, ◌+◌, min, [], ◌∷◌, some, true, false, if◌then◌else◌, ◌==◌, arith,
}
use gfgdextension.Inventory.Replication.{Network, is_mirror}
use gfgdextension.Inventory.Store.{
  InventoryItemDefinition, InventoryItemInstance, InventoryManagerComponent, Store, int_max,
  room_of, free_entry_slots, has_definition, replication_none, get_total_item_count_by_definition,
  audience_of,
}
use gfgdextension.Inventory.Operations.{
  refuses, start_stacks, top_up, top_up_stacks, add_items, can_add_item_definition,
}
use gfgdextension.Inventory.Adding.{IsReady}
use gfgdextension.Inventory.Fitting.{capacity, add_items_lem, can_add-add_items}
use gfgdextension.Inventory.Conserving.{total-add_items}

abbrev server : Network
server = record {
  in_world = true;
  networked = true;
  authority = true;
  owner_peer = 1;
  connected = [];
  sender = 0;
}

abbrev potions : ℕ → InventoryItemDefinition
potions d = record { max_stack_size = 5; initial_stats = [] }

abbrev bag : InventoryManagerComponent
bag = record {
  entries = record { instance_ref = 0; count = 3 } ∷ [];
  replication_mode = replication_none;
  max_entries = 2;
  dirty_ids = [];
  removed_ids = [];
  flush_queued = false;
  subscribers = [];
}

abbrev potion : InventoryItemInstance
potion = record { item_id = 1; definition = some 7; stat_tags = []; inventory_id = some 0 }

abbrev world : Store
world = record {
  inventories = λ i. bag;
  items = λ r. potion;
  next_item_id = 2;
  next_instance = 1;
  signals = [];
}

world-IsReady : IsReady server potions world 0
unfolding refuses audience_of is_mirror
world-IsReady = record { free_to = refl; below = (omega arith, tt) }

add_items_lem_example :
    (add_items server potions world 0 (some 7) 9).1 ≡ min 9 (capacity server potions world 0 7)
add_items_lem_example =
    add_items_lem server potions world 0 7 9 world-IsReady (omega arith) (omega arith) (omega arith)

can_add-add_items_example :
    (can_add_item_definition server potions world 0 (some 7) 9 ≡ true)
    ↔ ((add_items server potions world 0 (some 7) 9).1 ≡ 9)
unfolding room_of has_definition
can_add-add_items_example =
    can_add-add_items server potions world 0 7 9 world-IsReady (omega arith) (omega arith)
      (omega arith) (omega arith)

-- Two stacks of one potion, of which INT_MAX make a stack: the room is refused, and taken.
abbrev piles : ℕ → InventoryItemDefinition
piles d = record { max_stack_size = int_max; initial_stats = [] }

abbrev two_stacks : Store
two_stacks = record world {
  inventories = λ i. record bag {
    entries = record { instance_ref = 0; count = 1 } ∷ record { instance_ref = 0; count = 1 } ∷ [];
  };
}

room_overflows :
    (can_add_item_definition server piles two_stacks 0 (some 7) 10 ≡ false)
    × ((add_items server piles two_stacks 0 (some 7) 10).1 ≡ 10)
unfolding can_add_item_definition room_of free_entry_slots add_items top_up_stacks top_up
    start_stacks refuses has_definition audience_of is_mirror
room_overflows = (refl, refl)

total-add_items_example :
    let r = add_items server potions world 0 (some 7) 9 in
    get_total_item_count_by_definition r.0 0 7
    ≡ get_total_item_count_by_definition world 0 7 + (if 7 == 7 then r.1 else 0)
total-add_items_example =
    total-add_items server potions world 0 7 7 9 world-IsReady (omega arith) (omega arith)
