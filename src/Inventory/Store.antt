-- ===== src/Inventory/Store.antt =====
-- inventory/inventory_manager_component.{h,cpp}, with the parts of inventory_item_instance and
-- inventory_item_definition that it works on. Inventories and item instances are shared objects, so
-- they stand in a store under their identities. Counts and ids stay below the limits of their types.
use mathlib.Core.Option
use gfgdextension.Common.{
  ℕ, suc, ◌+◌, ◌-◌, List, [], ◌∷◌, ◌++◌, map, Option, none, some, Bool, false, ◌||◌, if◌then◌else◌,
  ◌==◌, ite, length, get_elem?, ℕ_discrete,
}
use gfgdextension.Names.{Name}
use gfgdextension.Inventory.Replication.{Audience, audience_none, audience_owner, audience_everyone}

pub record InventoryItemDefinition : Type 0 where
  pub max_stack_size : ℕ
  pub initial_stats : List (Name × ℕ)

-- `MAX(value, 1)`.
pub set_max_stack_size : ℕ → InventoryItemDefinition → InventoryItemDefinition
set_max_stack_size value d = record d { max_stack_size = if value == 0 then 1 else value }

-- `definition` is the identity of an InventoryItemDefinition; `inventory_id` that of the inventory.
pub record InventoryItemInstance : Type 0 where
  pub item_id : ℕ
  pub definition : Option ℕ
  pub stat_tags : List (Name × ℕ)
  pub inventory_id : Option ℕ

pub record Entry : Type 0 where
  pub instance_ref : ℕ
  pub count : ℕ

pub data ReplicationMode : Type 0 where
  replication_none replication_owner replication_everyone : ReplicationMode

pub record InventoryManagerComponent : Type 0 where
  pub entries : List Entry
  pub replication_mode : ReplicationMode
  pub max_entries : ℕ
  pub dirty_ids : List ℕ
  pub removed_ids : List ℕ
  pub flush_queued : Bool
  pub subscribers : List ℕ

pub data Signal : Type 0 where
  item_added : ℕ → ℕ → ℕ → Signal
  item_removed : ℕ → ℕ → Signal
  stack_changed : ℕ → ℕ → ℕ → ℕ → Signal
  changed : ℕ → Signal
  stat_tag_changed : ℕ → Name → ℕ → Signal
  replicated_state_received : ℕ → Signal

-- `signals` lists what was emitted, oldest first, with the emitter's identity in front.
pub record Store : Type 0 where
  pub inventories : ℕ → InventoryManagerComponent
  pub items : ℕ → InventoryItemInstance
  pub next_item_id : ℕ
  pub next_instance : ℕ
  pub signals : List Signal

abbrev pub update : {A : Type 0} → (ℕ → A) → ℕ → A → ℕ → A
update f k v j = ite (ℕ_discrete j k) v (f j)

abbrev pub put : Store → ℕ → InventoryManagerComponent → Store
put s self i = record s { inventories = update s.inventories self i }

abbrev pub put_item : Store → ℕ → InventoryItemInstance → Store
put_item s r item = record s { items = update s.items r item }

abbrev pub emit : Store → List Signal → Store
emit s new = record s { signals = s.signals ++ new }

unfoldable pub audience_of : ReplicationMode → Audience
audience_of replication_none = audience_none
audience_of replication_owner = audience_owner
audience_of replication_everyone = audience_everyone

-- `INT_MAX`.
abbrev pub int_max : ℕ
int_max = 2147483647

-- The number of values of an int, at which its sums wrap around.
abbrev pub int_size : ℕ
int_size = 4294967296

-- `MAX(value, 0)`: a negative value counts as 0.
pub set_max_entries : ℕ → InventoryManagerComponent → InventoryManagerComponent
set_max_entries value i = record i { max_entries = value }

-- `none` for -1, also for a null instance.
unfoldable pub find_entry_index : List Entry → Option ℕ → Option ℕ
find_entry_index entries none = none
find_entry_index [] (some r) = none
find_entry_index (e ∷ es) (some r) =
    let rest = Option.map suc (find_entry_index es (some r)) in
    if e.instance_ref == r then some 0 else rest

unfoldable pub find_entry_index_by_id : (ℕ → InventoryItemInstance) → List Entry → ℕ → Option ℕ
find_entry_index_by_id items [] item_id = none
find_entry_index_by_id items (e ∷ es) item_id =
    let rest = Option.map suc (find_entry_index_by_id items es item_id) in
    if (items e.instance_ref).item_id == item_id then some 0 else rest

unfoldable pub free_entry_slots : InventoryManagerComponent → ℕ
free_entry_slots i = if i.max_entries == 0 then int_max else i.max_entries - length i.entries

pub get_all_items : InventoryManagerComponent → List ℕ
get_all_items i = map (λ (e : Entry). e.instance_ref) i.entries

pub get_stack_count : InventoryManagerComponent → Option ℕ → ℕ
get_stack_count i r =
    Option.get_or
      (Option.map (λ (e : Entry). e.count)
        (Option.bind (find_entry_index i.entries r) (get_elem? i.entries)))
      0

unfoldable pub find_item_by_id : Store → ℕ → ℕ → Option ℕ
find_item_by_id s self item_id =
    let entries = (s.inventories self).entries in
    Option.map (λ (e : Entry). e.instance_ref)
      (Option.bind (find_entry_index_by_id s.items entries item_id) (get_elem? entries))

-- `instance->get_item_definition() == definition`, for a definition that is not null.
unfoldable pub has_definition : (ℕ → InventoryItemInstance) → ℕ → Entry → Bool
has_definition items d e = elim (items e.instance_ref).definition [ none ↦ false | some c ↦ c == d ]

pub find_first_item_stack_by_definition : (ℕ → InventoryItemInstance) → List Entry → ℕ → Option ℕ
find_first_item_stack_by_definition items [] d = none
find_first_item_stack_by_definition items (e ∷ es) d =
    let rest = find_first_item_stack_by_definition items es d in
    if has_definition items d e then some e.instance_ref else rest

unfoldable pub total_of : (ℕ → InventoryItemInstance) → ℕ → List Entry → ℕ
total_of items d [] = 0
total_of items d (e ∷ es) = (if has_definition items d e then e.count else 0) + total_of items d es

unfoldable pub get_total_item_count_by_definition : Store → ℕ → ℕ → ℕ
get_total_item_count_by_definition s self d = total_of s.items d (s.inventories self).entries

-- The first inventory of the group that holds the id. Id 0 names no item.
pub find_item_anywhere : Store → List ℕ → ℕ → Option ℕ
find_item_anywhere s [] item_id = none
find_item_anywhere s (i ∷ inventories) item_id =
    let rest = find_item_anywhere s inventories item_id in
    if item_id == 0
    then none
    else elim (find_item_by_id s i item_id) [ some r ↦ some r | none ↦ rest ]

-- The room that the stacks of the definition have left.
unfoldable pub room_of : (ℕ → InventoryItemInstance) → ℕ → ℕ → List Entry → ℕ
room_of items d max_stack [] = 0
room_of items d max_stack (e ∷ es) =
    (if has_definition items d e then max_stack - e.count else 0) + room_of items d max_stack es

-- `HashSet::insert`.
unfoldable pub insert_id : ℕ → List ℕ → List ℕ
insert_id k [] = k ∷ []
insert_id k (j ∷ js) = let rest = insert_id k js in if j == k then j ∷ js else j ∷ rest

unfoldable pub has_id : ℕ → List ℕ → Bool
has_id k [] = false
has_id k (j ∷ js) = j == k || has_id k js
