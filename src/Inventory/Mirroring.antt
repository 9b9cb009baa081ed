-- ===== src/Inventory/Mirroring.antt =====
-- inventory/inventory_manager_component.cpp and inventory_item_instance.cpp: the stats of an instance, and
-- what the server sends of an inventory and a client's mirror makes of it. The free-form `data` of an
-- instance is left out. `saved` says of a definition that it is a resource with a path, by which it
-- travels; a sent definition is the one that the client loads.
use mathlib.Core.Option
use gfgdextension.Common.{
  ℕ, suc, ◌+◌, ◌-◌, List, [], ◌∷◌, ◌++◌, map, lookup, Option, none, some, Bool, true, false, not,
  ◌&&◌, ◌||◌, if◌then◌else◌, ◌==◌, ltb, is_some, get_elem?, set, remove_at, insert, erase,
}
use gfgdextension.Names.{Name, name_dec}
use gfgdextension.Inventory.Replication.{
  Network, is_sending_server, resolve_peers, get_owner_peer, is_owner,
}
use gfgdextension.Inventory.Store.{
  InventoryItemDefinition, InventoryItemInstance, InventoryManagerComponent, Entry, Signal,
  stat_tag_changed, stack_changed, item_added, item_removed, changed, replicated_state_received,
  Store, put, put_item, emit, audience_of, find_entry_index_by_id, insert_id, has_id,
}
use gfgdextension.Inventory.Operations.{refuses, mark_item_dirty}

abbrev pub Stats : Type 0
Stats = List (Name × ℕ)

-- The state of an entry as it travels.
pub record EntryState : Type 0 where
  pub id : ℕ
  pub def : Option ℕ
  pub stats : Stats
  pub count : ℕ

pub data Message : Type 0 where
  client_update_message : ℕ → List EntryState → List ℕ → Message
  full_state_message : ℕ → List EntryState → Message

unfoldable pub stat_of : Stats → Name → ℕ
stat_of stats tag = Option.get_or (lookup name_dec tag stats) 0

unfoldable pub get_stat_tag_stack_count : Store → ℕ → Name → ℕ
get_stat_tag_stack_count s r tag = stat_of (s.items r).stat_tags tag

unfoldable pub has_stat_tag : Store → ℕ → Name → Bool
has_stat_tag s r tag = not (get_stat_tag_stack_count s r tag == 0)

module _ (net : Network) (definitions : ℕ → InventoryItemDefinition) where
  unfoldable pub can_write : Store → ℕ → Bool
  can_write s r = elim (s.items r).inventory_id [
    | none ↦ true
    | some i ↦ not (refuses net definitions (s.inventories i))
  ]

  unfoldable pub notify_changed : Store → ℕ → Store
  notify_changed s r = elim (s.items r).inventory_id [
    | none ↦ s
    | some i ↦ mark_item_dirty net definitions s i (some r)
  ]

  -- A negative count counts as 0.
  unfoldable pub set_stat_tag_stack : Store → ℕ → Name → ℕ → Store
  set_stat_tag_stack s r tag count =
      let stats = (s.items r).stat_tags in
      let stats' =
        if count == 0 then erase name_dec tag stats else insert name_dec tag count stats in
      if not (can_write s r)
      then s
      else if get_stat_tag_stack_count s r tag == count
      then s
      else notify_changed
          (emit (put_item s r (record (s.items r) { stat_tags = stats' }))
            (stat_tag_changed r tag count ∷ []))
          r

  unfoldable pub add_stat_tag_stack : Store → ℕ → Name → ℕ → Store
  add_stat_tag_stack s r tag count =
      if ltb count 1 || not (can_write s r)
      then s
      else set_stat_tag_stack s r tag (get_stat_tag_stack_count s r tag + count)

  unfoldable pub remove_stat_tag_stack : Store → ℕ → Name → ℕ → Store
  remove_stat_tag_stack s r tag count =
      if ltb count 1 || not (can_write s r)
      then s
      else set_stat_tag_stack s r tag (get_stat_tag_stack_count s r tag - count)

-- The stats that are new or differ, and those that are gone.
unfoldable pub changed_stats : ℕ → Stats → Stats → List Signal
changed_stats r old [] = []
changed_stats r old ((tag, n) ∷ stats) =
    let rest = changed_stats r old stats in
    if stat_of old tag == n then rest else stat_tag_changed r tag n ∷ rest

unfoldable pub gone_stats : ℕ → Stats → Stats → List Signal
gone_stats r new [] = []
gone_stats r new ((tag, n) ∷ stats) =
    let rest = gone_stats r new stats in
    if is_some (lookup name_dec tag new) then rest else stat_tag_changed r tag 0 ∷ rest

unfoldable pub apply_state : Store → ℕ → EntryState → Store
apply_state s r state =
    let old = (s.items r).stat_tags in
    emit (put_item s r (record (s.items r) { stat_tags = state.stats }))
      (changed_stats r old state.stats ++ gone_stats r state.stats old)

-- A new instance of the state, and its identity.
unfoldable pub deserialize : Store → EntryState → Store × ℕ
deserialize s state =
    let r = s.next_instance in
    let item : InventoryItemInstance = record {
      item_id = state.id;
      definition = state.def;
      stat_tags = [];
      inventory_id = none;
    } in
    (apply_state (record (put_item s r item) { next_instance = suc r }) r state, r)

unfoldable pub serialize_entry : (ℕ → Bool) → Store → Entry → EntryState
serialize_entry saved s e =
    let item = s.items e.instance_ref in
    record {
      id = item.item_id;
      def = Option.bind item.definition (λ (d : ℕ). if saved d then some d else none);
      stats = item.stat_tags;
      count = e.count;
    }

unfoldable pub build_full_state : (ℕ → Bool) → Store → ℕ → List EntryState
build_full_state saved s self = map (serialize_entry saved s) (s.inventories self).entries

unfoldable pub dirty_states : (ℕ → Bool) → Store → List ℕ → List Entry → List EntryState
dirty_states saved s dirty [] = []
dirty_states saved s dirty (e ∷ es) =
    let rest = dirty_states saved s dirty es in
    if has_id (s.items e.instance_ref).item_id dirty then serialize_entry saved s e ∷ rest else rest

abbrev pub is_nothing : List EntryState → List ℕ → Bool
is_nothing [] [] = true
is_nothing [] (id ∷ ids) = false
is_nothing (e ∷ es) ids = false

abbrev pub flushed : InventoryManagerComponent → InventoryManagerComponent
flushed i = record i { flush_queued = false; dirty_ids = []; removed_ids = [] }

-- The store after a flush, and the updates sent.
unfoldable pub flush_replication : Network → (ℕ → Bool) → Store → ℕ → Store × List Message
flush_replication net saved s self =
    let i = s.inventories self in
    let states = dirty_states saved s i.dirty_ids i.entries in
    let (peers, kept) = resolve_peers net (audience_of i.replication_mode) i.subscribers in
    if not (is_sending_server net (audience_of i.replication_mode))
    then (put s self (flushed i), [])
    else if is_nothing states i.removed_ids
    then (put s self (flushed i), [])
    else (
      put s self (record (flushed i) { subscribers = kept }),
      map (λ (peer : ℕ). client_update_message peer states i.removed_ids) peers,
    )

unfoldable pub server_request_full_state : Network → (ℕ → Bool) → Store → ℕ → Store × List Message
server_request_full_state net saved s self =
    let i = s.inventories self in
    let audience = audience_of i.replication_mode in
    if not (is_sending_server net audience)
    then (s, [])
    else if net.sender == 0
    then (s, [])
    else if is_owner audience && not (net.sender == get_owner_peer net)
    then (s, [])
    else (
      put s self (record i { subscribers = insert_id net.sender i.subscribers }),
      full_state_message net.sender (build_full_state saved s self) ∷ [],
    )

-- The entry at an index that the search gave, updated.
unfoldable pub update_entry : Store → ℕ → ℕ → Entry → EntryState → Store
update_entry s self index e state =
    let s1 = apply_state s e.instance_ref state in
    let i = s1.inventories self in
    if e.count == state.count
    then s1
    else emit
        (put s1 self
          (record i { entries = set i.entries index (record e { count = state.count }) }))
        (stack_changed self e.instance_ref e.count state.count ∷ [])

unfoldable pub append_state : Store → ℕ → EntryState → Store
append_state s self state =
    let (s1, r) = deserialize s state in
    let s2 = put_item s1 r (record (s1.items r) { inventory_id = some self }) in
    let i = s2.inventories self in
    emit
      (put s2 self
        (record i { entries = i.entries ++ record { instance_ref = r; count = state.count } ∷ [] }))
      (item_added self r state.count ∷ stack_changed self r 0 state.count ∷ [])

unfoldable pub apply_entry : Store → ℕ → EntryState → Store
apply_entry s self state =
    let entries = (s.inventories self).entries in
    elim (find_entry_index_by_id s.items entries state.id) [
      | none ↦ append_state s self state
      | some index ↦ elim (get_elem? entries index) [
        | none ↦ s
        | some e ↦ update_entry s self index e state
      ]
    ]

unfoldable pub remove_id : Store → ℕ → ℕ → Store
remove_id s self id =
    let i = s.inventories self in
    elim (find_entry_index_by_id s.items i.entries id) [
      | none ↦ s
      | some index ↦ elim (get_elem? i.entries index) [
        | none ↦ s
        | some e ↦
            emit
              (put_item (put s self (record i { entries = remove_at i.entries index }))
                e.instance_ref (record (s.items e.instance_ref) { inventory_id = none }))
              (stack_changed self e.instance_ref e.count 0 ∷ item_removed self e.instance_ref ∷ [])
      ]
    ]

unfoldable pub remove_ids : List ℕ → Store → ℕ → Store
remove_ids [] s self = s
remove_ids (id ∷ ids) s self = remove_ids ids (remove_id s self id) self

unfoldable pub apply_entries : List EntryState → Store → ℕ → Store
apply_entries [] s self = s
apply_entries (e ∷ es) s self = apply_entries es (apply_entry s self e) self

unfoldable pub client_update : List EntryState → List ℕ → Store → ℕ → Store
client_update states removed s self =
    emit (apply_entries states (remove_ids removed s self) self) (changed self ∷ [])

-- The ids of the entries that the server does not list.
unfoldable pub stale_ids : (ℕ → InventoryItemInstance) → List ℕ → List Entry → List ℕ
stale_ids items kept [] = []
stale_ids items kept (e ∷ es) =
    let id = (items e.instance_ref).item_id in
    let rest = stale_ids items kept es in if has_id id kept then rest else id ∷ rest

unfoldable pub client_receive_full_state : List EntryState → Store → ℕ → Store
client_receive_full_state states s self =
    let kept = map (λ (e : EntryState). e.id) states in
    emit (client_update states (stale_ids s.items kept (s.inventories self).entries) s self)
      (replicated_state_received self ∷ [])
