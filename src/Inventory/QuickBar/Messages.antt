-- ===== src/Inventory/QuickBar/Messages.antt =====
-- inventory/quick_bar_component.cpp: the signals that the bar listens to, and its replication.
use gfgdextension.Common.{
  ℕ, List, [], ◌∷◌, ◌++◌, map, Option, none, some, Bool, true, false, not, ◌&&◌, ◌||◌,
  if◌then◌else◌, ◌==◌, length, is_some,
}
use gfgdextension.Inventory.Replication.{
  Network, is_sending_server, resolve_peers, sender_is_owner, get_owner_peer,
}
use gfgdextension.Inventory.Store.{insert_id}
use gfgdextension.Inventory.QuickBar.{
  Neighbours, slots_changed, active_slot_changed, send_state, QuickBarComponent, bar_audience, tell,
  bar_is_mirror, find_slot_of_item, get_next_free_item_slot, add_item_to_slot,
  remove_item_from_slot, unequip_item_in_slot, equip_item_in_slot, apply_active_slot_index,
  apply_swap,
}

unfoldable pub same_ids : List ℕ → List ℕ → Bool
same_ids [] [] = true
same_ids [] (y ∷ ys) = false
same_ids (x ∷ xs) [] = false
same_ids (x ∷ xs) (y ∷ ys) = x == y && same_ids xs ys

unfoldable pub same_index : Option ℕ → Option ℕ → Bool
same_index none none = true
same_index none (some j) = false
same_index (some i) none = false
same_index (some i) (some j) = i == j

-- The state of a server's bar, as a client's mirror takes it.
unfoldable pub client_receive_state : List ℕ → Option ℕ → QuickBarComponent → QuickBarComponent
client_receive_state slots active_index b =
    let b1 = record b {
      slot_ids = slots;
      num_slots = length slots;
      active_slot_index = active_index;
    } in
    let b2 = if same_ids slots b.slot_ids then b1 else tell slots_changed b1 in
    if same_index active_index b.active_slot_index
    then b2
    else tell (active_slot_changed active_index) b2

module _ (net : Network) (near : Neighbours) where
  unfoldable pub on_inventory_item_added : Option ℕ → QuickBarComponent → QuickBarComponent
  on_inventory_item_added none b = b
  on_inventory_item_added (some item) b =
      if bar_is_mirror net near b
        || not b.auto_slot_new_items
        || is_some (find_slot_of_item net near b (some item))
      then b
      else if not (near.slottable item)
      then b
      else elim (get_next_free_item_slot b) [
        | none ↦ b
        | some slot ↦ (add_item_to_slot net near slot (some item) b).0
      ]

  unfoldable pub on_inventory_item_removed : Option ℕ → QuickBarComponent → QuickBarComponent
  on_inventory_item_removed item b =
      if bar_is_mirror net near b then b else elim (find_slot_of_item net near b item) [
        | none ↦ b
        | some slot ↦ (remove_item_from_slot net near slot b).0
      ]

  unfoldable pub on_inventory_changed : QuickBarComponent → QuickBarComponent
  on_inventory_changed b = if bar_is_mirror net near b then tell slots_changed b else b

  unfoldable pub on_pawn_changed : QuickBarComponent → QuickBarComponent
  on_pawn_changed b =
      let b1 = unequip_item_in_slot net near b in
      if bar_is_mirror net near b
      then b
      else if is_some b1.active_slot_index
      then equip_item_in_slot net near b1
      else b1

  unfoldable pub flush_replication : QuickBarComponent → QuickBarComponent
  flush_replication b =
      let (peers, kept) = resolve_peers net (bar_audience b.replicated) b.subscribers in
      if not (is_sending_server net (bar_audience b.replicated))
      then record b { flush_queued = false }
      else record b {
        flush_queued = false;
        subscribers = kept;
        effects =
            b.effects ++ map (λ (peer : ℕ). send_state peer b.slot_ids b.active_slot_index) peers;
      }

  unfoldable pub server_request_full_state : QuickBarComponent → QuickBarComponent
  server_request_full_state b =
      if not (is_sending_server net (bar_audience b.replicated))
      then b
      else if net.sender == 0 || not (net.sender == get_owner_peer net)
      then b
      else tell (send_state net.sender b.slot_ids b.active_slot_index)
          (record b { subscribers = insert_id net.sender b.subscribers })

  unfoldable pub server_set_active_slot_index : Option ℕ → QuickBarComponent → QuickBarComponent
  server_set_active_slot_index i b =
      if not (is_sending_server net (bar_audience b.replicated)) || not (sender_is_owner net)
      then b
      else apply_active_slot_index net near i b

  unfoldable pub server_swap_slots : ℕ → ℕ → QuickBarComponent → QuickBarComponent
  server_swap_slots from to b =
      if not (is_sending_server net (bar_audience b.replicated)) || not (sender_is_owner net)
      then b
      else apply_swap net near from to b
