-- ===== src/Inventory/Stats.antt =====
-- The stats of an item instance.
use gfgdextension.Common.{
  ℕ, ◌≡◌, refl, Option, none, some, true, if◌then◌else◌, ◌==◌, ite, if_neg, ◌∷◌, [], lookup-insert,
  lookup-erase, insert, erase, Bool-cases, Option-cases, inl, inr, arith,
}
use gfgdextension.Names.{Name, name_dec}
use gfgdextension.Inventory.Replication.{Network}
use gfgdextension.Inventory.Store.{
  InventoryItemDefinition, Store, put_item, emit, stat_tag_changed, find_entry_index_by_id,
}
use gfgdextension.Inventory.Operations.{mark_item_dirty, refuses}
use gfgdextension.Inventory.Mirroring.{
  Stats, stat_of, get_stat_tag_stack_count, can_write, notify_changed, set_stat_tag_stack,
}

stat_of-set :
    (stats : Stats) (tag q : Name) (count : ℕ)
    → stat_of (if count == 0 then erase name_dec tag stats else insert name_dec tag count stats) q
      ≡ ite (name_dec q tag) count (stat_of stats q)
unfolding stat_of
stat_of-set stats tag q count =
    ground (arith, lookup-insert name_dec tag q count stats, lookup-erase name_dec tag q stats)

unchanged :
    (stats : Stats) (tag q : Name) (count : ℕ)
    → (stat_of stats tag == count) ≡ true
    → stat_of stats q ≡ ite (name_dec q tag) count (stat_of stats q)
unchanged stats tag q count same = elim (name_dec q tag) [
  | yes e ↦ rw e (ground (arith, same))
  | no n ↦ rw (if_neg (name_dec q tag) n) refl
]

module _ (net : Network) (definitions : ℕ → InventoryItemDefinition) where
  items-mark :
      (s : Store) (i : ℕ) (r : Option ℕ) → (mark_item_dirty net definitions s i r).items ≡ s.items
  unfolding mark_item_dirty
  items-mark s i none = refl
  items-mark s i (some r) = elim (Bool-cases (refuses net definitions (s.inventories i))) [
    | inl e ↦ rw e refl
    | inr e ↦
        elim (Option-cases
          (find_entry_index_by_id s.items (s.inventories i).entries (s.items r).item_id)) [
            | inl n ↦ rw (e, n) refl
            | inr (k, n) ↦ rw (e, n) refl
          ]
  ]

  items-notify : (s : Store) (r : ℕ) → (notify_changed net definitions s r).items ≡ s.items
  unfolding notify_changed
  items-notify s r = elim (Option-cases (s.items r).inventory_id) [
    | inl e ↦ rw (notify_changed, e) refl
    | inr (i, e) ↦ rw (notify_changed, e) (items-mark s i (some r))
  ]

  written :
      (s : Store) (r : ℕ) (tag q : Name) (count : ℕ)
      → let stats = (s.items r).stat_tags in
        let stats' =
          if count == 0 then erase name_dec tag stats else insert name_dec tag count stats in
        let t =
          emit
            (put_item s r (record (s.items r) { stat_tags = stats' }))
            (stat_tag_changed r tag count ∷ []) in
        stat_of ((notify_changed net definitions t r).items r).stat_tags q
        ≡ ite (name_dec q tag) count (stat_of stats q)
  written s r tag q count =
      let stats = (s.items r).stat_tags in
      let stats' =
        if count == 0 then erase name_dec tag stats else insert name_dec tag count stats in
      let t =
        emit (put_item s r (record (s.items r) { stat_tags = stats' }))
          (stat_tag_changed r tag count ∷ []) in
      let set = stat_of-set stats tag q count in rw (items-notify t r) (ground (arith, set))

  -- On an instance that may be written, setting a stat to a count sets that stat, to 0 by removing it,
  -- and leaves every other stat as it was.
  pub get_stat_tag_stack_count-set :
      (s : Store) (r : ℕ) (tag q : Name) (count : ℕ)
      → can_write net definitions s r ≡ true
      → get_stat_tag_stack_count (set_stat_tag_stack net definitions s r tag count) r q
        ≡ ite (name_dec q tag) count (get_stat_tag_stack_count s r q)
  unfolding set_stat_tag_stack get_stat_tag_stack_count
  get_stat_tag_stack_count-set s r tag q count writable =
      elim (Bool-cases (stat_of (s.items r).stat_tags tag == count)) [
        | inl same ↦ rw (writable, same) (unchanged (s.items r).stat_tags tag q count same)
        | inr differs ↦ rw (writable, differs) (written s r tag q count)
      ]
