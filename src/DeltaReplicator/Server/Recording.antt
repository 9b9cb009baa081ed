-- ===== src/DeltaReplicator/Server/Recording.antt =====
-- framework/delta_replicator.cpp: `record_state`, which numbers a new state when a property changed.
use gfgdextension.Common.{
  ℕ, suc, ◌+◌, List, [], ◌∷◌, Option, none, some, Bool, true, false, not, ◌&&◌, ◌||◌, if◌then◌else◌,
  is_some, lookup, insert, ℕ_discrete,
}
use gfgdextension.DeltaReplicator.Values.{
  Engine, same, Variant, nil, Entries, find, or_nil, put_entry, has_key,
}
use gfgdextension.DeltaReplicator.Server.{
  Settings, Server, Surroundings, or_end, is_nil, rebuild_keyed, trim_history,
}

unfoldable pub is_compared : Settings → Server → ℕ → Bool
is_compared s r name = not (has_key name s.push_properties) || has_key name r.dirty_properties

unfoldable pub is_skipped : Settings → Server → Bool → ℕ → Bool
is_skipped s r validate name =
    not (is_compared s r name || is_some (lookup ℕ_discrete name r.dirty_elements) || validate)

unfoldable pub count_skipped : Settings → Server → Bool → List ℕ → ℕ
count_skipped s r validate [] = 0
count_skipped s r validate (name ∷ names) =
    let rest = count_skipped s r validate names in
    if is_skipped s r validate name then suc rest else rest

abbrev pub last_state : Server → Entries
last_state r = or_end (lookup ℕ_discrete r.latest_seq r.history)

unfoldable pub recorded : Settings → Server → Entries × Bool → Server × Bool
recorded s r (next, false) = (r, false)
recorded s r (next, true) = (
  trim_history s (record r {
    latest_seq = suc r.latest_seq;
    history = insert ℕ_discrete (suc r.latest_seq) next r.history;
  }),
  true,
)

module _ (engine : Engine) where
  -- The old value where the current one is the same.
  unfoldable pub taken : Variant → Variant → Variant
  taken old current = if same engine old current then old else current

  -- The marked elements of a keyed array, or the whole value when it is not one after all.
  unfoldable pub taken_marked : Option ℕ → List ℕ → Variant → Variant → Variant
  taken_marked field marked old current =
      let rebuilt : Variant = elim field [
        | none ↦ nil
        | some f ↦ rebuild_keyed old current f marked
      ] in
      if is_nil rebuilt && not (is_nil current) then taken old current else rebuilt

  unfoldable pub new_value : Settings → Server → Bool → Variant → ℕ → Variant → Variant
  new_value s r validate current name old =
      if is_compared s r name
      then taken old current
      else elim (lookup ℕ_discrete name r.dirty_elements) [
        | some marked ↦ taken_marked (lookup ℕ_discrete name s.keyed_arrays) marked old current
        | none ↦ if validate then taken old current else old
      ]

  -- The next state and whether anything changed.
  unfoldable pub record_each :
      Settings → Server → Bool → (ℕ → Variant) → Entries → List ℕ → Entries → Bool → Entries × Bool
  record_each s r validate current last [] next changed = (next, changed)
  record_each s r validate current last (name ∷ names) next changed =
      let old = or_nil (find name last) in
      let new = new_value s r validate (current name) name old in
      let is_same = same engine old new in
      record_each s r validate current last names
        (if is_same then next else put_entry name new next) (if is_same then changed else true)

  unfoldable pub record_state : Settings → Surroundings → Bool → Server → Server × Bool
  record_state s near validate r =
      if near.has_root
      then (let last = last_state r in
          let found = record_each s r validate near.current last s.properties last false in
          let r1 = (record r {
            dirty_properties = [];
            dirty_elements = [];
            comparisons_skipped = r.comparisons_skipped + count_skipped s r validate s.properties;
          }) in
          recorded s r1 found)
      else (r, false)
