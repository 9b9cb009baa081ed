-- ===== src/Inventory/Equipment.antt =====
-- inventory/equipment_manager_component.{h,cpp}: the equipment of a pawn, on the server and on a mirror. An
-- instance is known by its equipment id. The ability system beside the manager is an argument, as are
-- the definitions, which of them are saved resources, and the item with an id; a path loads the
-- definition that was saved there.
pub mod Mirroring
mod Scenarios
use gfgdextension.Common.{
  ℕ, zero, suc, ◌+◌, List, [], ◌∷◌, ◌++◌, Option, none, some, Bool, true, false, not, ◌&&◌, ◌||◌,
  if◌then◌else◌, ◌==◌, ltb, map, length, reverse, keep,
}
use gfgdextension.Inventory.Replication.{
  Audience, Network, is_mirror, is_sending_server, is_owner, get_owner_peer, resolve_peers,
  has_peer,
}

pub record EquipmentInstance : Type 0 where
  pub equipment_id : ℕ
  pub definition : Option ℕ
  pub instigator : Option ℕ
  pub item_id : ℕ
  pub item_definition : Option ℕ
  pub spawned_visible : Bool
  pub granted_ability_handles : List ℕ
  pub applied_effect_ids : List ℕ

-- What an equipment definition grants; null entries are `none`.
pub record Grants : Type 0 where
  pub abilities_to_grant : List (Option ℕ)
  pub effects_to_apply : List (Option ℕ)
  pub granted_tags : List ℕ

-- The AbilitySystemComponent beside the manager. A handle of 0 says that nothing was given.
pub record AbilitySystem (S : Type 0) : Type 0 where
  pub give_ability : ℕ → Option ℕ → S → S × ℕ
  pub clear_ability : ℕ → S → S
  pub apply_effect : ℕ → S → S × ℕ
  pub remove_effect : ℕ → S → S
  pub add_tag : ℕ → S → S
  pub remove_tag : ℕ → S → S

-- What is serialized of an instance.
pub record EquipmentState : Type 0 where
  pub id : ℕ
  pub def : Option ℕ
  pub state_item_id : ℕ
  pub item_def : Option ℕ
  pub visible : Bool

pub data EquipmentEvent : Type 0 where
  spawn_actors on_equipped item_equipped on_unequipped destroy_actors item_unequipped :
      ℕ → EquipmentEvent
  replicated_state_received : EquipmentEvent

pub data EquipmentMessage : Type 0 where
  to_equip : EquipmentState → EquipmentMessage
  to_unequip : ℕ → EquipmentMessage
  to_receive : List EquipmentState → EquipmentMessage

pub record EquipmentManager (S : Type 0) : Type 0 where
  pub instances : List EquipmentInstance
  pub next_equipment_id : ℕ
  pub replication_mode : Audience
  pub subscribers : List ℕ
  pub system : S
  pub events : List EquipmentEvent
  pub sent : List (ℕ × EquipmentMessage)

-- What the manager finds around it. `has_system` says that there is an ability system.
pub record EquipmentSurroundings : Type 0 where
  pub net : Network
  pub has_system : Bool
  pub grants : ℕ → Grants
  pub is_saved : ℕ → Bool
  pub find_item : ℕ → Option ℕ

abbrev pub has_id : ℕ → List EquipmentInstance → Bool
has_id id [] = false
has_id id (i ∷ is) = i.equipment_id == id || has_id id is

-- The first instance with the id, and the others.
unfoldable pub take_instance :
    ℕ → List EquipmentInstance → Option EquipmentInstance × List EquipmentInstance
take_instance id [] = (none, [])
take_instance id (i ∷ is) =
    let (found, rest) = take_instance id is in
    if i.equipment_id == id then (some i, is) else (found, i ∷ rest)

abbrev pub loadable : (ℕ → Bool) → Option ℕ → Option ℕ
loadable is_saved none = none
loadable is_saved (some d) = if is_saved d then some d else none

unfoldable pub serialize_instance : (ℕ → Bool) → EquipmentInstance → EquipmentState
serialize_instance is_saved i = record {
  id = i.equipment_id;
  def = loadable is_saved i.definition;
  state_item_id = i.item_id;
  item_def = loadable is_saved i.item_definition;
  visible = i.spawned_visible;
}

unfoldable pub find_instance_by_item_id : ℕ → List EquipmentInstance → Option EquipmentInstance
find_instance_by_item_id item [] = none
find_instance_by_item_id item (i ∷ is) =
    let rest = find_instance_by_item_id item is in
    if item == 0 then none else if i.item_id == item then some i else rest

abbrev pub last_id : List EquipmentInstance → Option ℕ
last_id [] = none
last_id (i ∷ []) = some i.equipment_id
last_id (i ∷ j ∷ is) = last_id (j ∷ is)

abbrev pub ids_of : List EquipmentInstance → List ℕ
ids_of [] = []
ids_of (i ∷ is) = i.equipment_id ∷ ids_of is

unfoldable pub has_state : ℕ → List EquipmentState → Bool
has_state id [] = false
has_state id (st ∷ states) = st.id == id || has_state id states

module _ {S : Type 0} (asc : AbilitySystem S) (near : EquipmentSurroundings) where
  unfoldable pub give_abilities : List (Option ℕ) → Option ℕ → S → S × List ℕ
  give_abilities [] source s = (s, [])
  give_abilities (none ∷ abilities) source s = give_abilities abilities source s
  give_abilities (some a ∷ abilities) source s =
      let (s1, handle) = asc.give_ability a source s in
      let (s2, handles) = give_abilities abilities source s1 in
      (s2, if handle == 0 then handles else handle ∷ handles)

  unfoldable pub apply_effects : List (Option ℕ) → S → S × List ℕ
  apply_effects [] s = (s, [])
  apply_effects (none ∷ effects) s = apply_effects effects s
  apply_effects (some e ∷ effects) s =
      let (s1, active) = asc.apply_effect e s in
      let (s2, ids) = apply_effects effects s1 in (s2, if active == 0 then ids else active ∷ ids)

  unfoldable pub each : (ℕ → S → S) → List ℕ → S → S
  each f [] s = s
  each f (x ∷ xs) s = each f xs (f x s)

  unfoldable pub grant_from : Option ℕ → EquipmentInstance → S → S × EquipmentInstance
  grant_from none i s = (s, i)
  grant_from (some d) i s =
      if near.has_system
      then (let g = near.grants d in
          let (s1, handles) = give_abilities g.abilities_to_grant i.instigator s in
          let (s2, ids) = apply_effects g.effects_to_apply s1 in
          (
            each asc.add_tag g.granted_tags s2,
            record i {
              granted_ability_handles = i.granted_ability_handles ++ handles;
              applied_effect_ids = i.applied_effect_ids ++ ids;
            },
          ))
      else (s, i)

  unfoldable pub grant_server_side : EquipmentInstance → S → S × EquipmentInstance
  grant_server_side i s = grant_from i.definition i s

  unfoldable pub revoke_server_side : EquipmentInstance → S → S
  revoke_server_side i s = elim i.definition [
    | none ↦ s
    | some d ↦
        if near.has_system
        then each asc.remove_tag (near.grants d).granted_tags (
            each asc.remove_effect i.applied_effect_ids
              (each asc.clear_ability i.granted_ability_handles s))
        else s
  ]

  -- To each peer of the audience; subscribers that are gone are dropped.
  unfoldable pub send_to_audience : EquipmentMessage → EquipmentManager S → EquipmentManager S
  send_to_audience message m =
      let (peers, kept) = resolve_peers near.net m.replication_mode m.subscribers in
      record m { subscribers = kept; sent = m.sent ++ map (λ peer. (peer, message)) peers }

  -- The instance stands with what it was granted: it is one object.
  unfoldable pub equip_new : EquipmentInstance → EquipmentManager S → EquipmentManager S
  equip_new i m =
      let (s, granted) = grant_server_side i m.system in
      let id = i.equipment_id in
      let m1 = (record m {
        next_equipment_id = suc m.next_equipment_id;
        instances = m.instances ++ granted ∷ [];
        system = s;
        events = m.events ++ spawn_actors id ∷ on_equipped id ∷ item_equipped id ∷ [];
      }) in
      if is_sending_server near.net m.replication_mode
      then send_to_audience (to_equip (serialize_instance near.is_saved granted)) m1
      else m1

  -- `instigator` is the item that the equipment comes from, with its id and definition.
  unfoldable pub equip_item :
      Option ℕ → Option (ℕ × ℕ × ℕ) → EquipmentManager S → EquipmentManager S × Option ℕ
  equip_item none from m = (m, none)
  equip_item (some d) from m = if is_mirror near.net m.replication_mode then (m, none) else (
    equip_new
        (record {
          equipment_id = m.next_equipment_id;
          definition = some d;
          instigator = elim from [ none ↦ none | some (item, id, def) ↦ some item ];
          item_id = elim from [ none ↦ 0 | some (item, id, def) ↦ id ];
          item_definition = elim from [ none ↦ none | some (item, id, def) ↦ some def ];
          spawned_visible = true;
          granted_ability_handles = [];
          applied_effect_ids = [];
        })
        m,
    some m.next_equipment_id,
  )

  unfoldable pub remove_found :
      Option EquipmentInstance
      → List EquipmentInstance
      → Bool
      → EquipmentManager S
      → EquipmentManager S
  remove_found none rest server_side m = m
  remove_found (some i) rest server_side m =
      let id = i.equipment_id in
      record m {
        instances = rest;
        system = if server_side then revoke_server_side i m.system else m.system;
        events = m.events ++ on_unequipped id ∷ destroy_actors id ∷ item_unequipped id ∷ [];
      }

  -- Nothing for an id that is not there.
  unfoldable pub remove_instance : ℕ → Bool → EquipmentManager S → EquipmentManager S
  remove_instance id server_side m =
      let (found, rest) = take_instance id m.instances in remove_found found rest server_side m

  unfoldable pub unequip_item : ℕ → EquipmentManager S → EquipmentManager S
  unequip_item id m =
      if is_mirror near.net m.replication_mode || not (has_id id m.instances)
      then m
      else (let m1 = remove_instance id true m in
          if is_sending_server near.net m.replication_mode
          then send_to_audience (to_unequip id) m1
          else m1)

  -- The loop of `unequip_all`, which takes the last one off; there are as many rounds as instances.
  unfoldable pub unequip_last : ℕ → EquipmentManager S → EquipmentManager S
  unequip_last zero m = m
  unequip_last (suc rounds) m = elim (last_id m.instances) [
    | none ↦ m
    | some id ↦ unequip_last rounds (unequip_item id m)
  ]

  unfoldable pub unequip_all : EquipmentManager S → EquipmentManager S
  unequip_all m =
      if is_mirror near.net m.replication_mode then m else unequip_last (length m.instances) m

  unfoldable pub remove_each : List ℕ → Bool → EquipmentManager S → EquipmentManager S
  remove_each [] server_side m = m
  remove_each (id ∷ ids) server_side m =
      remove_each ids server_side (remove_instance id server_side m)

  unfoldable pub exit_tree : EquipmentManager S → EquipmentManager S
  exit_tree m =
      remove_each (reverse (ids_of m.instances)) (not (is_mirror near.net m.replication_mode)) m

  unfoldable pub equipment_full_state : EquipmentManager S → EquipmentManager S
  equipment_full_state m =
      let sender = near.net.sender in
      let refused = is_owner m.replication_mode && not (sender == get_owner_peer near.net) in
      if is_sending_server near.net m.replication_mode && ltb 0 sender && not refused
      then record m {
        subscribers =
            if has_peer sender m.subscribers then m.subscribers else m.subscribers ++ sender ∷ [];
        sent =
            m.sent
            ++ (sender, to_receive (map (serialize_instance near.is_saved) m.instances)) ∷ [];
      }
      else m

  -- The instance that a mirror makes, whose item is looked for among the inventories.
  unfoldable pub mirrored : EquipmentState → EquipmentInstance
  mirrored st = record {
    equipment_id = st.id;
    definition = st.def;
    instigator = near.find_item st.state_item_id;
    item_id = st.state_item_id;
    item_definition = st.item_def;
    spawned_visible = st.visible;
    granted_ability_handles = [];
    applied_effect_ids = [];
  }

  unfoldable pub client_equipped : EquipmentState → EquipmentManager S → EquipmentManager S
  client_equipped st m = if st.id == 0 || has_id st.id m.instances then m else record m {
    instances = m.instances ++ mirrored st ∷ [];
    events = m.events ++ spawn_actors st.id ∷ on_equipped st.id ∷ item_equipped st.id ∷ [];
  }

  unfoldable pub client_unequipped : ℕ → EquipmentManager S → EquipmentManager S
  client_unequipped id m = remove_instance id false m

  unfoldable pub equip_each : List EquipmentState → EquipmentManager S → EquipmentManager S
  equip_each [] m = m
  equip_each (st ∷ states) m = equip_each states (client_equipped st m)

  unfoldable pub client_receive_equipment :
      List EquipmentState → EquipmentManager S → EquipmentManager S
  client_receive_equipment states m =
      let gone = keep (λ id. not (has_state id states)) (reverse (ids_of m.instances)) in
      let m1 = equip_each states (remove_each gone false m) in
      record m1 { events = m1.events ++ replicated_state_received ∷ [] }
