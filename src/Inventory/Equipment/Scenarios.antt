-- ===== src/Inventory/Equipment/Scenarios.antt =====
-- A server with one weapon on, its mirror, and an ability system that counts what it gives.
use gfgdextension.Common.{
  ℕ, suc, if◌then◌else◌, refl, List, [], ◌∷◌, none, some, true, false, ◌==◌, arith,
}
use gfgdextension.Inventory.Replication.{audience_everyone, is_mirror, is_sending_server}
use gfgdextension.Inventory.Equipment.{
  EquipmentInstance, AbilitySystem, to_unequip, EquipmentManager, EquipmentSurroundings,
  serialize_instance, unequip_item, client_unequipped,
}
use gfgdextension.Inventory.Equipment.Mirroring.{Follows, IsTold, unequip_item-Follows}

abbrev counting : AbilitySystem ℕ
counting = record {
  give_ability = λ ability source n. (suc n, suc n);
  clear_ability = λ handle n. n;
  apply_effect = λ effect n. (suc n, suc n);
  remove_effect = λ effect n. n;
  add_tag = λ tag n. n;
  remove_tag = λ tag n. n;
}

-- Each definition grants an ability, and 7 is no saved resource.
abbrev nearby : EquipmentSurroundings
nearby = record {
  net = record {
    in_world = true;
    networked = true;
    authority = true;
    owner_peer = 2;
    connected = 2 ∷ 3 ∷ [];
    sender = 0;
  };
  has_system = true;
  grants = λ d. record {
    abilities_to_grant = none ∷ some 4 ∷ [];
    effects_to_apply = [];
    granted_tags = 9 ∷ [];
  };
  is_saved = λ d. if d == 7 then false else true;
  find_item = λ id. none;
}

abbrev axe : List ℕ → EquipmentInstance
axe handles = record {
  equipment_id = 1;
  definition = some 5;
  instigator = none;
  item_id = 0;
  item_definition = none;
  spawned_visible = true;
  granted_ability_handles = handles;
  applied_effect_ids = [];
}

abbrev wearing : List ℕ → EquipmentManager ℕ
wearing handles = record {
  instances = axe handles ∷ [];
  next_equipment_id = 2;
  replication_mode = audience_everyone;
  subscribers = 2 ∷ 3 ∷ [];
  system = 1;
  events = [];
  sent = [];
}

wearing-Follows : Follows counting nearby (wearing (1 ∷ [])) (wearing [])
unfolding serialize_instance
wearing-Follows = record {
  same_shown = refl;
  numbered = (omega arith, omega arith, refl, tt);
  above = omega arith;
}

unequip_item-Follows_example :
    let server' = unequip_item counting nearby 1 (wearing (1 ∷ [])) in
    IsTold counting nearby (to_unequip 1) (wearing (1 ∷ [])) server'
    × Follows counting nearby server' (client_unequipped counting nearby 1 (wearing []))
unfolding is_mirror is_sending_server
unequip_item-Follows_example =
    unequip_item-Follows counting nearby 1 (wearing (1 ∷ [])) (wearing []) refl refl refl
      wearing-Follows
