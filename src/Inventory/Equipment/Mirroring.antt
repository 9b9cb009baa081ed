-- ===== src/Inventory/Equipment/Mirroring.antt =====
-- A mirror that gets each message follows the server's equipment.
use gfgdextension.Common.{
  ℕ, ◌<◌, ◌≡◌, refl, sym, ap, ◌∙◌, List, [], ◌∷◌, ◌++◌, Option, none, some, Bool, true, false, not,
  ◌||◌, if_holds, ◌==◌, map, Bool-cases, Option-cases, inl, inr, arith,
}
use gfgdextension.Inventory.Replication.{is_mirror, is_sending_server, resolve_peers}
use gfgdextension.Inventory.Equipment.{
  EquipmentInstance, AbilitySystem, EquipmentState, EquipmentMessage, EquipmentManager,
  EquipmentSurroundings, has_id, take_instance, serialize_instance, remove_found, to_unequip,
  send_to_audience, remove_instance, unequip_item, client_unequipped,
}

-- Each instance has an id of its own, above 0 and below the next.
abbrev pub IsNumbered : ℕ → List EquipmentInstance → Type 0
IsNumbered next [] = Unit
IsNumbered next (i ∷ is) =
    (0 < i.equipment_id)
    × (i.equipment_id < next)
    × (has_id i.equipment_id is ≡ false)
    × IsNumbered next is

-- What is serialized of the instances.
abbrev pub shown : (ℕ → Bool) → List EquipmentInstance → List EquipmentState
shown is_saved [] = []
shown is_saved (i ∷ is) = serialize_instance is_saved i ∷ shown is_saved is

abbrev first_of : EquipmentState → List EquipmentState → EquipmentState
first_of st [] = st
first_of st (x ∷ xs) = x

abbrev rest_of : List EquipmentState → List EquipmentState
rest_of [] = []
rest_of (x ∷ xs) = xs

-- The others, without the first with an id.
shown-take_instance :
    (is_saved : ℕ → Bool) (id : ℕ) (is js : List EquipmentInstance)
    → shown is_saved is ≡ shown is_saved js
    → shown is_saved (take_instance id is).1 ≡ shown is_saved (take_instance id js).1
unfolding serialize_instance take_instance
shown-take_instance is_saved id [] [] h = refl
shown-take_instance is_saved id [] (j ∷ js) h = absurd (ground (arith, h))
shown-take_instance is_saved id (i ∷ is) [] h = absurd (ground (arith, h))
shown-take_instance is_saved id (i ∷ is) (j ∷ js) h =
    let here : i.equipment_id ≡ j.equipment_id =
      ap (λ l. (first_of (serialize_instance is_saved i) l).id) h in
    let first : serialize_instance is_saved i ≡ serialize_instance is_saved j =
      ap (λ l. first_of (serialize_instance is_saved i) l) h in
    let rest : shown is_saved is ≡ shown is_saved js = ap rest_of h in
    let later = shown-take_instance is_saved id is js rest in
    elim (Bool-cases (i.equipment_id == id)) [
      | inl e ↦ let other : (j.equipment_id == id) ≡ true = rw (← here) e in rw (e, other) rest
      | inr e ↦
          let other : (j.equipment_id == id) ≡ false = rw (← here) e in
          rw (e, other)
            (ap (λ st. st ∷ shown is_saved (take_instance id is).1) first
              ∙ ap (λ l. serialize_instance is_saved j ∷ l) later)
    ]

take_instance-none :
    (id : ℕ) (is : List EquipmentInstance)
    → (take_instance id is).0 ≡ none
    → (take_instance id is).1 ≡ is
unfolding take_instance
take_instance-none id [] h = refl
take_instance-none id (i ∷ is) h = elim (Bool-cases (i.equipment_id == id)) [
  | inl e ↦ absurd (ground (arith, h, e))
  | inr e ↦
      let later : (take_instance id is).0 ≡ none = ground (arith, h, e) in
      rw (e, take_instance-none id is later) refl
]

has_id-take_instance :
    (k id : ℕ) (is : List EquipmentInstance)
    → has_id k is ≡ false
    → has_id k (take_instance id is).1 ≡ false
unfolding take_instance
has_id-take_instance k id [] h = refl
has_id-take_instance k id (i ∷ is) h = elim (Bool-cases (i.equipment_id == id)) [
  | inl e ↦ rw e (ground (arith, h))
  | inr e ↦ rw e (ground (arith, h, has_id-take_instance k id is))
]

IsNumbered-take_instance :
    (n id : ℕ) (is : List EquipmentInstance)
    → IsNumbered n is
    → IsNumbered n (take_instance id is).1
unfolding take_instance
IsNumbered-take_instance n id [] h = tt
IsNumbered-take_instance n id (i ∷ is) h = elim (Bool-cases (i.equipment_id == id)) [
  | inl e ↦ rw e h.3
  | inr e ↦ rw e (
    h.0,
    h.1,
    has_id-take_instance i.equipment_id id is h.2,
    IsNumbered-take_instance n id is h.3,
  )
]

module _ {S : Type 0} (asc : AbilitySystem S) (near : EquipmentSurroundings) where
  -- The mirror's instances serialize as the server's, whose ids are distinct.
  pub record Follows (server mirror : EquipmentManager S) : Type 0 where
    pub same_shown : shown near.is_saved mirror.instances ≡ shown near.is_saved server.instances
    pub numbered : IsNumbered server.next_equipment_id server.instances
    pub above : 0 < server.next_equipment_id

  instances-remove :
      (id : ℕ) (server_side : Bool) (m : EquipmentManager S)
      → let m' = remove_instance asc near id server_side m in
        (m'.instances ≡ (take_instance id m.instances).1)
        × (m'.next_equipment_id ≡ m.next_equipment_id)
  unfolding remove_instance remove_found
  instances-remove id server_side m = elim (Option-cases (take_instance id m.instances).0) [
    | inl n ↦ rw (remove_instance, n) (sym (take_instance-none id m.instances n), refl)
    | inr (i, n) ↦ rw (remove_instance, n) (refl, refl)
  ]

  kept-remove_found :
      (found : Option EquipmentInstance) (rest : List EquipmentInstance) (server_side : Bool)
      (m : EquipmentManager S)
      → let m' = remove_found asc near found rest server_side m in
        (m'.replication_mode ≡ m.replication_mode)
        × (m'.subscribers ≡ m.subscribers)
        × (m'.sent ≡ m.sent)
  unfolding remove_found
  kept-remove_found none rest server_side m = (refl, refl, refl)
  kept-remove_found (some i) rest server_side m = (refl, refl, refl)

  kept-remove :
      (id : ℕ) (server_side : Bool) (m : EquipmentManager S)
      → let m' = remove_instance asc near id server_side m in
        (m'.replication_mode ≡ m.replication_mode)
        × (m'.subscribers ≡ m.subscribers)
        × (m'.sent ≡ m.sent)
  unfolding remove_instance
  kept-remove id server_side m =
      kept-remove_found (take_instance id m.instances).0 (take_instance id m.instances).1
        server_side m

  removed-Follows :
      (id : ℕ) (server mirror next : EquipmentManager S)
      → next.instances ≡ (take_instance id server.instances).1
      → next.next_equipment_id ≡ server.next_equipment_id
      → Follows server mirror
      → Follows next (client_unequipped asc near id mirror)
  unfolding client_unequipped
  removed-Follows id server mirror next left same_next h =
      let on_mirror = instances-remove id false mirror in
      record {
        same_shown =
            rw (left, on_mirror.0)
              (shown-take_instance near.is_saved id mirror.instances server.instances h.same_shown);
        numbered =
            rw (left, same_next)
              (IsNumbered-take_instance server.next_equipment_id id server.instances h.numbered);
        above = rw same_next h.above;
      }

  -- The message about a new instance goes to the peers of the audience.
  abbrev pub IsTold : EquipmentMessage → EquipmentManager S → EquipmentManager S → Type 0
  IsTold message before after =
      after.sent
      ≡ before.sent
        ++ map (λ (peer : ℕ). (peer, message))
            (resolve_peers near.net before.replication_mode before.subscribers).0

  -- When a sending server takes equipment off that it has, the peers of its audience are told what lets
  -- a mirror that has followed it follow it further.
  pub unequip_item-Follows :
      (id : ℕ) (server mirror : EquipmentManager S)
      → is_sending_server near.net server.replication_mode ≡ true
      → is_mirror near.net server.replication_mode ≡ false
      → has_id id server.instances ≡ true
      → Follows server mirror
      → let server' = unequip_item asc near id server in
        IsTold (to_unequip id) server server'
        × Follows server' (client_unequipped asc near id mirror)
  unfolding unequip_item send_to_audience
  unequip_item-Follows id server mirror sends no_mirror inside h =
      let m1 : EquipmentManager S = remove_instance asc near id true server in
      let left = instances-remove id true server in
      let (mode, subscribed, sent) = kept-remove id true server in
      let Told : EquipmentManager S → Type 0 =
        λ m. IsTold (to_unequip id) server m × Follows m (client_unequipped asc near id mirror) in
      if_holds Told (is_mirror near.net server.replication_mode || not (has_id id server.instances))
        _ _ (λ refused. absurd (ground (arith, refused, no_mirror, inside)))
        (λ accepted.
          if_holds Told (is_sending_server near.net server.replication_mode) _ _
            (λ told. (
              rw (mode, subscribed, sent) refl,
              removed-Follows id server mirror _ left.0 left.1 h,
            ))
            (λ silent. absurd (ground (arith, silent, sends))))
