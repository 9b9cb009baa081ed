-- ===== src/Inventory/QuickBar/Equipped.antt =====
-- What the bar has put on, against its active slot.
use gfgdextension.Common.{
  ℕ, ◌≡◌, refl, sym, Option, some, none, Bool, true, false, not, ◌||◌, ◌==◌, leb, List, [], ◌∷◌,
  set, length, zero, suc, Bool-cases, Option-cases, inl, inr, is_some, if◌then◌else◌, arith,
}
use gfgdextension.Inventory.Replication.{Network, is_sending_server}
use gfgdextension.Inventory.QuickBar.{
  Neighbours, Effect, QuickBarComponent, tell, activate, is_index, slot_id, bar_queue_flush,
  get_active_slot_item, get_slot_item, to_equip, equip_item_in_slot, equip_found, take_off,
  bar_audience, unequip_item_in_slot, apply_active_slot_index, tell_active, apply_swap, exchange,
  slots_changed, swapped,
}

pub slot_id-set :
    (xs : List ℕ) (i j v : ℕ) → (j == i) ≡ false → slot_id (set xs i v) j ≡ slot_id xs j
slot_id-set [] i j v ne = refl
slot_id-set (x ∷ xs) zero zero v ne = absurd (ground (arith, ne))
slot_id-set (x ∷ xs) zero (suc j) v ne = refl
slot_id-set (x ∷ xs) (suc i) zero v ne = refl
slot_id-set (x ∷ xs) (suc i) (suc j) v ne = slot_id-set xs i j v (ground (arith, ne))

module _ (net : Network) (near : Neighbours) where
  -- Whatever is on is the instance that its manager hands out for the item in the active slot and for
  -- that item's definition.
  unfoldable pub IsWornFrom : QuickBarComponent → Type 0
  IsWornFrom b =
      (instance manager : ℕ)
      → b.equipped ≡ some (instance, manager)
      → (definition : ℕ) × (item : ℕ) × (to_equip net near b ≡ some (manager, definition, item))
        × (near.equip_item manager definition item ≡ some instance)

  pub bare-IsWornFrom : (b : QuickBarComponent) → b.equipped ≡ none → IsWornFrom b
  unfolding IsWornFrom
  bare-IsWornFrom b bare instance manager on = absurd (ground (arith, bare, on))

  equipped-take_off :
      (o : Option (ℕ × ℕ)) (b : QuickBarComponent)
      → b.equipped ≡ o
      → (take_off net near o b).equipped ≡ none
  equipped-take_off none b e = e
  equipped-take_off (some (instance, manager)) b e = refl

  pub equipped-unequip : (b : QuickBarComponent) → (unequip_item_in_slot net near b).equipped ≡ none
  unfolding unequip_item_in_slot
  equipped-unequip b = equipped-take_off b.equipped b refl

  equip_found-IsWornFrom :
      (o : Option (ℕ × ℕ × ℕ)) (b : QuickBarComponent)
      → to_equip net near b ≡ o
      → IsWornFrom b
      → IsWornFrom (equip_found net near o b)
  unfolding IsWornFrom to_equip get_active_slot_item get_slot_item
  equip_found-IsWornFrom none b e h = h
  equip_found-IsWornFrom (some (m, d, item)) b e h = λ instance manager on.
      elim (Option-cases (near.equip_item m d item)) [
        | inl n ↦ absurd (ground (arith, on, n))
        | inr (made, n) ↦
            let same : m ≡ manager = ground (arith, on, n) in
            let what : made ≡ instance = ground (arith, on, n) in
            (d, item, rw (sym same) e, rw (sym same, sym what) n)
      ]

  pub equip-IsWornFrom :
      (b : QuickBarComponent) → IsWornFrom b → IsWornFrom (equip_item_in_slot net near b)
  unfolding equip_item_in_slot
  equip-IsWornFrom b h = elim (Bool-cases (is_some b.equipped)) [
    | inl e ↦ rw e h
    | inr e ↦ rw e (equip_found-IsWornFrom (to_equip net near b) b refl h)
  ]

  pub flush-IsWornFrom :
      (b : QuickBarComponent) → IsWornFrom b → IsWornFrom (bar_queue_flush net near b)
  unfolding IsWornFrom bar_queue_flush to_equip get_active_slot_item get_slot_item
  flush-IsWornFrom b h =
      elim (Bool-cases
        (b.flush_queued || not (is_sending_server net (bar_audience b.replicated)))) [
          | inl e ↦ rw e h
          | inr e ↦ rw e h
        ]

  pub tell-IsWornFrom : (e : Effect) (b : QuickBarComponent) → IsWornFrom b → IsWornFrom (tell e b)
  unfolding IsWornFrom to_equip get_active_slot_item get_slot_item
  tell-IsWornFrom e b h = h

  get_slot_item-same :
      (b : QuickBarComponent) (slots : List ℕ) (o : Option ℕ)
      → ((i : ℕ) → o ≡ some i → slot_id slots i ≡ slot_id b.slot_ids i)
      → get_slot_item net near (record b { slot_ids = slots }) o ≡ get_slot_item net near b o
  unfolding get_slot_item
  get_slot_item-same b slots none same = refl
  get_slot_item-same b slots (some i) same = rw (same i refl) refl

  -- Slots that keep the active one's item.
  pub slots-IsWornFrom :
      (b : QuickBarComponent) (slots : List ℕ)
      → ((i : ℕ) → b.active_slot_index ≡ some i → slot_id slots i ≡ slot_id b.slot_ids i)
      → IsWornFrom b
      → IsWornFrom (record b { slot_ids = slots })
  unfolding IsWornFrom to_equip get_active_slot_item
  slots-IsWornFrom b slots same h = rw (get_slot_item-same b slots b.active_slot_index same) h

  pub if-IsWornFrom :
      (c : Bool) (x y : QuickBarComponent)
      → (c ≡ true → IsWornFrom x)
      → (c ≡ false → IsWornFrom y)
      → IsWornFrom (if c then x else y)
  if-IsWornFrom true x y hx hy = hx refl
  if-IsWornFrom false x y hx hy = hy refl

  pub is_index-other :
      (o : Option ℕ) (i j : ℕ) → is_index o i ≡ false → o ≡ some j → (j == i) ≡ false
  is_index-other none i j other e = absurd (ground (arith, e))
  is_index-other (some k) i j other e = ground (arith, other, e)

  tell_active-IsWornFrom :
      (b : QuickBarComponent) → IsWornFrom b → IsWornFrom (tell_active net near b)
  unfolding tell_active
  tell_active-IsWornFrom b h = tell-IsWornFrom _ (bar_queue_flush net near b) (flush-IsWornFrom b h)

  -- After a change of the active slot, whatever is on is the instance that its manager hands out for
  -- the item in the active slot, if it was so before.
  pub apply_active_slot_index-IsWornFrom :
      (i : Option ℕ) (b : QuickBarComponent)
      → IsWornFrom b
      → IsWornFrom (apply_active_slot_index net near i b)
  unfolding apply_active_slot_index
  apply_active_slot_index-IsWornFrom none b h =
      if-IsWornFrom _ _ _ (λ e. h)
        (λ e.
          tell_active-IsWornFrom (activate none (unequip_item_in_slot net near b)) (
            bare-IsWornFrom (activate none (unequip_item_in_slot net near b)) (equipped-unequip b)))
  apply_active_slot_index-IsWornFrom (some i) b h =
      let b1 = activate (some i) (unequip_item_in_slot net near b) in
      if-IsWornFrom _ _ _ (λ e. h)
        (λ e.
          tell_active-IsWornFrom (equip_item_in_slot net near b1)
            (equip-IsWornFrom b1 (bare-IsWornFrom b1 (equipped-unequip b))))

  touched_swap :
      (from to : ℕ) (b : QuickBarComponent)
      → IsWornFrom (
          equip_item_in_slot net near (record (unequip_item_in_slot net near b) {
            slot_ids = swapped from to (unequip_item_in_slot net near b).slot_ids;
          }))
  touched_swap from to b =
      let b2 = record (unequip_item_in_slot net near b) {
        slot_ids = swapped from to (unequip_item_in_slot net near b).slot_ids;
      } in
      equip-IsWornFrom b2 (bare-IsWornFrom b2 (equipped-unequip b))

  untouched_swap :
      (from to : ℕ) (b : QuickBarComponent)
      → (is_index b.active_slot_index from || is_index b.active_slot_index to) ≡ false
      → IsWornFrom b
      → IsWornFrom (record b { slot_ids = swapped from to b.slot_ids })
  unfolding swapped
  untouched_swap from to b untouched h =
      slots-IsWornFrom b (swapped from to b.slot_ids)
        (λ i active.
          let not_from =
            is_index-other b.active_slot_index from i (ground (arith, untouched)) active in
          let not_to = is_index-other b.active_slot_index to i (ground (arith, untouched)) active in
          rw
            (
              slot_id-set (set b.slot_ids from (slot_id b.slot_ids to)) to i
                  (slot_id b.slot_ids from) not_to,
              slot_id-set b.slot_ids from i (slot_id b.slot_ids to) not_from,
            )
            refl)
        h

  exchange-IsWornFrom :
      (from to : ℕ) (b : QuickBarComponent)
      → IsWornFrom b
      → IsWornFrom (exchange net near from to b)
  unfolding exchange
  exchange-IsWornFrom from to b h =
      elim (Bool-cases (is_index b.active_slot_index from || is_index b.active_slot_index to)) [
        | inl e ↦ rw e (touched_swap from to b)
        | inr e ↦ rw e (untouched_swap from to b e h)
      ]

  -- After a swap of two slots, whatever is on is the instance that its manager hands out for the item
  -- in the active slot, if it was so before.
  pub apply_swap-IsWornFrom :
      (from to : ℕ) (b : QuickBarComponent)
      → IsWornFrom b
      → IsWornFrom (apply_swap net near from to b)
  unfolding apply_swap
  apply_swap-IsWornFrom from to b h =
      let b1 = exchange net near from to b in
      if-IsWornFrom (from == to || leb (length b.slot_ids) from || leb (length b.slot_ids) to) b
        (tell slots_changed (bar_queue_flush net near b1)) (λ e. h)
        (λ e.
          tell-IsWornFrom slots_changed (bar_queue_flush net near b1)
            (flush-IsWornFrom b1 (exchange-IsWornFrom from to b h)))
