-- ===== src/Inventory/QuickBar/Cycling.antt =====
-- The search of `cycle_active_slot_forward` and `cycle_active_slot_backward`.
use gfgdextension.Common.{
  ℕ, zero, suc, ◌≡◌, refl, List, true, false, ◌==◌, ◌<◌, ◌+◌, ◌*◌, ◌%◌, ap, subst, ◌∙◌, Bool-cases,
  inl, inr, arith,
}
use native.Mathlib.Nat.{mod-add-mod, mod-eq_of_lt, add-mul-mod_self_left}
use gfgdextension.Inventory.QuickBar.{found, running, next_occupied, slot_id}

-- The index after a number of steps.
unfoldable pub times : ℕ → (ℕ → ℕ) → ℕ → ℕ
times zero step i = i
times (suc k) step i = times k step (step i)

module _ (step : ℕ → ℕ) (slots : List ℕ) (start : ℕ) where
  passed :
      (k here : ℕ)
      → (slot_id slots here == 0) ≡ true
      → ((j : ℕ) → j < k → (slot_id slots (times (suc j) step here) == 0) ≡ true)
      → (j : ℕ) → j < suc k
      → (slot_id slots (times j step here) == 0) ≡ true
  unfolding times
  passed k here empty before zero lt = empty
  passed k here empty before (suc j) lt = before j (omega (arith, lt))

  -- The slot that the search finds has an item, and is the first such slot on the way: the slots that
  -- the steps pass before it are empty.
  pub next_occupied-some :
      (fuel index i : ℕ)
      → next_occupied fuel step slots start index ≡ found i
      → (k : ℕ) × (i ≡ times (suc k) step index)
        × ((slot_id slots i == 0) ≡ false)
        × ((j : ℕ) → j < k → (slot_id slots (times (suc j) step index) == 0) ≡ true)
  unfolding next_occupied times
  next_occupied-some zero index i at = absurd (ground (arith, at))
  next_occupied-some (suc fuel) index i at =
      let here = step index in
      elim (Bool-cases (slot_id slots here == 0)) [
        | inr occupied ↦
            let same : here ≡ i = ground (arith, at, occupied) in
            (0, rw same refl, rw (← same) occupied, λ j lt. absurd (omega (arith, lt)))
        | inl empty ↦
            let later : next_occupied fuel step slots start here ≡ found i =
              ground (arith, at, empty) in
            let (k, where_to, occupied, before) = next_occupied-some fuel here i later in
            (suc k, where_to, occupied, passed k here empty before)
      ]

  -- A search whose steps come back to the start within its rounds does not run out of them.
  next_occupied_ends :
      (fuel k index : ℕ)
      → k < fuel
      → times (suc k) step index ≡ start
      → ¬ (next_occupied fuel step slots start index ≡ running)
  unfolding next_occupied times
  next_occupied_ends zero k index lt back runs = absurd (omega (arith, lt))
  next_occupied_ends (suc fuel) zero index lt back runs =
      let here : (step index == start) ≡ true = ground (arith, back) in ground (arith, here, runs)
  next_occupied_ends (suc fuel) (suc k) index lt back runs =
      let later = next_occupied_ends fuel k (step index) (omega (arith, lt)) back in
      elim (Bool-cases (slot_id slots (step index) == 0)) [
        | inr e ↦ ground (arith, e, runs)
        | inl e ↦ elim (Bool-cases (step index == start)) [
          | inl d ↦ ground (arith, e, d, runs)
          | inr d ↦ later (ground (arith, e, d, runs))
        ]
      ]

-- Steps of `c` around a circle of `size` indices.
turn : ℕ → ℕ → ℕ → ℕ
turn size c i = (i + c) % size

times-turn : (size c k i : ℕ) → times k (turn size c) (i % size) ≡ (i + k * c) % size
unfolding times turn
times-turn size c zero i = ap (λ n. n % size) (omega arith)
times-turn size c (suc k) i =
    rw (mod-add-mod i size c, times-turn size c k (i + c)) (ap (λ n. n % size) (omega arith))

full_turn : (n c start : ℕ) → start < suc n → times (suc n) (turn (suc n) c) start ≡ start
full_turn n c start below =
    let small : start % suc n ≡ start = mod-eq_of_lt below in
    let around : times (suc n) (turn (suc n) c) (start % suc n) ≡ start =
      times-turn (suc n) c (suc n) start ∙ add-mul-mod_self_left start (suc n) c ∙ small in
    subst (λ i. times (suc n) (turn (suc n) c) i ≡ start) small around

-- The search of a bar with `size` slots, forward with steps of 1 or backward with steps of `size` - 1,
-- ends within `size` rounds from an index of the bar: it has found a slot with an item or is back at
-- the start.
pub next_occupied_stops :
    (size c start : ℕ) (slots : List ℕ)
    → start < size
    → ¬ (next_occupied size (λ i. (i + c) % size) slots start start ≡ running)
unfolding turn
next_occupied_stops zero c start slots below = absurd (omega (arith, below))
next_occupied_stops (suc n) c start slots below =
    next_occupied_ends (turn (suc n) c) slots start (suc n) n start (omega arith)
      (full_turn n c start below)
