-- ===== src/DeltaReplicator/Applying.antt =====
-- What the loops of `apply_patch` do to an array and to a dictionary, and which patches the loops of
-- `make_patch` list.
use gfgdextension.Common.{
  ℕ, suc, ◌-◌, ◌≤◌, ◌≡◌, refl, List, [], ◌∷◌, Option, none, some, Bool, false, ◌==◌, Bool-cases,
  inl, inr, arith,
}
use gfgdextension.DeltaReplicator.Values.{
  Engine, Variant, Items, done, item, Entries, end, entry, find, keys, put_entry, update_item,
  resize, or_nil, has_key, WellFormedEntries,
}
use gfgdextension.DeltaReplicator.Entries.{find-put_entry}
use gfgdextension.DeltaReplicator.Patches.{
  Patch, Patches, finish, patch, find_patch, patch_keys, add_patch, patch_against, make_patch,
  make_items, make_entries, apply_patch, apply_items, apply_entries,
}

-- The loop over the elements, for indices counted from `i`.
pub apply_at : ℕ → Patches → Items → Items
apply_at i finish xs = xs
apply_at i (patch k p ps) xs =
    apply_at i ps (update_item xs (k - i) (λ (x : Variant). apply_patch x p))

pub apply_at_nil : (i : ℕ) (xs : Items) → apply_at i finish (resize 0 xs) ≡ done
unfolding apply_at
apply_at_nil i xs = refl

pub apply_items-apply_at : (ps : Patches) (xs : Items) → apply_items ps xs ≡ apply_at 0 ps xs
unfolding apply_at apply_items
apply_items-apply_at finish xs = refl
apply_items-apply_at (patch k p ps) xs =
    let same : k - 0 ≡ k = omega arith in
    rw same (apply_items-apply_at ps (update_item xs k (λ (x : Variant). apply_patch x p)))

abbrev pub From : ℕ → Patches → Type 0
From i finish = Unit
From i (patch k p ps) = (i ≤ k) × From i ps

pub From-suc : (i : ℕ) (ps : Patches) → From (suc i) ps → From i ps
From-suc i finish h = tt
From-suc i (patch k p ps) h = (omega (arith, h.0), From-suc i ps h.1)

pub apply_at-item :
    (i : ℕ) (ps : Patches) (x : Variant) (xs : Items)
    → From (suc i) ps
    → apply_at i ps (item x xs) ≡ item x (apply_at (suc i) ps xs)
unfolding apply_at
apply_at-item i finish x xs h = refl
apply_at-item i (patch k p ps) x xs h =
    let later : k - i ≡ suc (k - suc i) = omega (arith, h.0) in
    rw later
      (apply_at-item i ps x (update_item xs (k - suc i) (λ (y : Variant). apply_patch y p)) h.1)

pub apply_at_first :
    (i : ℕ) (p : Patch) (ps : Patches) (x : Variant) (xs : Items)
    → From (suc i) ps
    → apply_at i (patch i p ps) (item x xs) ≡ item (apply_patch x p) (apply_at (suc i) ps xs)
unfolding apply_at
apply_at_first i p ps x xs h =
    let here : i - i ≡ 0 = omega arith in rw here (apply_at-item i ps (apply_patch x p) xs h)

pub find_patch_absent :
    (k : ℕ) (ps : Patches) → has_key k (patch_keys ps) ≡ false → find_patch k ps ≡ none
unfolding has_key find_patch
find_patch_absent k finish h = refl
find_patch_absent k (patch j p ps) h = ground (arith, h, find_patch_absent k ps)

abbrev pub Distinct : List ℕ → Type 0
Distinct [] = Unit
Distinct (k ∷ ks) = (has_key k ks ≡ false) × Distinct ks

abbrev pub patched : Option Patch → Option Variant → Option Variant
patched none old = old
patched (some p) old = some (apply_patch (or_nil old) p)

-- Each entry is patched by the patch at its key.
pub find-apply_entries :
    (k : ℕ) (ps : Patches) (es : Entries)
    → Distinct (patch_keys ps)
    → find k (apply_entries ps es) ≡ patched (find_patch k ps) (find k es)
unfolding apply_entries find_patch
find-apply_entries k finish es h = refl
find-apply_entries k (patch j p ps) es h =
    let es' = put_entry j (apply_patch (or_nil (find j es)) p) es in
    let later = find-apply_entries k ps es' h.1 in
    let written = find-put_entry k j (apply_patch (or_nil (find j es)) p) es in
    elim (Bool-cases (j == k)) [
      | inl e ↦
          let same : j ≡ k = ground (arith, e) in
          let absent : find_patch k ps ≡ none = rw (← same) (find_patch_absent j ps h.0) in
          rw (later, absent, written, e, same) refl
      | inr e ↦ rw (later, written, e) refl
    ]

fresh-add :
    (k j : ℕ) (o : Option Patch) (ps : Patches)
    → (j == k) ≡ false
    → has_key k (patch_keys ps) ≡ false
    → has_key k (patch_keys (add_patch j o ps)) ≡ false
unfolding has_key
fresh-add k j none ps ne h = h
fresh-add k j (some p) ps ne h = rw ne h

Distinct-add :
    (k : ℕ) (o : Option Patch) (ps : Patches)
    → has_key k (patch_keys ps) ≡ false
    → Distinct (patch_keys ps)
    → Distinct (patch_keys (add_patch k o ps))
Distinct-add k none ps fresh h = h
Distinct-add k (some p) ps fresh h = (fresh, h)

find_patch_first :
    (k : ℕ) (o : Option Patch) (ps : Patches)
    → has_key k (patch_keys ps) ≡ false
    → find_patch k (add_patch k o ps) ≡ o
unfolding find_patch
find_patch_first k none ps fresh = find_patch_absent k ps fresh
find_patch_first k (some p) ps fresh = ground arith

find_patch_other :
    (k j : ℕ) (o : Option Patch) (ps : Patches)
    → (j == k) ≡ false
    → find_patch k (add_patch j o ps) ≡ find_patch k ps
unfolding find_patch
find_patch_other k j none ps ne = refl
find_patch_other k j (some p) ps ne = rw ne refl

module _ (engine : Engine) (is_smaller : Patch → Variant → Bool) where
  From-add_patch :
      (i k : ℕ) (o : Option Patch) (ps : Patches) → i ≤ k → From i ps → From i (add_patch k o ps)
  From-add_patch i k none ps lt h = h
  From-add_patch i k (some p) ps lt h = (lt, h)

  pub From-make_items : (i : ℕ) (xs ys : Items) → From i (make_items engine is_smaller i xs ys)
  unfolding make_items
  From-make_items i xs done = tt
  From-make_items i done (item y ys) = (
    omega arith,
    From-suc i (make_items engine is_smaller (suc i) done ys) (From-make_items (suc i) done ys),
  )
  From-make_items i (item x xs) (item y ys) =
      From-add_patch i i (make_patch engine is_smaller x y)
        (make_items engine is_smaller (suc i) xs ys) (omega arith)
        (From-suc i (make_items engine is_smaller (suc i) xs ys) (From-make_items (suc i) xs ys))

  pub fresh-make_entries :
      (k : ℕ) (es fs : Entries)
      → has_key k (keys fs) ≡ false
      → has_key k (patch_keys (make_entries engine is_smaller es fs)) ≡ false
  unfolding has_key make_entries
  fresh-make_entries k es end h = refl
  fresh-make_entries k es (entry j v fs) h =
      let rest : has_key k (patch_keys (make_entries engine is_smaller es fs)) ≡ false =
        fresh-make_entries k es fs (ground (arith, h)) in
      fresh-add k j
        (patch_against (find j es) v (λ (w : Variant). make_patch engine is_smaller w v))
        (make_entries engine is_smaller es fs) (ground (arith, h)) rest

  pub Distinct-make_entries :
      (es fs : Entries)
      → WellFormedEntries fs
      → Distinct (patch_keys (make_entries engine is_smaller es fs))
  unfolding make_entries
  Distinct-make_entries es end h = tt
  Distinct-make_entries es (entry k v fs) h =
      Distinct-add k
        (patch_against (find k es) v (λ (w : Variant). make_patch engine is_smaller w v))
        (make_entries engine is_smaller es fs) (fresh-make_entries k es fs h.0)
        (Distinct-make_entries es fs h.2)

  -- The patch at the key of an entry is the one for that entry.
  pub find_patch-make_entries :
      (k : ℕ) (v : Variant) (es fs : Entries)
      → WellFormedEntries fs
      → find k fs ≡ some v
      → find_patch k (make_entries engine is_smaller es fs)
        ≡ patch_against (find k es) v (λ w. make_patch engine is_smaller w v)
  unfolding make_entries find
  find_patch-make_entries k v es end h at = absurd (ground (arith, at))
  find_patch-make_entries k v es (entry j w fs) h at = elim (Bool-cases (j == k)) [
    | inl e ↦
        let here : j ≡ k = ground (arith, e) in
        let what : w ≡ v = ground (arith, at, e) in
        rw (here, what)
          (find_patch_first k
            (patch_against (find k es) v (λ (w : Variant). make_patch engine is_smaller w v))
            (make_entries engine is_smaller es fs) (fresh-make_entries k es fs (rw (← here) h.0)))
    | inr e ↦
        rw
          (find_patch_other k j
            (patch_against (find j es) w (λ (u : Variant). make_patch engine is_smaller u w))
            (make_entries engine is_smaller es fs) e)
          (find_patch-make_entries k v es fs h.2 (ground (arith, at, e)))
  ]
