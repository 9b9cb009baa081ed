-- ===== src/DeltaReplicator/Patches.antt =====
-- framework/delta_replicator.cpp: `make_patch` and `apply_patch`. `engine` answers for Variants, and
-- `is_smaller` says whether a patch encodes smaller than the whole value.
use gfgdextension.Common.{
  ℕ, suc, List, [], ◌∷◌, ◌++◌, Option, none, some, Bool, true, false, not, if◌then◌else◌, ◌==◌,
  keep, ◌&&◌,
}
use gfgdextension.DeltaReplicator.Values.{
  Engine, same, Variant, nil, leaf, array, dictionary, Items, done, item, Entries, end, entry,
  as_array, as_dictionary, with_array, with_dictionary, with_index, items_size, update_item, resize,
  find, or_nil, keys, put_entry, erase_entry, has_key,
}

-- A field that the source leaves out of a patch is empty here. `keyed` has the field, the updates, the
-- keys that are gone, and the order where it is spelled out.
mutual
  pub data Patch : Type 0 where
    whole : Variant → Patch
    sized : ℕ → Patches → Patch
    keyed : ℕ → Patches → List ℕ → Option (List ℕ) → Patch
    changes : Patches → List ℕ → Patch

  pub data Patches : Type 0 where
    finish : Patches
    patch : ℕ → Patch → Patches → Patches

unfoldable pub find_patch : ℕ → Patches → Option Patch
find_patch k finish = none
find_patch k (patch j p ps) = let rest = find_patch k ps in if j == k then some p else rest

abbrev pub patch_keys : Patches → List ℕ
patch_keys finish = []
patch_keys (patch k p ps) = k ∷ patch_keys ps

abbrev pub add_patch : ℕ → Option Patch → Patches → Patches
add_patch k none ps = ps
add_patch k (some p) ps = patch k p ps

-- A patch in place of one under the same key.
unfoldable pub put_patch : ℕ → Patch → Patches → Patches
put_patch k p finish = patch k p finish
put_patch k p (patch j q ps) =
    let rest = put_patch k p ps in if j == k then patch k p ps else patch j q rest

abbrev pub set_patch : ℕ → Option Patch → Patches → Patches
set_patch k none ps = ps
set_patch k (some p) ps = put_patch k p ps

-- The patches that there are for the given keys, in order.
unfoldable pub set_each : (ℕ → Option Patch) → List ℕ → Patches → Patches
set_each make [] ps = ps
set_each make (k ∷ ks) ps = set_each make ks (set_patch k (make k) ps)

abbrev pub key_of : Option Variant → Option ℕ
key_of (some (leaf k)) = some k
key_of (some nil) = none
key_of (some (array t xs)) = none
key_of (some (dictionary t es)) = none
key_of none = none

-- The key of an element, which has to be a Dictionary with the field.
abbrev pub element_key : ℕ → Variant → Option ℕ
element_key field (dictionary t es) = key_of (find field es)
element_key field nil = none
element_key field (leaf n) = none
element_key field (array t xs) = none

abbrev pub add_unique : Option ℕ → Variant → Option Entries → Option Entries
add_unique (some k) v (some es) = if has_key k (keys es) then none else some (entry k v es)
add_unique (some k) v none = none
add_unique none v es = none

-- The elements by their keys, in order. Nothing where an element is no Dictionary, has no key, or shares
-- one.
unfoldable pub index_by_key : ℕ → Items → Option Entries
index_by_key field done = some end
index_by_key field (item x xs) = add_unique (element_key field x) x (index_by_key field xs)

unfoldable pub same_keys : List ℕ → List ℕ → Bool
same_keys [] [] = true
same_keys [] (k ∷ ks) = false
same_keys (j ∷ js) [] = false
same_keys (j ∷ js) (k ∷ ks) = j == k && same_keys js ks

unfoldable pub removed_keys : Entries → Entries → List ℕ
removed_keys old new = keep (λ k. not (has_key k (keys new))) (keys old)

-- The old keys that stay, then the new ones.
unfoldable pub expected_order : Entries → Entries → List ℕ
expected_order old new =
    keep (λ k. has_key k (keys new)) (keys old) ++ keep (λ k. not (has_key k (keys old))) (keys new)

-- A new value is sent whole, another as its patch against the old one.
abbrev pub patch_against : Option Variant → Variant → (Variant → Option Patch) → Option Patch
patch_against none v make = some (whole v)
patch_against (some w) v make = make w

module _ (engine : Engine) (is_smaller : Patch → Variant → Bool) where
  unfoldable pub smaller_of : Patch → Variant → Patch
  smaller_of p new = if is_smaller p new then p else whole new

  unfoldable mutual
    pub make_patch : Variant → Variant → Option Patch
    make_patch old nil = if same engine old nil then none else some (whole nil)
    make_patch old (leaf n) = if same engine old (leaf n) then none else some (whole (leaf n))
    make_patch old (array u ys) =
        if same engine old (array u ys) then none else elim (as_array old) [
          | none ↦ some (whole (array u ys))
          | some (t, xs) ↦
              if t == u
              then some (smaller_of (sized (items_size ys) (make_items 0 xs ys)) (array u ys))
              else some (whole (array u ys))
        ]
    make_patch old (dictionary u fs) =
        if same engine old (dictionary u fs) then none else elim (as_dictionary old) [
          | none ↦ some (whole (dictionary u fs))
          | some (t, es) ↦
              if t == u
              then some
                  (smaller_of (changes (make_entries es fs) (removed_keys es fs)) (dictionary u fs))
              else some (whole (dictionary u fs))
        ]

    -- The patches of the elements from an index on.
    pub make_items : ℕ → Items → Items → Patches
    make_items i xs done = finish
    make_items i done (item y ys) = patch i (whole y) (make_items (suc i) done ys)
    make_items i (item x xs) (item y ys) = add_patch i (make_patch x y) (make_items (suc i) xs ys)

    -- The patches of the entries, also of the elements of a keyed array.
    pub make_entries : Entries → Entries → Patches
    make_entries es end = finish
    make_entries es (entry k v fs) =
        add_patch k (patch_against (find k es) v (λ (w : Variant). make_patch w v))
          (make_entries es fs)

  unfoldable pub make_keyed_patch : ℕ → Variant → Entries → Entries → Patch
  make_keyed_patch field new old_by_key new_by_key =
      smaller_of
        (keyed field (make_entries old_by_key new_by_key) (removed_keys old_by_key new_by_key) (
          if same_keys (expected_order old_by_key new_by_key) (keys new_by_key)
          then none
          else some (keys new_by_key)))
        new

  -- `make_patch` with a key field, which the source calls for the properties in `keyed_arrays` only.
  unfoldable pub make_patch_by_key : ℕ → Variant → Variant → Option Patch
  make_patch_by_key field old new = if same engine old new then none else elim (as_array old) [
    | none ↦ make_patch old new
    | some (t, xs) ↦ elim (as_array new) [
      | none ↦ make_patch old new
      | some (u, ys) ↦ if not (t == u) then make_patch old new else elim (index_by_key field xs) [
        | none ↦ make_patch old new
        | some old_by_key ↦ elim (index_by_key field ys) [
          | none ↦ make_patch old new
          | some new_by_key ↦ some (make_keyed_patch field new old_by_key new_by_key)
        ]
      ]
    ]
  ]

unfoldable pub erase_all : List ℕ → Entries → Entries
erase_all [] es = es
erase_all (k ∷ ks) es = erase_all ks (erase_entry k es)

-- The order that follows from the removals and additions.
unfoldable pub implied_order : Entries → Patches → List ℕ → List ℕ
implied_order by_key updated gone =
    keep (λ k. not (has_key k gone)) (keys by_key)
    ++ keep (λ k. not (has_key k (keys by_key))) (patch_keys updated)

unfoldable pub order_of : Entries → Patches → List ℕ → Option (List ℕ) → List ℕ
order_of by_key updated gone none = implied_order by_key updated gone
order_of by_key updated gone (some order) = order

abbrev pub updated_or : Option Variant → Option Variant → Variant
updated_or (some v) old = v
updated_or none old = or_nil old

-- The elements in the given order: the updated ones, and the old ones.
unfoldable pub collect : Entries → Entries → List ℕ → Items
collect updated by_key [] = done
collect updated by_key (k ∷ ks) =
    item (updated_or (find k updated) (find k by_key)) (collect updated by_key ks)

unfoldable mutual
  pub apply_patch : Variant → Patch → Variant
  apply_patch old (whole v) = v
  apply_patch old (sized n ps) =
      with_array (as_array old) old (λ (t : ℕ) (xs : Items). array t (apply_items ps (resize n xs)))
  apply_patch old (keyed field updated gone order) =
      with_array (as_array old) old (λ (t : ℕ) (xs : Items).
        with_index (index_by_key field xs) old (λ (by_key : Entries).
          array t
            (collect (apply_updates updated by_key) by_key (order_of by_key updated gone order))))
  apply_patch old (changes ps removed) =
      with_dictionary (as_dictionary old) old
        (λ (t : ℕ) (es : Entries). dictionary t (apply_entries ps (erase_all removed es)))

  pub apply_items : Patches → Items → Items
  apply_items finish xs = xs
  apply_items (patch i p ps) xs =
      apply_items ps (update_item xs i (λ (x : Variant). apply_patch x p))

  pub apply_entries : Patches → Entries → Entries
  apply_entries finish es = es
  apply_entries (patch k p ps) es =
      apply_entries ps (put_entry k (apply_patch (or_nil (find k es)) p) es)

  -- The updated elements of a keyed array, each from the old element with its key.
  pub apply_updates : Patches → Entries → Entries
  apply_updates finish by_key = end
  apply_updates (patch k p ps) by_key =
      entry k (apply_patch (or_nil (find k by_key)) p) (apply_updates ps by_key)

-- null in place of a patch leaves the value.
abbrev pub apply_any : Variant → Option Patch → Variant
apply_any old none = old
apply_any old (some p) = apply_patch old p
