-- ===== src/DeltaReplicator/Keyed/Indexing.antt =====
-- The index of an array's elements by their keys, and those of equal arrays.
use gfgdextension.Common.{
  ℕ, ◌≡◌, refl, ap, Option, none, some, false, ◌==◌, Bool-cases, Option-cases, inl, inr, arith,
  subst,
}
use gfgdextension.DeltaReplicator.Values.{
  Variant, nil, leaf, array, dictionary, Items, done, item, Entries, end, entry, find, keys, values,
  has_key, WellFormedItems, WellFormedEntries, Same, SameItems,
}
use gfgdextension.DeltaReplicator.Sameness.{Alike, find-SameEntries, find-Alike-none}
use gfgdextension.DeltaReplicator.Patches.{key_of, element_key, add_unique, index_by_key}

-- An index lists the elements in order, under distinct keys.
added_lem :
    (k : Option ℕ) (x : Variant) (o : Option Entries) (es : Entries)
    → add_unique k x o ≡ some es
    → (j : ℕ) × (rest : Entries) × (es ≡ entry j x rest)
      × (o ≡ some rest)
      × (has_key j (keys rest) ≡ false)
      × (k ≡ some j)
added_lem none x o es added = absurd (ground (arith, added))
added_lem (some k) x none es added = absurd (ground (arith, added))
added_lem (some k) x (some rest) es added = elim (Bool-cases (has_key k (keys rest))) [
  | inl e ↦ absurd (ground (arith, added, e))
  | inr e ↦ (k, rest, ground (arith, added, e), refl, e, refl)
]

pub values-index_by_key :
    (field : ℕ) (xs : Items) (es : Entries) → index_by_key field xs ≡ some es → values es ≡ xs
unfolding index_by_key
values-index_by_key field done es indexed =
    let same : end ≡ es = ground (arith, indexed) in rw (← same) refl
values-index_by_key field (item x xs) es indexed =
    let (j, rest, whole_list, later, fresh, key) =
      added_lem (element_key field x) x (index_by_key field xs) es indexed in
    rw whole_list (ap (item x) (values-index_by_key field xs rest later))

pub formed-index_by_key :
    (field : ℕ) (xs : Items) (es : Entries)
    → WellFormedItems xs
    → index_by_key field xs ≡ some es
    → WellFormedEntries es
unfolding index_by_key
formed-index_by_key field done es formed indexed =
    let same : end ≡ es = ground (arith, indexed) in rw (← same) tt
formed-index_by_key field (item x xs) es formed indexed =
    let (j, rest, whole_list, later, fresh, key) =
      added_lem (element_key field x) x (index_by_key field xs) es indexed in
    rw whole_list (fresh, formed.0, formed-index_by_key field xs rest formed.1 later)

key_of-Same : (w v : Variant) → Same w v → key_of (some w) ≡ key_of (some v)
key_of-Same w nil h = rw h refl
key_of-Same w (leaf n) h = rw h refl
key_of-Same w (array t xs) (ys, whole, there) = rw whole refl
key_of-Same w (dictionary t es) (fs, whole, there, no_other) = rw whole refl

element_key-Same :
    (field : ℕ) (x' x : Variant) → Same x' x → element_key field x' ≡ element_key field x
element_key-Same field x' nil h = rw h refl
element_key-Same field x' (leaf n) h = rw h refl
element_key-Same field x' (array t xs) (ys, whole, there) = rw whole refl
element_key-Same field x' (dictionary t es) (es', whole, there, no_other) =
    let like : Alike es' es = record { there = there; no_other = no_other } in
    elim (Option-cases (find field es)) [
      | inl n ↦ rw (whole, n, find-Alike-none es' es field like n) refl
      | inr (v, n) ↦
          let (w, found, alike) = find-SameEntries es' es field v there n in
          rw (whole, n, found) (key_of-Same w v alike)
    ]

-- Indices of equal arrays.
pub record Matching (es' es : Entries) : Type 0 where
  pub same_order : keys es' ≡ keys es
  pub found :
      (k : ℕ) (w : Variant)
      → find k es ≡ some w
      → (w' : Variant) × (find k es' ≡ some w') × Same w' w

Matching-entry :
    (j : ℕ) (x' x : Variant) (es' es : Entries)
    → Same x' x
    → Matching es' es
    → Matching (entry j x' es') (entry j x es)
unfolding find
Matching-entry j x' x es' es like h = record {
  same_order = rw h.same_order refl;
  found = λ k w at. elim (Bool-cases (j == k)) [
    | inl e ↦
        let what : x ≡ w = ground (arith, at, e) in
        (x', rw e refl, subst (λ y. Same x' y) what like)
    | inr e ↦
        let (w', there, alike) = h.found k w (ground (arith, at, e)) in (w', rw e there, alike)
  ];
}

pub index_by_key-Same :
    (field : ℕ) (xs xs' : Items) (es : Entries)
    → SameItems xs' xs
    → index_by_key field xs ≡ some es
    → (es' : Entries) × (index_by_key field xs' ≡ some es') × Matching es' es
unfolding index_by_key find
index_by_key-Same field done xs' es like indexed =
    let same : end ≡ es = ground (arith, indexed) in
    (
      end,
      rw like refl,
      rw (← same) (record { same_order = refl; found = λ k w at. absurd (ground (arith, at)) }),
    )
index_by_key-Same field (item x xs) xs' es (x', rest, is_item, like, later) indexed =
    let (j, others, whole_list, later_index, fresh, key) =
      added_lem (element_key field x) x (index_by_key field xs) es indexed in
    let (others', index, match) = index_by_key-Same field xs rest others later later_index in
    (
      entry j x' others',
      rw (is_item, element_key-Same field x' x like, key, index, match.same_order, fresh) refl,
      rw whole_list (Matching-entry j x' x others' others like match),
    )
