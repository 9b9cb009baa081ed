-- ===== src/DeltaReplicator/Keyed.antt =====
-- The round trip of a patch between arrays whose elements are matched by a key.
pub mod Indexing
use gfgdextension.Common.{
  ℕ, zero, suc, ◌≡◌, refl, sym, ap, subst, ◌⊎◌, ◌∙◌, List, [], ◌∷◌, ◌++◌, Option, none, some, Bool,
  true, false, not, if◌then◌else◌, ◌==◌, is_some, keep, ◌&&◌, Bool-cases, Option-cases, inl, inr,
  arith,
}
use gfgdextension.DeltaReplicator.Typing.{
  formed-Conforms, items-Conform, as_array-Conforms, same-Same, AllConform, find-AllConform,
  index-AllConform,
}
use gfgdextension.DeltaReplicator.Values.{
  is_same_typed, as_dictionary, ComparesContents, Schema, Conforms, ItemsConform, Engine, same,
  Variant, nil, leaf, array, dictionary, Items, done, item, Entries, end, entry, as_array, find,
  keys, values, or_nil, has_key, with_index, WellFormed, WellFormedItems, WellFormedEntries, Same,
  SameItems,
}
use gfgdextension.DeltaReplicator.Entries.{
  is_some-find, has_key-keep, find-tail, find_first, Same-refl,
}
use gfgdextension.DeltaReplicator.Patches.{
  Patch, whole, keyed, Patches, finish, patch, find_patch, patch_keys, add_patch, patch_against,
  make_patch, make_entries, smaller_of, make_keyed_patch, make_patch_by_key, element_key,
  add_unique, index_by_key, same_keys, removed_keys, expected_order, implied_order, order_of,
  updated_or, collect, apply_patch, apply_any, apply_updates,
}
use gfgdextension.DeltaReplicator.Sameness.{Same-trans, as_array-Same}
use gfgdextension.DeltaReplicator.Keyed.Indexing.{
  values-index_by_key, formed-index_by_key, Matching, index_by_key-Same,
}
use gfgdextension.DeltaReplicator.Applying.{find_patch-make_entries}
use gfgdextension.DeltaReplicator.RoundTrip.{apply-make, apply-smaller_of, has_key-removed}

keep-same :
    (p q : ℕ → Bool) (ks : List ℕ)
    → ((k : ℕ) → has_key k ks ≡ true → p k ≡ q k)
    → keep p ks ≡ keep q ks
unfolding has_key
keep-same p q [] h = refl
keep-same p q (k ∷ ks) h =
    let here : p k ≡ q k = h k (ground arith) in
    let rest : keep p ks ≡ keep q ks = keep-same p q ks (λ j at. h j (ground (arith, at))) in
    rw (here, rest) refl

same_keys_lem : (js ks : List ℕ) → same_keys js ks ≡ true → js ≡ ks
unfolding same_keys
same_keys_lem [] [] h = refl
same_keys_lem [] (k ∷ ks) h = absurd (ground (arith, h))
same_keys_lem (j ∷ js) [] h = absurd (ground (arith, h))
same_keys_lem (j ∷ js) (k ∷ ks) h =
    let here : j ≡ k = ground (arith, h) in
    let rest : js ≡ ks = same_keys_lem js ks (ground (arith, h)) in rw (here, rest) refl

abbrev updated_entry : Option Patch → Option Variant → Option Variant
updated_entry none old = none
updated_entry (some p) old = some (apply_patch (or_nil old) p)

find-apply_updates :
    (k : ℕ) (ps : Patches) (es : Entries)
    → find k (apply_updates ps es) ≡ updated_entry (find_patch k ps) (find k es)
unfolding apply_updates find find_patch
find-apply_updates k finish es = refl
find-apply_updates k (patch j p ps) es = elim (Bool-cases (j == k)) [
  | inl e ↦ let same : j ≡ k = ground (arith, e) in rw (e, same) refl
  | inr e ↦ rw e (find-apply_updates k ps es)
]

picked_any :
    (o : Option Patch) (w : Variant)
    → updated_or (updated_entry o (some w)) (some w) ≡ apply_any w o
picked_any none w = refl
picked_any (some p) w = refl

module _ (engine : Engine) (is_smaller : Patch → Variant → Bool) where
  added_keys :
      (es fs : Entries)
      → keep (λ k. not (has_key k (keys es))) (patch_keys (make_entries engine is_smaller es fs))
        ≡ keep (λ k. not (has_key k (keys es))) (keys fs)
  unfolding make_entries
  added_keys es end = refl
  added_keys es (entry k v fs) = elim (Option-cases (find k es)) [
    | inl n ↦ rw (n, added_keys es fs) refl
    | inr (w, n) ↦
        let old : has_key k (keys es) ≡ true = ground (arith, is_some-find k es, n) in
        elim (Option-cases (make_patch engine is_smaller w v)) [
          | inl m ↦ rw (n, m, old) (added_keys es fs)
          | inr (p, m) ↦ rw (n, m, old) (added_keys es fs)
        ]
  ]

  -- The order that the receiver works out is the one that the sender compared with.
  implied_order-expected :
      (es fs : Entries)
      → implied_order es (make_entries engine is_smaller es fs) (removed_keys es fs)
        ≡ expected_order es fs
  unfolding implied_order expected_order
  implied_order-expected es fs =
      rw
        (
          added_keys es fs,
          keep-same (λ k. not (has_key k (removed_keys es fs))) (λ k. has_key k (keys fs)) (keys es)
              (λ k at. ground (arith, has_key-removed k es fs, at)),
        )
        refl

  order_of-sent :
      (es es' fs : Entries)
      → keys es' ≡ keys es
      → order_of es'
          (make_entries engine is_smaller es fs)
          (removed_keys es fs)
          (if same_keys (expected_order es fs) (keys fs) then none else some (keys fs))
        ≡ keys fs
  unfolding order_of implied_order
  order_of-sent es es' fs same_order =
      elim (Bool-cases (same_keys (expected_order es fs) (keys fs))) [
        | inl e ↦
            rw (e, same_order)
              (implied_order-expected es fs ∙ same_keys_lem (expected_order es fs) (keys fs) e)
        | inr e ↦ rw e refl
      ]

  make_any : Variant → Variant → Option Patch
  make_any v w = make_patch engine is_smaller w v

  module _ (compares : ComparesContents engine) (σ : Schema) where
    -- The element that is collected at the key of a new element is that element.
    picked-Same :
        (q k : ℕ) (v : Variant) (es es' fs : Entries)
        → Matching es' es
        → WellFormedEntries fs
        → Conforms σ q v
        → AllConform σ q es
        → find k fs ≡ some v
        → Same
            (updated_or
              (find k (apply_updates (make_entries engine is_smaller es fs) es'))
              (find k es'))
            v
    unfolding apply_patch
    picked-Same q k v es es' fs match formed inside had at =
        let found =
          find-apply_updates k (make_entries engine is_smaller es fs) es'
          ∙ ap (λ o. updated_entry o (find k es'))
              (find_patch-make_entries engine is_smaller k v es fs formed at) in
        elim (Option-cases (find k es)) [
          | inl n ↦ rw (found, n) (Same-refl v (formed-Conforms σ v q inside))
          | inr (w, n) ↦
              let (w', there, alike) = match.found k w n in
              rw (found, n, there, picked_any (make_patch engine is_smaller w v) w')
                (apply-make engine is_smaller compares σ v q inside w w'
                  (find-AllConform σ q k w es had n) alike)
        ]

    collect-Same :
        (q : ℕ) (part updated es : Entries)
        → WellFormedEntries part
        → AllConform σ q part
        → ((k : ℕ) (v : Variant)
            → Conforms σ q v
            → find k part ≡ some v
            → Same (updated_or (find k updated) (find k es)) v)
        → SameItems (collect updated es (keys part)) (values part)
    unfolding collect
    collect-Same q end updated es formed conforms picked = refl
    collect-Same q (entry k v part) updated es formed conforms picked = (
      updated_or (find k updated) (find k es),
      collect updated es (keys part),
      refl,
      picked k v conforms.0 (find_first k v part),
      collect-Same q part updated es formed.2 conforms.1
          (λ j w inside at. picked j w inside (find-tail k j v w part formed.0 at)),
    )

    keyed-Same :
        (q field t : ℕ) (c : Variant) (xs' ys : Items) (es es' fs : Entries)
        → as_array c ≡ some (t, xs')
        → index_by_key field xs' ≡ some es'
        → Matching es' es
        → index_by_key field ys ≡ some fs
        → ItemsConform σ q ys
        → AllConform σ q es
        → Same
            (apply_patch c (make_keyed_patch engine is_smaller field (array t ys) es fs))
            (array t ys)
    unfolding apply_patch make_keyed_patch
    keyed-Same q field t c xs' ys es es' fs here index match new_index conforms had =
        let formed = items-Conform σ ys q conforms in
        let updated = make_entries engine is_smaller es fs in
        let gone = removed_keys es fs in
        let order = if same_keys (expected_order es fs) (keys fs) then none else some (keys fs) in
        let formed_index = formed-index_by_key field ys fs formed new_index in
        let indexed : with_index (index_by_key field xs') c (λ (by_key : Entries).
          array t
            (collect (apply_updates updated by_key) by_key (order_of by_key updated gone order)))
            ≡ array t (collect (apply_updates updated es') es' (keys fs)) =
          rw index (rw (order_of-sent es es' fs match.same_order) refl) in
        let result : apply_patch c (keyed field updated gone order)
            ≡ array t (collect (apply_updates updated es') es' (keys fs)) =
          rw here indexed in
        let all : SameItems (collect (apply_updates updated es') es' (keys fs)) ys =
          rw (sym (values-index_by_key field ys fs new_index)) (
            collect-Same q fs (apply_updates updated es') es' formed_index
              (index-AllConform σ q field ys fs conforms new_index)
              (λ k v inside at. picked-Same q k v es es' fs match formed_index inside had at)) in
        apply-smaller_of engine is_smaller c (array t ys) (keyed field updated gone order) formed
          (collect (apply_updates updated es') es' (keys fs), result, all)

    array-cases :
        (new : Variant) → (as_array new ≡ none) ⊎ ((u : ℕ) × (ys : Items) × (new ≡ array u ys))
    unfolding as_array
    array-cases nil = inl refl
    array-cases (leaf n) = inl refl
    array-cases (array u ys) = inr (u, ys, refl)
    array-cases (dictionary u es) = inl refl

    arrays-Same :
        (q field t u : ℕ) (old c : Variant) (xs ys : Items)
        → Conforms σ q old
        → Same c old
        → as_array old ≡ some (t, xs)
        → Conforms σ q (array u ys)
        → Same
            (apply_any c (make_patch_by_key engine is_smaller field old (array u ys)))
            (array u ys)
    unfolding make_patch_by_key as_array
    arrays-Same q field t u old c xs ys had like old_array conforms =
        let new = array u ys in
        let plain = apply-make engine is_smaller compares σ new q conforms old c had like in
        let (xs', here, items) = as_array-Same c old t xs like old_array in
        elim (Bool-cases (same engine old new)) [
          | inl e ↦
              rw e
                (Same-trans new c old like (same-Same engine compares σ q old new had conforms e))
          | inr e ↦ elim (Bool-cases (t == u)) [
            | inr d ↦ rw (e, old_array, d) plain
            | inl d ↦
                let typed : t ≡ u = ground (arith, d) in
                elim (Option-cases (index_by_key field xs)) [
                  | inl n ↦ rw (e, old_array, d, n) plain
                  | inr (es, n) ↦ elim (Option-cases (index_by_key field ys)) [
                    | inl m ↦ rw (e, old_array, d, n, m) plain
                    | inr (fs, m) ↦
                        let (es', index, match) = index_by_key-Same field xs xs' es items n in
                        rw (e, old_array, d, n, m)
                          (keyed-Same (σ.element_kind q) field u c xs' ys es es' fs
                            (rw (← typed) here) index match m conforms.1
                            (index-AllConform σ (σ.element_kind q) field xs es
                              (as_array-Conforms σ q old t xs had old_array).1 n))
                  ]
                ]
          ]
        ]

    -- What is sent whole is right whatever was before.
    retyped-Same :
        (new old c : Variant)
        → WellFormed new
        → same engine old new ≡ false
        → is_same_typed old new ≡ false
        → Same (apply_any c (make_patch engine is_smaller old new)) new
    unfolding make_patch apply_patch
    retyped-Same nil old c formed differ other = rw differ refl
    retyped-Same (leaf n) old c formed differ other = rw differ refl
    retyped-Same (array u ys) old c formed differ other = elim (Option-cases (as_array old)) [
      | inl n ↦ rw (differ, n) (Same-refl (array u ys) formed)
      | inr ((t, xs), n) ↦
          let untyped : (t == u) ≡ false = ground (arith, other, n) in
          rw (differ, n, untyped) (Same-refl (array u ys) formed)
    ]
    retyped-Same (dictionary u fs) old c formed differ other =
        elim (Option-cases (as_dictionary old)) [
          | inl n ↦ rw (differ, n) (Same-refl (dictionary u fs) formed)
          | inr ((t, es), n) ↦
              let untyped : (t == u) ≡ false = ground (arith, other, n) in
              rw (differ, n, untyped) (Same-refl (dictionary u fs) formed)
        ]

    retyped_by_key :
        (field : ℕ) (new old : Variant)
        → same engine old new ≡ false
        → is_same_typed old new ≡ false
        → make_patch_by_key engine is_smaller field old new ≡ make_patch engine is_smaller old new
    unfolding make_patch_by_key as_array
    retyped_by_key field new old differ other = elim (Option-cases (as_array old)) [
      | inl n ↦ rw (differ, n) refl
      | inr ((t, xs), n) ↦ elim (array-cases new) [
        | inl m ↦ rw (differ, n, m) refl
        | inr (u, ys, is_array) ↦
            let now : is_same_typed old (array u ys) ≡ false =
              subst (λ v. is_same_typed old v ≡ false) is_array other in
            let untyped : (t == u) ≡ false = ground (arith, now, n) in
            let found : as_array new ≡ some (u, ys) = rw is_array refl in
            rw (differ, n, found, untyped) refl
      ]
    ]

    -- A receiver whose value equals the sender's old one, up to the order of the entries of dictionaries,
    -- has the sender's new value, likewise, after applying the patch that `make_patch` makes with a key
    -- field. The old and the new value are of one kind, so the containers in one place have the same
    -- element types, or else they are neither the same nor containers of the same element types; the
    -- new value is of a kind, so the keys of the dictionaries inside are distinct; the engine's `==`
    -- holds only for the same contents. What encodes smaller does not matter.
    pub apply-make_patch_by_key :
        (q field : ℕ) (old new c : Variant)
        → Conforms σ q old ⊎ ((same engine old new ≡ false) × (is_same_typed old new ≡ false))
        → Conforms σ q new
        → Same c old
        → Same (apply_any c (make_patch_by_key engine is_smaller field old new)) new
    unfolding make_patch_by_key
    apply-make_patch_by_key q field old new c (inr (differ, other)) conforms like =
        rw (retyped_by_key field new old differ other)
          (retyped-Same new old c (formed-Conforms σ new q conforms) differ other)
    apply-make_patch_by_key q field old new c (inl had) conforms like =
        let plain = apply-make engine is_smaller compares σ new q conforms old c had like in
        elim (Bool-cases (same engine old new)) [
          | inl e ↦
              rw e
                (Same-trans new c old like (same-Same engine compares σ q old new had conforms e))
          | inr e ↦ elim (Option-cases (as_array old)) [
            | inl n ↦ rw (e, n) plain
            | inr ((t, xs), n) ↦ elim (array-cases new) [
              | inl m ↦ rw (e, n, m) plain
              | inr (u, ys, is_array) ↦
                  subst
                    (λ v.
                      Conforms σ q v
                      → Same (apply_any c (make_patch_by_key engine is_smaller field old v)) v)
                    (sym is_array)
                    (λ conforms'. arrays-Same q field t u old c xs ys had like n conforms') conforms
            ]
          ]
        ]

    -- A receiver whose value equals the sender's old one, up to the order of the entries of dictionaries,
    -- has the sender's new value, likewise, after applying the patch that `make_patch` makes without a
    -- key field. The old and the new value are of one kind, so the containers in one place have the same
    -- element types, or else they are neither the same nor containers of the same element types; the
    -- new value is of a kind, so the keys of the dictionaries inside are distinct; the engine's `==`
    -- holds only for the same contents.
    pub apply-make_patch :
        (q : ℕ) (old new c : Variant)
        → Conforms σ q old ⊎ ((same engine old new ≡ false) × (is_same_typed old new ≡ false))
        → Conforms σ q new
        → Same c old
        → Same (apply_any c (make_patch engine is_smaller old new)) new
    apply-make_patch q old new c (inr (differ, other)) conforms like =
        retyped-Same new old c (formed-Conforms σ new q conforms) differ other
    apply-make_patch q old new c (inl had) conforms like =
        apply-make engine is_smaller compares σ new q conforms old c had like
