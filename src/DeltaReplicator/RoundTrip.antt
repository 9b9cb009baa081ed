-- ===== src/DeltaReplicator/RoundTrip.antt =====
-- Applying the patch between two values to one that equals the old gives the new one.
use gfgdextension.Common.{
  ℕ, suc, ◌≡◌, refl, ap, ◌∙◌, List, [], ◌∷◌, Option, none, some, Bool, true, false, not,
  if◌then◌else◌, ◌==◌, is_some, Bool-cases, Option-cases, inl, inr, arith,
}
use gfgdextension.DeltaReplicator.Typing.{
  formed-Conforms, entries-Conform, find-Conforms, as_array-Conforms, as_dictionary-Conforms,
  same-Same,
}
use gfgdextension.DeltaReplicator.Values.{
  ComparesContents, Schema, Conforms, ItemsConform, EntriesConform, Engine, same, Variant, nil,
  leaf, array, dictionary, Items, done, item, Entries, end, entry, as_array, as_dictionary, find,
  keys, items_size, resize, has_key, erase_entry, WellFormed, WellFormedEntries, Same, SameItems,
  SameEntries,
}
use gfgdextension.DeltaReplicator.Entries.{
  is_some-find, find-erase_entry, has_key-keep, find-tail, find_first, Same-refl,
}
use gfgdextension.DeltaReplicator.Sameness.{
  Alike, find-SameEntries, find-Alike-none, Same-trans, as_array-Same, as_dictionary-Same,
}
use gfgdextension.DeltaReplicator.Patches.{
  Patch, whole, sized, changes, Patches, add_patch, patch_against, smaller_of, make_patch,
  make_items, make_entries, removed_keys, apply_patch, apply_any, apply_items, apply_entries,
  erase_all,
}
use gfgdextension.DeltaReplicator.Applying.{
  From, apply_at, apply_at_nil, apply_items-apply_at, From-make_items, apply_at-item,
  apply_at_first, patched, find-apply_entries, Distinct-make_entries, find_patch-make_entries,
  fresh-make_entries, find_patch_absent,
}

find-erase_all :
    (k : ℕ) (ks : List ℕ) (es : Entries)
    → find k (erase_all ks es) ≡ (if has_key k ks then none else find k es)
unfolding erase_all has_key
find-erase_all k [] es = refl
find-erase_all k (j ∷ ks) es =
    ground (arith, find-erase_all k ks (erase_entry j es), find-erase_entry k j es)

pub has_key-removed :
    (k : ℕ) (es fs : Entries)
    → has_key k (removed_keys es fs)
      ≡ (if not (has_key k (keys fs)) then has_key k (keys es) else false)
unfolding removed_keys
has_key-removed k es fs = has_key-keep k (λ j. not (has_key j (keys fs))) (keys es)

patched_any : (o : Option Patch) (w : Variant) → patched o (some w) ≡ some (apply_any w o)
patched_any none w = refl
patched_any (some p) w = refl

add-apply_at :
    (i : ℕ) (o : Option Patch) (ps : Patches) (x : Variant) (xs : Items)
    → From (suc i) ps
    → apply_at i (add_patch i o ps) (item x xs) ≡ item (apply_any x o) (apply_at (suc i) ps xs)
add-apply_at i none ps x xs h = apply_at-item i ps x xs h
add-apply_at i (some p) ps x xs h = apply_at_first i p ps x xs h

sized-Same :
    (old : Variant) (t u n : ℕ) (xs ys : Items) (ps : Patches)
    → as_array old ≡ some (t, xs)
    → t ≡ u
    → SameItems (apply_at 0 ps (resize n xs)) ys
    → Same (apply_patch old (sized n ps)) (array u ys)
unfolding apply_patch
sized-Same old t u n xs ys ps old_array typed h =
    let result : apply_patch old (sized n ps) ≡ array t (apply_items ps (resize n xs)) =
      rw (old_array) refl in
    (
      apply_at 0 ps (resize n xs),
      result
          ∙ ap (λ zs. array t zs) (apply_items-apply_at ps (resize n xs))
          ∙ ap (λ w. array w (apply_at 0 ps (resize n xs))) typed,
      h,
    )

module _ (engine : Engine) (is_smaller : Patch → Variant → Bool) where
  pub apply-smaller_of :
      (old new : Variant) (p : Patch)
      → WellFormed new
      → Same (apply_patch old p) new
      → Same (apply_patch old (smaller_of engine is_smaller p new)) new
  unfolding smaller_of apply_patch
  apply-smaller_of old new p formed h = elim (Bool-cases (is_smaller p new)) [
    | inl e ↦ rw e h
    | inr e ↦ rw e (Same-refl new formed)
  ]

  make : Variant → Variant → Option Patch
  make v w = make_patch engine is_smaller w v

  -- The receiver's entries after the patch between two others.
  changed : Entries → Entries → Entries → Entries
  changed es es' fs =
      apply_entries (make_entries engine is_smaller es fs) (erase_all (removed_keys es fs) es')

  find-changed :
      (k : ℕ) (v : Variant) (es es' fs : Entries)
      → WellFormedEntries fs
      → find k fs ≡ some v
      → find k (changed es es' fs) ≡ patched (patch_against (find k es) v (make v)) (find k es')
  unfolding changed make
  find-changed k v es es' fs formed at =
      let kept : has_key k (keys fs) ≡ true = ground (arith, is_some-find k fs, at) in
      let stays : find k (erase_all (removed_keys es fs) es') ≡ find k es' =
        ground (arith, find-erase_all k (removed_keys es fs) es', has_key-removed k es fs, kept) in
      rw
        (
          find-apply_entries k (make_entries engine is_smaller es fs)
              (erase_all (removed_keys es fs) es')
              (Distinct-make_entries engine is_smaller es fs formed),
          find_patch-make_entries engine is_smaller k v es fs formed at,
          stays,
        )
        refl

  only-changed :
      (k : ℕ) (es es' fs : Entries)
      → Alike es' es
      → WellFormedEntries fs
      → is_some (find k (changed es es' fs)) ≡ true
      → has_key k (keys fs) ≡ true
  unfolding changed
  only-changed k es es' fs like formed at = elim (Bool-cases (has_key k (keys fs))) [
    | inl e ↦ e
    | inr e ↦
        let ps = make_entries engine is_smaller es fs in
        let none_for = find_patch_absent k ps (fresh-make_entries engine is_smaller k es fs e) in
        let all =
          find-apply_entries k ps (erase_all (removed_keys es fs) es')
            (Distinct-make_entries engine is_smaller es fs formed) in
        let gone : find k (erase_all (removed_keys es fs) es') ≡ none =
          elim (Bool-cases (has_key k (keys es))) [
            | inl d ↦
                ground
                  (arith, find-erase_all k (removed_keys es fs) es', has_key-removed k es fs, e, d)
            | inr d ↦
                let absent : find k es ≡ none = ground (arith, is_some-find k es, d) in
                ground (
                  arith,
                  find-erase_all k (removed_keys es fs) es',
                  find-Alike-none es' es k like absent,
                )
          ] in
        absurd (ground (arith, at, all, none_for, gone))
  ]

  changes-Same :
      (c : Variant) (t u : ℕ) (es es' fs : Entries)
      → as_dictionary c ≡ some (t, es')
      → t ≡ u
      → Alike es' es
      → WellFormedEntries fs
      → SameEntries (changed es es' fs) fs
      → Same
          (apply_patch c (changes (make_entries engine is_smaller es fs) (removed_keys es fs)))
          (dictionary u fs)
  unfolding apply_patch changed
  changes-Same c t u es es' fs here typed like formed h =
      let p = changes (make_entries engine is_smaller es fs) (removed_keys es fs) in
      let result : apply_patch c p ≡ dictionary t (changed es es' fs) = rw here refl in
      (
        changed es es' fs,
        result ∙ ap (λ w. dictionary w (changed es es' fs)) typed,
        h,
        λ k at. only-changed k es es' fs like formed at,
      )

  module _ (compares : ComparesContents engine) (σ : Schema) where
    mutual
      unfolding make_patch apply_patch make

      pub apply-make :
          (new : Variant) (q : ℕ)
          → Conforms σ q new
          → (old c : Variant) → Conforms σ q old
          → Same c old
          → Same (apply_any c (make_patch engine is_smaller old new)) new
      apply-make nil q conforms old c had like = elim (Bool-cases (same engine old nil)) [
        | inl e ↦
            rw e (Same-trans nil c old like (same-Same engine compares σ q old nil had conforms e))
        | inr e ↦ rw e refl
      ]
      apply-make (leaf n) q conforms old c had like = elim (Bool-cases (same engine old (leaf n))) [
        | inl e ↦ rw e (
            Same-trans (leaf n) c old like
              (same-Same engine compares σ q old (leaf n) had conforms e))
        | inr e ↦ rw e refl
      ]
      apply-make (array u ys) q conforms old c had like =
          let new = array u ys in
          let formed = formed-Conforms σ new q conforms in
          elim (Bool-cases (same engine old new)) [
            | inl e ↦
                rw e
                  (Same-trans new c old like (same-Same engine compares σ q old new had conforms e))
            | inr e ↦ elim (Option-cases (as_array old)) [
              | inl n ↦ rw (e, n) (Same-refl new formed)
              | inr ((t, xs), n) ↦ elim (Bool-cases (t == u)) [
                | inr d ↦ rw (e, n, d) (Same-refl new formed)
                | inl d ↦
                    let typed : t ≡ u = ground (arith, d) in
                    let ps = make_items engine is_smaller 0 xs ys in
                    let (xs', here, items) = as_array-Same c old t xs like n in
                    rw (e, n, d)
                      (apply-smaller_of c new (sized (items_size ys) ps) formed (
                        sized-Same c t u (items_size ys) xs' ys ps here typed (
                          items-make ys (σ.element_kind q) conforms.1 xs xs' 0
                            (as_array-Conforms σ q old t xs had n).1 items)))
              ]
            ]
          ]
      apply-make (dictionary u fs) q conforms old c had like =
          let new = dictionary u fs in
          let formed = formed-Conforms σ new q conforms in
          elim (Bool-cases (same engine old new)) [
            | inl e ↦
                rw e
                  (Same-trans new c old like (same-Same engine compares σ q old new had conforms e))
            | inr e ↦ elim (Option-cases (as_dictionary old)) [
              | inl n ↦ rw (e, n) (Same-refl new formed)
              | inr ((t, es), n) ↦ elim (Bool-cases (t == u)) [
                | inr d ↦ rw (e, n, d) (Same-refl new formed)
                | inl d ↦
                    let typed : t ≡ u = ground (arith, d) in
                    let ps = make_entries engine is_smaller es fs in
                    let (es', here, alike) = as_dictionary-Same c old t es like n in
                    rw (e, n, d)
                      (apply-smaller_of c new (changes ps (removed_keys es fs)) formed (
                        changes-Same c t u es es' fs here typed alike
                          (entries-Conform σ fs q conforms.1)
                          (entries-make fs q conforms.1 es es' (changed es es' fs)
                            (as_dictionary-Conforms σ q old t es had n).1 alike
                            (λ k v at.
                              find-changed k v es es' fs (entries-Conform σ fs q conforms.1) at))))
              ]
            ]
          ]

      items-make :
          (ys : Items) (q : ℕ)
          → ItemsConform σ q ys
          → (xs xs' : Items) (i : ℕ) → ItemsConform σ q xs
          → SameItems xs' xs
          → SameItems
              (apply_at i (make_items engine is_smaller i xs ys) (resize (items_size ys) xs'))
              ys
      items-make done q conforms xs xs' i had like = apply_at_nil i xs'
      items-make (item y ys) q conforms done xs' i had like =
          let ps = make_items engine is_smaller (suc i) done ys in
          let first =
            apply_at_first i (whole y) ps nil (resize (items_size ys) done)
              (From-make_items engine is_smaller (suc i) done ys) in
          (
            y,
            apply_at (suc i) ps (resize (items_size ys) done),
            rw like first,
            Same-refl y (formed-Conforms σ y q conforms.0),
            items-make ys q conforms.1 done done (suc i) tt refl,
          )
      items-make (item y ys) q conforms (item x xs) xs' i had (x', rest, is_item, like, later) =
          let ps = make_items engine is_smaller (suc i) xs ys in
          (
            apply_any x' (make_patch engine is_smaller x y),
            apply_at (suc i) ps (resize (items_size ys) rest),
            rw is_item (
                add-apply_at i (make_patch engine is_smaller x y) ps x'
                  (resize (items_size ys) rest) (From-make_items engine is_smaller (suc i) xs ys)),
            apply-make y q conforms.0 x x' had.0 like,
            items-make ys q conforms.1 xs rest (suc i) had.1 later,
          )

      entries-make :
          (part : Entries) (q : ℕ)
          → EntriesConform σ q part
          → (es es' result : Entries) → EntriesConform σ q es
          → Alike es' es
          → ((k : ℕ) (v : Variant)
              → find k part ≡ some v
              → find k result ≡ patched (patch_against (find k es) v (make v)) (find k es'))
          → SameEntries result part
      entries-make end q conforms es es' result had like at = tt
      entries-make (entry k v part) q conforms es es' result had like at =
          let here = at k v (find_first k v part) in
          let rest =
            entries-make part q conforms.2 es es' result had like
              (λ j w there. at j w (find-tail k j v w part conforms.0 there)) in
          elim (Option-cases (find k es)) [
            | inl n ↦ (
              v,
              here ∙ rw n refl,
              Same-refl v (formed-Conforms σ v (σ.entry_kind q k) conforms.1),
              rest,
            )
            | inr (w, n) ↦
                let (w', found, alike) = find-SameEntries es' es k w like.there n in
                (
                  apply_any w' (make_patch engine is_smaller w v),
                  here ∙ rw (n, found) (patched_any (make_patch engine is_smaller w v) w'),
                  apply-make v (σ.entry_kind q k) conforms.1 w w' (find-Conforms σ q k w es had n)
                      alike,
                  rest,
                )
          ]
