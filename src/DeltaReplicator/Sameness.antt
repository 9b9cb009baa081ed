-- ===== src/DeltaReplicator/Sameness.antt =====
-- Equality of values composes, and equal values have equal parts.
use gfgdextension.Common.{
  ℕ, ◌≡◌, refl, ◌∙◌, none, some, true, ◌==◌, is_some, subst, Bool-cases, Option-cases, inl, inr,
  arith,
}
use gfgdextension.DeltaReplicator.Values.{
  Variant, nil, leaf, array, dictionary, Items, done, item, Entries, end, entry, as_array,
  as_dictionary, find, keys, has_key, Same, SameItems, SameEntries,
}
use gfgdextension.DeltaReplicator.Entries.{is_some-find}

-- Dictionaries with equal entries.
pub record Alike (es fs : Entries) : Type 0 where
  pub there : SameEntries es fs
  pub no_other : (k : ℕ) → is_some (find k es) ≡ true → has_key k (keys fs) ≡ true

pub find-SameEntries :
    (es fs : Entries) (k : ℕ) (v : Variant)
    → SameEntries es fs
    → find k fs ≡ some v
    → (w : Variant) × (find k es ≡ some w) × Same w v
unfolding find
find-SameEntries es end k v same at = absurd (ground (arith, at))
find-SameEntries es (entry j u fs) k v (w, found, like, rest) at = elim (Bool-cases (j == k)) [
  | inl e ↦
      let here : j ≡ k = ground (arith, e) in
      let what : u ≡ v = ground (arith, at, e) in
      (w, subst (λ i. find i es ≡ some w) here found, subst (λ x. Same w x) what like)
  | inr e ↦ find-SameEntries es fs k v rest (ground (arith, at, e))
]

pub find-Alike-none : (es fs : Entries) (k : ℕ) → Alike es fs → find k fs ≡ none → find k es ≡ none
find-Alike-none es fs k h at = elim (Option-cases (find k es)) [
  | inl e ↦ e
  | inr (v, e) ↦ absurd (ground (arith, h.no_other k (rw e refl), is_some-find k fs, at))
]

mutual
  pub Same-trans : (c a b : Variant) → Same a b → Same b c → Same a c
  Same-trans nil a b ab bc = subst (λ x. Same a x) bc ab
  Same-trans (leaf n) a b ab bc = subst (λ x. Same a x) bc ab
  Same-trans (array t zs) a b ab (ys, is_array, items) =
      let (xs, whole, there) = subst (λ x. Same a x) is_array ab in
      (xs, whole, SameItems-trans zs xs ys there items)
  Same-trans (dictionary t gs) a b ab (fs, is_dictionary, entries, no_other) =
      let (es, whole, there, none_else) = subst (λ x. Same a x) is_dictionary ab in
      (
        es,
        whole,
        SameEntries-trans gs es fs there entries,
        λ k at. no_other k (is_some-find k fs ∙ none_else k at),
      )

  pub SameItems-trans : (zs xs ys : Items) → SameItems xs ys → SameItems ys zs → SameItems xs zs
  SameItems-trans done xs ys xy yz = subst (λ i. SameItems xs i) yz xy
  SameItems-trans (item z zs) xs ys xy (y, rest, is_item, like, later) =
      let (x, xs', whole, alike, others) = subst (λ i. SameItems xs i) is_item xy in
      (x, xs', whole, Same-trans z x y alike like, SameItems-trans zs xs' rest others later)

  pub SameEntries-trans :
      (gs es fs : Entries) → SameEntries es fs → SameEntries fs gs → SameEntries es gs
  SameEntries-trans end es fs ef fg = tt
  SameEntries-trans (entry k v gs) es fs ef (w, found, like, later) =
      let (u, there, alike) = find-SameEntries es fs k w ef found in
      (u, there, Same-trans v u w alike like, SameEntries-trans gs es fs ef later)

pub as_array-Same :
    (c old : Variant) (t : ℕ) (xs : Items)
    → Same c old
    → as_array old ≡ some (t, xs)
    → (xs' : Items) × (as_array c ≡ some (t, xs')) × SameItems xs' xs
unfolding as_array
as_array-Same c nil t xs h at = absurd (ground (arith, at))
as_array-Same c (leaf n) t xs h at = absurd (ground (arith, at))
as_array-Same c (dictionary u es) t xs h at = absurd (ground (arith, at))
as_array-Same c (array u ys) t xs (xs', whole, there) at =
    let type : u ≡ t = ground (arith, at) in
    let items : ys ≡ xs = ground (arith, at) in
    (xs', rw (whole, type) refl, subst (λ i. SameItems xs' i) items there)

pub as_dictionary-Same :
    (c old : Variant) (t : ℕ) (es : Entries)
    → Same c old
    → as_dictionary old ≡ some (t, es)
    → (es' : Entries) × (as_dictionary c ≡ some (t, es')) × Alike es' es
unfolding as_dictionary
as_dictionary-Same c nil t es h at = absurd (ground (arith, at))
as_dictionary-Same c (leaf n) t es h at = absurd (ground (arith, at))
as_dictionary-Same c (array u ys) t es h at = absurd (ground (arith, at))
as_dictionary-Same c (dictionary u fs) t es (es', whole, there, no_other) at =
    let type : u ≡ t = ground (arith, at) in
    let entries : fs ≡ es = ground (arith, at) in
    (
      es',
      rw (whole, type) refl,
      subst (λ x. Alike es' x) entries (record { there = there; no_other = no_other }),
    )
