-- ===== src/DeltaReplicator/Typing.antt =====
-- Values of one kind that have the same contents are equal, element types included.
use gfgdextension.Common.{
  ℕ, ◌≡◌, refl, sym, ◌∙◌, some, true, ◌==◌, is_some, subst, Bool-cases, Option-cases, inl, inr,
  arith,
}
use gfgdextension.DeltaReplicator.Values.{
  Variant, nil, leaf, array, dictionary, Items, done, item, Entries, end, entry, find, keys,
  has_key, values, as_array, as_dictionary, WellFormed, WellFormedItems, WellFormedEntries, Same,
  SameItems, SameEntries, Equal, EqualItems, EqualEntries, Engine, ComparesContents, same, Schema,
  Conforms, ItemsConform, EntriesConform,
}
use gfgdextension.DeltaReplicator.Patches.{index_by_key}
use gfgdextension.DeltaReplicator.Keyed.Indexing.{values-index_by_key}
use gfgdextension.DeltaReplicator.Entries.{is_some-find, Same-refl}
use gfgdextension.DeltaReplicator.Sameness.{find-SameEntries}

mutual
  pub formed-Conforms : (σ : Schema) (v : Variant) (q : ℕ) → Conforms σ q v → WellFormed v
  formed-Conforms σ nil q h = tt
  formed-Conforms σ (leaf n) q h = tt
  formed-Conforms σ (array t xs) q h = items-Conform σ xs (σ.element_kind q) h.1
  formed-Conforms σ (dictionary t es) q h = entries-Conform σ es q h.1

  pub items-Conform : (σ : Schema) (xs : Items) (q : ℕ) → ItemsConform σ q xs → WellFormedItems xs
  items-Conform σ done q h = tt
  items-Conform σ (item x xs) q h = (formed-Conforms σ x q h.0, items-Conform σ xs q h.1)

  pub entries-Conform :
      (σ : Schema) (es : Entries) (q : ℕ) → EntriesConform σ q es → WellFormedEntries es
  entries-Conform σ end q h = tt
  entries-Conform σ (entry k v es) q h =
      (h.0, formed-Conforms σ v (σ.entry_kind q k) h.1, entries-Conform σ es q h.2)

pub find-Conforms :
    (σ : Schema) (q k : ℕ) (v : Variant) (es : Entries)
    → EntriesConform σ q es
    → find k es ≡ some v
    → Conforms σ (σ.entry_kind q k) v
unfolding find
find-Conforms σ q k v end h at = absurd (ground (arith, at))
find-Conforms σ q k v (entry j w es) h at = elim (Bool-cases (j == k)) [
  | inl e ↦
      let here : j ≡ k = ground (arith, e) in
      let what : w ≡ v = ground (arith, at, e) in rw (← here, ← what) h.1
  | inr e ↦ find-Conforms σ q k v es h.2 (ground (arith, at, e))
]

pub as_array-Conforms :
    (σ : Schema) (q : ℕ) (v : Variant) (t : ℕ) (xs : Items)
    → Conforms σ q v
    → as_array v ≡ some (t, xs)
    → (t ≡ σ.array_type q) × ItemsConform σ (σ.element_kind q) xs
unfolding as_array
as_array-Conforms σ q nil t xs h at = absurd (ground (arith, at))
as_array-Conforms σ q (leaf n) t xs h at = absurd (ground (arith, at))
as_array-Conforms σ q (dictionary u es) t xs h at = absurd (ground (arith, at))
as_array-Conforms σ q (array u ys) t xs h at =
    let type : u ≡ t = ground (arith, at) in
    let what : ys ≡ xs = ground (arith, at) in
    (sym type ∙ h.0, subst (ItemsConform σ (σ.element_kind q)) what h.1)

pub as_dictionary-Conforms :
    (σ : Schema) (q : ℕ) (v : Variant) (t : ℕ) (es : Entries)
    → Conforms σ q v
    → as_dictionary v ≡ some (t, es)
    → (t ≡ σ.dictionary_type q) × EntriesConform σ q es
unfolding as_dictionary
as_dictionary-Conforms σ q nil t es h at = absurd (ground (arith, at))
as_dictionary-Conforms σ q (leaf n) t es h at = absurd (ground (arith, at))
as_dictionary-Conforms σ q (array u xs) t es h at = absurd (ground (arith, at))
as_dictionary-Conforms σ q (dictionary u fs) t es h at =
    let type : u ≡ t = ground (arith, at) in
    let what : fs ≡ es = ground (arith, at) in (sym type ∙ h.0, subst (EntriesConform σ q) what h.1)

-- A value that equals one of a kind, and has the contents of another of the kind, equals that one.
mutual
  unfolding find

  pub Equal-Same :
      (σ : Schema) (b : Variant) (q : ℕ) (a u : Variant)
      → Conforms σ q b
      → Conforms σ q a
      → Same u a
      → Equal u b
      → Same u b
  Equal-Same σ nil q a u fb fa like equal = equal
  Equal-Same σ (leaf n) q a u fb fa like equal = equal
  Equal-Same σ (array t ys) q nil u fb fa like (s, xs, whole, items) =
      absurd (ground (arith, like, whole))
  Equal-Same σ (array t ys) q (leaf n) u fb fa like (s, xs, whole, items) =
      absurd (ground (arith, like, whole))
  Equal-Same σ (array t ys) q (dictionary r es) u fb fa (us, is, there, no_other)
        (s, xs, whole, items) =
      absurd (ground (arith, is, whole))
  Equal-Same σ (array t ys) q (array r zs) u fb fa (us, is, there) (s, xs, whole, items) =
      let what : us ≡ xs = ground (arith, is, whole) in
      let typed : r ≡ t = fa.0 ∙ sym fb.0 in
      (
        us,
        rw (← typed) is,
        ItemsEqual-Same σ ys (σ.element_kind q) zs us fb.1 fa.1 there
            (subst (λ i. EqualItems i ys) (sym what) items),
      )
  Equal-Same σ (dictionary t fs) q nil u fb fa like (s, es, whole, entries, others) =
      absurd (ground (arith, like, whole))
  Equal-Same σ (dictionary t fs) q (leaf n) u fb fa like (s, es, whole, entries, others) =
      absurd (ground (arith, like, whole))
  Equal-Same σ (dictionary t fs) q (array r zs) u fb fa (us, is, there)
        (s, es, whole, entries, others) =
      absurd (ground (arith, is, whole))
  Equal-Same σ (dictionary t fs) q (dictionary r gs) u fb fa (us, is, there, no_other)
        (s, es, whole, entries, others) =
      let what : us ≡ es = ground (arith, is, whole) in
      let typed : r ≡ t = fa.0 ∙ sym fb.0 in
      (
        us,
        rw (← typed) is,
        EntriesEqual-Same σ fs q gs us fb.1 fa.1 there no_other
            (subst (λ i. EqualEntries i fs) (sym what) entries),
        subst (λ i. (k : ℕ) → is_some (find k i) ≡ true → has_key k (keys fs) ≡ true) (sym what)
            others,
      )

  pub ItemsEqual-Same :
      (σ : Schema) (ys : Items) (q : ℕ) (zs xs : Items)
      → ItemsConform σ q ys
      → ItemsConform σ q zs
      → SameItems xs zs
      → EqualItems xs ys
      → SameItems xs ys
  ItemsEqual-Same σ done q zs xs fb fa like equal = equal
  ItemsEqual-Same σ (item y ys) q done xs fb fa like (x, rest, is_item, here, later) =
      absurd (ground (arith, like, is_item))
  ItemsEqual-Same σ (item y ys) q (item z zs) xs fb fa (x', rest', is, like, others)
        (x, rest, is_item, here, later) =
      let first : x ≡ x' = ground (arith, is, is_item) in
      let more : rest ≡ rest' = ground (arith, is, is_item) in
      (
        x',
        rest',
        is,
        Equal-Same σ y q z x' fb.0 fa.0 like (subst (λ i. Equal i y) first here),
        ItemsEqual-Same σ ys q zs rest' fb.1 fa.1 others (subst (λ i. EqualItems i ys) more later),
      )

  pub EntriesEqual-Same :
      (σ : Schema) (fs : Entries) (q : ℕ) (gs es : Entries)
      → EntriesConform σ q fs
      → EntriesConform σ q gs
      → SameEntries es gs
      → ((k : ℕ) → is_some (find k es) ≡ true → has_key k (keys gs) ≡ true)
      → EqualEntries es fs
      → SameEntries es fs
  EntriesEqual-Same σ end q gs es fb fa like no_other equal = tt
  EntriesEqual-Same σ (entry k v fs) q gs es fb fa like no_other (w, found, here, later) =
      let inside : has_key k (keys gs) ≡ true = no_other k (rw found refl) in
      let rest = EntriesEqual-Same σ fs q gs es fb.2 fa like no_other later in
      elim (Option-cases (find k gs)) [
        | inl n ↦ absurd (ground (arith, is_some-find k gs, n, inside))
        | inr (z, n) ↦
            let (w', there, alike) = find-SameEntries es gs k z like n in
            let what : w' ≡ w = ground (arith, there, found) in
            (
              w,
              found,
              Equal-Same σ v (σ.entry_kind q k) z w fb.1 (find-Conforms σ q k z gs fa n)
                  (subst (λ i. Same i z) what alike) here,
              rest,
            )
      ]

find-EqualEntries :
    (es fs : Entries) (k : ℕ) (v : Variant)
    → EqualEntries es fs
    → find k fs ≡ some v
    → (w : Variant) × (find k es ≡ some w) × Equal w v
unfolding find
find-EqualEntries es end k v equal at = absurd (ground (arith, at))
find-EqualEntries es (entry j u fs) k v (w, found, like, rest) at = elim (Bool-cases (j == k)) [
  | inl e ↦
      let here : j ≡ k = ground (arith, e) in
      let what : u ≡ v = ground (arith, at, e) in
      (w, subst (λ i. find i es ≡ some w) here found, subst (λ x. Equal w x) what like)
  | inr e ↦ find-EqualEntries es fs k v rest (ground (arith, at, e))
]

-- What has the contents of a value has those of what the value equals.
mutual
  unfolding find

  pub Equal-Same-trans : (c a b : Variant) → Equal a b → Same b c → Equal a c
  Equal-Same-trans nil a b ab bc = subst (λ x. Equal a x) bc ab
  Equal-Same-trans (leaf n) a b ab bc = subst (λ x. Equal a x) bc ab
  Equal-Same-trans (array t zs) a b ab (ys, is_array, items) =
      let (s, xs, whole, there) = subst (λ x. Equal a x) is_array ab in
      (s, xs, whole, EqualItems-trans zs xs ys there items)
  Equal-Same-trans (dictionary t gs) a b ab (fs, is_dictionary, entries, no_other) =
      let (s, es, whole, there, none_else) = subst (λ x. Equal a x) is_dictionary ab in
      (
        s,
        es,
        whole,
        EqualEntries-trans gs es fs there entries,
        λ k at. no_other k (is_some-find k fs ∙ none_else k at),
      )

  pub EqualItems-trans : (zs xs ys : Items) → EqualItems xs ys → SameItems ys zs → EqualItems xs zs
  EqualItems-trans done xs ys xy yz = subst (λ i. EqualItems xs i) yz xy
  EqualItems-trans (item z zs) xs ys xy (y, rest, is_item, like, later) =
      let (x, xs', whole, alike, others) = subst (λ i. EqualItems xs i) is_item xy in
      (x, xs', whole, Equal-Same-trans z x y alike like, EqualItems-trans zs xs' rest others later)

  pub EqualEntries-trans :
      (gs es fs : Entries) → EqualEntries es fs → SameEntries fs gs → EqualEntries es gs
  EqualEntries-trans end es fs ef fg = tt
  EqualEntries-trans (entry k v gs) es fs ef (w, found, like, later) =
      let (u, there, alike) = find-EqualEntries es fs k w ef found in
      (u, there, Equal-Same-trans v u w alike like, EqualEntries-trans gs es fs ef later)

module _ (engine : Engine) (compares : ComparesContents engine) (σ : Schema) where
  pub same-Equal : (a b : Variant) → same engine a b ≡ true → Equal a b
  unfolding same
  same-Equal a b h = compares a b (ground (arith, h)) (ground (arith, h))

  -- Values of one kind that `same` finds the same are equal.
  pub same-Same :
      (q : ℕ) (a b : Variant) → Conforms σ q a → Conforms σ q b → same engine a b ≡ true → Same a b
  same-Same q a b fa fb h =
      Equal-Same σ b q a a fb fa (Same-refl a (formed-Conforms σ a q fa)) (same-Equal a b h)

-- Entries that are all of one kind, as the elements of an array by their keys.
abbrev pub AllConform : Schema → ℕ → Entries → Type 0
AllConform σ q end = Unit
AllConform σ q (entry k v es) = Conforms σ q v × AllConform σ q es

pub find-AllConform :
    (σ : Schema) (q k : ℕ) (v : Variant) (es : Entries)
    → AllConform σ q es
    → find k es ≡ some v
    → Conforms σ q v
unfolding find
find-AllConform σ q k v end h at = absurd (ground (arith, at))
find-AllConform σ q k v (entry j w es) h at = elim (Bool-cases (j == k)) [
  | inl e ↦ let what : w ≡ v = ground (arith, at, e) in subst (Conforms σ q) what h.0
  | inr e ↦ find-AllConform σ q k v es h.1 (ground (arith, at, e))
]

values-AllConform :
    (σ : Schema) (q : ℕ) (es : Entries) → ItemsConform σ q (values es) → AllConform σ q es
values-AllConform σ q end h = tt
values-AllConform σ q (entry k v es) h = (h.0, values-AllConform σ q es h.1)

pub index-AllConform :
    (σ : Schema) (q field : ℕ) (xs : Items) (es : Entries)
    → ItemsConform σ q xs
    → index_by_key field xs ≡ some es
    → AllConform σ q es
index-AllConform σ q field xs es h indexed =
    values-AllConform σ q es
      (subst (ItemsConform σ q) (sym (values-index_by_key field xs es indexed)) h)
