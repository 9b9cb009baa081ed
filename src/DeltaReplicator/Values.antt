-- ===== src/DeltaReplicator/Values.antt =====
-- framework/delta_replicator.cpp: `same`, and the values that are replicated: Godot's Variant. A value that is neither null nor a container is a
-- `leaf` with a number that stands for it, and so is a key. A container carries the number of its
-- element types, which `is_same_typed` compares.
use gfgdextension.Common.{
  ℕ, zero, suc, ◌≡◌, List, [], ◌∷◌, Option, none, some, Bool, true, false, if◌then◌else◌, ◌==◌,
  ◌||◌, ◌&&◌, is_some,
}

mutual
  pub data Variant : Type 0 where
    nil : Variant
    leaf : ℕ → Variant
    array : ℕ → Items → Variant
    dictionary : ℕ → Entries → Variant

  pub data Items : Type 0 where
    done : Items
    item : Variant → Items → Items

  -- The entries of a dictionary, in the order of insertion.
  pub data Entries : Type 0 where
    end : Entries
    entry : ℕ → Variant → Entries → Entries

unfoldable pub as_array : Variant → Option (ℕ × Items)
as_array (array t xs) = some (t, xs)
as_array nil = none
as_array (leaf n) = none
as_array (dictionary t es) = none

unfoldable pub as_dictionary : Variant → Option (ℕ × Entries)
as_dictionary (dictionary t es) = some (t, es)
as_dictionary nil = none
as_dictionary (leaf n) = none
as_dictionary (array t xs) = none

-- A value that is no Array is left alone, likewise below.
abbrev pub with_array : Option (ℕ × Items) → Variant → (ℕ → Items → Variant) → Variant
with_array none old f = old
with_array (some (t, xs)) old f = f t xs

abbrev pub with_dictionary : Option (ℕ × Entries) → Variant → (ℕ → Entries → Variant) → Variant
with_dictionary none old f = old
with_dictionary (some (t, es)) old f = f t es

abbrev pub with_index : Option Entries → Variant → (Entries → Variant) → Variant
with_index none old f = old
with_index (some es) old f = f es

abbrev pub items_size : Items → ℕ
items_size done = 0
items_size (item x xs) = suc (items_size xs)

-- An index out of range is skipped.
abbrev pub update_item : Items → ℕ → (Variant → Variant) → Items
update_item done i f = done
update_item (item x xs) zero f = item (f x) xs
update_item (item x xs) (suc i) f = item x (update_item xs i f)

-- New elements are null.
abbrev pub resize : ℕ → Items → Items
resize zero xs = done
resize (suc n) done = item nil (resize n done)
resize (suc n) (item x xs) = item x (resize n xs)

unfoldable pub find : ℕ → Entries → Option Variant
find k end = none
find k (entry j v es) = let rest = find k es in if j == k then some v else rest

-- `get(key, Variant())`.
abbrev pub or_nil : Option Variant → Variant
or_nil none = nil
or_nil (some v) = v

abbrev pub keys : Entries → List ℕ
keys end = []
keys (entry k v es) = k ∷ keys es

abbrev pub values : Entries → Items
values end = done
values (entry k v es) = item v (values es)

unfoldable pub put_entry : ℕ → Variant → Entries → Entries
put_entry k v end = entry k v end
put_entry k v (entry j w es) =
    let rest = put_entry k v es in if j == k then entry k v es else entry j w rest

unfoldable pub erase_entry : ℕ → Entries → Entries
erase_entry k end = end
erase_entry k (entry j w es) =
    let rest = erase_entry k es in if j == k then rest else entry j w rest

unfoldable pub has_key : ℕ → List ℕ → Bool
has_key k [] = false
has_key k (j ∷ js) = j == k || has_key k js

-- The keys of every dictionary inside are distinct, as the engine's are.
abbrev mutual
  pub WellFormed : Variant → Type 0
  WellFormed nil = Unit
  WellFormed (leaf n) = Unit
  WellFormed (array t xs) = WellFormedItems xs
  WellFormed (dictionary t es) = WellFormedEntries es

  pub WellFormedItems : Items → Type 0
  WellFormedItems done = Unit
  WellFormedItems (item x xs) = WellFormed x × WellFormedItems xs

  pub WellFormedEntries : Entries → Type 0
  WellFormedEntries end = Unit
  WellFormedEntries (entry k v es) =
      (has_key k (keys es) ≡ false) × WellFormed v × WellFormedEntries es

-- Equal values, where the order of a dictionary's entries does not count: each entry of the second is
-- in the first, and the first has no other key.
abbrev mutual
  pub Same : Variant → Variant → Type 0
  Same a nil = a ≡ nil
  Same a (leaf n) = a ≡ leaf n
  Same a (array t ys) = (xs : Items) × (a ≡ array t xs) × SameItems xs ys
  Same a (dictionary t fs) =
      (es : Entries) × (a ≡ dictionary t es)
      × SameEntries es fs
      × ((k : ℕ) → is_some (find k es) ≡ true → has_key k (keys fs) ≡ true)

  pub SameItems : Items → Items → Type 0
  SameItems xs done = xs ≡ done
  SameItems xs (item y ys) =
      (x : Variant) × (rest : Items) × (xs ≡ item x rest) × Same x y × SameItems rest ys

  pub SameEntries : Entries → Entries → Type 0
  SameEntries es end = Unit
  SameEntries es (entry k v fs) =
      (w : Variant) × (find k es ≡ some w) × Same w v × SameEntries es fs

-- Values with the same contents, as above but for the element types of containers.
abbrev mutual
  pub Equal : Variant → Variant → Type 0
  Equal a nil = a ≡ nil
  Equal a (leaf n) = a ≡ leaf n
  Equal a (array t ys) = (s : ℕ) × (xs : Items) × (a ≡ array s xs) × EqualItems xs ys
  Equal a (dictionary t fs) =
      (s : ℕ) × (es : Entries) × (a ≡ dictionary s es)
      × EqualEntries es fs
      × ((k : ℕ) → is_some (find k es) ≡ true → has_key k (keys fs) ≡ true)

  pub EqualItems : Items → Items → Type 0
  EqualItems xs done = xs ≡ done
  EqualItems xs (item y ys) =
      (x : Variant) × (rest : Items) × (xs ≡ item x rest) × Equal x y × EqualItems rest ys

  pub EqualEntries : Entries → Entries → Type 0
  EqualEntries es end = Unit
  EqualEntries es (entry k v fs) =
      (w : Variant) × (find k es ≡ some w) × Equal w v × EqualEntries es fs

-- What the engine answers about Variants: their type, and whether `==` holds.
pub record Engine : Type 0 where
  pub get_type : Variant → ℕ
  pub equals : Variant → Variant → Bool

-- Of two values of one type, `==` compares the contents: the elements and entries of containers, but not
-- their element types.
abbrev pub ComparesContents : Engine → Type 0
ComparesContents engine =
    (a b : Variant) → engine.get_type a ≡ engine.get_type b → engine.equals a b ≡ true → Equal a b

unfoldable pub same : Engine → Variant → Variant → Bool
same engine a b = engine.get_type a == engine.get_type b && engine.equals a b

-- `is_same_typed` for two arrays or two dictionaries.
abbrev pub is_same_typed : Variant → Variant → Bool
is_same_typed a nil = false
is_same_typed a (leaf n) = false
is_same_typed a (array u ys) = elim (as_array a) [ none ↦ false | some (t, xs) ↦ t == u ]
is_same_typed a (dictionary u fs) = elim (as_dictionary a) [ none ↦ false | some (t, es) ↦ t == u ]

-- Kinds of values, by numbers: of a kind, the element types that its arrays and its dictionaries have, the
-- kind of an array's elements and of the entry under a key; and the kind of a property.
pub record Schema : Type 0 where
  pub array_type : ℕ → ℕ
  pub dictionary_type : ℕ → ℕ
  pub element_kind : ℕ → ℕ
  pub entry_kind : ℕ → ℕ → ℕ
  pub property_kind : ℕ → ℕ

-- The containers inside have the element types of their kinds, and the keys of every dictionary are
-- distinct.
abbrev mutual
  pub Conforms : Schema → ℕ → Variant → Type 0
  Conforms σ q nil = Unit
  Conforms σ q (leaf n) = Unit
  Conforms σ q (array t xs) = (t ≡ σ.array_type q) × ItemsConform σ (σ.element_kind q) xs
  Conforms σ q (dictionary t es) = (t ≡ σ.dictionary_type q) × EntriesConform σ q es

  pub ItemsConform : Schema → ℕ → Items → Type 0
  ItemsConform σ q done = Unit
  ItemsConform σ q (item x xs) = Conforms σ q x × ItemsConform σ q xs

  pub EntriesConform : Schema → ℕ → Entries → Type 0
  EntriesConform σ q end = Unit
  EntriesConform σ q (entry k v es) =
      (has_key k (keys es) ≡ false) × Conforms σ (σ.entry_kind q k) v × EntriesConform σ q es
