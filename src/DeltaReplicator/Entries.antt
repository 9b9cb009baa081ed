-- ===== src/DeltaReplicator/Entries.antt =====
-- Entries of a dictionary under reads and writes, and equality of values.
use gfgdextension.Common.{
  ℕ, ◌≡◌, refl, sym, List, [], ◌∷◌, none, some, Bool, false, if◌then◌else◌, ◌==◌, keep, is_some,
  Bool-cases, inl, inr, arith,
}
use gfgdextension.DeltaReplicator.Values.{
  Variant, nil, leaf, array, dictionary, Items, done, item, Entries, end, entry, find, keys,
  put_entry, erase_entry, has_key, WellFormed, WellFormedItems, WellFormedEntries, Same, SameItems,
  SameEntries,
}

pub is_some-find : (k : ℕ) (es : Entries) → is_some (find k es) ≡ has_key k (keys es)
unfolding find has_key
is_some-find k end = refl
is_some-find k (entry j v es) = ground (arith, is_some-find k es)

pub find-put_entry :
    (k j : ℕ) (v : Variant) (es : Entries)
    → find k (put_entry j v es) ≡ (if j == k then some v else find k es)
unfolding find put_entry
find-put_entry k j v end = refl
find-put_entry k j v (entry i w es) = ground (arith, find-put_entry k j v es)

pub find-erase_entry :
    (k j : ℕ) (es : Entries) → find k (erase_entry j es) ≡ (if j == k then none else find k es)
unfolding find erase_entry
find-erase_entry k j end = ground arith
find-erase_entry k j (entry i w es) = ground (arith, find-erase_entry k j es)

pub has_key-keep :
    (k : ℕ) (p : ℕ → Bool) (ks : List ℕ)
    → has_key k (keep p ks) ≡ (if p k then has_key k ks else false)
unfolding has_key
has_key-keep k p [] = ground arith
has_key-keep k p (j ∷ ks) = elim (Bool-cases (j == k)) [
  | inl e ↦ let same : j ≡ k = ground (arith, e) in rw same (ground (arith, has_key-keep k p ks))
  | inr e ↦ ground (arith, has_key-keep k p ks, e)
]

-- What stands at a key of the rest stands there in the whole, when the first key is another.
pub find-tail :
    (j k : ℕ) (w v : Variant) (es : Entries)
    → has_key j (keys es) ≡ false
    → find k es ≡ some v
    → find k (entry j w es) ≡ some v
unfolding find
find-tail j k w v es fresh at = elim (Bool-cases (j == k)) [
  | inl e ↦
      let same : j ≡ k = ground (arith, e) in
      absurd (ground (arith, fresh, at, is_some-find k es, same))
  | inr e ↦ rw e at
]

pub find_first : (k : ℕ) (v : Variant) (es : Entries) → find k (entry k v es) ≡ some v
unfolding find
find_first k v es = ground arith

mutual
  pub Same-refl : (v : Variant) → WellFormed v → Same v v
  Same-refl nil h = refl
  Same-refl (leaf n) h = refl
  Same-refl (array t xs) h = (xs, refl, SameItems-refl xs h)
  Same-refl (dictionary t es) h =
      (es, refl, SameEntries-part es es h (λ k v at. at), λ k at. rw (sym (is_some-find k es)) at)

  pub SameItems-refl : (xs : Items) → WellFormedItems xs → SameItems xs xs
  SameItems-refl done h = refl
  SameItems-refl (item x xs) h = (x, xs, refl, Same-refl x h.0, SameItems-refl xs h.1)

  -- Part of the entries, against the whole.
  pub SameEntries-part :
      (part es : Entries)
      → WellFormedEntries part
      → ((k : ℕ) (v : Variant) → find k part ≡ some v → find k es ≡ some v)
      → SameEntries es part
  SameEntries-part end es h within = tt
  SameEntries-part (entry k v part) es h within = (
    v,
    within k v (find_first k v part),
    Same-refl v h.1,
    SameEntries-part part es h.2 (λ j w at. within j w (find-tail k j v w part h.0 at)),
  )
