-- ===== src/DeltaReplicator/Client/Agreement.antt =====
-- The patches between two states, applied to a state that agrees with the first.
use gfgdextension.Common.{
  ℕ, ◌≡◌, refl, ◌∙◌, List, [], ◌∷◌, Option, none, some, Bool, true, false, if◌then◌else◌, ◌==◌,
  lookup, ℕ_discrete, subst, Bool-cases, inl, inr, arith,
}
use gfgdextension.DeltaReplicator.Values.{
  ComparesContents, Schema, Conforms, Engine, Variant, Entries, find, or_nil, has_key, Same,
}
use gfgdextension.DeltaReplicator.Patches.{
  Patch, Patches, finish, patch, find_patch, patch_keys, put_patch, set_patch, set_each, apply_any,
  apply_entries,
}
use gfgdextension.DeltaReplicator.Applying.{Distinct, patched, find-apply_entries}
use gfgdextension.DeltaReplicator.Keyed.{apply-make_patch, apply-make_patch_by_key}
use gfgdextension.DeltaReplicator.Server.{Settings}
use gfgdextension.DeltaReplicator.Server.Sending.{patch_of, property_patch, patches_between}

-- Each property has a value that equals the one of the other state.
unfoldable pub Agrees : Settings → Entries → Entries → Type 0
Agrees s es' es =
    (name : ℕ)
    → has_key name s.properties ≡ true
    → (v : Variant) × (find name es' ≡ some v) × Same v (or_nil (find name es))

-- Each property has a value, which is of the kind of the property.
unfoldable pub IsComplete : Schema → Settings → Entries → Type 0
IsComplete σ s es =
    (name : ℕ)
    → has_key name s.properties ≡ true
    → (v : Variant) × (find name es ≡ some v) × Conforms σ (σ.property_kind name) v

abbrev or_patch : Option Patch → Option Patch → Option Patch
or_patch none q = q
or_patch (some p) q = some p

find_patch-put_patch :
    (k j : ℕ) (p : Patch) (ps : Patches)
    → find_patch k (put_patch j p ps) ≡ (if j == k then some p else find_patch k ps)
unfolding find_patch put_patch
find_patch-put_patch k j p finish = refl
find_patch-put_patch k j p (patch i q ps) = ground (arith, find_patch-put_patch k j p ps)

find_patch-set_patch :
    (k j : ℕ) (o : Option Patch) (ps : Patches)
    → find_patch k (set_patch j o ps)
      ≡ (if j == k then or_patch o (find_patch k ps) else find_patch k ps)
find_patch-set_patch k j none ps = ground arith
find_patch-set_patch k j (some p) ps = find_patch-put_patch k j p ps

has_key-put_patch :
    (k j : ℕ) (p : Patch) (ps : Patches)
    → has_key k (patch_keys (put_patch j p ps))
      ≡ (if j == k then true else has_key k (patch_keys ps))
unfolding has_key put_patch
has_key-put_patch k j p finish = ground arith
has_key-put_patch k j p (patch i q ps) = ground (arith, has_key-put_patch k j p ps)

Distinct-put_patch :
    (j : ℕ) (p : Patch) (ps : Patches)
    → Distinct (patch_keys ps)
    → Distinct (patch_keys (put_patch j p ps))
unfolding put_patch has_key
Distinct-put_patch j p finish h = (refl, tt)
Distinct-put_patch j p (patch i q ps) h = elim (Bool-cases (i == j)) [
  | inl e ↦
      let here : i ≡ j = ground (arith, e) in
      rw e (subst (λ x. (has_key x (patch_keys ps) ≡ false) × Distinct (patch_keys ps)) here h)
  | inr e ↦ rw e (ground (arith, has_key-put_patch i j p ps, e, h.0), Distinct-put_patch j p ps h.1)
]

Distinct-set_patch :
    (j : ℕ) (o : Option Patch) (ps : Patches)
    → Distinct (patch_keys ps)
    → Distinct (patch_keys (set_patch j o ps))
Distinct-set_patch j none ps h = h
Distinct-set_patch j (some p) ps h = Distinct-put_patch j p ps h

or_patch-or_patch : (o q : Option Patch) → or_patch o (or_patch o q) ≡ or_patch o q
or_patch-or_patch none q = refl
or_patch-or_patch (some p) q = refl

patched-some : (o : Option Patch) (v : Variant) → patched o (some v) ≡ some (apply_any v o)
patched-some none v = refl
patched-some (some p) v = refl

Distinct-set_each :
    (make : ℕ → Option Patch) (names : List ℕ) (ps : Patches)
    → Distinct (patch_keys ps)
    → Distinct (patch_keys (set_each make names ps))
unfolding set_each
Distinct-set_each make [] ps h = h
Distinct-set_each make (name ∷ names) ps h =
    Distinct-set_each make names (set_patch name (make name) ps)
      (Distinct-set_patch name (make name) ps h)

find_patch-set_each :
    (make : ℕ → Option Patch) (names : List ℕ) (ps : Patches) (k : ℕ)
    → find_patch k (set_each make names ps)
      ≡ (if has_key k names then or_patch (make k) (find_patch k ps) else find_patch k ps)
unfolding set_each has_key
find_patch-set_each make [] ps k = refl
find_patch-set_each make (name ∷ names) ps k =
    let later = find_patch-set_each make names (set_patch name (make name) ps) k in
    let first = find_patch-set_patch k name (make name) ps in
    elim (Bool-cases (name == k)) [
      | inr e ↦ rw (later, first, e) refl
      | inl e ↦
          let here : name ≡ k = ground (arith, e) in
          elim (Bool-cases (has_key k names)) [
            | inl d ↦ rw (later, first, e, d, here) (or_patch-or_patch (make k) (find_patch k ps))
            | inr d ↦ rw (later, first, e, d, here) refl
          ]
    ]

or_patch-none : (o : Option Patch) → or_patch o none ≡ o
or_patch-none none = refl
or_patch-none (some p) = refl

module _ (engine : Engine) (is_smaller : Patch → Variant → Bool)
    (compares : ComparesContents engine) (σ : Schema) where
  apply-patch_of :
      (q : ℕ) (field : Option ℕ) (old new c : Variant)
      → Conforms σ q old
      → Conforms σ q new
      → Same c old
      → Same (apply_any c (patch_of engine is_smaller field old new)) new
  unfolding patch_of
  apply-patch_of q none old new c had formed like =
      apply-make_patch engine is_smaller compares σ q old new c (inl had) formed like
  apply-patch_of q (some field) old new c had formed like =
      apply-make_patch_by_key engine is_smaller compares σ q field old new c (inl had) formed like

  -- A state that agrees with the first of two states agrees with the second after the patches between
  -- them.
  pub patches_between-Agrees :
      (s : Settings) (from to c : Entries)
      → IsComplete σ s from
      → IsComplete σ s to
      → Agrees s c from
      → Agrees s (apply_entries (patches_between engine is_smaller s from to) c) to
  unfolding patches_between property_patch Agrees IsComplete find_patch
  patches_between-Agrees s from to c whole complete agrees name inside =
      let make = property_patch engine is_smaller s from to in
      let ps = set_each make s.properties finish in
      let (v, found, like) = agrees name inside in
      let (w, given, formed) = complete name inside in
      let (u, before, had) = whole name inside in
      let what : find_patch name ps ≡ make name =
        find_patch-set_each make s.properties finish name ∙ rw inside (or_patch-none (make name)) in
      let applied = find-apply_entries name ps c (Distinct-set_each make s.properties finish tt) in
      (
        apply_any v (make name),
        applied ∙ rw (what, found) (patched-some (make name) v),
        apply-patch_of (σ.property_kind name) (lookup ℕ_discrete name s.keyed_arrays)
            (or_nil (find name from)) (or_nil (find name to)) v (rw before had) (rw given formed)
            like,
      )
