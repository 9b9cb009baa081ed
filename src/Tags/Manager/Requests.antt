-- ===== src/Tags/Manager/Requests.antt =====
-- What the operations of the registry promise: `request_tag`, and that the registry stays closed under
-- ancestors.
use mathlib.Core.Option
use gfgdextension.Common.{
  ◌≡◌, refl, ap, ◌⊎◌, inl, inr, ◌≢◌, List, [], ◌∷◌, lookup, Option, none, some, true, false, arith,
  Bool-cases, Option-cases, length,
}
use gfgdextension.Names.{Name}
use gfgdextension.Tags.{GameplayTag}
use gfgdextension.Tags.Manager.{
  TagEntry, GameplayTagsManager, Loaded, register_from, register_tag_with_parents, modify_entry,
  claim, request_tag, declare_tag, initialize_tags, is_valid_tag_name, get_tag,
}
use gfgdextension.Tags.Manager.Registry.{
  Entries, entry, entry-modify_entry, make_runtime, load_tables_rule,
}
use gfgdextension.Tags.Manager.Ancestors.{
  Registered, IsClosed, register-IsClosed, modify-IsClosed, register_from-Registered,
}

module _ (strip_edges : Name → Name) where
  -- Requesting a tag keeps the registry closed under ancestors, whatever the name.
  pub request_tag-IsClosed :
      (m : GameplayTagsManager) (n : Name) → IsClosed m → IsClosed (request_tag strip_edges m n).0
  unfolding request_tag
  request_tag-IsClosed m n h = elim (Option-cases (entry m n)) [
    | inr (e, found) ↦ rw (found, request_tag) h
    | inl new ↦
        rw (new, request_tag)
          (elim (Bool-cases (is_valid_tag_name strip_edges n)) [
            | inl good ↦ rw good (modify-IsClosed _ n make_runtime (register-IsClosed none m n h))
            | inr bad ↦ rw bad h
          ])
  ]

  declare_tag-IsClosed :
      (previous : Option Entries) (m : GameplayTagsManager) (n path description : Name)
      → IsClosed m
      → IsClosed (declare_tag strip_edges m n path description previous)
  unfolding declare_tag
  declare_tag-IsClosed previous m n path description h =
      elim (Bool-cases (is_valid_tag_name strip_edges n)) [
        | inl good ↦
            rw good
              (modify-IsClosed _ n (claim path description) (register-IsClosed previous m n h))
        | inr bad ↦ rw bad h
      ]

  -- However the tables are declared, a rebuilt registry holds every ancestor of every tag it holds.
  pub initialize_tags-IsClosed :
      (sort : List Name → List Name) (load : Name → Loaded) (paths : List Name)
      (m : GameplayTagsManager)
      → IsClosed (initialize_tags strip_edges sort load paths m)
  unfolding initialize_tags lookup
  initialize_tags-IsClosed sort load paths m =
      load_tables_rule IsClosed strip_edges sort load m.tags (declare_tag-IsClosed (some m.tags))
        (λ k ps h. h) paths _ (λ n p r. absurd (ground (arith, r)))

  valid_named : (n : Name) → is_valid_tag_name strip_edges n ≡ true → n ≢ []
  unfolding is_valid_tag_name
  valid_named [] h = absurd (ground arith)
  valid_named (c ∷ s) h = λ e. ground (arith, e)

  request_registers :
      (m : GameplayTagsManager) (n : Name)
      → is_valid_tag_name strip_edges n ≡ true
      → (e : TagEntry) × (entry (register_tag_with_parents m n none) n ≡ some e)
  unfolding register_tag_with_parents
  request_registers m n good =
      let r =
        register_from-Registered none (length n) m n n (omega arith) (valid_named n good)
          (inl refl) in
      elim (Option-cases (entry (register_from (length n) m n none) n)) [
        | inl e ↦ absurd (ground (arith, r, e))
        | inr g ↦ g
      ]

  request_found :
      (m : GameplayTagsManager) (n : Name) (e : TagEntry)
      → entry m n ≡ some e
      → request_tag strip_edges m n ≡ (m, some e.tag)
  unfolding request_tag
  request_found m n e found = rw (found, request_tag)

  request_absent :
      (m : GameplayTagsManager) (n : Name)
      → entry m n ≡ none
      → is_valid_tag_name strip_edges n ≡ false
      → request_tag strip_edges m n ≡ (m, none)
  unfolding request_tag
  request_absent m n new bad = rw (new, request_tag, bad)

  request_new :
      (m : GameplayTagsManager) (n : Name)
      → entry m n ≡ none
      → is_valid_tag_name strip_edges n ≡ true
      → (e : TagEntry) × (entry (request_tag strip_edges m n).0 n ≡ some e)
        × ((request_tag strip_edges m n).1 ≡ some e.tag)
  unfolding request_tag get_tag
  request_new m n new good =
      let r = request_registers m n good in
      let t : entry (modify_entry n make_runtime (register_tag_with_parents m n none)) n
          ≡ some (make_runtime r.0) =
        ground
          (arith, entry-modify_entry (register_tag_with_parents m n none) n n make_runtime, r.1) in
      (
        make_runtime r.0,
        rw (new, request_tag, good) t,
        rw (new, request_tag, good) (ap (Option.map (λ (e : TagEntry). e.tag)) t),
      )

  -- A name that is registered or well formed gets a tag, and that tag is the registry's from then on.
  pub request_tag-some :
      (m : GameplayTagsManager) (n : Name)
      → Registered m n ⊎ (is_valid_tag_name strip_edges n ≡ true)
      → (t : GameplayTag) × ((request_tag strip_edges m n).1 ≡ some t)
        × (get_tag (request_tag strip_edges m n).0 n ≡ some t)
  unfolding get_tag
  request_tag-some m n h = elim (Option-cases (entry m n)) [
    | inr (e, found) ↦
        (e.tag, rw (request_found m n e found), rw (request_found m n e found, found))
    | inl new ↦ elim h [
      | inl old ↦ absurd (ground (arith, new, old))
      | inr good ↦ let r = request_new m n new good in ((r.0).tag, r.2, rw (r.1))
    ]
  ]

  -- A second request for the name gives the same tag object and changes nothing.
  pub request_tag_twice :
      (m : GameplayTagsManager) (n : Name)
      → request_tag strip_edges (request_tag strip_edges m n).0 n ≡ request_tag strip_edges m n
  request_tag_twice m n = elim (Option-cases (entry m n)) [
    | inr (e, found) ↦ rw (request_found m n e found, request_found m n e found)
    | inl new ↦ elim (Bool-cases (is_valid_tag_name strip_edges n)) [
      | inl good ↦
          let r = request_new m n new good in
          rw (request_found (request_tag strip_edges m n).0 n r.0 r.1, ← r.2)
      | inr bad ↦ rw (request_absent m n new bad, request_absent m n new bad)
    ]
  ]
