-- ===== src/Tags/Manager/Registry.antt =====
-- What each write of the registry does to each entry, and rules that carry a property of the registry
-- through the operations, from the two writes that they are made of.
use mathlib.Core.Option
use gfgdextension.Common.{
  ℕ, zero, suc, ◌≡◌, refl, ◌⊎◌, inl, inr, List, [], ◌∷◌, lookup, foldl, Option, none, some,
  if◌then◌else◌, ite, is_some, arith, Bool-cases, Option-cases, lookup-insert, take, length,
}
use gfgdextension.Names.{Name, name_dec, rfind_dot, is_empty}
use gfgdextension.Tags.{GameplayTag}
use gfgdextension.Tags.Manager.{
  TagEntry, tag_source_runtime, GameplayTagsManager, GameplayTagTable, Loaded, missing, not_a_table,
  table, has_tag, insert_implicit_tag, implicit_entry, register_from, register_tag_with_parents,
  modify_entry, claim, is_valid_tag_name, request_tag, declare_tag, declare_all, load_table,
  has_name, get_tag_names, get_description,
}

abbrev pub Entries : Type 0
Entries = List (Name × TagEntry)

abbrev pub entry : GameplayTagsManager → Name → Option TagEntry
entry m n = lookup name_dec n m.tags

-- The tag of a new entry: the one that the replaced map had, or a new object.
abbrev pub chosen : GameplayTagsManager → Name → Option Entries → GameplayTag
chosen m n previous = elim (Option.bind previous (lookup name_dec n)) [
  | some e ↦ e.tag
  | none ↦ record { object = m.next_object; tag_name = n }
]

pub entry-insert_implicit_tag :
    (m : GameplayTagsManager) (n q : Name) (previous : Option Entries)
    → entry (insert_implicit_tag m n previous) q ≡ (
        if is_some (entry m n)
        then entry m q
        else ite (name_dec q n) (some (implicit_entry (chosen m n previous))) (entry m q))
unfolding insert_implicit_tag has_tag
entry-insert_implicit_tag m n q previous = elim (Bool-cases (is_some (entry m n))) [
  | inl old ↦ rw old
  | inr new ↦ rw new (elim (Option-cases (Option.bind previous (lookup name_dec n))) [
    | inl e ↦
        ground (arith, e, lookup-insert name_dec n q (implicit_entry (chosen m n previous)) m.tags)
    | inr (p, e) ↦
        ground (arith, e, lookup-insert name_dec n q (implicit_entry (chosen m n previous)) m.tags)
  ])
]

pub entry-modify_entry :
    (m : GameplayTagsManager) (n q : Name) (f : TagEntry → TagEntry)
    → entry (modify_entry n f m) q ≡ ite (name_dec q n) (Option.map f (entry m q)) (entry m q)
unfolding modify_entry
entry-modify_entry m n q f = elim (Option-cases (entry m n)) [
  | inl e ↦ rw (e, modify_entry) (ground (arith, e))
  | inr (o, e) ↦ rw (e, modify_entry) (ground (arith, e, lookup-insert name_dec n q (f o) m.tags))
]

Loaded-cases :
    (l : Loaded) → (l ≡ missing) ⊎ ((l ≡ not_a_table) ⊎ ((t : GameplayTagTable) × (l ≡ table t)))
Loaded-cases missing = inl refl
Loaded-cases not_a_table = inr (inl refl)
Loaded-cases (table t) = inr (inr (t, refl))

abbrev pub make_runtime : TagEntry → TagEntry
make_runtime e = record e { source_kind = tag_source_runtime }

module _ {ℓ} (P : GameplayTagsManager → Type ℓ) (previous : Option Entries)
    (inserts : (m : GameplayTagsManager) (n : Name)
      → P m
      → P (insert_implicit_tag m n previous)) where
  pub register_from_rule :
      (fuel : ℕ) (m : GameplayTagsManager) (n : Name) → P m → P (register_from fuel m n previous)
  unfolding register_from
  register_from_rule zero m n p = p
  register_from_rule (suc fuel) m [] p = p
  register_from_rule (suc fuel) m (c ∷ s) p = elim (Option-cases (rfind_dot (c ∷ s))) [
    | inl e ↦ rw (e, register_from) (inserts m (c ∷ s) p)
    | inr (i, e) ↦
        rw (e, register_from)
          (register_from_rule fuel (insert_implicit_tag m (c ∷ s) previous) (take i (c ∷ s))
            (inserts m (c ∷ s) p))
  ]

  pub register_rule :
      (m : GameplayTagsManager) (n : Name) → P m → P (register_tag_with_parents m n previous)
  unfolding register_tag_with_parents
  register_rule m n p = register_from_rule (length n) m n p

  module _ (strip_edges : Name → Name)
      (claims : (m : GameplayTagsManager) (n path description : Name)
        → P m
        → P (modify_entry n (claim path description) m)) where
    pub declare_rule :
        (m : GameplayTagsManager) (n path description : Name)
        → P m
        → P (declare_tag strip_edges m n path description previous)
    unfolding declare_tag
    declare_rule m n path description p = elim (Bool-cases (is_valid_tag_name strip_edges n)) [
      | inl good ↦ rw good (claims _ n path description (register_rule m n p))
      | inr bad ↦ rw bad p
    ]

module _ {ℓ} (P : GameplayTagsManager → Type ℓ) (strip_edges : Name → Name)
    (inserts : (m : GameplayTagsManager) (n : Name) → P m → P (insert_implicit_tag m n none)) where
  -- `request_tag` marks only an entry that was not there.
  pub request_rule :
      ((m : GameplayTagsManager) (n : Name) → P m → P (modify_entry n make_runtime m))
      → (m : GameplayTagsManager) (n : Name) → P m
      → P (request_tag strip_edges m n).0
  unfolding request_tag
  request_rule marks m n p = elim (Option-cases (entry m n)) [
    | inr (e, found) ↦ rw (found, request_tag) p
    | inl new ↦
        rw (new, request_tag)
          (elim (Bool-cases (is_valid_tag_name strip_edges n)) [
            | inl good ↦ rw good (marks _ n (register_rule P none inserts m n p))
            | inr bad ↦ rw bad p
          ])
  ]

module _ {ℓ} (P : GameplayTagsManager → Type ℓ) (strip_edges : Name → Name)
    (sort : List Name → List Name) (load : Name → Loaded) (previous : Entries)
    (declares : (m : GameplayTagsManager) (n path description : Name)
      → P m
      → P (declare_tag strip_edges m n path description (some previous)))
    (paths : (m : GameplayTagsManager) (ps : List Name)
      → P m
      → P (record m { loaded_table_paths = ps })) where
  declare_all_rule :
      (names : List Name) (path : Name) (t : GameplayTagTable) (m : GameplayTagsManager)
      → P m
      → P (declare_all strip_edges sort load path t previous m names)
  unfolding declare_all
  declare_all_rule [] path t m p = p
  declare_all_rule (n ∷ names) path t m p =
      declare_all_rule names path t
        (declare_tag strip_edges m n path (get_description t n) (some previous))
        (declares m n path (get_description t n) p)

  pub load_table_rule :
      (m : GameplayTagsManager) (path : Name)
      → P m
      → P (load_table strip_edges sort load previous m path)
  unfolding load_table
  load_table_rule m raw p =
      let path = strip_edges raw in
      elim (Bool-cases (is_empty path)) [
        | inl blank ↦ rw blank p
        | inr named ↦ rw named (elim (Bool-cases (has_name path m.loaded_table_paths)) [
          | inl repeat ↦ rw repeat p
          | inr new ↦ rw new (elim (Loaded-cases (load path)) [
            | inl e ↦ rw (e, load_table) p
            | inr (inl e) ↦ rw (e, load_table) p
            | inr (inr (t, e)) ↦
                rw (e, load_table) (declare_all_rule (get_tag_names sort t) path t _ (paths m _ p))
          ])
        ])
      ]

  pub load_tables_rule :
      (raw : List Name) (m : GameplayTagsManager)
      → P m
      → P (foldl (load_table strip_edges sort load previous) m raw)
  load_tables_rule [] m p = p
  load_tables_rule (path ∷ raw) m p =
      load_tables_rule raw (load_table strip_edges sort load previous m path)
        (load_table_rule m path p)
