-- ===== src/Tags/Manager/Rebuild.antt =====
-- A rebuild of the registry: which tag objects and which declarations survive.
use mathlib.Core.Option
use gfgdextension.Common.{◌≡◌, inl, inr, List, lookup, foldl, Option, some, arith, Option-cases}
use gfgdextension.Names.{Name, name_dec}
use gfgdextension.Tags.Manager.{
  TagEntry, tag_source_table, GameplayTagsManager, Loaded, insert_implicit_tag, implicit_entry,
  modify_entry, claim, load_table, initialize_tags,
}
use gfgdextension.Tags.Manager.Registry.{
  Entries, entry, chosen, entry-insert_implicit_tag, entry-modify_entry, declare_rule,
  load_tables_rule,
}

-- Every entry that is also in the replaced map has the tag object that it had there.
abbrev pub Reuses : Entries → GameplayTagsManager → Type 0
Reuses previous m =
    (n : Name) (old new : TagEntry)
    → lookup name_dec n previous ≡ some old
    → entry m n ≡ some new
    → new.tag ≡ old.tag

chosen_old :
    (previous : Entries) (m : GameplayTagsManager) (n q : Name) (old : TagEntry)
    → q ≡ n
    → lookup name_dec q previous ≡ some old
    → (implicit_entry (chosen m n (some previous))).tag ≡ old.tag
unfolding implicit_entry Option.bind
chosen_old previous m n q old s was =
    let found : Option.bind (some previous) (lookup name_dec n) ≡ some old = rw s at was in
    rw (found, chosen)

insert-Reuses :
    (previous : Entries) (m : GameplayTagsManager) (n : Name)
    → Reuses previous m
    → Reuses previous (insert_implicit_tag m n (some previous))
insert-Reuses previous m n h q old new was now = elim (Option-cases (entry m q)) [
  | inr (o, e) ↦
      ground (arith, entry-insert_implicit_tag m n q (some previous), h q old o was, e, now)
  | inl e ↦ ground (
    arith,
    entry-insert_implicit_tag m n q (some previous),
    λ (s : q ≡ n). chosen_old previous m n q old s was,
    e,
    now,
  )
]

map-tag : (p d : Name) (e : TagEntry) → (claim p d e).tag ≡ e.tag
unfolding claim
map-tag p d e = ground arith

claim-Reuses :
    (previous : Entries) (m : GameplayTagsManager) (n path description : Name)
    → Reuses previous m
    → Reuses previous (modify_entry n (claim path description) m)
claim-Reuses previous m n path description h q old new was now = elim (Option-cases (entry m q)) [
  | inl e ↦ absurd (ground (arith, entry-modify_entry m n q (claim path description), e, now))
  | inr (o, e) ↦ ground (
    arith,
    entry-modify_entry m n q (claim path description),
    e,
    now,
    map-tag path description o,
    h q old o was,
  )
]

-- A rebuild hands no new object to a tag that it keeps: references that were given out stay canonical.
pub initialize_tags-Reuses :
    (strip_edges : Name → Name) (sort : List Name → List Name) (load : Name → Loaded)
    (paths : List Name) (m : GameplayTagsManager) (n : Name) (old new : TagEntry)
    → entry m n ≡ some old
    → entry (initialize_tags strip_edges sort load paths m) n ≡ some new
    → new.tag ≡ old.tag
unfolding initialize_tags lookup
initialize_tags-Reuses strip_edges sort load paths m =
    load_tables_rule (Reuses m.tags) strip_edges sort load m.tags
      (declare_rule (Reuses m.tags) (some m.tags) (insert-Reuses m.tags) strip_edges
        (claim-Reuses m.tags))
      (λ k ps h. h) paths _ (λ n old new was now. absurd (ground (arith, now)))

-- The name is declared by a table, with this entry.
abbrev pub Declares : Name → TagEntry → GameplayTagsManager → Type 0
Declares n e m = (entry m n ≡ some e) × (e.source_kind ≡ tag_source_table)

insert-Declares :
    (n : Name) (e : TagEntry) (previous : Option Entries) (m : GameplayTagsManager) (q : Name)
    → Declares n e m
    → Declares n e (insert_implicit_tag m q previous)
insert-Declares n e previous m q h =
    (rw (entry-insert_implicit_tag m q n previous) (ground (arith, h.0)), h.1)

claim_declared : (p d : Name) (e : TagEntry) → e.source_kind ≡ tag_source_table → claim p d e ≡ e
unfolding claim
claim_declared p d e h = ground (arith, h)

claim-Declares :
    (n : Name) (e : TagEntry) (m : GameplayTagsManager) (q path description : Name)
    → Declares n e m
    → Declares n e (modify_entry q (claim path description) m)
claim-Declares n e m q path description h = (
  rw (entry-modify_entry m q n (claim path description))
      (ground (arith, h.0, claim_declared path description e h.1)),
  h.1,
)

-- Once a table has declared a tag, no later table and no repeat changes its entry: the first wins.
pub load_tables-Declares :
    (strip_edges : Name → Name) (sort : List Name → List Name) (load : Name → Loaded)
    (previous : Entries) (later : List Name) (m : GameplayTagsManager) (n : Name) (e : TagEntry)
    → Declares n e m
    → Declares n e (foldl (load_table strip_edges sort load previous) m later)
load_tables-Declares strip_edges sort load previous later m n e h =
    load_tables_rule (Declares n e) strip_edges sort load previous
      (declare_rule (Declares n e) (some previous) (insert-Declares n e (some previous)) strip_edges
        (claim-Declares n e))
      (λ k ps g. g) later m h
