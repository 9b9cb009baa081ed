-- ===== src/Tags/Manager.antt =====
-- gameplay_tags/gameplay_tags_manager.{h,cpp} and gameplay_tag_table.{h,cpp}: the registry of tags.
-- Project settings and the resource loader are arguments. So are the engine's `strip_edges` and its
-- sort of strings. Warnings are not modelled.
pub mod Registry
pub mod Ancestors
pub mod Requests
pub mod Rebuild
mod Scenarios
use mathlib.Core.Option
use gfgdextension.Common.{
  ℕ, zero, suc, ◌+◌, List, [], ◌∷◌, ◌++◌, map, foldl, lookup, Option, none, some, Bool, true, false,
  not, ◌&&◌, ◌||◌, if◌then◌else◌, ◌==◌, ite, length, take, insert, is_some,
}
use gfgdextension.Names.{Name, name_dec, dot, rfind_dot, begins_with, is_empty, contains, ends_with}
use gfgdextension.Names.Prefixes.{each_prefix}
use gfgdextension.Tags.{GameplayTag, same_name}

pub data TagSourceKind : Type 0 where
  tag_source_table tag_source_implicit tag_source_runtime : TagSourceKind

pub record TagEntry : Type 0 where
  pub tag : GameplayTag
  pub source_path : Name
  pub description : Name
  pub source_kind : TagSourceKind

-- `next_object` is the identity of the next tag that is allocated.
pub record GameplayTagsManager : Type 0 where
  pub tags : List (Name × TagEntry)
  pub loaded_table_paths : List Name
  pub next_object : ℕ

-- The dictionary of a GameplayTagTable: names with their descriptions.
pub record GameplayTagTable : Type 0 where
  pub tags : List (Name × Name)

pub has_table_tag : GameplayTagTable → Name → Bool
has_table_tag t tag_name = is_some (lookup name_dec tag_name t.tags)

pub get_description : GameplayTagTable → Name → Name
get_description t tag_name = Option.get_or (lookup name_dec tag_name t.tags) []

pub get_tag_names : (List Name → List Name) → GameplayTagTable → List Name
get_tag_names sort t = sort (map (λ e. e.0) t.tags)

-- What the resource loader answers for a path.
pub data Loaded : Type 0 where
  missing not_a_table : Loaded
  table : GameplayTagTable → Loaded

pub has_tag : GameplayTagsManager → Name → Bool
has_tag m tag_name = is_some (lookup name_dec tag_name m.tags)

pub get_tag : GameplayTagsManager → Name → Option GameplayTag
get_tag m tag_name = Option.map (λ (e : TagEntry). e.tag) (lookup name_dec tag_name m.tags)

pub get_tag_source_kind : GameplayTagsManager → Name → TagSourceKind
get_tag_source_kind m tag_name =
    Option.get_or (Option.map (λ (e : TagEntry). e.source_kind) (lookup name_dec tag_name m.tags))
      tag_source_runtime

pub get_tag_source_path : GameplayTagsManager → Name → Name
get_tag_source_path m tag_name =
    Option.get_or (Option.map (λ (e : TagEntry). e.source_path) (lookup name_dec tag_name m.tags))
      []

pub get_tag_description : GameplayTagsManager → Name → Name
get_tag_description m tag_name =
    Option.get_or (Option.map (λ (e : TagEntry). e.description) (lookup name_dec tag_name m.tags))
      []

pub get_all_tag_names : (List Name → List Name) → GameplayTagsManager → List Name
get_all_tag_names sort m = sort (map (λ e. e.0) m.tags)

-- The entry that is not owned by a table.
pub implicit_entry : GameplayTag → TagEntry
implicit_entry t = record {
  tag = t;
  source_path = [];
  description = [];
  source_kind = tag_source_implicit;
}

-- `previous_tags` is the map that a rebuild replaces; elsewhere it is null.
pub insert_implicit_tag :
    GameplayTagsManager → Name → Option (List (Name × TagEntry)) → GameplayTagsManager
insert_implicit_tag m tag_name previous_tags =
    if has_tag m tag_name then m else elim (Option.bind previous_tags (lookup name_dec tag_name)) [
      | some previous ↦ record m {
        tags = insert name_dec tag_name (implicit_entry previous.tag) m.tags;
      }
      | none ↦ record m {
        tags =
            insert name_dec tag_name
              (implicit_entry (record { object = m.next_object; tag_name = tag_name })) m.tags;
        next_object = m.next_object + 1;
      }
    ]

-- The loop over a name and its ancestors, longest first. A round shortens the name, so its length is
-- fuel enough.
pub register_from :
    ℕ → GameplayTagsManager → Name → Option (List (Name × TagEntry)) → GameplayTagsManager
register_from zero m current_tag previous_tags = m
register_from (suc fuel) m [] previous_tags = m
register_from (suc fuel) m (c ∷ s) previous_tags =
    let m' = insert_implicit_tag m (c ∷ s) previous_tags in
    elim (rfind_dot (c ∷ s)) [
      | none ↦ m'
      | some last_dot ↦ register_from fuel m' (take last_dot (c ∷ s)) previous_tags
    ]

pub register_tag_with_parents :
    GameplayTagsManager → Name → Option (List (Name × TagEntry)) → GameplayTagsManager
register_tag_with_parents m tag_name previous_tags =
    register_from (length tag_name) m tag_name previous_tags

-- `tags[tag_name]`, written back after a change. The callers have registered the name just before,
-- so the key is there.
pub modify_entry : Name → (TagEntry → TagEntry) → GameplayTagsManager → GameplayTagsManager
modify_entry tag_name f m = elim (lookup name_dec tag_name m.tags) [
  | none ↦ m
  | some e ↦ record m { tags = insert name_dec tag_name (f e) m.tags }
]

abbrev pub is_table : TagSourceKind → Bool
is_table tag_source_table = true
is_table _ = false

-- The first table that declares a tag takes the entry over; a later one leaves it.
pub claim : Name → Name → TagEntry → TagEntry
claim source_path description e = if is_table e.source_kind then e else record e {
  source_path = source_path;
  description = description;
  source_kind = tag_source_table;
}

-- `names.find(name) != -1`.
pub has_name : Name → List Name → Bool
has_name name [] = false
has_name name (n ∷ names) = same_name n name || has_name name names

module _ (strip_edges : Name → Name) where
  pub is_valid_tag_name : Name → Bool
  is_valid_tag_name tag_name =
      if is_empty tag_name
      then false
      else if not (same_name tag_name (strip_edges tag_name))
      then false
      else if begins_with tag_name (dot ∷ []) || ends_with tag_name (dot ∷ [])
      then false
      else if contains tag_name (dot ∷ dot ∷ [])
      then false
      else if contains tag_name (32 ∷ [])
      then false
      else true

  pub request_tag : GameplayTagsManager → Name → GameplayTagsManager × Option GameplayTag
  request_tag m tag_name = elim (lookup name_dec tag_name m.tags) [
    | some found ↦ (m, some found.tag)
    | none ↦
        if is_valid_tag_name tag_name
        then (let m' =
              modify_entry tag_name (λ e. record e { source_kind = tag_source_runtime })
                (register_tag_with_parents m tag_name none) in
            (m', get_tag m' tag_name))
        else (m, none)
  ]

  -- One `separated.push_back(request_tag(name))`.
  pub push_requested :
      GameplayTagsManager × List (Option GameplayTag)
      → Name
      → GameplayTagsManager × List (Option GameplayTag)
  push_requested (m, found) name = let (m', tag) = request_tag m name in (m', found ++ tag ∷ [])

  -- The tags of the prefixes, then of the whole name; each is requested, so it may be registered.
  pub get_separated_tag :
      GameplayTagsManager → Option GameplayTag → GameplayTagsManager × List (Option GameplayTag)
  get_separated_tag m none = (m, [])
  get_separated_tag m (some t) =
      push_requested (each_prefix (suc (length t.tag_name)) t.tag_name 0 push_requested (m, []))
        t.tag_name

  pub declare_tag :
      GameplayTagsManager
      → Name
      → Name
      → Name
      → Option (List (Name × TagEntry))
      → GameplayTagsManager
  declare_tag m tag_name source_path description previous_tags =
      if is_valid_tag_name tag_name
      then modify_entry tag_name (claim source_path description)
          (register_tag_with_parents m tag_name previous_tags)
      else m

  module _ (sort : List Name → List Name) (load : Name → Loaded) where
    pub declare_all :
        Name
        → GameplayTagTable
        → List (Name × TagEntry)
        → GameplayTagsManager
        → List Name
        → GameplayTagsManager
    declare_all path t previous m [] = m
    declare_all path t previous m (name ∷ names) =
        declare_all path t previous
          (declare_tag m name path (get_description t name) (some previous)) names

    -- One round over the table paths of the project settings.
    pub load_table : List (Name × TagEntry) → GameplayTagsManager → Name → GameplayTagsManager
    load_table previous m raw_path =
        let path = strip_edges raw_path in
        if is_empty path
        then m
        else if has_name path m.loaded_table_paths
        then m
        else elim (load path) [
          | missing ↦ m
          | not_a_table ↦ m
          | table t ↦
              declare_all path t previous
                (record m { loaded_table_paths = m.loaded_table_paths ++ path ∷ [] })
                (get_tag_names sort t)
        ]

    pub initialize_tags : List Name → GameplayTagsManager → GameplayTagsManager
    initialize_tags table_paths m =
        foldl (load_table m.tags) (record m { tags = []; loaded_table_paths = [] }) table_paths
