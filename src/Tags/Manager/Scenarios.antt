-- ===== src/Tags/Manager/Scenarios.antt =====
-- Two tables that both declare "A.B".
use gfgdextension.Common.{
  ℕ, ◌≡◌, refl, inr, List, [], ◌∷◌, foldl, some, true, lookup, insert, ℕ_discrete,
}
use mathlib.Core.Option
use gfgdextension.Names.{Name, name_dec, rfind_dot, begins_with, contains, ends_with}
use gfgdextension.Tags.{GameplayTag}
use gfgdextension.Tags.Manager as Manager
use gfgdextension.Tags.Manager.{
  GameplayTagsManager, GameplayTagTable, TagEntry, TagSourceKind, tag_source_table, Loaded, missing,
  table, initialize_tags, load_table, request_tag, get_separated_tag, is_valid_tag_name,
}
use gfgdextension.Tags.Manager.Registry.{entry}
use gfgdextension.Tags.Manager.Ancestors.{IsClosed}
use gfgdextension.Tags.Manager.Requests as Requests
use gfgdextension.Tags.Manager.Rebuild as Rebuild
use gfgdextension.Tags.Manager.Rebuild.{Declares}

-- No whitespace at the edges, and one name in a table: the engine's functions leave these texts alone.
abbrev strip : Name → Name
strip s = s

abbrev sort : List Name → List Name
sort names = names

abbrev a : Name
a = 65 ∷ []

abbrev ab : Name
ab = 65 ∷ 46 ∷ 66 ∷ []

abbrev abc : Name
abc = 65 ∷ 46 ∷ 66 ∷ 46 ∷ 67 ∷ []

abbrev load : Name → Loaded
load [] = missing
load (_ ∷ _) = table (record { tags = (ab, 49 ∷ []) ∷ [] })

abbrev fresh_manager : GameplayTagsManager
fresh_manager = record { tags = []; loaded_table_paths = []; next_object = 0 }

abbrev manager : GameplayTagsManager
manager = initialize_tags strip sort load ((1 ∷ []) ∷ (2 ∷ []) ∷ []) fresh_manager

abbrev tag_of : ℕ → Name → GameplayTag
tag_of o n = record { object = o; tag_name = n }

manager-IsClosed : IsClosed manager
manager-IsClosed =
    Requests.initialize_tags-IsClosed strip sort load ((1 ∷ []) ∷ (2 ∷ []) ∷ []) fresh_manager

request_tag-IsClosed_example : IsClosed (request_tag strip manager abc).0
request_tag-IsClosed_example = Requests.request_tag-IsClosed strip manager abc manager-IsClosed

initialize_tags-IsClosed_example : IsClosed manager
initialize_tags-IsClosed_example =
    Requests.initialize_tags-IsClosed strip sort load ((1 ∷ []) ∷ (2 ∷ []) ∷ []) fresh_manager

abc_valid : is_valid_tag_name strip abc ≡ true
unfolding is_valid_tag_name name_dec ℕ_discrete begins_with contains ends_with
abc_valid = refl

request_tag-some_example :
    (t : GameplayTag) × ((request_tag strip manager abc).1 ≡ some t)
    × (Manager.get_tag (request_tag strip manager abc).0 abc ≡ some t)
request_tag-some_example = Requests.request_tag-some strip manager abc (inr abc_valid)

-- "A.B" as the first table declared it, and the registry with that entry alone.
abbrev declared : TagEntry
declared = record {
  tag = tag_of 7 ab;
  source_path = 1 ∷ [];
  description = 49 ∷ [];
  source_kind = tag_source_table;
}

abbrev declared_manager : GameplayTagsManager
declared_manager = record {
  tags = (ab, declared) ∷ [];
  loaded_table_paths = (1 ∷ []) ∷ [];
  next_object = 8;
}

-- The entry after a rebuild from the table at the path 2.
abbrev rebuilt : TagEntry
rebuilt = record declared { source_path = 2 ∷ [] }

declared-entry : entry declared_manager ab ≡ some declared
unfolding lookup name_dec ℕ_discrete
declared-entry = refl

rebuilt-entry :
    entry (initialize_tags strip sort load ((2 ∷ []) ∷ []) declared_manager) ab ≡ some rebuilt
unfolding initialize_tags load_table Manager.declare_all Manager.declare_tag
    Manager.register_tag_with_parents Manager.register_from Manager.insert_implicit_tag
    Manager.implicit_entry Manager.modify_entry Manager.claim Manager.has_tag Manager.has_name
    Manager.get_tag_names Manager.get_description is_valid_tag_name rfind_dot Option.bind lookup
    insert name_dec ℕ_discrete begins_with contains ends_with
rebuilt-entry = refl

initialize_tags-Reuses_example : rebuilt.tag ≡ declared.tag
initialize_tags-Reuses_example =
    Rebuild.initialize_tags-Reuses strip sort load ((2 ∷ []) ∷ []) declared_manager ab declared
      rebuilt declared-entry rebuilt-entry

load_tables-Declares_example :
    Declares ab declared (foldl (load_table strip sort load []) declared_manager ((2 ∷ []) ∷ []))
load_tables-Declares_example =
    Rebuild.load_tables-Declares strip sort load [] ((2 ∷ []) ∷ []) declared_manager ab declared
      (declared-entry, refl)
