-- ===== src/Tags/Container.antt =====
-- gameplay_tags/gameplay_tag_container.{h,cpp}: a list of tags with no name twice. No operation stores
-- a null reference.
pub mod Queries
mod Scenarios
use gfgdextension.Common.{
  ℕ, zero, suc, List, [], ◌∷◌, ◌++◌, map, Option, none, some, Bool, true, false, if◌then◌else◌, ite,
  get_elem?, remove_at, is_some, ℤ, pos, negsuc,
}
use mathlib.Core.Option
use gfgdextension.Names.{Name, name_dec, is_empty}
use gfgdextension.Tags.{GameplayTag, same_name, matches_tag}
use gfgdextension.Tags.Manager.{GameplayTagsManager, request_tag}

pub record GameplayTagContainer : Type 0 where
  pub gameplay_tags : List GameplayTag

-- `none` for -1.
pub find_tag_index : List GameplayTag → Name → Option ℕ
find_tag_index [] tag_name = none
find_tag_index (t ∷ ts) tag_name =
    let rest = Option.map suc (find_tag_index ts tag_name) in
    if same_name t.tag_name tag_name then some 0 else rest

pub add_tag : GameplayTagContainer → Option GameplayTag → GameplayTagContainer
add_tag c none = c
add_tag c (some t) = elim (find_tag_index c.gameplay_tags t.tag_name) [
  | none ↦ record c { gameplay_tags = c.gameplay_tags ++ t ∷ [] }
  | some i ↦ c
]

pub remove_tag : GameplayTagContainer → Option GameplayTag → GameplayTagContainer
remove_tag c none = c
remove_tag c (some t) = elim (find_tag_index c.gameplay_tags t.tag_name) [
  | none ↦ c
  | some i ↦ record c { gameplay_tags = remove_at c.gameplay_tags i }
]

-- The loop of `has_tag`.
pub any_matches : List GameplayTag → GameplayTag → Bool
any_matches [] s = false
any_matches (t ∷ ts) s =
    let rest = any_matches ts s in if matches_tag t (some s) then true else rest

pub has_tag : GameplayTagContainer → Option GameplayTag → Bool
has_tag c none = false
has_tag c (some s) = any_matches c.gameplay_tags s

pub has_tag_exact : GameplayTagContainer → Option GameplayTag → Bool
has_tag_exact c none = false
has_tag_exact c (some s) = is_some (find_tag_index c.gameplay_tags s.tag_name)

-- The loops over the tags of the other container.
pub any_in : (Option GameplayTag → Bool) → List GameplayTag → Bool
any_in test [] = false
any_in test (t ∷ ts) = let rest = any_in test ts in if test (some t) then true else rest

pub all_in : (Option GameplayTag → Bool) → List GameplayTag → Bool
all_in test [] = true
all_in test (t ∷ ts) = let rest = all_in test ts in if test (some t) then rest else false

-- A null container: `has_any` fails, `has_all` and `has_all_exact` pass.
pub has_any : GameplayTagContainer → Option GameplayTagContainer → Bool
has_any c none = false
has_any c (some d) = any_in (has_tag c) d.gameplay_tags

pub has_all : GameplayTagContainer → Option GameplayTagContainer → Bool
has_all c none = true
has_all c (some d) = all_in (has_tag c) d.gameplay_tags

pub has_all_exact : GameplayTagContainer → Option GameplayTagContainer → Bool
has_all_exact c none = true
has_all_exact c (some d) = all_in (has_tag_exact c) d.gameplay_tags

pub get_tag : GameplayTagContainer → ℤ → Option GameplayTag
get_tag c (pos i) = get_elem? c.gameplay_tags i
get_tag c (negsuc _) = none

pub get_tags : GameplayTagContainer → List Name
get_tags c = map (λ (t : GameplayTag). t.tag_name) c.gameplay_tags

module _ (strip_edges : Name → Name) where
  pub add_tag_by_name :
      GameplayTagsManager × GameplayTagContainer → Name → GameplayTagsManager × GameplayTagContainer
  add_tag_by_name (m, c) tag_name =
      let (m', t) = request_tag strip_edges m tag_name in (m', add_tag c t)

  pub add_names :
      GameplayTagsManager × GameplayTagContainer
      → List Name
      → GameplayTagsManager × GameplayTagContainer
  add_names s [] = s
  add_names s (raw ∷ names) =
      let tag_name = strip_edges raw in
      add_names (if is_empty tag_name then s else add_tag_by_name s tag_name) names

  pub set_tags :
      GameplayTagsManager
      → GameplayTagContainer
      → List Name
      → GameplayTagsManager × GameplayTagContainer
  set_tags m c tag_names = add_names (m, record c { gameplay_tags = [] }) tag_names
