-- ===== src/Tags/Count.antt =====
-- gameplay_tags/gameplay_tag_count_container.{h,cpp}: tags counted, with delegates on each change. `C`
-- stands for Callable and `valid` for its validity at the call. Counts stay below the `int` limit.
pub mod Counting
mod Scenarios
use mathlib.Core.Option
use gfgdextension.Common.{
  ℕ, zero, List, [], ◌∷◌, ◌++◌, map, lookup, Option, none, some, Bool, true, false, not,
  if◌then◌else◌, ◌==◌, keep, insert, ℤ, pos, negsuc, add_clamped,
}
use gfgdextension.Names.{Name, name_dec}
use gfgdextension.Tags.{GameplayTag}
use gfgdextension.Tags.Container.{GameplayTagContainer, add_tag, remove_tag}

pub record GameplayTagCountContainer (C : Type 0) : Type 0 where
  pub gameplay_tag_count_map : List (Name × ℕ)
  pub gameplay_tag_event_map : List (Name × List C)
  pub explicit_tags : GameplayTagContainer

-- `(a == 0) != (b == 0)`.
abbrev pub existence_flips : ℕ → ℕ → Bool
existence_flips a b = if a == 0 then not (b == 0) else b == 0

module _ {C : Type 0} where
  pub new_count_container : GameplayTagCountContainer C
  new_count_container = record {
    gameplay_tag_count_map = [];
    gameplay_tag_event_map = [];
    explicit_tags = record { gameplay_tags = [] };
  }

  pub get_tag_count : GameplayTagCountContainer C → Name → ℕ
  get_tag_count c tag_name = Option.get_or (lookup name_dec tag_name c.gameplay_tag_count_map) 0

  abbrev pub delegates : GameplayTagCountContainer C → Name → List C
  delegates c tag_name = Option.get_or (lookup name_dec tag_name c.gameplay_tag_event_map) []

  -- The writes of `update_tag_count`, past its guard.
  pub set_tag_count : GameplayTagCountContainer C → GameplayTag → ℕ → GameplayTagCountContainer C
  set_tag_count c t new_count = record c {
    gameplay_tag_count_map = insert name_dec t.tag_name new_count c.gameplay_tag_count_map;
    explicit_tags =
        if new_count == 0
        then remove_tag c.explicit_tags (some t)
        else add_tag c.explicit_tags (some t);
  }

module _ {C : Type 0} (valid : C → Bool) where
  -- The delegates called with the name and the new count, in order.
  pub notify : GameplayTagCountContainer C → Name → ℕ → List (C × Name × ℕ)
  notify c tag_name new_count =
      map (λ d. (d, tag_name, new_count)) (keep valid (delegates c tag_name))

  -- The container, the calls made, and whether the tag's existence flipped.
  pub update_tag_count :
      GameplayTagCountContainer C
      → Option GameplayTag
      → ℤ
      → GameplayTagCountContainer C × List (C × Name × ℕ) × Bool
  update_tag_count c none count_delta = (c, [], false)
  update_tag_count c (some t) (pos zero) = (c, [], false)
  update_tag_count c (some t) count_delta =
      let old_count = get_tag_count c t.tag_name in
      let new_count = add_clamped old_count count_delta in
      (
        set_tag_count c t new_count,
        notify c t.tag_name new_count,
        existence_flips old_count new_count,
      )

  pub register_gameplay_tag_event :
      GameplayTagCountContainer C → Option GameplayTag → C → GameplayTagCountContainer C
  register_gameplay_tag_event c none tag_delegate = c
  register_gameplay_tag_event c (some t) tag_delegate =
      if valid tag_delegate
      then record c {
        gameplay_tag_event_map =
            insert name_dec t.tag_name (delegates c t.tag_name ++ tag_delegate ∷ [])
              c.gameplay_tag_event_map;
      }
      else c
