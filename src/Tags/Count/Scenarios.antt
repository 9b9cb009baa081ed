-- ===== src/Tags/Count/Scenarios.antt =====
-- Counting the tag "A".
use gfgdextension.Common.{
  ℕ, ◌≡◌, [], ◌∷◌, some, Bool, true, not, if◌then◌else◌, ite, pos, add_clamped,
}
use gfgdextension.Names.{Name, name_dec}
use gfgdextension.Tags.{GameplayTag}
use gfgdextension.Tags.Container as Container
use gfgdextension.Tags.Container.{GameplayTagContainer}
use gfgdextension.Tags.Count as Count
use gfgdextension.Tags.Count.{GameplayTagCountContainer}
use gfgdextension.Tags.Count.Counting as Counting

abbrev a : Name
a = 65 ∷ []

abbrev ab : Name
ab = 65 ∷ 46 ∷ 66 ∷ []

abbrev abc : Name
abc = 65 ∷ 46 ∷ 66 ∷ 46 ∷ 67 ∷ []

abbrev tag_of : ℕ → Name → GameplayTag
tag_of o n = record { object = o; tag_name = n }

abbrev counts : GameplayTagCountContainer ℕ
counts = Count.new_count_container

abbrev all_valid : ℕ → Bool
all_valid c = true

update_tag_count-IsValid_example :
    Counting.IsValid (Count.update_tag_count all_valid counts (some (tag_of 0 a)) (pos 2)).0
update_tag_count-IsValid_example =
    Counting.update_tag_count-IsValid all_valid counts (some (tag_of 0 a)) (pos 2)
      Counting.new-IsValid

get_tag_count-update_example :
    Count.get_tag_count (Count.update_tag_count all_valid counts (some (tag_of 0 a)) (pos 2)).0 a
    ≡ ite
        (name_dec a a)
        (add_clamped (Count.get_tag_count counts a) (pos 2))
        (Count.get_tag_count counts a)
get_tag_count-update_example = Counting.get_tag_count-update all_valid counts (tag_of 0 a) (pos 2) a

update_tag_count_flips_example :
    (if (Count.update_tag_count all_valid counts (some (tag_of 0 a)) (pos 2)).2
      then not (Container.has_tag_exact counts.explicit_tags (some (tag_of 0 a)))
      else Container.has_tag_exact counts.explicit_tags (some (tag_of 0 a)))
    ≡ Container.has_tag_exact
        (Count.update_tag_count all_valid counts (some (tag_of 0 a)) (pos 2)).0.explicit_tags
        (some (tag_of 0 a))
update_tag_count_flips_example =
    Counting.update_tag_count_flips all_valid counts (tag_of 0 a) (pos 2) Counting.new-IsValid
