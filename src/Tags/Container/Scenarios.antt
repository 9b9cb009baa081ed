-- ===== src/Tags/Container/Scenarios.antt =====
-- A container with "A.B.C" and "A".
use gfgdextension.Common.{ℕ, ◌≡◌, refl, ◌⊎◌, ◌↔◌, [], ◌∷◌, some, true, ℕ_discrete, Has}
use gfgdextension.Names.{Name, name_dec}
use gfgdextension.Names.Prefixes.{IsAncestor}
use gfgdextension.Tags.{GameplayTag, matches_tag, matches_tag_iff}
use gfgdextension.Tags.Container as Container
use gfgdextension.Tags.Container.{GameplayTagContainer}
use gfgdextension.Tags.Container.Queries as Queries

abbrev a : Name
a = 65 ∷ []

abbrev ab : Name
ab = 65 ∷ 46 ∷ 66 ∷ []

abbrev abc : Name
abc = 65 ∷ 46 ∷ 66 ∷ 46 ∷ 67 ∷ []

abbrev tag_of : ℕ → Name → GameplayTag
tag_of o n = record { object = o; tag_name = n }

abbrev container : GameplayTagContainer
container = record { gameplay_tags = tag_of 0 abc ∷ tag_of 1 a ∷ [] }

container-IsValid : Queries.IsValid container
unfolding Container.find_tag_index name_dec ℕ_discrete
container-IsValid = (refl, (refl, tt))

matches_tag_iff_example :
    (matches_tag (tag_of 0 abc) (some (tag_of 2 ab)) ≡ true) ↔ ((ab ≡ abc) ⊎ IsAncestor ab abc)
matches_tag_iff_example = matches_tag_iff (tag_of 0 abc) (tag_of 2 ab)

has_tag_iff_example : (Container.has_tag container (some (tag_of 2 ab)) ≡ true) ↔ (
    (t : GameplayTag) × Has t container.gameplay_tags
    × ((ab ≡ t.tag_name) ⊎ IsAncestor ab t.tag_name))
has_tag_iff_example = Queries.has_tag_iff container (tag_of 2 ab)

remove_tag-IsValid_example : Queries.IsValid (Container.remove_tag container (some (tag_of 2 a)))
remove_tag-IsValid_example =
    Queries.remove_tag-IsValid container (some (tag_of 2 a)) container-IsValid
