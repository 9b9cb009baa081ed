-- ===== src/Tags.antt =====
-- gameplay_tags/gameplay_tag.{h,cpp}: a tag, and the match of a tag against an ancestor.
pub mod Container
pub mod Count
pub mod Manager
use gfgdextension.Common.{
  ℕ, ◌≡◌, refl, ◌⊎◌, inl, inr, ◌↔◌, sym, ◌∙◌, List, [], ◌∷◌, ◌++◌, Option, none, some, Bool, true,
  false, ite, if_pos, if_neg, arith,
}
use gfgdextension.Names.{Name, name_dec, dot, begins_with}
use gfgdextension.Names.Prefixes.{IsAncestor, begins_with-IsAncestor}

-- `object` tells two tag objects of one name apart.
pub record GameplayTag : Type 0 where
  pub object : ℕ
  pub tag_name : Name

-- `tag_name == other`, as the code compares two names.
abbrev pub same_name : Name → Name → Bool
same_name a b = ite (name_dec a b) true false

-- "A.B.C" matches "A.B" and "A.B.C". `none` is a null reference.
pub matches_tag : GameplayTag → Option GameplayTag → Bool
matches_tag t none = false
matches_tag t (some s) =
    ite (name_dec t.tag_name s.tag_name) true (begins_with t.tag_name (s.tag_name ++ dot ∷ []))

pub matches_tag_exact : GameplayTag → Option GameplayTag → Bool
matches_tag_exact t none = false
matches_tag_exact t (some s) = same_name t.tag_name s.tag_name

-- A tag matches another exactly when it has its name, or a name below it.
pub matches_tag_iff :
    (t s : GameplayTag)
    → (matches_tag t (some s) ≡ true)
      ↔ ((s.tag_name ≡ t.tag_name) ⊎ IsAncestor s.tag_name t.tag_name)
unfolding matches_tag
matches_tag_iff t s =
    let below = begins_with-IsAncestor t.tag_name s.tag_name in
    elim (name_dec t.tag_name s.tag_name) [
      | yes same ↦ (λ _. inl (sym same), λ _. if_pos (name_dec t.tag_name s.tag_name) same _ _)
      | no other ↦
          let miss =
            if_neg (name_dec t.tag_name s.tag_name) other true
              (begins_with t.tag_name (s.tag_name ++ dot ∷ [])) in
          (
            λ h. inr (below.0 (sym miss ∙ h)),
            elim [ inl e ↦ absurd (other (sym e)) | inr a ↦ miss ∙ below.1 a ],
          )
    ]
