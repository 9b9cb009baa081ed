-- ===== src/Tags/Container/Queries.antt =====
-- What a container's tests mean, and how the changes act on them.
use gfgdextension.Common.{
  ℕ, zero, suc, ◌≡◌, refl, sym, ◌⊎◌, inl, inr, ◌↔◌, ◌≢◌, List, [], ◌∷◌, ◌++◌, Option, none, some,
  Bool, true, false, ◌||◌, ◌&&◌, not, remove_at, is_some, arith, Has, Bool-cases, Option-cases,
}
use gfgdextension.Names.{Name, name_dec}
use gfgdextension.Names.Prefixes.{IsAncestor}
use gfgdextension.Tags.{GameplayTag, same_name, matches_tag, matches_tag_iff}
use gfgdextension.Tags.Container.{
  GameplayTagContainer, find_tag_index, add_tag, remove_tag, any_matches, has_tag, has_tag_exact,
  all_in, has_all, has_all_exact,
}

-- No two tags have one name.
abbrev pub AllDistinct : List GameplayTag → Type 0
AllDistinct [] = Unit {0}
AllDistinct (t ∷ ts) = (find_tag_index ts t.tag_name ≡ none) × AllDistinct ts

abbrev pub IsValid : GameplayTagContainer → Type 0
IsValid c = AllDistinct c.gameplay_tags

find-push :
    (ts : List GameplayTag) (t : GameplayTag) (n : Name)
    → is_some (find_tag_index (ts ++ t ∷ []) n)
      ≡ (is_some (find_tag_index ts n) || same_name t.tag_name n)
unfolding find_tag_index
find-push [] t n = ground arith
find-push (s ∷ ts) t n = ground (arith, find-push ts t n)

find-remove_at :
    (ts : List GameplayTag) (n q : Name) (i : ℕ)
    → AllDistinct ts
    → find_tag_index ts n ≡ some i
    → is_some (find_tag_index (remove_at ts i) q)
      ≡ (is_some (find_tag_index ts q) && not (same_name n q))
unfolding find_tag_index
find-remove_at [] n q i d e = ground (arith, e)
find-remove_at (s ∷ ts) n q zero d e = ground (arith, e, d.0)
find-remove_at (s ∷ ts) n q (suc i) d e = ground (arith, e, d.0, find-remove_at ts n q i d.1)

find_none-remove_at :
    (ts : List GameplayTag) (n : Name) (i : ℕ)
    → find_tag_index ts n ≡ none
    → find_tag_index (remove_at ts i) n ≡ none
unfolding find_tag_index
find_none-remove_at [] n i e = refl
find_none-remove_at (s ∷ ts) n zero e = ground (arith, e)
find_none-remove_at (s ∷ ts) n (suc i) e = ground (arith, e, find_none-remove_at ts n i)

AllDistinct-remove_at :
    (ts : List GameplayTag) (i : ℕ) → AllDistinct ts → AllDistinct (remove_at ts i)
AllDistinct-remove_at [] i d = tt
AllDistinct-remove_at (s ∷ ts) zero d = d.1
AllDistinct-remove_at (s ∷ ts) (suc i) d =
    (find_none-remove_at ts s.tag_name i d.0, AllDistinct-remove_at ts i d.1)

find_none-push :
    (ts : List GameplayTag) (t : GameplayTag) (n : Name)
    → find_tag_index ts n ≡ none
    → t.tag_name ≢ n
    → find_tag_index (ts ++ t ∷ []) n ≡ none
unfolding find_tag_index
find_none-push [] t n e other = ground (arith, other)
find_none-push (s ∷ ts) t n e other = ground (arith, e, other, find_none-push ts t n)

AllDistinct-push :
    (ts : List GameplayTag) (t : GameplayTag)
    → AllDistinct ts
    → find_tag_index ts t.tag_name ≡ none
    → AllDistinct (ts ++ t ∷ [])
unfolding find_tag_index
AllDistinct-push [] t d e = (refl, tt)
AllDistinct-push (s ∷ ts) t d e = (
  find_none-push ts t s.tag_name d.0 (λ g. ground (arith, g, e)),
  AllDistinct-push ts t d.1 (ground (arith, e)),
)

-- Adding and removing keep every name at most once.
pub add_tag-IsValid :
    (c : GameplayTagContainer) (t : Option GameplayTag) → IsValid c → IsValid (add_tag c t)
unfolding add_tag
add_tag-IsValid c none v = v
add_tag-IsValid c (some t) v = elim (Option-cases (find_tag_index c.gameplay_tags t.tag_name)) [
  | inl e ↦ rw (e, add_tag) (AllDistinct-push c.gameplay_tags t v e)
  | inr (i, e) ↦ rw (e, add_tag) v
]

pub remove_tag-IsValid :
    (c : GameplayTagContainer) (t : Option GameplayTag) → IsValid c → IsValid (remove_tag c t)
unfolding remove_tag
remove_tag-IsValid c none v = v
remove_tag-IsValid c (some t) v = elim (Option-cases (find_tag_index c.gameplay_tags t.tag_name)) [
  | inl e ↦ rw (e, remove_tag) v
  | inr (i, e) ↦ rw (e, remove_tag) (AllDistinct-remove_at c.gameplay_tags i v)
]

find_congr :
    (ts : List GameplayTag) (a b : Name)
    → a ≡ b
    → is_some (find_tag_index ts a) ≡ is_some (find_tag_index ts b)
find_congr ts a b e = rw e

-- After an addition the container has the added name and the names that it had.
pub has_tag_exact-add_tag :
    (c : GameplayTagContainer) (t s : GameplayTag)
    → has_tag_exact (add_tag c (some t)) (some s)
      ≡ (has_tag_exact c (some s) || same_name t.tag_name s.tag_name)
unfolding add_tag has_tag_exact
has_tag_exact-add_tag c t s = elim (Option-cases (find_tag_index c.gameplay_tags t.tag_name)) [
  | inl e ↦ rw (e, add_tag) (find-push c.gameplay_tags t s.tag_name)
  | inr (i, e) ↦
      rw (e, add_tag)
        (ground (
          arith,
          e,
          λ (g : t.tag_name ≡ s.tag_name). find_congr c.gameplay_tags t.tag_name s.tag_name g,
        ))
]

-- After a removal it has the names that it had, but for the removed one.
pub has_tag_exact-remove_tag :
    (c : GameplayTagContainer) (t s : GameplayTag)
    → IsValid c
    → has_tag_exact (remove_tag c (some t)) (some s)
      ≡ (has_tag_exact c (some s) && not (same_name t.tag_name s.tag_name))
unfolding remove_tag has_tag_exact
has_tag_exact-remove_tag c t s v = elim (Option-cases (find_tag_index c.gameplay_tags t.tag_name)) [
  | inl e ↦
      rw (e, remove_tag)
        (ground (
          arith,
          e,
          λ (g : t.tag_name ≡ s.tag_name). find_congr c.gameplay_tags t.tag_name s.tag_name g,
        ))
  | inr (i, e) ↦ rw (e, remove_tag) (find-remove_at c.gameplay_tags t.tag_name s.tag_name i v e)
]

any_matches_iff :
    (ts : List GameplayTag) (s : GameplayTag)
    → (any_matches ts s ≡ true) ↔ ((t : GameplayTag) × Has t ts × (matches_tag t (some s) ≡ true))
unfolding any_matches
any_matches_iff [] s = (λ h. absurd (ground (arith, h)), λ h. absurd h.1)
any_matches_iff (t ∷ ts) s =
    let ih = any_matches_iff ts s in
    (
      λ h. elim (Bool-cases (matches_tag t (some s))) [
        | inl e ↦ (t, inl refl, e)
        | inr e ↦ let r = ih.0 (rw e at h) in (r.0, inr r.1, r.2)
      ],
      λ h. elim h.1 [ inl e ↦ ground (arith, e, h.2) | inr g ↦ ground (arith, ih.1 (h.0, g, h.2)) ],
    )

-- `has_tag` finds the tag itself or any tag below it.
pub has_tag_iff :
    (c : GameplayTagContainer) (s : GameplayTag)
    → (has_tag c (some s) ≡ true) ↔ (
        (t : GameplayTag) × Has t c.gameplay_tags
        × ((s.tag_name ≡ t.tag_name) ⊎ IsAncestor s.tag_name t.tag_name))
unfolding has_tag
has_tag_iff c s =
    let any = any_matches_iff c.gameplay_tags s in
    (
      λ h. let r = any.0 h in (r.0, r.1, (matches_tag_iff r.0 s).0 r.2),
      λ h. any.1 (h.0, h.1, (matches_tag_iff h.0 s).1 h.2),
    )

all_in_mono :
    (p q : Option GameplayTag → Bool) (ts : List GameplayTag)
    → ((t : GameplayTag) → p (some t) ≡ true → q (some t) ≡ true)
    → all_in p ts ≡ true
    → all_in q ts ≡ true
unfolding all_in
all_in_mono p q [] h a = refl
all_in_mono p q (t ∷ ts) h a = ground (arith, a, h t, all_in_mono p q ts h)

find_Has :
    (ts : List GameplayTag) (n : Name)
    → is_some (find_tag_index ts n) ≡ true
    → (t : GameplayTag) × Has t ts × (n ≡ t.tag_name)
unfolding find_tag_index
find_Has [] n h = absurd (ground (arith, h))
find_Has (t ∷ ts) n h = elim (name_dec t.tag_name n) [
  | yes same ↦ (t, inl refl, sym same)
  | no other ↦ let r = find_Has ts n (ground (arith, h)) in (r.0, inr r.1, r.2)
]

-- What a container has exactly it also has by the wider test, tag by tag and container by container.
pub has_all_of_exact :
    (c : GameplayTagContainer) (d : Option GameplayTagContainer)
    → has_all_exact c d ≡ true
    → has_all c d ≡ true
unfolding has_all has_all_exact has_tag_exact
has_all_of_exact c none h = refl
has_all_of_exact c (some d) h =
    all_in_mono (has_tag_exact c) (has_tag c) d.gameplay_tags
      (λ t e.
        let r = find_Has c.gameplay_tags t.tag_name e in (has_tag_iff c t).1 (r.0, r.1, inl r.2))
      h

pub has_tag_exact-nil :
    (s : GameplayTag) → has_tag_exact (record { gameplay_tags = [] }) (some s) ≡ false
unfolding has_tag_exact find_tag_index
has_tag_exact-nil s = refl
