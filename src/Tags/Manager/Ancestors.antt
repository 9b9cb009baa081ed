-- ===== src/Tags/Manager/Ancestors.antt =====
-- Every ancestor of a registered tag is registered.
use mathlib.Core.List.{append_assoc}
use gfgdextension.Common.{
  ℕ, zero, suc, ◌≤◌, ◌≡◌, sym, ap, ◌∙◌, ◌⊎◌, inl, inr, ◌≢◌, [], ◌∷◌, ◌++◌, Option, true, is_some,
  arith, take, length, length-append, take-append_self,
}
use gfgdextension.Names.{Name, name_dec, dot}
use gfgdextension.Names.Parents.{rfind_dot_lem}
use gfgdextension.Names.Prefixes.{IsAncestor}
use gfgdextension.Tags.Manager.{
  TagEntry, GameplayTagsManager, insert_implicit_tag, register_from, register_tag_with_parents,
  modify_entry,
}
use gfgdextension.Tags.Manager.Registry.{
  Entries, entry, entry-insert_implicit_tag, entry-modify_entry, register_from_rule,
}

abbrev pub Registered : GameplayTagsManager → Name → Type 0
Registered m n = is_some (entry m n) ≡ true

-- The ancestors of a registered name are registered; an ancestor with no text has no tag.
abbrev pub IsClosed : GameplayTagsManager → Type 0
IsClosed m = (n p : Name) → Registered m n → IsAncestor p n → p ≢ [] → Registered m p

IsAncestor-trans : (p q n : Name) → IsAncestor p q → IsAncestor q n → IsAncestor p n
IsAncestor-trans p q n (r, e) (s, f) =
    (r ++ dot ∷ s, f ∙ ap (λ x. x ++ dot ∷ s) e ∙ append_assoc p (dot ∷ r) (dot ∷ s))

pub insert-Registered :
    (m : GameplayTagsManager) (n q : Name) (previous : Option Entries)
    → Registered m q
    → Registered (insert_implicit_tag m n previous) q
insert-Registered m n q previous h = rw (entry-insert_implicit_tag m n q previous) (ground arith)

insert_self :
    (m : GameplayTagsManager) (n : Name) (previous : Option Entries)
    → Registered (insert_implicit_tag m n previous) n
insert_self m n previous = rw (entry-insert_implicit_tag m n n previous) (ground arith)

insert_cases :
    (m : GameplayTagsManager) (n q : Name) (previous : Option Entries)
    → Registered (insert_implicit_tag m n previous) q
    → Registered m q ⊎ (q ≡ n)
insert_cases m n q previous h = elim (name_dec q n) [
  | yes same ↦ inr same
  | no other ↦ inl (ground (arith, entry-insert_implicit_tag m n q previous))
]

modify-is_some :
    (m : GameplayTagsManager) (n q : Name) (f : TagEntry → TagEntry)
    → is_some (entry (modify_entry n f m) q) ≡ is_some (entry m q)
modify-is_some m n q f = rw (entry-modify_entry m n q f) (ground arith)

pub modify-IsClosed :
    (m : GameplayTagsManager) (n : Name) (f : TagEntry → TagEntry)
    → IsClosed m
    → IsClosed (modify_entry n f m)
modify-IsClosed m n f h q p r a named =
    modify-is_some m n p f ∙ h q p (sym (modify-is_some m n q f) ∙ r) a named

no-IsAncestor : (p : Name) → ¬ IsAncestor p []
no-IsAncestor [] a = ground (arith, a.1)
no-IsAncestor (x ∷ p) a = ground (arith, a.1)

module _ (previous : Option Entries) where
  -- The loop registers the name and its ancestors.
  pub register_from-Registered :
      (fuel : ℕ) (m : GameplayTagsManager) (n p : Name)
      → length n ≤ fuel
      → p ≢ []
      → (p ≡ n) ⊎ IsAncestor p n
      → Registered (register_from fuel m n previous) p
  unfolding register_from
  register_from-Registered fuel m [] p h named (inl e) = absurd (named e)
  register_from-Registered fuel m [] p h named (inr a) = absurd (no-IsAncestor p a)
  register_from-Registered zero m (c ∷ s) p h named on_path = absurd (omega arith)
  register_from-Registered (suc fuel) m (c ∷ s) p h named on_path =
      let m' = insert_implicit_tag m (c ∷ s) previous in
      elim (rfind_dot_lem (c ∷ s)) [
        | inl (stop, lone) ↦
            rw (stop, register_from)
              (elim on_path [
                | inl e ↦ rw e (insert_self m (c ∷ s) previous)
                | inr a ↦ absurd (lone p a)
              ])
        | inr (a, b, split, found, up) ↦
            let parent : take (length a) (c ∷ s) ≡ a = rw split (take-append_self a (dot ∷ b)) in
            rw (found, register_from)
              (rw parent (elim on_path [
                | inl e ↦ rw e (
                    register_from_rule (λ k. Registered k (c ∷ s)) previous
                      (λ k q. insert-Registered k q (c ∷ s) previous) fuel m' a
                      (insert_self m (c ∷ s) previous))
                | inr g ↦
                    register_from-Registered fuel m' a p
                      (omega (arith, ap length split, length-append a (dot ∷ b))) named (up p g)
              ]))
      ]

  -- It registers nothing else.
  register_from_cases :
      (fuel : ℕ) (m : GameplayTagsManager) (n q : Name)
      → Registered (register_from fuel m n previous) q
      → Registered m q ⊎ ((q ≡ n) ⊎ IsAncestor q n)
  unfolding register_from
  register_from_cases zero m n q h = inl h
  register_from_cases (suc fuel) m [] q h = inl h
  register_from_cases (suc fuel) m (c ∷ s) q h = elim (rfind_dot_lem (c ∷ s)) [
    | inl (stop, lone) ↦ elim (insert_cases m (c ∷ s) q previous (rw (stop, register_from) at h)) [
      | inl g ↦ inl g
      | inr e ↦ inr (inl e)
    ]
    | inr (a, b, split, found, up) ↦
        let parent : take (length a) (c ∷ s) ≡ a = rw split (take-append_self a (dot ∷ b)) in
        let above : IsAncestor a (c ∷ s) = (b, split) in
        elim (register_from_cases fuel (insert_implicit_tag m (c ∷ s) previous) a q
          (rw (found, register_from, parent) at h)) [
            | inl g ↦ elim (insert_cases m (c ∷ s) q previous g) [
              | inl k ↦ inl k
              | inr e ↦ inr (inl e)
            ]
            | inr (inl e) ↦ inr (inr (rw e above))
            | inr (inr g) ↦ inr (inr (IsAncestor-trans q a (c ∷ s) g above))
          ]
  ]

  pub register-IsClosed :
      (m : GameplayTagsManager) (n : Name)
      → IsClosed m
      → IsClosed (register_tag_with_parents m n previous)
  unfolding register_tag_with_parents
  register-IsClosed m n h q p r a named =
      let on_path = λ (b : (p ≡ n) ⊎ IsAncestor p n).
        register_from-Registered (length n) m n p (omega arith) named b in
      elim (register_from_cases (length n) m n q r) [
        | inl old ↦
            register_from_rule (λ k. Registered k p) previous
              (λ k s. insert-Registered k s p previous) (length n) m n (h q p old a named)
        | inr (inl e) ↦ on_path (inr (rw e at a))
        | inr (inr g) ↦ on_path (inr (IsAncestor-trans p q n a g))
      ]
