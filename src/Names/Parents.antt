-- ===== src/Names/Parents.antt =====
-- What `rfind` finds: the parent of a name is what stands before its last full stop.
use gfgdextension.Common.{
  ◌≡◌, refl, ap, ◌⊎◌, inl, inr, [], ◌∷◌, ◌++◌, none, some, arith, false, ◌==◌, Bool-cases, length,
}
use gfgdextension.Names.{Name, dot, rfind_dot}
use gfgdextension.Names.Prefixes.{IsAncestor}

-- A name with no full stop has no ancestor. The ancestors of any other are its parent, which is what
-- stands before the last full stop, and the parent's.
pub rfind_dot_lem :
    (s : Name)
    → ((rfind_dot s ≡ none) × ((p : Name) → ¬ IsAncestor p s))
      ⊎ ((a b : Name) × (s ≡ a ++ dot ∷ b)
          × (rfind_dot s ≡ some (length a))
          × ((p : Name) → IsAncestor p s → (p ≡ a) ⊎ IsAncestor p a))
unfolding rfind_dot
rfind_dot_lem [] = inl (refl, no-IsAncestor)
  where
    no-IsAncestor : (p : Name) → ¬ IsAncestor p []
    no-IsAncestor [] a = ground (arith, a.1)
    no-IsAncestor (x ∷ p) a = ground (arith, a.1)
rfind_dot_lem (c ∷ s) = elim (rfind_dot_lem s) [
  | inl (stop, lone) ↦ elim (Bool-cases (c == dot)) [
    | inl here ↦
        let e : c ≡ dot = ground arith in
        inr ([], s, ap (λ x. x ∷ s) e, rw (stop, rfind_dot, here), only lone)
    | inr other ↦ inl (rw (stop, rfind_dot, other), never other lone)
  ]
  | inr (a, b, split, found, up) ↦
      inr (c ∷ a, b, ap (◌∷◌ c) split, rw (found, rfind_dot), above a up)
]
  where
    only :
        ((p : Name) → ¬ IsAncestor p s)
        → (p : Name) → IsAncestor p (c ∷ s)
        → (p ≡ []) ⊎ IsAncestor p []
    only lone [] h = inl refl
    only lone (x ∷ p) h = absurd (lone p (h.0, ground (arith, h.1)))

    never :
        (c == dot) ≡ false → ((p : Name) → ¬ IsAncestor p s) → (p : Name) → ¬ IsAncestor p (c ∷ s)
    never other lone [] h = ground (arith, h.1)
    never other lone (x ∷ p) h = lone p (h.0, ground (arith, h.1))

    above :
        (a : Name)
        → ((p : Name) → IsAncestor p s → (p ≡ a) ⊎ IsAncestor p a)
        → (p : Name) → IsAncestor p (c ∷ s)
        → (p ≡ c ∷ a) ⊎ IsAncestor p (c ∷ a)
    above a up [] h = inr (a, ground (arith, h.1))
    above a up (x ∷ p) h =
        let head : x ≡ c = ground (arith, h.1) in
        elim (up p (h.0, ground (arith, h.1))) [
          | inl e ↦ inl (cc (head, e))
          | inr g ↦ inr (g.0, cc (head, g.1))
        ]
