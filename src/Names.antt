-- ===== src/Names.antt =====
-- `StringName` and `String` as lists of code points, with the engine's string functions that the
-- sources call (`find`, `rfind`, `substr`, `begins_with`, `contains`), by their documentation.
pub mod Prefixes
pub mod Parents
use gfgdextension.Common.{
  ℕ, suc, ◌+◌, ◌≡◌, List, [], ◌∷◌, Bool, true, false, ◌&&◌, ◌||◌, reverse, Option, none, some, ite,
  ℕ_discrete, if◌then◌else◌, ◌==◌, drop,
}
use mathlib.Core.Option

abbrev pub Name : Type 0
Name = List ℕ

unfoldable pub name_dec : Discrete Name
unfolding ℕ_discrete
name_dec = hlevel ℕ_discrete

-- The full stop.
abbrev pub dot : ℕ
dot = 46

-- Where the first full stop stands.
unfoldable pub index_of_dot : Name → Option ℕ
index_of_dot [] = none
index_of_dot (c ∷ s) =
    let rest = Option.map suc (index_of_dot s) in if c == dot then some 0 else rest

-- `s.find(".", from)`.
unfoldable pub find_dot : Name → ℕ → Option ℕ
find_dot s from = Option.map (λ i. from + i) (index_of_dot (drop from s))

-- `s.rfind(".")`.
unfoldable pub rfind_dot : Name → Option ℕ
rfind_dot [] = none
rfind_dot (c ∷ s) = elim (rfind_dot s) [
  | some i ↦ some (suc i)
  | none ↦ if c == dot then some 0 else none
]

-- `s.begins_with(p)`.
unfoldable pub begins_with : Name → Name → Bool
begins_with s [] = true
begins_with [] (c ∷ p) = false
begins_with (d ∷ s) (c ∷ p) = d == c && begins_with s p

abbrev pub is_empty : Name → Bool
is_empty [] = true
is_empty (_ ∷ _) = false

-- `s.contains(p)`.
unfoldable pub contains : Name → Name → Bool
unfolding begins_with
contains [] p = begins_with [] p
contains (c ∷ s) p = begins_with (c ∷ s) p || contains s p

-- `s.ends_with(p)`.
unfoldable pub ends_with : Name → Name → Bool
unfolding begins_with
ends_with s p = begins_with (reverse s) (reverse p)
