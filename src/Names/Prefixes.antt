-- ===== src/Names/Prefixes.antt =====
-- The loop `while (true) { dot = s.find(".", from); if (dot == -1) break; visit(s.substr(0, dot));
-- from = dot + 1; }` that the tags and the message channels share, and what it visits.
use mathlib.Core.List.{append-nil, append_assoc}
use mathlib.Core.Option
use gfgdextension.Common.{
  ℕ, zero, suc, ◌+◌, ◌<◌, ◌≡◌, refl, sym, ap, ◌∙◌, ◌⊎◌, inl, inr, ◌↔◌, List, [], ◌∷◌, ◌++◌, foldl,
  none, some, arith, true, ◌==◌, if◌then◌else◌, Bool-cases, length, take, Has, length-append,
  take-append_self, drop-append_self,
}
use gfgdextension.Names.{Name, dot, index_of_dot, find_dot, begins_with}

-- On fuel; a round moves `from` past a full stop, so the length of the name is enough.
unfoldable pub each_prefix {ℓ} : {S : Type ℓ} → ℕ → Name → ℕ → (S → Name → S) → S → S
each_prefix zero s from visit st = st
each_prefix (suc fuel) s from visit st = elim (find_dot s from) [
  | none ↦ st
  | some i ↦ each_prefix fuel s (i + 1) visit (visit st (take i s))
]

-- The prefixes that end before a full stop of `rest`, shortest first, where `pre` was read.
unfoldable pub prefixes : Name → Name → List Name
prefixes pre [] = []
prefixes pre (c ∷ rest) =
    let later = prefixes (pre ++ c ∷ []) rest in if c == dot then pre ∷ later else later

-- `b` is a proper ancestor of `c`: the text before one of its full stops.
abbrev pub IsAncestor : Name → Name → Type 0
IsAncestor b c = (rest : Name) × (c ≡ b ++ dot ∷ rest)

index_of_dot_lem :
    (pre s : Name)
    → ((index_of_dot s ≡ none) × (prefixes pre s ≡ []))
      ⊎ ((a b : Name) × (s ≡ a ++ dot ∷ b)
          × (index_of_dot s ≡ some (length a))
          × (prefixes pre s ≡ (pre ++ a) ∷ prefixes (pre ++ a ++ dot ∷ []) b))
unfolding index_of_dot prefixes
index_of_dot_lem pre [] = inl (refl, refl)
index_of_dot_lem pre (c ∷ s) =
    let nil_right = append-nil pre in
    elim (Bool-cases (c == dot)) [
      | inl here ↦
          let e : c ≡ dot = ground arith in
          inr ([], s, ap (λ x. x ∷ s) e, rw here, rw (here, nil_right, e))
      | inr other ↦ elim (index_of_dot_lem (pre ++ c ∷ []) s) [
        | inl (stop, empty) ↦ inl (rw (other, stop), rw (other, empty))
        | inr (a, b, split, found, tail) ↦
            let move : (pre ++ c ∷ []) ++ a ≡ pre ++ (c ∷ a) = append_assoc pre (c ∷ []) a in
            inr (c ∷ a, b, ap (◌∷◌ c) split, rw (other, found), rw (other, tail, move))
      ]
    ]

find_dot-append :
    (pre rest : Name)
    → find_dot (pre ++ rest) (length pre) ≡ Option.map (λ i. length pre + i) (index_of_dot rest)
unfolding find_dot
find_dot-append pre rest = rw (drop-append_self pre rest)

each_prefix-foldl {ℓ} :
    {S : Type ℓ} (visit : S → Name → S) (fuel : ℕ) (pre rest : Name) (st : S)
    → length rest < fuel
    → each_prefix fuel (pre ++ rest) (length pre) visit st ≡ foldl visit st (prefixes pre rest)
unfolding each_prefix
each_prefix-foldl visit zero pre rest st h = elim h [ ]
each_prefix-foldl visit (suc fuel) pre rest st h = elim (index_of_dot_lem pre rest) [
  | inl (stop, empty) ↦ rw (find_dot-append pre rest, stop, each_prefix, empty)
  | inr (a, b, split, found, tail) ↦
      let whole : pre ++ rest ≡ (pre ++ a ++ dot ∷ []) ++ b =
        ap (◌++◌ pre) split
        ∙ sym (append_assoc pre a (dot ∷ b))
        ∙ sym (append_assoc (pre ++ a) (dot ∷ []) b) in
      let before : length (pre ++ a) ≡ length pre + length a = length-append pre a in
      let read : take (length pre + length a) (pre ++ rest) ≡ pre ++ a =
        rw (← before, whole, append_assoc (pre ++ a) (dot ∷ []) b)
          (take-append_self (pre ++ a) (dot ∷ b)) in
      let next : length (pre ++ a ++ dot ∷ []) ≡ length pre + length a + 1 =
        omega (arith, before, length-append (pre ++ a) (dot ∷ [])) in
      rw (find_dot-append pre rest, found, each_prefix, tail)
        (cc (
          read,
          next,
          whole,
          each_prefix-foldl visit fuel (pre ++ a ++ dot ∷ []) b (visit st (pre ++ a))
              (omega (arith, ap length split, length-append a (dot ∷ b))),
        ))
]

-- The loop visits the proper dotted prefixes, and no other name.
pub each_prefix_lem {ℓ} :
    {S : Type ℓ} (visit : S → Name → S) (s : Name) (st : S)
    → each_prefix (suc (length s)) s 0 visit st ≡ foldl visit st (prefixes [] s)
each_prefix_lem visit s st = each_prefix-foldl visit (suc (length s)) [] s st (omega arith)

prefixes_sound : (pre s b : Name) → Has b (prefixes pre s) → IsAncestor b (pre ++ s)
unfolding prefixes
prefixes_sound pre [] b h = absurd h
prefixes_sound pre (c ∷ s) b h =
    let later = λ (g : Has b (prefixes (pre ++ c ∷ []) s)).
      let (rest, e) = prefixes_sound (pre ++ c ∷ []) s b g in
      let t : IsAncestor b (pre ++ c ∷ s) = (rest, sym (append_assoc pre (c ∷ []) s) ∙ e) in t in
    elim (Bool-cases (c == dot)) [
      | inl here ↦
          let e : c ≡ dot = ground arith in
          elim (rw here at h) [ inl same ↦ (s, rw (same, e)) | inr g ↦ later g ]
      | inr other ↦ later (rw other at h)
    ]

prefixes_complete : (pre a rest : Name) → Has (pre ++ a) (prefixes pre (a ++ dot ∷ rest))
unfolding prefixes
prefixes_complete pre [] rest = inl (append-nil pre)
prefixes_complete pre (x ∷ a) rest =
    let later : Has (pre ++ (x ∷ a)) (prefixes (pre ++ x ∷ []) (a ++ dot ∷ rest)) =
      rw (← append_assoc pre (x ∷ []) a) (prefixes_complete (pre ++ x ∷ []) a rest) in
    elim (Bool-cases (x == dot)) [ inl here ↦ rw here (inr later) | inr other ↦ rw other later ]

-- They are the proper ancestors of the name.
pub prefixes_iff : (s b : Name) → Has b (prefixes [] s) ↔ IsAncestor b s
prefixes_iff s b = (prefixes_sound [] s b, λ a. rw a.1 (prefixes_complete [] b a.0))

pub begins_with_iff : (s p : Name) → (begins_with s p ≡ true) ↔ ((rest : Name) × (s ≡ p ++ rest))
unfolding begins_with
begins_with_iff s [] = (λ _. (s, refl), λ _. refl)
begins_with_iff [] (c ∷ p) = (λ h. absurd (ground arith), λ h. absurd (ground arith))
begins_with_iff (d ∷ s) (c ∷ p) =
    let ih = begins_with_iff s p in
    (
      λ h. let r = ih.0 (ground arith) in (r.0, ground (arith, r.1)),
      λ h. let t : s ≡ p ++ h.0 = ground (arith, h.1) in ground (arith, ih.1 (h.0, t), h.1),
    )

-- `s.begins_with(p + ".")` is the test for a proper ancestor.
pub begins_with-IsAncestor : (s p : Name) → (begins_with s (p ++ dot ∷ []) ≡ true) ↔ IsAncestor p s
begins_with-IsAncestor s p =
    let starts = begins_with_iff s (p ++ dot ∷ []) in
    (
      λ h. let r = starts.0 h in (r.0, r.1 ∙ append_assoc p (dot ∷ []) r.0),
      λ a. starts.1 (a.0, a.1 ∙ sym (append_assoc p (dot ∷ []) a.0)),
    )
