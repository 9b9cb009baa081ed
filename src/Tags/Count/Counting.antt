-- ===== src/Tags/Count/Counting.antt =====
-- The counts, the explicit tags that follow them, and what an update reports.
use gfgdextension.Common.{
  ℕ, zero, ◌≡◌, refl, ◌≢◌, inl, inr, map, lookup, Option, none, some, Bool, not, ite, if_pos,
  if_neg, if◌then◌else◌, ◌==◌, keep, ℤ, pos, add_clamped, lookup-insert, arith, Bool-cases,
}
use gfgdextension.Names.{Name, name_dec}
use gfgdextension.Tags.{GameplayTag}
use gfgdextension.Tags.Container.{add_tag, remove_tag, has_tag_exact}
use gfgdextension.Tags.Container.Queries as Queries
use gfgdextension.Tags.Container.Queries.{
  add_tag-IsValid, remove_tag-IsValid, has_tag_exact-add_tag, has_tag_exact-remove_tag,
  has_tag_exact-nil,
}
use gfgdextension.Tags.Count.{
  GameplayTagCountContainer, new_count_container, get_tag_count, set_tag_count, notify,
  update_tag_count, delegates,
}

abbrev pub is_counted : ℕ → Bool
is_counted n = not (n == 0)

module _ {C : Type 0} where
  -- The explicit tags are those with a count, and none of them stands twice.
  pub record IsValid (c : GameplayTagCountContainer C) : Type 0 where
    pub distinct : Queries.IsValid c.explicit_tags
    pub explicit :
        (s : GameplayTag)
        → has_tag_exact c.explicit_tags (some s) ≡ is_counted (get_tag_count c s.tag_name)

  pub new-IsValid : IsValid new_count_container
  unfolding new_count_container get_tag_count lookup
  new-IsValid = record { distinct = tt; explicit = λ s. has_tag_exact-nil s }

  count-set :
      (c : GameplayTagCountContainer C) (t : GameplayTag) (n : ℕ) (q : Name)
      → get_tag_count (set_tag_count c t n) q ≡ ite (name_dec q t.tag_name) n (get_tag_count c q)
  unfolding set_tag_count get_tag_count
  count-set c t n q = ground (arith, lookup-insert name_dec t.tag_name q n c.gameplay_tag_count_map)

  explicit_after :
      (c : GameplayTagCountContainer C) (t : GameplayTag) (n : ℕ)
      → (set_tag_count c t n).explicit_tags
        ≡ (if n == 0 then remove_tag c.explicit_tags (some t) else add_tag c.explicit_tags (some t))
  unfolding set_tag_count
  explicit_after c t n = refl

  set-distinct :
      (c : GameplayTagCountContainer C) (t : GameplayTag) (n : ℕ)
      → IsValid c
      → Queries.IsValid (set_tag_count c t n).explicit_tags
  set-distinct c t n v = rw (explicit_after c t n) (elim (Bool-cases (n == 0)) [
    | inl e ↦ rw e (remove_tag-IsValid c.explicit_tags (some t) v.distinct)
    | inr e ↦ rw e (add_tag-IsValid c.explicit_tags (some t) v.distinct)
  ])

  set-explicit :
      (c : GameplayTagCountContainer C) (t : GameplayTag) (n : ℕ) (s : GameplayTag)
      → IsValid c
      → has_tag_exact (set_tag_count c t n).explicit_tags (some s)
        ≡ is_counted (get_tag_count (set_tag_count c t n) s.tag_name)
  set-explicit c t n s v =
      rw (count-set c t n s.tag_name, explicit_after c t n)
        (elim (Bool-cases (n == 0)) [
          | inl e ↦
              rw (e, has_tag_exact-remove_tag c.explicit_tags t s v.distinct, v.explicit s)
                (ground (arith, e))
          | inr e ↦
              rw (e, has_tag_exact-add_tag c.explicit_tags t s, v.explicit s) (ground (arith, e))
        ])

module _ {C : Type 0} (valid : C → Bool) where
  -- An update keeps the explicit tags those with a count above 0.
  pub update_tag_count-IsValid :
      (c : GameplayTagCountContainer C) (t : Option GameplayTag) (d : ℤ)
      → IsValid c
      → IsValid (update_tag_count valid c t d).0
  unfolding update_tag_count
  update_tag_count-IsValid c none d v = v
  update_tag_count-IsValid c (some t) (pos zero) v = v
  update_tag_count-IsValid c (some t) d v = record {
    distinct = set-distinct c t _ v;
    explicit = λ s. set-explicit c t _ s v;
  }

  -- It adds the change to the tag's own count, which stops at 0, and to no other.
  pub get_tag_count-update :
      (c : GameplayTagCountContainer C) (t : GameplayTag) (d : ℤ) (q : Name)
      → get_tag_count (update_tag_count valid c (some t) d).0 q
        ≡ ite
            (name_dec q t.tag_name)
            (add_clamped (get_tag_count c t.tag_name) d)
            (get_tag_count c q)
  unfolding update_tag_count
  get_tag_count-update c t (pos zero) q = elim (name_dec q t.tag_name) [
    | yes same ↦ rw (if_pos (name_dec q t.tag_name) same, same) (omega arith)
    | no other ↦ rw (if_neg (name_dec q t.tag_name) other)
  ]
  get_tag_count-update c t d q = count-set c t _ q

  -- The result says whether the tag entered or left the explicit tags.
  pub update_tag_count_flips :
      (c : GameplayTagCountContainer C) (t : GameplayTag) (d : ℤ)
      → IsValid c
      → let (c', _, flipped) = update_tag_count valid c (some t) d in
        (if flipped
          then not (has_tag_exact c.explicit_tags (some t))
          else has_tag_exact c.explicit_tags (some t))
        ≡ has_tag_exact c'.explicit_tags (some t)
  unfolding update_tag_count
  update_tag_count_flips c t (pos zero) v = refl
  update_tag_count_flips c t d v =
      let n = add_clamped (get_tag_count c t.tag_name) d in
      rw
        (
          set-explicit c t n t v,
          v.explicit t,
          count-set c t n t.tag_name,
          if_pos (name_dec t.tag_name t.tag_name) refl,
        )
        (ground arith)

  -- An update that changes a count calls each delegate of the tag that is valid, once, in the order of
  -- registration, with the new count.
  pub update_tag_count_calls :
      (c : GameplayTagCountContainer C) (t : GameplayTag) (d : ℤ)
      → d ≢ pos 0
      → (update_tag_count valid c (some t) d).1
        ≡ map
            (λ f. (f, t.tag_name, get_tag_count (update_tag_count valid c (some t) d).0 t.tag_name))
            (keep valid (delegates c t.tag_name))
  unfolding update_tag_count notify
  update_tag_count_calls c t (pos zero) h = absurd (h refl)
  update_tag_count_calls c t d h = rw (
    count-set c t (add_clamped (get_tag_count c t.tag_name) d) t.tag_name,
    if_pos (name_dec t.tag_name t.tag_name) refl,
  )
