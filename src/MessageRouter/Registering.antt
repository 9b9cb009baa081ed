-- ===== src/MessageRouter/Registering.antt =====
-- `register_listener` keeps the invariant, and `unregister_listener` undoes it.
use gfgdextension.Common.{
  ℕ, ◌+◌, ◌≡◌, refl, sym, ap, subst, ◌∙◌, ◌⊎◌, inl, inr, ◌≢◌, [], ◌∷◌, ◌++◌, lookup, some, Bool,
  ite, if_pos, if_neg, Has, Has-append, Bool-cases, Option-cases, arith, lookup-insert, ℕ_discrete,
}
use gfgdextension.Names.{Name, name_dec}
use gfgdextension.MessageRouter.Handles.{IsValid, drop_handle-absent, Distinct-push}
use gfgdextension.MessageRouter.Unregistering.{bucket-unregister, unregister_absent}
use gfgdextension.MessageRouter.{
  MatchType, Listener, GameplayMessageRouter, is_empty, bucket, drop_handle, add_listener,
  register_listener, unregister_listener,
}

module _ {C : Type 0} (r : GameplayMessageRouter C) (c : Name) (f : C) (m : MatchType) where
  abbrev new_listener : Listener C
  new_listener = record { handle = r.next_handle; callback = f; match = m }

  bucket-add :
      (q : Name)
      → bucket (add_listener r c f m) q
        ≡ ite (name_dec q c) (bucket r c ++ new_listener ∷ []) (bucket r q)
  unfolding add_listener
  bucket-add q =
      rw (lookup-insert name_dec c q (bucket r c ++ new_listener ∷ []) r.listeners) (ground arith)

  lookup-add :
      (k : ℕ)
      → lookup ℕ_discrete k (add_listener r c f m).handle_channels
        ≡ ite (ℕ_discrete k r.next_handle) (some c) (lookup ℕ_discrete k r.handle_channels)
  unfolding add_listener
  lookup-add k = lookup-insert ℕ_discrete r.next_handle k c r.handle_channels

  next-add : (add_listener r c f m).next_handle ≡ r.next_handle + 1
  unfolding add_listener
  next-add = refl

  module _ (v : IsValid r) where
    handle_old : (b : Name) (l : Listener C) → Has l (bucket r b) → l.handle ≢ r.next_handle
    handle_old b l h = let k = v.fresh l.handle b (v.filed b l h) in omega (arith, k.1)

    bucket_cases :
        (b : Name) (l : Listener C)
        → Has l (bucket (add_listener r c f m) b)
        → Has l (bucket r b) ⊎ ((l ≡ new_listener) × (b ≡ c))
    bucket_cases b l h = elim (name_dec b c) [
      | yes same ↦
          elim ((Has-append l (bucket r c) (new_listener ∷ [])).0
            (rw (bucket-add b, if_pos (name_dec b c) same) at h)) [
              | inl g ↦ inl (rw same g)
              | inr (inl e) ↦ inr (e, same)
              | inr (inr e) ↦ absurd e
            ]
      | no other ↦ inl (rw (bucket-add b, if_neg (name_dec b c) other) at h)
    ]

    bucket_old :
        (b : Name) (l : Listener C) → Has l (bucket r b) → Has l (bucket (add_listener r c f m) b)
    bucket_old b l h = rw (bucket-add b) (elim (name_dec b c) [
      | yes same ↦
          rw (if_pos (name_dec b c) same)
            ((Has-append l (bucket r c) (new_listener ∷ [])).1 (inl (rw same at h)))
      | no other ↦ rw (if_neg (name_dec b c) other) h
    ])

    bucket_new : Has new_listener (bucket (add_listener r c f m) c)
    bucket_new =
        rw (bucket-add c, if_pos (name_dec c c) refl)
          ((Has-append new_listener (bucket r c) (new_listener ∷ [])).1 (inr (inl refl)))

    add_listener-IsValid : IsValid (add_listener r c f m)
    add_listener-IsValid = record {
      next_pos = rw next-add (omega arith);
      filed = λ b l h. lookup-add l.handle ∙ elim (bucket_cases b l h) [
        | inl g ↦ if_neg (ℕ_discrete l.handle r.next_handle) (handle_old b l g) _ _ ∙ v.filed b l g
        | inr (e, same) ↦
            if_pos (ℕ_discrete l.handle r.next_handle) (ap (λ x. x.handle) e) _ _
            ∙ ap some (sym same)
      ];
      fresh = λ k b e. rw next-add (elim (ℕ_discrete k r.next_handle) [
        | yes same ↦ let p = v.next_pos in (omega arith, omega arith)
        | no other ↦
            let g =
              v.fresh k b
                (sym (if_neg (ℕ_discrete k r.next_handle) other _ _) ∙ sym (lookup-add k) ∙ e) in
            (g.0, omega (arith, g.1))
      ]);
      listed = λ k b e. elim (ℕ_discrete k r.next_handle) [
        | yes same ↦
            let t : c ≡ b = ground (arith, lookup-add k, e, same) in
            (
              new_listener,
              subst (λ x. Has new_listener (bucket (add_listener r c f m) x)) t bucket_new,
              sym same,
            )
        | no other ↦
            let g =
              v.listed k b
                (sym (if_neg (ℕ_discrete k r.next_handle) other _ _) ∙ sym (lookup-add k) ∙ e) in
            (g.0, bucket_old b g.0 g.1, g.2)
      ];
      distinct = λ b. rw (bucket-add b) (elim (name_dec b c) [
        | yes same ↦
            rw (if_pos (name_dec b c) same)
              (Distinct-push (bucket r c) new_listener (v.distinct c) (λ k h. handle_old c k h))
        | no other ↦ rw (if_neg (name_dec b c) other) (v.distinct b)
      ]);
    }

    unregister-add :
        (q : Name)
        → bucket (unregister_listener (add_listener r c f m) r.next_handle) q ≡ bucket r q
    unregister-add q =
        bucket-unregister (add_listener r c f m) r.next_handle c q
          (lookup-add r.next_handle ∙ if_pos (ℕ_discrete r.next_handle r.next_handle) refl _ _)
        ∙ elim (name_dec q c) [
          | yes same ↦
              if_pos (name_dec q c) same _ _
              ∙ ap (drop_handle r.next_handle) (bucket-add c ∙ if_pos (name_dec c c) refl _ _)
              ∙ drop_handle-absent r.next_handle (bucket r c) new_listener (handle_old c) refl
              ∙ ap (bucket r) (sym same)
          | no other ↦
              if_neg (name_dec q c) other _ _ ∙ bucket-add q ∙ if_neg (name_dec q c) other _ _
        ]

-- No listener has the handle 0, so unregistering it does nothing.
unregister_zero :
    {C : Type 0} (r : GameplayMessageRouter C)
    → IsValid r
    → (q : Name) → bucket (unregister_listener r 0) q ≡ bucket r q
unregister_zero r v q = elim (Option-cases (lookup ℕ_discrete 0 r.handle_channels)) [
  | inl e ↦ rw (unregister_absent r 0 e)
  | inr (c, e) ↦ absurd (let t = v.fresh 0 c e in omega (arith, t.0))
]

module _ {C : Type 0} (valid : C → Bool) (r : GameplayMessageRouter C) (c : Name) (f : C)
    (m : MatchType) where
  -- Registering keeps the invariant, also when it is refused.
  pub register_listener-IsValid : IsValid r → IsValid (register_listener valid r c f m).0
  unfolding register_listener
  register_listener-IsValid v = elim (Bool-cases (is_empty c)) [
    | inl empty ↦ rw empty v
    | inr named ↦ rw named (elim (Bool-cases (valid f)) [
      | inl good ↦ rw good (add_listener-IsValid r c f m v)
      | inr bad ↦ rw bad v
    ])
  ]

  -- After a registration, accepted or refused, unregistering the handle that it returned gives every
  -- channel its old listeners back.
  pub unregister-register :
      (q : Name)
      → IsValid r
      → let (s, handle) = register_listener valid r c f m in
        bucket (unregister_listener s handle) q ≡ bucket r q
  unfolding register_listener
  unregister-register q v = elim (Bool-cases (is_empty c)) [
    | inl empty ↦ rw empty (unregister_zero r v q)
    | inr named ↦ rw named (elim (Bool-cases (valid f)) [
      | inl good ↦ rw good (unregister-add r c f m v q)
      | inr bad ↦ rw bad (unregister_zero r v q)
    ])
  ]
