-- ===== src/MessageRouter/Unregistering.antt =====
-- `unregister_listener` keeps the invariant, and undoes a registration once.
use gfgdextension.Common.{
  ℕ, ◌≡◌, refl, sym, ◌∙◌, inl, inr, ◌≢◌, lookup, none, some, ite, if_pos, if_neg, Has, Option-cases,
  arith, lookup-erase, ℕ_discrete,
}
use gfgdextension.Names.{Name, name_dec}
use gfgdextension.MessageRouter.Sweep.{bucket-store}
use gfgdextension.MessageRouter.Handles.{
  IsValid, Has-drop_handle, drop_handle-Has, drop_handle-Distinct,
}
use gfgdextension.MessageRouter.{
  Listener, GameplayMessageRouter, bucket, drop_handle, unregister_listener,
}

module _ {C : Type 0} where
  pub bucket-unregister :
      (r : GameplayMessageRouter C) (h : ℕ) (c q : Name)
      → lookup ℕ_discrete h r.handle_channels ≡ some c
      → bucket (unregister_listener r h) q
        ≡ ite (name_dec q c) (drop_handle h (bucket r c)) (bucket r q)
  unfolding unregister_listener drop_handle
  bucket-unregister r h c q e = elim (Option-cases (lookup name_dec c r.listeners)) [
    | inl f ↦ rw (e, unregister_listener, f) (ground arith)
    | inr (ls, f) ↦ rw (e, unregister_listener, f) (bucket-store c q (drop_handle h ls) r.listeners)
  ]

  lookup-unregister :
      (r : GameplayMessageRouter C) (h k : ℕ) (c : Name)
      → lookup ℕ_discrete h r.handle_channels ≡ some c
      → lookup ℕ_discrete k (unregister_listener r h).handle_channels
        ≡ ite (ℕ_discrete k h) none (lookup ℕ_discrete k r.handle_channels)
  unfolding unregister_listener
  lookup-unregister r h k c e = elim (Option-cases (lookup name_dec c r.listeners)) [
    | inl f ↦ rw (e, unregister_listener, f) (lookup-erase ℕ_discrete h k r.handle_channels)
    | inr (ls, f) ↦ rw (e, unregister_listener, f) (lookup-erase ℕ_discrete h k r.handle_channels)
  ]

  next-unregister :
      (r : GameplayMessageRouter C) (h : ℕ) → (unregister_listener r h).next_handle ≡ r.next_handle
  unfolding unregister_listener
  next-unregister r h = ground arith

  unregister_present :
      (r : GameplayMessageRouter C) (h : ℕ) (c : Name)
      → lookup ℕ_discrete h r.handle_channels ≡ some c
      → IsValid r
      → IsValid (unregister_listener r h)
  unregister_present r h c e v = record {
    next_pos = rw (next-unregister r h) v.next_pos;
    filed = λ b l m.
        let other : l.handle ≢ h = kept b l m in
        lookup-unregister r h l.handle c e
        ∙ if_neg (ℕ_discrete l.handle h) other _ _
        ∙ v.filed b l (before b l m);
    fresh = λ k b f. rw (next-unregister r h) (v.fresh k b (was k b f));
    listed =
        λ k b f. let l = v.listed k b (was k b f) in (l.0, after k b l.0 (rest k b f) l.1 l.2, l.2);
    distinct = λ b. rw (bucket-unregister r h c b e) (elim (name_dec b c) [
      | yes same ↦ rw (if_pos (name_dec b c) same) (drop_handle-Distinct h _ (v.distinct c))
      | no other ↦ rw (if_neg (name_dec b c) other) (v.distinct b)
    ]);
  }
    where
      split :
          (b : Name) (l : Listener C)
          → Has l (bucket (unregister_listener r h) b)
          → Has l (bucket r b) × (l.handle ≢ h)
      split b l m = elim (name_dec b c) [
        | yes same ↦
            let g : Has l (drop_handle h (bucket r c)) =
              rw (bucket-unregister r h c b e, if_pos (name_dec b c) same) at m in
            let s = Has-drop_handle h l (bucket r c) (v.distinct c) g in (rw same s.0, s.1)
        | no other ↦
            let g : Has l (bucket r b) =
              rw (bucket-unregister r h c b e, if_neg (name_dec b c) other) at m in
            (g, λ f. other (ground (arith, v.filed b l g, e, f)))
      ]

      before :
          (b : Name) (l : Listener C)
          → Has l (bucket (unregister_listener r h) b)
          → Has l (bucket r b)
      before b l m = (split b l m).0

      kept : (b : Name) (l : Listener C) → Has l (bucket (unregister_listener r h) b) → l.handle ≢ h
      kept b l m = (split b l m).1

      rest :
          (k : ℕ) (b : Name)
          → lookup ℕ_discrete k (unregister_listener r h).handle_channels ≡ some b
          → k ≢ h
      rest k b f = λ g. ground (arith, lookup-unregister r h k c e, f, g)

      was :
          (k : ℕ) (b : Name)
          → lookup ℕ_discrete k (unregister_listener r h).handle_channels ≡ some b
          → lookup ℕ_discrete k r.handle_channels ≡ some b
      was k b f = ground (arith, lookup-unregister r h k c e, f)

      after :
          (k : ℕ) (b : Name) (l : Listener C)
          → k ≢ h
          → Has l (bucket r b)
          → l.handle ≡ k
          → Has l (bucket (unregister_listener r h) b)
      after k b l ne m g = rw (bucket-unregister r h c b e) (elim (name_dec b c) [
        | yes same ↦
            rw (if_pos (name_dec b c) same)
              (drop_handle-Has h l (bucket r c) (rw same at m) (λ f. ne (sym g ∙ f)))
        | no other ↦ rw (if_neg (name_dec b c) other) m
      ])

  pub unregister_absent :
      (r : GameplayMessageRouter C) (h : ℕ)
      → lookup ℕ_discrete h r.handle_channels ≡ none
      → unregister_listener r h ≡ r
  unfolding unregister_listener
  unregister_absent r h e = rw (e, unregister_listener)

  -- Unregistering keeps the invariant, whatever the handle.
  pub unregister_listener-IsValid :
      (r : GameplayMessageRouter C) (h : ℕ) → IsValid r → IsValid (unregister_listener r h)
  unfolding unregister_listener
  unregister_listener-IsValid r h v = elim (Option-cases (lookup ℕ_discrete h r.handle_channels)) [
    | inl e ↦ rw (e, unregister_listener) v
    | inr (c, e) ↦ unregister_present r h c e v
  ]

  -- A second call with the same handle does nothing.
  pub unregister_twice :
      (r : GameplayMessageRouter C) (h : ℕ)
      → unregister_listener (unregister_listener r h) h ≡ unregister_listener r h
  unregister_twice r h = elim (Option-cases (lookup ℕ_discrete h r.handle_channels)) [
    | inl e ↦ rw (unregister_absent r h e, unregister_absent r h e)
    | inr (c, e) ↦
        unregister_absent (unregister_listener r h) h
          (lookup-unregister r h h c e ∙ if_pos (ℕ_discrete h h) refl _ _)
  ]
