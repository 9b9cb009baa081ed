-- ===== src/MessageRouter/Dropping.antt =====
-- `broadcast` keeps the invariant: the listeners that it drops lose their handles too.
use gfgdextension.Common.{
  ℕ, ◌≡◌, refl, sym, ap, ◌∙◌, inl, inr, ◌↔◌, ◌≢◌, List, [], ◌∷◌, lookup, foldl, none, some, Bool,
  true, false, ite, if_pos, if_neg, Has, keep, Has-keep, Bool-cases, Option-cases, arith,
  lookup-erase, ℕ_discrete,
}
use gfgdextension.Names.{Name, name_dec}
use gfgdextension.MessageRouter.Sweep.{is_live, bucket-visit}
use gfgdextension.MessageRouter.Handles.{IsValid, Distinct}
use gfgdextension.MessageRouter.{
  Listener, GameplayMessageRouter, bucket, sweep, is_channel, visit_bucket, collect, broadcast,
  channel_ancestors,
}

module _ {C : Type 0} (valid : C → Bool) where
  -- A handle that no dead listener of the vector has stays.
  lookup-sweep_live :
      (x : Bool) (ls : List (Listener C)) (hs : List (ℕ × Name)) (k : ℕ)
      → ((l : Listener C) → Has l ls → is_live valid l ≡ false → l.handle ≢ k)
      → lookup ℕ_discrete k (sweep valid x ls hs).1 ≡ lookup ℕ_discrete k hs
  unfolding sweep
  lookup-sweep_live x [] hs k alive = refl
  lookup-sweep_live x (l ∷ ls) hs k alive =
      let ih = lookup-sweep_live x ls hs k (λ j h. alive j (inr h)) in
      elim (Bool-cases (valid l.callback)) [
        | inl live ↦ rw live ih
        | inr dead ↦
            let other : k ≢ l.handle = λ e. alive l (inl refl) dead (sym e) in
            rw
              (
                dead,
                lookup-erase ℕ_discrete l.handle k (sweep valid x ls hs).1,
                if_neg (ℕ_discrete k l.handle) other,
              )
              ih
      ]

  -- A handle that is left was there, and no dead listener of the vector has it.
  lookup-sweep-some :
      (x : Bool) (ls : List (Listener C)) (hs : List (ℕ × Name)) (k : ℕ) (b : Name)
      → lookup ℕ_discrete k (sweep valid x ls hs).1 ≡ some b
      → (lookup ℕ_discrete k hs ≡ some b)
        × ((l : Listener C) → Has l ls → is_live valid l ≡ false → l.handle ≢ k)
  unfolding sweep
  lookup-sweep-some x [] hs k b e = (e, λ l h. absurd h)
  lookup-sweep-some x (l ∷ ls) hs k b e = elim (Bool-cases (valid l.callback)) [
    | inl live ↦
        let s = lookup-sweep-some x ls hs k b (rw live at e) in
        (s.0, λ j h. elim h [ inl same ↦ λ dead. absurd (ground (arith, same)) | inr g ↦ s.1 j g ])
    | inr dead ↦
        let g : ite (ℕ_discrete k l.handle) none (lookup ℕ_discrete k (sweep valid x ls hs).1)
            ≡ some b =
          sym (lookup-erase ℕ_discrete l.handle k (sweep valid x ls hs).1) ∙ (rw dead at e) in
        let other : k ≢ l.handle = ground (arith, g) in
        let s =
          lookup-sweep-some x ls hs k b (sym (if_neg (ℕ_discrete k l.handle) other _ _) ∙ g) in
        (
          s.0,
          λ j h. elim h [
            | inl same ↦ λ _ t. other (sym t ∙ ap (λ x. x.handle) same)
            | inr m ↦ s.1 j m
          ],
        )
  ]

  keep-Distinct :
      (p : Listener C → Bool) (ls : List (Listener C)) → Distinct ls → Distinct (keep p ls)
  keep-Distinct p [] d = tt
  keep-Distinct p (l ∷ ls) d = elim (Bool-cases (p l)) [
    | inl e ↦ rw e (λ k h. d.0 k ((Has-keep p k ls).0 h).0, keep-Distinct p ls d.1)
    | inr e ↦ rw e (keep-Distinct p ls d.1)
  ]

  Distinct-eq :
      (ls : List (Listener C)) (j k : Listener C)
      → Distinct ls
      → Has j ls
      → Has k ls
      → j.handle ≡ k.handle
      → j ≡ k
  Distinct-eq [] j k d h g e = absurd h
  Distinct-eq (l ∷ ls) j k d (inl h) (inl g) e = h ∙ sym g
  Distinct-eq (l ∷ ls) j k d (inl h) (inr g) e = absurd (d.0 k g (sym e ∙ ap (λ x. x.handle) h))
  Distinct-eq (l ∷ ls) j k d (inr h) (inl g) e = absurd (d.0 j h (e ∙ ap (λ x. x.handle) g))
  Distinct-eq (l ∷ ls) j k d (inr h) (inr g) e = Distinct-eq ls j k d.1 h g e

  module _ (c n : Name) (r : GameplayMessageRouter C) (p : List C) where
    abbrev after : GameplayMessageRouter C
    after = (visit_bucket valid c (r, p) n).0

    handles-visit :
        (visit_bucket valid c (r, p) n).0.handle_channels
        ≡ (sweep valid (is_channel n c) (bucket r n) r.handle_channels).1
    unfolding visit_bucket sweep
    handles-visit = elim (Option-cases (lookup name_dec n r.listeners)) [
      | inl e ↦ rw (e, visit_bucket)
      | inr (ls, e) ↦ rw (e, visit_bucket)
    ]

    next-visit : after.next_handle ≡ r.next_handle
    unfolding visit_bucket
    next-visit = ground arith

    -- A listener is in a vector after the round if it was there and the round did not drop it.
    Has-visit :
        (b : Name) (l : Listener C)
        → Has l (bucket after b) ↔ (Has l (bucket r b) × ((b ≡ n) → is_live valid l ≡ true))
    Has-visit b l = elim (name_dec b n) [
      | yes same ↦
          let e = bucket-visit valid c n b r p ∙ if_pos (name_dec b n) same _ _ in
          let k = Has-keep (is_live valid) l (bucket r n) in
          (
            λ h. let g = k.0 (rw e at h) in (rw same g.0, λ _. g.1),
            λ g. rw e (k.1 (rw same at g.0, g.1 same)),
          )
      | no other ↦
          let e = bucket-visit valid c n b r p ∙ if_neg (name_dec b n) other _ _ in
          (λ h. (rw e at h, λ t. absurd (other t)), λ g. rw e g.0)
    ]

    module _ (v : IsValid r) where
      visited :
          (k : ℕ) (b : Name)
          → lookup ℕ_discrete k after.handle_channels ≡ some b
          → (lookup ℕ_discrete k r.handle_channels ≡ some b)
            × ((l : Listener C) → Has l (bucket r n) → is_live valid l ≡ false → l.handle ≢ k)
      visited k b e =
          lookup-sweep-some (is_channel n c) (bucket r n) r.handle_channels k b
            (rw handles-visit at e)

      visit-filed :
          (b : Name) (l : Listener C)
          → Has l (bucket after b)
          → lookup ℕ_discrete l.handle after.handle_channels ≡ some b
      visit-filed b l h =
          let g = (Has-visit b l).0 h in
          rw handles-visit (
            lookup-sweep_live (is_channel n c) (bucket r n) r.handle_channels l.handle
              (λ j m dead e.
                let same : b ≡ n = ground (arith, v.filed b l g.0, v.filed n j m, e) in
                let t = Distinct-eq (bucket r n) j l (v.distinct n) m (rw same at g.0) e in
                ground (arith, g.1 same, dead, t))
            ∙ v.filed b l g.0)

      visit-listed :
          (k : ℕ) (b : Name)
          → lookup ℕ_discrete k after.handle_channels ≡ some b
          → (l : Listener C) × Has l (bucket after b) × (l.handle ≡ k)
      visit-listed k b e =
          let s = visited k b e in
          let l = v.listed k b s.0 in
          (
            l.0,
            (Has-visit b l.0).1 (
              l.1,
              λ same. elim (Bool-cases (is_live valid l.0)) [
                | inl live ↦ live
                | inr dead ↦ absurd (s.1 l.0 (rw same at l.1) dead l.2)
              ],
            ),
            l.2,
          )

      visit-IsValid : IsValid after
      visit-IsValid = record {
        next_pos = rw next-visit v.next_pos;
        filed = visit-filed;
        fresh = λ k b e. rw next-visit (v.fresh k b (visited k b e).0);
        listed = visit-listed;
        distinct = λ b. rw (bucket-visit valid c n b r p) (elim (name_dec b n) [
          | yes same ↦
              rw (if_pos (name_dec b n) same) (keep-Distinct (is_live valid) _ (v.distinct n))
          | no other ↦ rw (if_neg (name_dec b n) other) (v.distinct b)
        ]);
      }

  collect-IsValid :
      (c : Name) (r : GameplayMessageRouter C) (p : List C) (names : List Name)
      → IsValid r
      → IsValid (foldl (visit_bucket valid c) (r, p) names).0
  collect-IsValid c r p [] v = v
  collect-IsValid c r p (n ∷ names) v =
      let s = visit_bucket valid c (r, p) n in
      collect-IsValid c s.0 s.1 names (visit-IsValid c n r p v)

  -- A broadcast keeps the invariant.
  pub broadcast-IsValid :
      {P : Type 0} (r : GameplayMessageRouter C) (c : Name) (payload : P)
      → IsValid r
      → IsValid (broadcast valid r c payload).0
  unfolding broadcast collect
  broadcast-IsValid r [] payload v = v
  broadcast-IsValid r (x ∷ c) payload v = collect-IsValid (x ∷ c) r [] (channel_ancestors (x ∷ c)) v
