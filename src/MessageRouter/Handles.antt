-- ===== src/MessageRouter/Handles.antt =====
-- The handles: each one filed under the channel whose vector holds its listener.
use gfgdextension.Common.{
  ℕ, ◌<◌, ◌≡◌, refl, sym, ap, ◌∙◌, inl, inr, ◌≢◌, List, [], ◌∷◌, ◌++◌, lookup, some, if_pos, if_neg,
  Has, Has-append, arith, ℕ_discrete,
}
use gfgdextension.Names.{Name}
use gfgdextension.MessageRouter.{Listener, GameplayMessageRouter, new_router, bucket, drop_handle}

module _ {C : Type 0} where
  -- No two listeners of a vector have one handle.
  abbrev pub Distinct : List (Listener C) → Type 0
  Distinct [] = Unit {0}
  Distinct (l ∷ ls) = ((k : Listener C) → Has k ls → k.handle ≢ l.handle) × Distinct ls

  pub record IsValid (r : GameplayMessageRouter C) : Type 0 where
    pub next_pos : 0 < r.next_handle
    pub filed :
        (b : Name) (l : Listener C)
        → Has l (bucket r b)
        → lookup ℕ_discrete l.handle r.handle_channels ≡ some b
    pub fresh :
        (h : ℕ) (b : Name)
        → lookup ℕ_discrete h r.handle_channels ≡ some b
        → (0 < h) × (h < r.next_handle)
    pub listed :
        (h : ℕ) (b : Name)
        → lookup ℕ_discrete h r.handle_channels ≡ some b
        → (l : Listener C) × Has l (bucket r b) × (l.handle ≡ h)
    pub distinct : (b : Name) → Distinct (bucket r b)

  pub new_router-IsValid : IsValid new_router
  unfolding new_router lookup
  new_router-IsValid = record {
    next_pos = omega arith;
    filed = λ b l h. absurd h;
    fresh = λ h b e. absurd (ground arith);
    listed = λ h b e. absurd (ground arith);
    distinct = λ b. tt;
  }

  pub Has-drop_handle :
      (h : ℕ) (k : Listener C) (ls : List (Listener C))
      → Distinct ls
      → Has k (drop_handle h ls)
      → Has k ls × (k.handle ≢ h)
  unfolding drop_handle
  Has-drop_handle h k [] d m = absurd m
  Has-drop_handle h k (l ∷ ls) d m = elim (ℕ_discrete l.handle h) [
    | yes same ↦
        let g : Has k ls = rw (if_pos (ℕ_discrete l.handle h) same) at m in
        (inr g, λ e. d.0 k g (e ∙ sym same))
    | no other ↦ elim (rw (if_neg (ℕ_discrete l.handle h) other) at m) [
      | inl e ↦ (inl e, λ g. other (ap (λ x. x.handle) (sym e) ∙ g))
      | inr g ↦ let r = Has-drop_handle h k ls d.1 g in (inr r.0, r.1)
    ]
  ]

  pub drop_handle-Has :
      (h : ℕ) (k : Listener C) (ls : List (Listener C))
      → Has k ls
      → k.handle ≢ h
      → Has k (drop_handle h ls)
  unfolding drop_handle
  drop_handle-Has h k [] m ne = absurd m
  drop_handle-Has h k (l ∷ ls) m ne = elim (ℕ_discrete l.handle h) [
    | yes same ↦
        rw (if_pos (ℕ_discrete l.handle h) same)
          (elim m [ inl e ↦ absurd (ne (ap (λ x. x.handle) e ∙ same)) | inr g ↦ g ])
    | no other ↦
        rw (if_neg (ℕ_discrete l.handle h) other)
          (elim m [ inl e ↦ inl e | inr g ↦ inr (drop_handle-Has h k ls g ne) ])
  ]

  pub drop_handle-Distinct :
      (h : ℕ) (ls : List (Listener C)) → Distinct ls → Distinct (drop_handle h ls)
  unfolding drop_handle
  drop_handle-Distinct h [] d = tt
  drop_handle-Distinct h (l ∷ ls) d = elim (ℕ_discrete l.handle h) [
    | yes same ↦ rw (if_pos (ℕ_discrete l.handle h) same) d.1
    | no other ↦
        rw (if_neg (ℕ_discrete l.handle h) other)
          (λ k m. d.0 k (Has-drop_handle h k ls d.1 m).0, drop_handle-Distinct h ls d.1)
  ]

  pub drop_handle-absent :
      (h : ℕ) (ls : List (Listener C)) (n : Listener C)
      → ((k : Listener C) → Has k ls → k.handle ≢ h)
      → n.handle ≡ h
      → drop_handle h (ls ++ n ∷ []) ≡ ls
  unfolding drop_handle
  drop_handle-absent h [] n d e = if_pos (ℕ_discrete n.handle h) e [] _
  drop_handle-absent h (l ∷ ls) n d e = rw (
    if_neg (ℕ_discrete l.handle h) (d l (inl refl)),
    drop_handle-absent h ls n (λ k m. d k (inr m)) e,
  )

  pub Distinct-push :
      (ls : List (Listener C)) (n : Listener C)
      → Distinct ls
      → ((k : Listener C) → Has k ls → k.handle ≢ n.handle)
      → Distinct (ls ++ n ∷ [])
  Distinct-push [] n d new = (λ k m. absurd m, tt)
  Distinct-push (l ∷ ls) n d new = (
    λ k m. elim ((Has-append k ls (n ∷ [])).0 m) [
      | inl g ↦ d.0 k g
      | inr (inl e) ↦ λ same. new l (inl refl) (sym same ∙ ap (λ x. x.handle) e)
      | inr (inr e) ↦ absurd e
    ],
    Distinct-push ls n d.1 (λ k m. new k (inr m)),
  )
