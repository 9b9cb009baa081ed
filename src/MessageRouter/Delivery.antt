-- ===== src/MessageRouter/Delivery.antt =====
-- Whom `broadcast` calls, and what it prunes.
use mathlib.Core.List.{append-nil, append_assoc}
use gfgdextension.Common.{
  ◌≡◌, refl, sym, ap, ◌∙◌, ◌⊎◌, inl, inr, ◌↔◌, ◌≢◌, List, [], ◌∷◌, ◌++◌, map, foldl, Bool, true,
  false, if_pos, if_neg, Has, Has-append, arith,
}
use gfgdextension.Names.{Name, name_dec}
use gfgdextension.Names.Prefixes.{IsAncestor}
use gfgdextension.MessageRouter.Channels.{channel_ancestors_iff}
use gfgdextension.MessageRouter.Sweep.{
  heard, heard_all, bucket-visit, pending-visit, heard_in-keep, hears_of_heard_in,
  heard_in_of_hears,
}
use gfgdextension.MessageRouter.{
  match_partial, Listener, GameplayMessageRouter, channel_ancestors, bucket, is_channel,
  visit_bucket, collect, broadcast,
}

module _ {C : Type 0} (valid : C → Bool) where
  heard-visit :
      (c name q : Name) (r : GameplayMessageRouter C) (p : List C)
      → heard valid (visit_bucket valid c (r, p) name).0 c q ≡ heard valid r c q
  unfolding heard
  heard-visit c name q r p = rw (bucket-visit valid c name q r p) (elim (name_dec q name) [
    | yes same ↦ rw (if_pos _ same, same) (heard_in-keep valid _ _)
    | no other ↦ rw (if_neg _ other)
  ])

  heard_all-visit :
      (c name : Name) (r : GameplayMessageRouter C) (p : List C) (names : List Name)
      → heard_all valid (visit_bucket valid c (r, p) name).0 c names ≡ heard_all valid r c names
  unfolding heard_all
  heard_all-visit c name r p [] = refl
  heard_all-visit c name r p (q ∷ names) =
      rw (heard-visit c name q r p, heard_all-visit c name r p names)

  pending-collect :
      (c : Name) (r : GameplayMessageRouter C) (p : List C) (names : List Name)
      → (foldl (visit_bucket valid c) (r, p) names).1 ≡ p ++ heard_all valid r c names
  unfolding heard_all
  pending-collect c r p [] = sym (append-nil p)
  pending-collect c r p (name ∷ names) =
      let s = visit_bucket valid c (r, p) name in
      pending-collect c s.0 s.1 names
      ∙ rw (heard_all-visit c name r p names, pending-visit valid c name r p)
          (append_assoc p (heard valid r c name) (heard_all valid r c names))

  -- The calls of a broadcast, in order: ancestor by ancestor, from the shortest, and newest first.
  pub broadcast_calls :
      {P : Type 0} (r : GameplayMessageRouter C) (c : Name) (payload : P)
      → c ≢ []
      → (broadcast valid r c payload).1
        ≡ map (λ f. (f, c, payload)) (heard_all valid r c (channel_ancestors c))
  unfolding broadcast collect
  broadcast_calls r [] payload h = absurd (h refl)
  broadcast_calls r (x ∷ c) payload h =
      rw (pending-collect (x ∷ c) r [] (channel_ancestors (x ∷ c)))

  -- The listener `l` is registered on `b` and hears a message on `c`.
  abbrev pub Hears : GameplayMessageRouter C → Name → C → Type 0
  Hears r c f =
      (b : Name) × (l : Listener C) × Has l (bucket r b)
      × (valid l.callback ≡ true)
      × (l.callback ≡ f)
      × ((b ≡ c) ⊎ ((l.match ≡ match_partial) × IsAncestor b c))

  Has-heard_all :
      (r : GameplayMessageRouter C) (c : Name) (f : C) (names : List Name)
      → Has f (heard_all valid r c names) ↔ ((b : Name) × Has b names × Has f (heard valid r c b))
  unfolding heard_all
  Has-heard_all r c f [] = (λ h. absurd h, λ h. absurd h.1)
  Has-heard_all r c f (n ∷ names) =
      let ih = Has-heard_all r c f names in
      let split = Has-append f (heard valid r c n) (heard_all valid r c names) in
      (
        λ h. elim (split.0 h) [
          | inl g ↦ (n, inl refl, g)
          | inr g ↦ let s = ih.0 g in (s.0, inr s.1, s.2)
        ],
        λ h. elim h.1 [
          | inl e ↦ split.1 (inl (rw e at h.2))
          | inr g ↦ split.1 (inr (ih.1 (h.0, g, h.2)))
        ],
      )

  channel_of_exact : (b c : Name) → is_channel b c ≡ true → b ≡ c
  channel_of_exact b c h = ground arith

  Hears-of_heard :
      (r : GameplayMessageRouter C) (c : Name) (f : C)
      → Has f (heard_all valid r c (channel_ancestors c))
      → Hears r c f
  unfolding heard
  Hears-of_heard r c f h =
      let s = (Has-heard_all r c f (channel_ancestors c)).0 h in
      let l = hears_of_heard_in valid (is_channel s.0 c) f (bucket r s.0) s.2 in
      (
        s.0,
        l.0,
        l.1,
        l.2,
        l.3,
        elim l.4 [
          | inl x ↦ inl (channel_of_exact s.0 c x)
          | inr m ↦ elim ((channel_ancestors_iff c s.0).0 s.1) [
            | inl same ↦ inl same
            | inr a ↦ inr (m, a)
          ]
        ],
      )

  heard_of_Hears :
      (r : GameplayMessageRouter C) (c : Name) (f : C)
      → Hears r c f
      → Has f (heard_all valid r c (channel_ancestors c))
  unfolding heard
  heard_of_Hears r c f (b, l, h, live, e, m) =
      let listed : (b ≡ c) ⊎ IsAncestor b c = elim m [ inl same ↦ inl same | inr g ↦ inr g.1 ] in
      let exact : (is_channel b c ≡ true) ⊎ (l.match ≡ match_partial) = elim m [
        | inl same ↦ inl (if_pos (name_dec b c) same true false)
        | inr g ↦ inr g.0
      ] in
      (Has-heard_all r c f (channel_ancestors c)).1 (
        b,
        (channel_ancestors_iff c b).1 listed,
        heard_in_of_hears valid (is_channel b c) f (bucket r b) l h live e exact,
      )

  Has-map_call :
      {P : Type 0} (c : Name) (payload : P) (f : C) (fs : List C)
      → Has {A = C × Name × P} (f, c, payload) (map (λ g. (g, c, payload)) fs) ↔ Has f fs
  Has-map_call c payload f [] = (λ h. h, λ h. h)
  Has-map_call c payload f (g ∷ fs) =
      let ih = Has-map_call c payload f fs in
      (
        λ h. elim h [ inl e ↦ inl (ap (λ t. t.0) e) | inr k ↦ inr (ih.0 k) ],
        λ h. elim h [ inl e ↦ inl (ap (λ x. (x, c, payload)) e) | inr k ↦ inr (ih.1 k) ],
      )

  -- A broadcast on a channel with a name calls a callable exactly when it is valid and was registered
  -- on that channel, or with `match_partial` on one of the channel's proper ancestors.
  pub broadcast_iff :
      {P : Type 0} (r : GameplayMessageRouter C) (c : Name) (payload : P) (f : C)
      → c ≢ []
      → Has {A = C × Name × P} (f, c, payload) (broadcast valid r c payload).1 ↔ Hears r c f
  broadcast_iff r c payload f named =
      let calls = Has-map_call c payload f (heard_all valid r c (channel_ancestors c)) in
      let e = broadcast_calls r c payload named in
      (
        λ h. Hears-of_heard r c f (calls.0 (rw e at h)),
        λ h. rw e (calls.1 (heard_of_Hears r c f h)),
      )
