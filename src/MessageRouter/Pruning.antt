-- ===== src/MessageRouter/Pruning.antt =====
-- `has_listeners` against `broadcast`, and the listeners that `broadcast` drops.
use gfgdextension.Common.{
  ◌≡◌, refl, ◌∙◌, ◌⊎◌, inl, inr, ◌≢◌, List, [], ◌∷◌, ◌++◌, map, foldl, lookup, Bool, not, ◌&&◌,
  if_pos, if_neg, Has, keep, Option-cases, arith,
}
use gfgdextension.Names.{Name, name_dec}
use gfgdextension.Names.Prefixes.{IsAncestor}
use gfgdextension.MessageRouter.Channels.{channel_ancestors_iff}
use gfgdextension.MessageRouter.Sweep.{is_live, heard_in, heard, heard_all, bucket-visit}
use gfgdextension.MessageRouter.Delivery.{broadcast_calls}
use gfgdextension.MessageRouter.{
  Listener, GameplayMessageRouter, channel_ancestors, is_empty, bucket, is_channel, visit_bucket,
  collect, broadcast, any_hears, any_bucket_hears, has_listeners,
}

is_empty-append {ℓ} :
    {A : Type ℓ} (xs ys : List A) → is_empty (xs ++ ys) ≡ (is_empty xs && is_empty ys)
is_empty-append [] ys = refl
is_empty-append (x ∷ xs) ys = refl

is_empty-map {ℓ κ} :
    {A : Type ℓ} {B : Type κ} (f : A → B) (xs : List A) → is_empty (map f xs) ≡ is_empty xs
is_empty-map f [] = refl
is_empty-map f (x ∷ xs) = refl

module _ {C : Type 0} (valid : C → Bool) where
  any_hears-is_empty :
      (x : Bool) (ls : List (Listener C))
      → any_hears valid x ls ≡ not (is_empty (heard_in valid x ls))
  unfolding any_hears heard_in
  any_hears-is_empty x [] = refl
  any_hears-is_empty x (l ∷ ls) =
      ground
        (arith, any_hears-is_empty x ls, is_empty-append (heard_in valid x ls) (l.callback ∷ []))

  any_bucket_hears-is_empty :
      (r : GameplayMessageRouter C) (c : Name) (names : List Name)
      → any_bucket_hears valid r c names ≡ not (is_empty (heard_all valid r c names))
  unfolding any_bucket_hears heard_all heard
  any_bucket_hears-is_empty r c [] = refl
  any_bucket_hears-is_empty r c (n ∷ names) =
      let ih = any_bucket_hears-is_empty r c names in
      rw (is_empty-append (heard valid r c n) (heard_all valid r c names))
        (elim (Option-cases (lookup name_dec n r.listeners)) [
          | inl e ↦ rw (e, any_bucket_hears, ih)
          | inr (ls, e) ↦
              rw (e, any_bucket_hears) (ground (arith, any_hears-is_empty (is_channel n c) ls, ih))
        ])

  -- `has_listeners` answers whether a broadcast on the channel would call anybody.
  pub has_listeners_iff :
      {P : Type 0} (r : GameplayMessageRouter C) (c : Name) (payload : P)
      → c ≢ []
      → has_listeners valid r c ≡ not (is_empty (broadcast valid r c payload).1)
  unfolding has_listeners
  has_listeners_iff {P} r c payload named = rw (
    broadcast_calls valid r c payload named,
    any_bucket_hears-is_empty r c (channel_ancestors c),
    is_empty-map {B = C × Name × P} (λ f. (f, c, payload))
        (heard_all valid r c (channel_ancestors c)),
  )

  keep-keep :
      (ls : List (Listener C))
      → keep (is_live valid) (keep (is_live valid) ls) ≡ keep (is_live valid) ls
  keep-keep [] = refl
  keep-keep (l ∷ ls) = ground (arith, keep-keep ls)

  bucket-collect_other :
      (c q : Name) (r : GameplayMessageRouter C) (p : List C) (names : List Name)
      → ¬ Has q names
      → bucket (foldl (visit_bucket valid c) (r, p) names).0 q ≡ bucket r q
  bucket-collect_other c q r p [] h = refl
  bucket-collect_other c q r p (n ∷ names) h =
      let s = visit_bucket valid c (r, p) n in
      bucket-collect_other c q s.0 s.1 names (λ g. h (inr g))
      ∙ rw (bucket-visit valid c n q r p, if_neg (name_dec q n) (λ e. h (inl e)))

  -- Once a vector holds live listeners only, later rounds leave it.
  bucket-collect_live :
      (c q : Name) (ls : List (Listener C)) (r : GameplayMessageRouter C) (p : List C)
      (names : List Name)
      → bucket r q ≡ keep (is_live valid) ls
      → bucket (foldl (visit_bucket valid c) (r, p) names).0 q ≡ keep (is_live valid) ls
  bucket-collect_live c q ls r p [] h = h
  bucket-collect_live c q ls r p (n ∷ names) h =
      let s = visit_bucket valid c (r, p) n in
      bucket-collect_live c q ls s.0 s.1 names (
        rw (bucket-visit valid c n q r p) (elim (name_dec q n) [
          | yes same ↦ rw (if_pos _ same, ← same, h) (keep-keep ls)
          | no other ↦ rw (if_neg _ other) h
        ]))

  bucket-collect_pruned :
      (c q : Name) (r : GameplayMessageRouter C) (p : List C) (names : List Name)
      → Has q names
      → bucket (foldl (visit_bucket valid c) (r, p) names).0 q ≡ keep (is_live valid) (bucket r q)
  bucket-collect_pruned c q r p [] h = absurd h
  bucket-collect_pruned c q r p (n ∷ names) (inl same) =
      let s = visit_bucket valid c (r, p) n in
      bucket-collect_live c q (bucket r q) s.0 s.1 names
        (rw (bucket-visit valid c n q r p, if_pos _ same, same))
  bucket-collect_pruned c q r p (n ∷ names) (inr h) =
      let s = visit_bucket valid c (r, p) n in
      bucket-collect_pruned c q s.0 s.1 names h
      ∙ rw (bucket-visit valid c n q r p) (elim (name_dec q n) [
        | yes same ↦ rw (if_pos _ same, ← same) (keep-keep (bucket r q))
        | no other ↦ rw (if_neg _ other)
      ])

  -- A broadcast drops the dead listeners of the channel and of its ancestors, and nobody else there.
  pub broadcast_prunes :
      {P : Type 0} (r : GameplayMessageRouter C) (c q : Name) (payload : P)
      → c ≢ []
      → (q ≡ c) ⊎ IsAncestor q c
      → bucket (broadcast valid r c payload).0 q ≡ keep (is_live valid) (bucket r q)
  unfolding broadcast collect
  broadcast_prunes r [] q payload named h = absurd (named refl)
  broadcast_prunes r (x ∷ c) q payload named h =
      bucket-collect_pruned (x ∷ c) q r [] (channel_ancestors (x ∷ c))
        ((channel_ancestors_iff (x ∷ c) q).1 h)

  -- It leaves every other channel's listeners alone.
  pub broadcast_keeps :
      {P : Type 0} (r : GameplayMessageRouter C) (c q : Name) (payload : P)
      → ¬ ((q ≡ c) ⊎ IsAncestor q c)
      → bucket (broadcast valid r c payload).0 q ≡ bucket r q
  unfolding broadcast collect
  broadcast_keeps r [] q payload h = refl
  broadcast_keeps r (x ∷ c) q payload h =
      bucket-collect_other (x ∷ c) q r [] (channel_ancestors (x ∷ c))
        (λ g. h ((channel_ancestors_iff (x ∷ c) q).0 g))
