-- ===== src/MessageRouter/Sweep.antt =====
-- One vector of listeners, and one round of the loop of `broadcast`.
use mathlib.Core.List.{append-nil}
use mathlib.Core.Option.{get_or}
use gfgdextension.Common.{
  ℕ, ◌≡◌, refl, sym, ◌∙◌, ◌⊎◌, inl, inr, List, [], ◌∷◌, ◌++◌, lookup, Bool, true, ◌&&◌, ◌||◌,
  if◌then◌else◌, ite, Has, Has-append, keep, Bool-cases, Option-cases, arith, lookup-insert,
  lookup-erase,
}
use gfgdextension.Names.{Name, name_dec}
use gfgdextension.MessageRouter.{
  match_partial, Listener, GameplayMessageRouter, is_partial, bucket, store, sweep, is_channel,
  visit_bucket,
}

module _ {C : Type 0} where
  pub bucket-store :
      (name q : Name) (kept : List (Listener C)) (m : List (Name × List (Listener C)))
      → get_or (lookup name_dec q (store name kept m)) []
        ≡ ite (name_dec q name) kept (get_or (lookup name_dec q m) [])
  unfolding store
  bucket-store name q [] m = rw (lookup-erase name_dec name q m) (ground arith)
  bucket-store name q (l ∷ ls) m = rw (lookup-insert name_dec name q (l ∷ ls) m) (ground arith)

module _ {C : Type 0} (valid : C → Bool) where
  abbrev pub is_live : Listener C → Bool
  is_live l = valid l.callback

  -- The callables of a vector that a message reaches, from its end.
  unfoldable pub heard_in : Bool → List (Listener C) → List C
  heard_in is_exact [] = []
  heard_in is_exact (l ∷ ls) =
      let rest = heard_in is_exact ls in
      if is_live l && (is_exact || is_partial l.match) then rest ++ l.callback ∷ [] else rest

  pub sweep-kept :
      (x : Bool) (ls : List (Listener C)) (hs : List (ℕ × Name))
      → (sweep valid x ls hs).0 ≡ keep is_live ls
  unfolding sweep
  sweep-kept x [] hs = refl
  sweep-kept x (l ∷ ls) hs = ground (arith, sweep-kept x ls hs)

  pub sweep-heard :
      (x : Bool) (ls : List (Listener C)) (hs : List (ℕ × Name))
      → (sweep valid x ls hs).2 ≡ heard_in x ls
  unfolding sweep heard_in
  sweep-heard x [] hs = refl
  sweep-heard x (l ∷ ls) hs = ground (arith, sweep-heard x ls hs)

  pub heard_in-keep :
      (x : Bool) (ls : List (Listener C)) → heard_in x (keep is_live ls) ≡ heard_in x ls
  unfolding heard_in
  heard_in-keep x [] = refl
  heard_in-keep x (l ∷ ls) = ground (arith, heard_in-keep x ls)

  -- A listener of the list that hears, and whose callable is `c`.
  abbrev pub HearsIn : Bool → C → List (Listener C) → Type 0
  HearsIn x c ls =
      (l : Listener C) × Has l ls
      × (is_live l ≡ true)
      × (l.callback ≡ c)
      × ((x ≡ true) ⊎ (l.match ≡ match_partial))

  pub hears_of_heard_in :
      (x : Bool) (c : C) (ls : List (Listener C)) → Has c (heard_in x ls) → HearsIn x c ls
  unfolding heard_in
  hears_of_heard_in x c [] h = absurd h
  hears_of_heard_in x c (l ∷ ls) h =
      let later = λ (g : Has c (heard_in x ls)).
        let r = hears_of_heard_in x c ls g in
        let t : HearsIn x c (l ∷ ls) = (r.0, inr r.1, r.2, r.3, r.4) in t in
      elim (Bool-cases (is_live l && (x || is_partial l.match))) [
        | inl yes_heard ↦
            elim ((Has-append c (heard_in x ls) (l.callback ∷ [])).0 (rw yes_heard at h)) [
              | inl g ↦ later g
              | inr (inl e) ↦ (l, inl refl, ground arith, sym e, ground arith)
              | inr (inr e) ↦ absurd e
            ]
        | inr unheard ↦ later (rw unheard at h)
      ]

  pub heard_in_of_hears :
      (x : Bool) (c : C) (ls : List (Listener C)) (l : Listener C)
      → Has l ls
      → is_live l ≡ true
      → l.callback ≡ c
      → (x ≡ true) ⊎ (l.match ≡ match_partial)
      → Has c (heard_in x ls)
  unfolding heard_in
  heard_in_of_hears x c [] l h live e m = absurd h
  heard_in_of_hears x c (k ∷ ls) l (inl same) live e m =
      let test : (is_live k && (x || is_partial k.match)) ≡ true = ground (arith, same) in
      rw test ((Has-append c (heard_in x ls) (k.callback ∷ [])).1 (inr (inl (cc (same, e)))))
  heard_in_of_hears x c (k ∷ ls) l (inr h) live e m =
      let g = heard_in_of_hears x c ls l h live e m in
      elim (Bool-cases (is_live k && (x || is_partial k.match))) [
        | inl heard ↦ rw heard ((Has-append c (heard_in x ls) (k.callback ∷ [])).1 (inl g))
        | inr unheard ↦ rw unheard g
      ]

  -- What the listeners of one ancestor hear.
  unfoldable pub heard : GameplayMessageRouter C → Name → Name → List C
  unfolding heard_in
  heard r channel name = heard_in (is_channel name channel) (bucket r name)

  unfoldable pub heard_all : GameplayMessageRouter C → Name → List Name → List C
  heard_all r channel [] = []
  heard_all r channel (name ∷ names) = heard r channel name ++ heard_all r channel names

  -- One round keeps the live listeners of its ancestor, and every other vector.
  pub bucket-visit :
      (c name q : Name) (r : GameplayMessageRouter C) (p : List C)
      → bucket (visit_bucket valid c (r, p) name).0 q
        ≡ ite (name_dec q name) (keep is_live (bucket r name)) (bucket r q)
  unfolding visit_bucket
  bucket-visit c name q r p = elim (Option-cases (lookup name_dec name r.listeners)) [
    | inl e ↦ rw (e, visit_bucket) (ground arith)
    | inr (ls, e) ↦
        rw (e, visit_bucket)
          (bucket-store name q _ r.listeners
            ∙ rw (sweep-kept (is_channel name c) ls r.handle_channels) (ground (arith, e)))
  ]

  pub pending-visit :
      (c name : Name) (r : GameplayMessageRouter C) (p : List C)
      → (visit_bucket valid c (r, p) name).1 ≡ p ++ heard r c name
  unfolding visit_bucket heard
  pending-visit c name r p = elim (Option-cases (lookup name_dec name r.listeners)) [
    | inl e ↦ rw (e, visit_bucket) (sym (append-nil p))
    | inr (ls, e) ↦ rw (e, visit_bucket, sweep-heard (is_channel name c) ls r.handle_channels)
  ]
