-- ===== src/DeltaReplicator/Client/Showing.antt =====
-- What a client shows after it took a state, and the invariant of its history.
use gfgdextension.Common.{
  ℕ, ◌≡◌, refl, ◌∙◌, List, [], ◌∷◌, Option, none, some, Bool, true, false, not, ◌&&◌, ◌==◌, is_some,
  lookup, ℕ_discrete, subst, if_holds, Bool-cases, Option-cases, inl, inr, arith,
}
use gfgdextension.DeltaReplicator.Values.{
  ComparesContents, Schema, Conforms, Engine, same, Variant, Entries, find, or_nil, has_key, Same,
}
use gfgdextension.DeltaReplicator.Typing.{Equal-Same, Equal-Same-trans, same-Equal}
use gfgdextension.DeltaReplicator.Server.{Settings, is_acknowledged}
use gfgdextension.DeltaReplicator.Client.{
  Client, last_added, acknowledge, set_property, show_property, show_each,
}
use gfgdextension.DeltaReplicator.Client.Agreement.{Agrees}

-- A value equals whichever of the goals the other equals.
unfoldable pub Stands : (ℕ → Variant) → Variant → Variant → Type 0
Stands goal x y = (q : ℕ) → Same y (goal q) → Same x (goal q)

-- The values that a property has in the log.
abbrev pub logged : (ℕ → Entries) → ℕ → ℕ → Variant
logged log name q = or_nil (find name (log q))

-- Each state of the client agrees with the server's of that number, and what is shown is the newest.
pub record IsSound (s : Settings) (log : ℕ → Entries) (c : Client) : Type 0 where
  pub known :
      (q : ℕ) (es : Entries) → lookup ℕ_discrete q c.client_history ≡ some es → Agrees s es (log q)
  pub shows :
      (n : ℕ)
      → c.client_seq ≡ some n
      → (es : Entries) × (lookup ℕ_discrete n c.client_history ≡ some es)
        × ((name : ℕ)
            → has_key name s.properties ≡ true
            → Stands (logged log name) (c.shown name) (or_nil (find name es)))

-- With another history that has the newest state and no other states than before.
pub cut-IsSound :
    (s : Settings) (log : ℕ → Entries) (c : Client) (history : List (ℕ × Entries))
    → ((q : ℕ) (es : Entries)
        → lookup ℕ_discrete q history ≡ some es
        → lookup ℕ_discrete q c.client_history ≡ some es)
    → ((n : ℕ)
        → c.client_seq ≡ some n
        → lookup ℕ_discrete n history ≡ lookup ℕ_discrete n c.client_history)
    → IsSound s log c
    → IsSound s log (record c { client_history = history })
cut-IsSound s log c history within newest h = record {
  known = λ q es at. h.known q es (within q es at);
  shows = λ n at. let (es, there, stands) = h.shows n at in (es, newest n at ∙ there, stands);
}

pub acknowledge-IsSound :
    (s : Settings) (log : ℕ → Entries) (dropped : Bool) (c : Client)
    → IsSound s log c
    → IsSound s log (acknowledge s dropped c)
unfolding acknowledge
acknowledge-IsSound s log dropped c h =
    if_holds (IsSound s log) (is_acknowledged s.delivery && not dropped) _ _
      (λ told. record { known = h.known; shows = h.shows }) (λ other. h)

pub last_added-IsSound :
    (s : Settings) (log : ℕ → Entries) (c : Client)
    → IsSound s log c
    → last_added c.client_seq c.client_history ≡ c.client_history
last_added-IsSound s log c h = elim (Option-cases c.client_seq) [
  | inl e ↦ rw e refl
  | inr (n, e) ↦ let (es, there, stands) = h.shows n e in rw (e, there) refl
]

module _ (engine : Engine) where
  seq-show_property :
      (s : Settings) (name : ℕ) (old : Variant) (found : Option Variant) (c : Client)
      → let c' = show_property engine s name old found c in
        (c'.client_seq ≡ c.client_seq) × (c'.client_history ≡ c.client_history)
  unfolding show_property set_property
  seq-show_property s name old none c = (refl, refl)
  seq-show_property s name old (some new) c =
      if_holds
        (λ (c' : Client). (c'.client_seq ≡ c.client_seq) × (c'.client_history ≡ c.client_history))
        (is_some c.client_seq && same engine old new) _ _ (λ skipped. (refl, refl))
        (λ set. (refl, refl))

  pub seq-show_each :
      (s : Settings) (previous values : Entries) (names : List ℕ) (c : Client)
      → let c' = show_each engine s previous values names c in
        (c'.client_seq ≡ c.client_seq) × (c'.client_history ≡ c.client_history)
  unfolding show_each
  seq-show_each s previous values [] c = (refl, refl)
  seq-show_each s previous values (name ∷ names) c =
      let c1 : Client =
        show_property engine s name (or_nil (find name previous)) (find name values) c in
      let first = seq-show_property s name (or_nil (find name previous)) (find name values) c in
      let rest = seq-show_each s previous values names c1 in (rest.0 ∙ first.0, rest.1 ∙ first.1)

  -- What stands for the new value of a property goes on to.
  stays-show_property :
      (goal : ℕ → Variant) (s : Settings) (name k : ℕ) (old v : Variant) (values : Entries)
      (c : Client)
      → find k values ≡ some v
      → Stands goal (c.shown k) v
      → Stands goal ((show_property engine s name old (find name values) c).shown k) v
  unfolding show_property set_property Stands
  stays-show_property goal s name k old v values c at h = elim (Option-cases (find name values)) [
    | inl n ↦ rw n h
    | inr (w, n) ↦ rw n (
        if_holds (λ (c' : Client). Stands goal (c'.shown k) v)
          (is_some c.client_seq && same engine old w) _ _ (λ skipped. h)
          (λ set.
            if_holds (λ x. Stands goal x v) (k == name) w (c.shown k)
              (λ e.
                let here : k ≡ name = ground (arith, e) in
                let what : w ≡ v = ground (arith, n, at, here) in λ q like. rw what like)
              (λ other. h)))
  ]

  stays-show_each :
      (goal : ℕ → Variant) (s : Settings) (previous values : Entries) (k : ℕ) (v : Variant)
      (names : List ℕ) (c : Client)
      → find k values ≡ some v
      → Stands goal (c.shown k) v
      → Stands goal ((show_each engine s previous values names c).shown k) v
  unfolding show_each
  stays-show_each goal s previous values k v [] c at h = h
  stays-show_each goal s previous values k v (name ∷ names) c at h =
      let old = or_nil (find name previous) in
      stays-show_each goal s previous values k v names
        (show_property engine s name old (find name values) c) at
        (stays-show_property goal s name k old v values c at h)

  other-show_property :
      (s : Settings) (name k : ℕ) (old : Variant) (found : Option Variant) (c : Client)
      → (name == k) ≡ false
      → (show_property engine s name old found c).shown k ≡ c.shown k
  unfolding show_property set_property
  other-show_property s name k old none c ne = refl
  other-show_property s name k old (some new) c ne =
      if_holds (λ (c' : Client). c'.shown k ≡ c.shown k)
        (is_some c.client_seq && same engine old new) _ _ (λ skipped. refl)
        (λ set. let back : (k == name) ≡ false = ground (arith, ne) in rw back refl)

  module _ (compares : ComparesContents engine) (σ : Schema) (kind : ℕ) (goal : ℕ → Variant)
      (conform : (q : ℕ) → Conforms σ kind (goal q)) where
    Stands-show_property :
        (s : Settings) (k : ℕ) (old v : Variant) (c : Client)
        → (is_some c.client_seq ≡ true
            → Stands goal (c.shown k) old × ((n : ℕ) × Same old (goal n)))
        → Stands goal ((show_property engine s k old (some v) c).shown k) v
    unfolding show_property set_property Stands
    Stands-show_property s k old v c h =
        if_holds (λ (c' : Client). Stands goal (c'.shown k) v)
          (is_some c.client_seq && same engine old v) _ _
          (λ skipped.
            let had : is_some c.client_seq ≡ true = ground (arith, skipped) in
            let equal : same engine old v ≡ true = ground (arith, skipped) in
            let (stands, (n, was)) = h had in
            λ q like. stands q (
              Equal-Same σ (goal q) kind (goal n) old (conform q) (conform n) was
                (Equal-Same-trans (goal q) old v (same-Equal engine compares σ old v equal) like)))
          (λ set. let here : (k == k) ≡ true = ground arith in λ q like. rw here like)

    -- Each property that is shown stands for its new value.
    pub Stands-show_each :
        (s : Settings) (previous values : Entries) (k : ℕ) (v : Variant) (names : List ℕ)
        (c : Client)
        → find k values ≡ some v
        → (is_some c.client_seq ≡ true
            → Stands goal (c.shown k) (or_nil (find k previous))
              × ((n : ℕ) × Same (or_nil (find k previous)) (goal n)))
        → has_key k names ≡ true
        → Stands goal ((show_each engine s previous values names c).shown k) v
    unfolding show_each has_key
    Stands-show_each s previous values k v [] c at h inside = absurd (ground (arith, inside))
    Stands-show_each s previous values k v (name ∷ names) c at h inside =
        let old = or_nil (find name previous) in
        let c1 : Client = show_property engine s name old (find name values) c in
        elim (Bool-cases (name == k)) [
          | inl e ↦
              let here : name ≡ k = ground (arith, e) in
              let now : Stands goal
                  ((show_property engine s k (or_nil (find k previous)) (find k values) c).shown k)
                  v =
                rw at (Stands-show_property s k (or_nil (find k previous)) v c h) in
              stays-show_each goal s previous values k v names c1 at (rw here now)
          | inr e ↦
              let same_shown = other-show_property s name k old (find name values) c e in
              let same_seq = (seq-show_property s name old (find name values) c).0 in
              Stands-show_each s previous values k v names c1 at
                (λ had. rw same_shown (h (subst (λ o. is_some o ≡ true) same_seq had)))
                (ground (arith, inside, e))
        ]
