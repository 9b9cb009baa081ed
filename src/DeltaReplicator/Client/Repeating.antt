-- ===== src/DeltaReplicator/Client/Repeating.antt =====
-- A message that arrives again.
use gfgdextension.Common.{
  ℕ, ◌≡◌, refl, ◌∙◌, ◌⊎◌, [], ◌∷◌, Option, none, some, Bool, true, false, not, ◌&&◌, if◌then◌else◌,
  is_some, lookup, ℕ_discrete, if_holds, Option-cases, inl, inr, arith,
}
use gfgdextension.DeltaReplicator.Values.{Engine, Entries}
use gfgdextension.DeltaReplicator.Patches.{Patches}
use gfgdextension.DeltaReplicator.Server.{
  Settings, Message, receive_full_state, receive_patch, receive_patch_reliable, is_acknowledged,
}
use gfgdextension.DeltaReplicator.Server.Sending.{is_after}
use gfgdextension.DeltaReplicator.Client.{
  Client, acknowledge, apply_state, client_receive_full_state, apply_on, client_receive_patch,
  deliver,
}

-- All but the acknowledgements.
pub record IsUnchanged (c c' : Client) : Type 0 where
  pub same_seq : c'.client_seq ≡ c.client_seq
  pub same_history : c'.client_history ≡ c.client_history
  pub same_shown : c'.shown ≡ c.shown
  pub same_signals : c'.signals ≡ c.signals

acknowledge-IsUnchanged :
    (s : Settings) (dropped : Bool) (c : Client) → IsUnchanged c (acknowledge s dropped c)
unfolding acknowledge
acknowledge-IsUnchanged s dropped c =
    if_holds (IsUnchanged c) (is_acknowledged s.delivery && not dropped) _ _
      (λ told. record {
        same_seq = refl;
        same_history = refl;
        same_shown = refl;
        same_signals = refl;
      })
      (λ other. record {
        same_seq = refl;
        same_history = refl;
        same_shown = refl;
        same_signals = refl;
      })

not_after-seq : (seq : ℕ) → is_after seq (some seq) ≡ false
not_after-seq seq = ground arith

-- A message that changes nothing: too early, stale, or without its base.
IsIdle : Option ℕ → ℕ → Client → Type 0
IsIdle base seq c =
    (c.client_seq ≡ none)
    ⊎ (is_after seq c.client_seq ≡ false)
    ⊎ ((b : ℕ) × (base ≡ some b) × (lookup ℕ_discrete b c.client_history ≡ none))

unchanged-IsIdle :
    (base : Option ℕ) (seq : ℕ) (c c' : Client)
    → IsUnchanged c c'
    → IsIdle base seq c
    → IsIdle base seq c'
unfolding IsIdle
unchanged-IsIdle base seq c c' same (inl early) = inl (same.same_seq ∙ early)
unchanged-IsIdle base seq c c' same (inr (inl stale)) = inr (inl (rw same.same_seq stale))
unchanged-IsIdle base seq c c' same (inr (inr (b, is_base, missing))) =
    inr (inr (b, is_base, rw same.same_history missing))

module _ (engine : Engine) where
  seq-apply_state :
      (s : Settings) (seq : ℕ) (values : Entries) (c : Client)
      → (apply_state engine s true seq values c).client_seq ≡ some seq
  unfolding apply_state
  seq-apply_state s seq values c = refl

  idle_full_state :
      (s : Settings) (dropped : Bool) (seq : ℕ) (values : Entries) (c : Client)
      → is_after seq c.client_seq ≡ false
      → IsUnchanged c (client_receive_full_state engine s true dropped seq values c)
  unfolding client_receive_full_state
  idle_full_state s dropped seq values c stale = rw stale (acknowledge-IsUnchanged s dropped c)

  full_state_twice :
      (s : Settings) (dropped dropped' : Bool) (seq : ℕ) (values : Entries) (c : Client)
      → let c' = client_receive_full_state engine s true dropped seq values c in
        IsUnchanged c' (client_receive_full_state engine s true dropped' seq values c')
  unfolding client_receive_full_state apply_state
  full_state_twice s dropped dropped' seq values c =
      let c1 : Client =
        if is_after seq c.client_seq
        then record (apply_state engine s true seq values c) { client_history = (seq, values) ∷ [] }
        else c in
      let told = acknowledge-IsUnchanged s dropped c1 in
      let now : is_after seq c1.client_seq ≡ false =
        if_holds (λ (x : Client). is_after seq x.client_seq ≡ false) (is_after seq c.client_seq) _ _
          (λ newer. not_after-seq seq) (λ stale. stale) in
      idle_full_state s dropped' seq values
        (client_receive_full_state engine s true dropped seq values c) (rw told.same_seq now)

  idle_patch :
      (s : Settings) (dropped : Bool) (base seq : ℕ) (patches : Patches) (c : Client)
      → IsIdle (some base) seq c
      → IsUnchanged c (client_receive_patch engine s true dropped base seq patches c)
  unfolding client_receive_patch IsIdle apply_on
  idle_patch s dropped base seq patches c (inl early) =
      if_holds (IsUnchanged c) (is_some c.client_seq) _ _
        (λ started. absurd (ground (arith, early, started)))
        (λ other. record {
          same_seq = refl;
          same_history = refl;
          same_shown = refl;
          same_signals = refl;
        })
  idle_patch s dropped base seq patches c (inr (inl stale)) =
      if_holds (IsUnchanged c) (is_some c.client_seq) _ _
        (λ started. rw stale (acknowledge-IsUnchanged s dropped c))
        (λ other. record {
          same_seq = refl;
          same_history = refl;
          same_shown = refl;
          same_signals = refl;
        })
  idle_patch s dropped base seq patches c (inr (inr (b, is_base, missing))) =
      let gone : lookup ℕ_discrete base c.client_history ≡ none =
        ground (arith, is_base, missing) in
      if_holds (IsUnchanged c) (is_some c.client_seq) _ _
        (λ started.
          if_holds (λ (x : Client). IsUnchanged c (acknowledge s dropped x))
            (is_after seq c.client_seq) _ _ (λ newer. rw gone (acknowledge-IsUnchanged s dropped c))
            (λ stale. acknowledge-IsUnchanged s dropped c))
        (λ other. record {
          same_seq = refl;
          same_history = refl;
          same_shown = refl;
          same_signals = refl;
        })

  after_patch :
      (s : Settings) (dropped : Bool) (base seq : ℕ) (patches : Patches) (c : Client)
      → IsIdle (some base) seq (client_receive_patch engine s true dropped base seq patches c)
  unfolding client_receive_patch apply_on apply_state IsIdle
  after_patch s dropped base seq patches c =
      let found = lookup ℕ_discrete base c.client_history in
      let x : Client =
        if is_after seq c.client_seq then apply_on engine s true base seq patches found c else c in
      let idle : IsIdle (some base) seq x =
        if_holds (IsIdle (some base) seq) (is_after seq c.client_seq) _ _
          (λ newer. elim (Option-cases (lookup ℕ_discrete base c.client_history)) [
            | inl n ↦ rw n (inr (inr (base, refl, n)))
            | inr (es, n) ↦ rw n (inr (inl (not_after-seq seq)))
          ])
          (λ stale. inr (inl stale)) in
      if_holds (IsIdle (some base) seq) (is_some c.client_seq) _ _
        (λ started.
          unchanged-IsIdle (some base) seq x (acknowledge s dropped x)
            (acknowledge-IsUnchanged s dropped x) idle)
        (λ other. inl (ground (arith, other)))

  -- A message that arrives twice leaves a client that has its root node as it was after the first time,
  -- but for the acknowledgement.
  pub deliver_twice :
      (s : Settings) (dropped dropped' : Bool) (message : Message) (c : Client)
      → let c' = deliver engine s true dropped message c in
        IsUnchanged c' (deliver engine s true dropped' message c')
  unfolding deliver
  deliver_twice s dropped dropped' (receive_full_state peer seq values) c =
      full_state_twice s dropped dropped' seq values c
  deliver_twice s dropped dropped' (receive_patch_reliable peer base seq patches) c =
      idle_patch s dropped' base seq patches
        (client_receive_patch engine s true dropped base seq patches c)
        (after_patch s dropped base seq patches c)
  deliver_twice s dropped dropped' (receive_patch peer base seq patches) c =
      idle_patch s dropped' base seq patches
        (client_receive_patch engine s true dropped base seq patches c)
        (after_patch s dropped base seq patches c)
