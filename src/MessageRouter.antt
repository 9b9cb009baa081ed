-- ===== src/MessageRouter.antt =====
-- framework/gameplay_message_router.{h,cpp}: the message bus. `C` stands for Callable, `P` for the
-- payload's Variant; `valid` says which callables are valid while a call runs.
pub mod Channels
pub mod Sweep
pub mod Delivery
pub mod Pruning
pub mod Handles
pub mod Unregistering
pub mod Registering
pub mod Dropping
mod Scenarios
use mathlib.Core.Option.{get_or}
use gfgdextension.Common.{
  ℕ, suc, ◌+◌, List, [], ◌∷◌, ◌++◌, map, foldl, lookup, Option, none, some, Bool, true, false, ◌||◌,
  if◌then◌else◌, ◌==◌, ℕ_discrete, ite, length, insert, erase,
}
use gfgdextension.Names.{Name, name_dec}
use gfgdextension.Names.Prefixes.{each_prefix}

pub data MatchType : Type 0 where
  match_exact match_partial : MatchType

pub record Listener (C : Type 0) : Type 0 where
  pub handle : ℕ
  pub callback : C
  pub match : MatchType

pub record GameplayMessageRouter (C : Type 0) : Type 0 where
  pub listeners : List (Name × List (Listener C))
  pub handle_channels : List (ℕ × Name)
  pub next_handle : ℕ

-- The ancestors of a channel, the full channel last.
pub channel_ancestors : Name → List Name
channel_ancestors channel =
    each_prefix (suc (length channel)) channel 0 (λ found name. found ++ name ∷ []) []
    ++ channel ∷ []

abbrev pub is_empty {ℓ} : {A : Type ℓ} → List A → Bool
is_empty [] = true
is_empty (_ ∷ _) = false

abbrev pub is_partial : MatchType → Bool
is_partial match_exact = false
is_partial match_partial = true

-- `a == b` of two channel names.
abbrev pub is_channel : Name → Name → Bool
is_channel a b = ite (name_dec a b) true false

module _ {C : Type 0} where
  pub new_router : GameplayMessageRouter C
  new_router = record { listeners = []; handle_channels = []; next_handle = 1 }

  -- `listeners[channel]`: a channel that nobody listens to has no entry.
  abbrev pub bucket : GameplayMessageRouter C → Name → List (Listener C)
  bucket r channel = get_or (lookup name_dec channel r.listeners) []

  -- `listeners.remove(bucket)` when a channel's vector has become empty.
  pub store :
      Name → List (Listener C) → List (Name × List (Listener C)) → List (Name × List (Listener C))
  store channel rest listeners =
      if is_empty rest
      then erase name_dec channel listeners
      else insert name_dec channel rest listeners

  -- The loop that drops the first listener with the handle.
  pub drop_handle : ℕ → List (Listener C) → List (Listener C)
  drop_handle handle [] = []
  drop_handle handle (l ∷ ls) = ite (ℕ_discrete l.handle handle) ls (l ∷ drop_handle handle ls)

  pub unregister_listener : GameplayMessageRouter C → ℕ → GameplayMessageRouter C
  unregister_listener r handle = elim (lookup ℕ_discrete handle r.handle_channels) [
    | none ↦ r
    | some channel ↦
        let handles = erase ℕ_discrete handle r.handle_channels in
        elim (lookup name_dec channel r.listeners) [
          | none ↦ record r { handle_channels = handles }
          | some ls ↦ record r {
            handle_channels = handles;
            listeners = store channel (drop_handle handle ls) r.listeners;
          }
        ]
  ]

  -- What `register_listener` writes once its guards have passed.
  pub add_listener : GameplayMessageRouter C → Name → C → MatchType → GameplayMessageRouter C
  add_listener r channel callback match = record {
    listeners = insert name_dec channel (bucket r channel ++ listener ∷ []) r.listeners;
    handle_channels = insert ℕ_discrete r.next_handle channel r.handle_channels;
    next_handle = r.next_handle + 1;
  }
    where
      listener : Listener C
      listener = record { handle = r.next_handle; callback = callback; match = match }

  pub clear : GameplayMessageRouter C → GameplayMessageRouter C
  clear r = record r { listeners = []; handle_channels = [] }

module _ {C : Type 0} (valid : C → Bool) where
  -- The new router, and the handle or 0.
  pub register_listener :
      GameplayMessageRouter C → Name → C → MatchType → GameplayMessageRouter C × ℕ
  register_listener r channel callback match =
      if is_empty channel
      then (r, 0)
      else (if valid callback
          then (add_listener r channel callback match, r.next_handle)
          else (r, 0))

  -- The loop over one vector, from its end: what stays, the handles, and whom to call, in order.
  pub sweep :
      Bool → List (Listener C) → List (ℕ × Name) → List (Listener C) × List (ℕ × Name) × List C
  sweep is_exact [] handles = ([], handles, [])
  sweep is_exact (l ∷ ls) handles =
      let (kept, rest, pending) = sweep is_exact ls handles in
      if valid l.callback
      then (
        l ∷ kept,
        rest,
        (if is_exact || is_partial l.match then pending ++ l.callback ∷ [] else pending),
      )
      else (kept, erase ℕ_discrete l.handle rest, pending)

  -- One round of the loop over the ancestors.
  pub visit_bucket :
      Name → GameplayMessageRouter C × List C → Name → GameplayMessageRouter C × List C
  visit_bucket channel (r, pending) name = elim (lookup name_dec name r.listeners) [
    | none ↦ (r, pending)
    | some ls ↦
        let (kept, handles, heard) = sweep (is_channel name channel) ls r.handle_channels in
        (
          record r { listeners = store name kept r.listeners; handle_channels = handles },
          pending ++ heard,
        )
  ]

  pub collect : GameplayMessageRouter C → Name → GameplayMessageRouter C × List C
  collect r channel = foldl (visit_bucket channel) (r, []) (channel_ancestors channel)

  -- The router after the loop, and the calls that it then makes, in order.
  pub broadcast {ℓ} :
      {P : Type ℓ}
      → GameplayMessageRouter C
      → Name
      → P
      → GameplayMessageRouter C × List (C × Name × P)
  broadcast r channel payload =
      if is_empty channel
      then (r, [])
      else (let (r', pending) = collect r channel in (r', map (λ c. (c, channel, payload)) pending))

  pub any_hears : Bool → List (Listener C) → Bool
  any_hears is_exact [] = false
  any_hears is_exact (l ∷ ls) =
      let rest = any_hears is_exact ls in
      if valid l.callback then (if is_exact || is_partial l.match then true else rest) else rest

  pub any_bucket_hears : GameplayMessageRouter C → Name → List Name → Bool
  any_bucket_hears r channel [] = false
  any_bucket_hears r channel (name ∷ names) =
      let rest = any_bucket_hears r channel names in
      elim (lookup name_dec name r.listeners) [
        | none ↦ rest
        | some ls ↦ if any_hears (is_channel name channel) ls then true else rest
      ]

  pub has_listeners : GameplayMessageRouter C → Name → Bool
  has_listeners r channel = any_bucket_hears r channel (channel_ancestors channel)
