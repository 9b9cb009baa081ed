-- ===== src/DeltaReplicator/Server/Trimming.antt =====
-- What `trim_history` keeps: the newest state and those that a peer confirmed, at most `max_history` behind.
use gfgdextension.Common.{
  ℕ, ◌+◌, ◌≡◌, refl, sym, List, [], ◌∷◌, Option, none, some, true, if◌then◌else◌, ltb, min, ◌≤◌,
  is_some, lookup, ℕ_discrete, subst, ◌⊎◌, Bool-cases, Option-cases, inl, inr, arith,
}
use gfgdextension.DeltaReplicator.Values.{Entries}
use gfgdextension.DeltaReplicator.Server.{
  PeerState, Settings, Server, acked_in_reach, needed_for, oldest_needed, reached, from_seq,
  trim_history,
}

-- The number of a state that the history has.
abbrev pub HasSeq : List (ℕ × Entries) → Option ℕ → Type 0
HasSeq history none = Unit
HasSeq history (some a) = is_some (lookup ℕ_discrete a history) ≡ true

-- The peers confirmed states that the history has.
abbrev pub AllKnown : List (ℕ × Entries) → List (ℕ × PeerState) → Type 0
AllKnown history [] = Unit
AllKnown history ((peer, st) ∷ peers) = HasSeq history st.acked × AllKnown history peers

-- The newest state is there, none has a larger number, and the peers confirmed such states.
pub record IsNumbered (r : Server) : Type 0 where
  pub has_latest : HasSeq r.history (some r.latest_seq)
  pub newest : (q : ℕ) → HasSeq r.history (some q) → q ≤ r.latest_seq
  pub known : AllKnown r.history r.peers

-- Also no state is further behind than `max_history`.
pub record IsValid (s : Settings) (r : Server) : Type 0 where
  pub numbered : IsNumbered r
  pub within : (q : ℕ) → HasSeq r.history (some q) → r.latest_seq ≤ q + s.max_history

pub lookup-from_seq :
    (q n : ℕ) (h : List (ℕ × Entries))
    → lookup ℕ_discrete q (from_seq n h) ≡ (if ltb q n then none else lookup ℕ_discrete q h)
unfolding from_seq lookup
lookup-from_seq q n [] = ground arith
lookup-from_seq q n ((seq, es) ∷ h) = ground (arith, lookup-from_seq q n h)

-- Each confirmed number, and the newest, bound what is needed from above.
AllAbove : ℕ → List (ℕ × PeerState) → Type 0
AllAbove n [] = Unit
AllAbove n ((peer, st) ∷ peers) = ((a : ℕ) → st.acked ≡ some a → n ≤ a) × AllAbove n peers

pub latest-oldest_needed :
    (latest : ℕ) (peers : List (ℕ × PeerState)) → oldest_needed latest peers ≤ latest
latest-oldest_needed latest [] = omega arith
latest-oldest_needed latest ((peer, st) ∷ peers) = elim (Option-cases st.acked) [
  | inl e ↦ rw e (latest-oldest_needed latest peers)
  | inr (a, e) ↦ rw e (ground (arith, latest-oldest_needed latest peers))
]

above-oldest_needed :
    (m latest : ℕ) (peers : List (ℕ × PeerState))
    → m ≤ oldest_needed latest peers
    → AllAbove m peers
unfolding AllAbove
above-oldest_needed m latest [] h = tt
above-oldest_needed m latest ((peer, st) ∷ peers) h = elim (Option-cases st.acked) [
  | inl e ↦
      let below : m ≤ oldest_needed latest peers = ground (arith, e, h) in
      (λ b at. absurd (ground (arith, e, at)), above-oldest_needed m latest peers below)
  | inr (a, e) ↦
      let bound : m ≤ min (oldest_needed latest peers) a =
        subst (λ o. m ≤ needed_for o (oldest_needed latest peers)) e h in
      (
        λ b at. let same : a ≡ b = ground (arith, e, at) in ground (arith, bound, same),
        above-oldest_needed m latest peers (ground (arith, bound)),
      )
]

known-from_seq :
    (n : ℕ) (h : List (ℕ × Entries)) (peers : List (ℕ × PeerState))
    → AllAbove n peers
    → AllKnown h peers
    → AllKnown (from_seq n h) peers
unfolding AllAbove
known-from_seq n h [] above known = tt
known-from_seq n h ((peer, st) ∷ peers) above known =
    let rest = known-from_seq n h peers above.1 known.1 in
    elim (Option-cases st.acked) [
      | inl e ↦ (subst (λ o. HasSeq (from_seq n h) o) (sym e) tt, rest)
      | inr (a, e) ↦
          let here : HasSeq h (some a) = subst (λ o. HasSeq h o) e known.0 in
          let kept : HasSeq (from_seq n h) (some a) =
            rw (lookup-from_seq a n h) (ground (arith, above.0 a e, here)) in
          (subst (λ o. HasSeq (from_seq n h) o) (sym e) kept, rest)
    ]

-- A peer in reach is as it was, another has nothing confirmed.
acked_in_reach_lem :
    (latest max : ℕ) (acked : Option ℕ)
    → (acked_in_reach latest max acked ≡ none)
      ⊎ ((a : ℕ) × (acked ≡ some a)
          × (acked_in_reach latest max acked ≡ some a)
          × (latest ≤ a + max))
acked_in_reach_lem latest max none = inl refl
acked_in_reach_lem latest max (some a) = elim (Bool-cases (ltb (a + max) latest)) [
  | inl b ↦ inl (rw b refl)
  | inr b ↦ inr (a, refl, rw b refl, ground (arith, b))
]

known-reached :
    (latest max : ℕ) (h : List (ℕ × Entries)) (peers : List (ℕ × PeerState))
    → AllKnown h peers
    → AllKnown h (reached latest max peers)
unfolding reached
known-reached latest max h [] known = tt
known-reached latest max h ((peer, st) ∷ peers) known =
    let rest = known-reached latest max h peers known.1 in
    elim (acked_in_reach_lem latest max st.acked) [
      | inl e ↦ (subst (λ o. HasSeq h o) (sym e) tt, rest)
      | inr (a, e, e', near) ↦
          (subst (λ o. HasSeq h o) (sym e') (subst (λ o. HasSeq h o) e known.0), rest)
    ]

reach-oldest_needed :
    (latest max : ℕ) (peers : List (ℕ × PeerState))
    → latest ≤ oldest_needed latest (reached latest max peers) + max
unfolding reached
reach-oldest_needed latest max [] = omega arith
reach-oldest_needed latest max ((peer, st) ∷ peers) =
    let rest = reach-oldest_needed latest max peers in
    elim (acked_in_reach_lem latest max st.acked) [
      | inl e ↦ rw e rest
      | inr (a, e, e', near) ↦ rw e' (ground (arith, near, rest))
    ]

pub trim_history-IsValid : (s : Settings) (r : Server) → IsNumbered r → IsValid s (trim_history s r)
unfolding trim_history
trim_history-IsValid s r h =
    let peers = reached r.latest_seq s.max_history r.peers in
    let n = oldest_needed r.latest_seq peers in
    let low : n ≤ r.latest_seq = latest-oldest_needed r.latest_seq peers in
    let far : r.latest_seq ≤ n + s.max_history =
      reach-oldest_needed r.latest_seq s.max_history r.peers in
    record {
      numbered = record {
        has_latest =
            rw (lookup-from_seq r.latest_seq n r.history) (ground (arith, low, h.has_latest));
        newest = λ q at. h.newest q (ground (arith, lookup-from_seq q n r.history, at));
        known =
            known-from_seq n r.history peers
              (above-oldest_needed n r.latest_seq peers (omega arith))
              (known-reached r.latest_seq s.max_history r.history r.peers h.known);
      };
      within = λ q at. ground (arith, lookup-from_seq q n r.history, at, far);
    }

-- A peer whose confirmed state is in reach keeps it, any other has nothing confirmed after, and nothing
-- else of a peer changes. No state from one in reach on is dropped.
abbrev pub AllKept :
    ℕ
    → ℕ
    → List (ℕ × Entries)
    → List (ℕ × Entries)
    → List (ℕ × PeerState)
    → List (ℕ × PeerState)
    → Type 0
AllKept latest max history history' [] after = after ≡ []
AllKept latest max history history' ((peer, st) ∷ peers) after =
    (acked : Option ℕ) × (rest : List (ℕ × PeerState)) × (after
      ≡ (peer, record st { acked = acked }) ∷ rest)
    × ((a : ℕ) → st.acked ≡ some a → latest ≤ a + max → acked ≡ some a)
    × ((a : ℕ) → acked ≡ some a → (st.acked ≡ some a) × (latest ≤ a + max))
    × ((a q : ℕ)
        → st.acked ≡ some a
        → latest ≤ a + max
        → a ≤ q
        → lookup ℕ_discrete q history' ≡ lookup ℕ_discrete q history)
    × AllKept latest max history history' peers rest

stays-in_reach :
    (latest max a : ℕ) (acked : Option ℕ)
    → acked ≡ some a
    → latest ≤ a + max
    → acked_in_reach latest max acked ≡ some a
stays-in_reach latest max a acked at near = rw at (ground (arith, near))

was-in_reach :
    (latest max a : ℕ) (acked : Option ℕ)
    → acked_in_reach latest max acked ≡ some a
    → (acked ≡ some a) × (latest ≤ a + max)
was-in_reach latest max a acked at = elim (acked_in_reach_lem latest max acked) [
  | inl e ↦ absurd (ground (arith, e, at))
  | inr (b, e, e', near) ↦
      let same : b ≡ a = ground (arith, e', at) in (rw (← same) e, rw (← same) near)
]

reached-AllKept :
    (latest max n : ℕ) (h : List (ℕ × Entries)) (peers : List (ℕ × PeerState))
    → AllAbove n (reached latest max peers)
    → AllKept latest max h (from_seq n h) peers (reached latest max peers)
unfolding reached AllAbove
reached-AllKept latest max n h [] above = refl
reached-AllKept latest max n h ((peer, st) ∷ peers) above = (
  acked_in_reach latest max st.acked,
  reached latest max peers,
  refl,
  λ a at near. stays-in_reach latest max a st.acked at near,
  λ a at. was-in_reach latest max a st.acked at,
  λ a q at near later.
      let bound : n ≤ a = above.0 a (stays-in_reach latest max a st.acked at near) in
      rw (lookup-from_seq q n h) (ground (arith, bound, later)),
  reached-AllKept latest max n h peers above.1,
)

-- `trim_history` keeps the newest state, and no state that is more than `max_history` numbers behind it.
-- A peer that confirmed a state within that reach keeps it as confirmed, any other has nothing
-- confirmed after, and nothing else of the peers changes; each state from a confirmed one in reach on
-- is as it was. The newest state was there, none had a larger number, and the peers had confirmed
-- states that were there.
pub trim_history_keeps :
    (s : Settings) (r : Server)
    → IsNumbered r
    → let r' = trim_history s r in
      IsValid s r'
      × (r'.latest_seq ≡ r.latest_seq)
      × (lookup ℕ_discrete r.latest_seq r'.history ≡ lookup ℕ_discrete r.latest_seq r.history)
      × AllKept r.latest_seq s.max_history r.history r'.history r.peers r'.peers
unfolding trim_history
trim_history_keeps s r h =
    let peers = reached r.latest_seq s.max_history r.peers in
    let n = oldest_needed r.latest_seq peers in
    let low : n ≤ r.latest_seq = latest-oldest_needed r.latest_seq peers in
    (
      trim_history-IsValid s r h,
      refl,
      rw (lookup-from_seq r.latest_seq n r.history) (ground (arith, low)),
      reached-AllKept r.latest_seq s.max_history n r.history r.peers
          (above-oldest_needed n r.latest_seq peers (omega arith)),
    )
