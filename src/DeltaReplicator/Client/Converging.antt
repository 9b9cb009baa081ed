-- ===== src/DeltaReplicator/Client/Converging.antt =====
-- A client shows the server's states, whatever the network does to the messages.
use gfgdextension.Common.{
  ℕ, ◌≤◌, ◌≡◌, refl, ◌∙◌, List, [], ◌∷◌, Option, none, some, Bool, true, ◌==◌, is_some, lookup,
  insert, lookup-insert, ℕ_discrete, subst, if_holds, Bool-cases, Option-cases, inl, inr, arith,
}
use gfgdextension.DeltaReplicator.Values.{
  ComparesContents, Schema, Conforms, Engine, Variant, Entries, find, or_nil, has_key, Same,
}
use gfgdextension.DeltaReplicator.Entries.{Same-refl}
use gfgdextension.DeltaReplicator.Typing.{formed-Conforms}
use gfgdextension.DeltaReplicator.Patches.{Patch, Patches, apply_entries}
use gfgdextension.DeltaReplicator.Server.{
  Settings, Message, receive_full_state, receive_patch, receive_patch_reliable, from_seq,
}
use gfgdextension.DeltaReplicator.Server.Trimming.{lookup-from_seq}
use gfgdextension.DeltaReplicator.Server.Sending.{is_after, patches_between}
use gfgdextension.DeltaReplicator.Client.{
  Client, new_client, read_last, previous_state, show_each, apply_state, client_receive_full_state,
  apply_on, client_receive_patch, deliver,
}
use gfgdextension.DeltaReplicator.Client.Agreement.{Agrees, IsComplete, patches_between-Agrees}
use gfgdextension.DeltaReplicator.Client.Showing.{
  Stands, logged, IsSound, cut-IsSound, acknowledge-IsSound, last_added-IsSound, seq-show_each,
  Stands-show_each,
}

IsComplete-Agrees : (σ : Schema) (s : Settings) (es : Entries) → IsComplete σ s es → Agrees s es es
unfolding IsComplete Agrees
IsComplete-Agrees σ s es complete name inside =
    let (v, found, formed) = complete name inside in
    (v, found, rw found (Same-refl v (formed-Conforms σ v (σ.property_kind name) formed)))

-- A message that the server may have sent: a state of its log, or the patches between two.
abbrev pub IsGenuine : (Entries → Entries → Patches) → (ℕ → Entries) → Message → Type 0
IsGenuine between log (receive_full_state peer seq values) = values ≡ log seq
IsGenuine between log (receive_patch_reliable peer base seq patches) =
    (base ≤ seq) × (patches ≡ between (log base) (log seq))
IsGenuine between log (receive_patch peer base seq patches) =
    (base ≤ seq) × (patches ≡ between (log base) (log seq))

abbrev pub AllGenuine :
    (Entries → Entries → Patches) → (ℕ → Entries) → List (Bool × Message) → Type 0
AllGenuine between log [] = Unit
AllGenuine between log ((dropped, message) ∷ messages) =
    IsGenuine between log message × AllGenuine between log messages

-- Messages that arrive, each with whether its acknowledgement is dropped.
unfoldable pub deliver_all : Engine → Settings → List (Bool × Message) → Client → Client
deliver_all engine s [] c = c
deliver_all engine s ((dropped, message) ∷ messages) c =
    deliver_all engine s messages (deliver engine s true dropped message c)

module _ (engine : Engine) (is_smaller : Patch → Variant → Bool)
    (compares : ComparesContents engine) (σ : Schema) where
  inserted-known :
      (s : Settings) (log : ℕ → Entries) (seq q : ℕ) (values es : Entries)
      (history : List (ℕ × Entries))
      → ((p : ℕ) (ds : Entries) → lookup ℕ_discrete p history ≡ some ds → Agrees s ds (log p))
      → Agrees s values (log seq)
      → lookup ℕ_discrete q (insert ℕ_discrete seq values history) ≡ some es
      → Agrees s es (log q)
  inserted-known s log seq q values es history known agrees at = elim (Bool-cases (q == seq)) [
    | inl e ↦
        let here : q ≡ seq = ground (arith, e) in
        let what : values ≡ es =
          ground (arith, lookup-insert ℕ_discrete seq q values history, at, here) in
        rw (here, ← what) agrees
    | inr e ↦ known q es (ground (arith, lookup-insert ℕ_discrete seq q values history, at, e))
  ]

  conforming :
      (s : Settings) (log : ℕ → Entries)
      → ((q : ℕ) → IsComplete σ s (log q))
      → (name : ℕ) → has_key name s.properties ≡ true
      → (q : ℕ) → Conforms σ (σ.property_kind name) (logged log name q)
  unfolding IsComplete
  conforming s log whole name inside q =
      let (v, found, formed) = whole q name inside in rw found formed

  -- What is shown stands for what the client compares with, which equals a value of the log.
  previous_state-Stands :
      (s : Settings) (log : ℕ → Entries) (c : Client) (name : ℕ)
      → IsSound s log c
      → has_key name s.properties ≡ true
      → is_some c.client_seq ≡ true
      → let old = or_nil (find name (previous_state s c)) in
        Stands (logged log name) (c.shown name) old × ((n : ℕ) × Same old (logged log name n))
  unfolding previous_state Agrees
  previous_state-Stands s log c name h inside started = elim (Option-cases c.client_seq) [
    | inl e ↦ absurd (ground (arith, e, started))
    | inr (n, e) ↦
        let (es, there, stands) = h.shows n e in
        let what : previous_state s c ≡ es = rw (e, there) refl in
        let (v, found, like) = h.known n es there name inside in
        rw what (stands name inside, (n, rw found like))
  ]

  -- A client that takes a state that agrees with the server's of that number shows it.
  apply_state-IsSound :
      (s : Settings) (log : ℕ → Entries) (seq : ℕ) (values : Entries) (c : Client)
      → ((q : ℕ) → IsComplete σ s (log q))
      → IsSound s log c
      → Agrees s values (log seq)
      → IsSound s log (apply_state engine s true seq values c)
  unfolding apply_state read_last previous_state Agrees
  apply_state-IsSound s log seq values c whole h agrees =
      let previous = previous_state s c in
      let c0 : Client = read_last c in
      let (_, history) = seq-show_each engine s previous values s.properties c0 in
      let kept = last_added-IsSound s log c h in
      record {
        known = λ q es at. inserted-known s log seq q values es c.client_history h.known agrees (
            subst (λ m. lookup ℕ_discrete q (insert ℕ_discrete seq values m) ≡ some es)
              (history ∙ kept) at);
        shows = λ n at.
            let here : seq ≡ n = ground (arith, at) in
            (
              values,
              rw
                  (lookup-insert ℕ_discrete seq n values
                    (show_each engine s previous values s.properties c0).client_history)
                  (ground (arith, here)),
              λ name inside.
                  let (v, found, like) = agrees name inside in
                  rw found (
                    Stands-show_each engine compares σ (σ.property_kind name) (logged log name)
                      (conforming s log whole name inside) s previous values name v s.properties c0
                      found (λ started. previous_state-Stands s log c name h inside started)
                      inside),
            );
      }

  full_state-IsSound :
      (s : Settings) (log : ℕ → Entries) (dropped : Bool) (seq : ℕ) (c : Client)
      → ((q : ℕ) → IsComplete σ s (log q))
      → IsSound s log c
      → IsSound s log (client_receive_full_state engine s true dropped seq (log seq) c)
  unfolding client_receive_full_state apply_state lookup
  full_state-IsSound s log dropped seq c complete h =
      let values = log seq in
      let c1 : Client = apply_state engine s true seq values c in
      let sound : IsSound s log c1 =
        apply_state-IsSound s log seq values c complete h
          (IsComplete-Agrees σ s values (complete seq)) in
      let history =
        (show_each engine s (previous_state s c) values s.properties
          (read_last c)).client_history in
      acknowledge-IsSound s log dropped _ (
        if_holds (IsSound s log) (is_after seq c.client_seq) _ _
          (λ newer.
            cut-IsSound s log c1 ((seq, values) ∷ [])
              (λ q es at. ground (arith, lookup-insert ℕ_discrete seq q values history, at))
              (λ n at.
                let here : seq ≡ n = ground (arith, at) in
                ground (arith, lookup-insert ℕ_discrete seq n values history, here))
              sound)
          (λ stale. h))

  apply_on-IsSound :
      (s : Settings) (log : ℕ → Entries) (base seq : ℕ) (found : Option Entries) (c : Client)
      → base ≤ seq
      → ((q : ℕ) → IsComplete σ s (log q))
      → IsSound s log c
      → ((es : Entries) → found ≡ some es → Agrees s es (log base))
      → IsSound s log (
          apply_on engine s true base seq
            (patches_between engine is_smaller s (log base) (log seq))
            found
            c)
  unfolding apply_on apply_state
  apply_on-IsSound s log base seq none c le complete h agrees = h
  apply_on-IsSound s log base seq (some es) c le complete h agrees =
      let values = apply_entries (patches_between engine is_smaller s (log base) (log seq)) es in
      let c1 : Client = apply_state engine s true seq values c in
      let sound : IsSound s log c1 = apply_state-IsSound s log seq values c complete h (
        patches_between-Agrees engine is_smaller compares σ s (log base) (log seq) es
          (complete base) (complete seq) (agrees es refl)) in
      cut-IsSound s log c1 (from_seq base c1.client_history)
        (λ q ds at. ground (arith, lookup-from_seq q base c1.client_history, at))
        (λ n at.
          let here : seq ≡ n = ground (arith, at) in
          ground (arith, lookup-from_seq n base c1.client_history, here, le))
        sound

  patch-IsSound :
      (s : Settings) (log : ℕ → Entries) (dropped : Bool) (base seq : ℕ) (c : Client)
      → base ≤ seq
      → ((q : ℕ) → IsComplete σ s (log q))
      → IsSound s log c
      → IsSound s log (
          client_receive_patch engine s true dropped base seq
            (patches_between engine is_smaller s (log base) (log seq))
            c)
  unfolding client_receive_patch
  patch-IsSound s log dropped base seq c le complete h =
      if_holds (IsSound s log) (is_some c.client_seq) _ _
        (λ started. acknowledge-IsSound s log dropped _ (
          if_holds (IsSound s log) (is_after seq c.client_seq) _ _
            (λ newer.
              apply_on-IsSound s log base seq (lookup ℕ_discrete base c.client_history) c le
                complete h (λ es at. h.known base es at))
            (λ stale. h)))
        (λ early. h)

  deliver-IsSound :
      (s : Settings) (log : ℕ → Entries) (dropped : Bool) (message : Message) (c : Client)
      → ((q : ℕ) → IsComplete σ s (log q))
      → IsGenuine (patches_between engine is_smaller s) log message
      → IsSound s log c
      → IsSound s log (deliver engine s true dropped message c)
  unfolding deliver
  deliver-IsSound s log dropped (receive_full_state peer seq values) c complete genuine h =
      rw genuine (full_state-IsSound s log dropped seq c complete h)
  deliver-IsSound s log dropped (receive_patch_reliable peer base seq patches) c complete genuine
        h =
      rw genuine.1 (patch-IsSound s log dropped base seq c genuine.0 complete h)
  deliver-IsSound s log dropped (receive_patch peer base seq patches) c complete genuine h =
      rw genuine.1 (patch-IsSound s log dropped base seq c genuine.0 complete h)

  -- Messages of the server that arrive in any order, any number of times, and with any of them missing,
  -- leave the client with states that agree with the server's, the newest of which it shows. The server's
  -- log has a value for each property, of the property's kind; the client has its root node; and the
  -- engine's `==` holds only for the same contents.
  pub deliver_all-IsSound :
      (s : Settings) (log : ℕ → Entries) (messages : List (Bool × Message)) (c : Client)
      → ((q : ℕ) → IsComplete σ s (log q))
      → AllGenuine (patches_between engine is_smaller s) log messages
      → IsSound s log c
      → IsSound s log (deliver_all engine s messages c)
  unfolding deliver_all
  deliver_all-IsSound s log [] c complete genuine h = h
  deliver_all-IsSound s log ((dropped, message) ∷ messages) c complete genuine h =
      deliver_all-IsSound s log messages (deliver engine s true dropped message c) complete
        genuine.1 (deliver-IsSound s log dropped message c complete genuine.0 h)

  -- Each property that a client with state `n` shows equals the server's in that state.
  pub IsSound-shown :
      (s : Settings) (log : ℕ → Entries) (c : Client) (n name : ℕ)
      → IsSound s log c
      → c.client_seq ≡ some n
      → has_key name s.properties ≡ true
      → Same (c.shown name) (or_nil (find name (log n)))
  unfolding Stands Agrees
  IsSound-shown s log c n name h at inside =
      let (es, there, stands) = h.shows n at in
      let (v, found, like) = h.known n es there name inside in stands name inside n (rw found like)

-- Before any message nothing is promised.
pub new_client-IsSound :
    (s : Settings) (log : ℕ → Entries) (shown : ℕ → Variant) → IsSound s log (new_client shown)
unfolding lookup
new_client-IsSound s log shown = record {
  known = λ q es at. absurd (ground (arith, at));
  shows = λ n at. absurd (ground (arith, at));
}

module _ (engine : Engine) (is_smaller : Patch → Variant → Bool)
    (compares : ComparesContents engine) (σ : Schema) where
  -- Whatever of the server's messages reach a new client, in any order, any number of times, and with any
  -- of them missing: each property that it shows with state `n` equals the server's in that state. The
  -- server's log has a value for each property, of the property's kind; the client has its root node;
  -- and the engine's `==` holds only for the same contents.
  pub deliver_all-shown :
      (s : Settings) (log : ℕ → Entries) (messages : List (Bool × Message)) (shown : ℕ → Variant)
      (n name : ℕ)
      → ((q : ℕ) → IsComplete σ s (log q))
      → AllGenuine (patches_between engine is_smaller s) log messages
      → (deliver_all engine s messages (new_client shown)).client_seq ≡ some n
      → has_key name s.properties ≡ true
      → Same
          ((deliver_all engine s messages (new_client shown)).shown name)
          (or_nil (find name (log n)))
  deliver_all-shown s log messages shown n name complete genuine at inside =
      IsSound-shown engine is_smaller compares σ s log
        (deliver_all engine s messages (new_client shown)) n name
        (deliver_all-IsSound engine is_smaller compares σ s log messages (new_client shown) complete
          genuine (new_client-IsSound s log shown))
        at inside
