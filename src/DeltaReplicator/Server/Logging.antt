-- ===== src/DeltaReplicator/Server/Logging.antt =====
-- Every message that the server sends is a state that it had, or the patches between two.
use gfgdextension.Common.{
  ℕ, suc, ◌≤◌, ◌≡◌, refl, sym, ◌∙◌, List, [], ◌∷◌, ◌++◌, some, Bool, true, false, if◌then◌else◌,
  ◌==◌, lookup, insert, lookup-insert, ℕ_discrete, subst, Bool-cases, Option-cases, inl, inr, arith,
}
use gfgdextension.DeltaReplicator.Values.{Entries}
use gfgdextension.DeltaReplicator.Patches.{Patches}
use gfgdextension.DeltaReplicator.Server.{
  Settings, Message, receive_full_state, receive_patch, receive_patch_reliable, Server,
  oldest_needed, reached, trim_history,
}
use gfgdextension.DeltaReplicator.Server.Trimming.{HasSeq, lookup-from_seq, latest-oldest_needed}
use gfgdextension.DeltaReplicator.Server.Recording.{recorded, last_state}

-- A message about states up to a number of the log.
abbrev pub IsLogged : (Entries → Entries → Patches) → (ℕ → Entries) → ℕ → Message → Type 0
IsLogged between log latest (receive_full_state peer seq values) =
    (seq ≤ latest) × (values ≡ log seq)
IsLogged between log latest (receive_patch_reliable peer base seq patches) =
    (base ≤ seq) × (seq ≤ latest) × (patches ≡ between (log base) (log seq))
IsLogged between log latest (receive_patch peer base seq patches) =
    (base ≤ seq) × (seq ≤ latest) × (patches ≡ between (log base) (log seq))

abbrev pub AllLogged : (Entries → Entries → Patches) → (ℕ → Entries) → ℕ → List Message → Type 0
AllLogged between log latest [] = Unit
AllLogged between log latest (m ∷ ms) =
    IsLogged between log latest m × AllLogged between log latest ms

-- The history and the messages of a server are those of the log.
pub record Fits (between : Entries → Entries → Patches) (log : ℕ → Entries) (r : Server)
    : Type 0 where
  pub has_newest : HasSeq r.history (some r.latest_seq)
  pub no_later : (q : ℕ) → HasSeq r.history (some q) → q ≤ r.latest_seq
  pub logged : (q : ℕ) (es : Entries) → lookup ℕ_discrete q r.history ≡ some es → log q ≡ es
  pub all_sent : AllLogged between log r.latest_seq r.sent

-- The log with the newest state of a server.
unfoldable pub extend : Server → (ℕ → Entries) → ℕ → Entries
extend r log q = if q == r.latest_seq then last_state r else log q

pub AllLogged-append :
    (between : Entries → Entries → Patches) (log : ℕ → Entries) (latest : ℕ) (ms : List Message)
    (m : Message)
    → AllLogged between log latest ms
    → IsLogged between log latest m
    → AllLogged between log latest (ms ++ m ∷ [])
AllLogged-append between log latest [] m h here = (here, tt)
AllLogged-append between log latest (n ∷ ms) m h here =
    (h.0, AllLogged-append between log latest ms m h.1 here)

-- A longer log has the same messages.
IsLogged-later :
    (between : Entries → Entries → Patches) (log log' : ℕ → Entries) (n n' : ℕ) (m : Message)
    → n ≤ n'
    → ((q : ℕ) → q ≤ n → log' q ≡ log q)
    → IsLogged between log n m
    → IsLogged between log' n' m
IsLogged-later between log log' n n' (receive_full_state peer seq values) le same (within, what) =
    (omega (arith, le, within), what ∙ sym (same seq within))
IsLogged-later between log log' n n' (receive_patch_reliable peer base seq patches) le same
      (order, within, what) =
    (
      order,
      omega (arith, le, within),
      what ∙ sym (rw (same base (omega (arith, order, within)), same seq within) refl),
    )
IsLogged-later between log log' n n' (receive_patch peer base seq patches) le same
      (order, within, what) =
    (
      order,
      omega (arith, le, within),
      what ∙ sym (rw (same base (omega (arith, order, within)), same seq within) refl),
    )

AllLogged-later :
    (between : Entries → Entries → Patches) (log log' : ℕ → Entries) (n n' : ℕ) (ms : List Message)
    → n ≤ n'
    → ((q : ℕ) → q ≤ n → log' q ≡ log q)
    → AllLogged between log n ms
    → AllLogged between log' n' ms
AllLogged-later between log log' n n' [] le same h = tt
AllLogged-later between log log' n n' (m ∷ ms) le same h = (
  IsLogged-later between log log' n n' m le same h.0,
  AllLogged-later between log log' n n' ms le same h.1,
)

pub last_state-Fits :
    (between : Entries → Entries → Patches) (log : ℕ → Entries) (r : Server)
    → Fits between log r
    → last_state r ≡ log r.latest_seq
last_state-Fits between log r h = elim (Option-cases (lookup ℕ_discrete r.latest_seq r.history)) [
  | inl n ↦ absurd (ground (arith, h.has_newest, n))
  | inr (es, n) ↦ rw n (sym (h.logged r.latest_seq es n))
]

-- A log may be taken for another with the newest state.
pub extend-same :
    (between : Entries → Entries → Patches) (log log' : ℕ → Entries) (r : Server)
    → Fits between log' r
    → ((q : ℕ) → (q == r.latest_seq) ≡ false → log' q ≡ log q)
    → (q : ℕ) → log' q ≡ extend r log q
unfolding extend
extend-same between log log' r h elsewhere q = elim (Bool-cases (q == r.latest_seq)) [
  | inl e ↦
      let here : q ≡ r.latest_seq = ground (arith, e) in
      rw (e, here) (sym (last_state-Fits between log' r h))
  | inr e ↦ rw e (elsewhere q e)
]

pub settle :
    (between : Entries → Entries → Patches) (log log' : ℕ → Entries) (r : Server)
    → Fits between log' r
    → ((q : ℕ) → (q == r.latest_seq) ≡ false → log' q ≡ log q)
    → Fits between (extend r log) r
settle between log log' r h elsewhere =
    let whole : log' ≡ extend r log = λ i q. extend-same between log log' r h elsewhere q i in
    subst (λ l. Fits between l r) whole h

pub latest-trim_history :
    (s : Settings) (r : Server)
    → lookup ℕ_discrete r.latest_seq (trim_history s r).history
      ≡ lookup ℕ_discrete r.latest_seq r.history
unfolding trim_history
latest-trim_history s r =
    let peers = reached r.latest_seq s.max_history r.peers in
    let n = oldest_needed r.latest_seq peers in
    let low : n ≤ r.latest_seq = latest-oldest_needed r.latest_seq peers in
    ground (arith, lookup-from_seq r.latest_seq n r.history, low)

pub trim_history-Fits :
    (between : Entries → Entries → Patches) (log : ℕ → Entries) (s : Settings) (r : Server)
    → Fits between log r
    → Fits between log (trim_history s r)
unfolding trim_history
trim_history-Fits between log s r h =
    let peers = reached r.latest_seq s.max_history r.peers in
    let n = oldest_needed r.latest_seq peers in
    let low : n ≤ r.latest_seq = latest-oldest_needed r.latest_seq peers in
    record {
      has_newest =
          rw (lookup-from_seq r.latest_seq n r.history) (ground (arith, low, h.has_newest));
      no_later = λ q at. h.no_later q (ground (arith, lookup-from_seq q n r.history, at));
      logged = λ q es at. h.logged q es (ground (arith, lookup-from_seq q n r.history, at));
      all_sent = h.all_sent;
    }

pub recorded-Fits :
    (between : Entries → Entries → Patches) (log : ℕ → Entries) (s : Settings) (r : Server)
    (found : Entries × Bool)
    → Fits between log r
    → Fits between (extend (recorded s r found).0 log) (recorded s r found).0
unfolding recorded trim_history
recorded-Fits between log s r (next, false) h = settle between log log r h (λ q ne. refl)
recorded-Fits between log s r (next, true) h =
    let n = suc r.latest_seq in
    let r1 : Server = record r { latest_seq = n; history = insert ℕ_discrete n next r.history } in
    let log1 : ℕ → Entries = λ q. if q == n then next else log q in
    let fits : Fits between log1 r1 = (record {
      has_newest = rw (lookup-insert ℕ_discrete n n next r.history) (ground arith);
      no_later = λ q at. elim (Bool-cases (q == n)) [
        | inl e ↦ ground (arith, e)
        | inr e ↦
            let old : HasSeq r.history (some q) =
              ground (arith, e, at, lookup-insert ℕ_discrete n q next r.history) in
            omega (arith, h.no_later q old)
      ];
      logged = λ q es at. elim (Bool-cases (q == n)) [
        | inl e ↦
            let what : next ≡ es =
              ground (arith, e, at, lookup-insert ℕ_discrete n q next r.history) in
            rw e what
        | inr e ↦
            let old : lookup ℕ_discrete q r.history ≡ some es =
              ground (arith, e, at, lookup-insert ℕ_discrete n q next r.history) in
            rw e (h.logged q es old)
      ];
      all_sent =
          AllLogged-later between log log1 r.latest_seq n r.sent (omega arith)
            (λ q le. let ne : (q == n) ≡ false = ground (arith, le) in rw ne refl) h.all_sent;
    }) in
    settle between log log1 (trim_history s r1) (trim_history-Fits between log1 s r1 fits)
      (λ q ne. rw ne refl)
