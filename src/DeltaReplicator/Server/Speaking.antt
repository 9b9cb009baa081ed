-- ===== src/DeltaReplicator/Server/Speaking.antt =====
-- What the calls of the server send is in the log.
use gfgdextension.Common.{
  ℕ, suc, ◌+◌, ◌≤◌, ◌≡◌, refl, List, [], ◌∷◌, ◌++◌, Option, none, some, Bool, false, ◌&&◌,
  if◌then◌else◌, if_holds, ltb, lookup, ℕ_discrete, subst, Option-cases, inl, inr, arith,
}
use gfgdextension.DeltaReplicator.Values.{Engine, Variant, Entries}
use gfgdextension.DeltaReplicator.Patches.{Patch, Patches}
use gfgdextension.DeltaReplicator.Server.{
  PeerState, Settings, Message, receive_full_state, receive_patch, receive_patch_reliable, Server,
  Surroundings, is_seq, is_acknowledged,
}
use gfgdextension.DeltaReplicator.Server.Trimming.{HasSeq}
use gfgdextension.DeltaReplicator.Server.Recording.{
  record_state, record_each, last_state, count_skipped,
}
use gfgdextension.DeltaReplicator.Server.Sending.{
  patches_between, build_patches, is_due, confirmed, with_seq, confirmed_in, peer_may_receive,
  send_full_state, send_patch, after_send, send_to_peer, visit_peer, send_each, any_gone, send_all,
}
use gfgdextension.DeltaReplicator.Server.Logging.{
  IsLogged, Fits, extend, AllLogged-append, last_state-Fits, settle, trim_history-Fits,
  recorded-Fits,
}

with_seq_lem :
    (a base : ℕ) (o : Option Entries) (from : Entries)
    → with_seq a o ≡ some (base, from)
    → (a ≡ base) × (o ≡ some from)
with_seq_lem a base none from h = absurd (ground (arith, h))
with_seq_lem a base (some es) from h = (ground (arith, h), ground (arith, h))

confirmed_in_lem :
    (history : List (ℕ × Entries)) (acked : Option ℕ) (base : ℕ) (from : Entries)
    → confirmed_in history acked ≡ some (base, from)
    → lookup ℕ_discrete base history ≡ some from
confirmed_in_lem history none base from h = absurd (ground (arith, h))
confirmed_in_lem history (some a) base from h =
    let (here, found) = with_seq_lem a base (lookup ℕ_discrete a history) from h in
    rw (← here) found

confirmed_lem :
    (r : Server) (st : PeerState) (base : ℕ) (from : Entries)
    → confirmed r st ≡ some (base, from)
    → lookup ℕ_discrete base r.history ≡ some from
unfolding confirmed
confirmed_lem r st base from h = confirmed_in_lem r.history st.acked base from h

-- A server that has the numbers and the history of another, and sent a message more or none.
said_more :
    (between : Entries → Entries → Patches) (log : ℕ → Entries) (r r' : Server) (m : Message)
    → r'.latest_seq ≡ r.latest_seq
    → r'.history ≡ r.history
    → r'.sent ≡ r.sent ++ m ∷ []
    → IsLogged between log r.latest_seq m
    → Fits between log r
    → Fits between log r'
said_more between log r r' m latest history sent here h = record {
  has_newest = rw (latest, history) h.has_newest;
  no_later = λ q at. rw latest (h.no_later q (subst (λ x. HasSeq x (some q)) history at));
  logged = λ q es at. h.logged q es (subst (λ x. lookup ℕ_discrete q x ≡ some es) history at);
  all_sent = rw (latest, sent) (AllLogged-append between log r.latest_seq r.sent m h.all_sent here);
}

pub said_nothing :
    (between : Entries → Entries → Patches) (log : ℕ → Entries) (r r' : Server)
    → r'.latest_seq ≡ r.latest_seq
    → r'.history ≡ r.history
    → r'.sent ≡ r.sent
    → Fits between log r
    → Fits between log r'
said_nothing between log r r' latest history sent h = record {
  has_newest = rw (latest, history) h.has_newest;
  no_later = λ q at. rw latest (h.no_later q (subst (λ x. HasSeq x (some q)) history at));
  logged = λ q es at. h.logged q es (subst (λ x. lookup ℕ_discrete q x ≡ some es) history at);
  all_sent = rw (latest, sent) h.all_sent;
}

module _ (engine : Engine) (is_smaller : Patch → Variant → Bool) (patches_bytes : Patches → ℕ)
    (values_bytes : Entries → ℕ) where
  send_patch-Fits :
      (s : Settings) (near : Surroundings) (log : ℕ → Entries) (peer base : ℕ) (from : Entries)
      (st : PeerState) (r : Server)
      → lookup ℕ_discrete base r.history ≡ some from
      → Fits (patches_between engine is_smaller s) log r
      → Fits
          (patches_between engine is_smaller s)
          log
          (send_patch engine is_smaller patches_bytes values_bytes s near peer base st r).0
  unfolding send_patch build_patches
  send_patch-Fits s near log peer base from st r there h =
      let between = patches_between engine is_smaller s in
      let patches = build_patches engine is_smaller s r base r.latest_seq in
      let latest_is : last_state r ≡ log r.latest_seq = last_state-Fits between log r h in
      let base_is : log base ≡ from = h.logged base from there in
      let order : base ≤ r.latest_seq = h.no_later base (rw there refl) in
      let what : patches ≡ between (log base) (log r.latest_seq) =
        rw (there, base_is, ← latest_is) refl in
      let last : r.latest_seq ≤ r.latest_seq = omega arith in
      if_holds (λ (x : Server × PeerState). Fits between log x.0)
        (is_acknowledged s.delivery && ltb s.max_unreliable_bytes (patches_bytes patches)) _ _
        (λ big.
          said_more between log r _ (receive_patch_reliable peer base r.latest_seq patches) refl
            refl refl (order, last, what) h)
        (λ small.
          if_holds (Fits between log) (is_acknowledged s.delivery && near.debug_drop peer) _ _
            (λ dropped. said_nothing between log r _ refl refl refl h)
            (λ sent.
              said_more between log r _ (receive_patch peer base r.latest_seq patches) refl refl
                refl (order, last, what) h))

  pub send_to_peer-Fits :
      (s : Settings) (near : Surroundings) (log : ℕ → Entries) (peer : ℕ) (force : Bool)
      (st : PeerState) (r : Server)
      → Fits (patches_between engine is_smaller s) log r
      → Fits
          (patches_between engine is_smaller s)
          log
          (send_to_peer engine is_smaller patches_bytes values_bytes s near peer force st r).0
  unfolding send_to_peer after_send send_full_state
  send_to_peer-Fits s near log peer force st r h =
      let between = patches_between engine is_smaller s in
      let r1 : Server = record r {
        resends = if is_seq st.last_sent r.latest_seq then suc r.resends else r.resends;
      } in
      let h1 : Fits between log r1 = said_nothing between log r r1 refl refl refl h in
      if_holds (λ (x : Server × PeerState). Fits between log x.0) (is_due s r force st) _ _
        (λ due. elim (Option-cases (confirmed r st)) [
          | inl n ↦ rw n (
              said_more between log r1 _ (receive_full_state peer r.latest_seq (last_state r)) refl
                refl refl (omega arith, last_state-Fits between log r h) h1)
          | inr ((base, from), n) ↦
              rw n (
                send_patch-Fits s near log peer base from st r1 (confirmed_lem r st base from n) h1)
        ])
        (λ other. h)

  send_each-Fits :
      (s : Settings) (near : Surroundings) (log : ℕ → Entries) (force : Bool)
      (peers : List (ℕ × PeerState)) (r : Server)
      → Fits (patches_between engine is_smaller s) log r
      → Fits
          (patches_between engine is_smaller s)
          log
          (send_each engine is_smaller patches_bytes values_bytes s near force peers r).0
  unfolding send_each visit_peer
  send_each-Fits s near log force [] r h = h
  send_each-Fits s near log force ((peer, st) ∷ peers) r h =
      send_each-Fits s near log force peers
        (visit_peer engine is_smaller patches_bytes values_bytes s near force peer st r).0
        (if_holds (λ (x : Server × PeerState). Fits (patches_between engine is_smaller s) log x.0)
          (near.is_connected peer && peer_may_receive s near peer) _ _
          (λ may. send_to_peer-Fits s near log peer force st r h) (λ other. h))

  pub send_all-Fits :
      (s : Settings) (near : Surroundings) (log : ℕ → Entries) (force : Bool) (r : Server)
      → Fits (patches_between engine is_smaller s) log r
      → Fits
          (patches_between engine is_smaller s)
          log
          (send_all engine is_smaller patches_bytes values_bytes s near force r)
  unfolding send_all
  send_all-Fits s near log force r h =
      let between = patches_between engine is_smaller s in
      let sent : Server × List (ℕ × PeerState) =
        send_each engine is_smaller patches_bytes values_bytes s near force r.peers r in
      let r2 : Server = record sent.0 { peers = sent.1 } in
      let fits : Fits between log r2 =
        said_nothing between log sent.0 r2 refl refl refl
          (send_each-Fits s near log force r.peers r h) in
      if_holds (Fits between log) (any_gone near r.peers) _ _
        (λ gone. trim_history-Fits between log s r2 fits) (λ all. fits)

  pub record_state-Fits :
      (s : Settings) (near : Surroundings) (log : ℕ → Entries) (validate : Bool) (r : Server)
      → Fits (patches_between engine is_smaller s) log r
      → let r' = (record_state engine s near validate r).0 in
        Fits (patches_between engine is_smaller s) (extend r' log) r'
  unfolding record_state
  record_state-Fits s near log validate r h =
      let between = patches_between engine is_smaller s in
      let r1 : Server = (record r {
        dirty_properties = [];
        dirty_elements = [];
        comparisons_skipped = r.comparisons_skipped + count_skipped s r validate s.properties;
      }) in
      if_holds (λ (x : Server × Bool). Fits between (extend x.0 log) x.0) near.has_root _ _
        (λ root.
          recorded-Fits between log s r1
            (record_each engine s r validate near.current (last_state r) s.properties (last_state r)
              false)
            (said_nothing between log r r1 refl refl refl h))
        (λ other. settle between log log r h (λ q ne. refl))
