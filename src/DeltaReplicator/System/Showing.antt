-- ===== src/DeltaReplicator/System/Showing.antt =====
-- What a client shows of a server that ran.
use gfgdextension.Common.{ℕ, ◌≡◌, List, [], ◌∷◌, some, Bool, true, inl, inr, Has}
use gfgdextension.DeltaReplicator.Values.{
  Engine, Variant, Entries, find, or_nil, has_key, ComparesContents, ComparesContents, Schema,
  Conforms, Same,
}
use gfgdextension.DeltaReplicator.Patches.{Patch, Patches}
use gfgdextension.DeltaReplicator.Server.{
  Settings, Message, receive_full_state, receive_patch, receive_patch_reliable, Server,
  Surroundings,
}
use gfgdextension.DeltaReplicator.Server.Recording.{last_state}
use gfgdextension.DeltaReplicator.Server.Sending.{patches_between}
use gfgdextension.DeltaReplicator.Server.Running.{Call, ready, run}
use gfgdextension.DeltaReplicator.Server.Logging.{IsLogged, AllLogged, last_state-Fits}
use gfgdextension.DeltaReplicator.Client.{new_client}
use gfgdextension.DeltaReplicator.Client.Converging.{
  IsGenuine, AllGenuine, deliver_all, deliver_all-shown,
}
use gfgdextension.DeltaReplicator.System.Telling.{AllFormed, IsTold}
use gfgdextension.DeltaReplicator.System.Arriving.{log_of, run-IsTold, ready-IsTold}

-- Messages that were sent, in any order and any number of times.
abbrev pub AllFrom : List Message → List (Bool × Message) → Type 0
AllFrom sent [] = Unit
AllFrom sent ((dropped, m) ∷ ms) = Has m sent × AllFrom sent ms

found-IsLogged :
    (between : Entries → Entries → Patches) (log : ℕ → Entries) (n : ℕ) (m : Message)
    (sent : List Message)
    → AllLogged between log n sent
    → Has m sent
    → IsLogged between log n m
found-IsLogged between log n m [] h at = absurd at
found-IsLogged between log n m (x ∷ sent) h (inl e) = rw e h.0
found-IsLogged between log n m (x ∷ sent) h (inr later) =
    found-IsLogged between log n m sent h.1 later

logged-IsGenuine :
    (between : Entries → Entries → Patches) (log : ℕ → Entries) (n : ℕ) (m : Message)
    → IsLogged between log n m
    → IsGenuine between log m
logged-IsGenuine between log n (receive_full_state peer seq values) (within, what) = what
logged-IsGenuine between log n (receive_patch_reliable peer base seq patches)
      (order, within, what) =
    (order, what)
logged-IsGenuine between log n (receive_patch peer base seq patches) (order, within, what) =
    (order, what)

from-AllGenuine :
    (between : Entries → Entries → Patches) (log : ℕ → Entries) (n : ℕ) (sent : List Message)
    (ms : List (Bool × Message))
    → AllLogged between log n sent
    → AllFrom sent ms
    → AllGenuine between log ms
from-AllGenuine between log n sent [] h from = tt
from-AllGenuine between log n sent ((dropped, m) ∷ ms) h from = (
  logged-IsGenuine between log n m (found-IsLogged between log n m sent h from.0),
  from-AllGenuine between log n sent ms h from.1,
)

module _ (engine : Engine) (is_smaller : Patch → Variant → Bool) (patches_bytes : Patches → ℕ)
    (values_bytes : Entries → ℕ) (compares : ComparesContents engine) (σ : Schema) where
  -- A server gets any calls after `_ready`, and of the messages that it sent, whichever reach a new client,
  -- in any order and any number of times: each property that the client shows with state `n` equals the
  -- server's in that state, and the log's newest state is the server's. The server has its root node when
  -- it is ready and the client while messages arrive; the values of the server's node
  -- are of the kinds of their properties, so that containers in one place keep their element types and
  -- the keys of dictionaries are distinct; and the engine's `==` holds only for the same contents.
  pub run-shown :
      (s : Settings) (near : Surroundings) (cs : List Call) (messages : List (Bool × Message))
      (shown : ℕ → Variant) (n name : ℕ)
      → near.has_root ≡ true
      → ((k : ℕ) → Conforms σ (σ.property_kind k) (near.current k))
      → AllFormed σ cs
      → AllFrom (run engine is_smaller patches_bytes values_bytes s cs (ready s near)).sent messages
      → (deliver_all engine s messages (new_client shown)).client_seq ≡ some n
      → has_key name s.properties ≡ true
      → let r = run engine is_smaller patches_bytes values_bytes s cs (ready s near) in
        let log =
          log_of engine is_smaller patches_bytes values_bytes s cs
            (ready s near)
            (λ q. last_state (ready s near)) in
        Same
          ((deliver_all engine s messages (new_client shown)).shown name)
          (or_nil (find name (log n)))
        × (last_state r ≡ log r.latest_seq)
  run-shown s near cs messages shown n name root formed all_formed from at inside =
      let between = patches_between engine is_smaller s in
      let r : Server = run engine is_smaller patches_bytes values_bytes s cs (ready s near) in
      let start : ℕ → Entries = λ q. last_state (ready s near) in
      let log : ℕ → Entries =
        log_of engine is_smaller patches_bytes values_bytes s cs (ready s near) start in
      let told : IsTold σ between s log r =
        run-IsTold σ engine is_smaller patches_bytes values_bytes s cs (ready s near) start
          all_formed
          (ready-IsTold σ engine is_smaller patches_bytes values_bytes s near root formed) in
      (
        deliver_all-shown engine is_smaller compares σ s log messages shown n name told.complete
            (from-AllGenuine between log r.latest_seq r.sent messages told.fits.all_sent from) at
            inside,
        last_state-Fits between log r told.fits,
      )
