-- ===== src/App/Sessions.antt =====
-- internal/app/exporter.go: the registry of sessions, with its limits and its shutdown. Every function
-- here runs under the exporter's mutex, so that it is one step.
pub mod Counts
pub mod Removal
pub mod Invariant
pub mod Steps
pub mod Shutdown
use usbip_go.Prelude.{
  ℕ, zero, suc, ◌+◌, ◌-◌, Bool, true, false, not, ◌&&◌, ◌||◌, Option, none, some, List, [], ◌∷◌,
  length, leb, ltb, ◌==◌, if◌then◌else◌,
}
use usbip_go.Io.Errors.{
  Error, Result, ok, err, wrap, sentinel, already_shutdown, device_already_bound,
  max_sessions_exceeded, per_peer_limit_exceeded,
}
use usbip_go.Kernel.Text.{text_eq}

-- domain.Session, as far as the registry reads it; the 16 bytes of an id are one number.
pub record Session : Type 0 where
  pub id : ℕ
  pub bus_id : List ℕ

-- sessionHandle, as far as the registry writes it.
pub record SessionHandle : Type 0 where
  pub session : Session
  pub peer_key : List ℕ

-- exporterConfig's two limits; zero or less is no limit.
pub record Limits : Type 0 where
  pub max_sessions : ℕ
  pub max_sessions_per_peer : ℕ

-- The map from ids to handles, and the one from peers to counts.
abbrev pub remove_id : ℕ → List SessionHandle → List SessionHandle
remove_id id [] = []
remove_id id (h ∷ hs) = let rest = remove_id id hs in if h.session.id == id then rest else h ∷ rest

abbrev pub lookup : ℕ → List SessionHandle → Option SessionHandle
lookup id [] = none
lookup id (h ∷ hs) = let rest = lookup id hs in if h.session.id == id then some h else rest

abbrev pub delete_count : List ℕ → List (List ℕ × ℕ) → List (List ℕ × ℕ)
delete_count key [] = []
delete_count key ((k, n) ∷ counts) =
    let rest = delete_count key counts in if text_eq key k then rest else (k, n) ∷ rest

-- `perPeer[key]`, which is zero for a key that is not there.
abbrev pub get_count : List (List ℕ × ℕ) → List ℕ → ℕ
get_count [] key = 0
get_count ((k, n) ∷ counts) key =
    let rest = get_count counts key in if text_eq k key then n else rest

abbrev pub set_count : List ℕ → ℕ → List (List ℕ × ℕ) → List (List ℕ × ℕ)
set_count key n counts = (key, n) ∷ delete_count key counts

-- Exporter, as far as these operations use it.
pub record Registry : Type 0 where
  pub shutdown : Bool
  pub sessions : List SessionHandle
  pub per_peer : List (List ℕ × ℕ)
  pub shutdown_handles : List SessionHandle

-- NewExporter's registry.
abbrev pub new_registry : Registry
new_registry = record { shutdown = false; sessions = []; per_peer = []; shutdown_handles = [] }

-- `for _, existing := range e.sessions` of registerSession.
unfoldable pub is_bus_id_taken : List ℕ → List SessionHandle → Bool
is_bus_id_taken bus_id [] = false
is_bus_id_taken bus_id (h ∷ hs) = text_eq h.session.bus_id bus_id || is_bus_id_taken bus_id hs

abbrev pub is_over : ℕ → ℕ → Bool
is_over limit n = ltb 0 limit && leb limit n

-- registerSession.
unfoldable pub register_session :
    Limits → Registry → Session → List ℕ → Registry × Result SessionHandle
register_session limits r sess peer_key =
    let h : SessionHandle = record { session = sess; peer_key = peer_key } in
    if r.shutdown
    then (r, err (sentinel already_shutdown))
    else if is_over limits.max_sessions (length r.sessions)
    then (r, err (sentinel max_sessions_exceeded))
    else if is_over limits.max_sessions_per_peer (get_count r.per_peer peer_key)
    then (r, err (sentinel per_peer_limit_exceeded))
    else if is_bus_id_taken sess.bus_id r.sessions
    then (r, err (wrap (sentinel device_already_bound)))
    else (
      record r {
        sessions = h ∷ remove_id sess.id r.sessions;
        per_peer = set_count peer_key (suc (get_count r.per_peer peer_key)) r.per_peer;
      },
      ok h,
    )

-- The two statements on perPeer of unregisterSession.
unfoldable pub release_peer : List ℕ → List (List ℕ × ℕ) → List (List ℕ × ℕ)
release_peer key counts =
    let n = get_count counts key in
    let lowered = if ltb 0 n then set_count key (n - 1) counts else counts in
    if get_count lowered key == 0 then delete_count key lowered else lowered

-- unregisterSession.
unfoldable pub unregister_session : Registry → ℕ → Registry
unregister_session r id = elim (lookup id r.sessions) [
  | none ↦ r
  | some h ↦ record r {
    sessions = remove_id id r.sessions;
    per_peer = release_peer h.peer_key r.per_peer;
  }
]

-- captureShutdownState, as far as it concerns sessions: the registry and the handles to end.
unfoldable pub capture_shutdown_state : Registry → Registry × List SessionHandle
capture_shutdown_state r =
    let handles = if r.shutdown then r.shutdown_handles else r.sessions in
    (record r { shutdown = true; shutdown_handles = handles }, handles)
