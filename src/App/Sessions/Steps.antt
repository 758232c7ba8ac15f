-- ===== src/App/Sessions/Steps.antt =====
-- The registry under every interleaving of its operations.
use usbip_go.Prelude.{ℕ, ◌≡◌, none, List}
use usbip_go.App.Sessions.{
  Session, Limits, Registry, new_registry, lookup, register_session, unregister_session,
  capture_shutdown_state,
}
use usbip_go.App.Sessions.Invariant.{
  IsConsistent, new_registry-IsConsistent, register_session-IsConsistent,
  unregister_session-IsConsistent, capture_shutdown_state-IsConsistent,
}

-- One step of the registry: a registration under a new id, the end of a session, or a shutdown.
pub data Step (limits : Limits) : Registry → Registry → Type 0 where
  registers :
      (r : Registry) (sess : Session) (peer_key : List ℕ)
      → lookup sess.id r.sessions ≡ none
      → Step limits r (register_session limits r sess peer_key).0
  unregisters : (r : Registry) (id : ℕ) → Step limits r (unregister_session r id)
  shuts_down : (r : Registry) → Step limits r (capture_shutdown_state r).0

Step-IsConsistent :
    (limits : Limits) {r r' : Registry}
    → Step limits r r'
    → IsConsistent limits r
    → IsConsistent limits r'
Step-IsConsistent limits (registers r sess peer_key fresh) c =
    register_session-IsConsistent limits r sess peer_key fresh c
Step-IsConsistent limits (unregisters r id) c = unregister_session-IsConsistent limits r id c
Step-IsConsistent limits (shuts_down r) c = capture_shutdown_state-IsConsistent limits r c

-- The registries that some interleaving of steps leads to.
pub data IsReachable (limits : Limits) : Registry → Type 0 where
  begins : IsReachable limits new_registry
  continues : (r r' : Registry) → IsReachable limits r → Step limits r r' → IsReachable limits r'

-- In every interleaving of registrations under new ids, ends of sessions and shutdowns no two
-- sessions share an id or a bus id, the count of each peer is the number of its sessions, and the
-- number of all sessions and that of each peer are within their limits.
pub IsReachable-IsConsistent :
    (limits : Limits) {r : Registry} → IsReachable limits r → IsConsistent limits r
IsReachable-IsConsistent limits begins = new_registry-IsConsistent limits
IsReachable-IsConsistent limits (continues r r' h step) =
    Step-IsConsistent limits step (IsReachable-IsConsistent limits h)
