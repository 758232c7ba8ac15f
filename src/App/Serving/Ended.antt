-- ===== src/App/Serving/Ended.antt =====
-- What endSession leaves behind.
use usbip_go.Prelude.{
  ℕ, ◌≡◌, refl, sym, ap, inl, inr, true, Option, none, some, List, [], ◌∷◌, ◌==◌, Bool-cases,
  Option-cases, subst, arith,
}
use usbip_go.App.Sessions.{
  Session, SessionHandle, Registry, unregister_session, lookup, remove_id, release_peer,
}
use usbip_go.App.Handoff.{
  Handle, complete_without_disconnect, complete_without_disconnect_locked, claim_cleanup_locked,
}
use usbip_go.App.Watch.{DisconnectReason}
use usbip_go.App.Serving.{Host, Effect, session_ended, Serving, end_session}

remove_id-lookup : (id : ℕ) (hs : List SessionHandle) → lookup id (remove_id id hs) ≡ none
remove_id-lookup id [] = refl
remove_id-lookup id (h ∷ hs) = elim (Bool-cases (h.session.id == id)) [
  | inl q ↦ rw q (remove_id-lookup id hs)
  | inr q ↦ rw q (rw q (remove_id-lookup id hs))
]

unregister_session-lookup :
    (r : Registry) (id : ℕ) → lookup id (unregister_session r id).sessions ≡ none
unfolding unregister_session
unregister_session-lookup r id =
    let next : Option SessionHandle → Registry = λ o. elim o [
      | none ↦ r
      | some h ↦ record r {
        sessions = remove_id id r.sessions;
        per_peer = release_peer h.peer_key r.per_peer;
      }
    ] in
    elim (Option-cases (lookup id r.sessions)) [
      | inl q ↦ subst (λ o. lookup id (next o).sessions ≡ none) (sym q) q
      | inr (h, q) ↦
          subst (λ o. lookup id (next o).sessions ≡ none) (sym q) (remove_id-lookup id r.sessions)
    ]

complete-claimed : (h : Handle) → (complete_without_disconnect h).0.cleanup_claimed ≡ true
unfolding complete_without_disconnect complete_without_disconnect_locked claim_cleanup_locked
complete-claimed h = ground arith

-- Behind the effects of `base`, the session was ended with a reason, it is not in the registry any
-- more, and its cleanup is claimed.
pub record IsEnded (sess : Session) (base : List Effect) (s' : Serving) : Type 0 where
  pub reason : DisconnectReason
  pub effects : s'.effects ≡ session_ended sess reason ∷ base
  pub unregistered : lookup sess.id s'.registry.sessions ≡ none
  pub claimed : s'.handle.cleanup_claimed ≡ true

pub end_session-IsEnded :
    (host : Host) (sess : Session) (reason : DisconnectReason) (s : Serving) {base : List Effect}
    → s.effects ≡ base
    → IsEnded sess base (end_session host sess reason s)
unfolding end_session
end_session-IsEnded host sess reason s e = record {
  reason = reason;
  effects = ap (λ b. session_ended sess reason ∷ b) e;
  unregistered = unregister_session-lookup (host.others s.registry) sess.id;
  claimed = complete-claimed s.handle;
}
