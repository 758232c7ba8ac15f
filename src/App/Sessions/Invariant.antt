-- ===== src/App/Sessions/Invariant.antt =====
-- The registry's invariant, kept by every operation.
use usbip_go.Prelude.{
  ℕ, suc, ◌-◌, ◌≤◌, ◌≡◌, refl, sym, ap, ◌∙◌, inl, inr, ◌⊎◌, false, Option, none, some, List, ◌∷◌,
  if◌then◌else◌, Bool-cases, Option-cases, arith, subst, length, if_rule,
}
use usbip_go.Io.Errors.{Result}
use usbip_go.Kernel.Text.{text_eq}
use usbip_go.App.Sessions.{
  Session, SessionHandle, Limits, Registry, new_registry, remove_id, lookup, get_count, set_count,
  is_bus_id_taken, is_over, register_session, unregister_session, release_peer,
  capture_shutdown_state,
}
use usbip_go.Kernel.Text.Equality.{text_eq→eq}
use usbip_go.App.Sessions.Counts.{count_peer, get_count-set_count, get_count-release_peer}
use usbip_go.App.Sessions.Removal.{
  HasDistinctIds, HasDistinctBusIds, remove_id-absent, remove_id-HasDistinctIds,
  remove_id-HasDistinctBusIds, length-remove_id, count_peer-remove_le, count_peer-remove_id,
}

-- A limit of zero, or a number within it.
abbrev pub IsWithin : ℕ → ℕ → Type 0
IsWithin limit n = (limit ≡ 0) ⊎ (n ≤ limit)

pub record IsConsistent (limits : Limits) (r : Registry) : Type 0 where
  pub distinct_ids : HasDistinctIds r.sessions
  pub distinct_bus_ids : HasDistinctBusIds r.sessions
  pub counted : (key : List ℕ) → get_count r.per_peer key ≡ count_peer key r.sessions
  pub within_sessions : IsWithin limits.max_sessions (length r.sessions)
  pub within_peer :
      (key : List ℕ) → IsWithin limits.max_sessions_per_peer (count_peer key r.sessions)

pub new_registry-IsConsistent : (limits : Limits) → IsConsistent limits new_registry
unfolding count_peer
new_registry-IsConsistent limits = record {
  distinct_ids = tt;
  distinct_bus_ids = tt;
  counted = λ key. refl;
  within_sessions = inr (omega arith);
  within_peer = λ key. inr (omega arith);
}

IsWithin-next : (limit n : ℕ) → is_over limit n ≡ false → IsWithin limit (suc n)
IsWithin-next limit n h = ground arith

IsWithin-less : (limit m n : ℕ) → m ≤ n → IsWithin limit n → IsWithin limit m
IsWithin-less limit m n le (inl z) = inl z
IsWithin-less limit m n le (inr h) = inr (omega arith)

-- The counts that match the sessions, after one session more and after one less.
abbrev Counted : List (List ℕ × ℕ) → List SessionHandle → Type 0
Counted counts hs = (key : List ℕ) → get_count counts key ≡ count_peer key hs

Counted-next :
    (h : SessionHandle) (key : List ℕ) (hs : List SessionHandle) (counts : List (List ℕ × ℕ))
    → Counted counts hs
    → (if text_eq h.peer_key key then suc (get_count counts h.peer_key) else get_count counts key)
      ≡ (if text_eq h.peer_key key then suc (count_peer key hs) else count_peer key hs)
Counted-next h key hs counts c = elim (Bool-cases (text_eq h.peer_key key)) [
  | inl q ↦ rw q (ap suc (ap (get_count counts) (text_eq→eq h.peer_key key q) ∙ c key))
  | inr q ↦ rw q (c key)
]

Counted-less :
    (h : SessionHandle) (id : ℕ) (key : List ℕ) (hs : List SessionHandle)
    (counts : List (List ℕ × ℕ))
    → Counted counts hs
    → HasDistinctIds hs
    → lookup id hs ≡ some h
    → (if text_eq h.peer_key key then get_count counts h.peer_key - 1 else get_count counts key)
      ≡ count_peer key (remove_id id hs)
Counted-less h id key hs counts c d e =
    let removed = count_peer-remove_id key id hs d e in
    let at = c key in
    elim (Bool-cases (text_eq h.peer_key key)) [
      | inl q ↦
          let same = ap (get_count counts) (text_eq→eq h.peer_key key q) in rw q (ground arith)
      | inr q ↦ rw q (ground arith)
    ]

IsWithin-peer_next :
    (limits : Limits) (h : SessionHandle) (key : List ℕ) (hs : List SessionHandle)
    (counts : List (List ℕ × ℕ))
    → Counted counts hs
    → is_over limits.max_sessions_per_peer (get_count counts h.peer_key) ≡ false
    → IsWithin limits.max_sessions_per_peer (count_peer key hs)
    → IsWithin limits.max_sessions_per_peer
        (if text_eq h.peer_key key then suc (count_peer key hs) else count_peer key hs)
IsWithin-peer_next limits h key hs counts c room old = elim (Bool-cases (text_eq h.peer_key key)) [
  | inl q ↦
      let same = ap (get_count counts) (text_eq→eq h.peer_key key q) ∙ c key in
      rw q (
        IsWithin-next limits.max_sessions_per_peer (count_peer key hs)
          (subst (λ n. is_over limits.max_sessions_per_peer n ≡ false) same room))
  | inr q ↦ rw q old
]

-- The registry after a registration whose checks passed.
registered-IsConsistent :
    (limits : Limits) (r : Registry) (h : SessionHandle)
    → lookup h.session.id r.sessions ≡ none
    → is_over limits.max_sessions (length r.sessions) ≡ false
    → is_over limits.max_sessions_per_peer (get_count r.per_peer h.peer_key) ≡ false
    → is_bus_id_taken h.session.bus_id r.sessions ≡ false
    → IsConsistent limits r
    → IsConsistent limits (record r {
      sessions = h ∷ remove_id h.session.id r.sessions;
      per_peer = set_count h.peer_key (suc (get_count r.per_peer h.peer_key)) r.per_peer;
    })
unfolding count_peer
registered-IsConsistent limits r h fresh room peer_room free c =
    let same = remove_id-absent h.session.id r.sessions fresh in
    let own = c.counted h.peer_key in
    rw same (record {
      distinct_ids = (fresh, c.distinct_ids);
      distinct_bus_ids = (free, c.distinct_bus_ids);
      counted = λ key.
          get_count-set_count h.peer_key key _ r.per_peer
          ∙ Counted-next h key r.sessions r.per_peer c.counted;
      within_sessions = IsWithin-next limits.max_sessions (length r.sessions) room;
      within_peer = λ key.
          IsWithin-peer_next limits h key r.sessions r.per_peer c.counted peer_room
            (c.within_peer key);
    })

-- Registering a session with an id that the registry does not hold keeps the invariant, whether the
-- session is accepted or not.
pub register_session-IsConsistent :
    (limits : Limits) (r : Registry) (sess : Session) (peer_key : List ℕ)
    → lookup sess.id r.sessions ≡ none
    → IsConsistent limits r
    → IsConsistent limits (register_session limits r sess peer_key).0
unfolding register_session
register_session-IsConsistent limits r sess peer_key fresh c =
    let h : SessionHandle = record { session = sess; peer_key = peer_key } in
    let P = λ (p : Registry × Result SessionHandle). IsConsistent limits p.0 in
    if_rule P r.shutdown _ _ (λ down. c)
      (λ up.
        if_rule P (is_over limits.max_sessions (length r.sessions)) _ _ (λ full. c)
          (λ room.
            if_rule P (is_over limits.max_sessions_per_peer (get_count r.per_peer peer_key)) _ _
              (λ full. c)
              (λ peer_room.
                if_rule P (is_bus_id_taken sess.bus_id r.sessions) _ _ (λ taken. c)
                  (λ free. registered-IsConsistent limits r h fresh room peer_room free c))))

unregistered-IsConsistent :
    (limits : Limits) (r : Registry) (id : ℕ) (h : SessionHandle)
    → lookup id r.sessions ≡ some h
    → IsConsistent limits r
    → IsConsistent limits (record r {
      sessions = remove_id id r.sessions;
      per_peer = release_peer h.peer_key r.per_peer;
    })
unregistered-IsConsistent limits r id h q c = record {
  distinct_ids = remove_id-HasDistinctIds id r.sessions c.distinct_ids;
  distinct_bus_ids = remove_id-HasDistinctBusIds id r.sessions c.distinct_bus_ids;
  counted = λ key.
      get_count-release_peer h.peer_key key r.per_peer
      ∙ Counted-less h id key r.sessions r.per_peer c.counted c.distinct_ids q;
  within_sessions =
      IsWithin-less limits.max_sessions _ _ (length-remove_id id r.sessions) c.within_sessions;
  within_peer = λ key.
      IsWithin-less limits.max_sessions_per_peer _ _ (count_peer-remove_le key id r.sessions)
        (c.within_peer key);
}

-- Unregistering any id keeps the invariant.
pub unregister_session-IsConsistent :
    (limits : Limits) (r : Registry) (id : ℕ)
    → IsConsistent limits r
    → IsConsistent limits (unregister_session r id)
unfolding unregister_session
unregister_session-IsConsistent limits r id c =
    let P = λ (o : Option SessionHandle). IsConsistent limits (elim o [
      | none ↦ r
      | some h ↦ record r {
        sessions = remove_id id r.sessions;
        per_peer = release_peer h.peer_key r.per_peer;
      }
    ]) in
    elim (Option-cases (lookup id r.sessions)) [
      | inl q ↦ subst P (sym q) c
      | inr (h, q) ↦ subst P (sym q) (unregistered-IsConsistent limits r id h q c)
    ]

pub capture_shutdown_state-IsConsistent :
    (limits : Limits) (r : Registry)
    → IsConsistent limits r
    → IsConsistent limits (capture_shutdown_state r).0
unfolding capture_shutdown_state
capture_shutdown_state-IsConsistent limits r c = record {
  distinct_ids = c.distinct_ids;
  distinct_bus_ids = c.distinct_bus_ids;
  counted = c.counted;
  within_sessions = c.within_sessions;
  within_peer = c.within_peer;
}
