-- ===== src/App/Sessions/Shutdown.antt =====
-- The registry after a shutdown, and the sessions that shutdowns hand out.
use usbip_go.Prelude.{
  ℕ, ◌≡◌, refl, sym, ap, ◌∙◌, inl, inr, Bool, true, false, Option, none, some, List, [], ◌∷◌, ◌==◌,
  if◌then◌else◌, Option-cases, subst, if_rule,
}
use usbip_go.Io.Errors.{Result, err, sentinel, already_shutdown}
use usbip_go.App.Sessions.{
  Session, SessionHandle, Limits, Registry, remove_id, lookup, register_session, unregister_session,
  release_peer, capture_shutdown_state,
}
use usbip_go.App.Sessions.Counts.{true_not_false}
use usbip_go.App.Sessions.Steps.{Step, registers, unregisters, shuts_down}

-- The first list is the second without some of its handles, in the same order.
pub data IsPart : List SessionHandle → List SessionHandle → Type 0 where
  empty : IsPart [] []
  keeps : (h : SessionHandle) (a b : List SessionHandle) → IsPart a b → IsPart (h ∷ a) (h ∷ b)
  skips : (h : SessionHandle) (a b : List SessionHandle) → IsPart a b → IsPart a (h ∷ b)

IsPart-refl : (a : List SessionHandle) → IsPart a a
IsPart-refl [] = empty
IsPart-refl (h ∷ a) = keeps h a a (IsPart-refl a)

IsPart-trans : {a b c : List SessionHandle} → IsPart a b → IsPart b c → IsPart a c
IsPart-trans p empty = p
IsPart-trans p (skips h b c q) = skips h _ c (IsPart-trans p q)
IsPart-trans (keeps _ a _ p) (keeps h b c q) = keeps h a c (IsPart-trans p q)
IsPart-trans (skips _ a _ p) (keeps h b c q) = skips h a c (IsPart-trans p q)

remove_id-IsPart : (id : ℕ) (hs : List SessionHandle) → IsPart (remove_id id hs) hs
remove_id-IsPart id [] = empty
remove_id-IsPart id (x ∷ hs) =
    if_rule (λ l. IsPart l (x ∷ hs)) (x.session.id == id) (remove_id id hs) (x ∷ remove_id id hs)
      (λ q. skips x (remove_id id hs) hs (remove_id-IsPart id hs))
      (λ q. keeps x (remove_id id hs) hs (remove_id-IsPart id hs))

register_session-down :
    (limits : Limits) (r : Registry) (sess : Session) (peer_key : List ℕ)
    → r.shutdown ≡ true
    → register_session limits r sess peer_key ≡ (r, err (sentinel already_shutdown))
unfolding register_session
register_session-down limits r sess peer_key down =
    if_rule (λ (p : Registry × Result SessionHandle). p ≡ (r, err (sentinel already_shutdown)))
      r.shutdown _ _ (λ d. refl) (λ up. absurd (true_not_false (sym down ∙ up)))

-- What a registry after a shutdown keeps from an earlier one.
record IsShrunk (r r' : Registry) : Type 0 where
  down : r'.shutdown ≡ true
  same_handles : r'.shutdown_handles ≡ r.shutdown_handles
  older : IsPart r'.sessions r.sessions

Step-IsShrunk :
    (limits : Limits) {r r' : Registry} → Step limits r r' → r.shutdown ≡ true → IsShrunk r r'
unfolding unregister_session capture_shutdown_state
Step-IsShrunk limits (registers r sess peer_key fresh) down =
    subst (IsShrunk r) (sym (ap (λ p. p.0) (register_session-down limits r sess peer_key down)))
      (record { down = down; same_handles = refl; older = IsPart-refl _ })
Step-IsShrunk limits (unregisters r id) down =
    let P = λ (o : Option SessionHandle). IsShrunk r (elim o [
      | none ↦ r
      | some h ↦ record r {
        sessions = remove_id id r.sessions;
        per_peer = release_peer h.peer_key r.per_peer;
      }
    ]) in
    elim (Option-cases (lookup id r.sessions)) [
      | inl q ↦ subst P (sym q) (record { down = down; same_handles = refl; older = IsPart-refl _ })
      | inr (h, q) ↦
          subst P (sym q)
            (record { down = down; same_handles = refl; older = remove_id-IsPart id r.sessions })
    ]
Step-IsShrunk limits (shuts_down r) down = record {
  down = refl;
  same_handles = rw down refl;
  older = IsPart-refl _;
}

-- A sequence of steps.
pub data Run (limits : Limits) : Registry → Registry → Type 0 where
  stays : (r : Registry) → Run limits r r
  steps : (r r' r'' : Registry) → Step limits r r' → Run limits r' r'' → Run limits r r''

Run-IsShrunk :
    (limits : Limits) {r r' : Registry} → Run limits r r' → r.shutdown ≡ true → IsShrunk r r'
Run-IsShrunk limits (stays r) down = record {
  down = down;
  same_handles = refl;
  older = IsPart-refl _;
}
Run-IsShrunk limits (steps r r' r'' step run) down =
    let one = Step-IsShrunk limits step down in
    let more = Run-IsShrunk limits run one.down in
    record {
      down = more.down;
      same_handles = more.same_handles ∙ one.same_handles;
      older = IsPart-trans more.older one.older;
    }

-- After the first shutdown, whatever steps follow, the registry holds no sessions but some of those it
-- held then; and every further shutdown, also when none of them is left, hands out exactly the
-- sessions that the registry held at the first.
pub capture_shutdown_state-final :
    (limits : Limits) (r r' : Registry)
    → r.shutdown ≡ false
    → Run limits (capture_shutdown_state r).0 r'
    → IsPart r'.sessions r.sessions × ((capture_shutdown_state r').1 ≡ r.sessions)
unfolding capture_shutdown_state
capture_shutdown_state-final limits r r' first run =
    let shrunk = Run-IsShrunk limits run refl in
    let kept = λ (b : Bool). (if b then r'.shutdown_handles else r'.sessions) ≡ r.sessions in
    (shrunk.older, subst kept (sym shrunk.down) (shrunk.same_handles ∙ rw first refl))

-- After a shutdown, whatever steps follow, registering a session fails and leaves the registry as it
-- is.
pub register_session-after_shutdown :
    (limits : Limits) (r r' : Registry) (sess : Session) (peer_key : List ℕ)
    → Run limits (capture_shutdown_state r).0 r'
    → register_session limits r' sess peer_key ≡ (r', err (sentinel already_shutdown))
unfolding capture_shutdown_state
register_session-after_shutdown limits r r' sess peer_key run =
    register_session-down limits r' sess peer_key (Run-IsShrunk limits run refl).down
