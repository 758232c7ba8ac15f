-- ===== src/App/Watch/Ending.antt =====
-- When the wait ends, and on what evidence.
use usbip_go.Prelude.{
  ℕ, ◌≡◌, refl, sym, inl, inr, ◌⊎◌, Bool, true, false, Option, some, List, [], ◌∷◌, if◌then◌else◌,
  Any, subst, arith, ap,
}
use usbip_go.Io.Errors.{Result, ok, err}
use usbip_go.App.Handoff.{
  Handle, complete_without_disconnect, signal_cancel, HandoffState, succeeded, not_started, failed,
  in_progress, signal_by_state, claim_cleanup_locked, complete_without_disconnect_locked,
}
use usbip_go.Kernel.Text.Equality.{text_eq→eq}
use usbip_go.App.Watch.{
  Event, device_unbound, port_detached, other_event, DisconnectReason, client_gone, reason_shutdown,
  Signal, cancelled, done_closed, event, events_closed, poll, Watch, Tick, ended, goes_on,
  export_session_inactive, event_ends_session_for_bus_id, reason_of_claim,
  completed_session_end_tick, closed_session_events_tick, session_event_tick, session_poll_tick,
  wait_for_session_end_tick, next_tick, wait_for_session_end,
}

-- What shows that the client is gone: an event that unbinds this very device, or a probe that finds it
-- not in use any more.
abbrev pub IsEvidence : List ℕ → Signal → Type 0
IsEvidence bus_id cancelled = ⊥
IsEvidence bus_id done_closed = ⊥
IsEvidence bus_id (event e) = e ≡ device_unbound bus_id
IsEvidence bus_id (events_closed probe) = probe ≡ ok false
IsEvidence bus_id (poll probe) = probe ≡ ok false

inactive-ok : (probe : Result Bool) → export_session_inactive probe ≡ true → probe ≡ ok false
unfolding export_session_inactive
inactive-ok (err e) h = cc
inactive-ok (ok true) h = cc
inactive-ok (ok false) h = refl

unbound-eq :
    (e : Event) (bus_id : List ℕ)
    → event_ends_session_for_bus_id e bus_id ≡ true
    → e ≡ device_unbound bus_id
unfolding event_ends_session_for_bus_id
unbound-eq (device_unbound b) bus_id h = ap (λ c. device_unbound c) (text_eq→eq b bus_id h)
unbound-eq (port_detached b) bus_id h = cc
unbound-eq (other_event b) bus_id h = cc

-- A tick that ends because the client is gone has its evidence.
tick-IsEvidence :
    (bus_id : List ℕ) (watch : Watch) (h : Handle) (s : Signal) (h' : Handle)
    → wait_for_session_end_tick bus_id watch h s ≡ ended client_gone h'
    → IsEvidence bus_id s
unfolding wait_for_session_end_tick session_event_tick closed_session_events_tick session_poll_tick
tick-IsEvidence bus_id watch h cancelled h' q = cc
tick-IsEvidence bus_id watch h done_closed h' q = ground arith
tick-IsEvidence bus_id watch h (event e) h' q = unbound-eq e bus_id (ground arith)
tick-IsEvidence bus_id watch h (events_closed probe) h' q = inactive-ok probe (ground arith)
tick-IsEvidence bus_id watch h (poll probe) h' q = inactive-ok probe (ground arith)

-- The channel of events and the poll timer are as they were, but for a closed channel.
tick-has_poll :
    (bus_id : List ℕ) (watch : Watch) (h : Handle) (s : Signal) (watch' : Watch) (h' : Handle)
    → wait_for_session_end_tick bus_id watch h s ≡ goes_on watch' h'
    → watch.has_poll ≡ true
    → watch'.has_poll ≡ true
unfolding wait_for_session_end_tick session_event_tick closed_session_events_tick session_poll_tick
    completed_session_end_tick
tick-has_poll bus_id watch h cancelled watch' h' q p = ground arith
tick-has_poll bus_id watch h done_closed watch' h' q p = ground arith
tick-has_poll bus_id watch h (event e) watch' h' q p = ground arith
tick-has_poll bus_id watch h (events_closed probe) watch' h' q p = ground arith
tick-has_poll bus_id watch h (poll probe) watch' h' q p = ground arith

next_tick-client_gone :
    (bus_id : List ℕ) (signals : List Signal) (t : Tick) (h' : Handle)
    → next_tick (λ watch h. wait_for_session_end bus_id watch h signals) t ≡ some (client_gone, h')
    → (t ≡ ended client_gone h')
      ⊎ ((watch : Watch) × ((h : Handle) × (wait_for_session_end bus_id watch h signals
              ≡ some (client_gone, h'))))
next_tick-client_gone bus_id signals (ended reason h) h' q = inl cc
next_tick-client_gone bus_id signals (goes_on watch h) h' q = inr (watch, (h, q))

-- A session is ended as gone with its client only on evidence: an event that unbinds the very device
-- that it exports, or a probe of the status that finds the device not in use. Errors of the probe,
-- the loss of the events, events of other devices and those of ports are none.
pub wait_for_session_end-IsEvidence :
    (bus_id : List ℕ) (watch : Watch) (h : Handle) (signals : List Signal) (h' : Handle)
    → wait_for_session_end bus_id watch h signals ≡ some (client_gone, h')
    → Any (IsEvidence bus_id) signals
unfolding wait_for_session_end
wait_for_session_end-IsEvidence bus_id watch h [] h' q = cc
wait_for_session_end-IsEvidence bus_id watch h (s ∷ signals) h' q =
    elim (next_tick-client_gone bus_id signals (wait_for_session_end_tick bus_id watch h s) h' q) [
      | inl e ↦ inl (tick-IsEvidence bus_id watch h s h' e)
      | inr (watch', (k, e)) ↦ inr (wait_for_session_end-IsEvidence bus_id watch' k signals h' e)
    ]

signal_by_state-cancelled :
    (st : HandoffState) (h : Handle)
    → h.cancelled ≡ true
    → (signal_by_state st h).0.cancelled ≡ true
unfolding signal_by_state claim_cleanup_locked complete_without_disconnect_locked
signal_by_state-cancelled succeeded h p = ground arith
signal_by_state-cancelled not_started h p = ground arith
signal_by_state-cancelled failed h p = ground arith
signal_by_state-cancelled in_progress h p = p

signal_cancel-cancelled : (h : Handle) → (signal_cancel h).0.cancelled ≡ true
unfolding signal_cancel
signal_cancel-cancelled h =
    signal_by_state-cancelled h.handoff_state (record h { cancelled = true }) refl

same_handle :
    {watch watch' : Watch} {h h' : Handle}
    → goes_on watch h ≡ goes_on watch' h'
    → h.cancelled ≡ true
    → h'.cancelled ≡ true
same_handle q p = cc

tick-cancelled :
    (bus_id : List ℕ) (watch : Watch) (h : Handle) (s : Signal) (watch' : Watch) (h' : Handle)
    → wait_for_session_end_tick bus_id watch h s ≡ goes_on watch' h'
    → h.cancelled ≡ true
    → h'.cancelled ≡ true
unfolding wait_for_session_end_tick session_event_tick closed_session_events_tick session_poll_tick
    completed_session_end_tick
tick-cancelled bus_id watch h cancelled watch' h' q p = same_handle q (signal_cancel-cancelled h)
tick-cancelled bus_id watch h done_closed watch' h' q p = ground arith
tick-cancelled bus_id watch h (event e) watch' h' q p = ground arith
tick-cancelled bus_id watch h (events_closed probe) watch' h' q p = ground arith
tick-cancelled bus_id watch h (poll probe) watch' h' q p = ground arith

-- What the wait answers at last.
abbrev pub IsOver : Option (DisconnectReason × Handle) → Type 0
IsOver o = (reason : DisconnectReason) × ((h : Handle) × (o ≡ some (reason, h)))

IsOver-claim :
    (rest : Watch → Handle → Option (DisconnectReason × Handle)) (x : Handle × Bool)
    → IsOver (next_tick rest (reason_of_claim x))
IsOver-claim rest (h, true) = (client_gone, (h, refl))
IsOver-claim rest (h, false) = (reason_shutdown, (h, refl))

IsOver-next :
    (rest : Watch → Handle → Option (DisconnectReason × Handle)) (t : Tick)
    → ((watch : Watch) (h : Handle) → t ≡ goes_on watch h → IsOver (rest watch h))
    → IsOver (next_tick rest t)
IsOver-next rest (ended reason h) f = (reason, (h, refl))
IsOver-next rest (goes_on watch h) f = f watch h refl

poll_ends :
    (bus_id : List ℕ) (watch : Watch) (h : Handle)
    → watch.has_poll ≡ true
    → wait_for_session_end_tick bus_id watch h (poll (ok false))
      ≡ reason_of_claim (complete_without_disconnect h)
unfolding wait_for_session_end_tick session_poll_tick export_session_inactive
    completed_session_end_tick
poll_ends bus_id watch h p = rw p

-- The wait ends, whatever else is seen, if the status is polled and some poll finds the device not in
-- use.
pub wait_for_session_end-polled :
    (bus_id : List ℕ) (watch : Watch) (h : Handle) (signals : List Signal)
    → watch.has_poll ≡ true
    → Any (λ s. s ≡ poll (ok false)) signals
    → IsOver (wait_for_session_end bus_id watch h signals)
unfolding wait_for_session_end
wait_for_session_end-polled bus_id watch h [] p a = absurd a
wait_for_session_end-polled bus_id watch h (s ∷ signals) p (inl q) =
    let rest = λ (watch' : Watch) (h' : Handle). wait_for_session_end bus_id watch' h' signals in
    subst (λ x. IsOver (next_tick rest (wait_for_session_end_tick bus_id watch h x))) (sym q)
      (subst (λ t. IsOver (next_tick rest t)) (sym (poll_ends bus_id watch h p))
        (IsOver-claim rest (complete_without_disconnect h)))
wait_for_session_end-polled bus_id watch h (s ∷ signals) p (inr a) =
    IsOver-next _ (wait_for_session_end_tick bus_id watch h s) (λ watch' h' e.
      wait_for_session_end-polled bus_id watch' h' signals
        (tick-has_poll bus_id watch h s watch' h' e p) a)

-- The wait of a session that was cancelled ends when it sees that.
pub wait_for_session_end-cancelled :
    (bus_id : List ℕ) (watch : Watch) (h : Handle) (signals : List Signal)
    → h.cancelled ≡ true
    → Any (λ s. s ≡ done_closed) signals
    → IsOver (wait_for_session_end bus_id watch h signals)
unfolding wait_for_session_end wait_for_session_end_tick
wait_for_session_end-cancelled bus_id watch h [] p a = absurd a
wait_for_session_end-cancelled bus_id watch h (s ∷ signals) p (inl q) =
    let rest = λ (watch' : Watch) (h' : Handle). wait_for_session_end bus_id watch' h' signals in
    subst (λ x. IsOver (next_tick rest (wait_for_session_end_tick bus_id watch h x))) (sym q)
      (subst (λ b. IsOver (next_tick rest (if b then ended reason_shutdown h else goes_on watch h)))
        (sym p) (reason_shutdown, (h, refl)))
wait_for_session_end-cancelled bus_id watch h (s ∷ signals) p (inr a) =
    IsOver-next _ (wait_for_session_end_tick bus_id watch h s) (λ watch' h' e.
      wait_for_session_end-cancelled bus_id watch' h' signals
        (tick-cancelled bus_id watch h s watch' h' e p) a)
