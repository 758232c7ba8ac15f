-- ===== src/App/Handoff/Soundness.antt =====
-- One owner of the cleanup, one Disconnect at most, none for a handoff that did not succeed, and no
-- waiter left behind.
use usbip_go.Prelude.{
  suc, ◌+◌, ◌≡◌, ◌≢◌, refl, sym, ap, ◌∙◌, inl, inr, Bool, true, false, none, some, if◌then◌else◌,
  arith, if_rule,
}
use usbip_go.App.Sessions.Counts.{true_not_false}
use usbip_go.App.Handoff.{
  HandoffState, not_started, in_progress, succeeded, failed, Handle, claim_cleanup_locked,
  complete_without_disconnect_locked, complete_without_disconnect, begin_handoff, end_handoff,
  signal_by_state, signal_cancel, finish_cleanup, completed_cleanup_result,
}
use usbip_go.App.Handoff.Steps.{
  Phase, System, after, phase_after, Step, IsReachable, is_in_progress, IsInPhase, IsGranted,
  before, calling, returned, begins, ends, cancels, completes, finishes, starts, continues, IsSound,
}

idle_before :
    (phase : Phase) (state : HandoffState)
    → phase ≡ before
    → IsInPhase phase state
    → is_in_progress state ≡ false
idle_before before state p h = ap is_in_progress h
idle_before calling state p h = absurd (cc)
idle_before returned state p h = h

begins-IsSound :
    (s : System)
    → s.phase ≡ before
    → IsSound s
    → IsSound (record s {
      handle = (begin_handoff s.handle).0;
      phase = phase_after (begin_handoff s.handle).1;
    })
unfolding begin_handoff
begins-IsSound s p c =
    let P = λ (x : Handle × Bool). IsSound (record s { handle = x.0; phase = phase_after x.1 }) in
    if_rule P s.handle.cancelled _ _
      (λ q. record {
        in_phase = idle_before s.phase s.handle.handoff_state p c.in_phase;
        one_owner = c.one_owner;
        disconnects_success = let d = c.disconnects_success in ground arith;
        cancel_is_owned = let o = c.cancel_is_owned in ground arith;
      })
      (λ q. record {
        in_phase = refl;
        one_owner = c.one_owner;
        disconnects_success = let d = c.disconnects_success in ground arith;
        cancel_is_owned = inl q;
      })

-- Completing without a disconnect, whoever owns the cleanup.
completes-IsSound :
    (s : System)
    → IsInPhase s.phase s.handle.handoff_state
    → (s.handle.closes + s.owners ≡ (if s.handle.cleanup_claimed then 1 else 0))
    → IsGranted s
    → IsSound (record s { handle = (complete_without_disconnect_locked s.handle).0 })
unfolding complete_without_disconnect_locked claim_cleanup_locked
completes-IsSound s phase o d =
    let complete = λ (x : Handle × Bool).
      if◌then◌else◌ {A = Handle × Bool} x.1 (record (x.0) { closes = suc (x.0).closes }, true)
        (x.0, false) in
    let P = λ (x : Handle × Bool). IsSound (record s { handle = (complete x).0 }) in
    if_rule P s.handle.cleanup_claimed _ _
      (λ q. record {
        in_phase = phase;
        one_owner = o;
        disconnects_success = d;
        cancel_is_owned = inr (inr q);
      })
      (λ q. record {
        in_phase = phase;
        one_owner = ground arith;
        disconnects_success = ground arith;
        cancel_is_owned = inr (inr refl);
      })

claims-IsSound :
    (s : System)
    → IsInPhase s.phase s.handle.handoff_state
    → s.phase ≡ returned
    → s.handle.handoff_state ≡ succeeded
    → (s.handle.closes + s.owners ≡ (if s.handle.cleanup_claimed then 1 else 0))
    → IsGranted s
    → IsSound (after (claim_cleanup_locked s.handle) s)
unfolding claim_cleanup_locked
claims-IsSound s phase p q o d =
    let P = λ (x : Handle × Bool). IsSound (after x s) in
    if_rule P s.handle.cleanup_claimed _ _
      (λ t. record {
        in_phase = phase;
        one_owner = o;
        disconnects_success = d;
        cancel_is_owned = inr (inr t);
      })
      (λ t. record {
        in_phase = phase;
        one_owner = ground arith;
        disconnects_success = ground arith;
        cancel_is_owned = inr (inr refl);
      })

none_granted : (s : System) → s.phase ≡ calling → IsGranted s → s.granted ≡ 0
none_granted s p d = ground arith

in_progress_twice : (state : HandoffState) → state ≡ in_progress → is_in_progress state ≡ false → ⊥
in_progress_twice state q h = true_not_false (sym (ap is_in_progress q) ∙ h)

returned_when :
    (phase : Phase) (state : HandoffState)
    → IsInPhase phase state
    → state ≡ succeeded
    → phase ≡ returned
returned_when before state h q = absurd (cc)
returned_when calling state h q = absurd (cc)
returned_when returned state h q = refl

calling_when :
    (phase : Phase) (state : HandoffState)
    → IsInPhase phase state
    → state ≡ in_progress
    → phase ≡ calling
calling_when before state h q = absurd (cc)
calling_when calling state h q = refl
calling_when returned state h q = absurd (in_progress_twice state q h)

signals-IsSound :
    (s : System) (state : HandoffState)
    → s.handle.handoff_state ≡ state
    → IsSound s
    → IsSound (after (signal_by_state state (record (s.handle) { cancelled = true })) s)
unfolding signal_by_state
signals-IsSound s not_started q c =
    completes-IsSound (record s { handle = record (s.handle) { cancelled = true } }) c.in_phase
      c.one_owner c.disconnects_success
signals-IsSound s failed q c =
    completes-IsSound (record s { handle = record (s.handle) { cancelled = true } }) c.in_phase
      c.one_owner c.disconnects_success
signals-IsSound s succeeded q c =
    claims-IsSound (record s { handle = record (s.handle) { cancelled = true } }) c.in_phase
      (returned_when s.phase s.handle.handoff_state c.in_phase q) q c.one_owner
      c.disconnects_success
signals-IsSound s in_progress q c = record {
  in_phase = c.in_phase;
  one_owner = c.one_owner;
  disconnects_success = c.disconnects_success;
  cancel_is_owned = inr (inl (calling_when s.phase s.handle.handoff_state c.in_phase q));
}

Step-IsSound : {s s' : System} → Step s s' → IsSound s → IsSound s'
unfolding end_handoff signal_cancel complete_without_disconnect finish_cleanup
Step-IsSound (begins s p) c = begins-IsSound s p c
Step-IsSound (ends s (some e) p) c =
    completes-IsSound
      (record s { handle = record (s.handle) { handoff_state = failed }; phase = returned }) refl
      c.one_owner (inl (none_granted s p c.disconnects_success))
Step-IsSound (ends s none p) c =
    let s' : System = record s {
      handle = record (s.handle) { handoff_state = succeeded };
      phase = returned;
    } in
    let none_yet : IsGranted s' = inl (none_granted s p c.disconnects_success) in
    if_rule (λ (x : Handle × Bool). IsSound (after x (record s { phase = returned })))
      s.handle.cancelled _ _ (λ q. claims-IsSound s' refl refl refl c.one_owner none_yet)
      (λ q. record {
        in_phase = refl;
        one_owner = c.one_owner;
        disconnects_success = none_yet;
        cancel_is_owned = inl q;
      })
Step-IsSound (cancels s) c = signals-IsSound s s.handle.handoff_state refl c
Step-IsSound (completes s) c = completes-IsSound s c.in_phase c.one_owner c.disconnects_success
Step-IsSound (finishes s e p) c = record {
  in_phase = c.in_phase;
  one_owner = let o = c.one_owner in omega arith;
  disconnects_success = c.disconnects_success;
  cancel_is_owned = c.cancel_is_owned;
}

-- In every interleaving of one handoff with cancellations, completions and the end of the cleanup,
-- the closes of cleanupDone and the owners still to finish are together one if the cleanup is claimed
-- and zero if not, at most one caller is told to disconnect, and only after a handoff that succeeded,
-- and a cancelled session's cleanup is claimed unless the call to the kernel is under way.
pub IsReachable-IsSound : {s : System} → IsReachable s → IsSound s
IsReachable-IsSound starts = record {
  in_phase = refl;
  one_owner = refl;
  disconnects_success = inl refl;
  cancel_is_owned = inl refl;
}
IsReachable-IsSound (continues s s' r step) = Step-IsSound step (IsReachable-IsSound r)

-- A session that was cancelled, whose handler is not in the call to the kernel and that has no owner
-- left to finish, has its cleanup result out: no waiter of Shutdown is left behind.
pub completed_cleanup_result-released :
    (s : System)
    → IsReachable s
    → s.handle.cancelled ≡ true
    → s.phase ≢ calling
    → s.owners ≡ 0
    → completed_cleanup_result s.handle ≡ (true, s.handle.cleanup_err)
unfolding completed_cleanup_result
completed_cleanup_result-released s r q idle o =
    let c = IsReachable-IsSound r in
    let owned = c.cancel_is_owned in
    let counts = c.one_owner in
    elim owned [
      | inl no_cancel ↦ absurd (true_not_false (sym q ∙ no_cancel))
      | inr (inl busy) ↦ absurd (idle busy)
      | inr (inr claimed) ↦ ground arith
    ]
