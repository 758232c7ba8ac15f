-- ===== src/App/Handoff/Steps.antt =====
-- The steps of a session's handler and of shutdowns on one handle, in any order.
use usbip_go.Prelude.{ℕ, suc, ◌+◌, ◌-◌, ◌<◌, ◌≡◌, ◌⊎◌, Bool, true, false, Option, if◌then◌else◌}
use usbip_go.Io.Errors.{Error}
use usbip_go.App.Handoff.{
  HandoffState, not_started, in_progress, succeeded, failed, Handle, new_handle,
  complete_without_disconnect, begin_handoff, end_handoff, signal_cancel, finish_cleanup,
}

-- Where the session's handler stands with runHandoff, which it calls once.
pub data Phase : Type 0 where
  before calling returned : Phase

-- The handle, its handler, the callers that were told to disconnect and have not finished, and the
-- number that were told so far.
pub record System : Type 0 where
  pub handle : Handle
  pub phase : Phase
  pub owners : ℕ
  pub granted : ℕ

abbrev pub new_system : System
new_system = record { handle = new_handle; phase = before; owners = 0; granted = 0 }

abbrev pub grant : Bool → System → System
grant true s = record s { owners = suc s.owners; granted = suc s.granted }
grant false s = s

-- A critical section that may tell its caller to disconnect.
abbrev pub after : Handle × Bool → System → System
after (h, told) s = grant told (record s { handle = h })

abbrev pub phase_after : Bool → Phase
phase_after true = calling
phase_after false = returned

pub data Step : System → System → Type 0 where
  begins :
      (s : System)
      → s.phase ≡ before
      → Step s (record s {
        handle = (begin_handoff s.handle).0;
        phase = phase_after (begin_handoff s.handle).1;
      })
  ends :
      (s : System) (e : Option Error)
      → s.phase ≡ calling
      → Step s (after (end_handoff e s.handle) (record s { phase = returned }))
  cancels : (s : System) → Step s (after (signal_cancel s.handle) s)
  completes : (s : System) → Step s (record s { handle = (complete_without_disconnect s.handle).0 })
  finishes :
      (s : System) (e : Option Error)
      → 0 < s.owners
      → Step s (record s { handle = finish_cleanup e s.handle; owners = s.owners - 1 })

pub data IsReachable : System → Type 0 where
  starts : IsReachable new_system
  continues : (s s' : System) → IsReachable s → Step s s' → IsReachable s'

abbrev pub is_in_progress : HandoffState → Bool
is_in_progress in_progress = true
is_in_progress not_started = false
is_in_progress succeeded = false
is_in_progress failed = false

-- Before the handoff begins its state is not_started, and during the call in_progress; afterwards it is not.
abbrev pub IsInPhase : Phase → HandoffState → Type 0
IsInPhase before state = state ≡ not_started
IsInPhase calling state = state ≡ in_progress
IsInPhase returned state = is_in_progress state ≡ false

-- No caller was told to disconnect, or one, after a handoff that succeeded.
abbrev pub IsGranted : System → Type 0
IsGranted s =
    (s.granted ≡ 0)
    ⊎ ((s.granted ≡ 1)
        × (s.handle.cleanup_claimed ≡ true)
        × (s.phase ≡ returned)
        × (s.handle.handoff_state ≡ succeeded))

-- What holds in every interleaving: a claimed cleanup is done or has one owner, one that is not
-- claimed has neither; and a cancelled session's cleanup is claimed unless its call is under way.
pub record IsSound (s : System) : Type 0 where
  pub in_phase : IsInPhase s.phase s.handle.handoff_state
  pub one_owner : s.handle.closes + s.owners ≡ (if s.handle.cleanup_claimed then 1 else 0)
  pub disconnects_success : IsGranted s
  pub cancel_is_owned :
      (s.handle.cancelled ≡ false) ⊎ ((s.phase ≡ calling) ⊎ (s.handle.cleanup_claimed ≡ true))
