-- ===== src/App/Handoff.antt =====
-- internal/app/exporter.go: the handoff of a session to the kernel, and who cleans up after it. Each
-- function here is one critical section under the handle's handoffMu.
pub mod Steps
pub mod Soundness
use usbip_go.Prelude.{ℕ, suc, Bool, true, false, ◌&&◌, Option, none, some, ◌==◌, if◌then◌else◌}
use usbip_go.Io.Errors.{Error}

-- kernelHandoffState.
pub data HandoffState : Type 0 where
  not_started in_progress succeeded failed : HandoffState

-- sessionHandle's fields under handoffMu. `closes` counts the calls of close on cleanupDone, the
-- second of which would panic.
pub record Handle : Type 0 where
  pub handoff_state : HandoffState
  pub cancelled : Bool
  pub cleanup_claimed : Bool
  pub closes : ℕ
  pub cleanup_err : Option Error

-- The handle that registerSession makes.
abbrev pub new_handle : Handle
new_handle = record {
  handoff_state = not_started;
  cancelled = false;
  cleanup_claimed = false;
  closes = 0;
  cleanup_err = none;
}

-- claimCleanupLocked.
unfoldable pub claim_cleanup_locked : Handle → Handle × Bool
claim_cleanup_locked h =
    if h.cleanup_claimed then (h, false) else (record h { cleanup_claimed = true }, true)

-- completeWithoutDisconnectLocked.
unfoldable pub complete_without_disconnect_locked : Handle → Handle × Bool
complete_without_disconnect_locked h =
    let (h', claimed) = claim_cleanup_locked h in
    if claimed then (record h' { closes = suc h'.closes }, true) else (h', false)

-- completeWithoutDisconnect.
unfoldable pub complete_without_disconnect : Handle → Handle × Bool
complete_without_disconnect h = complete_without_disconnect_locked h

-- runHandoff up to the call of fn; the Boolean is `ran`.
unfoldable pub begin_handoff : Handle → Handle × Bool
begin_handoff h =
    if h.cancelled then (h, false) else (record h { handoff_state = in_progress }, true)

-- runHandoff after the call of fn, with its error; the Boolean is `disconnectAfterHandoff`.
unfoldable pub end_handoff : Option Error → Handle → Handle × Bool
end_handoff (some e) h =
    ((complete_without_disconnect_locked (record h { handoff_state = failed })).0, false)
end_handoff none h =
    let h' : Handle = record h { handoff_state = succeeded } in
    if h'.cancelled then claim_cleanup_locked h' else (h', false)

-- The switch of signalCancel.
unfoldable pub signal_by_state : HandoffState → Handle → Handle × Bool
signal_by_state succeeded h = claim_cleanup_locked h
signal_by_state not_started h = ((complete_without_disconnect_locked h).0, false)
signal_by_state failed h = ((complete_without_disconnect_locked h).0, false)
signal_by_state in_progress h = (h, false)

-- signalCancel.
unfoldable pub signal_cancel : Handle → Handle × Bool
signal_cancel h = signal_by_state h.handoff_state (record h { cancelled = true })

-- finishCleanup.
unfoldable pub finish_cleanup : Option Error → Handle → Handle
finish_cleanup e h = record h { cleanup_err = e; closes = suc h.closes }

-- completedCleanupResult.
unfoldable pub completed_cleanup_result : Handle → Bool × Option Error
completed_cleanup_result h = if h.closes == 0 then (false, none) else (true, h.cleanup_err)
