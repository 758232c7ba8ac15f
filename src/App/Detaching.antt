-- ===== src/App/Detaching.antt =====
-- internal/app/importer.go: detaching a port, whoever holds it.
pub mod Calls
pub mod Owner
use usbip_go.Prelude.{ℕ, Bool, true, false, Option, none, some, List, [], ◌∷◌, if◌then◌else◌}
use usbip_go.Io.Errors.{Error, Result, ok, err, wrap, errors_is, device_not_bound}
use usbip_go.App.Tracking.{
  Tracker, is_at, cancel_if, DetachTarget, on_reservation, on_handle, on_untracked, target_handle,
  acquire_detach_target, finish_untracked_detach, delete_exact_handle, finish_detach_attempt,
}

-- What the kernel's DetachPort answers, and what other goroutines make of the importer's tables while
-- detachHandle waits for the watcher and while DetachPort runs.
pub record DetachPeer : Type 0 where
  pub answer : Option Error
  pub waiting : Tracker → Tracker
  pub mutating : Tracker → Tracker

-- The tables, and the ports for which DetachPort was called, the latest first.
pub record Detaching : Type 0 where
  pub tracker : Tracker
  pub calls : List ℕ

-- What a detach comes to: an answer; the attempt of another caller, whose answer waitDetachAttempt
-- hands on; or a reservation it still waits for.
pub data DetachResult : Type 0 where
  answered : Option Error → DetachResult
  joins waits : ℕ → DetachResult

abbrev pub after_detach_port : ℕ → ℕ → Detaching → Option Error → Detaching × Option Error
after_detach_port id g s none = (record s { tracker = delete_exact_handle s.tracker id g }, none)
after_detach_port id g s (some e) =
    if errors_is e device_not_bound
    then (record s { tracker = delete_exact_handle s.tracker id g }, some (wrap e))
    else (s, some (wrap e))

-- DetachPort was called.
abbrev pub called : DetachPeer → Detaching → ℕ → Detaching
called peer s id = record { tracker = peer.mutating s.tracker; calls = id ∷ s.calls }

-- The handle is looked up again behind the wait for its watcher.
abbrev pub on_current : DetachPeer → Detaching → ℕ → ℕ → Detaching × Option Error
on_current peer s id g =
    if is_at (s.tracker.handles id) g
    then after_detach_port id g (called peer s id) peer.answer
    else (s, none)

-- detachHandle.
unfoldable pub detach_handle : DetachPeer → Detaching → ℕ → ℕ → Detaching × Option Error
detach_handle peer s id g =
    on_current peer (record s { tracker = peer.waiting (cancel_if (some g) s.tracker) }) id g

abbrev pub detach_error : Option Error → Option Error
detach_error none = none
detach_error (some e) = some (wrap e)

-- detachUntrackedPort.
unfoldable pub detach_untracked_port : DetachPeer → Detaching → ℕ → Detaching × Option Error
detach_untracked_port peer s id = (called peer s id, detach_error peer.answer)

abbrev pub end_handle : ℕ → ℕ → Detaching × Option Error → Detaching × DetachResult
end_handle g a (s, e) = (record s { tracker = finish_detach_attempt s.tracker g a e }, answered e)

abbrev pub end_untracked : ℕ → ℕ → Detaching × Option Error → Detaching × DetachResult
end_untracked id a (s, e) =
    (record s { tracker = finish_untracked_detach s.tracker id a e }, answered e)

-- detachPublishedTarget. Detach does not call it with a reservation.
unfoldable pub detach_published_target :
    DetachPeer → Detaching → ℕ → DetachTarget → Detaching × DetachResult
detach_published_target peer s id (on_reservation r) = (s, waits r)
detach_published_target peer s id (on_handle g a false) = (s, joins a)
detach_published_target peer s id (on_handle g a true) = end_handle g a (detach_handle peer s id g)
detach_published_target peer s id (on_untracked a false) = (s, joins a)
detach_published_target peer s id (on_untracked a true) =
    end_untracked id a (detach_untracked_port peer s id)

abbrev pub on_exact :
    DetachPeer → Detaching → ℕ → Tracker × Result DetachTarget → Detaching × DetachResult
on_exact peer s id (t, err e) = (record s { tracker = t }, answered (some e))
on_exact peer s id (t, ok target) =
    detach_published_target peer (record s { tracker = t }) id target

-- detachExactHandle.
unfoldable pub detach_exact_handle : DetachPeer → Detaching → ℕ → ℕ → Detaching × DetachResult
detach_exact_handle peer s id g =
    if is_at (s.tracker.handles id) g
    then on_exact peer s id (target_handle s.tracker g (s.tracker.handle_at g).detach_attempt)
    else (s, answered none)

-- How the wait for a reservation ends: by the caller's context or the timeout, or by its completion,
-- with what other goroutines made of the tables by then.
pub data Publication : Type 0 where
  gave_up : Error → Publication
  completed : (Tracker → Tracker) → Publication

abbrev pub on_attempt :
    (Detaching → Detaching × DetachResult) → Detaching → Option ℕ → Detaching × DetachResult
on_attempt again s (some a) = (s, joins a)
on_attempt again s none = again s

-- waitAttachPublication, and what Detach makes of its answer.
unfoldable pub after_publication :
    (Detaching → Detaching × DetachResult) → Detaching → ℕ → Publication → Detaching × DetachResult
after_publication again s r (gave_up e) = (s, answered (some (wrap e)))
after_publication again s r (completed others) =
    let t = others s.tracker in
    on_attempt again (record s { tracker = t }) (t.reservation_at r).detach_attempt

abbrev pub on_target :
    (Detaching → ℕ → Detaching × DetachResult)
    → DetachPeer
    → Detaching
    → ℕ
    → Tracker × Result DetachTarget
    → Detaching × DetachResult
on_target wait peer s id (t, err e) = (record s { tracker = t }, answered (some e))
on_target wait peer s id (t, ok (on_reservation r)) = wait (record s { tracker = t }) r
on_target wait peer s id (t, ok (on_handle g a owner)) =
    detach_published_target peer (record s { tracker = t }) id (on_handle g a owner)
on_target wait peer s id (t, ok (on_untracked a owner)) =
    detach_published_target peer (record s { tracker = t }) id (on_untracked a owner)

-- Importer.Detach, on how its waits for reservations end, one after the other.
unfoldable pub detach : DetachPeer → List Publication → Detaching → ℕ → Detaching × DetachResult
detach peer [] s id =
    on_target (λ s' r. (s', waits r)) peer s id (acquire_detach_target s.tracker id)
detach peer (p ∷ publications) s id =
    on_target (λ s' r. after_publication (λ s''. detach peer publications s'' id) s' r p) peer s id
      (acquire_detach_target s.tracker id)
