-- ===== src/App/Tracking/Steps.antt =====
-- The critical sections of an importer in any order.
use usbip_go.Prelude.{ℕ, Bool, Option}
use usbip_go.Io.Errors.{Error}
use usbip_go.App.Tracking.{
  AttachKey, Tracker, new_tracker, acquire_attach_slot, release_attach_slot, reserve_attach_port,
  abort_attach_reservation, register_handle, acquire_detach_target, finish_untracked_detach,
  delete_exact_handle, finish_detach_attempt, close,
}

pub data Step : Tracker → Tracker → Type 0 where
  takes_slot : (t : Tracker) (key : AttachKey) → Step t (acquire_attach_slot t key).0
  frees_slot : (t : Tracker) (key : AttachKey) → Step t (release_attach_slot t key)
  reserves : (t : Tracker) (id : ℕ) → Step t (reserve_attach_port t id).0
  aborts : (t : Tracker) (r : ℕ) → Step t (abort_attach_reservation t r)
  registers : (t : Tracker) (id : ℕ) (auto : Bool) (r : ℕ) → Step t (register_handle t id auto r).0
  targets : (t : Tracker) (id : ℕ) → Step t (acquire_detach_target t id).0
  ends_untracked :
      (t : Tracker) (id a : ℕ) (e : Option Error) → Step t (finish_untracked_detach t id a e)
  deletes : (t : Tracker) (id g : ℕ) → Step t (delete_exact_handle t id g)
  ends_attempt : (t : Tracker) (g a : ℕ) (e : Option Error) → Step t (finish_detach_attempt t g a e)
  closes : (t : Tracker) → Step t (close t)

pub data IsReachable : Tracker → Type 0 where
  starts : IsReachable new_tracker
  continues : (t t' : Tracker) → IsReachable t → Step t t' → IsReachable t'

-- A run of steps.
pub data Run : Tracker → Tracker → Type 0 where
  stays : (t : Tracker) → Run t t
  goes : (t t' t'' : Tracker) → Run t t' → Step t' t'' → Run t t''
