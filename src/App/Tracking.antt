-- ===== src/App/Tracking.antt =====
-- internal/app/importer.go: what an importer knows of its ports, and the critical sections under its
-- mutex. Pointers are numbers: a handle is its generation, and a reservation and an attempt to detach
-- are the number in which they were made; the objects behind them stay when the maps forget them.
pub mod Maps
pub mod Steps
pub mod Shrinking
pub mod Apart
pub mod Requested
pub mod Teardown
use usbip_go.Prelude.{
  ℕ, suc, ◌+◌, Bool, true, false, not, ◌&&◌, ◌||◌, Option, none, some, List, [], ◌∷◌, ◌==◌,
  if◌then◌else◌,
}
use usbip_go.Io.Errors.{
  Error, Result, ok, err, wrap, sentinel, importer_closed, attach_in_progress, reservation_lost,
}
use usbip_go.Kernel.Text.{text_eq}

-- `m[k] = v`, and `delete(m, k)` where `v` is `none`.
unfoldable pub put {ℓ} : {A : Type ℓ} → ℕ → A → (ℕ → A) → ℕ → A
put k v m j = if j == k then v else m j

-- portHandle, as far as the importer writes it; `cancelled` says that `done` is closed.
pub record PortHandle : Type 0 where
  pub port : ℕ
  pub has_watcher : Bool
  pub cancelled : Bool
  pub detaching : Bool
  pub detach_attempt : Option ℕ

-- attachReservation; `finished` says that `done` is closed.
pub record Reservation : Type 0 where
  pub port : ℕ
  pub teardown_requested : Bool
  pub finished : Bool
  pub detach_attempt : Option ℕ

-- attachKey, with the remote endpoint as text.
pub record AttachKey : Type 0 where
  pub remote : List ℕ
  pub bus_id : List ℕ

-- Importer, as far as it tracks ports. `outcomes` holds the results of the attempts that are done.
pub record Tracker : Type 0 where
  pub closed : Bool
  pub handles : ℕ → Option ℕ
  pub reservations : ℕ → Option ℕ
  pub untracked : ℕ → Option ℕ
  pub in_flight : List AttachKey
  pub next_gen : ℕ
  pub next_reservation : ℕ
  pub next_attempt : ℕ
  pub handle_at : ℕ → PortHandle
  pub reservation_at : ℕ → Reservation
  pub outcomes : ℕ → Option (Option Error)

abbrev pub no_handle : PortHandle
no_handle = record {
  port = 0;
  has_watcher = false;
  cancelled = false;
  detaching = false;
  detach_attempt = none;
}

abbrev pub new_reservation : ℕ → Reservation
new_reservation id = record {
  port = id;
  teardown_requested = false;
  finished = false;
  detach_attempt = none;
}

-- NewImporter.
abbrev pub new_tracker : Tracker
new_tracker = record {
  closed = false;
  handles = λ id. none;
  reservations = λ id. none;
  untracked = λ id. none;
  in_flight = [];
  next_gen = 0;
  next_reservation = 0;
  next_attempt = 0;
  handle_at = λ g. no_handle;
  reservation_at = λ r. new_reservation 0;
  outcomes = λ a. none;
}

abbrev pub change_handle : ℕ → (PortHandle → PortHandle) → Tracker → Tracker
change_handle g f t = record t { handle_at = put g (f (t.handle_at g)) t.handle_at }

abbrev pub change_reservation : ℕ → (Reservation → Reservation) → Tracker → Tracker
change_reservation r f t = record t {
  reservation_at = put r (f (t.reservation_at r)) t.reservation_at;
}

-- `cur, ok := m[id]; ok && cur == p`.
unfoldable pub is_at : Option ℕ → ℕ → Bool
is_at none p = false
is_at (some cur) p = cur == p

abbrev pub key_eq : AttachKey → AttachKey → Bool
key_eq a b = text_eq a.remote b.remote && text_eq a.bus_id b.bus_id

abbrev pub has_key : AttachKey → List AttachKey → Bool
has_key key [] = false
has_key key (k ∷ keys) = key_eq k key || has_key key keys

abbrev pub remove_key : AttachKey → List AttachKey → List AttachKey
remove_key key [] = []
remove_key key (k ∷ keys) =
    let rest = remove_key key keys in if key_eq k key then rest else k ∷ rest

-- acquireAttachSlot.
unfoldable pub acquire_attach_slot : Tracker → AttachKey → Tracker × Result (Unit {0})
acquire_attach_slot t key =
    if t.closed
    then (t, err (sentinel importer_closed))
    else if has_key key t.in_flight
    then (t, err (wrap (sentinel attach_in_progress)))
    else (record t { in_flight = key ∷ t.in_flight }, ok tt)

-- The release function that acquireAttachSlot returns.
unfoldable pub release_attach_slot : Tracker → AttachKey → Tracker
release_attach_slot t key = record t { in_flight = remove_key key t.in_flight }

-- The port's handle is marked as being detached.
abbrev pub is_detaching : Tracker → Option ℕ → Bool
is_detaching t none = false
is_detaching t (some g) = (t.handle_at g).detaching

abbrev pub busy : Tracker → Tracker × Result ℕ
busy t = (t, err (wrap (sentinel attach_in_progress)))

abbrev pub reserve_by : Tracker → ℕ → Option ℕ → Option ℕ → Bool → Tracker × Result ℕ
reserve_by t id (some r) u d = busy t
reserve_by t id none (some a) d = busy t
reserve_by t id none none true = busy t
reserve_by t id none none false =
    let r = suc t.next_reservation in
    (
      record t {
        reservations = put id (some r) t.reservations;
        next_reservation = r;
        reservation_at = put r (new_reservation id) t.reservation_at;
      },
      ok r,
    )

-- reserveAttachPort.
unfoldable pub reserve_attach_port : Tracker → ℕ → Tracker × Result ℕ
reserve_attach_port t id =
    if t.closed
    then (t, err (sentinel importer_closed))
    else reserve_by t id (t.reservations id) (t.untracked id) (is_detaching t (t.handles id))

abbrev pub finish_reservation : ℕ → Tracker → Tracker
finish_reservation r t = change_reservation r (λ v. record v { finished = true }) t

-- abortAttachReservation, of a reservation that is not nil.
unfoldable pub abort_attach_reservation : Tracker → ℕ → Tracker
abort_attach_reservation t r =
    let id = (t.reservation_at r).port in
    finish_reservation r (
      if is_at (t.reservations id) r
      then record t { reservations = put id none t.reservations }
      else t)

abbrev pub cancel_if : Option ℕ → Tracker → Tracker
cancel_if none t = t
cancel_if (some g) t = change_handle g (λ h. record h { cancelled = true }) t

-- newPortHandleLocked, with the entry of the map that registerHandle makes.
unfoldable pub new_port_handle_locked : ℕ → Bool → Tracker → Tracker
new_port_handle_locked id auto_reconnect t =
    let g = suc t.next_gen in
    let t' = cancel_if (t.handles id) t in
    record t' {
      next_gen = g;
      handles = put id (some g) t'.handles;
      handle_at =
          put g
            (record {
              port = id;
              has_watcher = auto_reconnect;
              cancelled = false;
              detaching = false;
              detach_attempt = none;
            })
            t'.handle_at;
    }

-- prepareAttachCompensationLocked, of the handle that was made last.
abbrev pub prepare_attach_compensation_locked : ℕ → Bool → Tracker → Tracker × Option ℕ
prepare_attach_compensation_locked r false t = (t, none)
prepare_attach_compensation_locked r true t =
    let a = suc t.next_attempt in
    (
      change_reservation r (λ v. record v { detach_attempt = some a })
          (change_handle t.next_gen (λ h. record h { detaching = true; detach_attempt = some a })
            (record t { next_attempt = a })),
      some a,
    )

-- The end of registerHandle: the reservation is forgotten and finished.
abbrev pub publish : ℕ → ℕ → Tracker × Option ℕ → Tracker × Result (ℕ × Option ℕ)
publish id r (t, compensation) = (
  finish_reservation r (record t { reservations = put id none t.reservations }),
  ok (t.next_gen, compensation),
)

-- The handle that registerHandle makes, and its compensation.
abbrev pub make_handle : Tracker → ℕ → Bool → ℕ → Tracker × Option ℕ
make_handle t id auto_reconnect r =
    let compensate = (t.reservation_at r).teardown_requested in
    prepare_attach_compensation_locked r compensate
      (new_port_handle_locked id (auto_reconnect && not compensate) t)

-- registerHandle, with the reservation that AttachRemote made through ReserveLocalPort.
unfoldable pub register_handle : Tracker → ℕ → Bool → ℕ → Tracker × Result (ℕ × Option ℕ)
register_handle t id auto_reconnect r =
    if not (is_at (t.reservations id) r)
    then (t, err (wrap (sentinel reservation_lost)))
    else if t.closed
    then (
      finish_reservation r (record t { reservations = put id none t.reservations }),
      err (sentinel importer_closed),
    )
    else publish id r (make_handle t id auto_reconnect r)

-- detachTarget.
pub data DetachTarget : Type 0 where
  on_reservation : ℕ → DetachTarget
  on_handle : ℕ → ℕ → Bool → DetachTarget
  on_untracked : ℕ → Bool → DetachTarget

-- The reservation's predecessor on its port.
abbrev pub detach_predecessor : Option ℕ → Tracker → Tracker
detach_predecessor none t = t
detach_predecessor (some g) t =
    change_handle g (λ h. record h { detaching = true; cancelled = true }) t

abbrev pub target_handle : Tracker → ℕ → Option ℕ → Tracker × Result DetachTarget
target_handle t g (some a) = (t, ok (on_handle g a false))
target_handle t g none =
    let a = suc t.next_attempt in
    (
      change_handle g (λ h. record h { detaching = true; detach_attempt = some a })
          (record t { next_attempt = a }),
      ok (on_handle g a true),
    )

abbrev pub target_by : Tracker → ℕ → Option ℕ → Option ℕ → Option ℕ → Tracker × Result DetachTarget
target_by t id (some r) h u = (
  change_reservation r (λ v. record v { teardown_requested = true }) (detach_predecessor h t),
  ok (on_reservation r),
)
target_by t id none (some g) u = target_handle t g (t.handle_at g).detach_attempt
target_by t id none none (some a) = (t, ok (on_untracked a false))
target_by t id none none none =
    let a = suc t.next_attempt in
    (
      record t { untracked = put id (some a) t.untracked; next_attempt = a },
      ok (on_untracked a true),
    )

-- acquireDetachTarget.
unfoldable pub acquire_detach_target : Tracker → ℕ → Tracker × Result DetachTarget
acquire_detach_target t id =
    if t.closed
    then (t, err (sentinel importer_closed))
    else target_by t id (t.reservations id) (t.handles id) (t.untracked id)

-- finishUntrackedDetach.
unfoldable pub finish_untracked_detach : Tracker → ℕ → ℕ → Option Error → Tracker
finish_untracked_detach t id a e =
    let t' = record t { outcomes = put a (some e) t.outcomes } in
    if is_at (t.untracked id) a then record t' { untracked = put id none t.untracked } else t'

-- deleteExactHandle, and removeHandle of reconnect.go.
unfoldable pub delete_exact_handle : Tracker → ℕ → ℕ → Tracker
delete_exact_handle t id g =
    if is_at (t.handles id) g then record t { handles = put id none t.handles } else t

abbrev pub forget_attempt : Option Error → ℕ → PortHandle → PortHandle
forget_attempt none a h = h
forget_attempt (some e) a h =
    if is_at h.detach_attempt a then record h { detach_attempt = none } else h

-- finishDetachAttempt.
unfoldable pub finish_detach_attempt : Tracker → ℕ → ℕ → Option Error → Tracker
finish_detach_attempt t g a e =
    change_handle g (forget_attempt e a) (record t { outcomes = put a (some e) t.outcomes })

-- Close, up to its bounded wait: the handles of the map are cancelled.
unfoldable pub close : Tracker → Tracker
close t = record t {
  closed = true;
  handle_at = λ g.
      (let h = t.handle_at g in
        if is_at (t.handles h.port) g then record h { cancelled = true } else h);
}
