-- ===== src/App/Tracking/Requested.antt =====
-- A teardown that was requested of a reservation stays requested.
use usbip_go.Prelude.{
  ℕ, suc, ◌≤◌, ◌≡◌, refl, sym, ap, ◌∙◌, inl, inr, Bool, true, false, not, Option, none, some, ◌==◌,
  if◌then◌else◌, Bool-cases, arith, if_rule, ==→eq,
}
use usbip_go.Io.Errors.{Result}
use usbip_go.App.Tracking.{
  put, is_at, Reservation, Tracker, has_key, acquire_attach_slot, release_attach_slot, reserve_by,
  reserve_attach_port, abort_attach_reservation, new_port_handle_locked,
  prepare_attach_compensation_locked, publish, make_handle, register_handle, detach_predecessor,
  target_handle, target_by, acquire_detach_target, finish_untracked_detach, delete_exact_handle,
  finish_detach_attempt, close, change_reservation, finish_reservation, cancel_if, DetachTarget,
}
use usbip_go.App.Tracking.Maps.{put-other}
use usbip_go.App.Tracking.Steps.{
  Step, takes_slot, frees_slot, reserves, aborts, registers, targets, ends_untracked, deletes,
  ends_attempt, closes, Run, stays, goes,
}

-- The reservation was made, and its teardown was requested.
abbrev pub IsRequested : ℕ → Tracker → Type 0
IsRequested r t = ((t.reservation_at r).teardown_requested ≡ true) × (r ≤ t.next_reservation)

put-requested :
    (r k : ℕ) (v : Reservation) (m : ℕ → Reservation)
    → ((m k).teardown_requested ≡ true → v.teardown_requested ≡ true)
    → (m r).teardown_requested ≡ true
    → (put k v m r).teardown_requested ≡ true
unfolding put
put-requested r k v m f h = elim (Bool-cases (r == k)) [
  | inl q ↦ rw q (f (ap (λ j. (m j).teardown_requested) (sym (==→eq r k q)) ∙ h))
  | inr q ↦ rw q h
]

change-IsRequested :
    (r k : ℕ) (f : Reservation → Reservation) (t : Tracker)
    → ((t.reservation_at k).teardown_requested ≡ true
        → (f (t.reservation_at k)).teardown_requested ≡ true)
    → IsRequested r t
    → IsRequested r (change_reservation k f t)
change-IsRequested r k f t keep (h, b) =
    (put-requested r k (f (t.reservation_at k)) t.reservation_at keep h, b)

finish-IsRequested :
    (r k : ℕ) (t : Tracker) → IsRequested r t → IsRequested r (finish_reservation k t)
finish-IsRequested r k t c = change-IsRequested r k (λ v. record v { finished = true }) t (λ h. h) c

reserve_by-IsRequested :
    (k : ℕ) (t : Tracker) (id : ℕ) (r u : Option ℕ) (d : Bool)
    → IsRequested k t
    → IsRequested k (reserve_by t id r u d).0
reserve_by-IsRequested k t id (some r) u d c = c
reserve_by-IsRequested k t id none (some a) d c = c
reserve_by-IsRequested k t id none none true c = c
reserve_by-IsRequested k t id none none false (h, b) = (
  ap (λ v. v.teardown_requested)
        (put-other (suc t.next_reservation) _ t.reservation_at k (ground arith))
      ∙ h,
  omega arith,
)

cancel_if-IsRequested :
    (k : ℕ) (o : Option ℕ) (t : Tracker) → IsRequested k t → IsRequested k (cancel_if o t)
cancel_if-IsRequested k none t c = c
cancel_if-IsRequested k (some g) t c = c

compensation-IsRequested :
    (k r : ℕ) (b : Bool) (t : Tracker)
    → IsRequested k t
    → IsRequested k (prepare_attach_compensation_locked r b t).0
compensation-IsRequested k r false t c = c
compensation-IsRequested k r true t (h, b) = (put-requested k r _ t.reservation_at (λ e. e) h, b)

publish-IsRequested :
    (k id r : ℕ) (x : Tracker × Option ℕ) → IsRequested k x.0 → IsRequested k (publish id r x).0
publish-IsRequested k id r (t, o) c =
    finish-IsRequested k r (record t { reservations = put id none t.reservations }) c

register-IsRequested :
    (k : ℕ) (t : Tracker) (id : ℕ) (auto : Bool) (r : ℕ)
    → IsRequested k t
    → IsRequested k (register_handle t id auto r).0
unfolding register_handle new_port_handle_locked
register-IsRequested k t id auto r c =
    let P = λ (x : Tracker × Result (ℕ × Option ℕ)). IsRequested k x.0 in
    if_rule P (not (is_at (t.reservations id) r)) _ _ (λ lost. c)
      (λ held.
        if_rule P t.closed _ _
          (λ q. finish-IsRequested k r (record t { reservations = put id none t.reservations }) c)
          (λ q. publish-IsRequested k id r (make_handle t id auto r) (
            compensation-IsRequested k r (t.reservation_at r).teardown_requested _
              (cancel_if-IsRequested k (t.handles id) t c))))

predecessor-IsRequested :
    (k : ℕ) (o : Option ℕ) (t : Tracker) → IsRequested k t → IsRequested k (detach_predecessor o t)
predecessor-IsRequested k none t c = c
predecessor-IsRequested k (some g) t c = c

target-IsRequested :
    (k : ℕ) (t : Tracker) (id : ℕ) (r h u : Option ℕ)
    → IsRequested k t
    → IsRequested k (target_by t id r h u).0
target-IsRequested k t id (some r) h u c =
    change-IsRequested k r (λ v. record v { teardown_requested = true }) (detach_predecessor h t)
      (λ e. refl) (predecessor-IsRequested k h t c)
target-IsRequested k t id none (some g) u c =
    target_handle-IsRequested (t.handle_at g).detach_attempt
  where
    target_handle-IsRequested : (o : Option ℕ) → IsRequested k (target_handle t g o).0
    target_handle-IsRequested none = c
    target_handle-IsRequested (some a) = c
target-IsRequested k t id none none (some a) c = c
target-IsRequested k t id none none none c = c

if-IsRequested :
    (k : ℕ) (b : Bool) (x y : Tracker)
    → IsRequested k x
    → IsRequested k y
    → IsRequested k (if b then x else y)
if-IsRequested k true x y p q = p
if-IsRequested k false x y p q = q

Step-IsRequested : {t t' : Tracker} (k : ℕ) → Step t t' → IsRequested k t → IsRequested k t'
unfolding acquire_attach_slot release_attach_slot reserve_attach_port abort_attach_reservation
    acquire_detach_target finish_untracked_detach delete_exact_handle finish_detach_attempt close
Step-IsRequested k (takes_slot t key) c =
    if_rule (λ (x : Tracker × Result (Unit {0})). IsRequested k x.0) t.closed _ _ (λ q. c)
      (λ q.
        if_rule (λ (x : Tracker × Result (Unit {0})). IsRequested k x.0) (has_key key t.in_flight) _
          _ (λ p. c) (λ p. c))
Step-IsRequested k (frees_slot t key) c = c
Step-IsRequested k (reserves t id) c =
    if_rule (λ (x : Tracker × Result ℕ). IsRequested k x.0) t.closed _ _ (λ q. c)
      (λ q. reserve_by-IsRequested k t id _ _ _ c)
Step-IsRequested k (aborts t r) c =
    let id = (t.reservation_at r).port in
    let held = is_at (t.reservations id) r in
    finish-IsRequested k r
      (if held then record t { reservations = put id none t.reservations } else t)
      (if-IsRequested k held _ _ c c)
Step-IsRequested k (registers t id auto r) c = register-IsRequested k t id auto r c
Step-IsRequested k (targets t id) c =
    if_rule (λ (x : Tracker × Result DetachTarget). IsRequested k x.0) t.closed _ _ (λ q. c)
      (λ q. target-IsRequested k t id _ _ _ c)
Step-IsRequested k (ends_untracked t id a e) c = if-IsRequested k (is_at (t.untracked id) a) _ _ c c
Step-IsRequested k (deletes t id g) c = if-IsRequested k (is_at (t.handles id) g) _ _ c c
Step-IsRequested k (ends_attempt t g a e) c = c
Step-IsRequested k (closes t) c = c

pub Run-IsRequested : {t t' : Tracker} (k : ℕ) → Run t t' → IsRequested k t → IsRequested k t'
Run-IsRequested k (stays t) c = c
Run-IsRequested k (goes t t' t'' run step) c = Step-IsRequested k step (Run-IsRequested k run c)
