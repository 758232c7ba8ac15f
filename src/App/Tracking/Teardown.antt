-- ===== src/App/Tracking/Teardown.antt =====
-- A detach that comes while an attachment is being published is not lost.
use usbip_go.Prelude.{
  ℕ, suc, ◌≤◌, ◌≡◌, refl, sym, ap, ◌∙◌, Bool, true, false, not, ◌&&◌, Option, none, some,
  if◌then◌else◌, subst,
}
use usbip_go.Io.Errors.{Error, Result, ok, err}
use usbip_go.App.Tracking.{
  put, is_at, PortHandle, Reservation, Tracker, new_port_handle_locked,
  prepare_attach_compensation_locked, publish, register_handle, detach_predecessor, target_handle,
  target_by, acquire_detach_target, DetachTarget, on_reservation,
}
use usbip_go.App.Tracking.Maps.{put-same}
use usbip_go.App.Tracking.Requested.{Run-IsRequested}
use usbip_go.App.Tracking.Apart.{IsReachable-IsApart}
use usbip_go.App.Tracking.Steps.{IsReachable, Run}

-- The handle `g` of the reservation `r` is being detached by the attempt of the reservation, which the
-- waiting Detach is told of, and no watcher was made that would attach it again.
pub record IsCompensated (t : Tracker) (r g a : ℕ) : Type 0 where
  pub detaching : (t.handle_at g).detaching ≡ true
  pub no_watcher : (t.handle_at g).has_watcher ≡ false
  pub attempt : (t.handle_at g).detach_attempt ≡ some a
  pub told : (t.reservation_at r).detach_attempt ≡ some a
  pub finished : (t.reservation_at r).finished ≡ true

published-IsCompensated :
    (id r : ℕ) (t : Tracker)
    → (t.handle_at t.next_gen).has_watcher ≡ false
    → IsCompensated
        (publish id r (prepare_attach_compensation_locked r true t)).0
        r
        t.next_gen
        (suc t.next_attempt)
published-IsCompensated id r t w = record {
  detaching = ap (λ (h : PortHandle). h.detaching) (put-same t.next_gen _ t.handle_at);
  no_watcher = ap (λ (h : PortHandle). h.has_watcher) (put-same t.next_gen _ t.handle_at) ∙ w;
  attempt = ap (λ (h : PortHandle). h.detach_attempt) (put-same t.next_gen _ t.handle_at);
  told =
      ap (λ (v : Reservation). v.detach_attempt) (put-same r _ _)
      ∙ ap (λ (v : Reservation). v.detach_attempt) (put-same r _ t.reservation_at);
  finished = ap (λ (v : Reservation). v.finished) (put-same r _ _);
}

and_false : (b : Bool) → (b && false) ≡ false
and_false true = refl
and_false false = refl

no_watcher_made :
    (t : Tracker) (id : ℕ) (auto : Bool)
    → (let made = new_port_handle_locked id (auto && false) t in
        (made.handle_at made.next_gen).has_watcher)
      ≡ false
unfolding new_port_handle_locked
no_watcher_made t id auto =
    ap (λ (h : PortHandle). h.has_watcher) (put-same (suc t.next_gen) _ _) ∙ and_false auto

err_is_not_ok :
    {A : Type 0} {x y : Tracker} {e : Error} {v : A}
    → ¬ (◌≡◌ {A = Tracker × Result A} (x, err e) (y, ok v))
err_is_not_ok h = cc

same_parts :
    {t t' : Tracker} {n g : ℕ} {o c : Option ℕ}
    → ◌≡◌ {A = Tracker × Result (ℕ × Option ℕ)} (t, ok (n, o)) (t', ok (g, c))
    → (t ≡ t') × (n ≡ g) × (o ≡ c)
same_parts h = (ap (λ x. x.0) h, cc, cc)

made-IsCompensated :
    (t t' : Tracker) (id r g : ℕ) (auto b : Bool) (c : Option ℕ)
    → b ≡ true
    → publish id r
        (prepare_attach_compensation_locked r b (new_port_handle_locked id (auto && not b) t))
      ≡ (t', ok (g, c))
    → (a : ℕ) × ((c ≡ some a) × IsCompensated t' r g a)
made-IsCompensated t t' id r g auto false c q h = cc
made-IsCompensated t t' id r g auto true c q h =
    let made = new_port_handle_locked id (auto && false) t in
    let a = suc made.next_attempt in
    let (same, number, compensation) = same_parts h in
    (
      a,
      (
        sym compensation,
        subst (λ x. IsCompensated x r g a) same
            (subst
              (λ n.
                IsCompensated (publish id r (prepare_attach_compensation_locked r true made)).0 r n
                  a)
              number (published-IsCompensated id r made (no_watcher_made t id auto))),
      ),
    )

-- `if bad { return …, err }` in front of a registration that succeeded.
passed :
    {A : Type 0} (bad : Bool) (x y : Tracker) (e : Error) (m : Tracker × Result A) {v : A}
    → (if bad then (x, err e) else m) ≡ (y, ok v)
    → m ≡ (y, ok v)
passed true x y e m h = absurd (err_is_not_ok h)
passed false x y e m h = h

reservation_parts :
    {t t' : Tracker} {r k : ℕ}
    → ◌≡◌ {A = Tracker × Result DetachTarget} (t, ok (on_reservation r)) (t', ok (on_reservation k))
    → (t ≡ t') × (r ≡ k)
reservation_parts h = (ap (λ x. x.0) h, cc)

handle_is_no_reservation :
    (t t' : Tracker) (g k : ℕ) (o : Option ℕ)
    → ¬ (target_handle t g o ≡ (t', ok (on_reservation k)))
handle_is_no_reservation t t' g k none q = cc
handle_is_no_reservation t t' g k (some a) q = cc

predecessor-reservations :
    (o : Option ℕ) (t : Tracker) → (detach_predecessor o t).next_reservation ≡ t.next_reservation
predecessor-reservations none t = refl
predecessor-reservations (some g) t = refl

-- The target is a reservation only if the port has that one, whose teardown is then requested.
target-reservation :
    (t t' : Tracker) (id k : ℕ) (r h u : Option ℕ)
    → target_by t id r h u ≡ (t', ok (on_reservation k))
    → (r ≡ some k)
      × ((t'.reservation_at k).teardown_requested ≡ true)
      × (t'.next_reservation ≡ t.next_reservation)
target-reservation t t' id k (some r) h u q =
    let (same, number) = reservation_parts q in
    let p = detach_predecessor h t in
    let v : Reservation = record (p.reservation_at r) { teardown_requested = true } in
    (
      ap some number,
      subst (λ (x : Tracker). (x.reservation_at k).teardown_requested ≡ true) same
          (subst (λ n. (put r v p.reservation_at n).teardown_requested ≡ true) number
            (ap (λ (x : Reservation). x.teardown_requested) (put-same r v p.reservation_at))),
      sym (ap (λ (x : Tracker). x.next_reservation) same) ∙ predecessor-reservations h t,
    )
target-reservation t t' id k none (some g) u q =
    absurd (handle_is_no_reservation t t' g k (t.handle_at g).detach_attempt q)
target-reservation t t' id k none none (some a) q = cc
target-reservation t t' id k none none none q = cc

-- A Detach that finds the attachment to its port still being published waits on the reservation. In
-- whatever order the other critical sections follow, the registration of that reservation, if it
-- succeeds, makes a handle that is already being detached, by an attempt that the reservation tells
-- the waiting Detach of, and makes no watcher that would attach the device again.
pub register_handle-IsCompensated :
    (t t1 t2 t3 : Tracker) (id r port g : ℕ) (auto : Bool) (c : Option ℕ)
    → IsReachable t
    → acquire_detach_target t id ≡ (t1, ok (on_reservation r))
    → Run t1 t2
    → register_handle t2 port auto r ≡ (t3, ok (g, c))
    → (a : ℕ) × ((c ≡ some a) × IsCompensated t3 r g a)
unfolding acquire_detach_target register_handle
register_handle-IsCompensated t t1 t2 t3 id r port g auto c reach target run registered =
    let found = passed t.closed t t1 _ _ target in
    let (held, requested, number) =
      target-reservation t t1 id r (t.reservations id) (t.handles id) (t.untracked id) found in
    let (_, known) = (IsReachable-IsApart reach).promised id r held in
    let (still, _) = Run-IsRequested r run (requested, subst (λ n. r ≤ n) (sym number) known) in
    let unlost = passed (not (is_at (t2.reservations port) r)) t2 t3 _ _ registered in
    let unclosed = passed t2.closed _ t3 _ _ unlost in
    made-IsCompensated t2 t3 port r g auto (t2.reservation_at r).teardown_requested c still unclosed
