-- ===== src/App/Tracking/Shrinking.antt =====
-- Steps that add no entry to the maps of an importer.
use usbip_go.Prelude.{
  ℕ, ◌≤◌, ◌≡◌, refl, sym, ◌∙◌, inl, inr, Bool, true, false, Option, none, some, if◌then◌else◌,
  Option-cases, arith, if_rule,
}
use usbip_go.Io.Errors.{Error}
use usbip_go.App.Tracking.{
  put, is_at, PortHandle, Reservation, Tracker, abort_attach_reservation, detach_predecessor,
  finish_untracked_detach, delete_exact_handle, forget_attempt, finish_detach_attempt, close,
  change_handle, change_reservation, finish_reservation,
}
use usbip_go.App.Tracking.Maps.{put-cases, put-field}

-- A port that is detached untracked has no reservation and no handle; a handle and a reservation stand
-- at the port that they are for, and none is newer than the counters.
pub record IsApart (t : Tracker) : Type 0 where
  pub alone :
      (id a : ℕ) → t.untracked id ≡ some a → (t.reservations id ≡ none) × (t.handles id ≡ none)
  pub owned : (id g : ℕ) → t.handles id ≡ some g → ((t.handle_at g).port ≡ id) × (g ≤ t.next_gen)
  pub promised :
      (id r : ℕ)
      → t.reservations id ≡ some r
      → ((t.reservation_at r).port ≡ id) × (r ≤ t.next_reservation)

-- From `t` to `t'` no map has gained an entry, and no object has changed its port.
pub record Shrinks (t t' : Tracker) : Type 0 where
  pub handles : (id g : ℕ) → t'.handles id ≡ some g → t.handles id ≡ some g
  pub reservations : (id r : ℕ) → t'.reservations id ≡ some r → t.reservations id ≡ some r
  pub untracked : (id a : ℕ) → t'.untracked id ≡ some a → t.untracked id ≡ some a
  pub handle_ports : (g : ℕ) → (t'.handle_at g).port ≡ (t.handle_at g).port
  pub reservation_ports : (r : ℕ) → (t'.reservation_at r).port ≡ (t.reservation_at r).port
  pub gens : t.next_gen ≤ t'.next_gen
  pub numbers : t.next_reservation ≤ t'.next_reservation

none_stays :
    (m m' : ℕ → Option ℕ)
    → ((id v : ℕ) → m' id ≡ some v → m id ≡ some v)
    → (id : ℕ) → m id ≡ none
    → m' id ≡ none
none_stays m m' sub id h = elim (Option-cases (m' id)) [
  | inl q ↦ q
  | inr (v, q) ↦ absurd (some_is_not_none (sym (sub id v q) ∙ h))
]
  where
    some_is_not_none : {v : ℕ} → ¬ (◌≡◌ {A = Option ℕ} (some v) none)
    some_is_not_none e = cc

pub Shrinks-IsApart : (t t' : Tracker) → Shrinks t t' → IsApart t → IsApart t'
Shrinks-IsApart t t' s c = record {
  alone = λ id a h.
      let (no_reservation, no_entry) = c.alone id a (s.untracked id a h) in
      (
        none_stays t.reservations t'.reservations s.reservations id no_reservation,
        none_stays t.handles t'.handles s.handles id no_entry,
      );
  owned = λ id g h.
      let (p, b) = c.owned id g (s.handles id g h) in
      (s.handle_ports g ∙ p, (let m = s.gens in omega arith));
  promised = λ id r h.
      let (p, b) = c.promised id r (s.reservations id r h) in
      (s.reservation_ports r ∙ p, (let m = s.numbers in omega arith));
}

pub Shrinks-refl : (t : Tracker) → Shrinks t t
Shrinks-refl t = record {
  handles = λ id g h. h;
  reservations = λ id r h. h;
  untracked = λ id a h. h;
  handle_ports = λ g. refl;
  reservation_ports = λ r. refl;
  gens = omega arith;
  numbers = omega arith;
}

pub Shrinks-trans : (t t' t'' : Tracker) → Shrinks t t' → Shrinks t' t'' → Shrinks t t''
Shrinks-trans t t' t'' a b = record {
  handles = λ id g h. a.handles id g (b.handles id g h);
  reservations = λ id r h. a.reservations id r (b.reservations id r h);
  untracked = λ id v h. a.untracked id v (b.untracked id v h);
  handle_ports = λ g. b.handle_ports g ∙ a.handle_ports g;
  reservation_ports = λ r. b.reservation_ports r ∙ a.reservation_ports r;
  gens = (let m = a.gens in let n = b.gens in omega arith);
  numbers = (let m = a.numbers in let n = b.numbers in omega arith);
}

-- Entries of a map from which one was deleted.
deleted_sub : (id : ℕ) (m : ℕ → Option ℕ) (j v : ℕ) → put id none m j ≡ some v → m j ≡ some v
deleted_sub id m j v h = elim (put-cases id none m j h) [
  | inl (q, e) ↦ absurd (none_is_not_some e)
  | inr (q, e) ↦ e
]
  where
    none_is_not_some : ¬ (◌≡◌ {A = Option ℕ} none (some v))
    none_is_not_some e = cc

-- Steps that leave the maps alone.
Shrinks-objects :
    (t t' : Tracker)
    → ((id : ℕ) → t'.handles id ≡ t.handles id)
    → ((id : ℕ) → t'.reservations id ≡ t.reservations id)
    → ((id : ℕ) → t'.untracked id ≡ t.untracked id)
    → ((g : ℕ) → (t'.handle_at g).port ≡ (t.handle_at g).port)
    → ((r : ℕ) → (t'.reservation_at r).port ≡ (t.reservation_at r).port)
    → t.next_gen ≤ t'.next_gen
    → t.next_reservation ≤ t'.next_reservation
    → Shrinks t t'
Shrinks-objects t t' h r u hp rp g n = record {
  handles = λ id v e. sym (h id) ∙ e;
  reservations = λ id v e. sym (r id) ∙ e;
  untracked = λ id v e. sym (u id) ∙ e;
  handle_ports = hp;
  reservation_ports = rp;
  gens = g;
  numbers = n;
}

pub Shrinks-change_handle :
    (g : ℕ) (f : PortHandle → PortHandle) (t : Tracker)
    → (f (t.handle_at g)).port ≡ (t.handle_at g).port
    → Shrinks t (change_handle g f t)
Shrinks-change_handle g f t e =
    Shrinks-objects t (change_handle g f t) (λ id. refl) (λ id. refl) (λ id. refl)
      (λ j. put-field (λ h. h.port) g (f (t.handle_at g)) t.handle_at j e) (λ r. refl) (omega arith)
      (omega arith)

pub Shrinks-change_reservation :
    (r : ℕ) (f : Reservation → Reservation) (t : Tracker)
    → (f (t.reservation_at r)).port ≡ (t.reservation_at r).port
    → Shrinks t (change_reservation r f t)
Shrinks-change_reservation r f t e =
    Shrinks-objects t (change_reservation r f t) (λ id. refl) (λ id. refl) (λ id. refl) (λ g. refl)
      (λ j. put-field (λ v. v.port) r (f (t.reservation_at r)) t.reservation_at j e) (omega arith)
      (omega arith)

-- Deletions.
pub Shrinks-handle :
    (id : ℕ) (t : Tracker) → Shrinks t (record t { handles = put id none t.handles })
Shrinks-handle id t = record {
  handles = λ j g h. deleted_sub id t.handles j g h;
  reservations = λ j r h. h;
  untracked = λ j a h. h;
  handle_ports = λ g. refl;
  reservation_ports = λ r. refl;
  gens = omega arith;
  numbers = omega arith;
}

pub Shrinks-reservation :
    (id : ℕ) (t : Tracker) → Shrinks t (record t { reservations = put id none t.reservations })
Shrinks-reservation id t = record {
  handles = λ j g h. h;
  reservations = λ j r h. deleted_sub id t.reservations j r h;
  untracked = λ j a h. h;
  handle_ports = λ g. refl;
  reservation_ports = λ r. refl;
  gens = omega arith;
  numbers = omega arith;
}

pub Shrinks-untracked :
    (id : ℕ) (t : Tracker) → Shrinks t (record t { untracked = put id none t.untracked })
Shrinks-untracked id t = record {
  handles = λ j g h. h;
  reservations = λ j r h. h;
  untracked = λ j a h. deleted_sub id t.untracked j a h;
  handle_ports = λ g. refl;
  reservation_ports = λ r. refl;
  gens = omega arith;
  numbers = omega arith;
}

pub Shrinks-if :
    (b : Bool) (t x y : Tracker) → Shrinks t x → Shrinks t y → Shrinks t (if b then x else y)
Shrinks-if true t x y p q = p
Shrinks-if false t x y p q = q

-- The steps that only take away or change objects.
pub Shrinks-finish_reservation : (r : ℕ) (t : Tracker) → Shrinks t (finish_reservation r t)
Shrinks-finish_reservation r t =
    Shrinks-change_reservation r (λ v. record v { finished = true }) t refl

pub Shrinks-abort : (t : Tracker) (r : ℕ) → Shrinks t (abort_attach_reservation t r)
unfolding abort_attach_reservation
Shrinks-abort t r =
    let id = (t.reservation_at r).port in
    Shrinks-trans t _ _
      (Shrinks-if (is_at (t.reservations id) r) t _ _ (Shrinks-reservation id t) (Shrinks-refl t))
      (Shrinks-finish_reservation r _)

pub Shrinks-delete : (t : Tracker) (id g : ℕ) → Shrinks t (delete_exact_handle t id g)
unfolding delete_exact_handle
Shrinks-delete t id g =
    Shrinks-if (is_at (t.handles id) g) t _ _ (Shrinks-handle id t) (Shrinks-refl t)

pub Shrinks-finish_untracked :
    (t : Tracker) (id a : ℕ) (e : Option Error) → Shrinks t (finish_untracked_detach t id a e)
unfolding finish_untracked_detach
Shrinks-finish_untracked t id a e =
    let t' = record t { outcomes = put a (some e) t.outcomes } in
    Shrinks-trans t t' _
      (Shrinks-objects t t' (λ j. refl) (λ j. refl) (λ j. refl) (λ j. refl) (λ j. refl)
        (omega arith) (omega arith))
      (Shrinks-if (is_at (t.untracked id) a) t' _ _ (Shrinks-untracked id t') (Shrinks-refl t'))

forget_attempt-port :
    (e : Option Error) (a : ℕ) (h : PortHandle) → (forget_attempt e a h).port ≡ h.port
forget_attempt-port none a h = refl
forget_attempt-port (some e) a h =
    if_rule (λ (x : PortHandle). x.port ≡ h.port) (is_at h.detach_attempt a) _ _ (λ q. refl)
      (λ q. refl)

pub Shrinks-finish_attempt :
    (t : Tracker) (g a : ℕ) (e : Option Error) → Shrinks t (finish_detach_attempt t g a e)
unfolding finish_detach_attempt
Shrinks-finish_attempt t g a e =
    let t' = record t { outcomes = put a (some e) t.outcomes } in
    Shrinks-trans t t' _
      (Shrinks-objects t t' (λ j. refl) (λ j. refl) (λ j. refl) (λ j. refl) (λ j. refl)
        (omega arith) (omega arith))
      (Shrinks-change_handle g (forget_attempt e a) t' (forget_attempt-port e a (t.handle_at g)))

pub Shrinks-close : (t : Tracker) → Shrinks t (close t)
unfolding close
Shrinks-close t =
    Shrinks-objects t (close t) (λ j. refl) (λ j. refl) (λ j. refl)
      (λ g.
        if_rule (λ (x : PortHandle). x.port ≡ (t.handle_at g).port)
          (is_at (t.handles (t.handle_at g).port) g) _ _ (λ q. refl) (λ q. refl))
      (λ r. refl) (omega arith) (omega arith)

pub Shrinks-detach_predecessor : (o : Option ℕ) (t : Tracker) → Shrinks t (detach_predecessor o t)
Shrinks-detach_predecessor none t = Shrinks-refl t
Shrinks-detach_predecessor (some g) t =
    Shrinks-change_handle g (λ h. record h { detaching = true; cancelled = true }) t refl
