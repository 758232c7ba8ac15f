-- ===== src/App/Tracking/Apart.antt =====
-- A port is never detached as unknown while an attachment to it is published or a handle holds it, in
-- any order of the critical sections.
use usbip_go.Prelude.{
  ℕ, suc, ◌≤◌, ◌≡◌, refl, sym, ap, ◌∙◌, inl, inr, Bool, true, false, not, Option, none, some, ◌==◌,
  Bool-cases, Option-cases, arith, if_rule, ==→eq,
}
use usbip_go.Io.Errors.{Result}
use usbip_go.App.Tracking.{
  put, is_at, PortHandle, Tracker, new_reservation, has_key, acquire_attach_slot,
  release_attach_slot, reserve_by, reserve_attach_port, new_port_handle_locked,
  prepare_attach_compensation_locked, publish, make_handle, register_handle, detach_predecessor,
  target_handle, target_by, acquire_detach_target, change_handle, cancel_if, DetachTarget,
}
use usbip_go.App.Tracking.Maps.{put-cases, put-same, put-other, is_at-eq}
use usbip_go.App.Tracking.Shrinking.{
  IsApart, Shrinks, Shrinks-refl, Shrinks-trans, Shrinks-IsApart, Shrinks-change_handle,
  Shrinks-change_reservation, Shrinks-reservation, Shrinks-finish_reservation, Shrinks-abort,
  Shrinks-delete, Shrinks-finish_untracked, Shrinks-finish_attempt, Shrinks-close,
  Shrinks-detach_predecessor,
}
use usbip_go.App.Tracking.Steps.{
  Step, takes_slot, frees_slot, reserves, aborts, registers, targets, ends_untracked, deletes,
  ends_attempt, closes, IsReachable, starts, continues,
}

none_is_not_some : {v : ℕ} → ¬ (◌≡◌ {A = Option ℕ} none (some v))
none_is_not_some e = cc

newest-eq : (v n : ℕ) → ◌≡◌ {A = Option ℕ} (some v) (some n) → v ≡ n
newest-eq v n e = cc

older : (g n : ℕ) → g ≤ n → (g == suc n) ≡ false
older g n h = ground arith

acquire-IsApart : (t : Tracker) (key : _) → IsApart t → IsApart (acquire_attach_slot t key).0
unfolding acquire_attach_slot
acquire-IsApart t key c =
    if_rule (λ (x : Tracker × Result (Unit {0})). IsApart x.0) t.closed _ _ (λ q. c)
      (λ q.
        if_rule (λ (x : Tracker × Result (Unit {0})). IsApart x.0) (has_key key t.in_flight) _ _
          (λ p. c) (λ p. record { alone = c.alone; owned = c.owned; promised = c.promised }))

-- A new entry of a map whose object is new: the port of the object of an entry.
new_object :
    {A : Type 0} (port : A → ℕ) (id n : ℕ) (v : A) (m : ℕ → Option ℕ) (objects : ℕ → A)
    → port v ≡ id
    → ((j g : ℕ) → m j ≡ some g → (port (objects g) ≡ j) × (g ≤ n))
    → (j g : ℕ) → put id (some (suc n)) m j ≡ some g
    → (port (put (suc n) v objects g) ≡ j) × (g ≤ suc n)
new_object port id n v m objects at old j g h = elim (put-cases id (some (suc n)) m j h) [
  | inl (q, e) ↦
      let same = newest-eq (suc n) g e in
      (
        ap (λ k. port (put (suc n) v objects k)) (sym same)
            ∙ ap port (put-same (suc n) v objects)
            ∙ at
            ∙ sym q,
        omega arith,
      )
  | inr (q, e) ↦
      let (p, b) = old j g e in
      (ap port (put-other (suc n) v objects g (older g n b)) ∙ p, omega arith)
]

reserve_by-IsApart :
    (t : Tracker) (id : ℕ) (r u : Option ℕ) (d : Bool)
    → t.untracked id ≡ u
    → IsApart t
    → IsApart (reserve_by t id r u d).0
reserve_by-IsApart t id (some r) u d q c = c
reserve_by-IsApart t id none (some a) d q c = c
reserve_by-IsApart t id none none true q c = c
reserve_by-IsApart t id none none false q c = record {
  alone = λ j a h.
      let (no_reservation, no_entry) = c.alone j a h in
      elim (Bool-cases (j == id)) [
        | inl e ↦ absurd (none_is_not_some (sym (ap t.untracked (==→eq j id e) ∙ q) ∙ h))
        | inr e ↦ (put-other id _ t.reservations j e ∙ no_reservation, no_entry)
      ];
  owned = c.owned;
  promised =
      new_object (λ v. v.port) id t.next_reservation (new_reservation id) t.reservations
        t.reservation_at refl c.promised;
}

-- A new attempt changes no map.
Shrinks-attempt : (t : Tracker) (a : ℕ) → Shrinks t (record t { next_attempt = a })
Shrinks-attempt t a = record {
  handles = λ j g h. h;
  reservations = λ j r h. h;
  untracked = λ j v h. h;
  handle_ports = λ g. refl;
  reservation_ports = λ r. refl;
  gens = omega arith;
  numbers = omega arith;
}

target_handle-IsApart :
    (t : Tracker) (g : ℕ) (o : Option ℕ) → IsApart t → IsApart (target_handle t g o).0
target_handle-IsApart t g (some a) c = c
target_handle-IsApart t g none c =
    let a = suc t.next_attempt in
    let t' = record t { next_attempt = a } in
    Shrinks-IsApart t _
      (Shrinks-trans t t' _ (Shrinks-attempt t a) (
        Shrinks-change_handle g (λ h. record h { detaching = true; detach_attempt = some a }) t'
          refl))
      c

not-false : (b : Bool) → not b ≡ false → b ≡ true
not-false true h = refl
not-false false h = cc

reserve-IsApart : (t : Tracker) (id : ℕ) → IsApart t → IsApart (reserve_attach_port t id).0
unfolding reserve_attach_port
reserve-IsApart t id c =
    if_rule (λ (x : Tracker × Result ℕ). IsApart x.0) t.closed _ _ (λ q. c)
      (λ q. reserve_by-IsApart t id _ _ _ refl c)

Shrinks-cancel_if : (o : Option ℕ) (t : Tracker) → Shrinks t (cancel_if o t)
Shrinks-cancel_if none t = Shrinks-refl t
Shrinks-cancel_if (some g) t = Shrinks-change_handle g (λ h. record h { cancelled = true }) t refl

entry-IsApart :
    (t : Tracker) (id : ℕ) (h : PortHandle)
    → h.port ≡ id
    → t.untracked id ≡ none
    → IsApart t
    → IsApart (record t {
      next_gen = suc t.next_gen;
      handles = put id (some (suc t.next_gen)) t.handles;
      handle_at = put (suc t.next_gen) h t.handle_at;
    })
entry-IsApart t id h at unknown c = record {
  alone = λ j a e.
      let (no_reservation, no_entry) = c.alone j a e in
      elim (Bool-cases (j == id)) [
        | inl q ↦ absurd (none_is_not_some (sym (ap t.untracked (==→eq j id q) ∙ unknown) ∙ e))
        | inr q ↦ (no_reservation, put-other id _ t.handles j q ∙ no_entry)
      ];
  owned = new_object (λ v. v.port) id t.next_gen h t.handles t.handle_at at c.owned;
  promised = c.promised;
}

new_handle-IsApart :
    (t : Tracker) (id : ℕ) (auto : Bool) (o : Option ℕ)
    → t.untracked id ≡ none
    → IsApart t
    → IsApart (
        let t' = cancel_if o t in
        record t' {
          next_gen = suc t.next_gen;
          handles = put id (some (suc t.next_gen)) t'.handles;
          handle_at =
              put
                (suc t.next_gen)
                (record {
                  port = id;
                  has_watcher = auto;
                  cancelled = false;
                  detaching = false;
                  detach_attempt = none;
                })
                t'.handle_at;
        })
new_handle-IsApart t id auto none unknown c = entry-IsApart t id _ refl unknown c
new_handle-IsApart t id auto (some g) unknown c =
    let t' = cancel_if (some g) t in
    entry-IsApart t' id _ refl unknown (Shrinks-IsApart t t' (Shrinks-cancel_if (some g) t) c)

compensation-Shrinks :
    (r : ℕ) (b : Bool) (t : Tracker) → Shrinks t (prepare_attach_compensation_locked r b t).0
compensation-Shrinks r false t = Shrinks-refl t
compensation-Shrinks r true t =
    let a = suc t.next_attempt in
    let t1 = record t { next_attempt = a } in
    let t2 =
      change_handle t.next_gen (λ h. record h { detaching = true; detach_attempt = some a }) t1 in
    Shrinks-trans t t1 _ (Shrinks-attempt t a) (
      Shrinks-trans t1 t2 _
        (Shrinks-change_handle t.next_gen
          (λ h. record h { detaching = true; detach_attempt = some a }) t1 refl)
        (Shrinks-change_reservation r (λ v. record v { detach_attempt = some a }) t2 refl))

publish-IsApart : (id r : ℕ) (x : Tracker × Option ℕ) → IsApart x.0 → IsApart (publish id r x).0
publish-IsApart id r (t, compensation) c =
    let t' = record t { reservations = put id none t.reservations } in
    Shrinks-IsApart t _
      (Shrinks-trans t t' _ (Shrinks-reservation id t) (Shrinks-finish_reservation r t')) c

unknown_port :
    (t : Tracker) (id r : ℕ) → IsApart t → t.reservations id ≡ some r → t.untracked id ≡ none
unknown_port t id r c h = elim (Option-cases (t.untracked id)) [
  | inl q ↦ q
  | inr (a, q) ↦ absurd (none_is_not_some (sym (c.alone id a q).0 ∙ h))
]

register-IsApart :
    (t : Tracker) (id : ℕ) (auto : Bool) (r : ℕ)
    → IsApart t
    → IsApart (register_handle t id auto r).0
unfolding register_handle new_port_handle_locked
register-IsApart t id auto r c =
    let P = λ (x : Tracker × Result (ℕ × Option ℕ)). IsApart x.0 in
    let forgotten = record t { reservations = put id none t.reservations } in
    if_rule P (not (is_at (t.reservations id) r)) _ _ (λ lost. c)
      (λ held.
        if_rule P t.closed _ _
          (λ q.
            Shrinks-IsApart t _
              (Shrinks-trans t forgotten _ (Shrinks-reservation id t)
                (Shrinks-finish_reservation r forgotten))
              c)
          (λ q.
            let unknown =
              unknown_port t id r c (is_at-eq (t.reservations id) r (not-false _ held)) in
            let made = new_handle-IsApart t id _ (t.handles id) unknown c in
            publish-IsApart id r (make_handle t id auto r) (
              Shrinks-IsApart _ _ (compensation-Shrinks r (t.reservation_at r).teardown_requested _)
                made)))

target-IsApart :
    (t : Tracker) (id : ℕ) (r h u : Option ℕ)
    → t.reservations id ≡ r
    → t.handles id ≡ h
    → IsApart t
    → IsApart (target_by t id r h u).0
target-IsApart t id (some r) h u a b c =
    let t' = detach_predecessor h t in
    Shrinks-IsApart t _
      (Shrinks-trans t t' _ (Shrinks-detach_predecessor h t)
        (Shrinks-change_reservation r (λ v. record v { teardown_requested = true }) t' refl))
      c
target-IsApart t id none (some g) u a b c = target_handle-IsApart t g _ c
target-IsApart t id none none (some v) a b c = c
target-IsApart t id none none none a b c = record {
  alone = λ j v e. elim (put-cases id _ t.untracked j e) [
    | inl (q, same) ↦ (ap t.reservations q ∙ a, ap t.handles q ∙ b)
    | inr (q, old) ↦ c.alone j v old
  ];
  owned = c.owned;
  promised = c.promised;
}

acquire_target-IsApart : (t : Tracker) (id : ℕ) → IsApart t → IsApart (acquire_detach_target t id).0
unfolding acquire_detach_target
acquire_target-IsApart t id c =
    if_rule (λ (x : Tracker × Result DetachTarget). IsApart x.0) t.closed _ _ (λ q. c)
      (λ q. target-IsApart t id _ _ _ refl refl c)

pub Step-IsApart : {t t' : Tracker} → Step t t' → IsApart t → IsApart t'
unfolding release_attach_slot
Step-IsApart (takes_slot t key) c = acquire-IsApart t key c
Step-IsApart (frees_slot t key) c = record {
  alone = c.alone;
  owned = c.owned;
  promised = c.promised;
}
Step-IsApart (reserves t id) c = reserve-IsApart t id c
Step-IsApart (aborts t r) c = Shrinks-IsApart t _ (Shrinks-abort t r) c
Step-IsApart (registers t id auto r) c = register-IsApart t id auto r c
Step-IsApart (targets t id) c = acquire_target-IsApart t id c
Step-IsApart (ends_untracked t id a e) c = Shrinks-IsApart t _ (Shrinks-finish_untracked t id a e) c
Step-IsApart (deletes t id g) c = Shrinks-IsApart t _ (Shrinks-delete t id g) c
Step-IsApart (ends_attempt t g a e) c = Shrinks-IsApart t _ (Shrinks-finish_attempt t g a e) c
Step-IsApart (closes t) c = Shrinks-IsApart t _ (Shrinks-close t) c

-- In any order of the critical sections of an importer, a port that is being detached as one that the
-- importer does not know has neither an attachment that is being published nor a handle; every handle
-- and every reservation stands at the port that it was made for, so that none stands at two.
pub IsReachable-IsApart : {t : Tracker} → IsReachable t → IsApart t
IsReachable-IsApart starts = record {
  alone = λ id a h. absurd (none_is_not_some h);
  owned = λ id g h. absurd (none_is_not_some h);
  promised = λ id r h. absurd (none_is_not_some h);
}
IsReachable-IsApart (continues t t' r step) = Step-IsApart step (IsReachable-IsApart r)
