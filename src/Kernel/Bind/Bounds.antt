-- ===== src/Kernel/Bind/Bounds.antt =====
-- How often binding writes to the bind attribute, and how long it waits.
use usbip_go.Prelude.{ℕ, ◌+◌, ◌%◌, ◌≤◌, ◌≡◌, refl, List, [], ◌∷◌, ◌==◌, length, arith}
use usbip_go.Io.Errors.{Error, Result, ok, err, errors_is, device_already_bound}
use usbip_go.Kernel.Text.{text_eq}
use usbip_go.Kernel.Actions.{World, Step, Act}
use usbip_go.Kernel.Actions.Writes.{written, slept_ms, IsReading-look}
use usbip_go.Kernel.Actions.Costs.{
  write_weight, count_writes, Costs, Costs-IsReading, Costs-weaken, Costs-give, Costs-if,
  Costs-write, Costs-sleep, Costs-attempt, Costs-and_then,
}
use usbip_go.Kernel.Netdevs.{
  clear_up, deactivate_all, deactivate_netdevs, names_or_none, flags_path, cleared_flags,
}
use usbip_go.Kernel.Netdevs.Flags.{IsReading-collect_netdev_names}
use usbip_go.Kernel.Bind.{
  bind_attr, pause, attempt_result, bind_attempts, bind_usbip_host_with_retry,
}

-- The file of flags is not the bind attribute.
flags-differ : (name : List ℕ) → write_weight bind_attr (flags_path name) ≡ 0
unfolding text_eq
flags-differ name = refl

bind_attr-same : write_weight bind_attr bind_attr ≡ 1
unfolding text_eq
bind_attr-same = refl

Costs-clear_up : (name : List ℕ) (flags : Result ℕ) → Costs bind_attr 0 0 (clear_up name flags)
Costs-clear_up name (err e) = Costs-give 0 0 (ok tt)
Costs-clear_up name (ok current) =
    Costs-if 0 0 (current % 2 == 0) _ _ (Costs-give 0 0 (ok tt))
      (Costs-write 0 (flags_path name) (cleared_flags current) (flags-differ name))

Costs-deactivate_all : (names : List (List ℕ)) → Costs bind_attr 0 0 (deactivate_all names)
unfolding deactivate_all
Costs-deactivate_all [] = Costs-give 0 0 (ok tt)
Costs-deactivate_all (name ∷ names) =
    Costs-attempt 0 0 0 0 _ _
      (Costs-attempt 0 0 0 0 _ _ (Costs-IsReading _ (IsReading-look _)) (Costs-clear_up name))
      (λ r. Costs-deactivate_all names)

Costs-deactivate_netdevs : (bus_id : List ℕ) → Costs bind_attr 0 0 (deactivate_netdevs bus_id)
unfolding deactivate_netdevs
Costs-deactivate_netdevs bus_id =
    Costs-attempt 0 0 0 0 _ _ (Costs-IsReading _ (IsReading-collect_netdev_names bus_id))
      (λ names. Costs-deactivate_all (names_or_none names))

Costs-pause :
    (backoff : ℕ) (bus_id : List ℕ) → Costs bind_attr (backoff + 0) 0 (pause backoff bus_id)
Costs-pause backoff bus_id =
    Costs-if (backoff + 0) 0 (backoff == 0) _ _ (Costs-give (backoff + 0) 0 (ok tt)) (
      Costs-and_then backoff 0 0 0 _ _ (Costs-sleep backoff _) (λ woken.
        Costs-attempt 0 0 0 0 _ _ (Costs-deactivate_netdevs bus_id) (λ r. Costs-give 0 0 (ok tt))))

abbrev pub total : List ℕ → ℕ
total [] = 0
total (n ∷ ns) = n + total ns

Costs-attempt_result :
    (m n : ℕ) (again : Result (Unit {0}) → Act (Unit {0}))
    → ((e : Error) → Costs bind_attr m n (again (err e)))
    → (r : Result (Unit {0})) → Costs bind_attr m n (attempt_result again r)
Costs-attempt_result m n again f (ok done) = Costs-give m n (ok tt)
Costs-attempt_result m n again f (err e) =
    Costs-if m n (errors_is e device_already_bound) _ _ (f e) (Costs-give m n (err e))

-- With any schedule, the loop attempts to bind once for each entry and waits for their sum.
Costs-bind_attempts :
    (backoffs bus_id : List ℕ) (last : Result (Unit {0}))
    → Costs bind_attr (total backoffs) (length backoffs) (bind_attempts backoffs bus_id last)
unfolding bind_attempts
Costs-bind_attempts [] bus_id last = Costs-give 0 0 last
Costs-bind_attempts (backoff ∷ backoffs) bus_id last =
    let m = total backoffs in
    let n = length backoffs in
    Costs-weaken (backoff + 0 + (0 + m)) (0 + (1 + n)) _ _ _ (omega arith) (omega arith) (
      Costs-and_then (backoff + 0) 0 (0 + m) (1 + n) _ _ (Costs-pause backoff bus_id) (λ ready.
        Costs-attempt 0 1 m n _ _ (Costs-write 1 bind_attr bus_id bind_attr-same) (
          Costs-attempt_result m n (bind_attempts backoffs bus_id)
            (λ e. Costs-bind_attempts backoffs bus_id (err e)))))

-- Whatever the kernel answers, the attempts to bind a device write to the bind attribute at most five
-- times, and wait at most 1,500 milliseconds in all.
pub bind_usbip_host-bounded :
    (bus_id : List ℕ) (w : World) (log : List Step)
    → (slept_ms (bind_usbip_host_with_retry bus_id w log).log ≤ 1500 + slept_ms log)
      × (count_writes bind_attr (written (bind_usbip_host_with_retry bus_id w log).log)
          ≤ 5 + count_writes bind_attr (written log))
unfolding bind_usbip_host_with_retry
bind_usbip_host-bounded bus_id w log =
    let c = Costs-bind_attempts (0 ∷ 100 ∷ 200 ∷ 400 ∷ 800 ∷ []) bus_id (ok tt) in
    (c.waits w log, c.tries w log)
