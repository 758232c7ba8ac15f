-- ===== src/Kernel/Bind/Attempts.antt =====
-- The attempts to write to the bind attribute, and the unbinding in front of them: what they write,
-- and that success is an accepted write.
use usbip_go.Prelude.{
  ℕ, ◌≡◌, refl, ap, inl, inr, ◌⊎◌, Option, none, some, List, [], ◌∷◌, ◌==◌, if_rule,
}
use usbip_go.Io.Errors.{Error, Result, ok, err, errors_is, device_not_bound, device_already_bound}
use usbip_go.Kernel.Sysfs.{FsError, Write, write_result, classify_fs_err}
use usbip_go.Kernel.Actions.{World, Step, wrote, Ran, Act, give, attempt, or_return, write}
use usbip_go.Kernel.Actions.Writes.{
  Grows, Grows_trans, Writes, Writes-imp, Writes-IsReading, Writes-give, Writes-if, Writes-write,
  Writes-sleep, Writes-attempt, Writes-and_then,
}
use usbip_go.Kernel.Drivers.{driver_path}
use usbip_go.Kernel.Drivers.Current.{IsReading-current_driver}
use usbip_go.Kernel.Netdevs.Flags.{IsFlagWrite, Writes-deactivate_netdevs}
use usbip_go.Kernel.Bind.{
  bind_attr, pause, attempt_result, bind_attempts, bind_usbip_host_with_retry, unbind_driver,
  unbind_current_device_driver,
}

abbrev pub bind_write : List ℕ → Write
bind_write bus_id = record { target = bind_attr; text = bus_id }

abbrev pub unbind_write : List ℕ → List ℕ → Write
unbind_write driver bus_id = record {
  target = driver_path driver (117 ∷ 110 ∷ 98 ∷ 105 ∷ 110 ∷ 100 ∷ []);
  text = bus_id;
}

-- What Bind writes between adding the bus id and the end: flags of network devices, the bus id to the
-- unbind attribute of a driver, and the bus id to the bind attribute of usbip-host.
abbrev pub IsRelease : List ℕ → Write → Type 0
IsRelease bus_id s =
    IsFlagWrite s
    ⊎ (((driver : List ℕ) × (s ≡ unbind_write driver bus_id)) ⊎ (s ≡ bind_write bus_id))

-- Success behind a last write to the bind attribute that the kernel accepted, or an error.
abbrev pub IsTried : List ℕ → World → List Step → Ran (Unit {0}) → Type 0
IsTried bus_id w from ran =
    ((before : List Step) × (Grows (IsRelease bus_id) from before
        × ((ran.log ≡ wrote (bind_write bus_id) ∷ before)
            × ((w.answer before (bind_write bus_id) ≡ none) × (ran.result ≡ ok tt)))))
    ⊎ (Grows (IsRelease bus_id) from ran.log × ((e : Error) × (ran.result ≡ err e)))

pub Writes-pause :
    (backoff : ℕ) (bus_id : List ℕ) → Writes (IsRelease bus_id) (pause backoff bus_id)
Writes-pause backoff bus_id = Writes-if (backoff == 0) _ _ (Writes-give (ok tt)) (
    Writes-and_then _ _ (Writes-sleep _ _) (λ woken.
      Writes-attempt _ _ (Writes-imp (λ s f. inl f) _ (Writes-deactivate_netdevs bus_id))
        (λ r. Writes-give (ok tt))))

module _ (bus_id : List ℕ) (w : World) (from : List Step)
    (again : Result (Unit {0}) → Act (Unit {0}))
    (again-IsTried : (e : Error) (log : List Step)
      → Grows (IsRelease bus_id) from log
      → IsTried bus_id w from (again (err e) w log)) where
  written-IsTried :
      (mid : List Step)
      → Grows (IsRelease bus_id) from mid
      → (answer : Option FsError) → w.answer mid (bind_write bus_id) ≡ answer
      → IsTried bus_id w from
          (attempt_result again (write_result bind_attr answer) w (wrote (bind_write bus_id) ∷ mid))
  unfolding give
  written-IsTried mid g none q = inl (mid, (g, (refl, (q, refl))))
  written-IsTried mid g (some e) q =
      let log = wrote (bind_write bus_id) ∷ mid in
      let more : Grows (IsRelease bus_id) from log = record {
        new = bind_write bus_id ∷ g.new;
        grown = ap (λ l. bind_write bus_id ∷ l) g.grown;
        property = (inr (inr refl), g.property);
      } in
      if_rule (λ (act : Act (Unit {0})). IsTried bus_id w from (act w log))
        (errors_is (classify_fs_err bind_attr e) device_already_bound) _ _
        (λ busy. again-IsTried _ log more) (λ other. inr (more, (_, refl)))

  paused-IsTried :
      (mid : List Step)
      → Grows (IsRelease bus_id) from mid
      → (r : Result (Unit {0}))
      → IsTried bus_id w from
          (or_return (λ ready. attempt (write bind_attr bus_id) (attempt_result again)) r w mid)
  unfolding give attempt write
  paused-IsTried mid g (err e) = inr (g, (e, refl))
  paused-IsTried mid g (ok done) = written-IsTried mid g (w.answer mid (bind_write bus_id)) refl

attempts-IsTried :
    (bus_id : List ℕ) (w : World) (from : List Step) (backoffs : List ℕ) (e : Error)
    (log : List Step)
    → Grows (IsRelease bus_id) from log
    → IsTried bus_id w from (bind_attempts backoffs bus_id (err e) w log)
unfolding bind_attempts give attempt
attempts-IsTried bus_id w from [] e log g = inr (g, (e, refl))
attempts-IsTried bus_id w from (backoff ∷ backoffs) e log g =
    let ran = pause backoff bus_id w log in
    paused-IsTried bus_id w from (bind_attempts backoffs bus_id)
      (λ x l h. attempts-IsTried bus_id w from backoffs x l h) ran.log
      (Grows_trans from log ran.log g ((Writes-pause backoff bus_id).grows w log)) ran.result

pub retry-IsTried :
    (bus_id : List ℕ) (w : World) (from : List Step)
    → IsTried bus_id w from (bind_usbip_host_with_retry bus_id w from)
unfolding bind_usbip_host_with_retry bind_attempts attempt
retry-IsTried bus_id w from =
    let ran = pause 0 bus_id w from in
    paused-IsTried bus_id w from (bind_attempts (100 ∷ 200 ∷ 400 ∷ 800 ∷ []) bus_id)
      (λ x l h. attempts-IsTried bus_id w from (100 ∷ 200 ∷ 400 ∷ 800 ∷ []) x l h) ran.log
      ((Writes-pause 0 bus_id).grows w from) ran.result

Writes-unbind_driver :
    (bus_id : List ℕ) (driver : Result (List ℕ))
    → Writes (IsRelease bus_id) (unbind_driver bus_id driver)
Writes-unbind_driver bus_id (err e) =
    Writes-if (errors_is e device_not_bound) _ _ (Writes-give (ok tt)) (Writes-give (err e))
Writes-unbind_driver bus_id (ok driver) =
    Writes-write (IsRelease bus_id) _ _ (inr (inl (driver, refl)))

pub Writes-unbind_current :
    (bus_id : List ℕ) → Writes (IsRelease bus_id) (unbind_current_device_driver bus_id)
unfolding unbind_current_device_driver
Writes-unbind_current bus_id =
    Writes-attempt _ _ (Writes-IsReading _ (IsReading-current_driver bus_id))
      (Writes-unbind_driver bus_id)
