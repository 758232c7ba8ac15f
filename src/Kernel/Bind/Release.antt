-- ===== src/Kernel/Bind/Release.antt =====
-- What unbinding writes, and the error that it returns.
use usbip_go.Prelude.{ℕ, ◌≡◌, refl, sym, subst, Option, none, some, List, ◌∷◌}
use usbip_go.Io.Errors.{Result, ok, err}
use usbip_go.Kernel.Sysfs.{FsError, Write, write_result, classify_fs_err}
use usbip_go.Kernel.Actions.{World, Step, wrote, Ran, give, attempt, or_return, write}
use usbip_go.Kernel.Actions.Writes.{written}
use usbip_go.Kernel.Drivers.{preflight_unbind}
use usbip_go.Kernel.Drivers.Current.{IsReading-preflight_unbind}
use usbip_go.Kernel.Bind.{
  unbind_attr, rebind_attr, match_bus_id_attr, usbip_sockfd, usbip_sockfd_disconnect, first_error,
  release_device, unbind, rebind_if,
}
use usbip_go.Kernel.Bind.Effects.{del_write, IsFailed}

abbrev pub disconnect_write : List ℕ → Write
disconnect_write bus_id = record { target = usbip_sockfd bus_id; text = usbip_sockfd_disconnect }

abbrev pub release_write : List ℕ → Write
release_write bus_id = record { target = unbind_attr; text = bus_id }

abbrev pub rebind_write : List ℕ → Write
rebind_write bus_id = record { target = rebind_attr; text = bus_id }

-- The log behind the first, the second, the third and the fourth write of Unbind.
abbrev pub disconnected : List ℕ → List Step → List Step
disconnected bus_id log = wrote (disconnect_write bus_id) ∷ log

abbrev pub released : List ℕ → List Step → List Step
released bus_id log = wrote (release_write bus_id) ∷ disconnected bus_id log

abbrev pub deleted : List ℕ → List Step → List Step
deleted bus_id log = wrote (del_write bus_id) ∷ released bus_id log

abbrev pub rebound : List ℕ → List Step → List Step
rebound bus_id log = wrote (rebind_write bus_id) ∷ deleted bus_id log

-- Nothing is written and the result is an error; or the connection is ended, the device unbound and
-- its bus id deleted, in this order, whatever the kernel answers, and the device is bound again
-- exactly if the unbinding was accepted. The result is the error of the first of these three writes
-- that the kernel refused.
pub data UnbindEffect (bus_id : List ℕ) (w : World) (from : List Step) (ran : Ran (Unit {0}))
    : Type 0 where
  refused : IsFailed ran → written ran.log ≡ written from → UnbindEffect bus_id w from ran
  not_unbound :
      (log : List Step)
      → written log ≡ written from
      → (e : FsError) → w.answer (disconnected bus_id log) (release_write bus_id) ≡ some e
      → ran ≡ record { log = deleted bus_id log; result = err (classify_fs_err unbind_attr e) }
      → UnbindEffect bus_id w from ran
  not_deleted :
      (log : List Step)
      → written log ≡ written from
      → w.answer (disconnected bus_id log) (release_write bus_id) ≡ none
      → (e : FsError) → w.answer (released bus_id log) (del_write bus_id) ≡ some e
      → ran
        ≡ record { log = rebound bus_id log; result = err (classify_fs_err match_bus_id_attr e) }
      → UnbindEffect bus_id w from ran
  not_rebound :
      (log : List Step)
      → written log ≡ written from
      → w.answer (disconnected bus_id log) (release_write bus_id) ≡ none
      → w.answer (released bus_id log) (del_write bus_id) ≡ none
      → (e : FsError) → w.answer (deleted bus_id log) (rebind_write bus_id) ≡ some e
      → ran ≡ record { log = rebound bus_id log; result = err (classify_fs_err rebind_attr e) }
      → UnbindEffect bus_id w from ran
  unbound :
      (log : List Step)
      → written log ≡ written from
      → w.answer (disconnected bus_id log) (release_write bus_id) ≡ none
      → w.answer (released bus_id log) (del_write bus_id) ≡ none
      → w.answer (deleted bus_id log) (rebind_write bus_id) ≡ none
      → ran ≡ record { log = rebound bus_id log; result = ok tt }
      → UnbindEffect bus_id w from ran

module _ (bus_id : List ℕ) (w : World) (from log : List Step)
    (same : written log ≡ written from) where
  -- Unbind from the first write on, by the kernel's answers to the next three.
  answered : Option FsError → Option FsError → Option FsError → Ran (Unit {0})
  answered none matched rebind = record {
    log = rebound bus_id log;
    result =
        first_error (ok tt) (write_result match_bus_id_attr matched)
          (write_result rebind_attr rebind);
  }
  answered (some e) matched rebind = record {
    log = deleted bus_id log;
    result = err (classify_fs_err unbind_attr e);
  }

  answered-effect :
      (u m r : Option FsError)
      → w.answer (disconnected bus_id log) (release_write bus_id) ≡ u
      → w.answer (released bus_id log) (del_write bus_id) ≡ m
      → w.answer (deleted bus_id log) (rebind_write bus_id) ≡ r
      → UnbindEffect bus_id w from (answered u m r)
  unfolding answered first_error
  answered-effect (some e) m r a b c = not_unbound log same e a refl
  answered-effect none (some e) r a b c = not_deleted log same a e b refl
  answered-effect none none (some e) a b c = not_rebound log same a b e c refl
  answered-effect none none none a b c = unbound log same a b c refl

  -- The end of Unbind, by the kernel's answer to the unbinding.
  rebound_or_not :
      (u m : Option FsError)
      → (let unbound = write_result unbind_attr u in
          let matched = write_result match_bus_id_attr m in
          attempt
            (rebind_if bus_id unbound)
            (λ rebound. give (first_error unbound matched rebound))
            w
            (deleted bus_id log))
        ≡ answered u m (w.answer (deleted bus_id log) (rebind_write bus_id))
  unfolding answered give attempt write first_error
  rebound_or_not none m = refl
  rebound_or_not (some e) m = refl

  release-effect : UnbindEffect bus_id w from (release_device bus_id w log)
  unfolding release_device give attempt write
  release-effect =
      let u = w.answer (disconnected bus_id log) (release_write bus_id) in
      let m = w.answer (released bus_id log) (del_write bus_id) in
      let r = w.answer (deleted bus_id log) (rebind_write bus_id) in
      subst (UnbindEffect bus_id w from) (sym (rebound_or_not u m))
        (answered-effect u m r refl refl refl)

held-effect :
    (bus_id : List ℕ) (w : World) (from log : List Step)
    → written log ≡ written from
    → (r : Result (Unit {0}))
    → UnbindEffect bus_id w from (or_return (λ held. release_device bus_id) r w log)
unfolding give
held-effect bus_id w from log same (err e) = refused (e, refl) same
held-effect bus_id w from log same (ok done) = release-effect bus_id w from log same

-- Whatever the kernel answers, Unbind fails without a write, or it writes in this order: the end of the
-- connection, the unbinding, the deletion of the bus id, and, exactly if the kernel accepted the
-- unbinding, the rebinding. It succeeds exactly if the kernel accepted the last three, and otherwise
-- its error is that of the first of them which the kernel refused.
pub unbind-effect :
    (bus_id : List ℕ) (w : World) (from : List Step)
    → UnbindEffect bus_id w from (unbind bus_id w from)
unfolding unbind attempt
unbind-effect bus_id w from =
    let ran = preflight_unbind bus_id w from in
    held-effect bus_id w from ran.log ((IsReading-preflight_unbind bus_id).same w from) ran.result
