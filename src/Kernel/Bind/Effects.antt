-- ===== src/Kernel/Bind/Effects.antt =====
-- What binding writes, in which order, and what is left behind when it fails.
use usbip_go.Prelude.{ℕ, ◌≡◌, none, List, ◌∷◌, ◌++◌}
use usbip_go.Io.Errors.{Error, ok, err}
use usbip_go.Kernel.Sysfs.{Write}
use usbip_go.Kernel.Actions.{World, Step, wrote, Ran, Act, write, ◌and_then◌, ◌ignoring◌}
use usbip_go.Kernel.Actions.Writes.{written, Grows}
use usbip_go.Kernel.Netdevs.{deactivate_netdevs}
use usbip_go.Kernel.Netdevs.Flags.{IsFlagWrite}
use usbip_go.Kernel.Bind.{
  match_bus_id_attr, match_bus_id_add_prefix, match_bus_id_del_prefix, drivers_probe, take_device,
}
use usbip_go.Kernel.Bind.Attempts.{bind_write, IsRelease}

abbrev pub add_write : List ℕ → Write
add_write bus_id = record { target = match_bus_id_attr; text = match_bus_id_add_prefix ++ bus_id }

abbrev pub del_write : List ℕ → Write
del_write bus_id = record { target = match_bus_id_attr; text = match_bus_id_del_prefix ++ bus_id }

abbrev pub probe_write : List ℕ → Write
probe_write bus_id = record { target = drivers_probe; text = bus_id }

-- From `from` to `to`: flags were cleared, then the bus id was added to the table of usbip-host, and
-- the kernel accepted that; behind it drivers were unbound, flags cleared and binding attempted.
pub record IsAdded (bus_id : List ℕ) (w : World) (from to : List Step) : Type 0 where
  pub before : List Step
  pub cleared : Grows IsFlagWrite from before
  pub accepted : w.answer before (add_write bus_id) ≡ none
  pub released : Grows (IsRelease bus_id) (wrote (add_write bus_id) ∷ before) to

abbrev pub IsFailed : Ran (Unit {0}) → Type 0
IsFailed ran = (e : Error) × (ran.result ≡ err e)

-- Nothing was written, the addition was refused, the addition was taken back by the last two writes,
-- or the last write bound the device.
pub data BindEffect (bus_id : List ℕ) (w : World) (from : List Step) (ran : Ran (Unit {0}))
    : Type 0 where
  refused : IsFailed ran → written ran.log ≡ written from → BindEffect bus_id w from ran
  not_added :
      IsFailed ran
      → (before : List Step) → Grows IsFlagWrite from before
      → ran.log ≡ wrote (add_write bus_id) ∷ before
      → BindEffect bus_id w from ran
  rolled_back :
      IsFailed ran
      → (before : List Step) → IsAdded bus_id w from before
      → ran.log ≡ wrote (probe_write bus_id) ∷ wrote (del_write bus_id) ∷ before
      → BindEffect bus_id w from ran
  bound :
      ran.result ≡ ok tt
      → (before : List Step) → IsAdded bus_id w from before
      → w.answer before (bind_write bus_id) ≡ none
      → ran.log ≡ wrote (bind_write bus_id) ∷ before
      → BindEffect bus_id w from ran

module _ (bus_id : List ℕ) (w : World) (from before : List Step)
    (cleared : Grows IsFlagWrite from before)
    (accepted : w.answer before (add_write bus_id) ≡ none) where
  added :
      (to : List Step)
      → Grows (IsRelease bus_id) (wrote (add_write bus_id) ∷ before) to
      → IsAdded bus_id w from to
  added to g = record { before = before; cleared = cleared; accepted = accepted; released = g }

-- Bind behind its checks.
abbrev pub bind_behind_checks : List ℕ → Unit {0} → Act (Unit {0})
bind_behind_checks bus_id allowed =
    deactivate_netdevs bus_id
    ignoring (write match_bus_id_attr (match_bus_id_add_prefix ++ bus_id) and_then λ added.
        take_device bus_id)
