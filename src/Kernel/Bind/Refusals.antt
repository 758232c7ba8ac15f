-- ===== src/Kernel/Bind/Refusals.antt =====
-- The devices that binding does not touch.
use usbip_go.Prelude.{ℕ, ◌≡◌, refl, inl, inr, ◌⊎◌, false, List, [], ◌∷◌}
use usbip_go.Io.Errors.{Result, ok, err}
use usbip_go.Kernel.Sysfs.{content, fs_path_from_abs, path_join, sysfs_usb_devices}
use usbip_go.Kernel.Actions.{World, Step, looked, Act, give, attempt, or_return}
use usbip_go.Kernel.Actions.Writes.{written}
use usbip_go.Kernel.Drivers.{
  preflight_bind, host_modules_available, read_hex16, device_attr, usb_hub_class, contains,
  vhci_dev_path_marker, current_driver, usbip_host_driver_name,
}
use usbip_go.Kernel.Drivers.Current.{IsReading-preflight_bind}
use usbip_go.Kernel.Drivers.Guards.{
  IsGuarded, preflight_bind-IsGuarded, IsGuarded-no_hub, IsGuarded-no_loop, IsGuarded-not_exported,
}
use usbip_go.Kernel.Bind.{bind}
use usbip_go.Kernel.Bind.Effects.{IsFailed, bind_behind_checks}

refused_or_passed :
    (bus_id : List ℕ) (w : World) (from log : List Step)
    → written log ≡ written from
    → (r : Result (Unit {0})) → (preflight_bind bus_id w from).result ≡ r
    → (rest : Unit {0} → Act (Unit {0}))
    → (IsFailed (or_return rest r w log) × (written (or_return rest r w log).log ≡ written from))
      ⊎ IsGuarded bus_id w from
unfolding give
refused_or_passed bus_id w from log same (err e) q rest = inl ((e, refl), same)
refused_or_passed bus_id w from log same (ok done) q rest =
    inr (preflight_bind-IsGuarded bus_id w from q)

-- Unless Bind fails without a write, the modules were loaded, the class that it read was not that of a
-- hub, the device's link did not lead through the virtual host controller, and the driver that it
-- read was not usbip-host.
pub bind-guarded :
    (bus_id : List ℕ) (w : World) (from : List Step)
    → (IsFailed (bind bus_id w from) × (written (bind bus_id w from).log ≡ written from))
      ⊎ ((host_modules_available (w.view from).files ≡ ok tt)
          × (¬ (
                read_hex16 (w.view (looked ∷ looked ∷ from)).files (
                  device_attr bus_id
                    (98 ∷ 68 ∷ 101 ∷ 118 ∷ 105 ∷ 99 ∷ 101 ∷ 67 ∷ 108 ∷ 97 ∷ 115 ∷ 115 ∷ []))
                ≡ ok usb_hub_class)
              × (((target : List ℕ)
                    → (w.view (looked ∷ from)).link
                        (fs_path_from_abs (path_join sysfs_usb_devices bus_id))
                      ≡ content target
                    → contains target vhci_dev_path_marker ≡ false)
                  × ¬ (
                      (current_driver bus_id w (looked ∷ looked ∷ looked ∷ from)).result
                      ≡ ok usbip_host_driver_name))))
unfolding bind attempt
bind-guarded bus_id w from =
    let ran = preflight_bind bus_id w from in
    elim (refused_or_passed bus_id w from ran.log ((IsReading-preflight_bind bus_id).same w from)
      ran.result refl (bind_behind_checks bus_id)) [
        | inl quiet ↦ inl quiet
        | inr g ↦ inr (
          g.modules,
          (
            IsGuarded-no_hub bus_id w from g,
            (
              (λ target q. IsGuarded-no_loop bus_id w from target g q),
              IsGuarded-not_exported bus_id w from g,
            ),
          ),
        )
      ]
