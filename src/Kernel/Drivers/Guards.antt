-- ===== src/Kernel/Drivers/Guards.antt =====
-- What a device that passes the guards of Bind is not.
use usbip_go.Prelude.{ℕ, ◌≡◌, refl, sym, ap, ◌∙◌, Bool, true, false, List, [], ◌∷◌, if◌then◌else◌}
use usbip_go.Io.Errors.{Error, Result, ok, err}
use usbip_go.Kernel.Text.{text_eq}
use usbip_go.Kernel.Sysfs.{FileRead, content, fs_path_from_abs, path_join, sysfs_usb_devices}
use usbip_go.Kernel.Actions.{World, Step, looked, look, attempt, give}
use usbip_go.Kernel.Actions.Writes.{and_then-ok}
use usbip_go.Kernel.Drivers.{
  host_modules_available, refuse_vhci_bind_loop, refuse_hub_device, preflight_bind, read_hex16,
  device_attr, hub_result, vhci_loop_result, contains, vhci_dev_path_marker, check_already_exported,
  current_driver, usb_hub_class, exported_result, usbip_host_driver_name,
}

-- The looks at sysfs that the guards of Bind make, one behind the other.
pub record IsGuarded (bus_id : List ℕ) (w : World) (from : List Step) : Type 0 where
  pub modules : host_modules_available (w.view from).files ≡ ok tt
  pub no_loop : refuse_vhci_bind_loop (w.view (looked ∷ from)) bus_id ≡ ok tt
  pub no_hub : refuse_hub_device (w.view (looked ∷ looked ∷ from)) bus_id ≡ ok tt
  pub not_exported :
      (check_already_exported bus_id w (looked ∷ looked ∷ looked ∷ from)).result ≡ ok tt

pub preflight_bind-IsGuarded :
    (bus_id : List ℕ) (w : World) (from : List Step)
    → (preflight_bind bus_id w from).result ≡ ok tt
    → IsGuarded bus_id w from
unfolding preflight_bind look
preflight_bind-IsGuarded bus_id w from h =
    let (a, (p, more)) = and_then-ok (look (λ sys. host_modules_available sys.files)) _ w from h in
    let (b, (q, last)) =
      and_then-ok (look (λ sys. refuse_vhci_bind_loop sys bus_id)) _ w (looked ∷ from) more in
    let (c, (r, end)) =
      and_then-ok (look (λ sys. refuse_hub_device sys bus_id)) _ w (looked ∷ looked ∷ from) last in
    record { modules = p; no_loop = q; no_hub = r; not_exported = end }

ok_is_not_err : {A : Type 0} {a : A} {e : Error} → ¬ (◌≡◌ {A = Result A} (ok a) (err e))
ok_is_not_err h = cc

no_marker :
    (b : Bool) (e : Error)
    → ◌≡◌ {A = Result (Unit {0})} (if b then err e else ok tt) (ok tt)
    → b ≡ false
no_marker true e h = cc
no_marker false e h = refl

hub_class-IsFailed : (r : Result ℕ) → r ≡ ok usb_hub_class → ¬ (hub_result r ≡ ok tt)
hub_class-IsFailed r q h = ok_is_not_err (sym h ∙ ap hub_result q)

-- A hub, by the class that is read for it, does not pass.
pub IsGuarded-no_hub :
    (bus_id : List ℕ) (w : World) (from : List Step)
    → IsGuarded bus_id w from
    → ¬ (
        read_hex16 (w.view (looked ∷ looked ∷ from)).files (
          device_attr bus_id
            (98 ∷ 68 ∷ 101 ∷ 118 ∷ 105 ∷ 99 ∷ 101 ∷ 67 ∷ 108 ∷ 97 ∷ 115 ∷ 115 ∷ []))
        ≡ ok usb_hub_class)
unfolding refuse_hub_device
IsGuarded-no_hub bus_id w from g q = hub_class-IsFailed _ q g.no_hub

vhci-IsFailed :
    (r : FileRead) (target : List ℕ)
    → r ≡ content target
    → vhci_loop_result r ≡ ok tt
    → contains target vhci_dev_path_marker ≡ false
vhci-IsFailed r target q h = no_marker _ _ (sym (ap vhci_loop_result q) ∙ h)

-- Nor does a device whose link leads through the virtual host controller.
pub IsGuarded-no_loop :
    (bus_id : List ℕ) (w : World) (from : List Step) (target : List ℕ)
    → IsGuarded bus_id w from
    → (w.view (looked ∷ from)).link (fs_path_from_abs (path_join sysfs_usb_devices bus_id))
      ≡ content target
    → contains target vhci_dev_path_marker ≡ false
unfolding refuse_vhci_bind_loop
IsGuarded-no_loop bus_id w from target g q = vhci-IsFailed _ target q g.no_loop

exported-IsFailed :
    (r : Result (List ℕ)) → r ≡ ok usbip_host_driver_name → ¬ (exported_result r ≡ ok tt)
unfolding text_eq
exported-IsFailed r q h = ok_is_not_err (sym h ∙ ap exported_result q)

-- Nor does one that usbip-host holds.
pub IsGuarded-not_exported :
    (bus_id : List ℕ) (w : World) (from : List Step)
    → IsGuarded bus_id w from
    → ¬ (
        (current_driver bus_id w (looked ∷ looked ∷ looked ∷ from)).result
        ≡ ok usbip_host_driver_name)
unfolding check_already_exported attempt give
IsGuarded-not_exported bus_id w from g q = exported-IsFailed _ q g.not_exported
