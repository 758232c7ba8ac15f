-- ===== src/Kernel/Drivers/Current.antt =====
-- Finding the driver of a device, and the checks that use it, write nothing.
use usbip_go.Prelude.{ℕ, not, List}
use usbip_go.Kernel.Actions.Writes.{
  IsReading, IsReading-attempt, IsReading-give, IsReading-look, IsReading-and_then, IsReading-if,
}
use usbip_go.Kernel.Drivers.{
  current_driver, is_named, is_absence, is_fault, check_already_exported, preflight_bind,
  preflight_unbind,
}

pub IsReading-current_driver : (iface : List ℕ) → IsReading (current_driver iface)
unfolding current_driver
IsReading-current_driver iface = IsReading-attempt _ _ (IsReading-look _) (λ name.
    IsReading-if (is_named name) _ _ (IsReading-give _) (
      IsReading-attempt _ _ (IsReading-look _) (λ link.
        IsReading-if (is_named link) _ _ (IsReading-give _) (
          IsReading-if (not (is_absence name)) _ _ (IsReading-give _)
            (IsReading-if (is_fault link) _ _ (IsReading-give _) (IsReading-look _))))))

IsReading-check_already_exported : (bus_id : List ℕ) → IsReading (check_already_exported bus_id)
unfolding check_already_exported
IsReading-check_already_exported bus_id =
    IsReading-attempt _ _ (IsReading-current_driver bus_id) (λ driver. IsReading-give _)

pub IsReading-preflight_bind : (bus_id : List ℕ) → IsReading (preflight_bind bus_id)
unfolding preflight_bind
IsReading-preflight_bind bus_id = IsReading-and_then _ _ (IsReading-look _) (λ loaded.
    IsReading-and_then _ _ (IsReading-look _) (λ no_loop.
      IsReading-and_then _ _ (IsReading-look _)
        (λ no_hub. IsReading-check_already_exported bus_id)))

pub IsReading-preflight_unbind : (bus_id : List ℕ) → IsReading (preflight_unbind bus_id)
unfolding preflight_unbind
IsReading-preflight_unbind bus_id =
    IsReading-and_then _ _ (IsReading-look _) (λ loaded.
      IsReading-attempt _ _ (IsReading-current_driver bus_id) (λ driver. IsReading-give _))
