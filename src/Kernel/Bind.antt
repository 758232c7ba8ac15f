-- ===== src/Kernel/Bind.antt =====
-- internal/adapter/kernel/bind.go and export.go: giving a device to usbip-host, taking it back, and
-- handing a connection to it.
pub mod Attempts
pub mod Effects
pub mod Bounds
pub mod Release
pub mod Refusals
use usbip_go.Prelude.{ℕ, Bool, true, false, List, [], ◌∷◌, ◌++◌, ◌==◌, if◌then◌else◌}
use usbip_go.Io.Errors.{
  Error, Result, ok, err, wrap, sentinel, errors_is, device_not_bound, device_already_bound,
  context_done,
}
use usbip_go.Kernel.Text.{format_uint}
use usbip_go.Kernel.Sysfs.{sysfs_usbip_host_driver, path_join, read_uint}
use usbip_go.Kernel.Actions.{
  Act, give, attempt, ◌and_then◌, ◌ignoring◌, look, write, sleep, or_return,
}
use usbip_go.Kernel.Drivers.{
  device_attr, driver_path, current_driver, host_modules_available, preflight_bind,
  preflight_unbind,
}
use usbip_go.Kernel.Netdevs.{deactivate_netdevs}

abbrev pub match_bus_id_attr : List ℕ
match_bus_id_attr =
    path_join sysfs_usbip_host_driver
      (109 ∷ 97 ∷ 116 ∷ 99 ∷ 104 ∷ 95 ∷ 98 ∷ 117 ∷ 115 ∷ 105 ∷ 100 ∷ [])

abbrev pub bind_attr : List ℕ
bind_attr = path_join sysfs_usbip_host_driver (98 ∷ 105 ∷ 110 ∷ 100 ∷ [])

abbrev pub unbind_attr : List ℕ
unbind_attr = path_join sysfs_usbip_host_driver (117 ∷ 110 ∷ 98 ∷ 105 ∷ 110 ∷ 100 ∷ [])

abbrev pub rebind_attr : List ℕ
rebind_attr = path_join sysfs_usbip_host_driver (114 ∷ 101 ∷ 98 ∷ 105 ∷ 110 ∷ 100 ∷ [])

abbrev pub drivers_probe : List ℕ
drivers_probe =
    (47 ∷ 115 ∷ 121 ∷ 115 ∷ 47 ∷ 98 ∷ 117 ∷ 115 ∷ 47 ∷ 117 ∷ 115 ∷ 98 ∷ 47 ∷ 100 ∷ 114 ∷ 105 ∷ 118
      ∷ 101 ∷ 114 ∷ 115 ∷ 95 ∷ 112 ∷ 114 ∷ 111 ∷ 98 ∷ 101 ∷ [])

abbrev pub usbip_sockfd : List ℕ → List ℕ
usbip_sockfd bus_id =
    device_attr bus_id (117 ∷ 115 ∷ 98 ∷ 105 ∷ 112 ∷ 95 ∷ 115 ∷ 111 ∷ 99 ∷ 107 ∷ 102 ∷ 100 ∷ [])

abbrev pub match_bus_id_add_prefix : List ℕ
match_bus_id_add_prefix = (97 ∷ 100 ∷ 100 ∷ 32 ∷ [])

abbrev pub match_bus_id_del_prefix : List ℕ
match_bus_id_del_prefix = (100 ∷ 101 ∷ 108 ∷ 32 ∷ [])

abbrev pub usbip_sockfd_disconnect : List ℕ
usbip_sockfd_disconnect = (45 ∷ 49 ∷ [])

-- usbipHostBindRetryBackoffMs, one entry for each attempt.
abbrev pub usbip_host_bind_retry_backoff_ms : List ℕ
usbip_host_bind_retry_backoff_ms = 0 ∷ 100 ∷ 200 ∷ 400 ∷ 800 ∷ []

-- The wait in front of an attempt, with the taking down of network devices behind it.
abbrev pub pause : ℕ → List ℕ → Act (Unit {0})
pause backoff bus_id =
    if backoff == 0
    then give (ok tt)
    else sleep backoff (wrap (sentinel context_done)) and_then λ woken.
        (deactivate_netdevs bus_id ignoring give (ok tt))

abbrev pub attempt_result :
    (Result (Unit {0}) → Act (Unit {0})) → Result (Unit {0}) → Act (Unit {0})
attempt_result again (ok done) = give (ok tt)
attempt_result again (err e) =
    if errors_is e device_already_bound then again (err e) else give (err e)

-- The loop of bindUSBIPHostWithRetry, with `lastErr`.
unfoldable pub bind_attempts : List ℕ → List ℕ → Result (Unit {0}) → Act (Unit {0})
bind_attempts [] bus_id last = give last
bind_attempts (backoff ∷ backoffs) bus_id last = pause backoff bus_id and_then λ ready.
    attempt (write bind_attr bus_id) (attempt_result (bind_attempts backoffs bus_id))

-- bindUSBIPHostWithRetry.
unfoldable pub bind_usbip_host_with_retry : List ℕ → Act (Unit {0})
bind_usbip_host_with_retry bus_id = bind_attempts usbip_host_bind_retry_backoff_ms bus_id (ok tt)

abbrev pub unbind_driver : List ℕ → Result (List ℕ) → Act (Unit {0})
unbind_driver bus_id (err e) = if errors_is e device_not_bound then give (ok tt) else give (err e)
unbind_driver bus_id (ok driver) =
    write (driver_path driver (117 ∷ 110 ∷ 98 ∷ 105 ∷ 110 ∷ 100 ∷ [])) bus_id

-- unbindCurrentDeviceDriver.
unfoldable pub unbind_current_device_driver : List ℕ → Act (Unit {0})
unbind_current_device_driver bus_id = attempt (current_driver bus_id) (unbind_driver bus_id)

-- rollbackBind.
unfoldable pub rollback_bind : List ℕ → Act (Unit {0})
rollback_bind bus_id =
    write match_bus_id_attr (match_bus_id_del_prefix ++ bus_id)
    ignoring (write drivers_probe bus_id ignoring give (ok tt))

-- `if err != nil { a.rollbackBind(busID, err); return err }` in front of the rest of Bind.
abbrev pub or_rollback : List ℕ → Act (Unit {0}) → Result (Unit {0}) → Act (Unit {0})
or_rollback bus_id rest (ok done) = rest
or_rollback bus_id rest (err e) = rollback_bind bus_id ignoring give (err e)

-- Bind, from the unbinding of the driver on.
unfoldable pub take_device : List ℕ → Act (Unit {0})
take_device bus_id = attempt (unbind_current_device_driver bus_id) (
    or_rollback bus_id
      (attempt (bind_usbip_host_with_retry bus_id) (or_rollback bus_id (give (ok tt)))))

-- Bind.
unfoldable pub bind : List ℕ → Act (Unit {0})
bind bus_id = preflight_bind bus_id and_then λ allowed.
    (deactivate_netdevs bus_id
      ignoring (write match_bus_id_attr (match_bus_id_add_prefix ++ bus_id) and_then λ added.
          take_device bus_id))

-- The switch at the end of Unbind.
unfoldable pub first_error :
    Result (Unit {0}) → Result (Unit {0}) → Result (Unit {0}) → Result (Unit {0})
first_error (err e) matched rebound = err e
first_error (ok done) (err e) rebound = err e
first_error (ok done) (ok matched) rebound = rebound

abbrev pub rebind_if : List ℕ → Result (Unit {0}) → Act (Unit {0})
rebind_if bus_id (ok done) = write rebind_attr bus_id
rebind_if bus_id (err e) = give (ok tt)

-- Unbind, behind its checks.
unfoldable pub release_device : List ℕ → Act (Unit {0})
release_device bus_id =
    write (usbip_sockfd bus_id) usbip_sockfd_disconnect
    ignoring attempt (write unbind_attr bus_id) (λ unbound.
      attempt (write match_bus_id_attr (match_bus_id_del_prefix ++ bus_id)) (λ matched.
        attempt (rebind_if bus_id unbound) (λ rebound. give (first_error unbound matched rebound))))

-- Unbind.
unfoldable pub unbind : List ℕ → Act (Unit {0})
unbind bus_id = preflight_unbind bus_id and_then λ held. release_device bus_id

-- ExportOnConn. What extractFD returned for the connection is the argument `fd`.
unfoldable pub export_on_conn : Result ℕ → List ℕ → Act (Unit {0})
export_on_conn fd bus_id = look (λ sys. host_modules_available sys.files) and_then λ loaded.
    (give fd and_then λ n. write (usbip_sockfd bus_id) (format_uint n))

abbrev pub usbip_status_used : ℕ
usbip_status_used = 2

abbrev pub is_used : Result ℕ → Result Bool
is_used (ok status) = ok (status == usbip_status_used)
is_used (err e) = err e

-- ExportSessionActive.
unfoldable pub export_session_active : List ℕ → Act Bool
export_session_active bus_id = look (λ sys. host_modules_available sys.files) and_then λ loaded.
    look (λ sys. is_used (
      read_uint sys.files (
        device_attr bus_id
          (117 ∷ 115 ∷ 98 ∷ 105 ∷ 112 ∷ 95 ∷ 115 ∷ 116 ∷ 97 ∷ 116 ∷ 117 ∷ 115 ∷ []))))

-- Disconnect.
unfoldable pub disconnect : List ℕ → Act (Unit {0})
disconnect bus_id = look (λ sys. host_modules_available sys.files) and_then λ loaded.
    write (usbip_sockfd bus_id) usbip_sockfd_disconnect
