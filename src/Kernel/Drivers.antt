-- ===== src/Kernel/Drivers.antt =====
-- internal/adapter/kernel/bind.go, with the helpers of sysfs.go and device.go that it calls: which
-- driver holds a device, and the guards in front of binding and unbinding.
pub mod Current
pub mod Guards
use usbip_go.Prelude.{
  ℕ, Bool, true, false, not, ◌&&◌, ◌||◌, Option, none, some, List, [], ◌∷◌, ◌++◌, ltb, ◌==◌,
  if◌then◌else◌, drop,
}
use usbip_go.Io.Errors.{
  Error, Result, ok, err, ◌>>=◌, wrap, sentinel, system, errors_is, file_not_exist, file_permission,
  device_not_found, device_not_bound, device_already_bound, kernel_module_missing,
  unsupported_device,
}
use usbip_go.Domain.BusId.{is_empty}
use usbip_go.Kernel.Text.{text_eq, has_prefix, parse_uint}
use usbip_go.Kernel.Sysfs.{
  FsError, errno, not_exist, no_permission, other_error, Fs, FileRead, content, failed,
  is_not_exist, sysfs_usb_devices, path_join, fs_path_from_abs, classify_fs_err, read_line,
  check_modules, parsed_or_error, module_usbip_core,
}
use usbip_go.Kernel.Actions.{
  Sys, DirRead, listing, no_listing, Act, give, attempt, ◌and_then◌, look, or_return,
}

abbrev pub usb_drivers_dir : List ℕ
usb_drivers_dir =
    (47 ∷ 115 ∷ 121 ∷ 115 ∷ 47 ∷ 98 ∷ 117 ∷ 115 ∷ 47 ∷ 117 ∷ 115 ∷ 98 ∷ 47 ∷ 100 ∷ 114 ∷ 105 ∷ 118
      ∷ 101 ∷ 114 ∷ 115 ∷ [])

abbrev pub usbip_host_driver_name : List ℕ
usbip_host_driver_name = (117 ∷ 115 ∷ 98 ∷ 105 ∷ 112 ∷ 45 ∷ 104 ∷ 111 ∷ 115 ∷ 116 ∷ [])

abbrev pub module_usbip_host : List ℕ
module_usbip_host = (117 ∷ 115 ∷ 98 ∷ 105 ∷ 112 ∷ 95 ∷ 104 ∷ 111 ∷ 115 ∷ 116 ∷ [])

abbrev pub vhci_dev_path_marker : List ℕ
vhci_dev_path_marker = (118 ∷ 104 ∷ 99 ∷ 105 ∷ 95 ∷ 104 ∷ 99 ∷ 100 ∷ [])

abbrev pub usb_hub_class : ℕ
usb_hub_class = 9

abbrev pub drop_prefix : List ℕ → List ℕ → List ℕ
drop_prefix s [] = s
drop_prefix [] (b ∷ p) = []
drop_prefix (a ∷ s) (b ∷ p) = drop_prefix s p

-- strings.TrimPrefix.
unfoldable pub trim_prefix : List ℕ → List ℕ → List ℕ
trim_prefix s p = if has_prefix s p then drop_prefix s p else s

-- strings.Contains.
unfoldable pub contains : List ℕ → List ℕ → Bool
contains [] t = has_prefix [] t
contains (a ∷ s) t = has_prefix (a ∷ s) t || contains s t

-- isMissing; ENOENT is fs.ErrNotExist too.
unfoldable pub is_missing : Error → Bool
is_missing e =
    errors_is e file_not_exist
    || (errors_is e (system 2)
        || (errors_is e device_not_found || errors_is e kernel_module_missing))

-- readLink. A file system without ReadLink answers fs.ErrNotExist.
unfoldable pub link_error : FsError → Error
link_error (errno n) = wrap (sentinel (system n))
link_error not_exist = wrap (sentinel file_not_exist)
link_error no_permission = wrap (sentinel file_permission)
link_error (other_error n) = wrap (sentinel (system n))

unfoldable pub link_result : FileRead → Result (List ℕ)
link_result (content target) = ok target
link_result (failed e) = err (link_error e)

unfoldable pub read_link : Sys → List ℕ → Result (List ℕ)
read_link sys path = link_result (sys.link (fs_path_from_abs path))

-- ReadHex16.
unfoldable pub read_hex16 : Fs → List ℕ → Result ℕ
read_hex16 fs path = read_line fs path >>= λ line.
    parsed_or_error
      (parse_uint 16 16 (trim_prefix (trim_prefix line (48 ∷ 120 ∷ [])) (48 ∷ 88 ∷ [])))

abbrev pub trim_slashes : List ℕ → List ℕ
trim_slashes [] = []
trim_slashes (b ∷ s) =
    let rest = trim_slashes s in if is_empty rest && b == b'/' then [] else b ∷ rest

abbrev pub last_part : List ℕ → List ℕ → List ℕ
last_part name [] = name
last_part name (b ∷ s) = elim (b == b'/') [
  | true ↦ last_part [] s
  | false ↦ last_part (name ++ (b ∷ [])) s
]

-- path.Base.
unfoldable pub base : List ℕ → List ℕ
base [] = (46 ∷ [])
base (b ∷ p) =
    let name = last_part [] (trim_slashes (b ∷ p)) in if is_empty name then (47 ∷ []) else name

-- driverPath; path.Join leaves out an empty element.
unfoldable pub driver_path : List ℕ → List ℕ → List ℕ
driver_path [] attr = path_join usb_drivers_dir attr
driver_path (b ∷ driver) attr = path_join (path_join usb_drivers_dir (b ∷ driver)) attr

abbrev pub device_attr : List ℕ → List ℕ → List ℕ
device_attr bus_id attr = path_join (path_join sysfs_usb_devices bus_id) attr

-- `err == nil && s != ""`.
abbrev pub is_named : Result (List ℕ) → Bool
is_named (ok s) = not (is_empty s)
is_named (err e) = false

-- `isMissing(err)`, where a nil error is not missing.
abbrev pub is_absence : Result (List ℕ) → Bool
is_absence (ok s) = false
is_absence (err e) = is_missing e

-- `err != nil && !isMissing(err)`.
abbrev pub is_fault : Result (List ℕ) → Bool
is_fault (ok s) = false
is_fault (err e) = not (is_missing e)

-- `return "", err`.
abbrev pub unnamed : Result (List ℕ) → Result (List ℕ)
unnamed (ok s) = ok []
unnamed (err e) = err e

-- The end of currentDriver, on what Stat answers and on the error of the first read.
abbrev pub without_driver : Option FsError → Result (List ℕ) → Result (List ℕ)
without_driver none name = err (wrap (sentinel device_not_bound))
without_driver (some e) (err first) = err first
without_driver (some e) (ok s) = err (wrap (sentinel device_not_found))

-- currentDriver.
unfoldable pub current_driver : List ℕ → Act (List ℕ)
current_driver iface =
    let driver = device_attr iface (100 ∷ 114 ∷ 105 ∷ 118 ∷ 101 ∷ 114 ∷ []) in
    attempt
      (look (λ sys.
        read_line sys.files
          (path_join driver (100 ∷ 114 ∷ 105 ∷ 118 ∷ 101 ∷ 114 ∷ 95 ∷ 110 ∷ 97 ∷ 109 ∷ 101 ∷ []))))
      (λ name.
        if is_named name
        then give name
        else attempt (look (λ sys. read_link sys driver)) (λ link.
          if is_named link
          then give (link >>= λ target. ok (base target))
          else if not (is_absence name)
          then give (unnamed name)
          else if is_fault link
          then give (unnamed link)
          else look (λ sys.
            without_driver
              (sys.files.stat_error (fs_path_from_abs (path_join sysfs_usb_devices iface))) name)))

-- ExporterAdapter.ModulesAvailable.
unfoldable pub host_modules_available : Fs → Result (Unit {0})
host_modules_available fs = check_modules fs (module_usbip_core ∷ module_usbip_host ∷ [])

-- `errors.Is(err, fs.ErrInvalid) || strings.Contains(err.Error(), "invalid argument")`, which of the
-- errors of a read link is EINVAL.
abbrev pub is_invalid : FsError → Bool
is_invalid (errno n) = n == 22
is_invalid not_exist = false
is_invalid no_permission = false
is_invalid (other_error n) = false

abbrev pub vhci_loop_result : FileRead → Result (Unit {0})
vhci_loop_result (content target) =
    if contains target vhci_dev_path_marker
    then err (wrap (sentinel device_already_bound))
    else ok tt
vhci_loop_result (failed e) =
    if is_not_exist e then ok tt else if is_invalid e then ok tt else err (wrap (link_error e))

-- refuseVHCIBindLoop.
unfoldable pub refuse_vhci_bind_loop : Sys → List ℕ → Result (Unit {0})
refuse_vhci_bind_loop sys bus_id =
    vhci_loop_result (sys.link (fs_path_from_abs (path_join sysfs_usb_devices bus_id)))

abbrev pub hub_result : Result ℕ → Result (Unit {0})
hub_result (ok class_raw) =
    if class_raw == usb_hub_class then err (wrap (sentinel unsupported_device)) else ok tt
hub_result (err e) = if is_missing e then ok tt else err (wrap e)

-- refuseHubDevice.
unfoldable pub refuse_hub_device : Sys → List ℕ → Result (Unit {0})
refuse_hub_device sys bus_id = hub_result (
    read_hex16 sys.files
      (device_attr bus_id (98 ∷ 68 ∷ 101 ∷ 118 ∷ 105 ∷ 99 ∷ 101 ∷ 67 ∷ 108 ∷ 97 ∷ 115 ∷ 115 ∷ [])))

abbrev pub exported_result : Result (List ℕ) → Result (Unit {0})
exported_result (err e) = if errors_is e device_not_bound then ok tt else err e
exported_result (ok driver) =
    if text_eq driver usbip_host_driver_name
    then err (wrap (sentinel device_already_bound))
    else ok tt

-- checkAlreadyExported.
unfoldable pub check_already_exported : List ℕ → Act (Unit {0})
check_already_exported bus_id =
    attempt (current_driver bus_id) (λ driver. give (exported_result driver))

-- preflightBind.
unfoldable pub preflight_bind : List ℕ → Act (Unit {0})
preflight_bind bus_id = look (λ sys. host_modules_available sys.files) and_then λ loaded.
    (look (λ sys. refuse_vhci_bind_loop sys bus_id) and_then λ no_loop.
    (look (λ sys. refuse_hub_device sys bus_id) and_then λ no_hub. check_already_exported bus_id))

abbrev pub held_result : Result (List ℕ) → Result (Unit {0})
held_result (err e) =
    if errors_is e device_not_bound then err (wrap (sentinel device_not_bound)) else err e
held_result (ok driver) =
    if text_eq driver usbip_host_driver_name then ok tt else err (wrap (sentinel device_not_bound))

-- preflightUnbind.
unfoldable pub preflight_unbind : List ℕ → Act (Unit {0})
preflight_unbind bus_id = look (λ sys. host_modules_available sys.files) and_then λ loaded.
    attempt (current_driver bus_id) (λ driver. give (held_result driver))
