-- ===== src/Tests/Bind.antt =====
-- Binding in a world with one mouse, and in one where usbip-host is busy for ever.
use usbip_go.Prelude.{ℕ, ◌+◌, ◌≤◌, ◌≡◌, ◌⊎◌, refl, false, none, some, List, [], ◌∷◌, if◌then◌else◌}
use usbip_go.Io.Errors.{ok}
use usbip_go.Kernel.Text.{text_eq, has_prefix, trim_space, parse_uint, parse_digits, digit_of}
use usbip_go.Kernel.Sysfs.{
  Fs, errno, content, not_exist, path_join, fs_path_from_abs, sysfs_usb_devices, check_modules,
  read_file_bytes, read_line, classify_fs_err, classify_err_any, classify_errno_kind, classify_path,
}
use usbip_go.Kernel.Actions.{Sys, no_listing, World, looked, give, attempt, look, write, sleep}
use usbip_go.Kernel.Actions.Writes.{written, slept_ms}
use usbip_go.Kernel.Actions.Costs.{count_writes}
use usbip_go.Kernel.Drivers.{
  device_attr, trim_prefix, read_hex16, current_driver, host_modules_available,
  refuse_vhci_bind_loop, refuse_hub_device, check_already_exported, preflight_bind, contains,
  usb_hub_class, vhci_dev_path_marker, usbip_host_driver_name, driver_path,
}
use usbip_go.Kernel.Netdevs.{
  add_netdevs_from, bus_id_interface_dirs, add_from_all, collect_netdev_names, deactivate_all,
  deactivate_netdevs, list_dir_entries, cleared_flags, flags_path, format_hex, format_hex_loop,
}
use usbip_go.Kernel.Bind.{
  bind_attr, bind_attempts, bind_usbip_host_with_retry, unbind_current_device_driver, take_device,
  bind, unbind,
}
use usbip_go.Kernel.Bind.Attempts.{bind_write, unbind_write}
use usbip_go.Kernel.Bind.Effects.{IsFailed, add_write}
use usbip_go.Kernel.Bind.Bounds.{bind_usbip_host-bounded}
use usbip_go.Kernel.Bind.Release.{UnbindEffect, unbind-effect}
use usbip_go.Kernel.Bind.Refusals.{bind-guarded}

abbrev mouse : List ℕ
mouse = (51 ∷ 45 ∷ 49 ∷ [])

abbrev mouse_text : List ℕ → List ℕ
mouse_text path =
    if text_eq path (
      fs_path_from_abs
        (device_attr mouse (98 ∷ 68 ∷ 101 ∷ 118 ∷ 105 ∷ 99 ∷ 101 ∷ 67 ∷ 108 ∷ 97 ∷ 115 ∷ 115 ∷ [])))
    then (48 ∷ 48 ∷ [])
    else (117 ∷ 115 ∷ 98 ∷ [])

-- Every file opens; the class of a device is 00, and all else reads as usb.
abbrev mouse_sys : Sys
mouse_sys = record {
  files = record {
    open_error = λ path. none;
    read_all = λ path. content (mouse_text path);
    stat_error = λ path. none;
  };
  link = λ path. content (
      46 ∷ 46 ∷ 47 ∷ 46 ∷ 46 ∷ 47 ∷ 46 ∷ 46 ∷ 47 ∷ 100 ∷ 101 ∷ 118 ∷ 105 ∷ 99 ∷ 101 ∷ 115 ∷ 47 ∷ 117
      ∷ 115 ∷ 98 ∷ 51 ∷ 47 ∷ 51 ∷ 45 ∷ 49 ∷ []);
  dir = λ path. no_listing not_exist;
}

abbrev mouse_world : World
mouse_world = record {
  view = λ log. mouse_sys;
  answer = λ log s. none;
  is_done = λ log. false;
  map_order = λ log names. names;
}

-- The kernel answers EBUSY to every write of the bind attribute.
abbrev busy_world : World
busy_world = record {
  view = λ log. mouse_sys;
  answer = λ log s. if text_eq s.target bind_attr then some (errno 16) else none;
  is_done = λ log. false;
  map_order = λ log names. names;
}

bound_run :
    written (bind mouse mouse_world []).log
    ≡ bind_write mouse ∷ unbind_write (117 ∷ 115 ∷ 98 ∷ []) mouse ∷ add_write mouse ∷ []
unfolding bind preflight_bind host_modules_available check_modules refuse_vhci_bind_loop
    refuse_hub_device check_already_exported current_driver deactivate_netdevs collect_netdev_names
    add_netdevs_from bus_id_interface_dirs add_from_all deactivate_all list_dir_entries take_device
    unbind_current_device_driver bind_usbip_host_with_retry bind_attempts give attempt look write
    sleep contains has_prefix read_hex16 read_line read_file_bytes fs_path_from_abs text_eq
    trim_space trim_prefix parse_uint parse_digits digit_of driver_path
bound_run = refl

unbind-effect_example : UnbindEffect mouse mouse_world [] (unbind mouse mouse_world [])
unbind-effect_example = unbind-effect mouse mouse_world []

bind_usbip_host-bounded_example :
    (slept_ms (bind_usbip_host_with_retry mouse busy_world []).log ≤ 1500 + 0)
    × (count_writes bind_attr (written (bind_usbip_host_with_retry mouse busy_world []).log)
        ≤ 5 + 0)
bind_usbip_host-bounded_example = bind_usbip_host-bounded mouse busy_world []

-- Both bounds are reached.
busy_waits : slept_ms (bind_usbip_host_with_retry mouse busy_world []).log ≡ 1500
unfolding bind_usbip_host_with_retry bind_attempts give attempt look write sleep deactivate_netdevs
    collect_netdev_names add_netdevs_from bus_id_interface_dirs add_from_all deactivate_all
    list_dir_entries text_eq classify_fs_err classify_err_any classify_errno_kind classify_path
    has_prefix fs_path_from_abs
busy_waits = refl

bind-guarded_example :
    (IsFailed (bind mouse mouse_world []) × (written (bind mouse mouse_world []).log ≡ written []))
    ⊎ ((host_modules_available mouse_sys.files ≡ ok tt)
        × (¬ (
              read_hex16 mouse_sys.files (
                device_attr mouse
                  (98 ∷ 68 ∷ 101 ∷ 118 ∷ 105 ∷ 99 ∷ 101 ∷ 67 ∷ 108 ∷ 97 ∷ 115 ∷ 115 ∷ []))
              ≡ ok usb_hub_class)
            × (((target : List ℕ)
                  → mouse_sys.link (fs_path_from_abs (path_join sysfs_usb_devices mouse))
                    ≡ content target
                  → contains target vhci_dev_path_marker ≡ false)
                × ¬ (
                    (current_driver mouse mouse_world (looked ∷ looked ∷ looked ∷ [])).result
                    ≡ ok usbip_host_driver_name))))
bind-guarded_example = bind-guarded mouse mouse_world []

abbrev eth_flags : List ℕ
eth_flags = flags_path (101 ∷ 116 ∷ 104 ∷ 49 ∷ [])

-- A flags file that holds what clearing 0x1003 writes.
abbrev eth_fs : Fs
eth_fs = record {
  open_error = λ path. none;
  read_all = λ path. content (48 ∷ 120 ∷ 49 ∷ 48 ∷ 48 ∷ 50 ∷ []);
  stat_error = λ path. none;
}

eth_read : read_line eth_fs eth_flags ≡ ok (cleared_flags 4099)
unfolding read_line read_file_bytes trim_space cleared_flags format_hex format_hex_loop
eth_read = refl
