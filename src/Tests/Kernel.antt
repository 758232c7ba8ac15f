-- ===== src/Tests/Kernel.antt =====
-- The kernel adapter on one controller with two ports of each hub, of which one is taken.
use usbip_go.Prelude.{
  ℕ, zero, suc, ◌≤◌, ◌<◌, ◌≡◌, refl, ◌⊎◌, true, false, none, some, List, [], ◌∷◌, All, arith,
  if◌then◌else◌,
}
use usbip_go.Io.Errors.{ok}
use usbip_go.Kernel.Text.{
  text_eq, trim_space, fields, fields_loop, parse_uint, parse_digits, digit_of, format_uint,
  format_loop,
}
use usbip_go.Kernel.Sysfs.{
  Fs, FsError, FileRead, content, failed, not_exist, sysfs_vhci_hcd, path_join, fs_path_from_abs,
  read_file_bytes, read_line, read_uint, check_modules, modules_available,
}
use usbip_go.Kernel.Topology.{
  StatusTopology, VhciLocation, hub_type_ss, status_file_name, status_file_state, probe_loop,
  probe_controller_count, derive_hc_ports, discover_status_topology,
}
use usbip_go.Kernel.Topology.Count.{IsCount}
use usbip_go.Kernel.Topology.Shape.{IsShape}
use usbip_go.Kernel.Ports.{
  ParsedPort, parse_status_file, parse_lines, split_lines, drop_cr, parse_status_line,
  parse_status_row, parse_status_row_numbers, translate_vdev_status,
  is_controller_not_ready_status_row, skip_status_line, read_rows, read_status_rows_with_topology,
  find_free_port_with_topology, lowest_free_port, lowest_loop, better_port, hub_type_for_speed,
  is_free_status,
}
use usbip_go.Kernel.Ports.Window.{IsRowOf, parse_status_file-IsRowOf}
use usbip_go.Kernel.Attach.{
  Env, RemoteDeviceSpec, validate_port_in_range, format_attach_payload, attach_remote, detach_port,
}
use usbip_go.Kernel.Attach.Payload.{format_attach_payload-parsed}
use usbip_go.Kernel.Attach.Choice.{find_free_port-in_range}
use usbip_go.Kernel.Attach.Effects.{
  IsQuiet, IsDetach, IsAttach, detach_port-effect, attach_remote-effect,
}

-- The status file: a heading, a free and a taken high-speed port, and two free SuperSpeed ports.
abbrev status_body : List ℕ
status_body =
    (104 ∷ 117 ∷ 98 ∷ 32 ∷ 112 ∷ 111 ∷ 114 ∷ 116 ∷ 32 ∷ 115 ∷ 116 ∷ 97 ∷ 32 ∷ 115 ∷ 112 ∷ 100 ∷ 32
      ∷ 100 ∷ 101 ∷ 118 ∷ 32 ∷ 115 ∷ 111 ∷ 99 ∷ 107 ∷ 102 ∷ 100 ∷ 32 ∷ 108 ∷ 111 ∷ 99 ∷ 97 ∷ 108
      ∷ 95 ∷ 98 ∷ 117 ∷ 115 ∷ 105 ∷ 100 ∷ 10 ∷ 104 ∷ 115 ∷ 32 ∷ 32 ∷ 48 ∷ 48 ∷ 48 ∷ 48 ∷ 32 ∷ 48
      ∷ 48 ∷ 54 ∷ 32 ∷ 48 ∷ 48 ∷ 51 ∷ 32 ∷ 48 ∷ 48 ∷ 48 ∷ 49 ∷ 48 ∷ 48 ∷ 48 ∷ 50 ∷ 32 ∷ 48 ∷ 48 ∷ 48
      ∷ 48 ∷ 48 ∷ 53 ∷ 32 ∷ 51 ∷ 45 ∷ 49 ∷ 10 ∷ 104 ∷ 115 ∷ 32 ∷ 32 ∷ 48 ∷ 48 ∷ 48 ∷ 49 ∷ 32 ∷ 48
      ∷ 48 ∷ 52 ∷ 32 ∷ 48 ∷ 48 ∷ 48 ∷ 32 ∷ 48 ∷ 48 ∷ 48 ∷ 48 ∷ 48 ∷ 48 ∷ 48 ∷ 48 ∷ 32 ∷ 48 ∷ 48 ∷ 48
      ∷ 48 ∷ 48 ∷ 48 ∷ 32 ∷ 48 ∷ 45 ∷ 48 ∷ 10 ∷ 115 ∷ 115 ∷ 32 ∷ 32 ∷ 48 ∷ 48 ∷ 48 ∷ 50 ∷ 32 ∷ 48
      ∷ 48 ∷ 52 ∷ 32 ∷ 48 ∷ 48 ∷ 48 ∷ 32 ∷ 48 ∷ 48 ∷ 48 ∷ 48 ∷ 48 ∷ 48 ∷ 48 ∷ 48 ∷ 32 ∷ 48 ∷ 48 ∷ 48
      ∷ 48 ∷ 48 ∷ 48 ∷ 32 ∷ 48 ∷ 45 ∷ 48 ∷ 10 ∷ 115 ∷ 115 ∷ 32 ∷ 32 ∷ 48 ∷ 48 ∷ 48 ∷ 51 ∷ 32 ∷ 48
      ∷ 48 ∷ 52 ∷ 32 ∷ 48 ∷ 48 ∷ 48 ∷ 32 ∷ 48 ∷ 48 ∷ 48 ∷ 48 ∷ 48 ∷ 48 ∷ 48 ∷ 48 ∷ 32 ∷ 48 ∷ 48 ∷ 48
      ∷ 48 ∷ 48 ∷ 48 ∷ 32 ∷ 48 ∷ 45 ∷ 48 ∷ 10 ∷ [])

abbrev status_path : List ℕ
status_path =
    (115 ∷ 121 ∷ 115 ∷ 47 ∷ 100 ∷ 101 ∷ 118 ∷ 105 ∷ 99 ∷ 101 ∷ 115 ∷ 47 ∷ 112 ∷ 108 ∷ 97 ∷ 116 ∷ 102
      ∷ 111 ∷ 114 ∷ 109 ∷ 47 ∷ 118 ∷ 104 ∷ 99 ∷ 105 ∷ 95 ∷ 104 ∷ 99 ∷ 100 ∷ 46 ∷ 48 ∷ 47 ∷ 115 ∷ 116
      ∷ 97 ∷ 116 ∷ 117 ∷ 115 ∷ [])

abbrev nports_path : List ℕ
nports_path =
    (115 ∷ 121 ∷ 115 ∷ 47 ∷ 100 ∷ 101 ∷ 118 ∷ 105 ∷ 99 ∷ 101 ∷ 115 ∷ 47 ∷ 112 ∷ 108 ∷ 97 ∷ 116 ∷ 102
      ∷ 111 ∷ 114 ∷ 109 ∷ 47 ∷ 118 ∷ 104 ∷ 99 ∷ 105 ∷ 95 ∷ 104 ∷ 99 ∷ 100 ∷ 46 ∷ 48 ∷ 47 ∷ 110 ∷ 112
      ∷ 111 ∷ 114 ∷ 116 ∷ 115 ∷ [])

abbrev sample_fs : Fs
sample_fs = record {
  open_error = λ p.
      if text_eq p status_path
      then none
      else if text_eq p nports_path
      then none
      else some not_exist;
  read_all = λ p. if text_eq p status_path then content status_body else content (52 ∷ 10 ∷ []);
  stat_error = λ p. none;
}

abbrev shape4 : StatusTopology
shape4 = record { n_controllers = 1; hc_ports = 2; vhci_ports = 4 }

discovered4 : discover_status_topology 5 sample_fs ≡ ok shape4
unfolding discover_status_topology read_uint read_line read_file_bytes fs_path_from_abs trim_space
    parse_uint parse_digits digit_of probe_controller_count probe_loop status_file_state
    status_file_name format_uint format_loop text_eq derive_hc_ports
discovered4 = refl

abbrev taken_row : ParsedPort
taken_row = record {
  hub = (104 ∷ 115 ∷ []);
  port = 0;
  status = 3;
  speed = 3;
  dev_id = 65538;
  bus_id = (51 ∷ 45 ∷ 49 ∷ []);
}

abbrev free_row : List ℕ → ℕ → ParsedPort
free_row hub port = record {
  hub = hub;
  port = port;
  status = 0;
  speed = 0;
  dev_id = 0;
  bus_id = (48 ∷ 45 ∷ 48 ∷ []);
}

abbrev sample_rows : List ParsedPort
sample_rows =
    taken_row
    ∷ free_row (104 ∷ 115 ∷ []) 1
    ∷ free_row (115 ∷ 115 ∷ []) 2
    ∷ free_row (115 ∷ 115 ∷ []) 3
    ∷ []

parsed4 : parse_status_file status_body 0 4 ≡ ok sample_rows
unfolding parse_status_file parse_lines split_lines drop_cr parse_status_line parse_status_row
    parse_status_row_numbers translate_vdev_status is_controller_not_ready_status_row
    skip_status_line trim_space fields fields_loop parse_uint parse_digits digit_of text_eq
    usbip_go.Domain.Device.is_known
parsed4 = refl

derived4 : derive_hc_ports 4 1 ≡ ok 2
unfolding derive_hc_ports
derived4 = refl

derived-IsShape : IsShape shape4
derived-IsShape = record { two_hubs = refl; some_ports = omega arith; fits = omega arith }

abbrev last_hub : VhciLocation
last_hub = record { controller_idx = 0; hub = hub_type_ss }

file0 : status_file_state sample_fs 0 ≡ ok true
unfolding status_file_state status_file_name fs_path_from_abs text_eq
file0 = refl

file1 : status_file_state sample_fs 1 ≡ ok false
unfolding status_file_state status_file_name fs_path_from_abs text_eq format_uint format_loop
file1 = refl

only_file0 : (i : ℕ) → 0 ≤ i → i < 1 → status_file_state sample_fs i ≡ ok true
only_file0 zero p h = file0
only_file0 (suc i) p h = absurd (omega arith)

one_file : IsCount sample_fs 0 1
one_file = record { present = only_file0; missing = file1 }

counted : probe_controller_count 5 sample_fs ≡ ok 1
unfolding probe_controller_count probe_loop status_file_state status_file_name fs_path_from_abs
    text_eq format_uint format_loop
counted = refl

lowest_hs : lowest_free_port sample_rows (104 ∷ 115 ∷ []) ≡ (1, true)
unfolding lowest_free_port lowest_loop better_port text_eq is_free_status
lowest_hs = refl

parse_status_file-IsRowOf_example : (0 < 4) × All (IsRowOf 0 4) sample_rows
parse_status_file-IsRowOf_example = parse_status_file-IsRowOf status_body 0 4 parsed4

found1 : find_free_port_with_topology sample_fs shape4 3 ≡ ok 1
unfolding find_free_port_with_topology read_status_rows_with_topology read_rows read_file_bytes
    fs_path_from_abs status_file_name parse_status_file parse_lines split_lines drop_cr
    parse_status_line parse_status_row parse_status_row_numbers translate_vdev_status
    is_controller_not_ready_status_row skip_status_line trim_space fields fields_loop parse_uint
    parse_digits digit_of text_eq usbip_go.Domain.Device.is_known lowest_free_port lowest_loop
    better_port is_free_status hub_type_for_speed
found1 = refl

find_free_port-in_range_example : validate_port_in_range shape4 1 ≡ ok tt
find_free_port-in_range_example =
    find_free_port-in_range 5 sample_fs shape4 3 discovered4 (omega arith) found1

format_attach_payload-parsed_example :
    (fields (format_attach_payload 1 7 65538 3)
      ≡ format_uint 1 ∷ format_uint 7 ∷ format_uint 65538 ∷ format_uint 3 ∷ [])
    × (parse_uint 10 32 (format_uint 1) ≡ some 1)
    × (parse_uint 10 64 (format_uint 7) ≡ some 7)
    × (parse_uint 10 32 (format_uint 65538) ≡ some 65538)
    × (parse_uint 10 32 (format_uint 3) ≡ some 3)
format_attach_payload-parsed_example =
    format_attach_payload-parsed 1 7 65538 3 (omega arith) (omega arith) (omega arith) (omega arith)

abbrev sample_env : Env
sample_env = record { fs = sample_fs; answer = λ w. none; fuel = 5 }

abbrev mouse_spec : RemoteDeviceSpec
mouse_spec = record { dev_id = 65538; speed = 3; reserve_local_port = none }

detach_port-effect_example :
    IsQuiet (detach_port sample_env 0) ⊎ IsDetach sample_env 0 (detach_port sample_env 0)
detach_port-effect_example = detach_port-effect sample_env 0

attach_remote-effect_example :
    IsQuiet (attach_remote sample_env (ok 7) mouse_spec)
    ⊎ IsAttach sample_env (ok 7) mouse_spec (attach_remote sample_env (ok 7) mouse_spec)
attach_remote-effect_example = attach_remote-effect sample_env (ok 7) mouse_spec

-- The sample run attaches to port 1.
attach_run : (attach_remote sample_env (ok 7) mouse_spec).result ≡ ok 1
unfolding attach_remote modules_available check_modules fs_path_from_abs discover_status_topology
    read_uint read_line read_file_bytes trim_space parse_uint parse_digits digit_of
    probe_controller_count probe_loop status_file_state status_file_name format_uint format_loop
    text_eq derive_hc_ports find_free_port_with_topology read_status_rows_with_topology read_rows
    parse_status_file parse_lines split_lines drop_cr parse_status_line parse_status_row
    parse_status_row_numbers translate_vdev_status is_controller_not_ready_status_row
    skip_status_line fields fields_loop usbip_go.Domain.Device.is_known lowest_free_port lowest_loop
    better_port is_free_status hub_type_for_speed
    usbip_go.Kernel.Attach.attach_at_port_with_topology validate_port_in_range
    usbip_go.Kernel.Sysfs.write_classified format_attach_payload
attach_run = refl
