-- ===== src/Kernel/Ports.antt =====
-- internal/adapter/kernel/ports.go: the rows of the status files and the choice of a free port.
pub mod Lowest
pub mod Window
use usbip_go.Prelude.{
  ℕ, zero, suc, ◌+◌, ◌*◌, ◌/◌, ◌%◌, ◌^◌, Bool, true, false, not, ◌&&◌, ◌||◌, Option, none, some,
  List, [], ◌∷◌, ◌++◌, get_or, length, map, leb, ◌-◌, ltb, ◌==◌, if◌then◌else◌,
}
use usbip_go.Io.Errors.{
  Error, Result, ok, err, ◌>>=◌, wrap, sentinel, zero_vhci_ports, row_controller_mismatch,
  controller_not_ready, line_too_long, no_free_port,
}
use usbip_go.Domain.Device.{is_known, speed_super, speed_super_plus}
use usbip_go.Kernel.Text.{text_eq, trim_space, fields, parse_uint, is_nothing}
use usbip_go.Kernel.Sysfs.{Fs, sysfs_vhci_hcd, path_join, read_file_bytes, modules_available}
use usbip_go.Kernel.Topology.{StatusTopology, status_file_name, discover_status_topology}

abbrev pub status_null : ℕ
status_null = 0

abbrev pub status_not_assigned : ℕ
status_not_assigned = 1

abbrev pub status_available : ℕ
status_available = 2

abbrev pub status_used : ℕ
status_used = 3

abbrev pub status_error : ℕ
status_error = 4

abbrev pub status_field_count : ℕ
status_field_count = 7

abbrev pub hub_type_high_speed : List ℕ
hub_type_high_speed = (104 ∷ 115 ∷ [])

abbrev pub hub_type_super_speed : List ℕ
hub_type_super_speed = (115 ∷ 115 ∷ [])

pub record ParsedPort : Type 0 where
  pub hub : List ℕ
  pub port : ℕ
  pub status : ℕ
  pub speed : ℕ
  pub dev_id : ℕ
  pub bus_id : List ℕ

-- translateVDEVStatus. A number below four is already the domain's; then come the kernel's own.
unfoldable pub translate_vdev_status : ℕ → ℕ
translate_vdev_status sta =
    if sta == status_null
      || (sta == status_not_assigned || (sta == status_available || sta == status_used))
    then sta
    else if sta == 4
    then status_null
    else if sta == 5
    then status_not_assigned
    else if sta == 6
    then status_used
    else status_error

pub record StatusNums : Type 0 where
  pub port : ℕ
  pub sta : ℕ
  pub spd : ℕ
  pub dev_id : ℕ

-- The word of a row at an index.
abbrev pub word : List (List ℕ) → ℕ → List ℕ
word row idx = get_or row idx []

-- parseStatusRowNumbers.
unfoldable pub parse_status_row_numbers : List (List ℕ) → Option StatusNums
parse_status_row_numbers row = elim (parse_uint 10 32 (word row 1)) [
  | none ↦ none
  | some port ↦ elim (parse_uint 10 32 (word row 2)) [
    | none ↦ none
    | some sta ↦ elim (parse_uint 10 32 (word row 3)) [
      | none ↦ none
      | some spd ↦ elim (parse_uint 16 32 (word row 4)) [
        | none ↦ none
        | some dev_id ↦ some (record { port = port; sta = sta; spd = spd; dev_id = dev_id })
      ]
    ]
  ]
]

-- parseStatusRow.
unfoldable pub parse_status_row : List ℕ → Option ParsedPort
parse_status_row line =
    let row = fields line in
    let hub = word row 0 in
    if not (length row == status_field_count)
    then none
    else if not (text_eq hub hub_type_high_speed) && not (text_eq hub hub_type_super_speed)
    then none
    else elim (parse_status_row_numbers row) [
      | none ↦ none
      | some nums ↦
          if not (is_known nums.spd)
          then none
          else some (record {
            hub = hub;
            port = nums.port;
            status = translate_vdev_status nums.sta;
            speed = nums.spd;
            dev_id = nums.dev_id;
            bus_id = word row 6;
          })
    ]

-- isControllerNotReadyStatusRow.
unfoldable pub is_controller_not_ready_status_row : List ℕ → Bool
is_controller_not_ready_status_row line =
    let row = fields line in
    if not (length row == status_field_count)
    then false
    else text_eq (word row 2) (48 ∷ 48 ∷ 53 ∷ [])
      && (text_eq (word row 3) (48 ∷ 48 ∷ 48 ∷ [])
          && (text_eq (word row 4) (48 ∷ 48 ∷ 48 ∷ 48 ∷ 48 ∷ 48 ∷ 48 ∷ 48 ∷ [])
              && (text_eq (word row 5) (
                    48 ∷ 48 ∷ 48 ∷ 48 ∷ 48 ∷ 48 ∷ 48 ∷ 48 ∷ 48 ∷ 48 ∷ 48 ∷ 48 ∷ 48 ∷ 48 ∷ 48 ∷ 48
                    ∷ [])
                  && text_eq (word row 6) (48 ∷ 45 ∷ 48 ∷ []))))

-- skipStatusLine.
unfoldable pub skip_status_line : List ℕ → Bool
skip_status_line line =
    let trimmed = trim_space line in
    if is_nothing trimmed
    then true
    else elim (fields trimmed) [ [] ↦ true | (first ∷ rest) ↦ text_eq first (104 ∷ 117 ∷ 98 ∷ []) ]

-- parseStatusLine; the option is the flag `include`.
unfoldable pub parse_status_line : List ℕ → ℕ → ℕ → Result (Option ParsedPort)
parse_status_line line controller_idx vhci_ports =
    if skip_status_line line then ok none else elim (parse_status_row line) [
      | none ↦ ok none
      | some row ↦
          if is_controller_not_ready_status_row line
          then err (wrap (sentinel controller_not_ready))
          else if not (row.port / vhci_ports == controller_idx)
          then err (wrap (sentinel row_controller_mismatch))
          else ok (some row)
    ]

-- The lines that bufio.Scanner cuts, each without its line feed, and without the last if it is empty.
abbrev pub add_line : ℕ → List (List ℕ) → List (List ℕ)
add_line b [] = (b ∷ []) ∷ []
add_line b (line ∷ lines) = (b ∷ line) ∷ lines

unfoldable pub split_lines : List ℕ → List (List ℕ)
split_lines [] = []
split_lines (b ∷ s) = let lines = split_lines s in if b == 10 then [] ∷ lines else add_line b lines

-- A carriage return at the end of a line is dropped.
unfoldable pub drop_cr : List ℕ → List ℕ
drop_cr [] = []
drop_cr (b ∷ s) = let rest = drop_cr s in if b == 13 && is_nothing s then [] else b ∷ rest

-- The scanner gives up at a line of bufio.MaxScanTokenSize bytes.
abbrev pub max_scan_token_size : ℕ
max_scan_token_size = 65536

abbrev pub keep_row : Option ParsedPort → List ParsedPort → List ParsedPort
keep_row none out = out
keep_row (some row) out = out ++ (row ∷ [])

-- The loop of parseStatusFile with the rows so far.
unfoldable pub parse_lines : List (List ℕ) → ℕ → ℕ → List ParsedPort → Result (List ParsedPort)
parse_lines [] controller_idx vhci_ports out = ok out
parse_lines (line ∷ lines) controller_idx vhci_ports out =
    if leb max_scan_token_size (length line)
    then err (wrap (sentinel line_too_long))
    else (parse_status_line (drop_cr line) controller_idx vhci_ports >>= λ included.
        parse_lines lines controller_idx vhci_ports (keep_row included out))

-- parseStatusFile.
unfoldable pub parse_status_file : List ℕ → ℕ → ℕ → Result (List ParsedPort)
parse_status_file body controller_idx vhci_ports =
    if vhci_ports == 0
    then err (wrap (sentinel zero_vhci_ports))
    else parse_lines (split_lines body) controller_idx vhci_ports []

-- The loop of readStatusRowsWithTopology, with `left` files to come after the first `i`.
unfoldable pub read_rows : ℕ → ℕ → Fs → ℕ → List ParsedPort → Result (List ParsedPort)
read_rows zero i fs vhci_ports rows = ok rows
read_rows (suc left) i fs vhci_ports rows = do
  raw ← read_file_bytes fs (path_join sysfs_vhci_hcd (status_file_name i))
  parsed ← parse_status_file raw i vhci_ports
  read_rows left (suc i) fs vhci_ports (rows ++ parsed)

-- readStatusRowsWithTopology.
unfoldable pub read_status_rows_with_topology : Fs → StatusTopology → Result (List ParsedPort)
read_status_rows_with_topology fs topo = read_rows topo.n_controllers 0 fs topo.vhci_ports []

-- isFreeStatus.
unfoldable pub is_free_status : ℕ → Bool
is_free_status s = s == status_null || s == status_available

-- hubTypeForSpeed.
unfoldable pub hub_type_for_speed : ℕ → List ℕ
hub_type_for_speed speed =
    if speed == speed_super || speed == speed_super_plus
    then hub_type_super_speed
    else hub_type_high_speed

-- One round of lowestFreePort, on the lowest port so far and whether one was found.
unfoldable pub better_port : List ℕ → ℕ × Bool → ParsedPort → ℕ × Bool
better_port desired (lowest, found) r =
    if not (text_eq r.hub desired)
    then (lowest, found)
    else if not (is_free_status r.status)
    then (lowest, found)
    else if not found || ltb r.port lowest
    then (r.port, true)
    else (lowest, found)

unfoldable pub lowest_loop : List ParsedPort → List ℕ → ℕ × Bool → ℕ × Bool
lowest_loop [] desired best = best
lowest_loop (r ∷ rows) desired best = lowest_loop rows desired (better_port desired best r)

-- lowestFreePort.
unfoldable pub lowest_free_port : List ParsedPort → List ℕ → ℕ × Bool
lowest_free_port rows desired = lowest_loop rows desired (2 ^ 32 - 1, false)

-- findFreePortWithTopology.
unfoldable pub find_free_port_with_topology : Fs → StatusTopology → ℕ → Result ℕ
find_free_port_with_topology fs topo speed = read_status_rows_with_topology fs topo >>= λ rows.
    (let (port, found) = lowest_free_port rows (hub_type_for_speed speed) in
      if not found then err (wrap (sentinel no_free_port)) else ok port)

-- domain.Port, as far as ListPorts fills it.
pub record Port : Type 0 where
  pub id : ℕ
  pub status : ℕ
  pub speed : ℕ
  pub device_id : ℕ
  pub local_bus_id : List ℕ

abbrev pub to_port : ParsedPort → Port
to_port r = record {
  id = r.port;
  status = r.status;
  speed = r.speed;
  device_id = r.dev_id;
  local_bus_id = r.bus_id;
}

-- ListPorts.
unfoldable pub list_ports : ℕ → Fs → Result (List Port)
list_ports fuel fs = do
  tt ← modules_available fs
  topo ← discover_status_topology fuel fs
  rows ← read_status_rows_with_topology fs topo
  ok (map to_port rows)
