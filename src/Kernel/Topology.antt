-- ===== src/Kernel/Topology.antt =====
-- internal/adapter/kernel/topology.go: the shape of the virtual host controllers.
pub mod Shape
pub mod Count
use usbip_go.Prelude.{
  ℕ, zero, suc, ◌+◌, ◌*◌, ◌/◌, ◌%◌, ◌^◌, Bool, true, false, not, ◌||◌, Option, none, some, List, [],
  ◌∷◌, ◌++◌, ◌==◌, if◌then◌else◌,
}
use usbip_go.Io.Errors.{
  Error, Result, ok, err, ◌>>=◌, wrap, sentinel, topology_zero_nports, topology_inconsistent,
  topology_no_controllers, out_of_fuel,
}
use usbip_go.Kernel.Text.{format_uint}
use usbip_go.Kernel.Sysfs.{
  Fs, sysfs_vhci_hcd, path_join, fs_path_from_abs, is_not_exist, classify_fs_err, read_uint,
}

pub data HubType : Type 0 where
  hub_type_hs hub_type_ss : HubType

-- VHCILocation.
pub record VhciLocation : Type 0 where
  pub controller_idx : ℕ
  pub hub : HubType

pub record StatusTopology : Type 0 where
  pub n_controllers : ℕ
  pub hc_ports : ℕ
  pub vhci_ports : ℕ

-- hubOffset.
unfoldable pub hub_offset : StatusTopology → HubType → ℕ
hub_offset t hub_type_ss = t.hc_ports
hub_offset t hub_type_hs = 0

-- Topology.FlatPort, in 32 bits. The map of buses plays no part in it.
unfoldable pub flat_port : StatusTopology → VhciLocation → ℕ → ℕ
flat_port t loc rhport0 =
    (loc.controller_idx * t.vhci_ports + hub_offset t loc.hub + rhport0) % 2 ^ 32

abbrev pub sysfs_vhci_nports : List ℕ
sysfs_vhci_nports = (110 ∷ 112 ∷ 111 ∷ 114 ∷ 116 ∷ 115 ∷ [])

abbrev pub hubs_per_controller : ℕ
hubs_per_controller = 2

-- statusFileName.
unfoldable pub status_file_name : ℕ → List ℕ
status_file_name idx =
    if idx == 0
    then (115 ∷ 116 ∷ 97 ∷ 116 ∷ 117 ∷ 115 ∷ [])
    else (115 ∷ 116 ∷ 97 ∷ 116 ∷ 117 ∷ 115 ∷ 46 ∷ []) ++ format_uint idx

-- statusFileState.
unfoldable pub status_file_state : Fs → ℕ → Result Bool
status_file_state fs i =
    let p = path_join sysfs_vhci_hcd (status_file_name i) in
    elim (fs.open_error (fs_path_from_abs p)) [
      | none ↦ ok true
      | some e ↦ if is_not_exist e then ok false else err (classify_fs_err p e)
    ]

-- The loop of probeControllerCount, which has no bound of its own.
unfoldable pub probe_loop : ℕ → Fs → ℕ → ℕ → Result ℕ
probe_loop zero fs i count = err (sentinel out_of_fuel)
probe_loop (suc fuel) fs i count =
    let more = probe_loop fuel fs (suc i) (suc count) in
    status_file_state fs i >>= λ exists. if exists then more else ok count

-- probeControllerCount, for at most `fuel` status files.
unfoldable pub probe_controller_count : ℕ → Fs → Result ℕ
probe_controller_count fuel fs = probe_loop fuel fs 0 0 >>= λ count.
    if count == 0 then err (sentinel topology_no_controllers) else ok count

-- deriveHCPorts, in 32 bits.
unfoldable pub derive_hc_ports : ℕ → ℕ → Result ℕ
derive_hc_ports nports n_controllers =
    let divisor = n_controllers * hubs_per_controller % 2 ^ 32 in
    if nports == 0
    then err (wrap (sentinel topology_zero_nports))
    else if divisor == 0 || not (nports % divisor == 0)
    then err (wrap (sentinel topology_inconsistent))
    else ok (nports / divisor)

-- discoverStatusTopology.
unfoldable pub discover_status_topology : ℕ → Fs → Result StatusTopology
discover_status_topology fuel fs = do
  nports ← read_uint fs (path_join sysfs_vhci_hcd sysfs_vhci_nports)
  n_controllers ← probe_controller_count fuel fs
  hc_ports ← derive_hc_ports nports n_controllers
  ok (record {
    n_controllers = n_controllers;
    hc_ports = hc_ports;
    vhci_ports = hc_ports * hubs_per_controller % 2 ^ 32;
  })
