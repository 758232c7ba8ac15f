-- ===== src/Kernel/Attach.antt =====
-- internal/adapter/kernel/attach.go: handing a socket to a port of the virtual host controller, and
-- taking a port's device away.
pub mod Choice
pub mod Effects
pub mod Payload
use usbip_go.Prelude.{
  ℕ, ◌*◌, ◌%◌, ◌^◌, Bool, true, false, not, ◌||◌, Option, none, some, List, [], ◌∷◌, ◌++◌, leb,
  ◌==◌, if◌then◌else◌,
}
use usbip_go.Io.Errors.{
  Error, Result, ok, err, ◌>>=◌, wrap, join, sentinel, system, errors_is, port_out_of_range,
  device_not_bound,
}
use usbip_go.Kernel.Text.{format_uint}
use usbip_go.Kernel.Sysfs.{
  Fs, FsError, Write, Outcome, silent, sysfs_vhci_hcd, path_join, write_classified,
  modules_available,
}
use usbip_go.Kernel.Topology.{StatusTopology, discover_status_topology}
use usbip_go.Kernel.Ports.{
  ParsedPort, read_status_rows_with_topology, find_free_port_with_topology, is_free_status,
  status_null,
}

abbrev pub attach_attr : List ℕ
attach_attr = path_join sysfs_vhci_hcd (97 ∷ 116 ∷ 116 ∷ 97 ∷ 99 ∷ 104 ∷ [])

abbrev pub detach_attr : List ℕ
detach_attr = path_join sysfs_vhci_hcd (100 ∷ 101 ∷ 116 ∷ 97 ∷ 99 ∷ 104 ∷ [])

-- What the adapter is built over: the file system, the kernel's answer to a write, and the fuel for
-- counting controllers.
pub record Env : Type 0 where
  pub fs : Fs
  pub answer : Write → Option FsError
  pub fuel : ℕ

-- app.RemoteDeviceSpec, as far as AttachRemote reads it.
pub record RemoteDeviceSpec : Type 0 where
  pub dev_id : ℕ
  pub speed : ℕ
  pub reserve_local_port : Option (ℕ → Option Error)

-- validatePortInRange, in 32 bits.
unfoldable pub validate_port_in_range : StatusTopology → ℕ → Result (Unit {0})
validate_port_in_range topo port =
    let nports = topo.n_controllers * topo.vhci_ports % 2 ^ 32 in
    if leb nports port then err (wrap (sentinel port_out_of_range)) else ok tt

-- formatAttachPayload.
unfoldable pub format_attach_payload : ℕ → ℕ → ℕ → ℕ → List ℕ
format_attach_payload port_id fd dev_id speed =
    format_uint port_id
    ++ (b' ' ∷ (format_uint fd ++ (b' ' ∷ (format_uint dev_id ++ (b' ' ∷ format_uint speed)))))

abbrev pub map_result {ℓ κ} :
    {A : Type ℓ} {B : Type κ} → (Result A → Result B) → Outcome A → Outcome B
map_result f o = record { writes = o.writes; result = f o.result }

-- `if err != nil { return …, err }` in front of an operation that writes.
infixl 5 ◌then_do◌
abbrev pub ◌then_do◌ {ℓ κ} : {A : Type ℓ} {B : Type κ} → Result A → (A → Outcome B) → Outcome B
err e then_do k = silent (err e)
ok a then_do k = k a

-- attachAtPortWithTopology. What extractFD returned for the connection is the argument `fd`; the
-- error of closing the connection is only logged.
unfoldable pub attach_at_port_with_topology :
    Env → Result ℕ → ℕ → RemoteDeviceSpec → StatusTopology → Outcome ℕ
attach_at_port_with_topology env fd port_id spec topo =
    validate_port_in_range topo port_id then_do λ valid.
    (fd then_do λ n.
    map_result (λ r. r >>= λ done. ok port_id)
      (write_classified env.answer attach_attr
        (format_attach_payload port_id n spec.dev_id spec.speed)))

-- The call of ReserveLocalPort, if there is one.
abbrev pub reserve : Option (ℕ → Option Error) → ℕ → Result (Unit {0})
reserve none port_id = ok tt
reserve (some f) port_id = elim (f port_id) [ none ↦ ok tt | some e ↦ err (wrap e) ]

-- AttachRemote.
unfoldable pub attach_remote : Env → Result ℕ → RemoteDeviceSpec → Outcome ℕ
attach_remote env fd spec = modules_available env.fs then_do λ loaded.
    (discover_status_topology env.fuel env.fs then_do λ topo.
    (find_free_port_with_topology env.fs topo spec.speed then_do λ port_id.
    (reserve spec.reserve_local_port port_id then_do λ reserved.
    attach_at_port_with_topology env fd port_id spec topo)))

-- statusForPort.
unfoldable pub status_for_port : List ParsedPort → ℕ → ℕ × Bool
status_for_port [] id = (status_null, false)
status_for_port (row ∷ rows) id =
    let rest = status_for_port rows id in if row.port == id then (row.status, true) else rest

-- What DetachPort makes of the write's error; EINVAL is 22.
unfoldable pub detach_result : Result (Unit {0}) → Result (Unit {0})
detach_result (ok done) = ok tt
detach_result (err e) =
    if errors_is e (system 22) then err (join (sentinel device_not_bound) e) else err e

-- DetachPort.
unfoldable pub detach_port : Env → ℕ → Outcome (Unit {0})
detach_port env id = modules_available env.fs then_do λ loaded.
    (discover_status_topology env.fuel env.fs then_do λ topo.
    (validate_port_in_range topo id then_do λ valid.
    (read_status_rows_with_topology env.fs topo then_do λ rows.
    (let (status, found) = status_for_port rows id in
      if not found || is_free_status status
      then silent (err (wrap (sentinel device_not_bound)))
      else map_result detach_result (write_classified env.answer detach_attr (format_uint id))))))
