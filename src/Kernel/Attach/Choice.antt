-- ===== src/Kernel/Attach/Choice.antt =====
-- The port that an attachment chooses, and that it is in range.
use usbip_go.Prelude.{
  ◌==◌, ◌||◌, ◌≤◌, ◌%◌, ◌≢◌, inl, inr, ◌⊎◌, All, Any, All-imp, Any-imp, Bool-cases, if_rule, leb,
  arith, ℕ, ◌*◌, ◌^◌, ◌<◌, ◌≡◌, ap, Bool, true, false, not, List, if◌then◌else◌, Any-All, subst,
  lt→leb,
}
use native.Mathlib.Nat.{mod-eq_of_lt}
use usbip_go.Io.Errors.{Error, Result, ok, err, >>=-eq-ok, ok-injective}
use usbip_go.Kernel.Sysfs.{Fs}
use usbip_go.Kernel.Topology.{StatusTopology, discover_status_topology}
use usbip_go.Kernel.Topology.Shape.{discover_status_topology-IsShape}
use usbip_go.Kernel.Ports.{
  ParsedPort, read_status_rows_with_topology, find_free_port_with_topology, lowest_free_port,
  hub_type_for_speed, hub_type_super_speed, hub_type_high_speed, is_free_status, status_null,
  status_available,
}
use usbip_go.Domain.Device.{speed_super, speed_super_plus}
use usbip_go.Kernel.Text.{text_eq}
use usbip_go.Kernel.Text.Equality.{text_eq→eq, text_eq→ne}
use usbip_go.Kernel.Ports.Lowest.{is_candidate, lowest_free_port-found}
use usbip_go.Kernel.Ports.Window.{read_status_rows-All}
use usbip_go.Kernel.Attach.{validate_port_in_range}

pair_found :
    (best : ℕ × Bool) (e : Error) {p : ℕ}
    → (if not best.1 then err e else ok best.0) ≡ ok p
    → best ≡ (p, true)
pair_found (l, true) e h = ap (λ n. (n, true)) (ok-injective h)
pair_found (l, false) e h = cc

-- A port that was found is that of a row which was read.
pub find_free_port-found :
    (fs : Fs) (topo : StatusTopology) (speed : ℕ) {p : ℕ}
    → find_free_port_with_topology fs topo speed ≡ ok p
    → (rows : List ParsedPort) × (read_status_rows_with_topology fs topo ≡ ok rows)
      × (lowest_free_port rows (hub_type_for_speed speed) ≡ (p, true))
unfolding find_free_port_with_topology
find_free_port-found fs topo speed e =
    let (rows, q, more) = >>=-eq-ok (read_status_rows_with_topology fs topo) _ e in
    (rows, q, pair_found _ _ more)

-- The hub for a speed: that of super speed for the two super speeds, that of high speed for others.
pub data IsHubFor (speed : ℕ) : List ℕ → Type 0 where
  for_super :
      (speed ≡ speed_super) ⊎ (speed ≡ speed_super_plus) → IsHubFor speed hub_type_super_speed
  for_others : speed ≢ speed_super → speed ≢ speed_super_plus → IsHubFor speed hub_type_high_speed

pub hub_type_for_speed-IsHubFor : (speed : ℕ) → IsHubFor speed (hub_type_for_speed speed)
unfolding hub_type_for_speed
hub_type_for_speed-IsHubFor speed =
    if_rule (IsHubFor speed) (speed == speed_super || speed == speed_super_plus)
      hub_type_super_speed hub_type_high_speed (λ q. for_super (ground arith))
      (λ q. for_others (ground arith) (ground arith))

-- A row whose status is neither null nor available.
abbrev pub IsTaken : ParsedPort → Type 0
IsTaken r = (r.status ≢ status_null) × (r.status ≢ status_available)

abbrev pub IsFree : ParsedPort → Type 0
IsFree r = (r.status ≡ status_null) ⊎ (r.status ≡ status_available)

pub is_free_status-IsTaken : (r : ParsedPort) → is_free_status r.status ≡ false → IsTaken r
unfolding is_free_status
is_free_status-IsTaken r h = (ground arith, ground arith)

is_free_status-IsFree : (r : ParsedPort) → is_free_status r.status ≡ true → IsFree r
unfolding is_free_status
is_free_status-IsFree r h = ground arith

-- The port is that of a free row of the hub, and every row is of another hub, is taken, or has no
-- lower port.
pub record IsLowest (rows : List ParsedPort) (hub : List ℕ) (port : ℕ) : Type 0 where
  pub chosen : Any (λ r. (r.port ≡ port) × (r.hub ≡ hub) × IsFree r) rows
  pub lowest : All (λ r. (r.hub ≢ hub) ⊎ (IsTaken r ⊎ (port ≤ r.port))) rows

candidate-IsFree :
    (hub : List ℕ) (r : ParsedPort) → is_candidate hub r ≡ true → (r.hub ≡ hub) × IsFree r
candidate-IsFree hub r h =
    (text_eq→eq r.hub hub (ground arith), is_free_status-IsFree r (ground arith))

no_candidate :
    (hub : List ℕ) (r : ParsedPort) → is_candidate hub r ≡ false → (r.hub ≢ hub) ⊎ IsTaken r
no_candidate hub r h = elim (Bool-cases (text_eq r.hub hub)) [
  | inl q ↦ inr (is_free_status-IsTaken r (ground arith))
  | inr q ↦ inl (text_eq→ne r.hub hub q)
]

pub lowest_free_port-IsLowest :
    (rows : List ParsedPort) (hub : List ℕ) {p : ℕ}
    → lowest_free_port rows hub ≡ (p, true)
    → IsLowest rows hub p
lowest_free_port-IsLowest rows hub {p} h =
    let (found, lower) = lowest_free_port-found rows hub h in
    record {
      chosen =
          Any-imp (λ r c. let (on, free) = candidate-IsFree hub r c.0 in (c.1, on, free)) rows
            found;
      lowest =
          All-imp
            (λ r c. elim c [
              | inl none_here ↦ elim (no_candidate hub r none_here) [
                | inl a ↦ inl a
                | inr b ↦ inr (inl b)
              ]
              | inr le ↦ inr (inr le)
            ])
            rows lower;
    }

-- What passes the range check is below the number of controllers times the ports of each, taken in 32
-- bits.
pub validate_port_in_range-below :
    (topo : StatusTopology) (port : ℕ)
    → validate_port_in_range topo port ≡ ok tt
    → port < topo.n_controllers * topo.vhci_ports % 2 ^ 32
unfolding validate_port_in_range
validate_port_in_range-below topo port h =
    elim (Bool-cases (leb (topo.n_controllers * topo.vhci_ports % 2 ^ 32) port)) [
      | inl q ↦ absurd (refused (rw q at h))
      | inr q ↦ ground arith
    ]
  where
    refused : {e : Error} → ¬ (◌≡◌ {A = Result (Unit {0})} (err e) (ok tt))
    refused e = cc

-- A free port that is found in a discovered topology of fewer than 2^31 controllers passes the range
-- check that attaching makes.
pub find_free_port-in_range :
    (fuel : ℕ) (fs : Fs) (topo : StatusTopology) (speed : ℕ) {p : ℕ}
    → discover_status_topology fuel fs ≡ ok topo
    → topo.n_controllers < 2 ^ 31
    → find_free_port_with_topology fs topo speed ≡ ok p
    → validate_port_in_range topo p ≡ ok tt
unfolding validate_port_in_range
find_free_port-in_range fuel fs topo speed {p} d few e =
    let shape = discover_status_topology-IsShape fuel fs d few in
    let (rows, q, best) = find_free_port-found fs topo speed e in
    let (found, lower) = lowest_free_port-found rows (hub_type_for_speed speed) best in
    let below : p < topo.n_controllers * topo.vhci_ports =
      Any-All (λ r c b. subst (λ m. m < topo.n_controllers * topo.vhci_ports) c.1 b) rows found
        (read_status_rows-All fs topo q) in
    rw (mod-eq_of_lt shape.fits, lt→leb _ _ below)
