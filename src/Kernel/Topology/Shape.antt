-- ===== src/Kernel/Topology/Shape.antt =====
-- The ports of a discovered topology: nports of them, and a flat number for each.
use usbip_go.Prelude.{
  ℕ, zero, suc, ◌+◌, ◌*◌, ◌/◌, ◌%◌, ◌^◌, ◌<◌, ◌≡◌, refl, sym, ap, ◌∙◌, false, not, ◌||◌, Option,
  none, some, List, ◌==◌, arith, subst, ==→ne,
}
use native.Mathlib.Nat.{
  div-add-mod, mul-add-div_right, div-eq_of_lt, mod-eq_of_lt, mul-le-mul_right, mul_assoc, mul_comm,
}
use usbip_go.Io.Errors.{ok, >>=-eq-ok, guard-ok, ok-injective}
use usbip_go.Kernel.Sysfs.{Fs, read_uint, read_line, path_join, sysfs_vhci_hcd, parsed_or_error}
use usbip_go.Kernel.Topology.{
  HubType, hub_type_hs, hub_type_ss, VhciLocation, StatusTopology, hub_offset, flat_port,
  derive_hc_ports, hubs_per_controller, discover_status_topology, probe_controller_count,
  sysfs_vhci_nports,
}
use usbip_go.Kernel.Topology.Count.{probe_controller_count-IsCount}
use usbip_go.Kernel.Text.{parse_uint}
use usbip_go.Kernel.Text.Numbers.{parse_uint-lt}

remainder_zero : (d a : ℕ) → (d == 0 || not (a % d == 0)) ≡ false → a % d ≡ 0
remainder_zero d a h = ground arith

exact_div : (a d : ℕ) → a % d ≡ 0 → d * (a / d) ≡ a
exact_div a d h = let e = div-add-mod a d in omega arith

positive_factor : (d h n : ℕ) → d * h ≡ n → ¬ (n ≡ 0) → 0 < h
positive_factor d zero n e ne = absurd (ne (omega arith))
positive_factor d (suc h) n e ne = omega arith

-- What deriveHCPorts accepts is a number of ports that the hubs of all controllers share evenly.
pub derive_hc_ports-ok :
    (nports n : ℕ) {h : ℕ}
    → derive_hc_ports nports n ≡ ok h
    → (0 < h) × (n * hubs_per_controller % 2 ^ 32 * h ≡ nports)
unfolding derive_hc_ports
derive_hc_ports-ok nports n {h} e =
    let divisor = n * hubs_per_controller % 2 ^ 32 in
    let (ne, e1) = guard-ok (nports == 0) _ _ e in
    let (clean, e2) = guard-ok (divisor == 0 || not (nports % divisor == 0)) _ _ e1 in
    let some_ports = ==→ne nports 0 ne in
    let none_left : nports % divisor ≡ 0 = remainder_zero divisor nports clean in
    let exact : divisor * h ≡ nports =
      ap (λ q. divisor * q) (sym (ok-injective e2)) ∙ exact_div nports divisor none_left in
    (positive_factor divisor h nports exact some_ports, exact)

-- A topology whose ports are numbered without a wrap in 32 bits.
pub record IsShape (t : StatusTopology) : Type 0 where
  pub two_hubs : t.vhci_ports ≡ t.hc_ports * hubs_per_controller
  pub some_ports : 0 < t.hc_ports
  pub fits : t.n_controllers * t.vhci_ports < 2 ^ 32

below_row : (i n v k : ℕ) → i < n → k < v → i * v + k < n * v
below_row i n v k h l = let e = mul-le-mul_right {m = suc i} {n = n} v h in grind arith

row_of : (i v k : ℕ) → k < v → (i * v + k) / v ≡ i
row_of i v k h =
    mul-add-div_right (omega arith) i k ∙ ap (λ m. i + m) (div-eq_of_lt h) ∙ omega arith

module _ (t : StatusTopology) (shape : IsShape t) where
  offset_lt : (hub : HubType) (r : ℕ) → r < t.hc_ports → hub_offset t hub + r < t.vhci_ports
  unfolding hub_offset
  offset_lt hub_type_hs r h = let e = shape.two_hubs in omega arith
  offset_lt hub_type_ss r h = let e = shape.two_hubs in omega arith

  flat_port-exact :
      (loc : VhciLocation) (r : ℕ)
      → loc.controller_idx < t.n_controllers
      → r < t.hc_ports
      → flat_port t loc r ≡ loc.controller_idx * t.vhci_ports + (hub_offset t loc.hub + r)
  unfolding flat_port
  flat_port-exact loc r i h =
      let small = shape.fits in
      let below = below_row _ _ _ _ i (offset_lt loc.hub r h) in
      mod-eq_of_lt (omega arith) ∙ omega arith

  -- In a topology whose ports are numbered without a wrap, the flat port of a valid location and
  -- root-hub port is below the number of ports, and its quotient by the ports of a controller is the
  -- location's controller.
  pub flat_port-window :
      (loc : VhciLocation) (r : ℕ)
      → loc.controller_idx < t.n_controllers
      → r < t.hc_ports
      → (flat_port t loc r < t.n_controllers * t.vhci_ports)
        × (flat_port t loc r / t.vhci_ports ≡ loc.controller_idx)
  flat_port-window loc r i h =
      let e = flat_port-exact loc r i h in
      let o = offset_lt loc.hub r h in
      (
        subst (λ p. p < t.n_controllers * t.vhci_ports) (sym e) (below_row _ _ _ _ i o),
        ap (λ p. p / t.vhci_ports) e ∙ row_of _ _ _ o,
      )

  same_offset :
      (hub hub' : HubType) (r r' : ℕ)
      → r < t.hc_ports
      → r' < t.hc_ports
      → hub_offset t hub + r ≡ hub_offset t hub' + r'
      → (hub ≡ hub') × (r ≡ r')
  unfolding hub_offset
  same_offset hub_type_hs hub_type_hs r r' h h' e = (refl, omega arith)
  same_offset hub_type_hs hub_type_ss r r' h h' e = absurd (omega arith)
  same_offset hub_type_ss hub_type_hs r r' h h' e = absurd (omega arith)
  same_offset hub_type_ss hub_type_ss r r' h h' e = (refl, omega arith)

  -- In such a topology two valid locations with the same flat port are one location and one root-hub
  -- port.
  pub flat_port-injective :
      (loc loc' : VhciLocation) (r r' : ℕ)
      → loc.controller_idx < t.n_controllers
      → loc'.controller_idx < t.n_controllers
      → r < t.hc_ports
      → r' < t.hc_ports
      → flat_port t loc r ≡ flat_port t loc' r'
      → (loc.controller_idx ≡ loc'.controller_idx) × (loc.hub ≡ loc'.hub) × (r ≡ r')
  flat_port-injective loc loc' r r' i i' h h' e =
      let idx : loc.controller_idx ≡ loc'.controller_idx =
        sym (flat_port-window loc r i h).1
        ∙ ap (λ p. p / t.vhci_ports) e
        ∙ (flat_port-window loc' r' i' h').1 in
      let sums = sym (flat_port-exact loc r i h) ∙ e ∙ flat_port-exact loc' r' i' h' in
      let rows = ap (λ m. m * t.vhci_ports) idx in
      let (hub, port) = same_offset loc.hub loc'.hub r r' h h' (omega arith) in (idx, hub, port)

parsed-some : (o : Option ℕ) {v : ℕ} → parsed_or_error o ≡ ok v → o ≡ some v
parsed-some none h = cc
parsed-some (some a) h = ap some (ok-injective h)

read_uint-lt : (fs : Fs) (path : List ℕ) {v : ℕ} → read_uint fs path ≡ ok v → v < 2 ^ 32
unfolding read_uint
read_uint-lt fs path e =
    let (line, q, more) = >>=-eq-ok (read_line fs path) _ e in
    parse_uint-lt 10 32 line (parsed-some (parse_uint 10 32 line) more)

shape_bounds :
    (n h nports : ℕ)
    → 0 < n
    → n < 2 ^ 31
    → n * hubs_per_controller % 2 ^ 32 * h ≡ nports
    → nports < 2 ^ 32
    → (h * hubs_per_controller < 2 ^ 32) × (n * (h * hubs_per_controller) < 2 ^ 32)
shape_bounds n h nports p few shared bound =
    let no_wrap : n * 2 % 2 ^ 32 ≡ n * 2 = mod-eq_of_lt (omega arith) in
    let all : n * (h * 2) ≡ nports =
      ap (λ m. n * m) (mul_comm h 2)
      ∙ sym (mul_assoc n 2 h)
      ∙ sym (ap (λ m. m * h) no_wrap)
      ∙ shared in
    let one = mul-le-mul_right {m = 1} {n = n} (h * 2) p in (omega arith, omega arith)

-- A discovered topology of fewer than 2^31 controllers numbers its ports without a wrap.
pub discover_status_topology-IsShape :
    (fuel : ℕ) (fs : Fs) {t : StatusTopology}
    → discover_status_topology fuel fs ≡ ok t
    → t.n_controllers < 2 ^ 31
    → IsShape t
unfolding discover_status_topology
discover_status_topology-IsShape fuel fs {t} e small =
    let (nports, q, e1) =
      >>=-eq-ok (read_uint fs (path_join sysfs_vhci_hcd sysfs_vhci_nports)) _ e in
    let (n, c, e2) = >>=-eq-ok (probe_controller_count fuel fs) _ e1 in
    let (h, d, e3) = >>=-eq-ok (derive_hc_ports nports n) _ e2 in
    let (positive, shared) = derive_hc_ports-ok nports n d in
    let (some_controllers, count) = probe_controller_count-IsCount fuel fs c in
    let is = ok-injective e3 in
    let few : n < 2 ^ 31 = subst (λ m. m < 2 ^ 31) (sym (ap (λ t'. t'.n_controllers) is)) small in
    let (one, all) = shape_bounds n h nports some_controllers few shared (read_uint-lt fs _ q) in
    subst IsShape is (record {
      two_hubs = mod-eq_of_lt one;
      some_ports = positive;
      fits = subst (λ v. n * v < 2 ^ 32) (sym (mod-eq_of_lt one)) all;
    })
