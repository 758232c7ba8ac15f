-- ===== src/Kernel/Ports/Window.antt =====
-- Every row that is read belongs to the file it stood in: its flat port lies in the window of that
-- file's controller.
use usbip_go.Prelude.{
  ℕ, zero, suc, ◌+◌, ◌*◌, ◌/◌, ◌≤◌, ◌<◌, ◌≡◌, sym, true, ◌||◌, Option, none, some, List, [], ◌∷◌,
  ◌++◌, leb, ◌==◌, All, All-append, All-imp, arith, length, subst, ==→ne,
}
use native.Mathlib.Nat.{div-lt_iff_lt-mul}
use usbip_go.Io.Errors.{ok, >>=-eq-ok, guard-ok, ok-injective}
use usbip_go.Domain.Device.{is_known}
use usbip_go.Kernel.Text.{text_eq}
use usbip_go.Kernel.Sysfs.{Fs, read_file_bytes, path_join, sysfs_vhci_hcd}
use usbip_go.Kernel.Topology.{StatusTopology, status_file_name}
use usbip_go.Kernel.Ports.{
  max_scan_token_size, ParsedPort, parse_status_row, parse_status_line, parse_lines,
  parse_status_file, keep_row, split_lines, drop_cr, read_rows, read_status_rows_with_topology,
  hub_type_high_speed, hub_type_super_speed, status_error,
}

-- A row of controller `i` where each has `v` ports: window, hub and speed.
pub record IsRowOf (i v : ℕ) (r : ParsedPort) : Type 0 where
  pub window : r.port / v ≡ i
  pub known_hub : (text_eq r.hub hub_type_high_speed || text_eq r.hub hub_type_super_speed) ≡ true
  pub known_speed : is_known r.speed ≡ true
  pub known_status : r.status ≤ status_error

parse_status_row-known :
    (line : List ℕ) {r : ParsedPort}
    → parse_status_row line ≡ some r
    → ((text_eq r.hub hub_type_high_speed || text_eq r.hub hub_type_super_speed) ≡ true)
      × (is_known r.speed ≡ true)
      × (r.status ≤ status_error)
unfolding parse_status_row usbip_go.Kernel.Ports.translate_vdev_status
parse_status_row-known line h = ground arith

parse_status_line-IsRowOf :
    (line : List ℕ) (i v : ℕ) {r : ParsedPort}
    → parse_status_line line i v ≡ ok (some r)
    → (parse_status_row line ≡ some r) × (r.port / v ≡ i)
unfolding parse_status_line
parse_status_line-IsRowOf line i v h = ground arith

keep_row-All :
    (i v : ℕ) (line : List ℕ) (o : Option ParsedPort) (out : List ParsedPort)
    → parse_status_line line i v ≡ ok o
    → All (IsRowOf i v) out
    → All (IsRowOf i v) (keep_row o out)
keep_row-All i v line none out q h = h
keep_row-All i v line (some r) out q h =
    let (parsed, window) = parse_status_line-IsRowOf line i v q in
    let (hub, speed, status) = parse_status_row-known line parsed in
    All-append (IsRowOf i v) out (r ∷ []) h
      (record { window = window; known_hub = hub; known_speed = speed; known_status = status }, tt)

parse_lines-All :
    (lines : List (List ℕ)) (i v : ℕ) (out : List ParsedPort) {rows : List ParsedPort}
    → parse_lines lines i v out ≡ ok rows
    → All (IsRowOf i v) out
    → All (IsRowOf i v) rows
unfolding parse_lines
parse_lines-All [] i v out e h = subst (All (IsRowOf i v)) (ok-injective e) h
parse_lines-All (line ∷ lines) i v out e h =
    let (fits, e1) = guard-ok (leb max_scan_token_size (length line)) _ _ e in
    let (o, q, e2) = >>=-eq-ok (parse_status_line (drop_cr line) i v) _ e1 in
    parse_lines-All lines i v (keep_row o out) e2 (keep_row-All i v (drop_cr line) o out q h)

-- Every row that parseStatusFile returns has its port in the window of the file's controller, one of
-- the two hub types, a known speed and one of the five statuses; and the window is not empty.
pub parse_status_file-IsRowOf :
    (body : List ℕ) (i v : ℕ) {rows : List ParsedPort}
    → parse_status_file body i v ≡ ok rows
    → (0 < v) × All (IsRowOf i v) rows
unfolding parse_status_file
parse_status_file-IsRowOf body i v e =
    let (some_ports, e1) = guard-ok (v == 0) _ _ e in
    let ne = ==→ne v 0 some_ports in (grind arith, parse_lines-All (split_lines body) i v [] e1 tt)

-- A port in the window of one of `n` controllers is below the number of all ports.
IsRowOf-below : (i n v : ℕ) (r : ParsedPort) → 0 < v → i < n → IsRowOf i v r → r.port < n * v
IsRowOf-below i n v r p h row =
    (div-lt_iff_lt-mul {k = v} {x = r.port} {y = n} p).0 (subst (λ m. m < n) (sym row.window) h)

read_rows-All :
    (left i : ℕ) (fs : Fs) (v n : ℕ) (out : List ParsedPort) {rows : List ParsedPort}
    → i + left ≡ n
    → read_rows left i fs v out ≡ ok rows
    → All (λ r. r.port < n * v) out
    → All (λ r. r.port < n * v) rows
unfolding read_rows
read_rows-All zero i fs v n out q e h = subst (All (λ r. r.port < n * v)) (ok-injective e) h
read_rows-All (suc left) i fs v n out q e h =
    let (raw, e1, more1) =
      >>=-eq-ok (read_file_bytes fs (path_join sysfs_vhci_hcd (status_file_name i))) _ e in
    let (parsed, e2, more2) = >>=-eq-ok (parse_status_file raw i v) _ more1 in
    let (p, window) = parse_status_file-IsRowOf raw i v e2 in
    let below = All-imp (λ r. IsRowOf-below i n v r p (omega arith)) parsed window in
    read_rows-All left (suc i) fs v n (out ++ parsed) (omega arith) more2
      (All-append (λ r. r.port < n * v) out parsed h below)

-- Every port that readStatusRowsWithTopology returns is below the number of ports of all the
-- controllers.
pub read_status_rows-All :
    (fs : Fs) (topo : StatusTopology) {rows : List ParsedPort}
    → read_status_rows_with_topology fs topo ≡ ok rows
    → All (λ r. r.port < topo.n_controllers * topo.vhci_ports) rows
unfolding read_status_rows_with_topology
read_status_rows-All fs topo e =
    read_rows-All topo.n_controllers 0 fs topo.vhci_ports topo.n_controllers [] (omega arith) e tt
