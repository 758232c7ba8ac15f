-- ===== src/Io/Errors.antt =====
-- Go's error values: the sentinels of pkg/domain/errors.go, of the packages' own files and of
-- package io, and the ways in which `fmt.Errorf` wraps them. Message text is dropped, but for the
-- device index of a truncated devlist.
use usbip_go.Prelude.{◌≡◌, refl, ap, ℕ, ◌+◌, Bool, true, false, ◌||◌, ◌==◌, if◌then◌else◌}

pub data Sentinel : Type 0 where
  eof unexpected_eof out_of_fuel : Sentinel
  device_not_found device_already_bound device_not_bound device_unavailable : Sentinel
  port_in_use no_free_port protocol_mismatch protocol_error busid_invalid : Sentinel
  already_running already_shutdown permission kernel_module_missing : Sentinel
  attach_in_progress unsupported_device : Sentinel
  devlist_truncated devlist_count_overflow device_field_too_large : Sentinel
  handshake_too_large : Sentinel
  bad_number line_too_long file_not_exist file_permission : Sentinel
  port_out_of_range row_controller_mismatch controller_not_ready zero_vhci_ports : Sentinel
  topology_no_controllers topology_inconsistent topology_zero_nports : Sentinel
  conn_not_syscall max_sessions_exceeded per_peer_limit_exceeded : Sentinel
  context_done context_canceled importer_closed reservation_lost options_invalid port_lost :
      Sentinel
  -- An error of the operating system or of the network, by a number.
  system : ℕ → Sentinel

-- Two sentinels are the same variable exactly when their codes are equal.
abbrev pub code : Sentinel → ℕ
code eof = 0
code unexpected_eof = 1
code out_of_fuel = 2
code device_not_found = 3
code device_already_bound = 4
code device_not_bound = 5
code device_unavailable = 6
code port_in_use = 7
code no_free_port = 8
code protocol_mismatch = 9
code protocol_error = 10
code busid_invalid = 11
code already_running = 12
code already_shutdown = 13
code permission = 14
code kernel_module_missing = 15
code attach_in_progress = 16
code unsupported_device = 17
code devlist_truncated = 18
code devlist_count_overflow = 19
code device_field_too_large = 20
code handshake_too_large = 21
code bad_number = 22
code line_too_long = 23
code file_not_exist = 24
code file_permission = 25
code port_out_of_range = 26
code row_controller_mismatch = 27
code controller_not_ready = 28
code zero_vhci_ports = 29
code topology_no_controllers = 30
code topology_inconsistent = 31
code topology_zero_nports = 32
code conn_not_syscall = 33
code max_sessions_exceeded = 34
code per_peer_limit_exceeded = 35
code context_done = 36
code context_canceled = 37
code importer_closed = 38
code reservation_lost = 39
code options_invalid = 40
code port_lost = 41
code (system n) = 42 + n

pub data Error : Type 0 where
  -- The variable itself, unwrapped.
  sentinel : Sentinel → Error
  -- `fmt.Errorf("…: %w", err)`.
  wrap : Error → Error
  -- The same, with the index of a device in the text.
  wrap_at : ℕ → Error → Error
  -- `fmt.Errorf("%w: …: %w", e, err)`.
  join : Error → Error → Error

-- `errors.Is(err, target)`.
abbrev pub errors_is : Error → Sentinel → Bool
errors_is (sentinel s) t = code s == code t
errors_is (wrap e) t = errors_is e t
errors_is (wrap_at i e) t = errors_is e t
errors_is (join d e) t = errors_is d t || errors_is e t

-- `err == io.EOF`: the bare value, not one that wraps it.
abbrev pub is_eof_value : Error → Bool
is_eof_value (sentinel s) = code s == code eof
is_eof_value (wrap e) = false
is_eof_value (wrap_at i e) = false
is_eof_value (join d e) = false

-- What a Go function with a final error result returns: that error, or its other results.
pub data Result {ℓ} (Value : Type ℓ) : Type ℓ where
  err : Error → Result Value
  ok : Value → Result Value

-- `if err != nil { return …, change(err) }`.
abbrev pub map_err {ℓ} : {A : Type ℓ} → (Error → Error) → Result A → Result A
map_err change (err e) = err (change e)
map_err change (ok value) = ok value

-- `if err != nil { return …, err }` in front of the rest of the body.
module _ {ℓ κ} {A : Type ℓ} {B : Type κ} where
  infixl 5 ◌>>=◌
  abbrev pub ◌>>=◌ : Result A → (A → Result B) → Result B
  err e >>= rest = err e
  ok value >>= rest = rest value

  -- Inversion of a step that succeeded, and the two ways to run one.
  pub >>=-eq-ok :
      (m : Result A) (rest : A → Result B) {b : B}
      → (m >>= rest) ≡ ok b
      → (a : A) × (m ≡ ok a) × (rest a ≡ ok b)
  >>=-eq-ok (err e) rest h = cc
  >>=-eq-ok (ok value) rest h = (value, refl, h)

  pub >>=-ok : (m : Result A) (rest : A → Result B) (a : A) → m ≡ ok a → (m >>= rest) ≡ rest a
  >>=-ok m rest a h = ap (λ x. x >>= rest) h

  pub >>=-err : (m : Result A) (rest : A → Result B) (e : Error) → m ≡ err e → (m >>= rest) ≡ err e
  >>=-err m rest e h = ap (λ x. x >>= rest) h

module _ {A R : Type 0} {a b : A} {r s : R} where
  -- Equal answers of a decoder have equal values and equal readers.
  pub ok_first : ◌≡◌ {A = Result (A × R)} (ok (a, r)) (ok (b, s)) → a ≡ b
  ok_first e = cc

  pub ok_second : ◌≡◌ {A = Result (A × R)} (ok (a, r)) (ok (b, s)) → r ≡ s
  ok_second e = cc

-- A check that is passed where the result is no error.
pub guard-ok {ℓ} :
    {A : Type ℓ} (bad : Bool) (e : Error) (m : Result A) {a : A}
    → (if bad then err e else m) ≡ ok a
    → (bad ≡ false) × (m ≡ ok a)
guard-ok true e m h = cc
guard-ok false e m h = (refl, h)

pub ok-injective {ℓ} : {A : Type ℓ} {a b : A} → ◌≡◌ {A = Result A} (ok a) (ok b) → a ≡ b
ok-injective h = cc
