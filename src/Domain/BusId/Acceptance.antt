-- ===== src/Domain/BusId/Acceptance.antt =====
-- What the two acceptance checks let through.
use usbip_go.Prelude.{
  ℕ, ◌<◌, ◌≡◌, refl, true, false, List, [], ◌∷◌, arith, length, if◌then◌else◌, ◌≢◌, All, replicate,
  length-replicate, lt→leb, zero, suc,
}
use usbip_go.Io.Errors.{ok, err, wrap, sentinel, busid_invalid}
use usbip_go.Domain.Device.{bus_id_size}
use usbip_go.Domain.BusId.{
  is_empty, parse_bus_id, is_valid, is_wire_bus_id_rune, all_wire_runes, validate_wire_bus_id,
}

-- ParseBusID answers its own argument or ErrBusIDInvalid, and BusID.IsValid tells which.
pub parse_bus_id-is_valid :
    (s : List ℕ)
    → parse_bus_id s ≡ (if is_valid s then ok s else err (wrap (sentinel busid_invalid)))
unfolding parse_bus_id is_valid
parse_bus_id-is_valid s = ground arith

-- A bus id that the wire check accepts is itself, not empty, shorter than its field, and all of its
-- bytes are letters, digits, dots, underscores or hyphens.
pub validate_wire_bus_id-ok :
    (s : List ℕ) {b : List ℕ}
    → validate_wire_bus_id s ≡ ok b
    → (b ≡ s) × (is_empty s ≡ false) × (length s < bus_id_size) × (all_wire_runes s ≡ true)
unfolding validate_wire_bus_id
validate_wire_bus_id-ok s h = ground arith

-- An accepted byte is none that could end or split a path element: it is no slash, no NUL, no
-- white space and no control character.
wire_rune_safe : (r : ℕ) → is_wire_bus_id_rune r ≡ true → (0x20 < r) × (r < 0x7f) × (r ≢ b'/')
unfolding is_wire_bus_id_rune
wire_rune_safe r h = ground arith

abbrev pub IsSafeByte : ℕ → Type 0
IsSafeByte r = (0x20 < r) × (r < 0x7f) × (r ≢ b'/')

all_wire_runes-safe : (s : List ℕ) → all_wire_runes s ≡ true → All IsSafeByte s
unfolding all_wire_runes
all_wire_runes-safe [] h = tt
all_wire_runes-safe (r ∷ s) h =
    (wire_rune_safe r (ground arith), all_wire_runes-safe s (ground arith))

-- Whatever bus id the wire check accepts is its argument, has between 1 and 31 bytes, and each byte
-- is printable, no space and no slash.
pub validate_wire_bus_id-safe :
    (s : List ℕ) {b : List ℕ}
    → validate_wire_bus_id s ≡ ok b
    → (b ≡ s) × (is_empty s ≡ false) × (length s < bus_id_size) × All IsSafeByte s
validate_wire_bus_id-safe s h =
    let (e, n, l, a) = validate_wire_bus_id-ok s h in (e, n, l, all_wire_runes-safe s a)

all_dots : (n : ℕ) → all_wire_runes (replicate n b'.') ≡ true
unfolding all_wire_runes
all_dots zero = refl
all_dots (suc n) = all_dots n

-- A name of dots alone passes the wire check at every length that fits the field; one dot and two
-- dots are the directory itself and its parent.
pub validate_wire_bus_id-dots :
    (n : ℕ)
    → 0 < n
    → n < bus_id_size
    → validate_wire_bus_id (replicate n b'.') ≡ ok (replicate n b'.')
unfolding validate_wire_bus_id
validate_wire_bus_id-dots zero p h = absurd (omega arith)
validate_wire_bus_id-dots (suc n) p h = rw (
  lt→leb bus_id_size (suc (length (replicate {A = ℕ} n b'.')))
      (omega (arith, length-replicate {A = ℕ} n b'.')),
  all_dots (suc n),
)
