-- ===== src/Domain/BusId.antt =====
-- pkg/domain/busid.go: the two acceptance checks for bus ids. A Go string is the list of its bytes.
pub mod Acceptance
pub mod Topology
pub mod Parse
use usbip_go.Prelude.{
  ℕ, Bool, true, false, not, ◌&&◌, ◌||◌, List, [], ◌∷◌, length, leb, ◌==◌, if◌then◌else◌,
}
use usbip_go.Io.Errors.{Result, ok, err, wrap, sentinel, busid_invalid}
use usbip_go.Domain.Device.{bus_id_size}

abbrev pub is_digit : ℕ → Bool
is_digit c = leb b'0' c && leb c b'9'

-- Where a scan by `^[0-9]+-[0-9]+(\.[0-9]+)*$` stands: `bus` and `port` accept more digits, the
-- others wait for one.
pub data Scan : Type 0 where
  start bus dash port failed : Scan

abbrev pub scan_step : Scan → ℕ → Scan
scan_step start c = if is_digit c then bus else failed
scan_step bus c = if is_digit c then bus else if c == b'-' then dash else failed
scan_step dash c = if is_digit c then port else failed
scan_step port c = if is_digit c then port else if c == b'.' then dash else failed
scan_step failed c = failed

abbrev pub accepts : Scan → Bool
accepts port = true
accepts start = false
accepts bus = false
accepts dash = false
accepts failed = false

pub scan : Scan → List ℕ → Scan
scan st [] = st
scan st (c ∷ s) = scan (scan_step st c) s

-- busIDPattern.MatchString.
unfoldable pub match_string : List ℕ → Bool
unfolding scan
match_string s = accepts (scan start s)

-- strings.TrimSpace leaves nothing exactly of a text all of whose characters are white space. The
-- states are the bytes of a multi-byte white space character seen so far.
pub data Blank : Type 0 where
  between c2 e1 e1_9a e2 e2_80 e2_81 e3 e3_80 text : Blank

abbrev pub is_ascii_space : ℕ → Bool
is_ascii_space c = (leb 0x09 c && leb c 0x0d) || c == 0x20

abbrev pub blank_step : Blank → ℕ → Blank
blank_step between c =
    if is_ascii_space c
    then between
    else if c == 0xc2
    then c2
    else if c == 0xe1
    then e1
    else if c == 0xe2
    then e2
    else if c == 0xe3
    then e3
    else text
blank_step c2 c = if c == 0x85 || c == 0xa0 then between else text
blank_step e1 c = if c == 0x9a then e1_9a else text
blank_step e1_9a c = if c == 0x80 then between else text
blank_step e2 c = if c == 0x80 then e2_80 else if c == 0x81 then e2_81 else text
blank_step e2_80 c =
    if (leb 0x80 c && leb c 0x8a) || (c == 0xa8 || (c == 0xa9 || c == 0xaf)) then between else text
blank_step e2_81 c = if c == 0x9f then between else text
blank_step e3 c = if c == 0x80 then e3_80 else text
blank_step e3_80 c = if c == 0x80 then between else text
blank_step text c = text

abbrev pub is_between : Blank → Bool
is_between between = true
is_between _ = false

pub blank_scan : Blank → List ℕ → Blank
blank_scan st [] = st
blank_scan st (c ∷ s) = blank_scan (blank_step st c) s

-- `strings.TrimSpace(s) == ""`.
unfoldable pub is_blank : List ℕ → Bool
unfolding blank_scan
is_blank s = is_between (blank_scan between s)

-- `strings.ContainsRune(s, '\x00')`.
unfoldable pub contains_nul : List ℕ → Bool
contains_nul [] = false
contains_nul (c ∷ s) = c == 0 || contains_nul s

abbrev pub is_empty : List ℕ → Bool
is_empty [] = true
is_empty (c ∷ s) = false

-- ParseBusID.
unfoldable pub parse_bus_id : List ℕ → Result (List ℕ)
parse_bus_id s =
    if is_empty s
    then err (wrap (sentinel busid_invalid))
    else if is_blank s
    then err (wrap (sentinel busid_invalid))
    else if leb bus_id_size (length s)
    then err (wrap (sentinel busid_invalid))
    else if contains_nul s
    then err (wrap (sentinel busid_invalid))
    else if not (match_string s)
    then err (wrap (sentinel busid_invalid))
    else ok s

-- BusID.IsValid.
unfoldable pub is_valid : List ℕ → Bool
is_valid b =
    if is_empty b
    then false
    else if leb bus_id_size (length b)
    then false
    else if contains_nul b
    then false
    else if is_blank b
    then false
    else match_string b

-- isWireBusIDRune. A byte of a character beyond ASCII fails it as that character does.
unfoldable pub is_wire_bus_id_rune : ℕ → Bool
is_wire_bus_id_rune r =
    let is_alpha = (leb b'a' r && leb r b'z') || (leb b'A' r && leb r b'Z') in
    let is_number = leb b'0' r && leb r b'9' in
    let is_punct = r == b'.' || (r == b'_' || r == b'-') in is_alpha || (is_number || is_punct)

-- The loop of ValidateWireBusID.
unfoldable pub all_wire_runes : List ℕ → Bool
unfolding is_wire_bus_id_rune
all_wire_runes [] = true
all_wire_runes (r ∷ s) = is_wire_bus_id_rune r && all_wire_runes s

-- ValidateWireBusID.
unfoldable pub validate_wire_bus_id : List ℕ → Result (List ℕ)
validate_wire_bus_id s =
    if is_empty s
    then err (wrap (sentinel busid_invalid))
    else if leb bus_id_size (length s)
    then err (wrap (sentinel busid_invalid))
    else if all_wire_runes s
    then ok s
    else err (wrap (sentinel busid_invalid))
