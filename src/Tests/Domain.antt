-- ===== src/Tests/Domain.antt =====
-- Bus ids.
use usbip_go.Prelude.{ℕ, ◌<◌, ◌≡◌, refl, true, List, [], ◌∷◌, length}
use usbip_go.Io.Errors.{ok, err, wrap, sentinel, busid_invalid}
use usbip_go.Domain.Device.{bus_id_size}
use usbip_go.Domain.BusId.{
  parse_bus_id, validate_wire_bus_id, is_blank, contains_nul, match_string, all_wire_runes,
}
use usbip_go.Domain.BusId.Topology.{match_string_iff, IsTopology}
use usbip_go.Domain.BusId.Parse.{parse_bus_id_iff, validate-parse_bus_id}
use usbip_go.Tests.Samples.{bus_1_1_2}
use mathlib.Core.Logic.{◌↔◌}

parsed : parse_bus_id bus_1_1_2 ≡ ok bus_1_1_2
unfolding parse_bus_id match_string is_blank contains_nul
parsed = refl

-- "usbip-vudc.0" is refused by the user-facing check and accepted at the wire.
abbrev vudc : List ℕ
vudc = 117 ∷ 115 ∷ 98 ∷ 105 ∷ 112 ∷ 45 ∷ 118 ∷ 117 ∷ 100 ∷ 99 ∷ 46 ∷ 48 ∷ []

vudc_refused : parse_bus_id vudc ≡ err (wrap (sentinel busid_invalid))
unfolding parse_bus_id match_string is_blank contains_nul
vudc_refused = refl

vudc_on_wire : validate_wire_bus_id vudc ≡ ok vudc
unfolding validate_wire_bus_id all_wire_runes
vudc_on_wire = refl

match_string_iff_example : (match_string bus_1_1_2 ≡ true) ↔ IsTopology bus_1_1_2
match_string_iff_example = match_string_iff bus_1_1_2

parse_bus_id_iff_example :
    (parse_bus_id bus_1_1_2 ≡ ok bus_1_1_2)
    ↔ (IsTopology bus_1_1_2 × (length bus_1_1_2 < bus_id_size))
parse_bus_id_iff_example = parse_bus_id_iff bus_1_1_2

validate-parse_bus_id_example : validate_wire_bus_id bus_1_1_2 ≡ ok bus_1_1_2
validate-parse_bus_id_example = validate-parse_bus_id bus_1_1_2 parsed
