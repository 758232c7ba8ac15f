-- ===== src/Domain/BusId/Parse.antt =====
-- ParseBusID accepts exactly the topology texts that fit their field, and the wire check accepts
-- whatever it does.
use usbip_go.Prelude.{
  ℕ, ◌<◌, ◌≡◌, refl, ap, ◌∙◌, true, false, List, [], ◌∷◌, ◌++◌, arith, length, All, ◌↔◌, lt→leb,
}
use usbip_go.Io.Errors.{ok}
use usbip_go.Domain.Device.{bus_id_size}
use usbip_go.Domain.BusId.{
  is_between, blank_scan, blank_step, text, between, is_blank, is_digit, is_empty, contains_nul,
  is_wire_bus_id_rune, all_wire_runes, match_string, parse_bus_id, validate_wire_bus_id,
}
use usbip_go.Domain.BusId.Topology.{IsNumber, IsTopology, dotted, match_string_iff}

digit-wire : (c : ℕ) → is_digit c ≡ true → is_wire_bus_id_rune c ≡ true
unfolding is_wire_bus_id_rune
digit-wire c h = ground arith

All-wire-digits :
    (d t : List ℕ)
    → All (λ c. is_digit c ≡ true) d
    → all_wire_runes t ≡ true
    → all_wire_runes (d ++ t) ≡ true
unfolding all_wire_runes
All-wire-digits [] t h k = k
All-wire-digits (c ∷ d) t (x, h) k = rw (digit-wire c x) (All-wire-digits d t h k)

All-wire-dotted : (ps : List (List ℕ)) → All IsNumber ps → all_wire_runes (dotted ps) ≡ true
unfolding all_wire_runes
All-wire-dotted [] h = refl
All-wire-dotted (p ∷ ps) (x, h) = All-wire-digits p (dotted ps) x.1 (All-wire-dotted ps h)

topology-wire : (s : List ℕ) → IsTopology s → all_wire_runes s ≡ true
unfolding all_wire_runes
topology-wire s (b, p, ps, hb, hp, hps, e) =
    rw e (All-wire-digits b _ hb.1 (All-wire-digits p (dotted ps) hp.1 (All-wire-dotted ps hps)))

wire-no_nul : (s : List ℕ) → all_wire_runes s ≡ true → contains_nul s ≡ false
unfolding all_wire_runes contains_nul
wire-no_nul [] h = refl
wire-no_nul (c ∷ s) h = ground (arith, wire-no_nul s)

blank_scan-text : (s : List ℕ) → blank_scan text s ≡ text
unfolding blank_scan
blank_scan-text [] = refl
blank_scan-text (c ∷ s) = blank_scan-text s

digit-text : (c : ℕ) → is_digit c ≡ true → blank_step between c ≡ text
digit-text c h = ground arith

topology-front : (s : List ℕ) → IsTopology s → (is_empty s ≡ false) × (is_blank s ≡ false)
unfolding is_blank blank_scan
topology-front s ([], p, ps, hb, hp, hps, e) = cc (hb.0)
topology-front s (c ∷ b, p, ps, hb, hp, hps, e) = rw e (
  refl,
  ap is_between (ap (λ st. blank_scan st rest) (digit-text c hb.1.0) ∙ blank_scan-text rest),
)
  where
    rest : List ℕ
    rest = b ++ (b'-' ∷ (p ++ dotted ps))

parse_bus_id-accepts : (s : List ℕ) → IsTopology s → length s < bus_id_size → parse_bus_id s ≡ ok s
unfolding parse_bus_id
parse_bus_id-accepts s t h =
    let (n, b) = topology-front s t in
    rw (
      n,
      b,
      lt→leb bus_id_size (length s) h,
      wire-no_nul s (topology-wire s t),
      (match_string_iff s).1 t,
    )

-- What a bus id that ParseBusID accepts satisfies.
parse_bus_id-checked :
    (s : List ℕ) {b : List ℕ}
    → parse_bus_id s ≡ ok b
    → (b ≡ s) × (length s < bus_id_size) × (match_string s ≡ true) × (is_empty s ≡ false)
unfolding parse_bus_id
parse_bus_id-checked s h = ground arith

-- ParseBusID returns its argument exactly when that is a topology text of fewer than 32 bytes.
pub parse_bus_id_iff :
    (s : List ℕ) → (parse_bus_id s ≡ ok s) ↔ (IsTopology s × (length s < bus_id_size))
parse_bus_id_iff s = (
  λ h. let (e, l, m, n) = parse_bus_id-checked s h in ((match_string_iff s).0 m, l),
  λ p. parse_bus_id-accepts s p.0 p.1,
)

-- A bus id that a user's text parses to passes the check at the wire, so it is never refused there.
pub validate-parse_bus_id :
    (s : List ℕ) {b : List ℕ} → parse_bus_id s ≡ ok b → validate_wire_bus_id b ≡ ok b
unfolding validate_wire_bus_id
validate-parse_bus_id s h =
    let (e, l, m, n) = parse_bus_id-checked s h in
    rw (e, n, lt→leb bus_id_size (length s) l, topology-wire s ((match_string_iff s).0 m))
