-- ===== src/Domain/BusId/Topology.antt =====
-- The topology pattern: the scan accepts exactly the texts of the form BUS-PORT.PORT…
use usbip_go.Prelude.{
  ℕ, ◌≡◌, refl, ap, ◌∙◌, inl, inr, ◌⊎◌, true, false, List, [], ◌∷◌, ◌++◌, ◌==◌, ==→eq, Bool-cases,
  All, ◌↔◌,
}
use usbip_go.Domain.BusId.{
  start, bus, dash, port, failed, scan, scan_step, accepts, is_digit, match_string, is_empty,
}

-- A decimal number of at least one digit.
abbrev pub IsNumber : List ℕ → Type 0
IsNumber d = (is_empty d ≡ false) × All (λ c. is_digit c ≡ true) d

-- A port path after its first number.
abbrev pub dotted : List (List ℕ) → List ℕ
dotted [] = []
dotted (p ∷ ps) = b'.' ∷ (p ++ dotted ps)

-- The text of a bus number and a port path.
abbrev pub topology : List ℕ → List ℕ → List (List ℕ) → List ℕ
topology b p ps = b ++ (b'-' ∷ (p ++ dotted ps))

abbrev pub IsTopology : List ℕ → Type 0
IsTopology s =
    (b : List ℕ) × (p : List ℕ) × (ps : List (List ℕ)) × IsNumber b
    × IsNumber p
    × All IsNumber ps
    × (s ≡ topology b p ps)

-- A digit keeps the scan in a number, or starts one.
digit_step : (c : ℕ) → is_digit c ≡ true → (scan_step port c ≡ port) × (scan_step bus c ≡ bus)
digit_step c h = (rw h, rw h)

digit_starts : (c : ℕ) → is_digit c ≡ true → (scan_step dash c ≡ port) × (scan_step start c ≡ bus)
digit_starts c h = (rw h, rw h)

scan-digits_port :
    (d t : List ℕ) → All (λ c. is_digit c ≡ true) d → scan port (d ++ t) ≡ scan port t
unfolding scan
scan-digits_port [] t h = refl
scan-digits_port (c ∷ d) t (x, h) =
    ap (λ st. scan st (d ++ t)) (digit_step c x).0 ∙ scan-digits_port d t h

scan-digits_bus : (d t : List ℕ) → All (λ c. is_digit c ≡ true) d → scan bus (d ++ t) ≡ scan bus t
unfolding scan
scan-digits_bus [] t h = refl
scan-digits_bus (c ∷ d) t (x, h) =
    ap (λ st. scan st (d ++ t)) (digit_step c x).1 ∙ scan-digits_bus d t h

scan-number_dash : (d t : List ℕ) → IsNumber d → scan dash (d ++ t) ≡ scan port t
unfolding scan
scan-number_dash [] t (n, h) = cc
scan-number_dash (c ∷ d) t (n, h) =
    ap (λ st. scan st (d ++ t)) (digit_starts c h.0).0 ∙ scan-digits_port d t h.1

scan-number_start : (d t : List ℕ) → IsNumber d → scan start (d ++ t) ≡ scan bus t
unfolding scan
scan-number_start [] t (n, h) = cc
scan-number_start (c ∷ d) t (n, h) =
    ap (λ st. scan st (d ++ t)) (digit_starts c h.0).1 ∙ scan-digits_bus d t h.1

scan-dotted : (ps : List (List ℕ)) → All IsNumber ps → scan port (dotted ps) ≡ port
unfolding scan
scan-dotted [] h = refl
scan-dotted (p ∷ ps) (x, h) = scan-number_dash p (dotted ps) x ∙ scan-dotted ps h

scan-topology :
    (b p : List ℕ) (ps : List (List ℕ))
    → IsNumber b
    → IsNumber p
    → All IsNumber ps
    → scan start (topology b p ps) ≡ port
unfolding scan
scan-topology b p ps hb hp hps =
    scan-number_start b _ hb ∙ (scan-number_dash p (dotted ps) hp ∙ scan-dotted ps hps)

scan-failed : (s : List ℕ) → scan failed s ≡ failed
unfolding scan
scan-failed [] = refl
scan-failed (c ∷ s) = scan-failed s

-- What a scan that ends well has left to read: digits and a dotted path in a number, a number and
-- a dotted path where one must start.
abbrev Ported : List ℕ → Type 0
Ported s =
    (d : List ℕ) × (ps : List (List ℕ)) × All (λ c. is_digit c ≡ true) d
    × All IsNumber ps
    × (s ≡ d ++ dotted ps)

abbrev Dashed : List ℕ → Type 0
Dashed s = (p : List ℕ) × (ps : List (List ℕ)) × IsNumber p × All IsNumber ps × (s ≡ p ++ dotted ps)

dead : (s : List ℕ) {P : Type 0} → accepts (scan failed s) ≡ true → P
dead s h = cc (scan-failed s)

port_digit : (c : ℕ) (s : List ℕ) → is_digit c ≡ true → Ported s → Ported (c ∷ s)
port_digit c s x (d, ps, h, k, e) = (c ∷ d, ps, (x, h), k, ap (◌∷◌ c) e)

port_dot : (c : ℕ) (s : List ℕ) → c ≡ b'.' → Dashed s → Ported (c ∷ s)
port_dot c s x (p, ps, h, k, e) = ([], p ∷ ps, tt, (h, k), rw (x, e))

dash_digit : (c : ℕ) (s : List ℕ) → is_digit c ≡ true → Ported s → Dashed (c ∷ s)
dash_digit c s x (d, ps, h, k, e) = (c ∷ d, ps, (refl, (x, h)), k, ap (◌∷◌ c) e)

-- Where one more byte takes a scan that ends well.
port_next :
    (c : ℕ) (s : List ℕ)
    → accepts (scan (scan_step port c) s) ≡ true
    → ((is_digit c ≡ true) × (accepts (scan port s) ≡ true))
      ⊎ ((c ≡ b'.') × (accepts (scan dash s) ≡ true))
port_next c s h = elim (Bool-cases (is_digit c)) [
  | inl x ↦ inl (x, rw (← h, x))
  | inr x ↦ elim (Bool-cases (c == b'.')) [
    | inl y ↦ inr (==→eq c b'.' y, rw (← h, x, y))
    | inr y ↦ dead s (rw (x, y) at h)
  ]
]

dash_next :
    (c : ℕ) (s : List ℕ)
    → accepts (scan (scan_step dash c) s) ≡ true
    → (is_digit c ≡ true) × (accepts (scan port s) ≡ true)
dash_next c s h = elim (Bool-cases (is_digit c)) [
  | inl x ↦ (x, rw (← h, x))
  | inr x ↦ dead s (rw x at h)
]

start_next :
    (c : ℕ) (s : List ℕ)
    → accepts (scan (scan_step start c) s) ≡ true
    → (is_digit c ≡ true) × (accepts (scan bus s) ≡ true)
start_next c s h = elim (Bool-cases (is_digit c)) [
  | inl x ↦ (x, rw (← h, x))
  | inr x ↦ dead s (rw x at h)
]

bus_next :
    (c : ℕ) (s : List ℕ)
    → accepts (scan (scan_step bus c) s) ≡ true
    → ((is_digit c ≡ true) × (accepts (scan bus s) ≡ true))
      ⊎ ((c ≡ b'-') × (accepts (scan dash s) ≡ true))
bus_next c s h = elim (Bool-cases (is_digit c)) [
  | inl x ↦ inl (x, rw (← h, x))
  | inr x ↦ elim (Bool-cases (c == b'-')) [
    | inl y ↦ inr (==→eq c b'-' y, rw (← h, x, y))
    | inr y ↦ dead s (rw (x, y) at h)
  ]
]

port_grows :
    (c : ℕ) (s : List ℕ)
    → ((is_digit c ≡ true) × (accepts (scan port s) ≡ true))
      ⊎ ((c ≡ b'.') × (accepts (scan dash s) ≡ true))
    → (accepts (scan port s) ≡ true → Ported s)
    → (accepts (scan dash s) ≡ true → Dashed s)
    → Ported (c ∷ s)
port_grows c s (inl (x, h)) p d = port_digit c s x (p h)
port_grows c s (inr (x, h)) p d = port_dot c s x (d h)

mutual
  unfolding scan

  port_sound : (s : List ℕ) → accepts (scan port s) ≡ true → Ported s
  port_sound [] h = ([], [], tt, tt, refl)
  port_sound (c ∷ s) h = port_grows c s (port_next c s h) (port_sound s) (dash_sound s)

  dash_sound : (s : List ℕ) → accepts (scan dash s) ≡ true → Dashed s
  dash_sound [] h = cc
  dash_sound (c ∷ s) h = let (x, k) = dash_next c s h in dash_digit c s x (port_sound s k)

-- The digits still to come of a bus number, then the port path.
abbrev Bussed : List ℕ → Type 0
Bussed s =
    (b : List ℕ) × (p : List ℕ) × (ps : List (List ℕ)) × All (λ c. is_digit c ≡ true) b
    × IsNumber p
    × All IsNumber ps
    × (s ≡ topology b p ps)

bus_digit : (c : ℕ) (s : List ℕ) → is_digit c ≡ true → Bussed s → Bussed (c ∷ s)
bus_digit c s x (b, p, ps, h, k, l, e) = (c ∷ b, p, ps, (x, h), k, l, ap (◌∷◌ c) e)

bus_dash : (c : ℕ) (s : List ℕ) → c ≡ b'-' → Dashed s → Bussed (c ∷ s)
bus_dash c s x (p, ps, h, k, e) = ([], p, ps, tt, h, k, rw (x, e))

bus_grows :
    (c : ℕ) (s : List ℕ)
    → ((is_digit c ≡ true) × (accepts (scan bus s) ≡ true))
      ⊎ ((c ≡ b'-') × (accepts (scan dash s) ≡ true))
    → (accepts (scan bus s) ≡ true → Bussed s)
    → Bussed (c ∷ s)
bus_grows c s (inl (x, h)) b = bus_digit c s x (b h)
bus_grows c s (inr (x, h)) b = bus_dash c s x (dash_sound s h)

bus_sound : (s : List ℕ) → accepts (scan bus s) ≡ true → Bussed s
unfolding scan
bus_sound [] h = cc
bus_sound (c ∷ s) h = bus_grows c s (bus_next c s h) (bus_sound s)

start_digit : (c : ℕ) (s : List ℕ) → is_digit c ≡ true → Bussed s → IsTopology (c ∷ s)
start_digit c s x (b, p, ps, h, k, l, e) = (c ∷ b, p, ps, (refl, (x, h)), k, l, ap (◌∷◌ c) e)

start_sound : (s : List ℕ) → accepts (scan start s) ≡ true → IsTopology s
unfolding scan
start_sound [] h = cc
start_sound (c ∷ s) h = let (x, k) = start_next c s h in start_digit c s x (bus_sound s k)

match-topology : (s : List ℕ) → IsTopology s → match_string s ≡ true
unfolding match_string
match-topology s (b, p, ps, hb, hp, hps, e) = rw e (rw (scan-topology b p ps hb hp hps))

-- A text matches the bus id pattern exactly when it is a number, a hyphen and one or more numbers
-- with dots between them.
pub match_string_iff : (s : List ℕ) → (match_string s ≡ true) ↔ IsTopology s
unfolding match_string
match_string_iff s = (start_sound s, match-topology s)
