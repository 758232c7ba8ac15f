-- ===== src/Wire/Fields/PaddedStrings.antt =====
-- What paddedStringFromBytes makes of every buffer, and that ReadPaddedString reads back what
-- WritePaddedString wrote.
use usbip_go.Prelude.{
  ℕ, zero, suc, ◌-◌, ◌<◌, ◌≡◌, refl, ap, ◌∙◌, inl, inr, ◌⊎◌, Bool, true, false, List, [], ◌∷◌, ◌++◌,
  arith, length, length-append, length-replicate, replicate, Bool-cases, ◌==◌, lt→leb, ==→eq, ◌≢◌,
}
use usbip_go.Io.Errors.{ok, wrap}
use usbip_go.Io.Readers.{IoReader}
use usbip_go.Io.Readers.ReadFull.{read_full-Fills}
use usbip_go.Io.Writers.{Emits, write-Emits, output, output-Emits}
use usbip_go.Wire.Fields.{
  is_all_printable, is_unprintable, cut_before, cut_found, slow_scan, padded_string_from_bytes,
  write_padded_string, read_padded_string,
}

-- Every byte is printable ASCII.
abbrev pub IsPrintable : List ℕ → Type 0
IsPrintable s = is_all_printable s ≡ true

cut_at_nul :
    (pre rest : List ℕ)
    → IsPrintable pre
    → (cut_before (pre ++ (0 ∷ rest)) ≡ pre) × (cut_found (pre ++ (0 ∷ rest)) ≡ true)
unfolding cut_before cut_found is_all_printable
cut_at_nul [] rest h = (refl, refl)
cut_at_nul (b ∷ pre) rest h = ground (arith, cut_at_nul pre rest)

scan_stops :
    (pre : List ℕ) (b : ℕ) (rest : List ℕ)
    → IsPrintable pre
    → is_unprintable b ≡ true
    → slow_scan (pre ++ (b ∷ rest)) ≡ pre
unfolding slow_scan is_all_printable
scan_stops [] b rest h u = rw u
scan_stops (c ∷ pre) b rest h u = ground (arith, scan_stops pre b rest)

scan_whole : (pre : List ℕ) → IsPrintable pre → (slow_scan pre ≡ pre) × (cut_found pre ≡ false)
unfolding slow_scan is_all_printable cut_found
scan_whole [] h = (refl, refl)
scan_whole (c ∷ pre) h = ground (arith, scan_whole pre)

cut_unprintable :
    (pre : List ℕ) (b : ℕ) (rest : List ℕ)
    → is_unprintable b ≡ true
    → b ≢ 0
    → IsPrintable pre
    → is_all_printable (cut_before (pre ++ (b ∷ rest))) ≡ false
unfolding cut_before is_all_printable
cut_unprintable [] b rest u z h = ground arith
cut_unprintable (c ∷ pre) b rest u z h = ground (arith, cut_unprintable pre b rest)

pub padded_nul :
    (pre rest : List ℕ)
    → IsPrintable pre
    → padded_string_from_bytes (pre ++ (0 ∷ rest)) ≡ (pre, false)
unfolding padded_string_from_bytes
padded_nul pre rest h = let (c, f) = cut_at_nul pre rest h in rw (c, f, h)

padded_unprintable :
    (pre : List ℕ) (b : ℕ) (rest : List ℕ)
    → IsPrintable pre
    → is_unprintable b ≡ true
    → b ≢ 0
    → padded_string_from_bytes (pre ++ (b ∷ rest)) ≡ (pre, true)
unfolding padded_string_from_bytes
padded_unprintable pre b rest h u z =
    ground (arith, scan_stops pre b rest, cut_unprintable pre b rest)

padded_whole : (pre : List ℕ) → IsPrintable pre → padded_string_from_bytes pre ≡ (pre, true)
unfolding padded_string_from_bytes
padded_whole pre h = let (s, f) = scan_whole pre h in rw (f, s)

-- How a buffer ends its printable front: by NUL, by another unprintable byte, or not at all.
pub data Ending (buf pre : List ℕ) : Bool → Type 0 where
  terminated : (rest : List ℕ) → buf ≡ pre ++ (0 ∷ rest) → Ending buf pre false
  garbage :
      (b : ℕ) (rest : List ℕ)
      → is_unprintable b ≡ true
      → b ≢ 0
      → buf ≡ pre ++ (b ∷ rest)
      → Ending buf pre true
  unterminated : buf ≡ pre → Ending buf pre true

abbrev pub Classified : List ℕ → List ℕ × Bool → Type 0
Classified buf (s, truncated) = IsPrintable s × Ending buf s truncated

split-IsPrintable :
    (buf : List ℕ)
    → (pre : List ℕ) × IsPrintable pre
      × ((buf ≡ pre)
          ⊎ ((b : ℕ) × (rest : List ℕ) × (is_unprintable b ≡ true) × (buf ≡ pre ++ (b ∷ rest))))
unfolding is_all_printable
split-IsPrintable [] = ([], refl, inl refl)
split-IsPrintable (b ∷ buf) = elim (Bool-cases (is_unprintable b)) [
  | inl u ↦ ([], refl, inr (b, buf, u, refl))
  | inr p ↦ extend (split-IsPrintable buf) p
]
  where
    extend :
        ((pre : List ℕ) × IsPrintable pre
          × ((buf ≡ pre)
              ⊎ ((c : ℕ) × (rest : List ℕ) × (is_unprintable c ≡ true)
                  × (buf ≡ pre ++ (c ∷ rest)))))
        → is_unprintable b ≡ false
        → (pre : List ℕ) × IsPrintable pre
          × ((b ∷ buf ≡ pre)
              ⊎ ((c : ℕ) × (rest : List ℕ) × (is_unprintable c ≡ true)
                  × (b ∷ buf ≡ pre ++ (c ∷ rest))))
    extend (pre, h, inl e) p = (b ∷ pre, rw p h, inl (ap (◌∷◌ b) e))
    extend (pre, h, inr (c, rest, u, e)) p = (b ∷ pre, rw p h, inr (c, rest, u, ap (◌∷◌ b) e))

classify_by :
    (buf pre : List ℕ)
    → IsPrintable pre
    → (buf ≡ pre)
      ⊎ ((b : ℕ) × (rest : List ℕ) × (is_unprintable b ≡ true) × (buf ≡ pre ++ (b ∷ rest)))
    → Classified buf (padded_string_from_bytes buf)
classify_by buf pre h (inl e) = rw (e, padded_whole pre h) (h, unterminated refl)
classify_by buf pre h (inr (b, rest, u, e)) = elim (Bool-cases (b == 0)) [
  | inl z ↦
      rw (e ∙ ap (λ c. pre ++ (c ∷ rest)) (==→eq b 0 z), padded_nul pre rest h)
        (h, terminated rest refl)
  | inr nz ↦
      rw (e, padded_unprintable pre b rest h u (ground arith))
        (h, garbage b rest u (ground arith) refl)
]

-- On every buffer the string is its longest printable front, and the flag is clear exactly when a
-- NUL byte follows that front inside the buffer.
pub padded_string-Classified : (buf : List ℕ) → Classified buf (padded_string_from_bytes buf)
padded_string-Classified buf = let (pre, h, c) = split-IsPrintable buf in classify_by buf pre h c

-- The bytes of a field: the string, then NULs up to the width.
abbrev pub padded : List ℕ → ℕ → List ℕ
padded s size = s ++ replicate (size - length s) 0

pub length-padded : (s : List ℕ) (size : ℕ) → length s < size → length (padded s size) ≡ size
length-padded s size h =
    length-append s _ ∙ omega (arith, length-replicate {A = ℕ} (size - length s) 0)

pub write_padded_string-Emits :
    (s : List ℕ) (size : ℕ) → length s < size → Emits (write_padded_string s size) (padded s size)
unfolding write_padded_string
write_padded_string-Emits s size h = rw (lt→leb _ _ h) (write-Emits wrap (padded s size))

replicate-suc : (n : ℕ) → 0 < n → replicate {A = ℕ} n 0 ≡ 0 ∷ replicate (n - 1) 0
replicate-suc zero h = absurd (omega arith)
replicate-suc (suc n) h = ap (λ k. 0 ∷ replicate k 0) (omega arith)

pub padded_string-padded :
    (s : List ℕ) (size : ℕ)
    → length s < size
    → IsPrintable s
    → padded_string_from_bytes (padded s size) ≡ (s, false)
padded_string-padded s size h p =
    rw (replicate-suc (size - length s) (omega arith)) (padded_nul s _ p)

module _ {R : Type 0} ⦃io : IoReader R⦄ where
  -- What WritePaddedString writes of a printable string that is shorter than the field,
  -- ReadPaddedString returns with the flag clear, and it leaves what follows the field unread.
  pub read-write_padded_string :
      (s rest : List ℕ) (size : ℕ) (r : R)
      → length s < size
      → IsPrintable s
      → io.pending r ≡ output (write_padded_string s size) ++ rest
      → (r' : R) × (read_padded_string r size ≡ ok ((s, false), r'))
        × (io.pending r' ≡ rest)
        × (io.ending r' ≡ io.ending r)
  unfolding read_padded_string
  read-write_padded_string s rest size r h p e =
      let w = output-Emits (write_padded_string-Emits s size h) in
      let (r', q, more, ends) =
        read_full-Fills size (padded s size) rest r (e ∙ ap (λ l. l ++ rest) w)
          (length-padded s size h) in
      (r', rw (q, read_padded_string, padded_string-padded s size h p), more, ends)
