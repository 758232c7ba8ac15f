-- ===== src/Io/Readers/Agreement.antt =====
-- Two readers of one stream, of any two kinds: a decoder may not tell them apart.
use usbip_go.Prelude.{
  ℕ, ◌≡◌, sym, ◌∙◌, inl, inr, ap, arith, List, length, take, drop, take-append-drop, length-take_le,
}
use usbip_go.Io.Errors.{Error, Result, ok, err, ◌>>=◌, map_err}
use usbip_go.Io.Readers.{IoReader, FullRead, full, short, read_full}
use usbip_go.Io.Readers.ReadFull.{read_full_cases, read_full-short, read_full-Fills}

module _ {R S : Type 0} ⦃ior : IoReader R⦄ ⦃ios : IoReader S⦄ where
  -- The same bytes to come and the same error after them.
  pub record SameStream (r : R) (s : S) : Type 0 where
    pub same_pending : ior.pending r ≡ ios.pending s
    pub same_ending : ior.ending r ≡ ios.ending s

  -- The same answer, and readers that again stand for one stream.
  pub data Agree (A : Type 0) : Result (A × R) → Result (A × S) → Type 0 where
    both_ok : (a : A) (r : R) (s : S) → SameStream r s → Agree A (ok (a, r)) (ok (a, s))
    both_err : (e : Error) → Agree A (err e) (err e)

  pub data AgreeFull : FullRead R → FullRead S → Type 0 where
    both_full :
        (buf : List ℕ) (r : R) (s : S) → SameStream r s → AgreeFull (full buf r) (full buf s)
    both_short : (n : ℕ) (e : Error) → AgreeFull (short n e) (short n e)

  pub read_full-AgreeFull :
      (n : ℕ) (r : R) (s : S) → SameStream r s → AgreeFull (read_full n r) (read_full n s)
  read_full-AgreeFull n r s same = elim (read_full_cases n r) [
    | inl (enough, (r', q, more, ends)) ↦
        let (s', q', more', ends') =
          read_full-Fills n (take n (ior.pending r)) (drop n (ior.pending r)) s
            (sym same.same_pending ∙ sym (take-append-drop n (ior.pending r)))
            (length-take_le n _ enough) in
        rw (q, q')
          (both_full (take n (ior.pending r)) r' s' (record {
            same_pending = more ∙ sym more';
            same_ending = ends ∙ (same.same_ending ∙ sym ends');
          }))
    | inr (less, q) ↦
        rw
          (
            q,
            read_full-short n s (omega (arith, ap length same.same_pending)),
            same.same_pending,
            same.same_ending,
          )
          (both_short _ _)
  ]

  pub >>=-Agree :
      {A B : Type 0} (m : Result (A × R)) (m' : Result (A × S)) (f : A × R → Result (B × R))
      (f' : A × S → Result (B × S))
      → Agree A m m'
      → ((a : A) (r : R) (s : S) → SameStream r s → Agree B (f (a, r)) (f' (a, s)))
      → Agree B (m >>= f) (m' >>= f')
  >>=-Agree m m' f f' (both_ok a r s same) h = h a r s same
  >>=-Agree m m' f f' (both_err e) h = both_err e

  pub map_err-Agree :
      {A : Type 0} (f : Error → Error) (m : Result (A × R)) (m' : Result (A × S))
      → Agree A m m'
      → Agree A (map_err f m) (map_err f m')
  map_err-Agree f m m' (both_ok a r s same) = both_ok a r s same
  map_err-Agree f m m' (both_err e) = both_err (f e)
