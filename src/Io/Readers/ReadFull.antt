-- ===== src/Io/Readers/ReadFull.antt =====
-- io.ReadFull as a function of the stream alone: it fills the buffer from the front of the stream,
-- however the reads deliver it, and fails exactly when the stream is too short.
use usbip_go.Prelude.{
  suc_nonzero, ℕ, zero, suc, ◌+◌, ◌-◌, ◌≤◌, ◌<◌, ◌≡◌, refl, sym, ap, ◌∙◌, inl, inr, false, List, [],
  ◌∷◌, ◌++◌, append_assoc, append-nil, arith, length, length-append, take, drop, take-append-drop,
  length-take_le, lt-or-le, Option-cases, ◌⊎◌, leb, none, some,
}
use usbip_go.Io.Errors.{Error}
use usbip_go.Io.Readers.{IoReader, FullRead, full, short, short_error, read_loop, read_full}

-- Two ways to cut one list: the longer front extends the shorter.
append_split :
    (xs ys zs ws : List ℕ)
    → xs ++ ys ≡ zs ++ ws
    → length xs ≤ length zs
    → (us : List ℕ) × (zs ≡ xs ++ us) × (ys ≡ us ++ ws)
append_split [] ys zs ws e h = (zs, refl, e)
append_split (x ∷ xs) ys [] ws e h = absurd (omega arith)
append_split (x ∷ xs) ys (z ∷ zs) ws e h =
    let (us, p, q) = append_split xs ys zs ws (cc) (omega arith) in (us, cc, q)

suc_exceeds : (n : ℕ) → leb (suc n) 0 ≡ false
suc_exceeds n = ground arith

module _ {R : Type 0} ⦃io : IoReader R⦄ where
  -- A read that fills the buffer: what it returns and what it leaves of the stream.
  abbrev pub Fills : FullRead R → List ℕ → List ℕ → Error → Type 0
  Fills read front rest e =
      (r' : R) × (read ≡ full front r') × (io.pending r' ≡ rest) × (io.ending r' ≡ e)

  read_loop-none :
      (fuel n : ℕ) (buf : List ℕ) (r : R)
      → (io.read (suc n) r).error ≡ none
      → read_loop (suc fuel) (suc n) buf r
        ≡ read_loop fuel
            (suc n - length (io.read (suc n) r).bytes)
            (buf ++ (io.read (suc n) r).bytes)
            (io.read (suc n) r).next
  unfolding read_loop
  read_loop-none fuel n buf r e = rw (e, read_loop, suc_nonzero n)

  read_loop-some :
      (fuel n : ℕ) (buf : List ℕ) (r : R) (e : Error)
      → (io.read (suc n) r).error ≡ some e
      → (io.read (suc n) r).bytes ≡ []
      → read_loop (suc fuel) (suc n) buf r ≡ short (length buf) (short_error (length buf) e)
  unfolding read_loop
  read_loop-some fuel n buf r e h b = rw (h, b, read_loop, append-nil, suc_nonzero n, suc_exceeds n)

  read_loop-Fills :
      (fuel n : ℕ) (buf front rest : List ℕ) (r : R)
      → io.budget r < fuel
      → io.pending r ≡ front ++ rest
      → length front ≡ n
      → Fills (read_loop fuel n buf r) (buf ++ front) rest (io.ending r)
  unfolding read_loop
  read_loop-Fills zero n buf front rest r f p h = absurd (omega arith)
  read_loop-Fills (suc fuel) zero buf [] rest r f p h =
      (r, ap (λ b. full b r) (sym (append-nil buf)), p, refl)
  read_loop-Fills (suc fuel) zero buf (b ∷ front) rest r f p h = absurd (omega arith)
  read_loop-Fills (suc fuel) (suc n) buf front rest r f p h =
      elim (Option-cases (io.read (suc n) r).error) [
        | inl e ↦
            let got = (io.read (suc n) r).bytes in
            let (fits, ends, less) = io.read_rest (suc n) r (omega arith) e in
            let (front', q, s) =
              append_split got _ front rest (sym (io.read_pending (suc n) r (omega arith) e) ∙ p)
                (omega arith) in
            let (r', x, y, z) =
              read_loop-Fills fuel (suc n - length got) (buf ++ got) front' rest
                (io.read (suc n) r).next (omega arith) s
                (omega (arith, ap length q, length-append got front')) in
            (
              r',
              read_loop-none fuel n buf r e
                  ∙ x
                  ∙ ap (λ b. full b r') (append_assoc buf got front' ∙ ap (◌++◌ buf) (sym q)),
              y,
              z ∙ ends,
            )
        | inr (e, h') ↦
            absurd (
              grind (arith, io.read_end (suc n) r (omega arith) h', length-append front rest, h, p))
      ]

  read_loop-short :
      (fuel n : ℕ) (buf : List ℕ) (r : R)
      → io.budget r < fuel
      → length (io.pending r) < n
      → read_loop fuel n buf r
        ≡ short
            (length buf + length (io.pending r))
            (short_error (length buf + length (io.pending r)) (io.ending r))
  read_loop-short zero n buf r f h = absurd (omega arith)
  read_loop-short (suc fuel) zero buf r f h = absurd (omega arith)
  read_loop-short (suc fuel) (suc n) buf r f h = elim (Option-cases (io.read (suc n) r).error) [
    | inl e ↦
        let got = (io.read (suc n) r).bytes in
        let (fits, ends, less) = io.read_rest (suc n) r (omega arith) e in
        let p = io.read_pending (suc n) r (omega arith) e in
        let total : length (io.pending r)
            ≡ length got + length (io.pending (io.read (suc n) r).next) =
          ap length p ∙ length-append got _ in
        read_loop-none fuel n buf r e
        ∙ read_loop-short fuel (suc n - length got) (buf ++ got) (io.read (suc n) r).next
            (omega arith) (omega arith)
        ∙ rw (ends) (
            ap (λ k. short k (short_error k (io.ending r)))
              (omega (arith, length-append buf got, total)))
    | inr (e, h') ↦
        let (b, p, q) = io.read_end (suc n) r (omega arith) h' in
        read_loop-some fuel n buf r e h' b
        ∙ rw (p, ← q) (ap (λ k. short k (short_error k e)) (omega arith))
  ]

  -- On a stream that begins with `n` more bytes, ReadFull returns those and leaves what follows.
  pub read_full-Fills :
      (n : ℕ) (front rest : List ℕ) (r : R)
      → io.pending r ≡ front ++ rest
      → length front ≡ n
      → Fills (read_full n r) front rest (io.ending r)
  unfolding read_full
  read_full-Fills n front rest r p h = read_loop-Fills _ n [] front rest r (omega arith) p h

  -- On a shorter stream it fails with the error at the end, io.EOF inside the buffer renamed.
  pub read_full-short :
      (n : ℕ) (r : R)
      → length (io.pending r) < n
      → read_full n r
        ≡ short (length (io.pending r)) (short_error (length (io.pending r)) (io.ending r))
  unfolding read_full
  read_full-short n r h =
      read_loop-short _ n [] r (omega arith) h
      ∙ ap (λ k. short k (short_error k (io.ending r))) (omega arith)

  -- One of the two on every stream.
  pub read_full_cases :
      (n : ℕ) (r : R)
      → (n ≤ length (io.pending r)
          × Fills (read_full n r) (take n (io.pending r)) (drop n (io.pending r)) (io.ending r))
        ⊎ (length (io.pending r) < n
            × (read_full n r
                ≡ short
                    (length (io.pending r))
                    (short_error (length (io.pending r)) (io.ending r))))
  read_full_cases n r = elim (lt-or-le (length (io.pending r)) n) [
    | inl less ↦ inr (less, read_full-short n r less)
    | inr enough ↦ inl (
      enough,
      read_full-Fills n _ _ r (sym (take-append-drop n (io.pending r))) (length-take_le n _ enough),
    )
  ]
