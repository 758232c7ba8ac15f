-- ===== src/Io/Buffered.antt =====
-- bufio.Reader with its default buffer of 4096 bytes, over any reader. The devlist decoder routes a
-- whole frame through one and asks afterwards what is left in the buffer.
use usbip_go.Prelude.{
  suc_nonzero, ℕ, zero, suc, ◌+◌, ◌*◌, ◌≤◌, ◌<◌, ◌≡◌, refl, sym, ap, ◌∙◌, Option, none, some, List,
  [], ◌∷◌, ◌++◌, append_assoc, arith, length, take, drop, take-append-drop, length-drop, leb,
  if◌then◌else◌, inl, inr, ◌==◌, Bool-cases,
}
use usbip_go.Io.Errors.{Error}
use usbip_go.Io.Readers.{IoReader, ReadResult}

pub record BufReader (R : Type 0) : Type 0 where
  pub buffered : List ℕ
  -- The error of a read that also brought bytes, for the next read that finds the buffer empty.
  pub held : Option Error
  pub inner : R

abbrev pub default_buf_size : ℕ
default_buf_size = 4096

-- bufio.NewReader.
abbrev pub new_reader : {R : Type 0} → R → BufReader R
new_reader r = record { buffered = []; held = none; inner = r }

-- `copy(p, b.buf[b.r:b.w])`.
abbrev serve : {R : Type 0} → ℕ → List ℕ → Option Error → R → ReadResult (BufReader R)
serve n buf e r = record {
  bytes = take n buf;
  error = none;
  next = record { buffered = drop n buf; held = e; inner = r };
}

-- What a read of the reader below becomes: an empty one passes its error on at once.
abbrev after_fill : {R : Type 0} → ℕ → List ℕ → Option Error → R → ReadResult (BufReader R)
after_fill n [] e r = record { bytes = []; error = e; next = new_reader r }
after_fill n (b ∷ buf) e r = serve n (b ∷ buf) e r

-- A read as large as the buffer goes past it.
abbrev direct : {R : Type 0} → ReadResult R → ReadResult (BufReader R)
direct result = record { bytes = result.bytes; error = result.error; next = new_reader result.next }

-- A read that finds the buffer empty and no error held.
fresh_read : {R : Type 0} ⦃io : IoReader R⦄ → ℕ → R → ReadResult (BufReader R)
fresh_read ⦃io⦄ n r =
    if n == 0
    then record { bytes = []; error = none; next = new_reader r }
    else if leb default_buf_size n
    then direct (io.read n r)
    else let result = io.read default_buf_size r in
      after_fill n result.bytes result.error result.next

pub buffered_read :
    {R : Type 0} ⦃io : IoReader R⦄ → ℕ → List ℕ → Option Error → R → ReadResult (BufReader R)
buffered_read n (b ∷ buf) e r = serve n (b ∷ buf) e r
buffered_read n [] (some e) r = record { bytes = []; error = some e; next = new_reader r }
buffered_read n [] none r = fresh_read n r

abbrev pub rest_of : List ℕ → Option Error → List ℕ
rest_of l none = l
rest_of l (some e) = []

abbrev pub end_of : Error → Option Error → Error
end_of f none = f
end_of f (some e) = e

length-take-le : (n : ℕ) (xs : List ℕ) → length (take n xs) ≤ n
length-take-le zero xs = omega arith
length-take-le (suc n) [] = omega arith
length-take-le (suc n) (x ∷ xs) = omega (arith, length-take-le n xs)

module _ {R : Type 0} ⦃io : IoReader R⦄ where
  abbrev pub buffered_pending : List ℕ → Option Error → R → List ℕ
  buffered_pending buf e r = buf ++ rest_of (io.pending r) e

  abbrev pub buffered_budget : List ℕ → R → ℕ
  buffered_budget buf r = default_buf_size * io.budget r + length buf

  -- What is claimed of a read that reports no error.
  abbrev pub Delivers : ℕ → List ℕ → Option Error → R → ReadResult (BufReader R) → Type 0
  Delivers n buf e r result =
      (buffered_pending buf e r
        ≡ result.bytes ++ buffered_pending result.next.buffered result.next.held result.next.inner)
      × (length result.bytes ≤ n)
      × (end_of (io.ending result.next.inner) result.next.held ≡ end_of (io.ending r) e)
      × (buffered_budget result.next.buffered result.next.inner < buffered_budget buf r)

  serve-Delivers :
      (n : ℕ) (b : ℕ) (buf : List ℕ) (e : Option Error) (r : R)
      → 0 < n
      → Delivers n (b ∷ buf) e r (serve n (b ∷ buf) e r)
  serve-Delivers n b buf e r p = (
    ap (λ l. l ++ rest_of (io.pending r) e) (sym (take-append-drop n (b ∷ buf)))
        ∙ append_assoc (take n (b ∷ buf)) (drop n (b ∷ buf)) (rest_of (io.pending r) e),
    length-take-le n (b ∷ buf),
    refl,
    omega (arith, length-drop n (b ∷ buf)),
  )

  direct-Delivers :
      (n : ℕ) (r : R)
      → 0 < n
      → (io.read n r).error ≡ none
      → Delivers n [] none r (direct (io.read n r))
  direct-Delivers n r p h =
      let (fits, ends, less) = io.read_rest n r p h in
      (io.read_pending n r p h, fits, ends, omega arith)

  after_fill-Delivers :
      (n : ℕ) (bytes : List ℕ) (error : Option Error) (r next : R)
      → 0 < n
      → (after_fill n bytes error next).error ≡ none
      → (error ≡ none
          → (io.pending r ≡ bytes ++ io.pending next)
            × (length bytes ≤ default_buf_size)
            × (io.ending next ≡ io.ending r)
            × (io.budget next < io.budget r))
      → ((e : Error) → error ≡ some e → bytes ≡ [])
      → Delivers n [] none r (after_fill n bytes error next)
  after_fill-Delivers n [] none r next p h facts empty =
      let (pend, fits, ends, less) = facts refl in (pend, omega arith, ends, omega arith)
  after_fill-Delivers n [] (some e) r next p h facts empty = cc
  after_fill-Delivers n (b ∷ bs) (some e) r next p h facts empty = cc (empty e refl)
  after_fill-Delivers n (b ∷ bs) none r next p h facts empty =
      let (pend, fits, ends, less) = facts refl in
      let (cut, small, _, shrinks) = serve-Delivers n b bs none next p in
      (pend ∙ cut, small, ends, omega arith)

  fresh_read_cases {ℓ} :
      (P : ReadResult (BufReader R) → Type ℓ) (n : ℕ) (r : R)
      → 0 < n
      → P (direct (io.read n r))
      → (let result = io.read default_buf_size r in
          P (after_fill n result.bytes result.error result.next))
      → P (fresh_read n r)
  unfolding fresh_read
  fresh_read_cases P zero r p d f = absurd (omega arith)
  fresh_read_cases P (suc n) r p d f = elim (Bool-cases (leb default_buf_size (suc n))) [
    | inl large ↦ rw (suc_nonzero n, large) d
    | inr small ↦ rw (suc_nonzero n, small) f
  ]

  pub buffered_read-Delivers :
      (n : ℕ) (buf : List ℕ) (e : Option Error) (r : R)
      → 0 < n
      → (buffered_read n buf e r).error ≡ none
      → Delivers n buf e r (buffered_read n buf e r)
  unfolding buffered_read
  buffered_read-Delivers n (b ∷ buf) e r p h = serve-Delivers n b buf e r p
  buffered_read-Delivers n [] (some e) r p h = cc
  buffered_read-Delivers n [] none r p h =
      fresh_read_cases (λ result. result.error ≡ none → Delivers n [] none r result) n r p
        (direct-Delivers n r p)
        (λ h.
          after_fill-Delivers n _ _ r _ p h
            (λ e.
              let (fits, ends, less) = io.read_rest default_buf_size r (omega arith) e in
              (io.read_pending default_buf_size r (omega arith) e, fits, ends, less))
            (λ e h. (io.read_end default_buf_size r (omega arith) h).0))
        h

  -- What is claimed of a read that reports an error.
  abbrev pub Ends : List ℕ → Option Error → R → ReadResult (BufReader R) → Error → Type 0
  Ends buf held r result e =
      (result.bytes ≡ []) × (buffered_pending buf held r ≡ []) × (e ≡ end_of (io.ending r) held)

  after_fill-Ends :
      (n : ℕ) (bytes : List ℕ) (error : Option Error) (r next : R) (e : Error)
      → (after_fill n bytes error next).error ≡ some e
      → (error ≡ some e → (bytes ≡ []) × (io.pending r ≡ []) × (e ≡ io.ending r))
      → Ends [] none r (after_fill n bytes error next) e
  after_fill-Ends n [] error r next e h facts = facts h
  after_fill-Ends n (b ∷ bs) error r next e h facts = cc

  pub buffered_read-Ends :
      (n : ℕ) (buf : List ℕ) (held : Option Error) (r : R) {e : Error}
      → 0 < n
      → (buffered_read n buf held r).error ≡ some e
      → Ends buf held r (buffered_read n buf held r) e
  unfolding buffered_read
  buffered_read-Ends n (b ∷ buf) held r p h = cc
  buffered_read-Ends n [] (some f) r p h = (refl, refl, cc)
  buffered_read-Ends n [] none r {e} p h =
      fresh_read_cases (λ result. result.error ≡ some e → Ends [] none r result e) n r p
        (λ h. io.read_end n r p h)
        (λ h. after_fill-Ends n _ _ r _ e h (λ h. io.read_end default_buf_size r (omega arith) h)) h

instance abbrev pub buffered_reader : {R : Type 0} ⦃io : IoReader R⦄ → IoReader (BufReader R)
buffered_reader ⦃io⦄ = record {
  read = λ n b. buffered_read n b.buffered b.held b.inner;
  pending = λ b. buffered_pending b.buffered b.held b.inner;
  ending = λ b. end_of (io.ending b.inner) b.held;
  budget = λ b. buffered_budget b.buffered b.inner;
  read_pending = λ n b p h. (buffered_read-Delivers n b.buffered b.held b.inner p h).0;
  read_rest = λ n b p h.
      let (_, fits, ends, less) = buffered_read-Delivers n b.buffered b.held b.inner p h in
      (fits, ends, less);
  read_end = λ n b p h. buffered_read-Ends n b.buffered b.held b.inner p h;
}
