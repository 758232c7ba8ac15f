-- ===== src/Io/Conn.antt =====
-- A network connection as its reads see it: the chunks in which the bytes of the peer arrive, and
-- the error after them. A read returns at most one chunk.
use usbip_go.Prelude.{
  ℕ, suc, ◌+◌, ◌≤◌, ◌<◌, ◌≡◌, refl, sym, ap, ◌∙◌, none, some, List, [], ◌∷◌, ◌++◌, append_assoc,
  arith, length, take, drop, take-append-drop, length-take_le, length-drop, leb, if◌then◌else◌,
  lt-or-le, inl, inr, le→leb, lt→leb,
}
use usbip_go.Io.Errors.{Error}
use usbip_go.Io.Readers.{IoReader, ReadResult}

pub record Conn : Type 0 where
  pub chunks : List (List ℕ)
  pub failure : Error

abbrev pub flatten : List (List ℕ) → List ℕ
flatten [] = []
flatten (c ∷ cs) = c ++ flatten cs

-- Empty chunks stand for reads that return no byte and no error.
abbrev pub weight : List (List ℕ) → ℕ
weight [] = 0
weight (c ∷ cs) = suc (length c + weight cs)

abbrev pub read_chunks : ℕ → List (List ℕ) → Error → ReadResult Conn
read_chunks n [] e = record {
  bytes = [];
  error = some e;
  next = record { chunks = []; failure = e };
}
read_chunks n (c ∷ cs) e =
    if leb (length c) n
    then record { bytes = c; error = none; next = record { chunks = cs; failure = e } }
    else record {
      bytes = take n c;
      error = none;
      next = record { chunks = drop n c ∷ cs; failure = e };
    }

pub conn_pending :
    (n : ℕ) (cs : List (List ℕ)) (e : Error)
    → (read_chunks n cs e).error ≡ none
    → flatten cs ≡ (read_chunks n cs e).bytes ++ flatten (read_chunks n cs e).next.chunks
conn_pending n [] e h = cc
conn_pending n (c ∷ cs) e h = elim (lt-or-le n (length c)) [
  | inl less ↦ rw (lt→leb _ _ less) (
      ap (λ l. l ++ flatten cs) (sym (take-append-drop n c))
      ∙ append_assoc (take n c) (drop n c) (flatten cs))
  | inr fits ↦ rw (le→leb _ _ fits)
]

pub conn_rest :
    (n : ℕ) (cs : List (List ℕ)) (e : Error)
    → 0 < n
    → (read_chunks n cs e).error ≡ none
    → (length (read_chunks n cs e).bytes ≤ n)
      × ((read_chunks n cs e).next.failure ≡ e)
      × (weight (read_chunks n cs e).next.chunks < weight cs)
conn_rest n [] e p h = cc
conn_rest n (c ∷ cs) e p h = elim (lt-or-le n (length c)) [
  | inl less ↦
      rw (lt→leb _ _ less) (omega (arith, length-take_le n c), refl, omega (arith, length-drop n c))
  | inr fits ↦ rw (le→leb _ _ fits) (fits, refl, omega arith)
]

pub conn_end :
    (n : ℕ) (cs : List (List ℕ)) (f : Error) {e : Error}
    → (read_chunks n cs f).error ≡ some e
    → ((read_chunks n cs f).bytes ≡ []) × (flatten cs ≡ []) × (e ≡ f)
conn_end n [] f h = (refl, refl, cc)
conn_end n (c ∷ cs) f h = ground arith

instance abbrev pub conn_reader : IoReader Conn
conn_reader = record {
  read = λ n c. read_chunks n c.chunks c.failure;
  pending = λ c. flatten c.chunks;
  ending = λ c. c.failure;
  budget = λ c. weight c.chunks;
  read_pending = λ n c p h. conn_pending n c.chunks c.failure h;
  read_rest = λ n c p h. conn_rest n c.chunks c.failure p h;
  read_end = λ n c p h. conn_end n c.chunks c.failure h;
}
