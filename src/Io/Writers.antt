-- ===== src/Io/Writers.antt =====
-- An io.Writer: what has been written, and how the calls of Write to come will fail.
use usbip_go.Prelude.{
  ℕ, ◌≡◌, refl, sym, ap, ◌∙◌, Option, none, some, List, [], ◌∷◌, ◌++◌, append_assoc, append-nil,
  take,
}
use usbip_go.Io.Errors.{Error, Result, ok, err}

-- `none` is a call that succeeds, `some (k, e)` one that takes `k` bytes and returns `e`. Calls
-- beyond the list succeed.
pub record Writer : Type 0 where
  pub written : List ℕ
  pub answers : List (Option (ℕ × Error))

-- The encoders' state passing: the writer afterwards, and Go's error or the result.
abbrev pub Encoder : Type 0 → Type 0
Encoder A = Writer → Writer × Result A

-- An error returns at once.
abbrev pub continue : {A B : Type 0} → (A → Encoder B) → Writer × Result A → Writer × Result B
continue f (w, ok a) = f a w
continue f (w, err e) = (w, err e)

infixl 5 ◌>>=◌ ◌>>◌
abbrev pub ◌>>=◌ : {A B : Type 0} → Encoder A → (A → Encoder B) → Encoder B
◌>>=◌ m f w = continue f (m w)

abbrev pub ◌>>◌ : {B : Type 0} → Encoder (Unit {0}) → Encoder B → Encoder B
m >> k = m >>= λ _. k

abbrev pub return : {A : Type 0} → A → Encoder A
return a w = (w, ok a)

abbrev pub fail : {A : Type 0} → Error → Encoder A
fail e w = (w, err e)

-- `_, err = w.Write(bytes)`, with `wrap` for the return of a failure.
abbrev pub write_on :
    (Error → Error) → List ℕ → List ℕ → List (Option (ℕ × Error)) → Writer × Result (Unit {0})
write_on wrap bytes done [] = (record { written = done ++ bytes; answers = [] }, ok tt)
write_on wrap bytes done (none ∷ more) = (record { written = done ++ bytes; answers = more }, ok tt)
write_on wrap bytes done (some (k, e) ∷ more) =
    (record { written = done ++ take k bytes; answers = more }, err (wrap e))

unfoldable pub write : (Error → Error) → List ℕ → Encoder (Unit {0})
write wrap bytes w = write_on wrap bytes w.written w.answers

-- A writer that does not fail, holding `bytes`.
abbrev pub holding : List ℕ → Writer
holding bytes = record { written = bytes; answers = [] }

-- On writers that do not fail the encoder appends exactly `bytes`.
pub record Emits (m : Encoder (Unit {0})) (bytes : List ℕ) : Type 0 where
  pub emits : (done : List ℕ) → m (holding done) ≡ (holding (done ++ bytes), ok tt)

pub write-Emits : (wrap : Error → Error) (bytes : List ℕ) → Emits (write wrap bytes) bytes
unfolding write
write-Emits wrap bytes = record { emits = λ done. refl }

-- What a step that returns makes of the rest, and a step that fails.
pub >>=-ok :
    {A B : Type 0} (m : Encoder A) (f : A → Encoder B) (w w' : Writer) (a : A)
    → m w ≡ (w', ok a)
    → (m >>= f) w ≡ f a w'
>>=-ok m f w w' a h = ap (continue f) h

pub >>=-err :
    {A B : Type 0} (m : Encoder A) (f : A → Encoder B) (w w' : Writer) (e : Error)
    → m w ≡ (w', err e)
    → (m >>= f) w ≡ (w', err e)
>>=-err m f w w' e h = ap (continue f) h

pub >>-Emits :
    {m k : Encoder (Unit {0})} {front back : List ℕ}
    → Emits m front
    → Emits k back
    → Emits (m >> k) (front ++ back)
>>-Emits {m} {k} {front} {back} hm hk = record {
  emits = λ done.
      >>=-ok m (λ _. k) (holding done) (holding (done ++ front)) tt (hm.emits done)
      ∙ (hk.emits (done ++ front) ∙ ap (λ l. (holding l, ok tt)) (append_assoc done front back));
}

pub return-Emits : Emits (return tt) []
return-Emits = record { emits = λ done. ap (λ l. (holding l, ok tt)) (sym (append-nil done)) }

-- What an encoder writes into an empty writer.
abbrev pub output : Encoder (Unit {0}) → List ℕ
output m = (m (holding [])).0.written

pub output-Emits : {m : Encoder (Unit {0})} {bytes : List ℕ} → Emits m bytes → output m ≡ bytes
output-Emits h = ap (λ x. x.0.written) (h.emits [])
