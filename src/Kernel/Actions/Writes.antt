-- ===== src/Kernel/Actions/Writes.antt =====
-- The writes in a log, and the rules for what an action writes.
use usbip_go.Prelude.{
  ℕ, ◌+◌, ◌≡◌, refl, ap, ◌∙◌, sym, Bool, true, false, List, [], ◌∷◌, ◌++◌, append_assoc, All,
  All-imp, All-append, if◌then◌else◌,
}
use usbip_go.Io.Errors.{Error, Result, ok, err}
use usbip_go.Kernel.Sysfs.{Write}
use usbip_go.Kernel.Actions.{
  Sys, World, Step, looked, wrote, slept, Act, give, attempt, or_return, ◌and_then◌, look, write,
  sleep, done_or_sleep,
}

-- The writes of a log, newest first.
abbrev pub written : List Step → List Write
written [] = []
written (looked ∷ log) = written log
written (wrote s ∷ log) = s ∷ written log
written (slept ms ∷ log) = written log

-- The milliseconds that a log waited.
abbrev pub slept_ms : List Step → ℕ
slept_ms [] = 0
slept_ms (looked ∷ log) = slept_ms log
slept_ms (wrote s ∷ log) = slept_ms log
slept_ms (slept ms ∷ log) = ms + slept_ms log

-- The log `to` has the writes of `from` and, on top of them, writes with the property P.
pub record Grows (P : Write → Type 0) (from to : List Step) : Type 0 where
  pub new : List Write
  pub grown : written to ≡ new ++ written from
  pub property : All P new

-- An action all of whose writes have a property, and one that neither writes nor waits.
pub record Writes {A : Type 0} (P : Write → Type 0) (act : Act A) : Type 0 where
  pub grows : (w : World) (log : List Step) → Grows P log (act w log).log

pub record IsReading {A : Type 0} (act : Act A) : Type 0 where
  pub same : (w : World) (log : List Step) → written (act w log).log ≡ written log
  pub awake : (w : World) (log : List Step) → slept_ms (act w log).log ≡ slept_ms log

module _ {P : Write → Type 0} where
  pub Grows_refl : (from : List Step) → Grows P from from
  Grows_refl from = record { new = []; grown = refl; property = tt }

  pub Grows_trans : (a b c : List Step) → Grows P a b → Grows P b c → Grows P a c
  Grows_trans a b c r s = record {
    new = s.new ++ r.new;
    grown = s.grown ∙ ap (λ l. s.new ++ l) r.grown ∙ sym (append_assoc s.new r.new (written a));
    property = All-append P s.new r.new s.property r.property;
  }

  pub Grows_same : (from to : List Step) → written to ≡ written from → Grows P from to
  Grows_same from to e = record { new = []; grown = e; property = tt }

pub Grows-imp :
    {P Q : Write → Type 0}
    → ((s : Write) → P s → Q s)
    → (from to : List Step) → Grows P from to
    → Grows Q from to
Grows-imp f from to g = record {
  new = g.new;
  grown = g.grown;
  property = All-imp f g.new g.property;
}

pub Writes-imp :
    {P Q : Write → Type 0} {A : Type 0}
    → ((s : Write) → P s → Q s)
    → (act : Act A) → Writes P act
    → Writes Q act
Writes-imp f act r = record { grows = λ w log. Grows-imp f log (act w log).log (r.grows w log) }

module _ {P : Write → Type 0} {A : Type 0} where
  pub Writes-IsReading : (act : Act A) → IsReading act → Writes P act
  Writes-IsReading act r = record { grows = λ w log. Grows_same log (act w log).log (r.same w log) }

  pub Writes-give : (r : Result A) → Writes P (give r)
  unfolding give
  Writes-give r = record { grows = λ w log. Grows_refl log }

  pub Writes-look : (read : Sys → Result A) → Writes P (look read)
  unfolding look
  Writes-look read = record { grows = λ w log. Grows_same log (looked ∷ log) refl }

  pub Writes-if : (b : Bool) (x y : Act A) → Writes P x → Writes P y → Writes P (if b then x else y)
  Writes-if true x y p q = p
  Writes-if false x y p q = q

pub Writes-write :
    (P : Write → Type 0) (target text : List ℕ)
    → P (record { target = target; text = text })
    → Writes P (write target text)
unfolding write
Writes-write P target text p = record {
  grows = λ w log. record {
    new = record { target = target; text = text } ∷ [];
    grown = refl;
    property = (p, tt);
  };
}

sleep-grows :
    {P : Write → Type 0} (b : Bool) (ms : ℕ) (e : Error) (w : World) (log : List Step)
    → Grows P log (done_or_sleep b ms e w log).log
sleep-grows true ms e w log = Grows_refl log
sleep-grows false ms e w log = Grows_same log (slept ms ∷ log) refl

pub Writes-sleep : {P : Write → Type 0} (ms : ℕ) (e : Error) → Writes P (sleep ms e)
unfolding sleep
Writes-sleep ms e = record { grows = λ w log. sleep-grows (w.is_done log) ms e w log }

module _ {P : Write → Type 0} {A B : Type 0} where
  pub Writes-attempt :
      (act : Act A) (rest : Result A → Act B)
      → Writes P act
      → ((r : Result A) → Writes P (rest r))
      → Writes P (attempt act rest)
  unfolding attempt
  Writes-attempt act rest a r = record {
    grows = λ w log.
        let ran = act w log in
        Grows_trans log ran.log (rest ran.result w ran.log).log (a.grows w log)
          ((r ran.result).grows w ran.log);
  }

  Writes-or_return :
      (rest : A → Act B)
      → ((a : A) → Writes P (rest a))
      → (r : Result A) → Writes P (or_return rest r)
  Writes-or_return rest f (err e) = Writes-give (err e)
  Writes-or_return rest f (ok a) = f a

  pub Writes-and_then :
      (act : Act A) (rest : A → Act B)
      → Writes P act
      → ((a : A) → Writes P (rest a))
      → Writes P (act and_then rest)
  Writes-and_then act rest a r = Writes-attempt act (or_return rest) a (Writes-or_return rest r)

module _ {A : Type 0} where
  pub IsReading-give : (r : Result A) → IsReading (give r)
  unfolding give
  IsReading-give r = record { same = λ w log. refl; awake = λ w log. refl }

  pub IsReading-look : (read : Sys → Result A) → IsReading (look read)
  unfolding look
  IsReading-look read = record { same = λ w log. refl; awake = λ w log. refl }

  pub IsReading-if :
      (b : Bool) (x y : Act A) → IsReading x → IsReading y → IsReading (if b then x else y)
  IsReading-if true x y p q = p
  IsReading-if false x y p q = q

module _ {A B : Type 0} where
  pub IsReading-attempt :
      (act : Act A) (rest : Result A → Act B)
      → IsReading act
      → ((r : Result A) → IsReading (rest r))
      → IsReading (attempt act rest)
  unfolding attempt
  IsReading-attempt act rest a r = record {
    same = λ w log. (r (act w log).result).same w (act w log).log ∙ a.same w log;
    awake = λ w log. (r (act w log).result).awake w (act w log).log ∙ a.awake w log;
  }

  IsReading-or_return :
      (rest : A → Act B)
      → ((a : A) → IsReading (rest a))
      → (r : Result A) → IsReading (or_return rest r)
  IsReading-or_return rest f (err e) = IsReading-give (err e)
  IsReading-or_return rest f (ok a) = f a

  pub IsReading-and_then :
      (act : Act A) (rest : A → Act B)
      → IsReading act
      → ((a : A) → IsReading (rest a))
      → IsReading (act and_then rest)
  IsReading-and_then act rest a r =
      IsReading-attempt act (or_return rest) a (IsReading-or_return rest r)

-- Inversion of an action that succeeded.
module _ {A B : Type 0} where
  or_return-ok :
      (rest : A → Act B) (r : Result A) (w : World) (log : List Step) {b : B}
      → (or_return rest r w log).result ≡ ok b
      → (a : A) × ((r ≡ ok a) × ((rest a w log).result ≡ ok b))
  unfolding give
  or_return-ok rest (err e) w log h = cc
  or_return-ok rest (ok a) w log h = (a, (refl, h))

  pub and_then-ok :
      (act : Act A) (rest : A → Act B) (w : World) (log : List Step) {b : B}
      → ((act and_then rest) w log).result ≡ ok b
      → (a : A) × (((act w log).result ≡ ok a) × ((rest a w (act w log).log).result ≡ ok b))
  unfolding attempt
  and_then-ok act rest w log h = or_return-ok rest (act w log).result w (act w log).log h
