-- ===== src/Kernel/Actions.antt =====
-- The operations of internal/adapter/kernel that look at sysfs more than once and write to it more
-- than once, as actions on the log of what happened. What sysfs holds, what the kernel answers to a
-- write and whether the context is done is any function of that log: another process, or the kernel
-- itself, may change all of it between two steps. The locks of the adapter keep the actions of one
-- bus id apart, so that a log holds one operation at a time.
pub mod Writes
pub mod Costs
use usbip_go.Prelude.{ℕ, Bool, true, false, Option, none, some, List, [], ◌∷◌}
use usbip_go.Io.Errors.{Error, Result, ok, err}
use usbip_go.Kernel.Sysfs.{Fs, FsError, FileRead, Write, write_result}

-- What ReadDir answers.
pub data DirRead : Type 0 where
  listing : List (List ℕ) → DirRead
  no_listing : FsError → DirRead

-- The file system as fs.FS: its files, and what ReadLink and ReadDir answer by path.
pub record Sys : Type 0 where
  pub files : Fs
  pub link : List ℕ → FileRead
  pub dir : List ℕ → DirRead

-- A look at the file system, a write, or a wait in milliseconds.
pub data Step : Type 0 where
  looked : Step
  wrote : Write → Step
  slept : ℕ → Step

-- What an adapter is built over. `map_order` is the order in which Go ranges over a map with the
-- given keys.
pub record World : Type 0 where
  pub view : List Step → Sys
  pub answer : List Step → Write → Option FsError
  pub is_done : List Step → Bool
  pub map_order : List Step → List (List ℕ) → List (List ℕ)

-- The log after an action, newest step first, and its result.
pub record Ran {ℓ} (A : Type ℓ) : Type ℓ where
  pub log : List Step
  pub result : Result A

abbrev pub Act {ℓ} : Type ℓ → Type ℓ
Act A = World → List Step → Ran A

unfoldable pub give {ℓ} : {A : Type ℓ} → Result A → Act A
give r w log = record { log = log; result = r }

-- The rest of a body that goes on with the result, whatever it is.
unfoldable pub attempt {ℓ κ} : {A : Type ℓ} {B : Type κ} → Act A → (Result A → Act B) → Act B
attempt act rest w log = rest (act w log).result w (act w log).log

-- The rest of a body behind `if err != nil { return …, err }`.
abbrev pub or_return {ℓ κ} : {A : Type ℓ} {B : Type κ} → (A → Act B) → Result A → Act B
or_return rest (err e) = give (err e)
or_return rest (ok a) = rest a

infixl 5 ◌and_then◌
abbrev pub ◌and_then◌ {ℓ κ} : {A : Type ℓ} {B : Type κ} → Act A → (A → Act B) → Act B
act and_then rest = attempt act (or_return rest)

-- The rest of a body behind an action whose error is only logged.
infixl 5 ◌ignoring◌
abbrev pub ◌ignoring◌ {ℓ κ} : {A : Type ℓ} {B : Type κ} → Act A → Act B → Act B
act ignoring rest = attempt act (λ r. rest)

-- A read of sysfs.
unfoldable pub look {ℓ} : {A : Type ℓ} → (Sys → Result A) → Act A
look read w log = record { log = looked ∷ log; result = read (w.view log) }

-- commonAdapter.writeClassified.
unfoldable pub write : List ℕ → List ℕ → Act (Unit {0})
write target text w log =
    let step : Write = record { target = target; text = text } in
    record { log = wrote step ∷ log; result = write_result target (w.answer log step) }

-- The wait of a `select` between the context and the clock.
abbrev pub done_or_sleep : Bool → ℕ → Error → Act (Unit {0})
done_or_sleep true ms e w log = record { log = log; result = err e }
done_or_sleep false ms e w log = record { log = slept ms ∷ log; result = ok tt }

unfoldable pub sleep : ℕ → Error → Act (Unit {0})
sleep ms e w log = done_or_sleep (w.is_done log) ms e w log
