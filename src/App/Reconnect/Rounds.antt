-- ===== src/App/Reconnect/Rounds.antt =====
-- The loop of attempts, round by round.
use usbip_go.Prelude.{ℕ, suc, ◌<◌, ◌≡◌, ◌⊎◌, true, false, List, [], ◌∷◌, ◌==◌, if◌then◌else◌}
use usbip_go.Io.Errors.{Error, Result, ok, err, errors_is, importer_closed}
use usbip_go.Io.Readers.{IoReader}
use usbip_go.App.Tracking.{is_at}
use usbip_go.App.Attaching.{AttachRequest, Attaching, attach}
use usbip_go.App.Reconnect.{
  ReconnectParams, Round, Action, armed_for, notified, attempted, exhausted, Reconnecting, Ending,
  running, canceled, closed, gave_up_after, reconnected, rolled_back,
}

-- A timer is armed only for a delay.
abbrev pub waits : ℕ → ℕ → List Action → List Action
waits n delay actions = if delay == 0 then actions else armed_for n delay ∷ actions

-- The limit allows an attempt behind `n` others.
abbrev pub IsPermitted : ReconnectParams → ℕ → Type 0
IsPermitted p n = (p.max_attempts ≡ 0) ⊎ (n < p.max_attempts)

-- What is done before the attempt behind `n` others, and with it.
abbrev pub announced : ℕ → ℕ → Error → List Action → List Action
announced n delay last actions = notified (suc n) last ∷ waits n delay actions

abbrev pub attempt_made : ℕ → ℕ → Error → Reconnecting → Attaching → Reconnecting
attempt_made n delay last s a = record {
  tables = record { tracker = a.tracker; calls = s.tables.calls };
  effects = a.effects;
  actions = attempted (suc n) ∷ announced n delay last s.actions;
}

-- The old handle does not hold its port.
abbrev pub IsRemoved : ReconnectParams → Reconnecting → Type 0
IsRemoved p s = is_at (s.tables.tracker.handles p.port_id) p.handle ≡ false

-- The loop is over behind an attachment: its new port stays and the old handle is removed, or the old
-- handle was being detached and the attachment is rolled back.
pub data IsOver (p : ReconnectParams) (s : Reconnecting) (id g : ℕ) (x : Reconnecting × Ending)
    : Type 0 where
  stays :
      (s.tables.tracker.handle_at p.handle).detaching ≡ false
      → x.1 ≡ reconnected id g
      → x.0.actions ≡ s.actions
      → IsRemoved p x.0
      → IsOver p s id g x
  rolls_back :
      (s.tables.tracker.handle_at p.handle).detaching ≡ true
      → x.1 ≡ rolled_back id g
      → x.0.actions ≡ s.actions
      → IsOver p s id g x

module _ {R : Type 0} ⦃io : IoReader R⦄ (request : AttachRequest) (p : ReconnectParams) where
  abbrev pub attach_in : Round R → Reconnecting → Attaching × Result (ℕ × ℕ)
  attach_in round s =
      attach round.attach_peer request (record { tracker = s.tables.tracker; effects = s.effects })

  -- The run from a state behind `n` failed attempts, the last with an error, on the rounds to come.
  pub data IsRun (x : Reconnecting × Ending)
      : ℕ → Error → List (Round R) → Reconnecting → Type 0 where
    ran_out :
        (n : ℕ) (last : Error) (s : Reconnecting)
        → IsPermitted p n
        → x ≡ (s, running (suc n))
        → IsRun x n last [] s
    used_up :
        (n : ℕ) (last : Error) (rounds : List (Round R)) (s : Reconnecting)
        → 0 < n
        → n ≡ p.max_attempts
        → x.1 ≡ gave_up_after n
        → x.0.actions ≡ exhausted n last ∷ s.actions
        → IsRemoved p x.0
        → IsRun x n last rounds s
    called_off :
        (n : ℕ) (last : Error) (round : Round R) (rounds : List (Round R)) (s : Reconnecting)
        → IsPermitted p n
        → round.is_cancelled ≡ true
        → x.1 ≡ canceled (suc n)
        → x.0.actions ≡ announced n round.delay last s.actions
        → IsRun x n last (round ∷ rounds) s
    shut :
        (n : ℕ) (last : Error) (round : Round R) (rounds : List (Round R)) (s : Reconnecting)
        (a : Attaching) (e : Error)
        → IsPermitted p n
        → round.is_cancelled ≡ false
        → attach_in round s ≡ (a, err e)
        → errors_is e importer_closed ≡ true
        → x ≡ (attempt_made n round.delay last s a, closed (suc n))
        → IsRun x n last (round ∷ rounds) s
    failed :
        (n : ℕ) (last : Error) (round : Round R) (rounds : List (Round R)) (s : Reconnecting)
        (a : Attaching) (e : Error)
        → IsPermitted p n
        → round.is_cancelled ≡ false
        → attach_in round s ≡ (a, err e)
        → errors_is e importer_closed ≡ false
        → IsRun x (suc n) e rounds (attempt_made n round.delay last s a)
        → IsRun x n last (round ∷ rounds) s
    succeeded :
        (n : ℕ) (last : Error) (round : Round R) (rounds : List (Round R)) (s : Reconnecting)
        (a : Attaching) (id g : ℕ)
        → IsPermitted p n
        → round.is_cancelled ≡ false
        → attach_in round s ≡ (a, ok (id, g))
        → IsOver p (attempt_made n round.delay last s a) id g x
        → IsRun x n last (round ∷ rounds) s
