-- ===== src/App/Reconnect/Follows.antt =====
-- The loop of attempts follows its rounds.
use usbip_go.Prelude.{
  ℕ, suc, ◌-◌, ◌≤◌, ◌≡◌, refl, sym, ap, ◌⊎◌, Bool, true, false, List, [], ◌∷◌, ◌==◌, if◌then◌else◌,
  arith, if_rule, subst,
}
use usbip_go.Io.Errors.{Error, Result, ok, err, errors_is, importer_closed}
use usbip_go.Io.Readers.{IoReader}
use usbip_go.App.Tracking.{delete_exact_handle}
use usbip_go.App.Attaching.{AttachRequest, Attaching, attach}
use usbip_go.App.Detaching.{DetachPeer}
use usbip_go.App.Detaching.Owner.{delete_exact_handle-gone}
use usbip_go.App.Reconnect.{
  ReconnectParams, Round, armed_for, notified, attempted, exhausted, Reconnecting, Ending, running,
  canceled, closed, gave_up_after, reconnected, rolled_back, set_tracker, act,
  rollback_superseded_reconnect, finish_reconnect_success, arm_backoff, give_up, after_attach,
  is_allowed, reconnect_round, reconnect_from,
}
use usbip_go.App.Reconnect.Rounds.{
  waits, IsPermitted, attempt_made, IsOver, stays, rolls_back, attach_in, IsRun, ran_out, used_up,
  called_off, shut, failed, succeeded,
}
use usbip_go.App.Reconnect.Counts.{allowed-bound, refused-bound, rollback-actions}

suc_pred : (n : ℕ) → suc n - 1 ≡ n
suc_pred n = omega arith

arm_backoff-waiting :
    (delay n : ℕ) (s : Reconnecting)
    → arm_backoff delay (suc n) s ≡ record s { actions = waits n delay s.actions }
unfolding arm_backoff
arm_backoff-waiting delay n s = cases (delay == 0)
  where
    cases :
        (b : Bool)
        → (if b then s else act (armed_for (suc n - 1) delay) s)
          ≡ record s { actions = if b then s.actions else armed_for n delay ∷ s.actions }
    cases true = refl
    cases false = ap (λ k. act (armed_for k delay) s) (suc_pred n)

finish_reconnect_success-IsOver :
    (peer : DetachPeer) (p : ReconnectParams) (s : Reconnecting) (id g : ℕ)
    → IsOver p s id g (finish_reconnect_success peer p s id g)
unfolding finish_reconnect_success
finish_reconnect_success-IsOver peer p s id g =
    if_rule (IsOver p s id g) (s.tables.tracker.handle_at p.handle).detaching
      (rollback_superseded_reconnect peer s id g, rolled_back id g)
      (set_tracker (delete_exact_handle s.tables.tracker p.port_id p.handle) s, reconnected id g)
      (λ q. rolls_back q refl (rollback-actions peer s id g))
      (λ q. stays q refl refl (delete_exact_handle-gone s.tables.tracker p.port_id p.handle))

-- The loop's state when it attaches.
abbrev announcing : ℕ → ℕ → Error → Reconnecting → Reconnecting
announcing n delay last s =
    act (notified (suc n) last) (record s { actions = waits n delay s.actions })

permitted : (p : ReconnectParams) (n : ℕ) → is_allowed p (suc n) ≡ true → IsPermitted p n
permitted p n h = grind (arith, allowed-bound p (suc n) h)

module _ {R : Type 0} ⦃io : IoReader R⦄ (peer : DetachPeer) (request : AttachRequest)
    (p : ReconnectParams) where
  answered-IsRun :
      (n : ℕ) (last : Error) (rest : Error → Reconnecting → Reconnecting × Ending) (round : Round R)
      (rounds : List (Round R)) (s : Reconnecting)
      → IsPermitted p n
      → round.is_cancelled ≡ false
      → ((e : Error) (s' : Reconnecting) → IsRun request p (rest e s') (suc n) e rounds s')
      → (answer : Attaching × Result (ℕ × ℕ)) → attach_in request p round s ≡ answer
      → IsRun request p
          (after_attach peer p
            (suc n)
            rest
            (act (attempted (suc n)) (announcing n round.delay last s))
            answer)
          n
          last
          (round ∷ rounds)
          s
  answered-IsRun n last rest round rounds s may on w (a, ok (id, g)) q =
      succeeded n last round rounds s a id g may on q
        (finish_reconnect_success-IsOver peer p (attempt_made n round.delay last s a) id g)
  answered-IsRun n last rest round rounds s may on w (a, err e) q =
      let s' = attempt_made n round.delay last s a in
      if_rule (λ x. IsRun request p x n last (round ∷ rounds) s) (errors_is e importer_closed)
        (s', closed (suc n)) (rest e s') (λ c. shut n last round rounds s a e may on q c refl)
        (λ c. failed n last round rounds s a e may on q c (w e s'))

  reconnect_round-IsRun :
      (n : ℕ) (last : Error) (rest : Error → Reconnecting → Reconnecting × Ending) (round : Round R)
      (rounds : List (Round R)) (s : Reconnecting)
      → IsPermitted p n
      → ((e : Error) (s' : Reconnecting) → IsRun request p (rest e s') (suc n) e rounds s')
      → IsRun request p
          (reconnect_round peer request p round (suc n) last rest s)
          n
          last
          (round ∷ rounds)
          s
  unfolding reconnect_round
  reconnect_round-IsRun n last rest round rounds s may w =
      subst
        (λ armed.
          IsRun request p
            (let s' = act (notified (suc n) last) armed in
              if round.is_cancelled
              then (s', canceled (suc n))
              else after_attach peer p (suc n) rest (act (attempted (suc n)) s') (
                  attach round.attach_peer request
                    (record { tracker = s'.tables.tracker; effects = s'.effects })))
            n last (round ∷ rounds) s)
        (sym (arm_backoff-waiting round.delay n s))
        (if_rule (λ x. IsRun request p x n last (round ∷ rounds) s) round.is_cancelled
          (announcing n round.delay last s, canceled (suc n))
          (after_attach peer p (suc n) rest
            (act (attempted (suc n)) (announcing n round.delay last s))
            (attach_in request p round s))
          (λ c. called_off n last round rounds s may c refl refl)
          (λ on.
            answered-IsRun n last rest round rounds s may on w (attach_in request p round s) refl))

  give_up-IsRun :
      (n : ℕ) (last : Error) (rounds : List (Round R)) (s : Reconnecting)
      → (p.max_attempts ≡ 0) ⊎ (n ≤ p.max_attempts)
      → is_allowed p (suc n) ≡ false
      → IsRun request p (give_up p (suc n) last s) n last rounds s
  unfolding give_up
  give_up-IsRun n last rounds s bound denied =
      let (limited, over) = refused-bound p (suc n) denied in
      used_up n last rounds s (grind arith) (grind arith) (ap (λ k. gave_up_after k) (suc_pred n))
        (ap (λ k. exhausted k last ∷ s.actions) (suc_pred n))
        (delete_exact_handle-gone s.tables.tracker p.port_id p.handle)

  -- From the state behind `n` failed attempts.
  pub reconnect_from-IsRun :
      (n : ℕ) (last : Error) (rounds : List (Round R)) (s : Reconnecting)
      → (p.max_attempts ≡ 0) ⊎ (n ≤ p.max_attempts)
      → IsRun request p (reconnect_from peer request p rounds (suc n) last s) n last rounds s
  unfolding reconnect_from
  reconnect_from-IsRun n last [] s bound =
      if_rule (λ x. IsRun {R = R} request p x n last [] s) (is_allowed p (suc n))
        (s, running (suc n)) (give_up p (suc n) last s)
        (λ q. ran_out n last s (permitted p n q) refl) (give_up-IsRun n last [] s bound)
  reconnect_from-IsRun n last (round ∷ rounds) s bound =
      let rest = reconnect_from peer request p rounds (suc (suc n)) in
      if_rule (λ x. IsRun {R = R} request p x n last (round ∷ rounds) s) (is_allowed p (suc n))
        (reconnect_round peer request p round (suc n) last rest s) (give_up p (suc n) last s)
        (λ q.
          reconnect_round-IsRun n last rest round rounds s (permitted p n q)
            (λ e s'. reconnect_from-IsRun (suc n) e rounds s' (allowed-bound p (suc n) q)))
        (give_up-IsRun n last (round ∷ rounds) s bound)
