-- ===== src/App/Reconnect/Attempts.antt =====
-- How many attempts the loop makes, and what its end says of them.
use usbip_go.Prelude.{
  ℕ, suc, ◌+◌, ◌-◌, ◌≤◌, ◌<◌, ◌≡◌, refl, sym, ap, ◌∙◌, inr, ◌⊎◌, true, false, List, [], ◌∷◌, ◌==◌,
  arith, if_rule, length, subst,
}
use usbip_go.Io.Errors.{Error, Result, ok, err, errors_is, importer_closed}
use usbip_go.Io.Readers.{IoReader}
use usbip_go.App.Tracking.{delete_exact_handle}
use usbip_go.App.Attaching.{AttachRequest, Attaching, attach}
use usbip_go.App.Detaching.{DetachPeer}
use usbip_go.App.Reconnect.Counts.{allowed-bound, refused-bound, rollback-actions}
use usbip_go.App.Reconnect.{
  ReconnectParams, Round, Action, armed_for, notified, attempted, exhausted, Reconnecting, Ending,
  running, canceled, closed, gave_up_after, reconnected, rolled_back, set_tracker, act,
  rollback_superseded_reconnect, finish_reconnect_success, arm_backoff, give_up, with_attaching,
  after_attach, is_allowed, reconnect_round, reconnect_from, run_reconnect_loop,
}

-- The attempts among what was done.
abbrev pub made : List Action → ℕ
made [] = 0
made (armed_for n d ∷ actions) = made actions
made (notified n e ∷ actions) = made actions
made (attempted n ∷ actions) = suc (made actions)
made (exhausted n e ∷ actions) = made actions

-- What an end says of `n` attempts made, on `total` rounds.
abbrev pub Says : ReconnectParams → ℕ → ℕ → Ending → Type 0
Says p total n (running k) =
    (k ≡ suc n) × (n ≡ total) × ((p.max_attempts ≡ 0) ⊎ (k ≤ p.max_attempts))
Says p total n (canceled k) = k ≡ suc n
Says p total n (closed k) = k ≡ n
Says p total n (gave_up_after k) = (k ≡ n) × (k ≡ p.max_attempts) × (0 < k)
Says p total n (reconnected id g) = 0 < n
Says p total n (rolled_back id g) = 0 < n

pub record IsCounted (p : ReconnectParams) (total : ℕ) (x : Reconnecting × Ending) : Type 0 where
  pub says : Says p total (made x.0.actions) x.1
  pub bounded : (p.max_attempts ≡ 0) ⊎ (made x.0.actions ≤ p.max_attempts)

arm_backoff-made :
    (delay attempt : ℕ) (s : Reconnecting)
    → made (arm_backoff delay attempt s).actions ≡ made s.actions
unfolding arm_backoff
arm_backoff-made delay attempt s =
    if_rule {X = Reconnecting} (λ x. made x.actions ≡ made s.actions) (delay == 0) s
      (act (armed_for (attempt - 1) delay) s) (λ q. refl) (λ q. refl)

-- An end that says nothing but that an attempt was made.
abbrev pub IsSuccess : Reconnecting → Reconnecting × Ending → Type 0
IsSuccess s x =
    (x.0.actions ≡ s.actions) × ((p : ReconnectParams) (total n : ℕ) → 0 < n → Says p total n x.1)

finish-IsSuccess :
    (peer : DetachPeer) (p : ReconnectParams) (s : Reconnecting) (new_id fresh : ℕ)
    → IsSuccess s (finish_reconnect_success peer p s new_id fresh)
unfolding finish_reconnect_success
finish-IsSuccess peer p s new_id fresh =
    if_rule (IsSuccess s) (s.tables.tracker.handle_at p.handle).detaching
      (rollback_superseded_reconnect peer s new_id fresh, rolled_back new_id fresh)
      (
        set_tracker (delete_exact_handle s.tables.tracker p.port_id p.handle) s,
        reconnected new_id fresh,
      )
      (λ q. (rollback-actions peer s new_id fresh, λ p' total n h. h))
      (λ q. (refl, λ p' total n h. h))

module _ (peer : DetachPeer) (p : ReconnectParams) (total attempt : ℕ) where
  -- What is known of the loop's way on from a failed attempt.
  abbrev ContinuesWell : (Error → Reconnecting → Reconnecting × Ending) → Type 0
  ContinuesWell rest =
      (e : Error) (s : Reconnecting) → made s.actions ≡ attempt → IsCounted p total (rest e s)

  after_attach-IsCounted :
      (rest : Error → Reconnecting → Reconnecting × Ending) (s : Reconnecting)
      → ContinuesWell rest
      → made s.actions ≡ attempt
      → 0 < attempt
      → (p.max_attempts ≡ 0) ⊎ (attempt ≤ p.max_attempts)
      → (x : Attaching × Result (ℕ × ℕ)) → IsCounted p total (after_attach peer p attempt rest s x)
  after_attach-IsCounted rest s w m pos bound (a, ok (new_id, fresh)) =
      let (same, says) = finish-IsSuccess peer p (with_attaching s a) new_id fresh in
      let n = ap made same ∙ m in
      record {
        says = says p total _ (subst (λ k. 0 < k) (sym n) pos);
        bounded = subst (λ k. (p.max_attempts ≡ 0) ⊎ (k ≤ p.max_attempts)) (sym n) bound;
      }
  after_attach-IsCounted rest s w m pos bound (a, err e) =
      if_rule (IsCounted p total) (errors_is e importer_closed) (with_attaching s a, closed attempt)
        (rest e (with_attaching s a))
        (λ q. record {
          says = sym m;
          bounded = subst (λ k. (p.max_attempts ≡ 0) ⊎ (k ≤ p.max_attempts)) (sym m) bound;
        })
        (λ q. w e (with_attaching s a) m)

  give_up-IsCounted :
      (last : Error) (s : Reconnecting)
      → suc (made s.actions) ≡ attempt
      → (p.max_attempts ≡ 0) ⊎ (made s.actions ≤ p.max_attempts)
      → is_allowed p attempt ≡ false
      → IsCounted p total (give_up p attempt last s)
  unfolding give_up
  give_up-IsCounted last s m bound denied =
      let (some_limit, over) = refused-bound p attempt denied in
      record { says = (omega arith, omega arith, omega arith); bounded = bound }

module _ {R : Type 0} ⦃io : IoReader R⦄ (peer : DetachPeer) (request : AttachRequest) where
  reconnect_round-IsCounted :
      (p : ReconnectParams) (total attempt : ℕ) (round : Round R) (last : Error)
      (rest : Error → Reconnecting → Reconnecting × Ending) (s : Reconnecting)
      → ContinuesWell peer p total attempt rest
      → suc (made s.actions) ≡ attempt
      → (p.max_attempts ≡ 0) ⊎ (made s.actions ≤ p.max_attempts)
      → is_allowed p attempt ≡ true
      → IsCounted p total (reconnect_round peer request p round attempt last rest s)
  unfolding reconnect_round
  reconnect_round-IsCounted p total attempt round last rest s w m bound permitted =
      let s' = act (notified attempt last) (arm_backoff round.delay attempt s) in
      let before = arm_backoff-made round.delay attempt s in
      if_rule (IsCounted p total) round.is_cancelled (s', canceled attempt)
        (after_attach peer p attempt rest (act (attempted attempt) s') (
          attach round.attach_peer request
            (record { tracker = s'.tables.tracker; effects = s'.effects })))
        (λ q. record {
          says = sym m ∙ ap suc (sym before);
          bounded = subst (λ k. (p.max_attempts ≡ 0) ⊎ (k ≤ p.max_attempts)) (sym before) bound;
        })
        (λ q.
          after_attach-IsCounted peer p total attempt rest (act (attempted attempt) s') w
            (ap suc before ∙ m) (omega arith) (allowed-bound p attempt permitted)
            (attach round.attach_peer request
              (record { tracker = s'.tables.tracker; effects = s'.effects })))

  reconnect_from-IsCounted :
      (p : ReconnectParams) (total : ℕ) (rounds : List (Round R)) (attempt : ℕ) (last : Error)
      (s : Reconnecting)
      → suc (made s.actions) ≡ attempt
      → made s.actions + length rounds ≡ total
      → (p.max_attempts ≡ 0) ⊎ (made s.actions ≤ p.max_attempts)
      → IsCounted p total (reconnect_from peer request p rounds attempt last s)
  unfolding reconnect_from
  reconnect_from-IsCounted p total [] attempt last s m sum bound =
      if_rule (IsCounted p total) (is_allowed p attempt) (s, running attempt)
        (give_up p attempt last s)
        (λ q. record { says = (sym m, omega arith, allowed-bound p attempt q); bounded = bound })
        (give_up-IsCounted peer p total attempt last s m bound)
  reconnect_from-IsCounted p total (round ∷ rounds) attempt last s m sum bound =
      let rest = reconnect_from peer request p rounds (suc attempt) in
      if_rule (IsCounted p total) (is_allowed p attempt)
        (reconnect_round peer request p round attempt last rest s) (give_up p attempt last s)
        (λ q.
          reconnect_round-IsCounted p total attempt round last rest s
            (λ e s' m'.
              reconnect_from-IsCounted p total rounds (suc attempt) e s' (ap suc m') (omega arith) (
                subst (λ k. (p.max_attempts ≡ 0) ⊎ (k ≤ p.max_attempts)) (sym m')
                  (allowed-bound p attempt q)))
            m bound q)
        (give_up-IsCounted peer p total attempt last s m bound)

  counted :
      (p : ReconnectParams) (rounds : List (Round R)) (s : Reconnecting)
      → s.actions ≡ []
      → IsCounted p (length rounds) (run_reconnect_loop peer request p rounds s)
  unfolding run_reconnect_loop
  counted p rounds s fresh =
      let none_made = ap made fresh in
      reconnect_from-IsCounted p (length rounds) rounds 1 _ s (ap suc none_made) (omega arith)
        (inr (omega arith))

  -- With a limit the loop ends within as many rounds.
  pub run_reconnect_loop-ends :
      (p : ReconnectParams) (rounds : List (Round R)) (s : Reconnecting) (k : ℕ)
      → s.actions ≡ []
      → 0 < p.max_attempts
      → p.max_attempts ≤ length rounds
      → ¬ ((run_reconnect_loop peer request p rounds s).1 ≡ running k)
  run_reconnect_loop-ends p rounds s k fresh limit enough e =
      let c = counted p rounds s fresh in
      let (at, all, allowed) =
        subst (Says p (length rounds) (made (run_reconnect_loop peer request p rounds s).0.actions))
          e c.says in
      grind arith
