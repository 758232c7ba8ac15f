-- ===== src/App/Reconnect/Counts.antt =====
-- The limit on attempts, and what a rollback leaves alone.
use usbip_go.Prelude.{ℕ, ◌≤◌, ◌<◌, ◌≡◌, refl, ◌⊎◌, true, false, arith, if_rule}
use usbip_go.App.Detaching.{DetachPeer, detach_exact_handle}
use usbip_go.App.Reconnect.{
  ReconnectParams, Reconnecting, is_allowed, rollback_superseded_reconnect,
}

pub allowed-bound :
    (p : ReconnectParams) (k : ℕ)
    → is_allowed p k ≡ true
    → (p.max_attempts ≡ 0) ⊎ (k ≤ p.max_attempts)
allowed-bound p k h = grind arith

pub refused-bound :
    (p : ReconnectParams) (k : ℕ)
    → is_allowed p k ≡ false
    → (0 < p.max_attempts) × (p.max_attempts < k)
refused-bound p k h = grind arith

pub rollback-actions :
    (peer : DetachPeer) (s : Reconnecting) (new_id fresh : ℕ)
    → (rollback_superseded_reconnect peer s new_id fresh).actions ≡ s.actions
unfolding rollback_superseded_reconnect
rollback-actions peer s new_id fresh =
    if_rule {X = Reconnecting} (λ x. x.actions ≡ s.actions)
      (s.tables.tracker.handle_at fresh).detaching s
      (record s { tables = (detach_exact_handle peer s.tables new_id fresh).0 }) (λ q. refl)
      (λ q. refl)
