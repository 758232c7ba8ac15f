-- ===== src/Tests/Accepting.antt =====
-- A server that is shut down while it serves, and three connections to it.
use usbip_go.Prelude.{ℕ, ◌-◌, ◌≡◌, Bool, true, false, not, none, some, List, [], ◌∷◌, ◌==◌}
use usbip_go.Io.Errors.{sentinel, eof}
use usbip_go.App.Accepting.{
  start_serving, install_serving_listener, shutdown_listener, Accepted, connection, failed,
  accept_loop,
}
use usbip_go.App.Accepting.Admission.{
  handled, seen, connections, allowed, admitted, accept_loop-admitted, accept_loop-seen,
}
use usbip_go.App.Accepting.Lifecycle.{World, idle, on_start, on_install, on_shutdown}

-- Networks and addresses are numbers, and a network is one address; the limiter has its tokens left.
abbrev take_one : ℕ → ℕ × Bool
take_one n = (n - 1, not (n == 0))

abbrev accepts : List (Accepted ℕ)
accepts =
    connection 1 (some 10)
    ∷ connection 2 (some 11)
    ∷ connection 3 none
    ∷ connection 4 (some 10)
    ∷ failed (sentinel eof) false true
    ∷ []

accept_loop-admitted_example :
    handled (accept_loop (λ n a. n == a) take_one (10 ∷ []) accepts 1).0
    ≡ admitted
        (λ n a. n == a)
        take_one
        (10 ∷ [])
        (allowed (λ n a. n == a) take_one (10 ∷ []) accepts)
        1
accept_loop-admitted_example = accept_loop-admitted (λ n a. n == a) take_one (10 ∷ []) accepts 1

accept_loop-seen_example :
    seen (accept_loop (λ n a. n == a) take_one (10 ∷ []) accepts 1).0
    ≡ connections (λ n a. n == a) take_one (10 ∷ []) accepts
accept_loop-seen_example = accept_loop-seen (λ n a. n == a) take_one (10 ∷ []) accepts 1

abbrev called : World
called = on_start 5 idle (start_serving 5 idle.server)

abbrev listening : World
listening = on_install 7 called (install_serving_listener 7 called.server)

abbrev stopped : World
stopped = on_shutdown listening (shutdown_listener listening.server)
