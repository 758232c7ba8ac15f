-- ===== src/App/Callbacks.antt =====
-- internal/app/reconnect.go: the worker that calls OnReconnect for a watcher. The watcher is the only
-- sender; the worker's turns are lists of what it does between two of the watcher's selects.
pub mod Latest
use usbip_go.Prelude.{ℕ, Bool, true, false, Option, none, some, List, [], ◌∷◌, if◌then◌else◌}
use usbip_go.Io.Errors.{Error}

-- reconnectCallbackRequest.
pub record CallbackRequest : Type 0 where
  pub attempt : ℕ
  pub error : Option Error

-- reconnectCallbackRunner: its channel, which holds one request, whether the callback runs, and the
-- requests for which it was called, the latest first.
pub record Runner : Type 0 where
  pub queued : Option CallbackRequest
  pub is_busy : Bool
  pub invoked : List CallbackRequest

-- newReconnectCallbackRunner.
abbrev pub new_runner : Runner
new_runner = record { queued = none; is_busy = false; invoked = [] }

-- The worker receives and calls the callback, or the callback returns or panics.
pub data Turn : Type 0 where
  receives returns : Turn

abbrev pub receive : Option CallbackRequest → Bool → Runner → Runner
receive none busy s = s
receive (some r) true s = s
receive (some r) false s = record { queued = none; is_busy = true; invoked = r ∷ s.invoked }

-- A turn of run and invoke.
unfoldable pub turn : Turn → Runner → Runner
turn receives s = receive s.queued s.is_busy s
turn returns s = record s { is_busy = false }

unfoldable pub work : List Turn → Runner → Runner
work [] s = s
work (t ∷ turns) s = work turns (turn t s)

-- `select { case r.requests <- request: default: }`, and whether it sent.
abbrev pub send_by : Option CallbackRequest → CallbackRequest → Runner → Runner × Bool
send_by none request s = (record s { queued = some request }, true)
send_by (some r) request s = (s, false)

abbrev pub try_send : CallbackRequest → Runner → Runner × Bool
try_send request s = send_by s.queued request s

-- `select { case <-r.requests: default: }`.
abbrev pub discard : Runner → Runner
discard s = record s { queued = none }

abbrev pub after_send : List Turn → List Turn → CallbackRequest → Runner × Bool → Runner
after_send first second request (s, true) = s
after_send first second request (s, false) =
    (try_send request (work second (discard (work first s)))).0

-- Notify, with the worker's turns between its selects.
unfoldable pub notify : List Turn → List Turn → CallbackRequest → Runner → Runner
notify first second request s = after_send first second request (try_send request s)

-- What happens to a runner until it is closed.
pub data Happening : Type 0 where
  notifies : List Turn → List Turn → CallbackRequest → Happening
  works : List Turn → Happening

unfoldable pub happen : Happening → Runner → Runner
happen (notifies first second request) s = notify first second request s
happen (works turns) s = work turns s

-- What happened, the latest first.
unfoldable pub play : List Happening → Runner
play [] = new_runner
play (h ∷ history) = happen h (play history)

abbrev pub flush : Option CallbackRequest → List CallbackRequest → List CallbackRequest
flush none invoked = invoked
flush (some r) invoked = r ∷ invoked

-- Close, and run to its end: the requests for which the callback was called at last.
unfoldable pub close : Runner → List CallbackRequest
close s = flush s.queued s.invoked
