-- ===== src/Tests/App.antt =====
-- The session registry with room for two sessions, one for each peer.
use usbip_go.Prelude.{ℕ, ◌≡◌, refl, true, false, List, [], ◌∷◌}
use usbip_go.Io.Errors.{ok, err, sentinel, per_peer_limit_exceeded}
use usbip_go.Prelude.{◌≢◌, arith, none}
use usbip_go.App.Handoff
use usbip_go.App.Handoff.{
  succeeded, in_progress, begin_handoff, end_handoff, signal_cancel, signal_by_state,
  claim_cleanup_locked, finish_cleanup, completed_cleanup_result,
}
use usbip_go.App.Handoff.Steps.{
  System, new_system, returned, calling, ends, cancels, finishes, IsSound,
}
use usbip_go.App.Handoff.Soundness.{IsReachable-IsSound, completed_cleanup_result-released}
use usbip_go.Prelude.{append-nil, ◌++◌}
use usbip_go.Io.Conn.{Conn, conn_reader}
use usbip_go.Io.Writers.{output}
use usbip_go.Domain.BusId.{validate_wire_bus_id, all_wire_runes}
use usbip_go.Wire.ImportOp.{encode_op_req_import, decode_op_req_import}
use usbip_go.App.Limits.{LimitReader, new_limit_reader}
use usbip_go.App.Limits.Stream.{limit_reader, decode_op_req_import-capped}
use usbip_go.Tests.Samples.{bus_1_1_2, one_chunk}
use usbip_go.Kernel.Text.{text_eq}
use usbip_go.App.Sessions.{
  Session, SessionHandle, Limits, Registry, new_registry, register_session, unregister_session,
  capture_shutdown_state, is_bus_id_taken, release_peer,
}
use usbip_go.App.Sessions.Invariant.{IsConsistent}
use usbip_go.App.Sessions.Steps.{
  IsReachable, begins, continues, registers, unregisters, IsReachable-IsConsistent,
}
use usbip_go.App.Sessions.Shutdown.{Run, stays, steps, IsPart, capture_shutdown_state-final}

abbrev limits : Limits
limits = record { max_sessions = 2; max_sessions_per_peer = 1 }

abbrev alice : List ℕ
alice = 97 ∷ []

abbrev first_session : Session
first_session = record { id = 7; bus_id = 49 ∷ 45 ∷ 49 ∷ [] }

abbrev second_session : Session
second_session = record { id = 8; bus_id = 49 ∷ 45 ∷ 50 ∷ [] }

abbrev first_handle : SessionHandle
first_handle = record { session = first_session; peer_key = alice }

abbrev one_session : Registry
one_session = record {
  shutdown = false;
  sessions = first_handle ∷ [];
  per_peer = (alice, 1) ∷ [];
  shutdown_handles = [];
}

accepted : (register_session limits new_registry first_session alice).0 ≡ one_session
unfolding register_session is_bus_id_taken
accepted = refl

-- A second session of the peer is over its limit.
declined :
    register_session limits one_session second_session alice
    ≡ (one_session, err (sentinel per_peer_limit_exceeded))
unfolding register_session is_bus_id_taken text_eq
declined = refl

emptied : unregister_session one_session 7 ≡ new_registry
unfolding unregister_session release_peer text_eq
emptied = refl

reached_one : IsReachable limits (register_session limits new_registry first_session alice).0
reached_one = continues new_registry _ begins (registers new_registry first_session alice refl)

IsReachable-IsConsistent_example :
    IsConsistent limits (register_session limits new_registry first_session alice).0
IsReachable-IsConsistent_example = IsReachable-IsConsistent limits reached_one

abbrev down : Registry
down = record {
  shutdown = true;
  sessions = first_handle ∷ [];
  per_peer = (alice, 1) ∷ [];
  shutdown_handles = first_handle ∷ [];
}

-- The same registry when its session has ended.
abbrev ended : Registry
ended = record down { sessions = []; per_peer = [] }

Run-ended : Run limits (capture_shutdown_state one_session).0 ended
unfolding capture_shutdown_state unregister_session release_peer text_eq
Run-ended = steps down ended ended (unregisters down 7) (stays ended)

capture_shutdown_state-final_example :
    IsPart [] one_session.sessions × ((capture_shutdown_state ended).1 ≡ one_session.sessions)
capture_shutdown_state-final_example =
    capture_shutdown_state-final limits one_session ended refl Run-ended

-- A handoff that succeeds, a cancellation that owns the disconnect, and its end.
abbrev handed : System
handed = record {
  handle = record {
    handoff_state = succeeded;
    cancelled = false;
    cleanup_claimed = false;
    closes = 0;
    cleanup_err = none;
  };
  phase = returned;
  owners = 0;
  granted = 0;
}

abbrev in_call : System
in_call = record handed {
  handle = record (handed.handle) { handoff_state = in_progress };
  phase = calling;
}

abbrev told : System
told = record handed {
  handle = record (handed.handle) { cancelled = true; cleanup_claimed = true };
  owners = 1;
  granted = 1;
}

abbrev cleaned : System
cleaned = record told { handle = record (told.handle) { closes = 1 }; owners = 0 }

reached_call : Handoff.Steps.IsReachable in_call
unfolding begin_handoff
reached_call =
    Handoff.Steps.continues new_system in_call Handoff.Steps.starts
      (Handoff.Steps.begins new_system refl)

reached_handed : Handoff.Steps.IsReachable handed
unfolding end_handoff
reached_handed = Handoff.Steps.continues in_call handed reached_call (ends in_call none refl)

reached_told : Handoff.Steps.IsReachable told
unfolding signal_cancel signal_by_state claim_cleanup_locked
reached_told = Handoff.Steps.continues handed told reached_handed (cancels handed)

reached_cleaned : Handoff.Steps.IsReachable cleaned
unfolding finish_cleanup
reached_cleaned =
    Handoff.Steps.continues told cleaned reached_told (finishes told none (omega arith))

IsReachable-IsSound_example : IsSound cleaned
IsReachable-IsSound_example = IsReachable-IsSound reached_cleaned

returned_not_calling : returned ≢ calling
returned_not_calling e = cc

completed_cleanup_result-released_example : completed_cleanup_result cleaned.handle ≡ (true, none)
completed_cleanup_result-released_example =
    completed_cleanup_result-released cleaned reached_cleaned refl returned_not_calling refl

valid_bus_id : validate_wire_bus_id bus_1_1_2 ≡ ok bus_1_1_2
unfolding validate_wire_bus_id all_wire_runes
valid_bus_id = refl

abbrev long_request : Conn
long_request = one_chunk (output (encode_op_req_import bus_1_1_2) ++ (9 ∷ 8 ∷ []))

decode_op_req_import-capped_example :
    (r' : LimitReader Conn) × (decode_op_req_import (new_limit_reader long_request 41)
      ≡ ok (bus_1_1_2, r'))
    × (limit_reader.pending r' ≡ 9 ∷ [])
decode_op_req_import-capped_example =
    decode_op_req_import-capped bus_1_1_2 (9 ∷ 8 ∷ []) long_request 41 valid_bus_id (append-nil _)
      (omega arith)
