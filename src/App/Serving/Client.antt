-- ===== src/App/Serving/Client.antt =====
-- A request, its handling and its reply, from the client's end.
use usbip_go.Prelude.{
  ℕ, ◌≤◌, ◌≡◌, sym, ap, ◌∙◌, inl, inr, ◌⊎◌, true, false, not, List, [], ◌∷◌, ◌++◌, ◌==◌,
  if◌then◌else◌, append-nil, Bool-cases, subst, arith,
}
use usbip_go.Io.Errors.{Error, Result, ok, err, map_err, wrap, >>=-eq-ok, guard-ok, ok-injective}
use usbip_go.Io.Readers.{IoReader}
use usbip_go.Io.Writers.{holding, output}
use usbip_go.Domain.Device.{Device}
use usbip_go.Domain.BusId.{validate_wire_bus_id}
use usbip_go.Kernel.Text.{text_eq}
use usbip_go.Wire.Fields.{no_flags}
use usbip_go.Wire.Header.{decode_header, op_req_devlist, op_req_import}
use usbip_go.Wire.Layout.Codec.{IsEncodable, on_wire}
use usbip_go.Wire.ImportOp.{
  encode_op_req_import, decode_op_req_import, decode_op_req_import_body, encode_op_rep_import,
  encode_op_rep_import_error, decode_op_rep_import,
}
use usbip_go.Wire.ImportOp.Codec.{decode-encode_op_rep_import, decode-encode_op_rep_import_error}
use usbip_go.App.Sessions.{Limits}
use usbip_go.Kernel.Text.Equality.{text_eq→eq}
use usbip_go.App.Limits.Stream.{limit_reader, decode_op_req_import-capped}
use usbip_go.App.Serving.{
  Host, Serving, Progress, returned, find_device, lookup_exported_device, import_bus_id,
  serve_import, dispatch, handle_conn,
}
use usbip_go.App.Serving.Reply.{
  conn_of, lookup_result, Cause, IsReplied, declined, accepted, import_bus_id-IsReplied,
  Cause-IsRejection,
}

find_device-same :
    (bus_id : List ℕ) (devices : List Device) {dev : Device}
    → find_device bus_id devices ≡ ok dev
    → text_eq dev.bus_id bus_id ≡ true
unfolding find_device
find_device-same bus_id [] h = cc
find_device-same bus_id (d ∷ devices) {dev} h = elim (Bool-cases (text_eq d.bus_id bus_id)) [
  | inl q ↦
      subst (λ x. text_eq x.bus_id bus_id ≡ true)
        (ok-injective (subst (λ b. (if b then ok d else find_device bus_id devices) ≡ ok dev) q h))
        q
  | inr q ↦
      find_device-same bus_id devices
        (subst (λ b. (if b then ok d else find_device bus_id devices) ≡ ok dev) q h)
]

import_op :
    (op : ℕ)
    → not (op == op_req_import) ≡ false
    → ((op == op_req_devlist) ≡ false) × ((op == op_req_import) ≡ true)
import_op op h = ground arith

module _ {R : Type 0} ⦃io : IoReader R⦄ where
  serve_import-ok :
      (host : Host) (limits : Limits) (peer_key bus_id : List ℕ) (s : Serving) (r r' : R)
      → decode_op_req_import_body r ≡ ok (bus_id, r')
      → serve_import host limits peer_key r s ≡ import_bus_id host limits peer_key bus_id s
  unfolding serve_import
  serve_import-ok host limits peer_key bus_id s r r' e =
      ap
        (λ (x : Result (List ℕ × R)). elim x [
          | err e ↦ returned s
          | ok (b, rest) ↦ import_bus_id host limits peer_key b s
        ])
        e

  dispatch-import :
      (host : Host) (limits : Limits) (peer_key bus_id : List ℕ) (s : Serving) (r r' : R)
      → decode_op_req_import r ≡ ok (bus_id, r')
      → dispatch host limits peer_key s (decode_header r)
        ≡ import_bus_id host limits peer_key bus_id s
  unfolding decode_op_req_import
  dispatch-import host limits peer_key bus_id s r r' e =
      let ((h, r1), q, more) = >>=-eq-ok (decode_header r) _ e in
      let (op, body) = guard-ok (not (h.op == op_req_import)) _ _ more in
      let (other, same) = import_op h.op op in
      ap (dispatch host limits peer_key s) q
      ∙ rw (other, same) (serve_import-ok host limits peer_key bus_id s _ r' body)

-- The list that a client's device comes from has it under the requested bus id.
lookup-same :
    (devices : Result (List Device)) (bus_id : List ℕ) {dev : Device}
    → lookup_exported_device devices bus_id ≡ ok dev
    → dev.bus_id ≡ bus_id
unfolding lookup_exported_device
lookup-same devices bus_id h =
    let (listed, q, found) = >>=-eq-ok (map_err wrap devices) _ h in
    text_eq→eq _ _ (find_device-same bus_id listed found)

-- What a client reads: the error of a cause, or the device that it asked for.
module _ {R : Type 0} ⦃io : IoReader R⦄ where
  abbrev pub ClientSees : Host → Limits → List ℕ → List ℕ → Serving → R → Type 0
  ClientSees host limits peer_key bus_id s client =
      ((status : ℕ) × ((e : Error) × (Cause host limits peer_key bus_id s status e
            × (decode_op_rep_import client ≡ err (wrap e)))))
      ⊎ ((dev : Device) × ((client' : R) × ((lookup_result host limits peer_key bus_id s ≡ ok dev)
              × ((dev.bus_id ≡ bus_id)
                  × (decode_op_rep_import client ≡ ok ((on_wire dev, no_flags), client'))))))

module _ {R : Type 0} ⦃io : IoReader R⦄ where
  replied-ClientSees :
      (host : Host) (limits : Limits) (peer_key bus_id : List ℕ) (s : Serving) (p : Progress)
      (client : R)
      → s.conn ≡ holding []
      → ((dev : Device) → lookup_result host limits peer_key bus_id s ≡ ok dev → IsEncodable dev)
      → io.pending client ≡ (conn_of p).written
      → IsReplied host limits peer_key bus_id s p
      → ClientSees host limits peer_key bus_id s client
  replied-ClientSees host limits peer_key bus_id s p client fresh encodable sent
        (declined status e c q) =
      inl (
        status,
        (
          e,
          (
            c,
            decode-encode_op_rep_import_error status e [] client
                (Cause-IsRejection host limits peer_key bus_id s c)
                (sent
                  ∙ ap (λ w. w.written) q
                  ∙ ap (λ w. (encode_op_rep_import_error status w).0.written) fresh
                  ∙ sym (append-nil _)),
          ),
        ),
      )
  replied-ClientSees host limits peer_key bus_id s p client fresh encodable sent
        (accepted dev id h l r q) =
      let (client', decoded, more, ends) =
        decode-encode_op_rep_import dev [] client (encodable dev l) (
          sent
          ∙ ap (λ w. w.written) q
          ∙ ap (λ w. (encode_op_rep_import dev w).0.written) fresh
          ∙ sym (append-nil _)) in
      inr (dev, (client', (l, (lookup-same host.exported_devices bus_id l, decoded))))

module _ {Server : Type 0} ⦃from_client : IoReader Server⦄ {Client : Type 0}
    ⦃from_server : IoReader Client⦄ where
  -- A client that requests a bus id which passes the wire check, from an exporter that caps handshakes
  -- at no fewer than 40 bytes and on a connection that does not fail, reads one reply: the device of
  -- that bus id which the kernel lists, or the error of the cause for which the exporter declined. The
  -- devices listed have fields that the descriptor holds.
  pub import_request-ClientSees :
      (host : Host) (limits : Limits) (limit : ℕ) (peer_key bus_id rest : List ℕ) (s : Serving)
      (server : Server) (client : Client)
      → validate_wire_bus_id bus_id ≡ ok bus_id
      → from_client.pending server ≡ output (encode_op_req_import bus_id) ++ rest
      → 40 ≤ limit
      → s.conn ≡ holding []
      → ((dev : Device) → lookup_result host limits peer_key bus_id s ≡ ok dev → IsEncodable dev)
      → from_server.pending client
        ≡ (conn_of (handle_conn host limits limit peer_key server s)).written
      → ClientSees host limits peer_key bus_id s client
  unfolding handle_conn
  import_request-ClientSees host limits limit peer_key bus_id rest s server client valid request
        enough fresh encodable sent =
      let (r', decoded, more) =
        decode_op_req_import-capped bus_id rest server limit valid request enough in
      let handled = dispatch-import host limits peer_key bus_id s _ r' decoded in
      replied-ClientSees host limits peer_key bus_id s (import_bus_id host limits peer_key bus_id s)
        client fresh encodable (sent ∙ ap (λ p. (conn_of p).written) handled)
        (import_bus_id-IsReplied host limits peer_key bus_id s)
