-- ===== src/Session/ReadLoop.antt =====
-- `readLoop`: one function for each stretch between two points where the goroutine may wait or another
-- may run. Every way out runs the deferred `Close`.
use mathlib.Core.Option
use webtransport_h2_go.Prelude.{
  ℕ, Bool, true, false, not, ◌||◌, List, Option, none, some, ◌==◌, if◌then◌else◌, lookup, insert,
  delete,
}
use webtransport_h2_go.Errors.{
  Error, ok, err, application, flow_control, is_clean_connect_teardown, flow_control_error,
}
use webtransport_h2_go.Wire.{Content, Quicvarint, read_all}
use webtransport_h2_go.Capsule
use webtransport_h2_go.StreamId.{is_bidirectional_stream, is_our_stream}
use webtransport_h2_go.Flow.{Endpoint, track_send_stream, handle_send_limit_capsule}
use webtransport_h2_go.Datagram
use webtransport_h2_go.Session.State.{
  Session, Delivery, ReadLoop, at_top, parsing, exited, enqueuing_stream, enqueuing_uni, delivering,
  connect_fin, error_reason,
}
use webtransport_h2_go.Session.Close.{
  close, set_close_err, set_close_reason, parse_wt_close_session,
}
use webtransport_h2_go.Session.Receive.{receive_stream_data, finish_receive}
use webtransport_h2_go.Session.Streams.{
  new_stream, new_receive_stream, EnqueueCase, enqueue_incoming_stream, enqueue_incoming_uni_stream,
}

-- What `http3.ParseCapsule` returns: a type and the reader of the value, or an error.
pub data Inbound : Type 0 where
  capsule : ℕ → Content → Inbound
  broken : Error → Inbound

module _ {W : Type 0} where
  abbrev pub go_to : ReadLoop → Session W → Session W
  go_to l s = record s { loop = l }

  -- `return`
  unfoldable pub exit : Session W → Session W
  exit s = go_to exited (close s)

  -- The `if s.stop.Load()` at the top of the loop.
  unfoldable pub check_stop : Session W → Session W
  check_stop s = if s.stop then exit s else go_to parsing s

  -- An error while a value is read: a clean end of the CONNECT stream gives the reason.
  unfoldable pub fail_read : Error → Session W → Session W
  fail_read e s = exit (if is_clean_connect_teardown e then set_close_reason connect_fin s else s)

  -- An error of `ParseCapsule`.
  unfoldable pub fail_parse : Error → Session W → Session W
  fail_parse e s =
      exit (set_close_reason (if is_clean_connect_teardown e then connect_fin else error_reason) s)

  -- `io.ReadAll(content)`, and what is done with the value.
  unfoldable pub with_value : Content → (List ℕ → Session W → Session W) → Session W → Session W
  with_value content use_value s = elim (read_all content) [
    | ok payload ↦ use_value payload s
    | err e ↦ fail_read e s
  ]

  -- A WT_STREAM or WT_STREAM_FIN capsule for a bidirectional ID.
  unfoldable pub route_bidi : ℕ → List ℕ → Bool → Session W → Session W
  route_bidi id payload fin s = elim (lookup id s.streams) [
    | some st ↦
        go_to
          (delivering
            (record { target = st.receive; id = id; payload = payload; fin = fin; forget = false }))
          s
    | none ↦
        if is_our_stream s.endpoint.is_server id
        then go_to at_top s
        else let (t, st) = new_stream id s in
          go_to
            (enqueuing_stream st (record {
              target = st.receive;
              id = id;
              payload = payload;
              fin = fin;
              forget = false;
            }))
            (record t {
              streams = insert id st t.streams;
              endpoint = track_send_stream id t.endpoint;
            })
  ]

  -- The same for a unidirectional ID.
  unfoldable pub route_uni : ℕ → List ℕ → Bool → Session W → Session W
  route_uni id payload fin s = elim (lookup id s.receive_streams) [
    | some a ↦
        go_to
          (delivering (record { target = a; id = id; payload = payload; fin = fin; forget = true }))
          s
    | none ↦
        if is_our_stream s.endpoint.is_server id
        then go_to at_top s
        else let (t, a) = new_receive_stream id s in
          go_to
            (enqueuing_uni a
              (record { target = a; id = id; payload = payload; fin = fin; forget = true }))
            (record t { receive_streams = insert id a t.receive_streams })
  ]

  unfoldable pub route : ℕ → Bool → List ℕ → Session W → Session W
  route id fin payload s =
      if is_bidirectional_stream id then route_bidi id payload fin s else route_uni id payload fin s

  unfoldable pub handle_stream : Quicvarint → Bool → Content → Session W → Session W
  handle_stream q fin content s = elim (q.read content) [
    | err e ↦ exit s
    | ok (id, rest) ↦ with_value rest (route id fin) s
  ]

  -- `deliverDatagram`
  unfoldable pub deliver_datagram : List ℕ → Session W → Session W
  deliver_datagram payload s = record s {
    datagram_buffer = (Datagram.write payload s.datagram_buffer).0;
  }

  unfoldable pub handle_close : List ℕ → Session W → Session W
  handle_close payload s = elim (parse_wt_close_session payload) [
    | err e ↦ exit (set_close_reason error_reason s)
    | ok (code, message) ↦ exit (set_close_err (application code message true) s)
  ]

  -- What the loop does about the result of `handleSendLimitCapsule`.
  unfoldable pub after_limit : Endpoint × Option Error → Session W → Session W
  after_limit (e, none) s = go_to at_top (record s { endpoint = e })
  after_limit (e, some x) s =
      let t : Session W = record s { endpoint = e } in
      elim (flow_control_error x) [
        | some reason ↦ exit (set_close_err (flow_control reason) t)
        | none ↦ fail_read x t
      ]

  -- The `switch` on a capsule's type.
  unfoldable pub handle_capsule : Quicvarint → ℕ → Content → Session W → Session W
  handle_capsule q typ content s =
      if typ == Capsule.padding
      then with_value content (λ payload. go_to at_top) s
      else if typ == Capsule.wt_stream || typ == Capsule.wt_stream_fin
      then handle_stream q (typ == Capsule.wt_stream_fin) content s
      else if typ == Capsule.datagram
      then with_value content (λ payload t. go_to at_top (deliver_datagram payload t)) s
      else if typ == Capsule.wt_close_session
      then with_value content handle_close s
      else if typ == Capsule.wt_drain_session
      then go_to at_top s
      else if typ == Capsule.wt_max_data
          || typ == Capsule.wt_max_stream_data
          || typ == Capsule.wt_max_streams_bidi
          || typ == Capsule.wt_max_streams_uni
      then after_limit (handle_send_limit_capsule q typ content s.endpoint) s
      else with_value content (λ payload. go_to at_top) s

  -- `ParseCapsule` has returned.
  unfoldable pub parsed : Quicvarint → Inbound → Session W → Session W
  parsed q (capsule typ content) s = handle_capsule q typ content s
  parsed q (broken e) s = fail_parse e s

  -- What follows the hand-over of a new stream.
  abbrev pub after_enqueue : Delivery → Session W × Bool → Session W
  after_enqueue d (s, true) = go_to (delivering d) s
  after_enqueue d (s, false) = exit s

  -- The loop has a new stream to hand over; `none`: it waits, or has none.
  unfoldable pub enqueue : EnqueueCase → Session W → Option (Session W)
  enqueue c s = elim s.loop [
    | enqueuing_stream st d ↦ Option.map (after_enqueue d) (enqueue_incoming_stream c st s)
    | enqueuing_uni a d ↦ Option.map (after_enqueue d) (enqueue_incoming_uni_stream c a s)
    | _ ↦ none
  ]

  -- The part of a delivery behind `receiveStreamData`.
  unfoldable pub after_receive : Delivery → Session W × Option Error → Session W
  after_receive d (s, some e) = exit s
  after_receive d (s, none) =
      if not d.fin
      then go_to at_top s
      else let t = finish_receive d.target s in
        go_to at_top
          (if d.forget then record t { receive_streams = delete d.id t.receive_streams } else t)

  unfoldable pub deliver : Delivery → Session W → Session W
  deliver d s = after_receive d (receive_stream_data d.target d.payload s)
