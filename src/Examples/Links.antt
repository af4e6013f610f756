-- ===== src/Examples/Links.antt =====
-- A client opens a stream and writes to it; the server's read loop takes the capsule, hands the stream
-- over and buffers the bytes, and the application there reads some of them.
use webtransport_h2_go.Prelude.{
  ℕ, ◌≡◌, ◌⊎◌, refl, true, false, List, [], ◌∷◌, ◌++◌, Option, none, lookup, insert, arith,
}
use webtransport_h2_go.Errors.{Error}
use webtransport_h2_go.Capsule
use webtransport_h2_go.StreamId.{is_bidirectional_stream, is_our_stream, next_stream_id}
use webtransport_h2_go.Flow.{
  alloc_local_stream, open_refused, charge_open, reserve_send_data, track_send_stream,
  ensure_stream_send_limit,
}
use webtransport_h2_go.Buffer
use webtransport_h2_go.Buffer.{new_stream_receive_buffer}
use webtransport_h2_go.Wire.{read_all}
use webtransport_h2_go.Session.State.{Delivery, exited, delivering, new_session}
use webtransport_h2_go.Session.Close.{write_capsule}
use webtransport_h2_go.Session.Send.{write, write_reserved, after_write}
use webtransport_h2_go.Session.Receive.{read, receive_stream_data}
use webtransport_h2_go.Session.Streams.{
  to_channel, open_stream, opened, add_stream, new_stream, new_send_stream, new_receive_stream,
  enqueue_incoming_stream,
}
use webtransport_h2_go.Session.ReadLoop.{
  capsule, check_stop, parsed, handle_capsule, handle_stream, with_value, route, route_bidi,
  enqueue, deliver, after_receive,
}
use webtransport_h2_go.Session.Steps.{opens, writes, checks, enqueues, delivers, reads}
use webtransport_h2_go.Link.{
  Link, Wire, LinkReach, here, next, sends, arrives, acts, joined, onto_wire, written, read_out,
  taken, held, HasStoppedReading, pending, in_flight, IsEncodable, IsLocal,
}
use webtransport_h2_go.Link.Reliable.{reads-writes}
use webtransport_h2_go.Examples.Varint
use webtransport_h2_go.Examples.Varint.{
  rfc_9000, rfc_9000-IsQuicvarint, decode, more, size, encoding,
}
use webtransport_h2_go.Examples.Sessions.{Log, keeping}

abbrev never : ℕ → List ℕ → Wire → Option Error
never typ p w = none

abbrev start : Link Log
start = joined [] [] true none none

abbrev with_stream : Link Log
with_stream = record start { from = (open_stream start.from).0 }

abbrev with_bytes : Link Log
with_bytes = record with_stream {
  from = (write (onto_wire never) rfc_9000 0 (1 ∷ 2 ∷ 3 ∷ []) with_stream.from).0;
  sent = 1 ∷ 2 ∷ 3 ∷ [];
}

abbrev listening : Link Log
listening = record with_bytes { to = check_stop with_bytes.to }

abbrev arrived : Link Log
arrived = record listening {
  from = record listening.from { writer = [] };
  to =
      parsed rfc_9000
        (capsule Capsule.wt_stream (record { bytes = 0 ∷ 1 ∷ 2 ∷ 3 ∷ []; fault = none }))
        listening.to;
}

abbrev payload : Delivery
payload = record { target = 0; id = 0; payload = 1 ∷ 2 ∷ 3 ∷ []; fin = false; forget = false }

abbrev handed : Link Log
handed = record arrived {
  to = record arrived.to {
    incoming_streams = (record { id = 0; receive = 0; send = 0 }) ∷ [];
    loop = delivering payload;
  };
}

abbrev buffered : Link Log
buffered = record handed { to = deliver payload handed.to }

abbrev some_read : Link Log
some_read = record buffered { to = (read 0 2 buffered.to).0; received = 1 ∷ 2 ∷ [] }

some_read-LinkReach : LinkReach rfc_9000 0 start some_read
unfolding joined new_session check_stop open_stream opened alloc_local_stream open_refused
    charge_open add_stream new_stream new_send_stream new_receive_stream written read_out taken
    write write_reserved after_write write_capsule reserve_send_data parsed handle_capsule
    handle_stream with_value read_all route route_bidi is_bidirectional_stream is_our_stream
    next_stream_id track_send_stream ensure_stream_send_limit enqueue enqueue_incoming_stream
    deliver receive_stream_data after_receive Buffer.write read Buffer.read
    new_stream_receive_buffer lookup insert decode more size encoding Varint.read IsEncodable
    IsLocal
some_read-LinkReach =
    let r1 : LinkReach rfc_9000 0 start with_stream =
      next here (sends never with_stream.from (opens refl) tt refl) in
    let r2 : LinkReach rfc_9000 0 start with_bytes =
      next r1 (sends never with_bytes.from (writes 0 (1 ∷ 2 ∷ 3 ∷ []) refl) (omega arith) refl) in
    let r3 : LinkReach rfc_9000 0 start listening =
      next r2 (acts keeping listening.to (checks refl refl) tt refl) in
    let r4 : LinkReach rfc_9000 0 start arrived =
      next r3 (arrives Capsule.wt_stream (0 ∷ 1 ∷ 2 ∷ 3 ∷ []) [] refl refl refl) in
    let r5 : LinkReach rfc_9000 0 start handed =
      next r4 (acts keeping handed.to (enqueues to_channel refl) tt refl) in
    let r6 : LinkReach rfc_9000 0 start buffered =
      next r5 (acts keeping buffered.to (delivers payload refl refl) tt refl) in
    next r6 (acts keeping some_read.to (reads 0 2 refl) tt refl)

reads-writes_example :
    (rest : List ℕ) × (some_read.sent ≡ (some_read.received ++ held 0 some_read.to) ++ rest)
    × ((some_read.to.loop ≡ exited)
        ⊎ HasStoppedReading 0 some_read.to
        ⊎ (rest ≡ pending 0 some_read.to.loop ++ in_flight rfc_9000 0 some_read.from.writer))
unfolding is_bidirectional_stream is_our_stream
reads-writes_example =
    reads-writes rfc_9000 rfc_9000-IsQuicvarint 0 true refl refl [] [] none none some_read
      some_read-LinkReach
