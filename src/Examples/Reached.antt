-- ===== src/Examples/Reached.antt =====
-- A session that two goroutines work on: while the read loop starts, the application opens a stream,
-- sets its buffer size and begins to close it, and the read loop ends.
use webtransport_h2_go.Prelude.{◌≡◌, refl, true, [], none, pos}
use webtransport_h2_go.Errors.{closed_pipe}
use webtransport_h2_go.Flow.{alloc_local_stream, open_refused}
use webtransport_h2_go.Session.State.{Session, exited, new_session}
use webtransport_h2_go.Session.Close.{close, close_datagram_delivery, begun}
use webtransport_h2_go.Session.Streams.{
  open_stream, opened, add_stream, new_stream, new_send_stream, new_receive_stream,
}
use webtransport_h2_go.Session.ReadLoop.{broken, check_stop, parsed}
use webtransport_h2_go.Session.Flags.{IsOrdered}
use webtransport_h2_go.Session.Steps.{
  Reach, here, next, checks, parses, opens, closes, begins_close, sets_buffer_size,
}
use webtransport_h2_go.Session.Reachable.{reach-IsOrdered}
use webtransport_h2_go.Session.Registry.{IsRouted}
use webtransport_h2_go.Session.Routed.{reach-IsRouted}
use webtransport_h2_go.Examples.Varint.{rfc_9000}
use webtransport_h2_go.Examples.Sessions.{Log, keeping}

abbrev fresh : Session Log
fresh = new_session [] [] true none

-- The application sets the receive buffers of new streams to 100000 bytes, opens a stream and has begun
-- to close the session when the read loop meets the end of the connection.
abbrev open_session : Session Log
open_session =
    (open_stream (record (check_stop fresh) { stream_receive_buffer_size = pos 100000 })).0

abbrev closing_session : Session Log
closing_session = begun open_session (close open_session)

abbrev ended_session : Session Log
ended_session = parsed rfc_9000 (broken closed_pipe) closing_session

unfoldable ended_session-Reach : Reach keeping rfc_9000 fresh ended_session
unfolding new_session check_stop open_stream opened alloc_local_stream open_refused add_stream
    new_stream new_send_stream new_receive_stream close close_datagram_delivery
ended_session-Reach =
    next
      (next
        (next (next (next here (checks refl refl)) (sets_buffer_size (pos 100000) refl))
          (opens refl))
        (begins_close (close open_session) (closes refl) refl refl refl))
      (parses (broken closed_pipe) refl refl)

reach-IsOrdered_example :
    IsOrdered ended_session × (ended_session.loop ≡ exited → ended_session.close_once ≡ true)
reach-IsOrdered_example =
    reach-IsOrdered keeping rfc_9000 [] [] true none ended_session ended_session-Reach

reach-IsRouted_example :
    IsRouted ended_session.receive_heap ended_session.receive_streams ended_session.streams
      ended_session.loop
reach-IsRouted_example =
    reach-IsRouted keeping rfc_9000 [] [] true none ended_session ended_session-Reach
