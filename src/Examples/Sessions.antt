-- ===== src/Examples/Sessions.antt =====
-- Runs of a session over a transport that keeps the capsules it is given.
use webtransport_h2_go.Prelude.{
  ℕ, ◌≤◌, ◌≡◌, ◌↔◌, refl, true, false, List, [], ◌∷◌, ◌++◌, none, some, arith, pos, lookup, get,
  total,
}
use webtransport_h2_go.Errors.{ok, err, application, eof}
use webtransport_h2_go.Capsule
use webtransport_h2_go.Flow.{PeerInitialLimits, reserve_send_data}
use webtransport_h2_go.Flow.Charge.{IsBalanced}
use webtransport_h2_go.Session
use webtransport_h2_go.Session.State.{
  Session, Transport, Delivery, at_top, exited, enqueuing_stream,
}
use webtransport_h2_go.Session.Close.{put_uint32, parse_wt_close_session, close_with_error}
use webtransport_h2_go.Session.Send.{sender, write, close_send}
use webtransport_h2_go.Session.Receive.{receiver}
use webtransport_h2_go.Session.ReadLoop.{capsule, parsed, deliver}
use webtransport_h2_go.Session.Ending.{
  IsClosed, IsConsistent, parse-put, parse_iff, close_capsule, close_with_error_succeeds,
}
use webtransport_h2_go.Session.Writing.{write_fails_free}
use webtransport_h2_go.Session.Delivering.{delivery, stream_capsule, deliver_open}
use webtransport_h2_go.Examples.Varint.{rfc_9000, rfc_9000-IsQuicvarint}
use webtransport_h2_go.StreamId.{is_bidirectional_stream, is_our_stream}
use webtransport_h2_go.Session.Reuse.{fin_then_again, Begins}

-- The capsules written, newest first.
abbrev pub Log : Type 0
Log = List (ℕ × List ℕ)

abbrev pub keeping : Transport Log
keeping = record { write_capsule = λ typ payload w. ((typ, payload) ∷ w, none); flush = λ w. w }

-- A CONNECT stream that is gone.
abbrev failing : Transport Log
failing = record { write_capsule = λ typ payload w. (w, some eof); flush = λ w. w }

abbrev grant : PeerInitialLimits
grant = record {
  max_data = 100;
  max_streams_uni = 1;
  max_streams_bidi = 2;
  stream_data_uni = 10;
  stream_data_bidi_local = 20;
  stream_data_bidi_remote = 30;
}

-- A server with one bidirectional stream of the client, 0, whose halves are at address 0.
abbrev pub server : Session Log
server = record {
  protocol = [];
  stream_receive_buffer_size = pos 8;
  datagram_receive_buffer_size = pos 8;
  endpoint = record {
    is_server = true;
    created_stream_counter = 0;
    limits = record {
      active = true;
      max_data = 100;
      max_streams_uni = 1;
      max_streams_bidi = 2;
      stream_data_uni = 10;
      stream_data_bidi_local = 20;
      stream_data_bidi_remote = 30;
      stream_max = (0, 20) ∷ [];
      data_sent = 0;
      stream_sent = [];
      opened_uni = 0;
      opened_bidi = 0;
    };
  };
  writer = [];
  stop = false;
  close_once = false;
  done = false;
  close_datagram_delivery_once = false;
  incoming_streams = [];
  incoming_unidirectional_streams = [];
  datagram_buffer = record {
    queue = [];
    buffered_bytes = 0;
    closed = false;
    max_bytes = pos 8;
    notify = false;
  };
  close_err = none;
  close_reason = none;
  streams = (0, record { id = 0; receive = 0; send = 0 }) ∷ [];
  receive_streams = [];
  send_streams = [];
  receive_heap = record {
    next = 1;
    cell = λ a. record {
      id = 0;
      closed = false;
      recv_buffer = record { bytes = 1 ∷ 2 ∷ []; closed = false; max_bytes = pos 8 };
    };
  };
  send_heap = record { next = 1; cell = λ a. record { id = 0; closed = false } };
  loop = at_top;
}

server-IsConsistent : IsConsistent server
server-IsConsistent = record { stopped = refl; finished = refl; delivery = refl; datagrams = refl }

parse-put_example :
    parse_wt_close_session (put_uint32 0x102 ++ 104 ∷ 105 ∷ []) ≡ ok (0x102, 104 ∷ 105 ∷ [])
parse-put_example = parse-put 0x102 (104 ∷ 105 ∷ []) (omega arith) (omega arith)

parse_iff_example :
    ((r : ℕ × List ℕ) × (parse_wt_close_session (1 ∷ 2 ∷ []) ≡ ok r)) ↔ ((4 ≤ 2) × (0 ≤ 1024))
parse_iff_example = parse_iff (1 ∷ 2 ∷ [])

close_capsule_example :
    let t =
      parsed rfc_9000
        (capsule Capsule.wt_close_session (record { bytes = put_uint32 7 ++ []; fault = none }))
        server in
    IsClosed t × (t.close_err ≡ some (application 7 [] true)) × (t.loop ≡ exited)
close_capsule_example =
    close_capsule rfc_9000 7 [] server (omega arith) (omega arith) server-IsConsistent refl

close_with_error_succeeds_example :
    ((close_with_error keeping 7 (104 ∷ []) server).1 ≡ none)
    × ((close_with_error keeping 7 (104 ∷ []) server).0.writer
        ≡ (Capsule.wt_close_session, put_uint32 7 ++ 104 ∷ []) ∷ [])
    × IsClosed (close_with_error keeping 7 (104 ∷ []) server).0
    × ((close_with_error keeping 7 (104 ∷ []) server).0.close_err
        ≡ some (application 7 (104 ∷ []) false))
close_with_error_succeeds_example =
    close_with_error_succeeds keeping 7 (104 ∷ []) server (omega arith) refl refl
      server-IsConsistent refl

server-IsBalanced : IsBalanced server.endpoint.limits
unfolding total
server-IsBalanced = omega arith

write_gone : (write failing rfc_9000 0 (7 ∷ 8 ∷ 9 ∷ []) server).1 ≡ err eof
unfolding write Session.Send.write_reserved Session.Send.after_write Session.Close.write_capsule
    reserve_send_data get lookup
write_gone = refl

write_fails_free_example :
    ((write failing rfc_9000 0 (7 ∷ 8 ∷ 9 ∷ []) server).0.endpoint.limits.data_sent ≡ 0)
    × ((j : ℕ)
        → get j (write failing rfc_9000 0 (7 ∷ 8 ∷ 9 ∷ []) server).0.endpoint.limits.stream_sent
          ≡ get j server.endpoint.limits.stream_sent)
write_fails_free_example =
    write_fails_free failing rfc_9000 0 (7 ∷ 8 ∷ 9 ∷ []) server eof server-IsBalanced write_gone

abbrev last_bytes : Delivery
last_bytes = delivery 0 0 (3 ∷ 4 ∷ []) true false

deliver_open_example :
    (receiver 0 (deliver last_bytes server)).recv_buffer
    ≡ record { bytes = 1 ∷ 2 ∷ 3 ∷ 4 ∷ []; closed = true; max_bytes = pos 8 }
deliver_open_example = (deliver_open last_bytes server refl refl refl).1

abbrev stuck : Session Log
stuck = record server {
  loop = enqueuing_stream (record { id = 4; receive = 1; send = 1 }) last_bytes;
}

-- The last bytes of the peer's unidirectional stream 2, whose half is at the address 0.
abbrev last_of_uni : Delivery
last_of_uni = delivery 0 2 (3 ∷ 4 ∷ []) true true

fin_then_again_example :
    Begins 2
      (5 ∷ [])
      false
      (parsed rfc_9000 (stream_capsule rfc_9000 false 2 (5 ∷ [])) (deliver last_of_uni server))
      1
unfolding is_bidirectional_stream is_our_stream
fin_then_again_example =
    fin_then_again rfc_9000 last_of_uni server false (5 ∷ []) rfc_9000-IsQuicvarint (omega arith)
      refl refl refl refl refl refl refl
