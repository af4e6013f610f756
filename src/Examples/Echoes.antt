-- ===== src/Examples/Echoes.antt =====
-- The echo handlers and the client on a stream whose peer has sent three bytes and a FIN.
use webtransport_h2_go.Prelude.{
  ap, insert, ◌⊎◌, Option, ℕ, ◌≡◌, ◌↔◌, refl, arith, true, false, List, [], ◌∷◌, none, some, lookup,
  get, pos,
}
use webtransport_h2_go.Errors.{Result, ok, err}
use webtransport_h2_go.Capsule
use webtransport_h2_go.Flow.{
  reserve_send_data, alloc_local_stream, open_refused, charge_open, ensure_stream_send_limit,
  count_opened, initial_stream_send_limit, refund_send_data,
}
use webtransport_h2_go.Session.State.{Session, Stream}
use webtransport_h2_go.Session.Send.{after_write, sender, write, write_reserved, close_send}
use webtransport_h2_go.StreamId.{next_stream_id, is_bidirectional_stream, is_our_stream}
use webtransport_h2_go.Session.Close.{flush, write_capsule}
use webtransport_h2_go.Session.Receive.{receiver}
use webtransport_h2_go.Session.Streams.{
  from_context, open_stream, opened, add_stream, new_stream, new_send_stream, new_receive_stream,
}
use webtransport_h2_go.Echo.{echo_bidi, send_and_close}
use webtransport_h2_go.Echo.Client.{
  reads, with_stream, mismatch, EchoError, run_client, mode_bidi, mode_datagram, Waits,
}
use webtransport_h2_go.Echo.Streams.{echo_bidi_whole}
use webtransport_h2_go.Echo.Results.{bidi_echoed, datagram_echoed}
use webtransport_h2_go.Examples.Varint.{rfc_9000, encoding}
use webtransport_h2_go.Examples.Sessions.{Log, keeping, server}

abbrev finished : Session Log
finished = record server {
  receive_heap = record {
    next = 1;
    cell = λ a. record {
      id = 0;
      closed = false;
      recv_buffer = record { bytes = 7 ∷ 8 ∷ 9 ∷ []; closed = true; max_bytes = pos 65536 };
    };
  };
}

abbrev stream_0 : Stream
stream_0 = record { id = 0; receive = 0; send = 0 }

echo_bidi_whole_example :
    (t : Session Log) × (echo_bidi keeping rfc_9000 4 (λ n. 1) stream_0 finished ≡ some (t, none))
    × (t.writer ≡ (Capsule.wt_stream_fin, 0 ∷ []) ∷ (Capsule.wt_stream, 0 ∷ 7 ∷ 8 ∷ 9 ∷ []) ∷ [])
    × ((sender 0 t).closed ≡ true)
    × ((receiver 0 t).closed ≡ true)
unfolding encoding reserve_send_data get lookup
echo_bidi_whole_example =
    echo_bidi_whole keeping rfc_9000 4 (λ n. 1) stream_0 finished refl (omega arith) refl refl refl
      refl

-- The peer answers with one byte and a FIN on every stream.
abbrev answered : List ℕ → Session Log → Session Log
answered p s = record s {
  receive_heap = record s.receive_heap {
    cell = λ a. record {
      id = 0;
      closed = false;
      recv_buffer = record { bytes = p; closed = true; max_bytes = pos 65536 };
    };
  };
}

abbrev replied : Waits Log
replied = record {
  meanwhile = answered (7 ∷ []);
  accepting = from_context;
  ctx_done = true;
  later = answered (7 ∷ []);
  reply = reads 2 (λ n. 0);
}

-- The client's session when it starts to wait, and its stream.
abbrev opened_here : Session Log × Result Stream
opened_here = with_stream keeping rfc_9000 (7 ∷ []) (open_stream server)

abbrev stream_here : Stream
stream_here = elim opened_here.1 [ err e ↦ stream_0 | ok st ↦ st ]

sent_here : opened_here.1 ≡ ok stream_here
unfolding open_stream opened alloc_local_stream open_refused send_and_close write add_stream
    new_stream new_send_stream new_receive_stream write_reserved reserve_send_data charge_open
    ensure_stream_send_limit count_opened next_stream_id initial_stream_send_limit close_send
    refund_send_data lookup get insert flush write_capsule after_write is_bidirectional_stream
    is_our_stream
sent_here = refl

bidi_echoed_example :
    (u : Session Log) × (e : Option EchoError) × (run_client keeping rfc_9000 replied mode_bidi
        (7 ∷ [])
        server
      ≡ some (u, e))
    × ((e ≡ none) ↔ (Path (List ℕ) (7 ∷ []) (7 ∷ [])))
    × ((e ≡ none) ⊎ (e ≡ some (mismatch mode_bidi (7 ∷ []) (7 ∷ []))))
bidi_echoed_example =
    bidi_echoed keeping rfc_9000 replied 2 (λ n. 0) (7 ∷ []) server opened_here.0 stream_here refl
      (ap (λ r. (opened_here.0, r)) sent_here) refl (omega arith)

-- The peer answers with a datagram of another byte, and a second one waits behind it.
abbrev answered_by_datagram : Waits Log
answered_by_datagram = record {
  meanwhile = λ s. record s {
    datagram_buffer = record s.datagram_buffer {
      queue = (8 ∷ []) ∷ (9 ∷ []) ∷ [];
      buffered_bytes = 2;
    };
  };
  accepting = from_context;
  ctx_done = false;
  later = λ s. s;
  reply = reads 2 (λ n. 0);
}

datagram_echoed_example :
    (u : Session Log) × (e : Option EchoError) × (run_client keeping rfc_9000 answered_by_datagram
        mode_datagram
        (7 ∷ [])
        server
      ≡ some (u, e))
    × (u.datagram_buffer.queue ≡ (9 ∷ []) ∷ [])
    × ((e ≡ none) ↔ (Path (List ℕ) (8 ∷ []) (7 ∷ [])))
    × ((e ≡ none) ⊎ (e ≡ some (mismatch mode_datagram (7 ∷ []) (8 ∷ []))))
datagram_echoed_example =
    datagram_echoed keeping rfc_9000 answered_by_datagram (7 ∷ []) (8 ∷ []) ((9 ∷ []) ∷ []) server
      refl refl refl
