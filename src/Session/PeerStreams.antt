-- ===== src/Session/PeerStreams.antt =====
-- Streams that the peer opens: how they come about, wait to be handed over, and are accepted.
use webtransport_h2_go.Prelude.{
  ℕ, ◌+◌, ◌≤◌, ◌≡◌, ◌↔◌, Bool, true, false, List, none, length, arith, ==_refl, lookup, insert,
}
use webtransport_h2_go.Buffer.{new_stream_receive_buffer}
use webtransport_h2_go.StreamId.{is_bidirectional_stream, is_our_stream}
use webtransport_h2_go.Flow.{track_send_stream}
use webtransport_h2_go.Session.State.{
  Session, Stream, Delivery, enqueuing_stream, enqueuing_uni, channel_capacity,
}
use webtransport_h2_go.Session.Receive.{receiver}
use webtransport_h2_go.Session.Send.{sender}
use webtransport_h2_go.Session.Streams.{
  new_stream, new_receive_stream, new_send_stream, EnqueueCase, to_channel, enqueue_incoming_stream,
}
use webtransport_h2_go.Session.ReadLoop.{route, route_bidi, route_uni, enqueue}
use webtransport_h2_go.Session.Delivering.{delivery}

module _ {W : Type 0} (id : ℕ) (payload : List ℕ) (fin : Bool) (s : Session W) where
  abbrev pub new_bidi : Stream
  new_bidi = record { id = id; receive = s.receive_heap.next; send = s.send_heap.next }

  -- A capsule for an unknown bidirectional ID of the peer makes one stream with that ID, both halves
  -- new, open and empty, enters it among the streams, gives it a send limit, and goes on to hand it over.
  route-new_bidi :
      is_bidirectional_stream id ≡ true
      → is_our_stream s.endpoint.is_server id ≡ false
      → lookup id s.streams ≡ none
      → let t = route id fin payload s in
        (t.loop ≡ enqueuing_stream new_bidi (delivery new_bidi.receive id payload fin false))
        × (t.streams ≡ insert id new_bidi s.streams)
        × (t.endpoint ≡ track_send_stream id s.endpoint)
        × (receiver new_bidi.receive t ≡ record {
          id = id;
          closed = false;
          recv_buffer = new_stream_receive_buffer s.stream_receive_buffer_size;
        })
        × (sender new_bidi.send t ≡ record { id = id; closed = false })
        × (t.incoming_streams ≡ s.incoming_streams)
  unfolding route route_bidi new_stream new_receive_stream new_send_stream
  route-new_bidi b o n = (
    ground (arith, b, o, n),
    ground (arith, b, o, n),
    ground (arith, b, o, n),
    ground (arith, b, o, n, ==_refl s.receive_heap.next),
    ground (arith, b, o, n, ==_refl s.send_heap.next),
    ground (arith, b, o, n),
  )

  -- The same for a unidirectional ID: a receive half only.
  pub route-new_uni :
      is_bidirectional_stream id ≡ false
      → is_our_stream s.endpoint.is_server id ≡ false
      → lookup id s.receive_streams ≡ none
      → let t = route id fin payload s in
        let a = s.receive_heap.next in
        (t.loop ≡ enqueuing_uni a (delivery a id payload fin true))
        × (t.receive_streams ≡ insert id a s.receive_streams)
        × (receiver a t ≡ record {
          id = id;
          closed = false;
          recv_buffer = new_stream_receive_buffer s.stream_receive_buffer_size;
        })
        × (t.receive_heap.next ≡ a + 1)
        × (t.incoming_unidirectional_streams ≡ s.incoming_unidirectional_streams)
  unfolding route route_uni new_receive_stream
  route-new_uni b o n = (
    ground (arith, b, o, n),
    ground (arith, b, o, n),
    ground (arith, b, o, n, ==_refl s.receive_heap.next),
    ground (arith, b, o, n),
    ground (arith, b, o, n),
  )

module _ {W : Type 0} (s : Session W) where
  -- With a stream to hand over, the loop waits exactly while the channel holds 16 streams and the session
  -- is not done.
  enqueue_waits_iff :
      (st : Stream) (d : Delivery)
      → s.loop ≡ enqueuing_stream st d
      → ((c : EnqueueCase) → enqueue c s ≡ none)
        ↔ ((channel_capacity ≤ length s.incoming_streams) × (s.done ≡ false))
  unfolding enqueue enqueue_incoming_stream
  enqueue_waits_iff st d e =
      (λ h. ground (arith, e, h to_channel, h EnqueueCase.from_done), λ h c. waits h c)
    where
      waits :
          (channel_capacity ≤ length s.incoming_streams) × (s.done ≡ false)
          → (c : EnqueueCase) → enqueue c s ≡ none
      waits h to_channel = ground (arith, e, h)
      waits h EnqueueCase.from_done = ground (arith, e, h)
