-- ===== src/Session/WithinLoop.antt =====
-- The effects of the read loop of session.go stay within the limits.
use webtransport_h2_go.Prelude.{
  ℕ, ◌≤◌, ◌≡◌, refl, sym, subst, arith, Bool, List, [], ◌∷◌, ◌⊎◌, none, some, length, length-append,
  inl, inr,
}
use webtransport_h2_go.Errors.{Result, ok, err}
use webtransport_h2_go.Wire.{Quicvarint}
use webtransport_h2_go.Flow.{Endpoint}
use webtransport_h2_go.Datagram
use webtransport_h2_go.Datagram.Fifo
use webtransport_h2_go.Datagram.Fifo.{IsValid, total_length}
use webtransport_h2_go.Datagram.{DatagramReceiveBuffer, new_datagram_receive_buffer}
use webtransport_h2_go.Buffer
use webtransport_h2_go.Buffer.{StreamReceiveBuffer, new_stream_receive_buffer}
use webtransport_h2_go.Buffer.Fifo.{IsBounded, step-IsBounded, writes, reads, closes}
use webtransport_h2_go.Session.State.{Session, Stream}
use webtransport_h2_go.Session.Close.{
  close, close_datagram_delivery, set_close_err, set_close_reason,
}
use webtransport_h2_go.Session.Receive.{
  receiver, put_receiver, receive_stream_data, finish_receive, read,
}
use webtransport_h2_go.Session.Streams.{
  new_stream, new_receive_stream, new_send_stream, add_stream, opened, EnqueueCase,
  enqueue_incoming_stream, enqueue_incoming_uni_stream,
}
use webtransport_h2_go.Session.ReadLoop.{deliver_datagram}
use webtransport_h2_go.Session.Registry.{close-Aside}
use webtransport_h2_go.Session.Keeps.{Keeps}
use webtransport_h2_go.Session.Within.{
  IsCap, IsSmall, IsSmallQueue, step-IsSmallQueue, IsWithin, leaves, put-IsWithin, choose_first,
  put_buffer-IsSmall, write-limit, read-limit, leave, new-IsWithin, route-IsWithin,
}

module _ {W : Type 0} where
  close_beside :
      (s : Session W)
      → ((close s).stream_receive_buffer_size ≡ s.stream_receive_buffer_size)
        × ((close s).incoming_streams ≡ s.incoming_streams)
        × ((close s).incoming_unidirectional_streams ≡ s.incoming_unidirectional_streams)
  unfolding close close_datagram_delivery
  close_beside s = (ground arith, ground arith, ground arith)

  queued :
      (c : EnqueueCase) (st : Stream) (s t : Session W) (b : Bool)
      → enqueue_incoming_stream c st s ≡ some (t, b)
      → length s.incoming_streams ≤ 16
      → (length t.incoming_streams ≤ 16)
        × (t.stream_receive_buffer_size ≡ s.stream_receive_buffer_size)
        × (t.incoming_unidirectional_streams ≡ s.incoming_unidirectional_streams)
        × (t.receive_heap ≡ s.receive_heap)
        × (t.datagram_buffer ≡ s.datagram_buffer)
  unfolding enqueue_incoming_stream
  queued c st s t b e i =
      let more = length-append s.incoming_streams (st ∷ []) in
      (
        ground (arith, e, more),
        ground (arith, e),
        ground (arith, e),
        ground (arith, e),
        ground (arith, e),
      )

  queued_uni :
      (c : EnqueueCase) (a : ℕ) (s t : Session W) (b : Bool)
      → enqueue_incoming_uni_stream c a s ≡ some (t, b)
      → length s.incoming_unidirectional_streams ≤ 16
      → (length t.incoming_unidirectional_streams ≤ 16)
        × (t.stream_receive_buffer_size ≡ s.stream_receive_buffer_size)
        × (t.incoming_streams ≡ s.incoming_streams)
        × (t.receive_heap ≡ s.receive_heap)
        × (t.datagram_buffer ≡ s.datagram_buffer)
  unfolding enqueue_incoming_uni_stream
  queued_uni c a s t b e i =
      let more = length-append s.incoming_unidirectional_streams (a ∷ []) in
      (
        ground (arith, e, more),
        ground (arith, e),
        ground (arith, e),
        ground (arith, e),
        ground (arith, e),
      )

  closed_queue :
      (s : Session W)
      → ((close s).datagram_buffer ≡ s.datagram_buffer)
        ⊎ ((close s).datagram_buffer ≡ Datagram.close s.datagram_buffer)
  unfolding close close_datagram_delivery
  closed_queue s = ground arith

module _ {W : Type 0} {B : ℕ} where
  -- A half is written back with another buffer.
  put_buffer :
      (a : ℕ) (b : StreamReceiveBuffer) (s : Session W)
      → b.max_bytes ≡ (receiver a s).recv_buffer.max_bytes
      → IsBounded b
      → IsWithin B s
      → IsWithin B (put_receiver a (record (receiver a s) { recv_buffer = b }) s)
  put_buffer a b s e f i =
      put-IsWithin a _ s (put_buffer-IsSmall (receiver a s) b e f (i.halves a)) i

  push-IsWithin :
      (c : EnqueueCase) (st : Stream) (s t : Session W) (b : Bool)
      → enqueue_incoming_stream c st s ≡ some (t, b)
      → IsWithin B s
      → IsWithin B t
  push-IsWithin c st s t b e i =
      let f = queued c st s t b e i.streams in
      record {
        size = subst (IsCap B) (sym f.1) i.size;
        streams = f.0;
        unis = rw f.2 i.unis;
        halves = λ a. subst (λ h. IsSmall B (h.cell a)) (sym f.3) (i.halves a);
        datagrams = subst IsSmallQueue (sym f.4) i.datagrams;
      }

  push_uni-IsWithin :
      (c : EnqueueCase) (a : ℕ) (s t : Session W) (b : Bool)
      → enqueue_incoming_uni_stream c a s ≡ some (t, b)
      → IsWithin B s
      → IsWithin B t
  push_uni-IsWithin c a s t b e i =
      let f = queued_uni c a s t b e i.unis in
      record {
        size = subst (IsCap B) (sym f.1) i.size;
        streams = rw f.2 i.streams;
        unis = f.0;
        halves = λ x. subst (λ h. IsSmall B (h.cell x)) (sym f.3) (i.halves x);
        datagrams = subst IsSmallQueue (sym f.4) i.datagrams;
      }

  pub close-IsWithin : (s : Session W) → IsWithin B s → IsWithin B (close s)
  close-IsWithin s i =
      let a = close-Aside s in
      let b = close_beside s in
      record {
        size = subst (IsCap B) (sym b.0) i.size;
        streams = rw b.1 i.streams;
        unis = rw b.2 i.unis;
        halves = λ x. subst (λ h. IsSmall B (h.cell x)) (sym a.heap) (i.halves x);
        datagrams = elim (closed_queue s) [
          | inl e ↦ subst IsSmallQueue (sym e) i.datagrams
          | inr e ↦
              subst IsSmallQueue (sym e)
                (step-IsSmallQueue Datagram.Fifo.closes s.datagram_buffer i.datagrams)
        ];
      }

  receive-IsWithin :
      (a : ℕ) (p : List ℕ) (s : Session W) → IsWithin B s → IsWithin B (receive_stream_data a p s).0
  unfolding receive_stream_data
  receive-IsWithin a p s i =
      let b = (receiver a s).recv_buffer in
      choose_first (receiver a s).closed (s, none) _ i
        (put_buffer a (Buffer.write p b).0 s (write-limit p b)
          (step-IsBounded (writes p) b (i.halves a).fits) i)

  finish-IsWithin : (a : ℕ) (s : Session W) → IsWithin B s → IsWithin B (finish_receive a s)
  unfolding finish_receive
  finish-IsWithin a s i =
      let b = (receiver a s).recv_buffer in
      put_buffer a (Buffer.close b) s (unfold Buffer.close in refl)
        (step-IsBounded closes b (i.halves a).fits) i

  pub read-IsWithin : (a n : ℕ) (s : Session W) → IsWithin B s → IsWithin B (read a n s).0
  unfolding read
  read-IsWithin a n s i =
      let b = (receiver a s).recv_buffer in
      put_buffer a (Buffer.read n b).0 s (read-limit n b)
        (step-IsBounded (reads n) b (i.halves a).fits) i

  pub open_stream-IsWithin :
      (r : Endpoint × Result ℕ) (s : Session W)
      → IsWithin B s
      → IsWithin B (opened s add_stream r).0
  unfolding opened add_stream new_stream new_send_stream
  open_stream-IsWithin (e, err x) s i =
      leave s (record s { endpoint = e }) refl refl refl refl refl i
  open_stream-IsWithin (e, ok id) s i =
      let u : Session W = record s { endpoint = e } in
      leave (new_receive_stream id u).0 _ refl refl refl refl refl
        (new-IsWithin id u (leave s u refl refl refl refl refl i))

  pub loop_keeps-IsWithin : (q : Quicvarint) → Keeps q (IsWithin {W = W} B)
  unfolding set_close_err set_close_reason deliver_datagram
  loop_keeps-IsWithin q = record {
    moves = λ l s. leave s _ refl refl refl refl refl;
    closes = close-IsWithin;
    errs = λ e s. leaves s _ (ground arith);
    reasons = λ r s. leaves s _ (ground arith);
    routes = route-IsWithin;
    buffers = λ p s i. record {
      size = i.size;
      streams = i.streams;
      unis = i.unis;
      halves = i.halves;
      datagrams = step-IsSmallQueue (Datagram.Fifo.writes p) s.datagram_buffer i.datagrams;
    };
    limits = λ typ c s. leave s _ refl refl refl refl refl;
    queues = push-IsWithin;
    queues_uni = push_uni-IsWithin;
    receives = receive-IsWithin;
    finishes = finish-IsWithin;
    forgets = λ id s. leave s _ refl refl refl refl refl;
  }
