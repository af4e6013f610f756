-- ===== src/Session/Streams.antt =====
-- Opening and accepting streams, and the read loop's hand-over of streams that the peer opened.
use webtransport_h2_go.Prelude.{
  ℕ, Bool, true, false, List, [], ◌∷◌, ◌++◌, Option, none, some, length, ltb, if◌then◌else◌, insert,
  alloc,
}
use webtransport_h2_go.Errors.{Result, ok, err, session_closed, context_done}
use webtransport_h2_go.Buffer.{new_stream_receive_buffer}
use webtransport_h2_go.Flow.{Endpoint, alloc_local_stream}
use webtransport_h2_go.Session.State.{Session, Stream, channel_capacity}

module _ {W : Type 0} where
  -- `newReceiveStream`: the address is that of the last object of the heap.
  unfoldable pub new_receive_stream : ℕ → Session W → Session W × ℕ
  new_receive_stream id s = (
    record s {
      receive_heap =
          alloc
            (record {
              id = id;
              closed = false;
              recv_buffer = new_stream_receive_buffer s.stream_receive_buffer_size;
            })
            s.receive_heap;
    },
    s.receive_heap.next,
  )

  unfoldable pub new_send_stream : ℕ → Session W → Session W × ℕ
  new_send_stream id s = (
    record s { send_heap = alloc (record { id = id; closed = false }) s.send_heap },
    s.send_heap.next,
  )

  unfoldable pub new_stream : ℕ → Session W → Session W × Stream
  new_stream id s =
      let (t, receive) = new_receive_stream id s in
      let (u, send) = new_send_stream id t in
      (u, record { id = id; receive = receive; send = send })

  -- The part of `OpenStream` behind a successful allocation.
  unfoldable pub add_stream : ℕ → Session W → Session W × Stream
  add_stream id s =
      let (t, st) = new_stream id s in (record t { streams = insert id st t.streams }, st)

  unfoldable pub add_send_stream : ℕ → Session W → Session W × ℕ
  add_send_stream id s =
      let (t, a) = new_send_stream id s in
      (record t { send_streams = insert id a t.send_streams }, a)

  unfoldable pub opened {ℓ} :
      {A : Type ℓ}
      → Session W
      → (ℕ → Session W → Session W × A)
      → Endpoint × Result ℕ
      → Session W × Result A
  opened s add (e, err x) = (record s { endpoint = e }, err x)
  opened s add (e, ok id) = let (t, a) = add id (record s { endpoint = e }) in (t, ok a)

  unfoldable pub open_stream : Session W → Session W × Result Stream
  open_stream s =
      if s.stop
      then (s, err session_closed)
      else opened s add_stream (alloc_local_stream true s.endpoint)

  -- The stream is the send half at the address.
  unfoldable pub open_unidirectional_stream : Session W → Session W × Result ℕ
  open_unidirectional_stream s =
      if s.stop
      then (s, err session_closed)
      else opened s add_send_stream (alloc_local_stream false s.endpoint)

-- A `select` takes one of the cases that are ready, at random. `none`: this case is not ready.
pub data AcceptCase : Type 0 where
  from_channel from_done from_context : AcceptCase

pub data EnqueueCase : Type 0 where
  to_channel from_done : EnqueueCase

module _ {W : Type 0} where
  abbrev pub take_stream : List Stream → Session W → Option (Session W × Result Stream)
  take_stream [] s = none
  take_stream (st ∷ rest) s = some (record s { incoming_streams = rest }, ok st)

  unfoldable pub accept_stream : AcceptCase → Bool → Session W → Option (Session W × Result Stream)
  accept_stream from_channel ctx_done s = take_stream s.incoming_streams s
  accept_stream AcceptCase.from_done ctx_done s =
      if s.done then some (s, err session_closed) else none
  accept_stream from_context ctx_done s = if ctx_done then some (s, err context_done) else none

  abbrev take_uni : List ℕ → Session W → Option (Session W × Result ℕ)
  take_uni [] s = none
  take_uni (a ∷ rest) s = some (record s { incoming_unidirectional_streams = rest }, ok a)

  unfoldable pub accept_unidirectional_stream :
      AcceptCase → Bool → Session W → Option (Session W × Result ℕ)
  accept_unidirectional_stream from_channel ctx_done s =
      take_uni s.incoming_unidirectional_streams s
  accept_unidirectional_stream AcceptCase.from_done ctx_done s =
      if s.done then some (s, err session_closed) else none
  accept_unidirectional_stream from_context ctx_done s =
      if ctx_done then some (s, err context_done) else none

  -- `enqueueIncomingStream`: the Boolean is its result.
  unfoldable pub enqueue_incoming_stream :
      EnqueueCase → Stream → Session W → Option (Session W × Bool)
  enqueue_incoming_stream to_channel st s =
      if ltb (length s.incoming_streams) channel_capacity
      then some (record s { incoming_streams = s.incoming_streams ++ st ∷ [] }, true)
      else none
  enqueue_incoming_stream EnqueueCase.from_done st s = if s.done then some (s, false) else none

  unfoldable pub enqueue_incoming_uni_stream :
      EnqueueCase → ℕ → Session W → Option (Session W × Bool)
  enqueue_incoming_uni_stream to_channel a s =
      if ltb (length s.incoming_unidirectional_streams) channel_capacity
      then some (
        record s { incoming_unidirectional_streams = s.incoming_unidirectional_streams ++ a ∷ [] },
        true,
      )
      else none
  enqueue_incoming_uni_stream EnqueueCase.from_done a s = if s.done then some (s, false) else none
