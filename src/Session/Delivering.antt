-- ===== src/Session/Delivering.antt =====
-- WT_STREAM and WT_STREAM_FIN capsules for streams that the session knows, and for its own IDs.
use webtransport_h2_go.Prelude.{
  ℕ, ◌+◌, ◌^◌, ◌<◌, ◌≡◌, ◌≢◌, ◌⊎◌, refl, ◌∙◌, Bool, true, false, List, [], ◌++◌, none, some, length,
  if◌then◌else◌, arith, lookup, delete,
}
use webtransport_h2_go.Wire.{Quicvarint, IsQuicvarint, read_all}
use webtransport_h2_go.Capsule
use webtransport_h2_go.Buffer.{StreamReceiveBuffer, exceeds}
use webtransport_h2_go.Buffer
use webtransport_h2_go.StreamId.{is_bidirectional_stream, is_our_stream}
use webtransport_h2_go.Session.State.{Session, Stream, Delivery, at_top, delivering}
use webtransport_h2_go.Session.Receive.{receiver, put_receiver, receive_stream_data, finish_receive}
use webtransport_h2_go.Session.ReadLoop.{
  Inbound, capsule, exit, go_to, with_value, route_bidi, route_uni, route, handle_stream,
  handle_capsule, parsed, after_receive, deliver,
}

-- The capsule that a peer's `Write` and `Close` send.
abbrev pub stream_type : Bool → ℕ
stream_type fin = if fin then Capsule.wt_stream_fin else Capsule.wt_stream

abbrev pub stream_capsule : Quicvarint → Bool → ℕ → List ℕ → Inbound
stream_capsule q fin id payload =
    capsule (stream_type fin) (record { bytes = q.append [] id ++ payload; fault = none })

abbrev pub delivery : ℕ → ℕ → List ℕ → Bool → Bool → Delivery
delivery target id payload fin forget = record {
  target = target;
  id = id;
  payload = payload;
  fin = fin;
  forget = forget;
}

module _ {W : Type 0} where
  pub parsed-route :
      (q : Quicvarint) (fin : Bool) (id : ℕ) (payload : List ℕ) (s : Session W)
      → IsQuicvarint q
      → id < 2 ^ 62
      → parsed q (stream_capsule q fin id payload) s ≡ route id fin payload s
  unfolding parsed handle_capsule handle_stream with_value read_all
  parsed-route q true id payload s w h = rw (w.read-append id payload none h, handle_stream) refl
  parsed-route q false id payload s w h = rw (w.read-append id payload none h, handle_stream) refl

  -- The object that a capsule for `id` is for.
  pub route-known :
      (fin : Bool) (id : ℕ) (payload : List ℕ) (s : Session W)
      → ((st : Stream)
          → is_bidirectional_stream id ≡ true
          → lookup id s.streams ≡ some st
          → route id fin payload s
            ≡ go_to (delivering (delivery st.receive id payload fin false)) s)
        × ((a : ℕ)
            → is_bidirectional_stream id ≡ false
            → lookup id s.receive_streams ≡ some a
            → route id fin payload s ≡ go_to (delivering (delivery a id payload fin true)) s)
  unfolding route route_bidi route_uni
  route-known fin id payload s = (λ st b h. ground (arith, b, h), λ a b h. ground (arith, b, h))

  -- A peer cannot write to a stream of ours that is not open in its direction: what it sends on one of
  -- our IDs that is not among the streams is dropped, and nothing changes.
  own_id_ignored :
      (q : Quicvarint) (fin : Bool) (id : ℕ) (payload : List ℕ) (s : Session W)
      → IsQuicvarint q
      → id < 2 ^ 62
      → is_our_stream s.endpoint.is_server id ≡ true
      → lookup id s.streams ≡ none
      → lookup id s.receive_streams ≡ none
      → parsed q (stream_capsule q fin id payload) s ≡ go_to at_top s
  own_id_ignored q fin id payload s w h own m n =
      parsed-route q fin id payload s w h
      ∙ (unfold route route_bidi route_uni in ground (arith, own, m, n))

  -- A delivery to an open half with room: the bytes go behind those already there, a FIN closes the
  -- buffer and makes the session forget a unidirectional ID, the loop goes on, and no other stream is
  -- touched.
  pub deliver_open :
      (d : Delivery) (s : Session W)
      → (receiver d.target s).closed ≡ false
      → (receiver d.target s).recv_buffer.closed ≡ false
      → exceeds
          (receiver d.target s).recv_buffer.max_bytes
          (length (receiver d.target s).recv_buffer.bytes + length d.payload)
        ≡ false
      → ((deliver d s).loop ≡ at_top)
        × ((receiver d.target (deliver d s)).recv_buffer
            ≡ record (receiver d.target s).recv_buffer {
              bytes = (receiver d.target s).recv_buffer.bytes ++ d.payload;
              closed = d.fin;
            })
        × ((b : ℕ) → b ≢ d.target → receiver b (deliver d s) ≡ receiver b s)
        × ((deliver d s).receive_streams ≡ (
            if d.fin
            then if d.forget then delete d.id s.receive_streams else s.receive_streams
            else s.receive_streams))
  unfolding deliver receive_stream_data after_receive finish_receive Buffer.write Buffer.close
  deliver_open d s c k room = (
    ground (arith, c, k, room),
    ground (arith, c, k, room),
    λ b n. ground (arith, c, k, room),
    ground (arith, c, k, room),
  )

  -- Data for a half that the application closed is dropped.
  pub deliver_closed :
      (d : Delivery) (s : Session W)
      → (receiver d.target s).closed ≡ true
      → d.fin ≡ false
      → deliver d s ≡ go_to at_top s
  unfolding deliver receive_stream_data after_receive
  deliver_closed d s c f = ground arith

  -- Data behind a FIN, and data for which an open half has no room, end the session.
  pub deliver_refused :
      (d : Delivery) (s : Session W)
      → (receiver d.target s).closed ≡ false
      → ((receiver d.target s).recv_buffer.closed ≡ true)
        ⊎ (exceeds
              (receiver d.target s).recv_buffer.max_bytes
              (length (receiver d.target s).recv_buffer.bytes + length d.payload)
            ≡ true)
      → (t : Session W) × (deliver d s ≡ exit t) × ((b : ℕ) → receiver b t ≡ receiver b s)
  unfolding deliver receive_stream_data after_receive Buffer.write
  deliver_refused d s c h =
      (put_receiver d.target (receiver d.target s) s, ground arith, λ b. ground arith)
