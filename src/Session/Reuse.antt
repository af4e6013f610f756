-- ===== src/Session/Reuse.antt =====
-- session.go: a WT_STREAM capsule for a unidirectional ID whose stream has ended.
use webtransport_h2_go.Prelude.{
  ℕ, ◌+◌, ◌^◌, ◌<◌, ◌≡◌, refl, sym, subst, ap, ◌∙◌, Bool, true, false, List, [], none, some, length,
  arith, lookup, delete, lookup-delete, lookup-insert, ==_refl,
}
use webtransport_h2_go.Wire.{Quicvarint, IsQuicvarint}
use webtransport_h2_go.Buffer.{exceeds, new_stream_receive_buffer}
use webtransport_h2_go.Buffer
use webtransport_h2_go.StreamId.{is_bidirectional_stream, is_our_stream}
use webtransport_h2_go.Session.State.{Session, Delivery, enqueuing_uni}
use webtransport_h2_go.Session.Receive.{receiver, receive_stream_data, finish_receive}
use webtransport_h2_go.Session.ReadLoop.{parsed, deliver, after_receive}
use webtransport_h2_go.Session.Delivering.{delivery, stream_capsule, parsed-route}
use webtransport_h2_go.Session.PeerStreams.{route-new_uni}

module _ {W : Type 0} where
  -- What the delivery of a FIN on a unidirectional stream leaves to the next capsule.
  ended_stream :
      (d : Delivery) (s : Session W)
      → (receiver d.target s).closed ≡ false
      → (receiver d.target s).recv_buffer.closed ≡ false
      → exceeds
          (receiver d.target s).recv_buffer.max_bytes
          (length (receiver d.target s).recv_buffer.bytes + length d.payload)
        ≡ false
      → d.fin ≡ true
      → d.forget ≡ true
      → ((deliver d s).receive_streams ≡ delete d.id s.receive_streams)
        × ((deliver d s).receive_heap.next ≡ s.receive_heap.next)
        × ((deliver d s).endpoint ≡ s.endpoint)
  unfolding deliver receive_stream_data after_receive finish_receive Buffer.write Buffer.close
  ended_stream d s c k room f g = (
    ground (arith, c, k, room, f, g),
    ground (arith, c, k, room, f, g),
    ground (arith, c, k, room, f, g),
  )

  -- The session `u` hands over an empty stream at `a` with the ID `id`, and the bytes behind it.
  abbrev pub Begins : ℕ → List ℕ → Bool → Session W → ℕ → Type 0
  Begins id payload fin u a =
      (u.loop ≡ enqueuing_uni a (delivery a id payload fin true))
      × (lookup id u.receive_streams ≡ some a)
      × ((receiver a u).id ≡ id)
      × ((receiver a u).recv_buffer.bytes ≡ [])

  begins :
      (q : Quicvarint) (id : ℕ) (t : Session W) (fin : Bool) (payload : List ℕ)
      → IsQuicvarint q
      → id < 2 ^ 62
      → is_bidirectional_stream id ≡ false
      → is_our_stream t.endpoint.is_server id ≡ false
      → lookup id t.receive_streams ≡ none
      → Begins id payload fin (parsed q (stream_capsule q fin id payload) t) t.receive_heap.next
  unfolding new_stream_receive_buffer
  begins q id t fin payload w h b o m =
      let (l, r, v, x, y) = route-new_uni id payload fin t b o m in
      subst (λ u. Begins id payload fin u t.receive_heap.next)
        (sym (parsed-route q fin id payload t w h))
        (
          l,
          ap (lookup id) r
              ∙ lookup-insert id id t.receive_heap.next t.receive_streams
              ∙ rw (==_refl id) refl,
          ap (λ c. c.id) v,
          ap (λ c. c.recv_buffer.bytes) v,
        )

  -- The FIN of a peer's unidirectional stream is delivered to its half, which is open and has room. Then a
  -- capsule for the same ID is not refused: it makes a second stream with this ID, which the session
  -- enters under the ID and hands over to the application like a new one.
  pub fin_then_again :
      (q : Quicvarint) (d : Delivery) (s : Session W) (fin : Bool) (payload : List ℕ)
      → IsQuicvarint q
      → d.id < 2 ^ 62
      → is_bidirectional_stream d.id ≡ false
      → is_our_stream s.endpoint.is_server d.id ≡ false
      → (receiver d.target s).closed ≡ false
      → (receiver d.target s).recv_buffer.closed ≡ false
      → exceeds
          (receiver d.target s).recv_buffer.max_bytes
          (length (receiver d.target s).recv_buffer.bytes + length d.payload)
        ≡ false
      → d.fin ≡ true
      → d.forget ≡ true
      → Begins d.id payload fin
          (parsed q (stream_capsule q fin d.id payload) (deliver d s))
          s.receive_heap.next
  fin_then_again q d s fin payload w h b o c k room f g =
      let t = deliver d s in
      let (m, n, e) = ended_stream d s c k room f g in
      subst (λ a. Begins d.id payload fin (parsed q (stream_capsule q fin d.id payload) t) a) n
        (begins q d.id t fin payload w h b (ap (λ p. is_our_stream p.is_server d.id) e ∙ o)
          (ap (lookup d.id) m ∙ lookup-delete d.id d.id s.receive_streams ∙ rw (==_refl d.id) refl))
