-- ===== src/Session/Routing.antt =====
-- Each step of the read loop of session.go keeps payloads on the way to the stream that they are for.
use mathlib.Core.Option
use webtransport_h2_go.Prelude.{
  ℕ, ◌≡◌, refl, sym, subst, arith, Bool, true, false, List, Option, none, some, lookup, delete,
  if◌then◌else◌, Bool-cases, Option-cases, inl, inr, alloc, not,
}
use webtransport_h2_go.Errors.{Error, flow_control_error, is_clean_connect_teardown}
use webtransport_h2_go.Wire.{Quicvarint, Content}
use webtransport_h2_go.Flow.{Endpoint}
use webtransport_h2_go.Session.State.{
  Session, Stream, Delivery, ReceiveStream, ReadLoop, at_top, parsing, exited, enqueuing_stream,
  enqueuing_uni, delivering, CloseReason,
}
use webtransport_h2_go.Session.Close.{set_close_err, set_close_reason, parse_wt_close_session}
use webtransport_h2_go.Session.Receive.{
  receiver, read, close_receive, receive_stream_data, finish_receive, put_receiver,
}
use webtransport_h2_go.Session.Streams.{
  new_stream, new_receive_stream, new_send_stream, EnqueueCase, enqueue_incoming_stream,
  enqueue_incoming_uni_stream,
}
use webtransport_h2_go.Session.ReadLoop.{
  Inbound, capsule, broken, go_to, check_stop, fail_read, fail_parse, with_value, route_bidi,
  route_uni, route, handle_stream, deliver_datagram, handle_close, after_limit, handle_capsule,
  parsed, after_enqueue, enqueue, after_receive, deliver,
}
use webtransport_h2_go.Errors.{Result-cases}
use webtransport_h2_go.Wire.{read_all}
use webtransport_h2_go.StreamId.{is_bidirectional_stream, is_our_stream}
use webtransport_h2_go.Session.Registry.{
  IsAt, IsBound, IsSound, Aside, Grown-IsRouted, store-Grown, alloc-Grown, alloc-IsAt, insert-bidi,
  insert-uni, delete-uni, some-inj, go_to-IsRouted, Aside-IsSound, exit-IsSound, set_err-Aside,
  set_reason-Aside,
}

module _ {W : Type 0} where
  choose : (b : Bool) {x y : Session W} → IsSound x → IsSound y → IsSound (if b then x else y)
  choose true p r = p
  choose false p r = r

  fail_read-IsSound : (e : Error) (s : Session W) → IsSound s → IsSound (fail_read e s)
  unfolding fail_read
  fail_read-IsSound e s c = elim (Bool-cases (is_clean_connect_teardown e)) [
    | inl y ↦ rw y (exit-IsSound _ (Aside-IsSound s _ (set_reason-Aside _ s) c))
    | inr n ↦ rw n (exit-IsSound s c)
  ]

  with_value-IsSound :
      (content : Content) (f : List ℕ → Session W → Session W) (s : Session W)
      → IsSound s
      → ((p : List ℕ) → IsSound (f p s))
      → IsSound (with_value content f s)
  unfolding with_value
  with_value-IsSound content f s c k = elim (Result-cases (read_all content)) [
    | inl (p, e) ↦ rw (e, with_value) (k p)
    | inr (x, e) ↦ rw (e, with_value) (fail_read-IsSound x s c)
  ]

  move : (l : ReadLoop) (s : Session W) → IsBound s.receive_heap l → IsSound s → IsSound (go_to l s)
  move l s b c = record { routed = go_to-IsRouted _ _ _ s.loop l b c.routed }

  route_bidi-IsSound :
      (id : ℕ) (p : List ℕ) (fin : Bool) (s : Session W)
      → IsSound s
      → IsSound (route_bidi id p fin s)
  unfolding route_bidi new_stream new_receive_stream new_send_stream
  route_bidi-IsSound id p fin s c = elim (Option-cases (lookup id s.streams)) [
    | inr (st, e) ↦ rw (e, route_bidi) (move _ s (c.routed.of_bidi id st e) c)
    | inl e ↦ elim (Bool-cases (is_our_stream s.endpoint.is_server id)) [
      | inl y ↦ rw (e, route_bidi, y) (move at_top s tt c)
      | inr n ↦
          rw (e, route_bidi, n)
            (record {
              routed =
                  let k = alloc _ s.receive_heap in
                  let r =
                    Grown-IsRouted s.receive_heap k s.receive_streams s.streams s.loop
                      (alloc-Grown s.receive_heap _) c.routed in
                  let i = alloc-IsAt s.receive_heap _ in
                  go_to-IsRouted k _ _ s.loop _ i
                    (insert-bidi k s.receive_streams s.streams s.loop id _ i r);
            })
    ]
  ]

  route_uni-IsSound :
      (id : ℕ) (p : List ℕ) (fin : Bool) (s : Session W)
      → IsSound s
      → IsSound (route_uni id p fin s)
  unfolding route_uni new_receive_stream
  route_uni-IsSound id p fin s c = elim (Option-cases (lookup id s.receive_streams)) [
    | inr (a, e) ↦ rw (e, route_uni) (move _ s (c.routed.of_uni id a e) c)
    | inl e ↦ elim (Bool-cases (is_our_stream s.endpoint.is_server id)) [
      | inl y ↦ rw (e, route_uni, y) (move at_top s tt c)
      | inr n ↦
          rw (e, route_uni, n)
            (record {
              routed =
                  let k = alloc _ s.receive_heap in
                  let r =
                    Grown-IsRouted s.receive_heap k s.receive_streams s.streams s.loop
                      (alloc-Grown s.receive_heap _) c.routed in
                  let i = alloc-IsAt s.receive_heap _ in
                  go_to-IsRouted k _ _ s.loop _ i
                    (insert-uni k s.receive_streams s.streams s.loop id _ i r);
            })
    ]
  ]

  route-IsSound :
      (id : ℕ) (fin : Bool) (p : List ℕ) (s : Session W) → IsSound s → IsSound (route id fin p s)
  unfolding route
  route-IsSound id fin p s c =
      choose (is_bidirectional_stream id) (route_bidi-IsSound id p fin s c)
        (route_uni-IsSound id p fin s c)

  handle_stream-IsSound :
      (q : Quicvarint) (fin : Bool) (content : Content) (s : Session W)
      → IsSound s
      → IsSound (handle_stream q fin content s)
  unfolding handle_stream
  handle_stream-IsSound q fin content s c = elim (Result-cases (q.read content)) [
    | inl ((id, rest), e) ↦
        rw (e, handle_stream)
          (with_value-IsSound rest (route id fin) s c (λ p. route-IsSound id fin p s c))
    | inr (x, e) ↦ rw (e, handle_stream) (exit-IsSound s c)
  ]

  set_err-IsSound : (e : Error) (s : Session W) → IsSound s → IsSound (set_close_err e s)
  set_err-IsSound e s c = Aside-IsSound s _ (set_err-Aside e s) c

  set_reason-IsSound :
      (r : CloseReason) (s : Session W) → IsSound s → IsSound (set_close_reason r s)
  set_reason-IsSound r s c = Aside-IsSound s _ (set_reason-Aside r s) c

  handle_close-IsSound : (p : List ℕ) (s : Session W) → IsSound s → IsSound (handle_close p s)
  unfolding handle_close
  handle_close-IsSound p s c = elim (Result-cases (parse_wt_close_session p)) [
    | inl ((code, message), e) ↦ rw (e, handle_close) (exit-IsSound _ (set_err-IsSound _ s c))
    | inr (x, e) ↦ rw (e, handle_close) (exit-IsSound _ (set_reason-IsSound _ s c))
  ]

  spent : (e : Endpoint) (s : Session W) → IsSound s → IsSound (record s { endpoint = e })
  spent e s c = record { routed = c.routed }

  limit-IsSound :
      (r : Endpoint × Option Error) (s : Session W) → IsSound s → IsSound (after_limit r s)
  unfolding after_limit
  limit-IsSound (e, none) s c = move at_top _ tt (spent e s c)
  limit-IsSound (e, some x) s c = elim (Option-cases (flow_control_error x)) [
    | inr (reason, h) ↦ rw (h, after_limit) (exit-IsSound _ (set_err-IsSound _ _ (spent e s c)))
    | inl h ↦ rw (h, after_limit) (fail_read-IsSound x _ (spent e s c))
  ]

  datagram-IsSound :
      (p : List ℕ) (s : Session W) → IsSound s → IsSound (go_to at_top (deliver_datagram p s))
  unfolding deliver_datagram
  datagram-IsSound p s c = record { routed = go_to-IsRouted _ _ _ s.loop at_top tt c.routed }

  handle_capsule-IsSound :
      (q : Quicvarint) (typ : ℕ) (content : Content) (s : Session W)
      → IsSound s
      → IsSound (handle_capsule q typ content s)
  unfolding handle_capsule
  handle_capsule-IsSound q typ content s c =
      let skip = with_value-IsSound content (λ p. go_to at_top) s c (λ p. move at_top s tt c) in
      choose _ skip (
        choose _ (handle_stream-IsSound q _ content s c) (
          choose _
            (with_value-IsSound content (λ p t. go_to at_top (deliver_datagram p t)) s c
              (λ p. datagram-IsSound p s c))
            (choose _
              (with_value-IsSound content handle_close s c (λ p. handle_close-IsSound p s c))
              (choose _ (move at_top s tt c) (choose _ (limit-IsSound _ s c) skip)))))

  pub parsed-IsSound :
      (q : Quicvarint) (i : Inbound) (s : Session W) → IsSound s → IsSound (parsed q i s)
  unfolding parsed fail_parse
  parsed-IsSound q (capsule typ content) s c = handle_capsule-IsSound q typ content s c
  parsed-IsSound q (broken e) s c = exit-IsSound _ (set_reason-IsSound _ s c)

  pub check_stop-IsSound : (s : Session W) → IsSound s → IsSound (check_stop s)
  unfolding check_stop
  check_stop-IsSound s c = choose s.stop (exit-IsSound s c) (move parsing s tt c)

  -- A half is written back with the ID that it has.
  put-IsSound :
      (a : ℕ) (st : ReceiveStream) (s : Session W)
      → st.id ≡ (receiver a s).id
      → IsSound s
      → IsSound (put_receiver a st s)
  put-IsSound a st s e c = record {
    routed = Grown-IsRouted _ _ _ _ _ (store-Grown s.receive_heap a st e) c.routed;
  }

  receive-IsSound :
      (a : ℕ) (p : List ℕ) (s : Session W) → IsSound s → IsSound (receive_stream_data a p s).0
  unfolding receive_stream_data
  receive-IsSound a p s c = elim (Bool-cases (receiver a s).closed) [
    | inl y ↦ rw (y, receive_stream_data) c
    | inr n ↦ rw (n, receive_stream_data) (put-IsSound a _ s refl c)
  ]

  forgotten :
      (id : ℕ) (s : Session W)
      → IsSound s
      → IsSound (record s { receive_streams = delete id s.receive_streams })
  forgotten id s c = record { routed = delete-uni _ s.receive_streams _ _ id c.routed }

  pub finish_receive-IsSound : (a : ℕ) (s : Session W) → IsSound s → IsSound (finish_receive a s)
  unfolding finish_receive
  finish_receive-IsSound a s c = put-IsSound a _ s refl c

  after_receive-IsSound :
      (d : Delivery) (r : Session W × Option Error) → IsSound r.0 → IsSound (after_receive d r)
  unfolding after_receive
  after_receive-IsSound d (s, some e) c = exit-IsSound s c
  after_receive-IsSound d (s, none) c =
      let f = finish_receive-IsSound d.target s c in
      choose (not d.fin) (move at_top s tt c)
        (move at_top _ tt (choose d.forget (forgotten d.id _ f) f))

  pub deliver-IsSound : (d : Delivery) (s : Session W) → IsSound s → IsSound (deliver d s)
  unfolding deliver
  deliver-IsSound d s c = after_receive-IsSound d _ (receive-IsSound d.target d.payload s c)

  pub read-IsSound : (a n : ℕ) (s : Session W) → IsSound s → IsSound (read a n s).0
  unfolding read
  read-IsSound a n s c = put-IsSound a _ s refl c

  pub close_receive-IsSound : (a : ℕ) (s : Session W) → IsSound s → IsSound (close_receive a s)
  unfolding close_receive
  close_receive-IsSound a s c = choose (receiver a s).closed c (put-IsSound a _ s refl c)

  after_enqueue-IsSound :
      (d : Delivery) (r : Session W × Bool)
      → IsSound r.0
      → IsAt r.0.receive_heap d.target d.id
      → IsSound (after_enqueue d r)
  after_enqueue-IsSound d (s, true) c i = move (delivering d) s i c
  after_enqueue-IsSound d (s, false) c i = exit-IsSound s c

  pub queued_stream :
      (c : EnqueueCase) (st : Stream) (s u : Session W) (b : Bool)
      → enqueue_incoming_stream c st s ≡ some (u, b)
      → Aside s u
  unfolding enqueue_incoming_stream
  queued_stream c st s u b e = ground arith

  pub queued_uni :
      (c : EnqueueCase) (a : ℕ) (s u : Session W) (b : Bool)
      → enqueue_incoming_uni_stream c a s ≡ some (u, b)
      → Aside s u
  unfolding enqueue_incoming_uni_stream
  queued_uni c a s u b e = ground arith

  -- The hand-over of a stream, from what the queue became.
  handed_over :
      (d : Delivery) (o : Option (Session W × Bool)) (s t : Session W)
      → ((u : Session W) (b : Bool) → o ≡ some (u, b) → Aside s u)
      → Option.map (after_enqueue d) o ≡ some t
      → IsAt s.receive_heap d.target d.id
      → IsSound s
      → IsSound t
  handed_over d none s t q e i k = absurd (ground (arith, e))
  handed_over d (some (u, b)) s t q e i k =
      let a = q u b refl in
      subst IsSound (some-inj (after_enqueue d (u, b)) t e) (
        after_enqueue-IsSound d (u, b) (Aside-IsSound s u a k)
          (subst (λ h. IsAt h d.target d.id) (sym a.heap) i))

  -- `enqueue` at a given place of the loop.
  abbrev pub enqueued_at : ReadLoop → EnqueueCase → Session W → Option (Session W)
  enqueued_at l c s = elim l [
    | enqueuing_stream st d ↦ Option.map (after_enqueue d) (enqueue_incoming_stream c st s)
    | enqueuing_uni a d ↦ Option.map (after_enqueue d) (enqueue_incoming_uni_stream c a s)
    | _ ↦ none
  ]

  at-IsSound :
      (l : ReadLoop) (c : EnqueueCase) (s t : Session W)
      → IsBound s.receive_heap l
      → enqueued_at l c s ≡ some t
      → IsSound s
      → IsSound t
  at-IsSound (enqueuing_stream st d) c s t b e k =
      handed_over d (enqueue_incoming_stream c st s) s t (λ u o. queued_stream c st s u o) e b k
  at-IsSound (enqueuing_uni a d) c s t b e k =
      handed_over d (enqueue_incoming_uni_stream c a s) s t (λ u o. queued_uni c a s u o) e b k
  at-IsSound at_top c s t b e k = absurd (ground (arith, e))
  at-IsSound parsing c s t b e k = absurd (ground (arith, e))
  at-IsSound exited c s t b e k = absurd (ground (arith, e))
  at-IsSound (delivering d) c s t b e k = absurd (ground (arith, e))

  pub enqueue-IsSound :
      (c : EnqueueCase) (s t : Session W) → enqueue c s ≡ some t → IsSound s → IsSound t
  unfolding enqueue
  enqueue-IsSound c s t e k = at-IsSound s.loop c s t k.routed.bound e k
