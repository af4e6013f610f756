-- ===== src/Link/Routes.antt =====
-- Where a capsule takes the read loop of the receiving session.
use webtransport_h2_go.Prelude.{
  ℕ, ◌≡◌, ◌≢◌, inl, inr, refl, ap, ◌∙◌, arith, Bool, true, false, List, [], Option, none, some,
  ◌==◌, ◌||◌, if◌then◌else◌, Bool-cases, Option-cases, lookup, lookup-insert, alloc,
}
use webtransport_h2_go.Errors.{Error, Result-cases, flow_control_error, is_clean_connect_teardown}
use webtransport_h2_go.Wire.{Quicvarint, Content, read_all}
use webtransport_h2_go.Capsule
use webtransport_h2_go.StreamId.{is_bidirectional_stream, is_our_stream}
use webtransport_h2_go.Datagram
use webtransport_h2_go.Flow.{Endpoint}
use webtransport_h2_go.Session.State.{
  Session, Stream, ReceiveStream, Delivery, at_top, delivering, CloseReason,
}
use webtransport_h2_go.Session.Close.{set_close_err, set_close_reason, parse_wt_close_session}
use webtransport_h2_go.Session.Receive.{receiver}
use webtransport_h2_go.Session.Streams.{new_stream, new_receive_stream, new_send_stream}
use webtransport_h2_go.Session.ReadLoop.{
  exit, go_to, fail_read, with_value, route_bidi, route_uni, route, deliver_datagram, handle_close,
  after_limit, handle_capsule,
}
use webtransport_h2_go.Session.Registry.{IsSound, set_err-Aside, set_reason-Aside}
use webtransport_h2_go.Link.{pending, payload_for}
use webtransport_h2_go.Link.Receiving.{alike, IsAimed, Aim, Kept, Aside-Kept, exit-Kept, Kept-trans}

module _ {W : Type 0} (id : ℕ) where
  -- The capsule had nothing for the stream `id`.
  pub record Skips (s t : Session W) : Type 0 where
    pub kept : Kept id s t
    pub aimed : IsAimed id t t.loop
    pub idle : pending id t.loop ≡ []

  exit-Skips : (s t : Session W) → Kept id s t → Skips s (exit t)
  unfolding exit pending
  exit-Skips s t k = record {
    kept = Kept-trans id s t (exit t) k (exit-Kept id t);
    aimed = tt;
    idle = refl;
  }

  top-Skips : (s t : Session W) → Kept id s t → Skips s (go_to at_top t)
  unfolding pending
  top-Skips s t k = record {
    kept = record { found = k.found; half = k.half };
    aimed = tt;
    idle = refl;
  }

  same : (s t : Session W) → t.streams ≡ s.streams → t.receive_heap ≡ s.receive_heap → Kept id s t
  same s t e h = record {
    found = ap (lookup id) e;
    half = λ st f. alike _ _ (ap (λ x. x.cell st.receive) h);
  }

  err-Kept : (e : Error) (s t : Session W) → Kept id s t → Kept id s (set_close_err e t)
  err-Kept e s t k = Kept-trans id s t _ k (Aside-Kept id t _ (set_err-Aside e t))

  reason-Kept : (r : CloseReason) (s t : Session W) → Kept id s t → Kept id s (set_close_reason r t)
  reason-Kept r s t k = Kept-trans id s t _ k (Aside-Kept id t _ (set_reason-Aside r t))

  pub fail_read-Skips : (e : Error) (s t : Session W) → Kept id s t → Skips s (fail_read e t)
  unfolding fail_read
  fail_read-Skips e s t k = elim (Bool-cases (is_clean_connect_teardown e)) [
    | inl y ↦ rw y (exit-Skips s _ (reason-Kept _ s t k))
    | inr n ↦ rw n (exit-Skips s t k)
  ]

  with_value-Skips :
      (content : Content) (f : List ℕ → Session W → Session W) (s : Session W)
      → ((p : List ℕ) → Skips s (f p s))
      → Skips s (with_value content f s)
  unfolding with_value
  with_value-Skips content f s k = elim (Result-cases (read_all content)) [
    | inl (p, e) ↦ rw (e, with_value) (k p)
    | inr (x, e) ↦ rw (e, with_value) (fail_read-Skips x s s (same s s refl refl))
  ]

  handle_close-Skips : (p : List ℕ) (s : Session W) → Skips s (handle_close p s)
  unfolding handle_close
  handle_close-Skips p s =
      let k = same s s refl refl in
      elim (Result-cases (parse_wt_close_session p)) [
        | inl ((code, message), e) ↦ rw (e, handle_close) (exit-Skips s _ (err-Kept _ s s k))
        | inr (x, e) ↦ rw (e, handle_close) (exit-Skips s _ (reason-Kept _ s s k))
      ]

  limit-Skips : (r : Endpoint × Option Error) (s : Session W) → Skips s (after_limit r s)
  unfolding after_limit
  limit-Skips (e, none) s = top-Skips s _ (same s (record s { endpoint = e }) refl refl)
  limit-Skips (e, some x) s =
      let k = same s (record s { endpoint = e }) refl refl in
      elim (Option-cases (flow_control_error x)) [
        | inr (reason, h) ↦ rw (h, after_limit) (exit-Skips s _ (err-Kept _ s _ k))
        | inl h ↦ rw (h, after_limit) (fail_read-Skips x s _ k)
      ]

  choose :
      (s : Session W) (b : Bool) {x y : Session W}
      → Skips s x
      → Skips s y
      → Skips s (if b then x else y)
  choose s true p r = p
  choose s false p r = r

  datagram-Kept : (p : List ℕ) (s : Session W) → Kept id s (deliver_datagram p s)
  unfolding deliver_datagram
  datagram-Kept p s =
      same s (record s { datagram_buffer = (Datagram.write p s.datagram_buffer).0 }) refl refl

  -- A capsule of another type is not for a stream.
  pub other_type-Skips :
      (q : Quicvarint) (typ : ℕ) (content : Content) (s : Session W)
      → (typ == Capsule.wt_stream || typ == Capsule.wt_stream_fin) ≡ false
      → Skips s (handle_capsule q typ content s)
  unfolding handle_capsule
  other_type-Skips q typ content s n =
      let k = same s s refl refl in
      let skip = with_value-Skips content (λ p. go_to at_top) s (λ p. top-Skips s s k) in
      rw n (
        choose s _ skip (
          choose s _
            (with_value-Skips content (λ p t. go_to at_top (deliver_datagram p t)) s
              (λ p. top-Skips s _ (datagram-Kept p s)))
            (choose s _ (with_value-Skips content handle_close s (λ p. handle_close-Skips p s))
              (choose s _ (top-Skips s s k) (choose s _ (limit-Skips _ s) skip)))))

  -- The loop is busy with a payload of another stream.
  busy : (s : Session W) (d : Delivery) → d.id ≢ id → Aim id s d × (payload_for id d ≡ [])
  busy s d n = (λ e. absurd (n e), ground (arith, n))

  known_other : (s : Session W) (d : Delivery) → d.id ≢ id → Skips s (go_to (delivering d) s)
  unfolding pending
  known_other s d n = record {
    kept = same s _ refl refl;
    aimed = (busy s d n).0;
    idle = (busy s d n).1;
  }

  -- New halves have addresses of their own.
  pub fresh-half :
      (s : Session W) (n : ReceiveStream) (st : Stream)
      → IsSound s
      → lookup id s.streams ≡ some st
      → (alloc n s.receive_heap).cell st.receive ≡ receiver st.receive s
  fresh-half s n st i e =
      let (below, named) = i.routed.of_bidi id st e in
      let apart : (s.receive_heap.next == st.receive) ≡ false = ground (arith, below) in
      rw apart refl

  -- A capsule for another stream.
  route_bidi-Skips :
      (other : ℕ) (p : List ℕ) (fin : Bool) (s : Session W)
      → IsSound s
      → other ≢ id
      → Skips s (route_bidi other p fin s)
  unfolding route_bidi new_stream new_receive_stream new_send_stream pending
  route_bidi-Skips other p fin s i n = elim (Option-cases (lookup other s.streams)) [
    | inr (st, e) ↦ rw (e, route_bidi) (known_other s _ n)
    | inl e ↦ elim (Bool-cases (is_our_stream s.endpoint.is_server other)) [
      | inl y ↦ rw (e, route_bidi, y) (top-Skips s s (same s s refl refl))
      | inr y ↦
          let apart : (other == id) ≡ false = ground (arith, n) in
          rw (e, route_bidi, y)
            (record {
              kept = record {
                found = lookup-insert other id _ s.streams ∙ rw apart refl;
                half = λ st f. alike _ _ (fresh-half s _ st i f);
              };
              aimed = λ same. absurd (n same);
              idle = rw apart refl;
            })
    ]
  ]

  route_uni-Skips :
      (other : ℕ) (p : List ℕ) (fin : Bool) (s : Session W)
      → IsSound s
      → other ≢ id
      → Skips s (route_uni other p fin s)
  unfolding route_uni new_receive_stream pending
  route_uni-Skips other p fin s i n = elim (Option-cases (lookup other s.receive_streams)) [
    | inr (a, e) ↦ rw (e, route_uni) (known_other s _ n)
    | inl e ↦ elim (Bool-cases (is_our_stream s.endpoint.is_server other)) [
      | inl y ↦ rw (e, route_uni, y) (top-Skips s s (same s s refl refl))
      | inr y ↦
          let apart : (other == id) ≡ false = ground (arith, n) in
          rw (e, route_uni, y)
            (record {
              kept = record { found = refl; half = λ st f. alike _ _ (fresh-half s _ st i f) };
              aimed = λ same. absurd (n same);
              idle = rw apart refl;
            })
    ]
  ]

  pub route-Skips :
      (other : ℕ) (p : List ℕ) (fin : Bool) (s : Session W)
      → IsSound s
      → other ≢ id
      → Skips s (route other fin p s)
  unfolding route
  route-Skips other p fin s i n =
      choose s (is_bidirectional_stream other) (route_bidi-Skips other p fin s i n)
        (route_uni-Skips other p fin s i n)
