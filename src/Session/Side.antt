-- ===== src/Session/Side.antt =====
-- A session stays on its side of the connection.
use webtransport_h2_go.Prelude.{
  ℕ, ◌≡◌, refl, arith, lookup, Bool, true, false, Option, none, some, if◌then◌else◌, Bool-cases,
  Option-cases, inl, inr, List,
}
use webtransport_h2_go.Errors.{Error, Result, ok, err}
use webtransport_h2_go.Wire.{Quicvarint}
use webtransport_h2_go.Flow.{Endpoint, PeerInitialLimits, adopt_peer_send_limits}
use webtransport_h2_go.Flow.Side.{
  IsSided, Level, level, track-Level, reserve-Level, refund-Level, limit-TryLevel, alloc-IsSided,
}
use webtransport_h2_go.StreamId.{is_our_stream, is_bidirectional_stream}
use webtransport_h2_go.Session.State.{new_session, Session, Transport}
use webtransport_h2_go.Session.Close.{
  begun, close, close_datagram_delivery, set_close_err, set_close_reason, write_capsule,
  close_with_error, after_close_capsule, flush,
}
use webtransport_h2_go.Session.Send.{
  write, write_reserved, after_write, write_padding, close_send, send_datagram,
}
use webtransport_h2_go.Session.Receive.{receive_stream_data, finish_receive, read, close_receive}
use webtransport_h2_go.Session.Streams.{
  new_stream, new_receive_stream, new_send_stream, add_stream, add_send_stream, opened, open_stream,
  open_unidirectional_stream, accept_stream, accept_unidirectional_stream, enqueue_incoming_stream,
  enqueue_incoming_uni_stream,
}
use webtransport_h2_go.Session.ReadLoop.{
  Inbound, parsed, deliver_datagram, route, route_bidi, route_uni,
}
use webtransport_h2_go.Session.Steps.{receive_datagram, Step}
use webtransport_h2_go.Session.Keeps.{Keeps, parsed-kept}
use webtransport_h2_go.Session.Invariant.{any_size, Calls, step-kept}

module _ {W : Type 0} (b : Bool) where
  pub record IsOn (s : Session W) : Type 0 where
    pub side : IsSided b s.endpoint

  same : (s t : Session W) → t.endpoint ≡ s.endpoint → IsOn s → IsOn t
  same s t e i = record { side = rw e i.side }

  to_level : (s t : Session W) → Level s.endpoint t.endpoint → IsOn s → IsOn t
  to_level s t l i = record { side = level b s.endpoint t.endpoint l i.side }

  route_bidi-IsOn :
      (id : ℕ) (fin : Bool) (p : List ℕ) (s : Session W) → IsOn s → IsOn (route_bidi id p fin s)
  unfolding route_bidi new_stream new_receive_stream new_send_stream
  route_bidi-IsOn id fin p s i = elim (Option-cases (lookup id s.streams)) [
    | inr (st, e) ↦ rw (e, route_bidi) (same s _ refl i)
    | inl e ↦ elim (Bool-cases (is_our_stream s.endpoint.is_server id)) [
      | inl y ↦ rw (e, route_bidi, y) (same s _ refl i)
      | inr n ↦ rw (e, route_bidi, n) (to_level s _ (track-Level id s.endpoint) i)
    ]
  ]

  route_uni-IsOn :
      (id : ℕ) (fin : Bool) (p : List ℕ) (s : Session W) → IsOn s → IsOn (route_uni id p fin s)
  unfolding route_uni new_receive_stream
  route_uni-IsOn id fin p s i = ground (arith, i)

  pub loop_keeps-IsOn : (q : Quicvarint) → Keeps q IsOn
  unfolding close close_datagram_delivery set_close_err set_close_reason deliver_datagram
      enqueue_incoming_stream enqueue_incoming_uni_stream receive_stream_data finish_receive route
  loop_keeps-IsOn q = record {
    moves = λ l s. same s _ refl;
    closes = λ s. same s _ (ground arith);
    errs = λ e s. same s _ (ground arith);
    reasons = λ r s. same s _ (ground arith);
    routes = λ id fin p s i. elim (Bool-cases (is_bidirectional_stream id)) [
      | inl y ↦ rw (y, route) (route_bidi-IsOn id fin p s i)
      | inr n ↦ rw (n, route) (route_uni-IsOn id fin p s i)
    ];
    buffers = λ p s. same s _ refl;
    limits = λ typ c s. to_level s _ (limit-TryLevel q typ c s.endpoint).level;
    queues = λ c st s t r e. same s t (ground (arith, e));
    queues_uni = λ c a s t r e. same s t (ground (arith, e));
    receives = λ a p s. same s _ (ground arith);
    finishes = λ a s. same s _ refl;
    forgets = λ id s. same s _ refl;
  }

  choose_first :
      {A : Type 0} (c : Bool) (x y : Session W × A)
      → IsOn x.0
      → IsOn y.0
      → IsOn (if c then x else y).0
  choose_first true x y i j = i
  choose_first false x y i j = j

  opened-IsOn :
      {A : Type 0} (r : Endpoint × Result ℕ) (add : ℕ → Session W → Session W × A) (s : Session W)
      → ((id : ℕ) (t : Session W) → (add id t).0.endpoint ≡ t.endpoint)
      → IsSided b r.0
      → IsOn (opened s add r).0
  unfolding opened
  opened-IsOn (e, err x) add s h i = record { side = i }
  opened-IsOn (e, ok id) add s h i =
      let t : Session W = record s { endpoint = e } in same t _ (h id t) (record { side = i })

  pub parsed-IsOn : (q : Quicvarint) (i : Inbound) (s : Session W) → IsOn s → IsOn (parsed q i s)
  parsed-IsOn q = parsed-kept q IsOn (loop_keeps-IsOn q)

  pub begun-IsOn : (s t : Session W) → IsOn t → IsOn (begun s t)
  begun-IsOn s t i = same t _ refl i

  pub new_session-IsOn :
      (w : W) (protocol : List ℕ) (peer : Option PeerInitialLimits)
      → IsOn (new_session w protocol b peer)
  unfolding new_session adopt_peer_send_limits
  new_session-IsOn w protocol none = record { side = record { server = refl; aligned = refl } }
  new_session-IsOn w protocol (some p) = record { side = record { server = refl; aligned = refl } }

module _ {W : Type 0} (net : Transport W) (q : Quicvarint) (b : Bool) where
  after_write-IsOn :
      (id n : ℕ) (r : Session W × Option Error) → IsOn b r.0 → IsOn b (after_write net id n r).0
  unfolding after_write
  after_write-IsOn id n (s, none) i = i
  after_write-IsOn id n (s, some e) i = to_level b s _ (refund-Level id n s.endpoint) i

  reserved-IsOn :
      (id : ℕ) (p : List ℕ) (s : Session W) (o : Option Error)
      → IsOn b s
      → IsOn b (write_reserved net q id p s o).0
  unfolding write_reserved write_capsule
  reserved-IsOn id p s (some e) i = i
  reserved-IsOn id p s none i = after_write-IsOn id _ _ (same b s _ refl i)

  calls_keep-IsOn : Calls net q (λ n. Unit {0}) (IsOn b)
  unfolding open_stream add_stream new_stream new_receive_stream new_send_stream
      open_unidirectional_stream add_send_stream accept_stream accept_unidirectional_stream write
      write_padding write_capsule close_send read close_receive send_datagram receive_datagram flush
      close_with_error after_close_capsule set_close_err close close_datagram_delivery
  calls_keep-IsOn = record {
    opens = λ s i.
        choose_first b s.stop _ _ i
          (opened-IsOn b _ add_stream s (λ id t. refl) (alloc-IsSided b true s.endpoint i.side).0);
    opens_uni = λ s i. choose_first b s.stop _ _ i (
        opened-IsOn b _ add_send_stream s (λ id t. refl)
          (alloc-IsSided b false s.endpoint i.side).0);
    accepts = λ c d s t r e. same b s t (ground (arith, e));
    accepts_uni = λ c d s t r e. same b s t (ground (arith, e));
    writes = λ a p s i.
        choose_first b _ _ _ i
          (reserved-IsOn _ p _ _ (to_level b s _ (reserve-Level _ _ s.endpoint) i));
    pads = λ a n s. same b s _ (ground arith);
    finishes = λ a s. same b s _ (ground arith);
    reads = λ a n s. same b s _ (ground arith);
    stops_reading = λ a s. same b s _ (ground arith);
    sends_datagram = λ p s. same b s _ (ground arith);
    receives_datagram = λ s. same b s _ (ground arith);
    flushes = λ s. same b s _ refl;
    closes_with = λ code m s. same b s _ (ground arith);
    begins = λ s t i j. same b t _ refl j;
    stops = λ s. same b s _ refl;
    ends_delivery = λ s. same b s _ (ground arith);
    ends = λ s. same b s _ refl;
    sets = λ n s k. same b s _ refl;
  }

  pub step-IsOn : (s t : Session W) → Step net q s t → IsOn b s → IsOn b t
  step-IsOn s t e =
      step-kept net q (λ n. Unit {0}) (IsOn b) (loop_keeps-IsOn b q) calls_keep-IsOn s t e
        (any_size net q s t e)
