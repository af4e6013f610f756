-- ===== src/Session/Routed.antt =====
-- Whatever the application does, and in whatever order, payloads go to the stream that they are for.
use webtransport_h2_go.Prelude.{
  ℕ, ◌≡◌, sym, subst, arith, Bool, true, false, List, Option, none, some, ℤ, lookup, if◌then◌else◌,
  alloc,
}
use webtransport_h2_go.Errors.{Error, Result, ok, err}
use webtransport_h2_go.Wire.{Quicvarint}
use webtransport_h2_go.Flow.{Endpoint, PeerInitialLimits}
use webtransport_h2_go.Datagram
use webtransport_h2_go.Session.State.{Session, Transport, Stream, new_session}
use webtransport_h2_go.Session.Close.{
  close, close_datagram_delivery, set_close_err, write_capsule, close_with_error,
  after_close_capsule, flush,
}
use webtransport_h2_go.Session.Send.{
  write, write_reserved, after_write, write_padding, close_send, send_datagram,
}
use webtransport_h2_go.Session.Streams.{
  new_stream, new_receive_stream, new_send_stream, add_stream, add_send_stream, opened, open_stream,
  open_unidirectional_stream, AcceptCase, accept_stream, accept_unidirectional_stream,
}
use webtransport_h2_go.Session.Steps.{
  Step, checks, parses, enqueues, delivers, opens, opens_uni, accepts, accepts_uni, writes, pads,
  finishes, reads, stops_reading, sends_datagram, receives_datagram, flushes, closes, closes_with,
  begins_close, stores_stop, closes_delivery, closes_done, sets_buffer_size, Reach, here, next,
  receive_datagram,
}
use webtransport_h2_go.Session.Registry.{
  begun-Aside, stop-Aside, delivery-Aside, done-Aside, size-Aside, IsRouted, IsSound, Aside,
  Grown-IsRouted, alloc-Grown, alloc-IsAt, insert-bidi, Aside-IsSound, close-Aside,
}
use webtransport_h2_go.Session.Routing.{
  parsed-IsSound, check_stop-IsSound, deliver-IsSound, enqueue-IsSound, read-IsSound,
  close_receive-IsSound,
}

module _ {W : Type 0} where
  added : (id : ℕ) (s : Session W) → IsSound s → IsSound (add_stream id s).0
  unfolding add_stream new_stream new_receive_stream new_send_stream
  added id s c = record {
    routed =
        let k = alloc _ s.receive_heap in
        let r =
          Grown-IsRouted s.receive_heap k s.receive_streams s.streams s.loop
            (alloc-Grown s.receive_heap _) c.routed in
        insert-bidi k s.receive_streams s.streams s.loop id _ (alloc-IsAt s.receive_heap _) r;
  }

  spent : (e : Endpoint) (s : Session W) → IsSound s → IsSound (record s { endpoint = e })
  spent e s c = record { routed = c.routed }

  opened-IsSound :
      (r : Endpoint × Result ℕ) (s : Session W) → IsSound s → IsSound (opened s add_stream r).0
  unfolding opened
  opened-IsSound (e, err x) s c = spent e s c
  opened-IsSound (e, ok id) s c = added id _ (spent e s c)

  choose_first :
      {A : Type 0} (b : Bool) (x y : Session W × A)
      → IsSound x.0
      → IsSound y.0
      → IsSound (if b then x else y).0
  choose_first true x y i j = i
  choose_first false x y i j = j

  open_stream-IsSound : (s : Session W) → IsSound s → IsSound (open_stream s).0
  unfolding open_stream
  open_stream-IsSound s c = choose_first s.stop _ _ c (opened-IsSound _ s c)

  pub open_uni-Aside : (s : Session W) → Aside s (open_unidirectional_stream s).0
  unfolding open_unidirectional_stream opened add_send_stream new_send_stream
  open_uni-Aside s = ground arith

  pub accept-Aside :
      (c : AcceptCase) (d : Bool) (s t : Session W) (r : Result Stream)
      → accept_stream c d s ≡ some (t, r)
      → Aside s t
  unfolding accept_stream
  accept-Aside c d s t r e = ground arith

  pub accept_uni-Aside :
      (c : AcceptCase) (d : Bool) (s t : Session W) (r : Result ℕ)
      → accept_unidirectional_stream c d s ≡ some (t, r)
      → Aside s t
  unfolding accept_unidirectional_stream
  accept_uni-Aside c d s t r e = ground arith

  pub receive_datagram-Aside : (s : Session W) → Aside s (receive_datagram s).0
  unfolding receive_datagram Datagram.read
  receive_datagram-Aside s = ground arith

  pub new_session-IsSound :
      (w : W) (protocol : List ℕ) (is_server : Bool) (peer : Option PeerInitialLimits)
      → IsSound (new_session w protocol is_server peer)
  unfolding new_session lookup
  new_session-IsSound w protocol is_server peer = record {
    routed = record {
      of_uni = λ id a e. absurd (ground (arith, e));
      of_bidi = λ id st e. absurd (ground (arith, e));
      bound = tt;
    };
  }

module _ {W : Type 0} (net : Transport W) where
  after_write-Aside :
      (id n : ℕ) (r : Session W × Option Error) → Aside r.0 (after_write net id n r).0
  unfolding after_write
  after_write-Aside id n (s, none) = ground arith
  after_write-Aside id n (s, some e) = ground arith

  pub write-Aside :
      (q : Quicvarint) (a : ℕ) (p : List ℕ) (s : Session W) → Aside s (write net q a p s).0
  unfolding write write_reserved after_write write_capsule
  write-Aside q a p s = ground arith

  pub write_padding-Aside : (a : ℕ) (n : ℤ) (s : Session W) → Aside s (write_padding net a n s).0
  unfolding write_padding write_capsule
  write_padding-Aside a n s = ground arith

  pub close_send-Aside : (q : Quicvarint) (a : ℕ) (s : Session W) → Aside s (close_send net q a s).0
  unfolding close_send write_capsule
  close_send-Aside q a s = ground arith

  pub send_datagram-Aside : (p : List ℕ) (s : Session W) → Aside s (send_datagram net p s).0
  unfolding send_datagram write_capsule
  send_datagram-Aside p s = ground arith

  pub flush-Aside : (s : Session W) → Aside s (flush net s)
  unfolding flush
  flush-Aside s = ground arith

  pub close_with_error-Aside :
      (code : ℕ) (m : List ℕ) (s : Session W) → Aside s (close_with_error net code m s).0
  unfolding close_with_error after_close_capsule write_capsule set_close_err close
      close_datagram_delivery flush
  close_with_error-Aside code m s = ground arith

  pub step-IsSound : (q : Quicvarint) (s t : Session W) → Step net q s t → IsSound s → IsSound t
  step-IsSound q s t (checks h e) i = subst IsSound (sym e) (check_stop-IsSound s i)
  step-IsSound q s t (parses x h e) i = subst IsSound (sym e) (parsed-IsSound q x s i)
  step-IsSound q s t (enqueues c e) i = enqueue-IsSound c s t e i
  step-IsSound q s t (delivers d h e) i = subst IsSound (sym e) (deliver-IsSound d s i)
  step-IsSound q s t (opens e) i = subst IsSound (sym e) (open_stream-IsSound s i)
  step-IsSound q s t (opens_uni e) i =
      subst IsSound (sym e) (Aside-IsSound s _ (open_uni-Aside s) i)
  step-IsSound q s t (accepts c d r e) i = Aside-IsSound s t (accept-Aside c d s t r e) i
  step-IsSound q s t (accepts_uni c d r e) i = Aside-IsSound s t (accept_uni-Aside c d s t r e) i
  step-IsSound q s t (writes a p e) i =
      subst IsSound (sym e) (Aside-IsSound s _ (write-Aside q a p s) i)
  step-IsSound q s t (pads a n e) i =
      subst IsSound (sym e) (Aside-IsSound s _ (write_padding-Aside a n s) i)
  step-IsSound q s t (finishes a e) i =
      subst IsSound (sym e) (Aside-IsSound s _ (close_send-Aside q a s) i)
  step-IsSound q s t (reads a n e) i = subst IsSound (sym e) (read-IsSound a n s i)
  step-IsSound q s t (stops_reading a e) i = subst IsSound (sym e) (close_receive-IsSound a s i)
  step-IsSound q s t (sends_datagram p e) i =
      subst IsSound (sym e) (Aside-IsSound s _ (send_datagram-Aside p s) i)
  step-IsSound q s t (receives_datagram e) i =
      subst IsSound (sym e) (Aside-IsSound s _ (receive_datagram-Aside s) i)
  step-IsSound q s t (flushes e) i = subst IsSound (sym e) (Aside-IsSound s _ (flush-Aside s) i)
  step-IsSound q s t (closes e) i = subst IsSound (sym e) (Aside-IsSound s _ (close-Aside s) i)
  step-IsSound q s t (closes_with code m e) i =
      subst IsSound (sym e) (Aside-IsSound s _ (close_with_error-Aside code m s) i)
  step-IsSound q s t (begins_close u x a b e) i =
      subst IsSound (sym e) (Aside-IsSound u _ (begun-Aside s u) (step-IsSound q s u x i))
  step-IsSound q s t (stores_stop a b e) i =
      subst IsSound (sym e) (Aside-IsSound s _ (stop-Aside s) i)
  step-IsSound q s t (closes_delivery a b e) i =
      subst IsSound (sym e) (Aside-IsSound s _ (delivery-Aside s) i)
  step-IsSound q s t (closes_done a b e) i =
      subst IsSound (sym e) (Aside-IsSound s _ (done-Aside s) i)
  step-IsSound q s t (sets_buffer_size n e) i =
      subst IsSound (sym e) (Aside-IsSound s _ (size-Aside n s) i)

  pub reach-IsSound : (q : Quicvarint) (s t : Session W) → Reach net q s t → IsSound s → IsSound t
  reach-IsSound q s _ here i = i
  reach-IsSound q s t (next {t = u} r e) i = step-IsSound q u t e (reach-IsSound q s u r i)

  -- However the read loop and the calls on a new session and on its streams interleave: the streams found
  -- under an ID have that ID, and a payload that is on its way is bound for the receive half of a stream
  -- with the ID that its capsule named.
  pub reach-IsRouted :
      (q : Quicvarint) (w : W) (protocol : List ℕ) (is_server : Bool)
      (peer : Option PeerInitialLimits) (t : Session W)
      → Reach net q (new_session w protocol is_server peer) t
      → IsRouted t.receive_heap t.receive_streams t.streams t.loop
  reach-IsRouted q w protocol is_server peer t r =
      (reach-IsSound q _ t r (new_session-IsSound w protocol is_server peer)).routed
