-- ===== src/Session/Reachable.antt =====
-- The flags of a session's end over all interleavings of the read loop and the application's calls.
use webtransport_h2_go.Prelude.{
  ℕ, ◌≡◌, refl, Bool, true, false, List, Option, none, some, if◌then◌else◌, arith, ℤ, sym, subst,
}
use webtransport_h2_go.Errors.{Error, Result}
use webtransport_h2_go.Wire.{Quicvarint}
use webtransport_h2_go.Flow.{Endpoint, PeerInitialLimits}
use webtransport_h2_go.Datagram
use webtransport_h2_go.Datagram.{new_datagram_receive_buffer}
use webtransport_h2_go.Session.State.{Session, Transport, Stream, exited, new_session}
use webtransport_h2_go.Session.Close.{
  begun, store_stop, close_done, close, close_datagram_delivery, set_close_err, write_capsule,
  close_with_error, after_close_capsule, flush,
}
use webtransport_h2_go.Session.Send.{
  write, write_reserved, after_write, write_padding, close_send, send_datagram,
}
use webtransport_h2_go.Session.Receive.{read, close_receive}
use webtransport_h2_go.Session.Streams.{
  new_stream, new_receive_stream, new_send_stream, add_stream, add_send_stream, opened, open_stream,
  open_unidirectional_stream, AcceptCase, accept_stream, accept_unidirectional_stream,
}
use webtransport_h2_go.Session.Steps.{
  Step, checks, parses, enqueues, delivers, opens, opens_uni, accepts, accepts_uni, writes, pads,
  finishes, reads, stops_reading, sends_datagram, receives_datagram, flushes, closes, closes_with,
  begins_close, stores_stop, closes_delivery, closes_done, sets_buffer_size, Reach, here, next,
  receive_datagram,
}
use webtransport_h2_go.Session.Flags.{
  IsOrdered, Inv, parsed-Inv, check_stop-Inv, deliver-Inv, enqueue-Inv,
}

module _ {W : Type 0} where
  open_stream-Inv : (s : Session W) → Inv s → Inv (open_stream s).0
  unfolding open_stream opened add_stream new_stream new_receive_stream new_send_stream
  open_stream-Inv s i = ground arith

  open_uni-Inv : (s : Session W) → Inv s → Inv (open_unidirectional_stream s).0
  unfolding open_unidirectional_stream opened add_send_stream new_send_stream
  open_uni-Inv s i = ground arith

  accept-Inv :
      (c : AcceptCase) (d : Bool) (s t : Session W) (r : Result Stream)
      → accept_stream c d s ≡ some (t, r)
      → Inv s
      → Inv t
  unfolding accept_stream
  accept-Inv c d s t r e i = ground arith

  accept_uni-Inv :
      (c : AcceptCase) (d : Bool) (s t : Session W) (r : Result ℕ)
      → accept_unidirectional_stream c d s ≡ some (t, r)
      → Inv s
      → Inv t
  unfolding accept_unidirectional_stream
  accept_uni-Inv c d s t r e i = ground arith

  read-Inv : (a n : ℕ) (s : Session W) → Inv s → Inv (read a n s).0
  unfolding read
  read-Inv a n s i = record {
    flags = record {
      stopped = i.flags.stopped;
      finished = i.flags.finished;
      delivery = i.flags.delivery;
      datagrams = i.flags.datagrams;
    };
    over = i.over;
  }

  close_receive-Inv : (a : ℕ) (s : Session W) → Inv s → Inv (close_receive a s)
  unfolding close_receive
  close_receive-Inv a s i = ground arith

  receive_datagram-Inv : (s : Session W) → Inv s → Inv (receive_datagram s).0
  unfolding receive_datagram Datagram.read
  receive_datagram-Inv s i = ground arith

  close-Inv : (s : Session W) → Inv s → Inv (close s)
  unfolding close close_datagram_delivery Datagram.close
  close-Inv s i = ground arith

  begun-Inv : (s t : Session W) → t.close_once ≡ true → Inv s → Inv t → Inv (begun s t)
  begun-Inv s t b i j = record {
    flags = record {
      stopped = λ h. b;
      delivery = i.flags.delivery;
      finished = i.flags.finished;
      datagrams = i.flags.datagrams;
    };
    over = j.over;
  }

  pub stop-Inv : (s : Session W) → s.close_once ≡ true → Inv s → Inv (store_stop s)
  stop-Inv s h i = ground arith

  delivery-Inv : (s : Session W) → s.stop ≡ true → Inv s → Inv (close_datagram_delivery s)
  unfolding close_datagram_delivery Datagram.close
  delivery-Inv s h i = ground arith

  done-Inv : (s : Session W) → s.close_datagram_delivery_once ≡ true → Inv s → Inv (close_done s)
  done-Inv s h i = ground arith

  size-Inv : (n : ℤ) (s : Session W) → Inv s → Inv (record s { stream_receive_buffer_size = n })
  size-Inv n s i = ground arith

  choose_first :
      {A : Type 0} (b : Bool) (x y : Session W × A) → Inv x.0 → Inv y.0 → Inv (if b then x else y).0
  choose_first true x y i j = i
  choose_first false x y i j = j

  spent-Inv : (e : Endpoint) (s : Session W) → Inv s → Inv (record s { endpoint = e })
  spent-Inv e s i = ground arith

  err-Inv : (e : Error) (s : Session W) → Inv s → Inv (set_close_err e s)
  unfolding set_close_err
  err-Inv e s i = ground arith

module _ {W : Type 0} (net : Transport W) where
  write_capsule-Inv :
      (typ : ℕ) (p : List ℕ) (s : Session W) → Inv s → Inv (write_capsule net typ p s).0
  unfolding write_capsule
  write_capsule-Inv typ p s i = ground arith

  after_write-Inv :
      (id n : ℕ) (r : Session W × Option Error) → Inv r.0 → Inv (after_write net id n r).0
  unfolding after_write
  after_write-Inv id n (s, none) i = i
  after_write-Inv id n (s, some e) i = ground arith

  write_reserved-Inv :
      (q : Quicvarint) (id : ℕ) (p : List ℕ) (s : Session W) (o : Option Error)
      → Inv s
      → Inv (write_reserved net q id p s o).0
  unfolding write_reserved
  write_reserved-Inv q id p s (some e) i = i
  write_reserved-Inv q id p s none i = after_write-Inv id _ _ (write_capsule-Inv _ _ s i)

  write-Inv :
      (q : Quicvarint) (a : ℕ) (p : List ℕ) (s : Session W) → Inv s → Inv (write net q a p s).0
  unfolding write
  write-Inv q a p s i = choose_first _ _ _ i (write_reserved-Inv q _ p _ _ (spent-Inv _ s i))

  write_padding-Inv : (a : ℕ) (n : ℤ) (s : Session W) → Inv s → Inv (write_padding net a n s).0
  unfolding write_padding write_capsule
  write_padding-Inv a n s i = ground arith

  close_send-Inv : (q : Quicvarint) (a : ℕ) (s : Session W) → Inv s → Inv (close_send net q a s).0
  unfolding close_send write_capsule
  close_send-Inv q a s i = ground arith

  send_datagram-Inv : (p : List ℕ) (s : Session W) → Inv s → Inv (send_datagram net p s).0
  unfolding send_datagram write_capsule
  send_datagram-Inv p s i = ground arith

  flush-Inv : (s : Session W) → Inv s → Inv (flush net s)
  unfolding flush
  flush-Inv s i = ground arith

  after_close_capsule-Inv :
      (code : ℕ) (m : List ℕ) (r : Session W × Option Error)
      → Inv r.0
      → Inv (after_close_capsule net code m r).0
  unfolding after_close_capsule
  after_close_capsule-Inv code m (s, some e) i = i
  after_close_capsule-Inv code m (s, none) i = close-Inv _ (err-Inv _ _ (flush-Inv s i))

  close_with_error-Inv :
      (code : ℕ) (m : List ℕ) (s : Session W) → Inv s → Inv (close_with_error net code m s).0
  unfolding close_with_error
  close_with_error-Inv code m s i =
      choose_first _ _ _ i
        (choose_first s.stop _ _ i (after_close_capsule-Inv code m _ (write_capsule-Inv _ _ s i)))

  step-Inv : (q : Quicvarint) (s t : Session W) → Step net q s t → Inv s → Inv t
  step-Inv q s t (checks h e) i = subst Inv (sym e) (check_stop-Inv s i.flags)
  step-Inv q s t (parses x h e) i = subst Inv (sym e) (parsed-Inv q x s i.flags)
  step-Inv q s t (enqueues c e) i = enqueue-Inv c s t e i.flags
  step-Inv q s t (delivers d h e) i = subst Inv (sym e) (deliver-Inv d s i.flags)
  step-Inv q s t (opens e) i = subst Inv (sym e) (open_stream-Inv s i)
  step-Inv q s t (opens_uni e) i = subst Inv (sym e) (open_uni-Inv s i)
  step-Inv q s t (accepts c d r e) i = accept-Inv c d s t r e i
  step-Inv q s t (accepts_uni c d r e) i = accept_uni-Inv c d s t r e i
  step-Inv q s t (writes a p e) i = subst Inv (sym e) (write-Inv q a p s i)
  step-Inv q s t (pads a n e) i = subst Inv (sym e) (write_padding-Inv a n s i)
  step-Inv q s t (finishes a e) i = subst Inv (sym e) (close_send-Inv q a s i)
  step-Inv q s t (reads a n e) i = subst Inv (sym e) (read-Inv a n s i)
  step-Inv q s t (stops_reading a e) i = subst Inv (sym e) (close_receive-Inv a s i)
  step-Inv q s t (sends_datagram p e) i = subst Inv (sym e) (send_datagram-Inv p s i)
  step-Inv q s t (receives_datagram e) i = subst Inv (sym e) (receive_datagram-Inv s i)
  step-Inv q s t (flushes e) i = subst Inv (sym e) (flush-Inv s i)
  step-Inv q s t (closes e) i = subst Inv (sym e) (close-Inv s i)
  step-Inv q s t (closes_with code m e) i = subst Inv (sym e) (close_with_error-Inv code m s i)
  step-Inv q s t (begins_close u x a b e) i =
      subst Inv (sym e) (begun-Inv s u b i (step-Inv q s u x i))
  step-Inv q s t (stores_stop a b e) i = subst Inv (sym e) (stop-Inv s a i)
  step-Inv q s t (closes_delivery a b e) i = subst Inv (sym e) (delivery-Inv s a i)
  step-Inv q s t (closes_done a b e) i = subst Inv (sym e) (done-Inv s a i)
  step-Inv q s t (sets_buffer_size n e) i = subst Inv (sym e) (size-Inv n s i)

  pub reach-Inv : (q : Quicvarint) (s t : Session W) → Reach net q s t → Inv s → Inv t
  reach-Inv q s _ here i = i
  reach-Inv q s t (next {t = u} r e) i = step-Inv q u t e (reach-Inv q s u r i)

  pub new_session-Inv :
      (w : W) (protocol : List ℕ) (is_server : Bool) (peer : Option PeerInitialLimits)
      → Inv (new_session w protocol is_server peer)
  unfolding new_session new_datagram_receive_buffer
  new_session-Inv w protocol is_server peer = record {
    flags = record {
      stopped = λ h. ground arith;
      delivery = λ h. ground arith;
      finished = λ h. ground arith;
      datagrams = refl;
    };
    over = λ h. ground arith;
  }

  -- However the read loop, the calls on a new session and on its streams, and the steps of Close
  -- interleave: done is closed only when datagram delivery is, that only when stop is set, and stop only
  -- once closeOnce is taken; the datagram buffer is closed exactly when datagram delivery is; and the read
  -- loop has left its loop only if closeOnce is taken.
  pub reach-IsOrdered :
      (q : Quicvarint) (w : W) (protocol : List ℕ) (is_server : Bool)
      (peer : Option PeerInitialLimits) (t : Session W)
      → Reach net q (new_session w protocol is_server peer) t
      → IsOrdered t × (t.loop ≡ exited → t.close_once ≡ true)
  reach-IsOrdered q w protocol is_server peer t r =
      let i = reach-Inv q _ t r (new_session-Inv w protocol is_server peer) in (i.flags, i.over)
