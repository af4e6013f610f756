-- ===== src/Session/Steps.antt =====
-- The goroutines of a session as a step relation: the read loop, and the application's calls, which
-- may come in any order, from any goroutine, on any stream that the session made. `Close` is not one
-- step: whatever calls it may be left where it has begun.
use webtransport_h2_go.Prelude.{ℕ, ◌≡◌, Bool, true, false, List, some, ℤ}
use webtransport_h2_go.Errors.{Result}
use webtransport_h2_go.Wire.{Quicvarint}
use webtransport_h2_go.Datagram
use webtransport_h2_go.Session.State.{
  Session, Transport, Stream, Delivery, at_top, parsing, delivering,
}
use webtransport_h2_go.Session.Close.{
  close, close_with_error, flush, begun, store_stop, close_datagram_delivery, close_done,
}
use webtransport_h2_go.Session.Send.{write, write_padding, close_send, send_datagram}
use webtransport_h2_go.Session.Receive.{read, close_receive}
use webtransport_h2_go.Session.Streams.{
  open_stream, open_unidirectional_stream, AcceptCase, accept_stream, accept_unidirectional_stream,
  EnqueueCase,
}
use webtransport_h2_go.Session.ReadLoop.{Inbound, check_stop, parsed, enqueue, deliver}

module _ {W : Type 0} where
  -- `ReceiveDatagram`: one round of the wait.
  unfoldable pub receive_datagram : Session W → Session W × Datagram.Attempt
  receive_datagram s =
      let (buffer, a) = Datagram.read s.datagram_buffer in
      (record s { datagram_buffer = buffer }, a)

module _ {W : Type 0} (net : Transport W) (q : Quicvarint) where
  pub data Step (s : Session W) : Session W → Type 0 where
    checks : {t : Session W} → s.loop ≡ at_top → t ≡ check_stop s → Step s t
    parses : {t : Session W} (i : Inbound) → s.loop ≡ parsing → t ≡ parsed q i s → Step s t
    enqueues : {t : Session W} (c : EnqueueCase) → enqueue c s ≡ some t → Step s t
    delivers : {t : Session W} (d : Delivery) → s.loop ≡ delivering d → t ≡ deliver d s → Step s t
    opens : {t : Session W} → t ≡ (open_stream s).0 → Step s t
    opens_uni : {t : Session W} → t ≡ (open_unidirectional_stream s).0 → Step s t
    accepts :
        {t : Session W} (c : AcceptCase) (ctx_done : Bool) (r : Result Stream)
        → accept_stream c ctx_done s ≡ some (t, r)
        → Step s t
    accepts_uni :
        {t : Session W} (c : AcceptCase) (ctx_done : Bool) (r : Result ℕ)
        → accept_unidirectional_stream c ctx_done s ≡ some (t, r)
        → Step s t
    writes : {t : Session W} (a : ℕ) (p : List ℕ) → t ≡ (write net q a p s).0 → Step s t
    pads : {t : Session W} (a : ℕ) (n : ℤ) → t ≡ (write_padding net a n s).0 → Step s t
    finishes : {t : Session W} (a : ℕ) → t ≡ (close_send net q a s).0 → Step s t
    reads : {t : Session W} (a n : ℕ) → t ≡ (read a n s).0 → Step s t
    stops_reading : {t : Session W} (a : ℕ) → t ≡ close_receive a s → Step s t
    sends_datagram : {t : Session W} (p : List ℕ) → t ≡ (send_datagram net p s).0 → Step s t
    receives_datagram : {t : Session W} → t ≡ (receive_datagram s).0 → Step s t
    flushes : {t : Session W} → t ≡ flush net s → Step s t
    closes : {t : Session W} → t ≡ close s → Step s t
    closes_with :
        {t : Session W} (code : ℕ) (message : List ℕ)
        → t ≡ (close_with_error net code message s).0
        → Step s t
    -- A step that ends with `Close` is left there when it has taken `closeOnce`: the read loop's, which
    -- has then left its loop, or the application's. The three steps of `Close` follow in this order.
    begins_close :
        {t : Session W} (u : Session W)
        → Step s u
        → s.close_once ≡ false
        → u.close_once ≡ true
        → t ≡ begun s u
        → Step s t
    stores_stop :
        {t : Session W} → s.close_once ≡ true → s.stop ≡ false → t ≡ store_stop s → Step s t
    closes_delivery :
        {t : Session W} → s.stop ≡ true → s.done ≡ false → t ≡ close_datagram_delivery s → Step s t
    closes_done :
        {t : Session W}
        → s.close_datagram_delivery_once ≡ true
        → s.done ≡ false
        → t ≡ close_done s
        → Step s t
    -- the exported field, which the application may set at any time
    sets_buffer_size :
        {t : Session W} (n : ℤ) → t ≡ record s { stream_receive_buffer_size = n } → Step s t

  -- The sizes that a step sets are allowed.
  unfoldable pub Sets : (ℤ → Type 0) → (s t : Session W) → Step s t → Type 0
  Sets allowed s t (begins_close u e b c d) = Sets allowed s u e
  Sets allowed s t (sets_buffer_size n e) = allowed n
  Sets allowed s t _ = Unit {0}

  pub data Reach (s : Session W) : Session W → Type 0 where
    here : Reach s s
    next : {t u : Session W} → Reach s t → Step t u → Reach s u

  unfoldable pub AllSet : (ℤ → Type 0) → (s t : Session W) → Reach s t → Type 0
  AllSet allowed s _ here = Unit {0}
  AllSet allowed s t (next {t = u} r e) = AllSet allowed s u r × Sets allowed u t e
