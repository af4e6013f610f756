-- ===== src/Session/Invariant.antt =====
-- Invariants of a session over all its steps: one rule for each call of the application, besides those
-- for the read loop.
use webtransport_h2_go.Prelude.{ℕ, ◌≡◌, sym, subst, Bool, List, some, ℤ}
use webtransport_h2_go.Errors.{Result}
use webtransport_h2_go.Wire.{Quicvarint}
use webtransport_h2_go.Session.State.{Session, Transport, Stream}
use webtransport_h2_go.Session.Close.{
  close_with_error, flush, begun, store_stop, close_datagram_delivery, close_done,
}
use webtransport_h2_go.Session.Send.{write, write_padding, close_send, send_datagram}
use webtransport_h2_go.Session.Receive.{read, close_receive}
use webtransport_h2_go.Session.Streams.{
  open_stream, open_unidirectional_stream, AcceptCase, accept_stream, accept_unidirectional_stream,
}
use webtransport_h2_go.Session.Steps.{
  Step, checks, parses, enqueues, delivers, opens, opens_uni, accepts, accepts_uni, writes, pads,
  finishes, reads, stops_reading, sends_datagram, receives_datagram, flushes, closes, closes_with,
  begins_close, stores_stop, closes_delivery, closes_done, sets_buffer_size, Sets, AllSet, Reach,
  here, next, receive_datagram,
}
use webtransport_h2_go.Session.Keeps.{
  Keeps, parsed-kept, check_stop-kept, deliver-kept, enqueue-kept,
}

-- A property of a session that the application may set `StreamReceiveBufferSize` to the sizes of
-- `allowed`.
module _ {W : Type 0} (net : Transport W) (q : Quicvarint) (allowed : ℤ → Type 0)
    (P : Session W → Type 0) where
  -- The calls keep `P`.
  pub record Calls : Type 0 where
    pub opens : (s : Session W) → P s → P (open_stream s).0
    pub opens_uni : (s : Session W) → P s → P (open_unidirectional_stream s).0
    pub accepts :
        (c : AcceptCase) (d : Bool) (s t : Session W) (r : Result Stream)
        → accept_stream c d s ≡ some (t, r)
        → P s
        → P t
    pub accepts_uni :
        (c : AcceptCase) (d : Bool) (s t : Session W) (r : Result ℕ)
        → accept_unidirectional_stream c d s ≡ some (t, r)
        → P s
        → P t
    pub writes : (a : ℕ) (p : List ℕ) (s : Session W) → P s → P (write net q a p s).0
    pub pads : (a : ℕ) (n : ℤ) (s : Session W) → P s → P (write_padding net a n s).0
    pub finishes : (a : ℕ) (s : Session W) → P s → P (close_send net q a s).0
    pub reads : (a n : ℕ) (s : Session W) → P s → P (read a n s).0
    pub stops_reading : (a : ℕ) (s : Session W) → P s → P (close_receive a s)
    pub sends_datagram : (p : List ℕ) (s : Session W) → P s → P (send_datagram net p s).0
    pub receives_datagram : (s : Session W) → P s → P (receive_datagram s).0
    pub flushes : (s : Session W) → P s → P (flush net s)
    pub closes_with :
        (code : ℕ) (m : List ℕ) (s : Session W) → P s → P (close_with_error net code m s).0
    pub begins : (s t : Session W) → P s → P t → P (begun s t)
    pub stops : (s : Session W) → P s → P (store_stop s)
    pub ends_delivery : (s : Session W) → P s → P (close_datagram_delivery s)
    pub ends : (s : Session W) → P s → P (close_done s)
    pub sets :
        (n : ℤ) (s : Session W) → allowed n → P s → P (record s { stream_receive_buffer_size = n })

module _ {W : Type 0} (net : Transport W) (q : Quicvarint) (allowed : ℤ → Type 0)
    (P : Session W → Type 0) (k : Keeps q P) (c : Calls net q allowed P) where
  pub step-kept : (s t : Session W) (e : Step net q s t) → Sets net q allowed s t e → P s → P t
  unfolding Sets
  step-kept s t (checks h e) n i = subst P (sym e) (check_stop-kept q P k s i)
  step-kept s t (parses x h e) n i = subst P (sym e) (parsed-kept q P k x s i)
  step-kept s t (enqueues x e) n i = enqueue-kept q P k x s t e i
  step-kept s t (delivers d h e) n i = subst P (sym e) (deliver-kept q P k d s i)
  step-kept s t (opens e) n i = subst P (sym e) (c.opens s i)
  step-kept s t (opens_uni e) n i = subst P (sym e) (c.opens_uni s i)
  step-kept s t (accepts x d r e) n i = c.accepts x d s t r e i
  step-kept s t (accepts_uni x d r e) n i = c.accepts_uni x d s t r e i
  step-kept s t (writes a p e) n i = subst P (sym e) (c.writes a p s i)
  step-kept s t (pads a x e) n i = subst P (sym e) (c.pads a x s i)
  step-kept s t (finishes a e) n i = subst P (sym e) (c.finishes a s i)
  step-kept s t (reads a x e) n i = subst P (sym e) (c.reads a x s i)
  step-kept s t (stops_reading a e) n i = subst P (sym e) (c.stops_reading a s i)
  step-kept s t (sends_datagram p e) n i = subst P (sym e) (c.sends_datagram p s i)
  step-kept s t (receives_datagram e) n i = subst P (sym e) (c.receives_datagram s i)
  step-kept s t (flushes e) n i = subst P (sym e) (c.flushes s i)
  step-kept s t (closes e) n i = subst P (sym e) (k.closes s i)
  step-kept s t (closes_with code m e) n i = subst P (sym e) (c.closes_with code m s i)
  step-kept s t (begins_close u x a b e) n i =
      subst P (sym e) (c.begins s u i (step-kept s u x n i))
  step-kept s t (stores_stop a b e) n i = subst P (sym e) (c.stops s i)
  step-kept s t (closes_delivery a b e) n i = subst P (sym e) (c.ends_delivery s i)
  step-kept s t (closes_done a b e) n i = subst P (sym e) (c.ends s i)
  step-kept s t (sets_buffer_size x e) n i = subst P (sym e) (c.sets x s n i)

  pub reach-kept : (s t : Session W) (r : Reach net q s t) → AllSet net q allowed s t r → P s → P t
  unfolding AllSet
  reach-kept s _ here n i = i
  reach-kept s _ (next {t = u} r e) (n, m) i = step-kept u _ e m (reach-kept s u r n i)

-- Where the sizes do not matter.
module _ {W : Type 0} (net : Transport W) (q : Quicvarint) where
  pub any_size : (s t : Session W) (e : Step net q s t) → Sets net q (λ n. Unit {0}) s t e
  unfolding Sets
  any_size s t (checks h e) = tt
  any_size s t (parses x h e) = tt
  any_size s t (enqueues x e) = tt
  any_size s t (delivers d h e) = tt
  any_size s t (opens e) = tt
  any_size s t (opens_uni e) = tt
  any_size s t (accepts x d r e) = tt
  any_size s t (accepts_uni x d r e) = tt
  any_size s t (writes a p e) = tt
  any_size s t (pads a x e) = tt
  any_size s t (finishes a e) = tt
  any_size s t (reads a x e) = tt
  any_size s t (stops_reading a e) = tt
  any_size s t (sends_datagram p e) = tt
  any_size s t (receives_datagram e) = tt
  any_size s t (flushes e) = tt
  any_size s t (closes e) = tt
  any_size s t (closes_with x m e) = tt
  any_size s t (stores_stop a b e) = tt
  any_size s t (closes_delivery a b e) = tt
  any_size s t (closes_done a b e) = tt
  any_size s t (sets_buffer_size x e) = tt
  any_size s t (begins_close u x a b e) = any_size s u x
