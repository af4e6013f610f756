-- ===== src/Session/Quiet.antt =====
-- The read loop of a session, and the calls that only take from it, write nothing to the peer.
use webtransport_h2_go.Prelude.{ℕ, ◌≡◌, refl, ◌∙◌, arith, Bool, some}
use webtransport_h2_go.Errors.{Result}
use webtransport_h2_go.Wire.{Quicvarint}
use webtransport_h2_go.Session.State.{Session, Stream}
use webtransport_h2_go.Session.Close.{
  close, close_datagram_delivery, set_close_err, set_close_reason,
}
use webtransport_h2_go.Session.Receive.{receive_stream_data, finish_receive, close_receive}
use webtransport_h2_go.Session.Streams.{
  new_stream, new_receive_stream, new_send_stream, add_stream, add_send_stream, opened, open_stream,
  open_unidirectional_stream, AcceptCase, accept_stream, accept_unidirectional_stream,
  enqueue_incoming_stream, enqueue_incoming_uni_stream,
}
use webtransport_h2_go.Session.ReadLoop.{deliver_datagram, route, route_bidi, route_uni}
use webtransport_h2_go.Session.Keeps.{Keeps}

module _ {W : Type 0} (w : W) where
  pub record HasWritten (s : Session W) : Type 0 where
    pub writer : s.writer ≡ w

  same : (s t : Session W) → t.writer ≡ s.writer → HasWritten s → HasWritten t
  same s t e i = record { writer = e ∙ i.writer }

  pub loop_keeps-HasWritten : (q : Quicvarint) → Keeps q HasWritten
  unfolding close close_datagram_delivery set_close_err set_close_reason deliver_datagram
      enqueue_incoming_stream enqueue_incoming_uni_stream receive_stream_data finish_receive route
      route_bidi route_uni new_stream new_receive_stream new_send_stream
  loop_keeps-HasWritten q = record {
    moves = λ l s. same s _ refl;
    closes = λ s. same s _ (ground arith);
    errs = λ e s. same s _ (ground arith);
    reasons = λ r s. same s _ (ground arith);
    routes = λ id fin p s. same s _ (ground arith);
    buffers = λ p s. same s _ refl;
    limits = λ typ c s. same s _ refl;
    queues = λ c st s t r e. same s t (ground (arith, e));
    queues_uni = λ c a s t r e. same s t (ground (arith, e));
    receives = λ a p s. same s _ (ground arith);
    finishes = λ a s. same s _ refl;
    forgets = λ id s. same s _ refl;
  }

module _ {W : Type 0} (s : Session W) where
  pub open_stream_quiet : (open_stream s).0.writer ≡ s.writer
  unfolding open_stream opened add_stream new_stream new_receive_stream new_send_stream
  open_stream_quiet = ground arith

  pub open_uni_quiet : (open_unidirectional_stream s).0.writer ≡ s.writer
  unfolding open_unidirectional_stream opened add_send_stream new_send_stream
  open_uni_quiet = ground arith

  pub accept_quiet :
      (c : AcceptCase) (d : Bool) (t : Session W) (r : Result Stream)
      → accept_stream c d s ≡ some (t, r)
      → t.writer ≡ s.writer
  unfolding accept_stream
  accept_quiet c d t r e = ground arith

  pub accept_uni_quiet :
      (c : AcceptCase) (d : Bool) (t : Session W) (r : Result ℕ)
      → accept_unidirectional_stream c d s ≡ some (t, r)
      → t.writer ≡ s.writer
  unfolding accept_unidirectional_stream
  accept_uni_quiet c d t r e = ground arith

  pub delivery_quiet : (close_datagram_delivery s).writer ≡ s.writer
  unfolding close_datagram_delivery
  delivery_quiet = ground arith

  pub close_quiet : (close s).writer ≡ s.writer
  unfolding close close_datagram_delivery
  close_quiet = ground arith

  pub close_receive_quiet : (a : ℕ) → (close_receive a s).writer ≡ s.writer
  unfolding close_receive
  close_receive_quiet a = ground arith
