-- ===== src/Session/Flags.antt =====
-- session.go: the flags of the end of a session over the read loop's steps.
use webtransport_h2_go.Prelude.{
  ℕ, ◌≡◌, inl, inr, Bool, true, false, List, Option, none, some, if◌then◌else◌, arith, Bool-cases,
  Option-cases,
}
use webtransport_h2_go.Errors.{Error, Result-cases, is_clean_connect_teardown, flow_control_error}
use webtransport_h2_go.Wire.{Content, Quicvarint, read_all}
use webtransport_h2_go.Flow.{Endpoint}
use webtransport_h2_go.Datagram
use webtransport_h2_go.Datagram.{new_datagram_receive_buffer}
use webtransport_h2_go.Session.State.{Session, Delivery, at_top, exited, CloseReason}
use webtransport_h2_go.Session.Close.{
  close, close_datagram_delivery, set_close_err, set_close_reason, parse_wt_close_session,
}
use webtransport_h2_go.Session.Receive.{receive_stream_data, finish_receive}
use webtransport_h2_go.Session.Streams.{
  new_stream, new_receive_stream, new_send_stream, EnqueueCase, enqueue_incoming_stream,
  enqueue_incoming_uni_stream,
}
use webtransport_h2_go.Session.ReadLoop.{
  Inbound, capsule, broken, exit, go_to, check_stop, fail_read, fail_parse, with_value, route_bidi,
  route_uni, route, handle_stream, deliver_datagram, handle_close, after_limit, handle_capsule,
  parsed, enqueue, after_receive, deliver,
}

module _ {W : Type 0} where
  -- `Close` sets its flags in this order, one after the other.
  pub record IsOrdered (s : Session W) : Type 0 where
    pub stopped : s.stop ≡ true → s.close_once ≡ true
    pub delivery : s.close_datagram_delivery_once ≡ true → s.stop ≡ true
    pub finished : s.done ≡ true → s.close_datagram_delivery_once ≡ true
    pub datagrams : s.datagram_buffer.closed ≡ s.close_datagram_delivery_once

  pub record Inv (s : Session W) : Type 0 where
    pub flags : IsOrdered s
    pub over : s.loop ≡ exited → s.close_once ≡ true

  exit-Inv : (s : Session W) → IsOrdered s → Inv (exit s)
  unfolding exit close close_datagram_delivery Datagram.close
  exit-Inv s c = ground arith

  err-flags : (e : Error) (s : Session W) → IsOrdered s → IsOrdered (set_close_err e s)
  unfolding set_close_err
  err-flags e s c = ground arith

  reason-flags : (r : CloseReason) (s : Session W) → IsOrdered s → IsOrdered (set_close_reason r s)
  unfolding set_close_reason
  reason-flags r s c = ground arith

  fail_read-Inv : (e : Error) (s : Session W) → IsOrdered s → Inv (fail_read e s)
  unfolding fail_read
  fail_read-Inv e s c = elim (Bool-cases (is_clean_connect_teardown e)) [
    | inl y ↦ rw y (exit-Inv _ (reason-flags _ s c))
    | inr n ↦ rw n (exit-Inv s c)
  ]

  with_value-Inv :
      (content : Content) (f : List ℕ → Session W → Session W) (s : Session W)
      → IsOrdered s
      → ((p : List ℕ) → Inv (f p s))
      → Inv (with_value content f s)
  unfolding with_value
  with_value-Inv content f s c k = elim (Result-cases (read_all content)) [
    | inl (p, e) ↦ rw (e, with_value) (k p)
    | inr (x, e) ↦ rw (e, with_value) (fail_read-Inv x s c)
  ]

  at_top-Inv : (s : Session W) → IsOrdered s → Inv (go_to at_top s)
  at_top-Inv s c = ground arith

  route-Inv :
      (id : ℕ) (fin : Bool) (p : List ℕ) (s : Session W) → IsOrdered s → Inv (route id fin p s)
  unfolding route route_bidi route_uni new_stream new_receive_stream new_send_stream
  route-Inv id fin p s c = ground arith

  handle_stream-Inv :
      (q : Quicvarint) (fin : Bool) (content : Content) (s : Session W)
      → IsOrdered s
      → Inv (handle_stream q fin content s)
  unfolding handle_stream
  handle_stream-Inv q fin content s c = elim (Result-cases (q.read content)) [
    | inl ((id, rest), e) ↦
        rw (e, handle_stream) (with_value-Inv rest (route id fin) s c (λ p. route-Inv id fin p s c))
    | inr (x, e) ↦ rw (e, handle_stream) (exit-Inv s c)
  ]

  handle_close-Inv : (p : List ℕ) (s : Session W) → IsOrdered s → Inv (handle_close p s)
  unfolding handle_close
  handle_close-Inv p s c = elim (Result-cases (parse_wt_close_session p)) [
    | inl ((code, message), e) ↦ rw (e, handle_close) (exit-Inv _ (err-flags _ s c))
    | inr (x, e) ↦ rw (e, handle_close) (exit-Inv _ (reason-flags _ s c))
  ]

  limit-Inv : (r : Endpoint × Option Error) (s : Session W) → IsOrdered s → Inv (after_limit r s)
  unfolding after_limit
  limit-Inv (e, none) s c = ground arith
  limit-Inv (e, some x) s c = elim (Option-cases (flow_control_error x)) [
    | inr (reason, h) ↦ rw (h, after_limit) (exit-Inv _ (err-flags _ _ (ground arith)))
    | inl h ↦ rw (h, after_limit) (fail_read-Inv x _ (ground arith))
  ]

  choose : (b : Bool) {x y : Session W} → Inv x → Inv y → Inv (if b then x else y)
  choose true p r = p
  choose false p r = r

  handle_capsule-Inv :
      (q : Quicvarint) (typ : ℕ) (content : Content) (s : Session W)
      → IsOrdered s
      → Inv (handle_capsule q typ content s)
  unfolding handle_capsule deliver_datagram Datagram.write
  handle_capsule-Inv q typ content s c =
      let skip = with_value-Inv content (λ p. go_to at_top) s c (λ p. at_top-Inv s c) in
      choose _ skip (
        choose _ (handle_stream-Inv q _ content s c) (
          choose _
            (with_value-Inv content (λ p t. go_to at_top (deliver_datagram p t)) s c
              (λ p. ground arith))
            (choose _ (with_value-Inv content handle_close s c (λ p. handle_close-Inv p s c))
              (choose _ (at_top-Inv s c) (choose _ (limit-Inv _ s c) skip)))))

  pub parsed-Inv : (q : Quicvarint) (i : Inbound) (s : Session W) → IsOrdered s → Inv (parsed q i s)
  unfolding parsed fail_parse
  parsed-Inv q (capsule typ content) s c = handle_capsule-Inv q typ content s c
  parsed-Inv q (broken e) s c = exit-Inv _ (reason-flags _ s c)

  pub check_stop-Inv : (s : Session W) → IsOrdered s → Inv (check_stop s)
  unfolding check_stop
  check_stop-Inv s c = choose s.stop (exit-Inv s c) (ground arith)

  receive-flags :
      (a : ℕ) (p : List ℕ) (s : Session W) → IsOrdered s → IsOrdered (receive_stream_data a p s).0
  unfolding receive_stream_data
  receive-flags a p s c = ground arith

  after_receive-Inv :
      (d : Delivery) (r : Session W × Option Error) → IsOrdered r.0 → Inv (after_receive d r)
  unfolding after_receive finish_receive
  after_receive-Inv d (s, some e) c = exit-Inv s c
  after_receive-Inv d (s, none) c = ground arith

  pub deliver-Inv : (d : Delivery) (s : Session W) → IsOrdered s → Inv (deliver d s)
  unfolding deliver
  deliver-Inv d s c = after_receive-Inv d _ (receive-flags d.target d.payload s c)

  pub enqueue-Inv : (c : EnqueueCase) (s t : Session W) → enqueue c s ≡ some t → IsOrdered s → Inv t
  unfolding enqueue enqueue_incoming_stream enqueue_incoming_uni_stream exit close
      close_datagram_delivery Datagram.close
  enqueue-Inv c s t e k = ground arith
