-- ===== src/Session/Keeps.antt =====
-- What the read loop of session.go keeps: one rule for each thing that it does to a session.
use mathlib.Core.Option
use webtransport_h2_go.Prelude.{
  ℕ, ◌≡◌, refl, subst, arith, Bool, true, false, not, List, Option, none, some, if◌then◌else◌,
  Option-cases, inl, inr, delete,
}
use webtransport_h2_go.Errors.{Error, Result-cases, is_clean_connect_teardown, flow_control_error}
use webtransport_h2_go.Wire.{Content, Quicvarint, read_all}
use webtransport_h2_go.Flow.{Endpoint, handle_send_limit_capsule}
use webtransport_h2_go.Session.State.{
  Session, Stream, Delivery, ReadLoop, at_top, parsing, exited, enqueuing_stream, enqueuing_uni,
  delivering, CloseReason,
}
use webtransport_h2_go.Session.Close.{
  close, set_close_err, set_close_reason, parse_wt_close_session,
}
use webtransport_h2_go.Session.Receive.{receive_stream_data, finish_receive}
use webtransport_h2_go.Session.Streams.{
  EnqueueCase, enqueue_incoming_stream, enqueue_incoming_uni_stream,
}
use webtransport_h2_go.Session.Registry.{some-inj}
use webtransport_h2_go.Session.ReadLoop.{
  Inbound, capsule, broken, exit, go_to, check_stop, fail_read, fail_parse, with_value, route,
  handle_stream, deliver_datagram, handle_close, after_limit, handle_capsule, parsed, after_enqueue,
  enqueue, after_receive, deliver,
}

module _ {W : Type 0} where
  -- A property of sessions that says nothing of where the loop stands, and that each effect of the loop
  -- keeps.
  pub record Keeps (q : Quicvarint) (P : Session W → Type 0) : Type 0 where
    pub moves : (l : ReadLoop) (s : Session W) → P s → P (go_to l s)
    pub closes : (s : Session W) → P s → P (close s)
    pub errs : (e : Error) (s : Session W) → P s → P (set_close_err e s)
    pub reasons : (r : CloseReason) (s : Session W) → P s → P (set_close_reason r s)
    pub routes : (id : ℕ) (fin : Bool) (p : List ℕ) (s : Session W) → P s → P (route id fin p s)
    pub buffers : (p : List ℕ) (s : Session W) → P s → P (deliver_datagram p s)
    pub limits :
        (typ : ℕ) (c : Content) (s : Session W)
        → P s
        → P (record s { endpoint = (handle_send_limit_capsule q typ c s.endpoint).0 })
    pub queues :
        (c : EnqueueCase) (st : Stream) (s t : Session W) (b : Bool)
        → enqueue_incoming_stream c st s ≡ some (t, b)
        → P s
        → P t
    pub queues_uni :
        (c : EnqueueCase) (a : ℕ) (s t : Session W) (b : Bool)
        → enqueue_incoming_uni_stream c a s ≡ some (t, b)
        → P s
        → P t
    pub receives : (a : ℕ) (p : List ℕ) (s : Session W) → P s → P (receive_stream_data a p s).0
    pub finishes : (a : ℕ) (s : Session W) → P s → P (finish_receive a s)
    pub forgets :
        (id : ℕ) (s : Session W)
        → P s
        → P (record s { receive_streams = delete id s.receive_streams })

module _ {W : Type 0} (q : Quicvarint) (P : Session W → Type 0) (k : Keeps q P) where
  choose : (b : Bool) {x y : Session W} → P x → P y → P (if b then x else y)
  choose true p r = p
  choose false p r = r

  exit-kept : (s : Session W) → P s → P (exit s)
  unfolding exit
  exit-kept s i = k.moves exited _ (k.closes s i)

  fail_read-kept : (e : Error) (s : Session W) → P s → P (fail_read e s)
  unfolding fail_read
  fail_read-kept e s i = exit-kept _ (choose (is_clean_connect_teardown e) (k.reasons _ s i) i)

  with_value-kept :
      (content : Content) (f : List ℕ → Session W → Session W) (s : Session W)
      → P s
      → ((p : List ℕ) → P (f p s))
      → P (with_value content f s)
  unfolding with_value
  with_value-kept content f s i h = elim (Result-cases (read_all content)) [
    | inl (p, e) ↦ rw (e, with_value) (h p)
    | inr (x, e) ↦ rw (e, with_value) (fail_read-kept x s i)
  ]

  handle_stream-kept :
      (fin : Bool) (content : Content) (s : Session W) → P s → P (handle_stream q fin content s)
  unfolding handle_stream
  handle_stream-kept fin content s i = elim (Result-cases (q.read content)) [
    | inl ((id, rest), e) ↦
        rw (e, handle_stream) (with_value-kept rest (route id fin) s i (λ p. k.routes id fin p s i))
    | inr (x, e) ↦ rw (e, handle_stream) (exit-kept s i)
  ]

  handle_close-kept : (p : List ℕ) (s : Session W) → P s → P (handle_close p s)
  unfolding handle_close
  handle_close-kept p s i = elim (Result-cases (parse_wt_close_session p)) [
    | inl ((code, message), e) ↦ rw (e, handle_close) (exit-kept _ (k.errs _ s i))
    | inr (x, e) ↦ rw (e, handle_close) (exit-kept _ (k.reasons _ s i))
  ]

  limit-kept :
      (r : Endpoint × Option Error) (s : Session W)
      → P (record s { endpoint = r.0 })
      → P (after_limit r s)
  unfolding after_limit
  limit-kept (e, none) s i = k.moves at_top _ i
  limit-kept (e, some x) s i = elim (Option-cases (flow_control_error x)) [
    | inr (reason, h) ↦ rw (h, after_limit) (exit-kept _ (k.errs _ _ i))
    | inl h ↦ rw (h, after_limit) (fail_read-kept x _ i)
  ]

  handle_capsule-kept :
      (typ : ℕ) (content : Content) (s : Session W) → P s → P (handle_capsule q typ content s)
  unfolding handle_capsule
  handle_capsule-kept typ content s i =
      let skip = with_value-kept content (λ p. go_to at_top) s i (λ p. k.moves at_top s i) in
      choose _ skip (
        choose _ (handle_stream-kept _ content s i) (
          choose _
            (with_value-kept content (λ p t. go_to at_top (deliver_datagram p t)) s i
              (λ p. k.moves at_top _ (k.buffers p s i)))
            (choose _ (with_value-kept content handle_close s i (λ p. handle_close-kept p s i)) (
              choose _ (k.moves at_top s i)
                (choose _ (limit-kept _ s (k.limits typ content s i)) skip)))))

  pub parsed-kept : (i : Inbound) (s : Session W) → P s → P (parsed q i s)
  unfolding parsed fail_parse
  parsed-kept (capsule typ content) s i = handle_capsule-kept typ content s i
  parsed-kept (broken e) s i = exit-kept _ (k.reasons _ s i)

  pub check_stop-kept : (s : Session W) → P s → P (check_stop s)
  unfolding check_stop
  check_stop-kept s i = choose s.stop (exit-kept s i) (k.moves parsing s i)

  after_receive-kept : (d : Delivery) (r : Session W × Option Error) → P r.0 → P (after_receive d r)
  unfolding after_receive
  after_receive-kept d (s, some e) i = exit-kept s i
  after_receive-kept d (s, none) i =
      let f = k.finishes d.target s i in
      choose (not d.fin) (k.moves at_top s i)
        (k.moves at_top _ (choose d.forget (k.forgets d.id _ f) f))

  pub deliver-kept : (d : Delivery) (s : Session W) → P s → P (deliver d s)
  unfolding deliver
  deliver-kept d s i = after_receive-kept d _ (k.receives d.target d.payload s i)

  after_enqueue-kept : (d : Delivery) (r : Session W × Bool) → P r.0 → P (after_enqueue d r)
  after_enqueue-kept d (s, true) i = k.moves (delivering d) s i
  after_enqueue-kept d (s, false) i = exit-kept s i

  handed_over-kept :
      (d : Delivery) (o : Option (Session W × Bool)) (t : Session W)
      → ((u : Session W) (b : Bool) → o ≡ some (u, b) → P u)
      → Option.map (after_enqueue d) o ≡ some t
      → P t
  handed_over-kept d none t h e = absurd (ground (arith, e))
  handed_over-kept d (some (u, b)) t h e =
      subst P (some-inj (after_enqueue d (u, b)) t e) (after_enqueue-kept d (u, b) (h u b refl))

  abbrev enqueued_at : ReadLoop → EnqueueCase → Session W → Option (Session W)
  enqueued_at l c s = elim l [
    | enqueuing_stream st d ↦ Option.map (after_enqueue d) (enqueue_incoming_stream c st s)
    | enqueuing_uni a d ↦ Option.map (after_enqueue d) (enqueue_incoming_uni_stream c a s)
    | _ ↦ none
  ]

  at-kept :
      (l : ReadLoop) (c : EnqueueCase) (s t : Session W) → enqueued_at l c s ≡ some t → P s → P t
  at-kept (enqueuing_stream st d) c s t e i =
      handed_over-kept d _ t (λ u b o. k.queues c st s u b o i) e
  at-kept (enqueuing_uni a d) c s t e i =
      handed_over-kept d _ t (λ u b o. k.queues_uni c a s u b o i) e
  at-kept at_top c s t e i = absurd (ground (arith, e))
  at-kept parsing c s t e i = absurd (ground (arith, e))
  at-kept exited c s t e i = absurd (ground (arith, e))
  at-kept (delivering d) c s t e i = absurd (ground (arith, e))

  pub enqueue-kept : (c : EnqueueCase) (s t : Session W) → enqueue c s ≡ some t → P s → P t
  unfolding enqueue
  enqueue-kept c s t e i = at-kept s.loop c s t e i
