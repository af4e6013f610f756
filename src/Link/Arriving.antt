-- ===== src/Link/Arriving.antt =====
-- A capsule that reaches the receiving session: the loop takes up the bytes that it carries.
use webtransport_h2_go.Prelude.{
  ℕ, ◌≡◌, ◌≢◌, inl, inr, refl, sym, ap, ◌∙◌, arith, Bool, true, false, List, [], ◌++◌, none, some,
  ◌==◌, ◌||◌, if◌then◌else◌, Bool-cases, Option-cases, subst, lookup, insert, lookup-insert,
  ℕ-cases, ==_refl, ==_iff,
}
use webtransport_h2_go.Errors.{Error, Result-cases}
use webtransport_h2_go.Wire.{Quicvarint, Content, read_all}
use webtransport_h2_go.Capsule
use webtransport_h2_go.StreamId.{is_bidirectional_stream, is_our_stream}
use webtransport_h2_go.Buffer.{new_stream_receive_buffer}
use webtransport_h2_go.Session.State.{Session, Stream, parsing, exited}
use webtransport_h2_go.Session.Receive.{receiver}
use webtransport_h2_go.Session.Streams.{new_stream, new_receive_stream, new_send_stream}
use webtransport_h2_go.Session.ReadLoop.{
  capsule, exit, fail_read, with_value, route_bidi, route, handle_stream, handle_capsule, parsed,
}
use webtransport_h2_go.Session.Registry.{IsSound}
use webtransport_h2_go.Link.{held, HasStoppedReading, pending, carried, when_id}
use webtransport_h2_go.Link.Receiving.{alike, IsAimed, Carries, goes_on, exits, ends}
use webtransport_h2_go.Link.Routes.{Skips, other_type-Skips, route-Skips, fail_read-Skips}

module _ (q : Quicvarint) (id : ℕ) where
  carried-when_id :
      (typ : ℕ) (p : List ℕ)
      → (typ == Capsule.wt_stream || typ == Capsule.wt_stream_fin) ≡ true
      → carried q id (typ, p) ≡ when_id q id (q.read (record { bytes = p; fault = none }))
  unfolding carried
  carried-when_id typ p y = rw y refl

  carried-none :
      (typ : ℕ) (p : List ℕ)
      → (typ == Capsule.wt_stream || typ == Capsule.wt_stream_fin) ≡ false
      → carried q id (typ, p) ≡ []
  unfolding carried
  carried-none typ p n = rw n refl

module _ {W : Type 0} (q : Quicvarint) (id : ℕ) where
  not_over : (s : Session W) → s.loop ≡ parsing → s.loop ≢ exited
  not_over s l o = ground (arith, sym l ∙ o)

  skips :
      (s t : Session W) (c wire sent received : List ℕ)
      → s.loop ≡ parsing
      → Skips id s t
      → c ≡ []
      → Carries id s (c ++ wire) sent received
      → Carries id t wire sent received
  unfolding pending
  skips s t c wire sent received l k n =
      goes_on id s t (c ++ wire) wire sent received k.kept k.aimed (λ o. absurd (not_over s l o))
        (rw (l, n, k.idle) refl)

  fails :
      (e : Error) (s : Session W) (c wire sent received : List ℕ)
      → Carries id s (c ++ wire) sent received
      → Carries id (fail_read e s) wire sent received
  fails e s c wire sent received =
      let k = fail_read-Skips id e s s (record { found = refl; half = λ st f. alike _ _ refl }) in
      ends id s (fail_read e s) (c ++ wire) wire sent received k.kept
        (unfold fail_read exit in refl)

  held-none : (s : Session W) → lookup id s.streams ≡ none → held id s ≡ []
  unfolding held
  held-none s e = ground (arith, e)

  held_empty :
      (s : Session W) (st : Stream)
      → lookup id s.streams ≡ some st
      → (receiver st.receive s).recv_buffer.bytes ≡ []
      → held id s ≡ []
  unfolding held
  held_empty s st e n = ground (arith, e, n)

  -- The stream is new to the session.
  starts :
      (s t : Session W) (st : Stream) (p wire sent received : List ℕ)
      → s.loop ≡ parsing
      → lookup id s.streams ≡ none
      → lookup id t.streams ≡ some st
      → (receiver st.receive t).recv_buffer.bytes ≡ []
      → IsAimed id t t.loop
      → pending id t.loop ≡ p
      → Carries id s (p ++ wire) sent received
      → Carries id t wire sent received
  unfolding HasStoppedReading pending
  starts s t st p wire sent received l e f n a b c = record {
    aimed = a;
    rest = c.rest;
    whole =
        c.whole ∙ ap (λ h. (received ++ h) ++ c.rest) (held-none s e ∙ sym (held_empty t st f n));
    going = elim c.going [
      | inl o ↦ absurd (not_over s l o)
      | inr (inl (x, g, k)) ↦ absurd (ground (arith, sym e ∙ g))
      | inr (inr o) ↦
          inr (inr (o ∙ ap (λ m. pending id m ++ (p ++ wire)) l ∙ ap (λ x. x ++ wire) (sym b)))
    ];
  }

  -- A capsule for the stream itself.
  takes_up :
      (fin : Bool) (p wire sent received : List ℕ) (s : Session W)
      → s.loop ≡ parsing
      → is_bidirectional_stream id ≡ true
      → is_our_stream s.endpoint.is_server id ≡ false
      → Carries id s (p ++ wire) sent received
      → Carries id (route id fin p s) wire sent received
  unfolding route route_bidi new_stream new_receive_stream new_send_stream pending
      new_stream_receive_buffer
  takes_up fin p wire sent received s l bidi theirs c = elim (Option-cases (lookup id s.streams)) [
    | inr (st, e) ↦
        rw (bidi, e, route_bidi)
          (goes_on id s _ (p ++ wire) wire sent received
            (record { found = refl; half = λ x f. alike _ _ refl }) (λ same. (st, e, refl))
            (λ o. absurd (not_over s l o)) (rw (l, ==_refl id) refl) c)
    | inl e ↦
        let st : Stream = record {
          id = id;
          receive = s.receive_heap.next;
          send = s.send_heap.next;
        } in
        let there : lookup id (insert id st s.streams) ≡ some st =
          lookup-insert id id st s.streams ∙ rw (==_refl id) refl in
        rw (bidi, e, route_bidi, theirs)
          (starts s _ st p wire sent received l e there (rw (==_refl s.receive_heap.next) refl)
            (λ same. (st, there, refl)) (rw (==_refl id) refl) c)
  ]

  -- A capsule of a stream, read as far as its ID.
  stream_capsule :
      (typ : ℕ) (content : Content) (s : Session W)
      → (typ == Capsule.wt_stream || typ == Capsule.wt_stream_fin) ≡ true
      → handle_capsule q typ content s ≡ handle_stream q (typ == Capsule.wt_stream_fin) content s
  unfolding handle_capsule
  stream_capsule typ content s y = ground (arith, y)

  module _ (s : Session W) (l : s.loop ≡ parsing) (i : IsSound s)
      (bidi : is_bidirectional_stream id ≡ true)
      (theirs : is_our_stream s.endpoint.is_server id ≡ false) (wire sent received : List ℕ) where
    routed :
        (other : ℕ) (fin : Bool) (p : List ℕ)
        → Carries id s ((if other == id then p else []) ++ wire) sent received
        → Carries id (route other fin p s) wire sent received
    routed other fin p c = elim (ℕ-cases other id) [
      | inl same ↦
          subst (λ x. Carries id (route x fin p s) wire sent received) (sym same)
            (takes_up fin p wire sent received s l bidi theirs (
              subst (λ x. Carries id s (x ++ wire) sent received)
                (rw ((==_iff other id).1 same) refl) c))
      | inr apart ↦
          skips s _ (if other == id then p else []) wire sent received l
            (route-Skips id other p fin s i apart) (ground (arith, apart)) c
    ]

    handled :
        (fin : Bool) (content : Content)
        → Carries id s (when_id q id (q.read content) ++ wire) sent received
        → Carries id (handle_stream q fin content s) wire sent received
    unfolding handle_stream with_value read_all
    handled fin content c = elim (Result-cases (q.read content)) [
      | inr (x, e) ↦
          rw (e, handle_stream)
            (exits id s s _ wire sent received
              (record { found = refl; half = λ st f. alike _ _ refl }) c)
      | inl ((other, rest), e) ↦
          let c' : Carries id s ((if other == id then rest.bytes else []) ++ wire) sent received =
            subst (λ r. Carries id s (when_id q id r ++ wire) sent received) e c in
          rw (e, handle_stream)
            (elim (Option-cases rest.fault) [
              | inl n ↦ rw (n, with_value) (routed other fin rest.bytes c')
              | inr (x, f) ↦ rw (f, with_value) (fails x s _ wire sent received c')
            ])
    ]

    -- The read loop takes a capsule off the wire.
    pub parsed-Carries :
        (typ : ℕ) (p : List ℕ)
        → Carries id s (carried q id (typ, p) ++ wire) sent received
        → Carries id
            (parsed q (capsule typ (record { bytes = p; fault = none })) s)
            wire
            sent
            received
    unfolding parsed
    parsed-Carries typ p c =
        elim (Bool-cases (typ == Capsule.wt_stream || typ == Capsule.wt_stream_fin)) [
          | inl y ↦ rw (stream_capsule typ (record { bytes = p; fault = none }) s y) (
              handled _ _ (
                subst (λ b. Carries id s (b ++ wire) sent received) (carried-when_id q id typ p y)
                  c))
          | inr n ↦
              skips s _ _ wire sent received l (other_type-Skips id q typ _ s n)
                (carried-none q id typ p n) c
        ]
