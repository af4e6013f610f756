-- ===== src/Link/Settled.antt =====
-- What a delivery leaves of a stream: more bytes in its half, or the same.
use webtransport_h2_go.Prelude.{
  ℕ, ◌≡◌, inl, inr, refl, sym, ap, ◌∙◌, arith, false, List, ◌++◌, none, some, ◌==◌, append_assoc,
  Bool-cases, subst, lookup, ==_iff,
}
use webtransport_h2_go.Buffer.{StreamReceiveBuffer, exceeds}
use webtransport_h2_go.Buffer
use webtransport_h2_go.Session.State.{Session, Stream, ReceiveStream, Delivery, at_top, delivering}
use webtransport_h2_go.Session.Receive.{receiver, put_receiver, finish_receive}
use webtransport_h2_go.Session.ReadLoop.{go_to, after_receive}
use webtransport_h2_go.Session.Registry.{some-inj}
use webtransport_h2_go.Link.{held, HasStoppedReading, pending}
use webtransport_h2_go.Link.Receiving.{
  held-Kept, stopped-Kept, Alike, alike, IsAimed, Kept, Carries, goes_on,
}
use webtransport_h2_go.Link.Holding.{held_at, held_put}

module _ {W : Type 0} (id : ℕ) where
  pub put-Alike :
      (a : ℕ) (h : ReceiveStream) (s : Session W)
      → Alike (receiver a s) h
      → Kept id s (put_receiver a h s)
  put-Alike a h s k = record {
    found = refl;
    half = λ st e. elim (Bool-cases (a == st.receive)) [
      | inl y ↦
          let same : a ≡ st.receive = (==_iff a st.receive).0 y in
          rw y (subst (λ x. Alike (receiver x s) h) same k)
      | inr n ↦ alike _ _ (rw n refl)
    ];
  }

  finish-Kept : (a : ℕ) (s : Session W) → Kept id s (finish_receive a s)
  unfolding finish_receive Buffer.close
  finish-Kept a s =
      let h = receiver a s in
      put-Alike a (record h { recv_buffer = Buffer.close h.recv_buffer }) s
        (record { bytes = refl; closed = refl })

  -- What follows a delivery that was taken.
  pub record Settles (s t : Session W) : Type 0 where
    pub kept : Kept id s t
    pub top : t.loop ≡ at_top

  pub after-Settles : (d : Delivery) (s : Session W) → Settles s (after_receive d (s, none))
  unfolding after_receive
  after-Settles d s =
      let k = finish-Kept d.target s in
      elim (Bool-cases d.fin) [
        | inr n ↦
            rw (n, after_receive)
              (record { kept = record { found = refl; half = λ st e. alike _ _ refl }; top = refl })
        | inl y ↦ elim (Bool-cases d.forget) [
          | inl f ↦
              rw (y, after_receive, f)
                (record { kept = record { found = k.found; half = k.half }; top = refl })
          | inr f ↦
              rw (y, after_receive, f)
                (record { kept = record { found = k.found; half = k.half }; top = refl })
        ]
      ]

  pub settles :
      (s t : Session W) (wire sent received : List ℕ)
      → Settles s t
      → Carries id (go_to at_top s) wire sent received
      → Carries id t wire sent received
  unfolding pending
  settles s t wire sent received k c =
      goes_on id (go_to at_top s) t wire wire sent received
        (record { found = k.kept.found; half = k.kept.half }) (subst (IsAimed id t) (sym k.top) tt)
        (λ o. absurd (ground (arith, o))) (ap (λ l. pending id l ++ wire) (sym k.top)) c

  -- The half has room: it holds the payload too.
  pub grows :
      (s : Session W) (d : Delivery) (st : Stream) (b : StreamReceiveBuffer)
      (wire sent received : List ℕ)
      → lookup id s.streams ≡ some st
      → s.loop ≡ delivering d
      → d.id ≡ id
      → (receiver st.receive s).closed ≡ false
      → b.bytes ≡ (receiver st.receive s).recv_buffer.bytes ++ d.payload
      → Carries id s wire sent received
      → Carries id
          (go_to at_top
            (put_receiver st.receive (record (receiver st.receive s) { recv_buffer = b }) s))
          wire
          sent
          received
  unfolding pending HasStoppedReading held
  grows s d st b wire sent received e l same k more c =
      let h = receiver st.receive s in
      let h' : ReceiveStream = record h { recv_buffer = b } in
      let t = put_receiver st.receive h' s in
      let longer : held id t ≡ held id s ++ d.payload =
        held_put id s st h' e ∙ more ∙ ap (λ x. x ++ d.payload) (sym (held_at id s st e)) in
      let busy : pending id s.loop ≡ d.payload =
        ap (pending id) l ∙ rw ((==_iff d.id id).1 same) refl in
      let fits : c.rest ≡ pending id s.loop ++ wire → sent ≡ (received ++ held id t) ++ wire = λ o.
        c.whole
        ∙ ap (◌++◌ (received ++ held id s)) (o ∙ ap (λ x. x ++ wire) busy)
        ∙ sym (append_assoc (received ++ held id s) d.payload wire)
        ∙ ap (λ x. x ++ wire)
            (append_assoc received (held id s) d.payload ∙ ap (◌++◌ received) (sym longer)) in
      elim c.going [
        | inl o ↦ absurd (ground (arith, sym l ∙ o))
        | inr (inl (x, f, y)) ↦
            let known : st ≡ x = some-inj st x (sym e ∙ f) in
            absurd (ground (arith, sym k ∙ ap (λ z. (receiver z.receive s).closed) known ∙ y))
        | inr (inr o) ↦ record { aimed = tt; rest = wire; whole = fits o; going = inr (inr refl) }
      ]

  -- The application has closed the half: what comes is dropped.
  pub drops :
      (s t : Session W) (wire sent received : List ℕ)
      → Settles s t
      → HasStoppedReading id s
      → Carries id s wire sent received
      → Carries id t wire sent received
  drops s t wire sent received k h c = record {
    aimed = subst (IsAimed id t) (sym k.top) tt;
    rest = c.rest;
    whole = c.whole ∙ ap (λ x. (received ++ x) ++ c.rest) (sym (held-Kept id s t k.kept));
    going = inr (inl (stopped-Kept id s t k.kept h));
  }
