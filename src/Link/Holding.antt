-- ===== src/Link/Holding.antt =====
-- The steps that touch the receive half of a stream, and those of the read loop that hand over what it
-- is busy with.

use webtransport_h2_go.Prelude.{
  ℕ, ◌≡◌, ◌≢◌, ◌⊎◌, inl, inr, refl, sym, ap, ◌∙◌, arith, true, false, List, [], ◌++◌, some, ◌==◌,
  append-nil, append_assoc, Bool-cases, Option-cases, subst, lookup, ℕ-cases, ==_refl,
}
use webtransport_h2_go.Buffer.{StreamReceiveBuffer}
use webtransport_h2_go.Buffer
use webtransport_h2_go.Buffer.Fifo.{bytes_copied, read-bytes}
use webtransport_h2_go.Session.State.{Session, Stream, ReceiveStream}
use webtransport_h2_go.Session.Receive.{receiver, put_receiver, read, close_receive}
use webtransport_h2_go.Session.Registry.{some-inj}
use webtransport_h2_go.Link.{held, taken, HasStoppedReading}
use webtransport_h2_go.Link.Receiving.{alike, IsAimed-same, Kept, Carries, goes_on}

module _ {W : Type 0} (id : ℕ) where
  -- Another half is written back.
  pub put-Kept :
      (a : ℕ) (h : ReceiveStream) (s : Session W)
      → ((st : Stream) → lookup id s.streams ≡ some st → a ≢ st.receive)
      → Kept id s (put_receiver a h s)
  put-Kept a h s n = record {
    found = refl;
    half = λ st e.
        (let apart : (a == st.receive) ≡ false = ground (arith, n st e) in
          alike _ _ (rw apart refl));
  }

  pub held_at :
      (s : Session W) (st : Stream)
      → lookup id s.streams ≡ some st
      → held id s ≡ (receiver st.receive s).recv_buffer.bytes
  unfolding held
  held_at s st e = ground (arith, e)

  pub held_put :
      (s : Session W) (st : Stream) (h : ReceiveStream)
      → lookup id s.streams ≡ some st
      → held id (put_receiver st.receive h s) ≡ h.recv_buffer.bytes
  held_put s st h e = held_at (put_receiver st.receive h s) st e ∙ rw (==_refl st.receive) refl

  stopped_put :
      (s : Session W) (st : Stream) (h : ReceiveStream)
      → lookup id s.streams ≡ some st
      → h.closed ≡ (receiver st.receive s).closed
      → HasStoppedReading id s
      → HasStoppedReading id (put_receiver st.receive h s)
  unfolding HasStoppedReading
  stopped_put s st h e k (x, f, c) =
      let same : st ≡ x = some-inj st x (sym e ∙ f) in
      (
        st,
        e,
        rw (==_refl st.receive)
            (k ∙ subst (λ y. (receiver y.receive s).closed ≡ true) (sym same) c),
      )

  -- `Read` on the half of the stream.
  read_half :
      (s : Session W) (st : Stream) (n : ℕ) (wire sent received : List ℕ)
      → lookup id s.streams ≡ some st
      → Carries id s wire sent received
      → Carries id
          (read st.receive n s).0
          wire
          sent
          (received ++ bytes_copied (read st.receive n s).1)
  unfolding read
  read_half s st n wire sent received e c =
      let h = receiver st.receive s in
      let out = bytes_copied (Buffer.read n h.recv_buffer).1 in
      let left = (Buffer.read n h.recv_buffer).0 in
      let h' : ReceiveStream = record h { recv_buffer = left } in
      let kept : received ++ held id s
          ≡ (received ++ out) ++ held id (put_receiver st.receive h' s) =
        ap (◌++◌ received) (held_at s st e ∙ read-bytes n h.recv_buffer)
        ∙ sym (append_assoc received out left.bytes)
        ∙ ap (◌++◌ (received ++ out)) (sym (held_put s st h' e)) in
      record {
        aimed = IsAimed-same id s (put_receiver st.receive h' s) s.loop refl c.aimed;
        rest = c.rest;
        whole = c.whole ∙ ap (λ x. x ++ c.rest) kept;
        going = elim c.going [
          | inl o ↦ inl o
          | inr (inl o) ↦ inr (inl (stopped_put s st h' e refl o))
          | inr (inr o) ↦ inr (inr o)
        ];
      }

  -- `ReceiveStream.Close` on the half of the stream.
  close_half :
      (s : Session W) (st : Stream) (wire sent received : List ℕ)
      → lookup id s.streams ≡ some st
      → Carries id s wire sent received
      → Carries id (close_receive st.receive s) wire sent received
  unfolding close_receive Buffer.close HasStoppedReading
  close_half s st wire sent received e c = elim (Bool-cases (receiver st.receive s).closed) [
    | inl y ↦ rw (y, close_receive) c
    | inr n ↦
        let h = receiver st.receive s in
        let h' : ReceiveStream = record h {
          closed = true;
          recv_buffer = Buffer.close h.recv_buffer;
        } in
        rw (n, close_receive)
          (record {
            aimed = IsAimed-same id s (put_receiver st.receive h' s) s.loop refl c.aimed;
            rest = c.rest;
            whole =
                c.whole
                ∙ ap (λ x. (received ++ x) ++ c.rest) (held_at s st e ∙ sym (held_put s st h' e));
            going = inr (inl (st, e, rw (==_refl st.receive) refl));
          })
  ]

  -- A call on some half.
  pub on_half :
      (a : ℕ) (s : Session W)
      → ((st : Stream) × (lookup id s.streams ≡ some st) × (st.receive ≡ a))
        ⊎ ((st : Stream) → lookup id s.streams ≡ some st → a ≢ st.receive)
  on_half a s = elim (Option-cases (lookup id s.streams)) [
    | inl n ↦ inr (λ st e. absurd (ground (arith, sym n ∙ e)))
    | inr (st, e) ↦ elim (ℕ-cases st.receive a) [
      | inl y ↦ inl (st, e, y)
      | inr n ↦ inr (λ x f y. n (sym (y ∙ ap (λ z. z.receive) (some-inj x st (sym f ∙ e)))))
    ]
  ]

  taken_other :
      (a n : ℕ) (s : Session W)
      → ((st : Stream) → lookup id s.streams ≡ some st → a ≢ st.receive)
      → taken id a n s ≡ []
  unfolding taken
  taken_other a n s k = elim (Option-cases (lookup id s.streams)) [
    | inl e ↦ ground (arith, e)
    | inr (st, e) ↦ ground (arith, e, k st e)
  ]

  pub read-Carries :
      (a n : ℕ) (s : Session W) (wire sent received : List ℕ)
      → Carries id s wire sent received
      → Carries id (read a n s).0 wire sent (received ++ taken id a n s)
  unfolding taken
  read-Carries a n s wire sent received c = elim (on_half a s) [
    | inl (st, e, y) ↦
        let out : taken id st.receive n s ≡ bytes_copied (read st.receive n s).1 =
          ground (arith, e, ==_refl st.receive) in
        subst (λ x. Carries id (read x n s).0 wire sent (received ++ taken id x n s)) y
          (subst (λ x. Carries id (read st.receive n s).0 wire sent (received ++ x)) (sym out)
            (read_half s st n wire sent received e c))
    | inr k ↦
        let t = (read a n s).0 in
        let out : taken id a n s ≡ [] = taken_other a n s k in
        let none_out : received ≡ received ++ taken id a n s =
          sym (append-nil received) ∙ ap (◌++◌ received) (sym out) in
        subst (λ x. Carries id t wire sent x) none_out
          (unfold read in
            goes_on id s t wire wire sent received (put-Kept a _ s k)
              (IsAimed-same id s t s.loop refl c.aimed) (λ o. o) refl c)
  ]

  pub close_receive-Carries :
      (a : ℕ) (s : Session W) (wire sent received : List ℕ)
      → Carries id s wire sent received
      → Carries id (close_receive a s) wire sent received
  close_receive-Carries a s wire sent received c = elim (on_half a s) [
    | inl (st, e, y) ↦
        subst (λ x. Carries id (close_receive x s) wire sent received) y
          (close_half s st wire sent received e c)
    | inr k ↦ elim (Bool-cases (receiver a s).closed) [
      | inl y ↦ unfold close_receive in rw (y, close_receive) c
      | inr n ↦
          let h = receiver a s in
          let h' : ReceiveStream = record h {
            closed = true;
            recv_buffer = Buffer.close h.recv_buffer;
          } in
          let t = put_receiver a h' s in
          let after : Carries id t wire sent received =
            goes_on id s t wire wire sent received (put-Kept a h' s k)
              (IsAimed-same id s t s.loop refl c.aimed) (λ o. o) refl c in
          unfold close_receive in rw (n, close_receive) after
    ]
  ]
