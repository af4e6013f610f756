-- ===== src/Link/Delivered.antt =====
-- The read loop hands a payload to a receive half.
use webtransport_h2_go.Prelude.{
  ℕ, ◌≡◌, ◌≢◌, ◌⊎◌, inl, inr, refl, sym, ap, ◌∙◌, arith, true, false, List, [], ◌++◌, Option, none,
  some, Bool-cases, subst, lookup,
}
use webtransport_h2_go.Errors.{Error, closed_pipe, stream_receive_buffer_full, Result}
use webtransport_h2_go.Buffer.{StreamReceiveBuffer, exceeds}
use webtransport_h2_go.Buffer
use webtransport_h2_go.Buffer.Fifo.{write_cases}
use webtransport_h2_go.Session.State.{Session, Stream, Delivery, at_top, delivering}
use webtransport_h2_go.Session.Receive.{error_of, receiver, put_receiver, receive_stream_data}
use webtransport_h2_go.Session.ReadLoop.{exit, go_to, after_receive, deliver}
use webtransport_h2_go.Session.Registry.{IsAt, IsBound, IsSound}
use webtransport_h2_go.Link.{HasStoppedReading, pending, payload_for}
use webtransport_h2_go.Link.Receiving.{alike, IsAimed, Aim, Kept, Carries, goes_on, exits}
use webtransport_h2_go.Link.Holding.{put-Kept, on_half}
use webtransport_h2_go.Link.Settled.{put-Alike, after-Settles, settles, grows, drops}

module _ {W : Type 0} (id : ℕ) where
  -- Another half takes the payload, or does not.
  elsewhere :
      (d : Delivery) (s : Session W) (wire sent received : List ℕ) (r : Session W × Option Error)
      → s.loop ≡ delivering d
      → payload_for id d ≡ []
      → Kept id s r.0
      → Carries id s wire sent received
      → Carries id (after_receive d r) wire sent received
  unfolding after_receive pending
  elsewhere d s wire sent received (u, some e) l n k c = exits id s u wire wire sent received k c
  elsewhere d s wire sent received (u, none) l n k c =
      settles id u (after_receive d (u, none)) wire sent received (after-Settles id d u) (
        goes_on id s (go_to at_top u) wire wire sent received
          (record { found = k.found; half = k.half }) tt (λ o. absurd (ground (arith, sym l ∙ o)))
          (ap (λ x. pending id x ++ wire) l ∙ ap (λ x. x ++ wire) n) c)

  receive-Kept :
      (a : ℕ) (p : List ℕ) (s : Session W)
      → ((st : Stream) → lookup id s.streams ≡ some st → a ≢ st.receive)
      → Kept id s (receive_stream_data a p s).0
  unfolding receive_stream_data
  receive-Kept a p s k = elim (Bool-cases (receiver a s).closed) [
    | inl y ↦ rw (y, receive_stream_data) (record { found = refl; half = λ st e. alike _ _ refl })
    | inr n ↦ rw (n, receive_stream_data) (put-Kept id a _ s k)
  ]

  open_half :
      (a : ℕ) (p : List ℕ) (s : Session W)
      → (receiver a s).closed ≡ false
      → let h = receiver a s in
        let r = Buffer.write p h.recv_buffer in
        receive_stream_data a p s
        ≡ (put_receiver a (record h { recv_buffer = r.0 }) s, error_of r.1)
  unfolding receive_stream_data
  open_half a p s n = ground (arith, n)

  -- What becomes of a payload at a half.
  received_cases :
      (a : ℕ) (p : List ℕ) (s : Session W)
      → let h = receiver a s in
        ((h.closed ≡ true) × (receive_stream_data a p s ≡ (s, none)))
        ⊎ ((h.closed ≡ false)
            × ((e : Error) × (receive_stream_data a p s ≡ (put_receiver a h s, some e))))
        ⊎ ((h.closed ≡ false)
            × (receive_stream_data a p s ≡ (
              put_receiver a
                  (record h {
                    recv_buffer = record h.recv_buffer { bytes = h.recv_buffer.bytes ++ p };
                  })
                  s,
              none,
            )))
  unfolding receive_stream_data
  received_cases a p s =
      let h = receiver a s in
      let took : h.closed ≡ false
          → (r : StreamReceiveBuffer × Result ℕ) → Buffer.write p h.recv_buffer ≡ r
          → receive_stream_data a p s
            ≡ (put_receiver a (record h { recv_buffer = r.0 }) s, error_of r.1) =
        λ n r w.
          open_half a p s n
          ∙ ap (λ x. (put_receiver a (record h { recv_buffer = x.0 }) s, error_of x.1)) w in
      elim (Bool-cases h.closed) [
        | inl y ↦ inl (y, rw (y, receive_stream_data) refl)
        | inr n ↦ elim (write_cases p h.recv_buffer) [
          | inl (c, w) ↦ inr (inl (n, (closed_pipe, took n _ w)))
          | inr (inl (c, full, w)) ↦ inr (inl (n, (stream_receive_buffer_full, took n _ w)))
          | inr (inr (c, room, w)) ↦ inr (inr (n, took n _ w))
        ]
      ]

  -- The half of the stream takes the payload.
  on_target :
      (d : Delivery) (st : Stream) (s : Session W) (wire sent received : List ℕ)
      → s.loop ≡ delivering d
      → lookup id s.streams ≡ some st
      → d.target ≡ st.receive
      → d.id ≡ id
      → Carries id s wire sent received
      → Carries id (deliver d s) wire sent received
  unfolding deliver HasStoppedReading
  on_target d st s wire sent received l e a same c =
      subst
        (λ x. Carries id (after_receive d (receive_stream_data x d.payload s)) wire sent received)
        (sym a)
        (elim (received_cases st.receive d.payload s) [
          | inl (k, r) ↦ rw r (drops id s _ wire sent received (after-Settles id d s) (st, e, k) c)
          | inr (inl (k, (x, r))) ↦
              let h = receiver st.receive s in
              let u = put_receiver st.receive h s in
              let over : Carries id (exit u) wire sent received =
                exits id s u wire wire sent received
                  (put-Alike id st.receive h s (record { bytes = refl; closed = refl })) c in
              unfold after_receive in rw r over
          | inr (inr (k, r)) ↦
              let b = (receiver st.receive s).recv_buffer in
              let b' : StreamReceiveBuffer = record b { bytes = b.bytes ++ d.payload } in
              rw r (
                settles id _ _ wire sent received (after-Settles id d _)
                  (grows id s d st b' wire sent received e l same k refl c))
        ])

  pub deliver-Carries :
      (d : Delivery) (s : Session W) (wire sent received : List ℕ)
      → s.loop ≡ delivering d
      → IsSound s
      → Carries id s wire sent received
      → Carries id (deliver d s) wire sent received
  deliver-Carries d s wire sent received l i c =
      let aim : Aim id s d = subst (IsAimed id s) l c.aimed in
      elim (on_half id d.target s) [
        | inl (st, e, y) ↦
            let (below, named) : IsAt s.receive_heap d.target d.id =
              subst (IsBound s.receive_heap) l i.routed.bound in
            let (below', named') = i.routed.of_bidi id st e in
            on_target d st s wire sent received l e (sym y)
              (sym named ∙ ap (λ x. (s.receive_heap.cell x).id) (sym y) ∙ named') c
        | inr k ↦
            let apart : d.id ≢ id = λ h. (let (st, e, t) = aim h in k st e t) in
            unfold deliver in
            elsewhere d s wire sent received (receive_stream_data d.target d.payload s) l
              (ground (arith, apart)) (receive-Kept d.target d.payload s k) c
      ]
