-- ===== src/Link/Sending.antt =====
-- What a step of the sending session puts on the wire for a stream: the bytes that it wrote.
use webtransport_h2_go.Prelude.{
  ℕ, ◌<◌, ◌^◌, ◌≡◌, ◌⊎◌, inl, inr, refl, sym, ap, ◌∙◌, arith, Bool, true, false, List, [], ◌∷◌,
  ◌++◌, Option, none, some, length, if◌then◌else◌, Bool-cases, Option-cases, ℤ, is_negative, ltb,
  subst,
}
use webtransport_h2_go.Errors.{Error, session_closed}
use webtransport_h2_go.Wire.{Quicvarint, IsQuicvarint}
use webtransport_h2_go.Capsule
use webtransport_h2_go.Session.State.{Session}
use webtransport_h2_go.Session.Close.{
  put_uint32, write_capsule, close_with_error, after_close_capsule, set_close_err, close,
  close_datagram_delivery, flush,
}
use webtransport_h2_go.Session.Send.{sender, write_padding, close_send, send_datagram}
use webtransport_h2_go.Session.Receive.{read}
use webtransport_h2_go.Session.Keeps.{check_stop-kept, parsed-kept, deliver-kept, enqueue-kept}
use webtransport_h2_go.Session.Quiet.{
  loop_keeps-HasWritten, open_stream_quiet, open_uni_quiet, accept_quiet, accept_uni_quiet,
  close_quiet, delivery_quiet, close_receive_quiet,
}
use webtransport_h2_go.Session.Steps.{
  Step, checks, parses, enqueues, delivers, opens, opens_uni, accepts, accepts_uni, writes, pads,
  finishes, reads, stops_reading, sends_datagram, receives_datagram, flushes, closes, closes_with,
  begins_close, stores_stop, closes_delivery, closes_done, sets_buffer_size, receive_datagram,
}
use webtransport_h2_go.Link.{Wire, onto_wire, carried, in_flight, written, IsEncodable}
use webtransport_h2_go.Link.OnWire.{
  in_flight-snoc, carried-stream, carried-fin, write-wire, unchanged, beside,
}

module _ (q : Quicvarint) (v : IsQuicvarint q) (id : ℕ)
    (fails : ℕ → List ℕ → Wire → Option Error) where
  -- The wire of `t` is that of `s`, with at most one capsule more, which carries nothing of the stream.
  record Beside (s t : Session Wire) : Type 0 where
    wire :
        (t.writer ≡ s.writer)
        ⊎ ((c : ℕ × List ℕ) × (t.writer ≡ s.writer ++ c ∷ []) × (carried q id c ≡ []))

  capsule-Beside :
      (typ : ℕ) (p : List ℕ) (s s' : Session Wire)
      → s'.writer ≡ s.writer
      → carried q id (typ, p) ≡ []
      → Beside s (write_capsule (onto_wire fails) typ p s').0
  unfolding write_capsule
  capsule-Beside typ p s s' e n = elim (Option-cases (fails typ p s'.writer)) [
    | inl took ↦ rw took (record { wire = inr ((typ, p), ap (λ w. w ++ (typ, p) ∷ []) e, n) })
    | inr (x, f) ↦ rw f (record { wire = inl e })
  ]

  first-Beside :
      (b : Bool) (s : Session Wire) (x y : Session Wire × Option Error)
      → Beside s x.0
      → Beside s y.0
      → Beside s (if b then x else y).0
  first-Beside true s x y i j = i
  first-Beside false s x y i j = j

  still : (s : Session Wire) → Beside s s
  still s = record { wire = inl refl }

  pad-Beside :
      (a : ℕ) (n : ℤ) (s : Session Wire) → Beside s (write_padding (onto_wire fails) a n s).0
  unfolding write_padding carried
  pad-Beside a n s = elim (Bool-cases (sender a s).closed) [
    | inl y ↦ rw (y, write_padding) (still s)
    | inr y ↦ elim (Bool-cases (is_negative n)) [
      | inl m ↦ rw (y, write_padding, m) (still s)
      | inr m ↦ rw (y, write_padding, m) (capsule-Beside Capsule.padding _ s s refl refl)
    ]
  ]

  fin-Beside :
      (a : ℕ) (s : Session Wire)
      → (sender a s).id < 2 ^ 62
      → Beside s (close_send (onto_wire fails) q a s).0
  unfolding close_send
  fin-Beside a s h = elim (Bool-cases (sender a s).closed) [
    | inl y ↦ rw (y, close_send) (still s)
    | inr y ↦
        rw (y, close_send)
          (capsule-Beside Capsule.wt_stream_fin _ s _ refl (carried-fin q v id _ h))
  ]

  datagram-Beside :
      (p : List ℕ) (s : Session Wire) → Beside s (send_datagram (onto_wire fails) p s).0
  unfolding send_datagram carried
  datagram-Beside p s =
      first-Beside s.stop s (s, some session_closed)
        (write_capsule (onto_wire fails) Capsule.datagram p s) (still s)
        (capsule-Beside Capsule.datagram p s s refl refl)

  moved : (s t u : Session Wire) → u.writer ≡ t.writer → Beside s t → Beside s u
  moved s t u e i = record { wire = rw e i.wire }

  after_close-Beside :
      (code : ℕ) (m : List ℕ) (s : Session Wire) (r : Session Wire × Option Error)
      → Beside s r.0
      → Beside s (after_close_capsule (onto_wire fails) code m r).0
  unfolding after_close_capsule flush set_close_err close close_datagram_delivery
  after_close-Beside code m s (t, some e) i = i
  after_close-Beside code m s (t, none) i = moved s t _ (ground arith) i

  close_with-Beside :
      (code : ℕ) (m : List ℕ) (s : Session Wire)
      → Beside s (close_with_error (onto_wire fails) code m s).0
  unfolding close_with_error carried
  close_with-Beside code m s = elim (Bool-cases (ltb 1024 (length m))) [
    | inl y ↦ rw (y, close_with_error) (still s)
    | inr y ↦
        let payload = put_uint32 code ++ m in
        let sent = write_capsule (onto_wire fails) Capsule.wt_close_session payload s in
        rw (y, close_with_error)
          (first-Beside s.stop s (s, some session_closed)
            (after_close_capsule (onto_wire fails) code m sent) (still s)
            (after_close-Beside code m s sent
              (capsule-Beside Capsule.wt_close_session payload s s refl refl)))
  ]

  -- What a step of the sending session puts on the wire for the stream are the bytes that the step wrote
  -- to it, at the end.
  pub step-in_flight :
      (s t : Session Wire) (e : Step (onto_wire fails) q s t)
      → IsEncodable s t e
      → in_flight q id t.writer ≡ in_flight q id s.writer ++ written id s t e
  unfolding written IsEncodable read receive_datagram flush
  step-in_flight s t (checks h e) n = unchanged q v id s t (
      ap (λ x. x.writer) e
      ∙ (check_stop-kept q _ (loop_keeps-HasWritten s.writer q) s
          (record { writer = refl })).writer)
  step-in_flight s t (parses x h e) n = unchanged q v id s t (
      ap (λ x. x.writer) e
      ∙ (parsed-kept q _ (loop_keeps-HasWritten s.writer q) x s (record { writer = refl })).writer)
  step-in_flight s t (enqueues c e) n =
      unchanged q v id s t
        (enqueue-kept q _ (loop_keeps-HasWritten s.writer q) c s t e
          (record { writer = refl })).writer
  step-in_flight s t (delivers d h e) n = unchanged q v id s t (
      ap (λ x. x.writer) e
      ∙ (deliver-kept q _ (loop_keeps-HasWritten s.writer q) d s (record { writer = refl })).writer)
  step-in_flight s t (opens e) n = unchanged q v id s t (ap (λ x. x.writer) e ∙ open_stream_quiet s)
  step-in_flight s t (opens_uni e) n =
      unchanged q v id s t (ap (λ x. x.writer) e ∙ open_uni_quiet s)
  step-in_flight s t (accepts c d r e) n = unchanged q v id s t (accept_quiet s c d t r e)
  step-in_flight s t (accepts_uni c d r e) n = unchanged q v id s t (accept_uni_quiet s c d t r e)
  step-in_flight s t (writes a p e) n = elim (write-wire q v id fails a p s) [
    | inl (r, w) ↦ rw r (
        ap (λ x. in_flight q id x.writer) e
        ∙ ap (in_flight q id) w
        ∙ in_flight-snoc q v id s.writer _
        ∙ ap (◌++◌ (in_flight q id s.writer)) (carried-stream q v id (sender a s).id p n))
    | inr (x, r, w) ↦ rw r (
        unchanged q v id s t (ap (λ y. y.writer) e ∙ w)
        ∙ ap (◌++◌ (in_flight q id s.writer)) (ground arith))
  ]
  step-in_flight s t (pads a k e) n =
      beside q v id s t (subst (Beside s) (sym e) (pad-Beside a k s)).wire
  step-in_flight s t (finishes a e) n =
      beside q v id s t (subst (Beside s) (sym e) (fin-Beside a s n)).wire
  step-in_flight s t (reads a k e) n = unchanged q v id s t (ap (λ x. x.writer) e)
  step-in_flight s t (stops_reading a e) n =
      unchanged q v id s t (ap (λ x. x.writer) e ∙ close_receive_quiet s a)
  step-in_flight s t (sends_datagram p e) n =
      beside q v id s t (subst (Beside s) (sym e) (datagram-Beside p s)).wire
  step-in_flight s t (receives_datagram e) n = unchanged q v id s t (ap (λ x. x.writer) e)
  step-in_flight s t (flushes e) n = unchanged q v id s t (ap (λ x. x.writer) e)
  step-in_flight s t (closes e) n = unchanged q v id s t (ap (λ x. x.writer) e ∙ close_quiet s)
  step-in_flight s t (closes_with code m e) n =
      beside q v id s t (subst (Beside s) (sym e) (close_with-Beside code m s)).wire
  step-in_flight s t (begins_close u x a b e) n =
      ap (λ y. in_flight q id y.writer) e ∙ step-in_flight s u x n
  step-in_flight s t (stores_stop a b e) n = unchanged q v id s t (ap (λ x. x.writer) e)
  step-in_flight s t (closes_delivery a b e) n =
      unchanged q v id s t (ap (λ x. x.writer) e ∙ delivery_quiet s)
  step-in_flight s t (closes_done a b e) n = unchanged q v id s t (ap (λ x. x.writer) e)
  step-in_flight s t (sets_buffer_size k e) n = unchanged q v id s t (ap (λ x. x.writer) e)
