-- ===== src/Link/Acting.antt =====
-- Each step of the receiving session that takes nothing off the wire.
use mathlib.Core.Option
use webtransport_h2_go.Prelude.{
  ℕ, ◌≡◌, ◌≢◌, refl, sym, ap, ◌∙◌, arith, Bool, true, false, List, [], ◌++◌, Option, none, some,
  ◌==◌, if◌then◌else◌, append-nil, subst, lookup-insert,
}
use webtransport_h2_go.Errors.{Error, session_closed, Result, ok, err}
use webtransport_h2_go.Wire.{Quicvarint}
use webtransport_h2_go.StreamId.{is_our_stream}
use webtransport_h2_go.Flow.{Endpoint, alloc_local_stream}
use webtransport_h2_go.Flow.Side.{alloc-IsSided}
use webtransport_h2_go.Session.State.{
  Session, Transport, Delivery, ReadLoop, at_top, parsing, exited, enqueuing_stream, enqueuing_uni,
  delivering,
}
use webtransport_h2_go.Session.Close.{set_close_reason, begun}
use webtransport_h2_go.Session.Streams.{
  EnqueueCase, enqueue_incoming_stream, enqueue_incoming_uni_stream, new_stream, new_receive_stream,
  new_send_stream, add_stream, opened, open_stream,
}
use webtransport_h2_go.Session.ReadLoop.{
  capsule, broken, exit, go_to, check_stop, fail_parse, parsed, after_enqueue, enqueue,
}
use webtransport_h2_go.Session.Steps.{
  Step, checks, parses, enqueues, delivers, opens, opens_uni, accepts, accepts_uni, writes, pads,
  finishes, reads, stops_reading, sends_datagram, receives_datagram, flushes, closes, closes_with,
  begins_close, stores_stop, closes_delivery, closes_done, sets_buffer_size,
}
use webtransport_h2_go.Session.Registry.{
  begun-Aside, stop-Aside, delivery-Aside, done-Aside, size-Aside, IsSound, Aside, some-inj,
  set_reason-Aside, close-Aside,
}
use webtransport_h2_go.Session.Routing.{queued_stream, queued_uni, enqueued_at}
use webtransport_h2_go.Session.Routed.{
  open_uni-Aside, accept-Aside, accept_uni-Aside, receive_datagram-Aside, write-Aside,
  write_padding-Aside, close_send-Aside, send_datagram-Aside, flush-Aside, close_with_error-Aside,
}
use webtransport_h2_go.Session.Side.{IsOn}
use webtransport_h2_go.Link.{pending, taken, read_out, IsLocal}
use webtransport_h2_go.Link.Receiving.{
  alike, IsAimed, Kept, Aside-Kept, IsAimed-same, Carries, goes_on, exits, passes,
}
use webtransport_h2_go.Link.Routes.{fresh-half}
use webtransport_h2_go.Link.Holding.{read-Carries, close_receive-Carries}
use webtransport_h2_go.Link.Delivered.{deliver-Carries}

module _ {W : Type 0} (id : ℕ) where
  check_stop-Carries :
      (s : Session W) (wire sent received : List ℕ)
      → s.loop ≡ at_top
      → Carries id s wire sent received
      → Carries id (check_stop s) wire sent received
  unfolding check_stop pending
  check_stop-Carries s wire sent received l c =
      let k : Kept id s s = record { found = refl; half = λ st e. alike _ _ refl } in
      elim s.stop as (λ b. Carries id (if b then exit s else go_to parsing s) wire sent received) [
        | true ↦ exits id s s wire wire sent received k c
        | false ↦
            goes_on id s (go_to parsing s) wire wire sent received
              (record { found = refl; half = λ st e. alike _ _ refl }) tt
              (λ o. absurd (ground (arith, sym l ∙ o))) (ap (λ x. pending id x ++ wire) l) c
      ]

  broken-Carries :
      (e : Error) (s : Session W) (wire sent received : List ℕ)
      → Carries id s wire sent received
      → Carries id (fail_parse e s) wire sent received
  unfolding fail_parse
  broken-Carries e s wire sent received c =
      exits id s (set_close_reason _ s) wire wire sent received
        (Aside-Kept id s _ (set_reason-Aside _ s)) c

  -- The loop goes on to deliver what it handed over a stream for, or returns.
  handed_over :
      (d : Delivery) (o : Option (Session W × Bool)) (s t : Session W) (wire sent received : List ℕ)
      → ((u : Session W) (b : Bool) → o ≡ some (u, b) → Aside s u)
      → Option.map (after_enqueue d) o ≡ some t
      → IsAimed id s (delivering d)
      → s.loop ≢ exited
      → pending id s.loop ≡ pending id (delivering d)
      → Carries id s wire sent received
      → Carries id t wire sent received
  handed_over d none s t wire sent received q e a l p c = absurd (ground (arith, e))
  handed_over d (some (u, true)) s t wire sent received q e a l p c =
      let aside = q u true refl in
      let k = Aside-Kept id s u aside in
      subst (λ x. Carries id x wire sent received) (some-inj (go_to (delivering d) u) t e)
        (goes_on id s (go_to (delivering d) u) wire wire sent received
          (record { found = k.found; half = k.half }) (IsAimed-same id s u (delivering d) k.found a)
          (λ o. absurd (l o)) (ap (λ x. x ++ wire) p) c)
  handed_over d (some (u, false)) s t wire sent received q e a l p c =
      subst (λ x. Carries id x wire sent received) (some-inj (exit u) t e)
        (exits id s u wire wire sent received (Aside-Kept id s u (q u false refl)) c)

  at-Carries :
      (l : ReadLoop) (n : EnqueueCase) (s t : Session W) (wire sent received : List ℕ)
      → s.loop ≡ l
      → enqueued_at l n s ≡ some t
      → Carries id s wire sent received
      → Carries id t wire sent received
  unfolding pending
  at-Carries (enqueuing_stream st d) n s t wire sent received l e c =
      handed_over d (enqueue_incoming_stream n st s) s t wire sent received
        (λ u o. queued_stream n st s u o) e (subst (IsAimed id s) l c.aimed)
        (λ o. ground (arith, sym l ∙ o)) (ap (pending id) l) c
  at-Carries (enqueuing_uni a d) n s t wire sent received l e c =
      handed_over d (enqueue_incoming_uni_stream n a s) s t wire sent received
        (λ u o. queued_uni n a s u o) e (subst (IsAimed id s) l c.aimed)
        (λ o. ground (arith, sym l ∙ o)) (ap (pending id) l) c
  at-Carries at_top n s t wire sent received l e c = absurd (ground (arith, e))
  at-Carries parsing n s t wire sent received l e c = absurd (ground (arith, e))
  at-Carries exited n s t wire sent received l e c = absurd (ground (arith, e))
  at-Carries (delivering d) n s t wire sent received l e c = absurd (ground (arith, e))

  enqueue-Carries :
      (n : EnqueueCase) (s t : Session W) (wire sent received : List ℕ)
      → enqueue n s ≡ some t
      → Carries id s wire sent received
      → Carries id t wire sent received
  unfolding enqueue
  enqueue-Carries n s t wire sent received e c = at-Carries s.loop n s t wire sent received refl e c

  opened-Kept :
      (r : Endpoint × Result ℕ) (s : Session W)
      → ((other : ℕ) → r.1 ≡ ok other → other ≢ id)
      → IsSound s
      → Kept id s (opened s add_stream r).0 × ((opened s add_stream r).0.loop ≡ s.loop)
  unfolding opened add_stream new_stream new_receive_stream new_send_stream
  opened-Kept (e, err x) s n i = (record { found = refl; half = λ st f. alike _ _ refl }, refl)
  opened-Kept (e, ok other) s n i =
      let apart : (other == id) ≡ false = ground (arith, n other refl) in
      (
        record {
          found = lookup-insert other id _ s.streams ∙ rw apart refl;
          half = λ st f. alike _ _ (fresh-half id s _ st i f);
        },
        refl,
      )

  open_stream-Carries :
      (b : Bool) (s : Session W) (wire sent received : List ℕ)
      → is_our_stream b id ≡ false
      → IsOn b s
      → IsSound s
      → Carries id s wire sent received
      → Carries id (open_stream s).0 wire sent received
  unfolding open_stream
  open_stream-Carries b s wire sent received theirs o i c =
      let r = alloc_local_stream true s.endpoint in
      let own = (alloc-IsSided b true s.endpoint o.side).1 in
      let (k, l) =
        opened-Kept r s
          (λ other e same.
            ground (arith, own other e, subst (λ x. is_our_stream b x ≡ false) (sym same) theirs))
          i in
      let t = (opened s add_stream r).0 in
      elim s.stop
        as (λ x.
          Carries id (if x then (s, err session_closed) else opened s add_stream r).0 wire sent
            received) [
              | true ↦ c
              | false ↦
                  goes_on id s t wire wire sent received k
                    (subst (IsAimed id t) (sym l) (IsAimed-same id s t s.loop k.found c.aimed))
                    (λ x. l ∙ x) (ap (λ x. pending id x ++ wire) (sym l)) c
            ]

module _ {W : Type 0} (net : Transport W) (q : Quicvarint) (id : ℕ) (b : Bool)
    (theirs : is_our_stream b id ≡ false) (wire sent received : List ℕ) where
  -- Nothing was read.
  plain :
      (t : Session W) → Carries id t wire sent received → Carries id t wire sent (received ++ [])
  plain t c = subst (λ x. Carries id t wire sent x) (sym (append-nil received)) c

  by :
      {t u : Session W}
      → t ≡ u
      → Carries id u wire sent received
      → Carries id t wire sent (received ++ [])
  by {t = t} e c = plain t (subst (λ x. Carries id x wire sent received) (sym e) c)

  past :
      (s t u : Session W)
      → t ≡ u
      → Aside s u
      → Carries id s wire sent received
      → Carries id t wire sent (received ++ [])
  past s t u e a c = by e (passes id s u wire sent received a c)

  -- Whatever the application and the read loop do between two capsules: of what was sent on the stream,
  -- what was read and what is still held stays the front, with nothing lost behind it.
  pub step-Carries :
      (s t : Session W) (e : Step net q s t)
      → IsLocal s t e
      → IsOn b s
      → IsSound s
      → Carries id s wire sent received
      → Carries id t wire sent (received ++ read_out id s t e)
  unfolding IsLocal read_out parsed
  step-Carries s t (checks l e) k o i c = by e (check_stop-Carries id s wire sent received l c)
  step-Carries s t (parses (capsule typ x) l e) k o i c = absurd k
  step-Carries s t (parses (broken x) l e) k o i c =
      by e (broken-Carries id x s wire sent received c)
  step-Carries s t (enqueues n e) k o i c =
      plain t (enqueue-Carries id n s t wire sent received e c)
  step-Carries s t (delivers d l e) k o i c = by e (deliver-Carries id d s wire sent received l i c)
  step-Carries s t (opens e) k o i c =
      by e (open_stream-Carries id b s wire sent received theirs o i c)
  step-Carries s t (opens_uni e) k o i c = past s t _ e (open_uni-Aside s) c
  step-Carries s t (accepts n d r e) k o i c = past s t t refl (accept-Aside n d s t r e) c
  step-Carries s t (accepts_uni n d r e) k o i c = past s t t refl (accept_uni-Aside n d s t r e) c
  step-Carries s t (writes a p e) k o i c = past s t _ e (write-Aside net q a p s) c
  step-Carries s t (pads a n e) k o i c = past s t _ e (write_padding-Aside net a n s) c
  step-Carries s t (finishes a e) k o i c = past s t _ e (close_send-Aside net q a s) c
  step-Carries s t (reads a n e) k o i c =
      subst (λ x. Carries id x wire sent (received ++ taken id a n s)) (sym e)
        (read-Carries id a n s wire sent received c)
  step-Carries s t (stops_reading a e) k o i c =
      by e (close_receive-Carries id a s wire sent received c)
  step-Carries s t (sends_datagram p e) k o i c = past s t _ e (send_datagram-Aside net p s) c
  step-Carries s t (receives_datagram e) k o i c = past s t _ e (receive_datagram-Aside s) c
  step-Carries s t (flushes e) k o i c = past s t _ e (flush-Aside net s) c
  step-Carries s t (closes e) k o i c = past s t _ e (close-Aside s) c
  step-Carries s t (closes_with code m e) k o i c =
      past s t _ e (close_with_error-Aside net code m s) c
  step-Carries s t (begins_close u x f g e) k o i c =
      subst (λ y. Carries id y wire sent (received ++ read_out id s u x)) (sym e)
        (passes id u (begun s u) wire sent (received ++ read_out id s u x) (begun-Aside s u)
          (step-Carries s u x k o i c))
  step-Carries s t (stores_stop f g e) k o i c = past s t _ e (stop-Aside s) c
  step-Carries s t (closes_delivery f g e) k o i c = past s t _ e (delivery-Aside s) c
  step-Carries s t (closes_done f g e) k o i c = past s t _ e (done-Aside s) c
  step-Carries s t (sets_buffer_size n e) k o i c = past s t _ e (size-Aside n s) c
