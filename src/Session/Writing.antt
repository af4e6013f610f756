-- ===== src/Session/Writing.antt =====
-- `SendStream.Write` and the closing of a send half: what goes out, what is charged, what fails.
use webtransport_h2_go.Prelude.{
  ℕ, ◌≡◌, inl, inr, refl, ap, true, false, List, [], ◌++◌, Option, none, some, length, arith, get,
  Option-cases, Bool-cases,
}
use webtransport_h2_go.Errors.{Error, ok, err, closed_pipe}
use webtransport_h2_go.Wire.{Quicvarint}
use webtransport_h2_go.Capsule
use webtransport_h2_go.Flow.{Endpoint, reserve_send_data, refund_send_data}
use webtransport_h2_go.Flow.Charge.{IsBalanced, reserve_rejected, refund-reserve}
use webtransport_h2_go.Session.State.{Session, Transport}
use webtransport_h2_go.Session.Close.{write_capsule}
use webtransport_h2_go.Session.Send.{sender, write, write_reserved, after_write, close_send}

module _ {W : Type 0} (net : Transport W) (q : Quicvarint) (a : ℕ) (p : List ℕ)
    (s : Session W) where
  abbrev id : ℕ
  id = (sender a s).id

  abbrev reserved : Endpoint × Option Error
  reserved = reserve_send_data id (length p) s.endpoint

  -- The capsule of the write, handed to the transport.
  abbrev handed : W × Option Error
  handed = net.write_capsule Capsule.wt_stream (q.append [] id ++ p) s.writer

  -- A write on a closed half, and one that the peer's grant does not cover, sends nothing and changes
  -- nothing.
  pub write_sends_nothing :
      ((sender a s).closed ≡ true → write net q a p s ≡ (s, err closed_pipe))
      × ((e : Error)
          → (sender a s).closed ≡ false
          → reserved.1 ≡ some e
          → write net q a p s ≡ (s, err e))
  unfolding write write_reserved
  write_sends_nothing =
      (λ c. ground arith, λ e c r. ground (arith, reserve_rejected id (length p) s.endpoint e r))

  -- A write that fits hands exactly one WT_STREAM capsule to the transport, with the stream's ID and all
  -- the bytes. If the transport takes it, the write reports all bytes and they are charged; if not, the
  -- write reports the transport's error.
  pub write_hands :
      (sender a s).closed ≡ false
      → reserved.1 ≡ none
      → ((write net q a p s).0.writer ≡ handed.0)
        × (handed.1 ≡ none
            → write net q a p s
              ≡ (record s { endpoint = reserved.0; writer = handed.0 }, ok (length p)))
        × ((e : Error)
            → handed.1 ≡ some e
            → write net q a p s ≡ (
              record s { endpoint = refund_send_data id (length p) reserved.0; writer = handed.0 },
              err e,
            ))
  unfolding write write_reserved after_write write_capsule
  write_hands c r =
      (ground (arith, c, r), λ h. ground (arith, c, r, h), λ e h. ground (arith, c, r, h))

  reserve-refund :
      IsBalanced s.endpoint.limits
      → reserved.1 ≡ none
      → let t = refund_send_data id (length p) reserved.0 in
        (t.limits.data_sent ≡ s.endpoint.limits.data_sent)
        × ((j : ℕ) → get j t.limits.stream_sent ≡ get j s.endpoint.limits.stream_sent)
  reserve-refund b r = elim (Bool-cases s.endpoint.limits.active) [
    | inl on ↦ refund-reserve id (length p) s.endpoint on b r
    | inr off ↦
        unfold reserve_send_data refund_send_data in (ground (arith, off), λ j. ground (arith, off))
  ]

  -- Whatever makes a write fail, it ends up charged nothing: no counter moves.
  pub write_fails_free :
      (e : Error)
      → IsBalanced s.endpoint.limits
      → (write net q a p s).1 ≡ err e
      → ((write net q a p s).0.endpoint.limits.data_sent ≡ s.endpoint.limits.data_sent)
        × ((j : ℕ)
            → get j (write net q a p s).0.endpoint.limits.stream_sent
              ≡ get j s.endpoint.limits.stream_sent)
  write_fails_free e b h = elim (Bool-cases (sender a s).closed) [
    | inl c ↦ rw (write_sends_nothing.0 c) (refl, λ j. refl)
    | inr c ↦ elim (Option-cases reserved.1) [
      | inr (x, r) ↦ rw (write_sends_nothing.1 x c r) (refl, λ j. refl)
      | inl r ↦ elim (Option-cases handed.1) [
        | inl k ↦ cc (ap (λ x. x.1) ((write_hands c r).1 k))
        | inr (x, k) ↦ rw ((write_hands c r).2 x k) (reserve-refund b r)
      ]
    ]
  ]

-- Closing a send half: the FIN goes out once, and no data after it.
module _ {W : Type 0} (net : Transport W) (q : Quicvarint) (a : ℕ) (s : Session W) where
  closed_half : (sender a (close_send net q a s).0).closed ≡ true
  unfolding close_send write_capsule
  closed_half = ground arith

  fin_once :
      (p : List ℕ)
      → let t = (close_send net q a s).0 in
        (close_send net q a t ≡ (t, none)) × (write net q a p t ≡ (t, err closed_pipe))
  unfolding close_send
  fin_once p =
      let t = (close_send net q a s).0 in
      (ground (arith, closed_half), (write_sends_nothing net q a p t).0 closed_half)
