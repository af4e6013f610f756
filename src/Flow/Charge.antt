-- ===== src/Flow/Charge.antt =====
-- `reserveSendData` and `refundSendData`: what one write is charged, and what it gets back.
use webtransport_h2_go.Prelude.{
  ℕ, ◌+◌, ◌-◌, ◌%◌, ◌≤◌, ◌<◌, ◌≡◌, ◌↔◌, true, none, some, arith, ◌==◌, if◌then◌else◌, u64, insert,
  get, total, get-insert, get-le-total,
}
use webtransport_h2_go.Errors.{Error}
use webtransport_h2_go.Flow.{Endpoint, SendLimits, reserve_send_data, refund_send_data}

-- The counters are in step: what the streams were charged adds up to what the session was charged.
pub record IsBalanced (l : SendLimits) : Type 0 where
  pub within_data : l.data_sent ≤ l.max_data
  pub data_range : l.max_data < u64
  pub ledger : total l.stream_sent ≡ l.data_sent

module _ (id n : ℕ) (s : Endpoint) where
  -- The write fits both grants.
  abbrev pub Fits : Type 0
  Fits =
      (s.limits.data_sent + n ≤ s.limits.max_data)
      × (get id s.limits.stream_sent + n ≤ get id s.limits.stream_max)

  -- A rejected write leaves the endpoint as it was.
  pub reserve_rejected :
      (e : Error) → (reserve_send_data id n s).1 ≡ some e → (reserve_send_data id n s).0 ≡ s
  unfolding reserve_send_data
  reserve_rejected e h = ground arith

  -- While limits are active, a write of at least one byte is accepted exactly when it fits.
  pub reserve_iff :
      s.limits.active ≡ true
      → 0 < n
      → s.limits.data_sent ≤ s.limits.max_data
      → get id s.limits.stream_sent ≤ get id s.limits.stream_max
      → ((reserve_send_data id n s).1 ≡ none) ↔ Fits
  unfolding reserve_send_data
  reserve_iff a p d m = (λ h. ground arith, λ h. ground arith)

  -- An accepted write is charged in full to its stream and to the session, and to no other stream.
  pub reserve_charges :
      s.limits.active ≡ true
      → IsBalanced s.limits
      → (reserve_send_data id n s).1 ≡ none
      → ((reserve_send_data id n s).0.limits.data_sent ≡ s.limits.data_sent + n)
        × ((j : ℕ)
            → get j (reserve_send_data id n s).0.limits.stream_sent
              ≡ get j s.limits.stream_sent + (if id == j then n else 0))
  unfolding reserve_send_data
  reserve_charges a b h = (
    ground (arith, b.within_data, b.data_range),
    λ j. ground (
      arith,
      b.within_data,
      b.data_range,
      b.ledger,
      get-le-total id s.limits.stream_sent,
      get-insert id j ((get id s.limits.stream_sent + n) % u64) s.limits.stream_sent,
    ),
  )

  -- A refund of what the stream was charged for at least.
  pub refund_returns :
      s.limits.active ≡ true
      → IsBalanced s.limits
      → n ≤ get id s.limits.stream_sent
      → ((refund_send_data id n s).limits.data_sent + n ≡ s.limits.data_sent)
        × ((j : ℕ)
            → get j (refund_send_data id n s).limits.stream_sent + (if id == j then n else 0)
              ≡ get j s.limits.stream_sent)
  unfolding refund_send_data
  refund_returns a b h = (
    ground (arith, b.ledger, get-le-total id s.limits.stream_sent),
    λ j. ground (arith, get-insert id j (get id s.limits.stream_sent - n) s.limits.stream_sent),
  )

-- The refund of an accepted write puts every counter back.
pub refund-reserve :
    (id n : ℕ) (s : Endpoint)
    → s.limits.active ≡ true
    → IsBalanced s.limits
    → (reserve_send_data id n s).1 ≡ none
    → let t = refund_send_data id n (reserve_send_data id n s).0 in
      (t.limits.data_sent ≡ s.limits.data_sent)
      × ((j : ℕ) → get j t.limits.stream_sent ≡ get j s.limits.stream_sent)
unfolding reserve_send_data refund_send_data
refund-reserve id n s a b h = (
  ground (arith, b.within_data, b.data_range),
  λ j. ground (
    arith,
    b.within_data,
    b.data_range,
    b.ledger,
    get-le-total id s.limits.stream_sent,
    get-insert id id ((get id s.limits.stream_sent + n) % u64) s.limits.stream_sent,
    get-insert id j ((get id s.limits.stream_sent + n) % u64) s.limits.stream_sent,
    get-insert id j (get id s.limits.stream_sent + n - n)
        (insert id ((get id s.limits.stream_sent + n) % u64) s.limits.stream_sent),
  ),
)
