-- ===== src/Flow/Soundness.antt =====
-- The invariant of the send limits, and that every function of flow.go keeps it.
use webtransport_h2_go.Prelude.{
  ℕ, ◌+◌, ◌-◌, ◌%◌, ◌≤◌, ◌<◌, ◌≡◌, Bool, true, none, some, arith, u64, lookup, get, total,
  get-insert, total-insert, get-le-total, Option-cases, Bool-cases, IsU64, inl, inr,
}
use webtransport_h2_go.Flow.{
  PeerInitialLimits, Endpoint, SendLimits, with_limits, no_limits, adopt_peer_send_limits,
  ensure_stream_send_limit, track_send_stream, initial_stream_send_limit, open_refused,
  count_opened, charge_open, alloc_local_stream, reserve_send_data, refund_send_data,
  raise_max_data, raise_max_stream_data, raise_max_streams, current_stream_limit,
}
use webtransport_h2_go.Flow.Charge.{IsBalanced}

-- Nothing is sent or opened beyond the grant, and the session's counter is the sum of the streams'.
pub record IsSound (l : SendLimits) : Type 0 where
  pub balanced : IsBalanced l
  pub open balanced use *
  pub within_stream : (id : ℕ) → get id l.stream_sent ≤ get id l.stream_max
  pub within_uni : l.opened_uni ≤ l.max_streams_uni
  pub within_bidi : l.opened_bidi ≤ l.max_streams_bidi
  pub uni_range : l.max_streams_uni < u64
  pub bidi_range : l.max_streams_bidi < u64

pub record IsGrant (p : PeerInitialLimits) : Type 0 where
  pub data_range : p.max_data < u64
  pub uni_range : p.max_streams_uni < u64
  pub bidi_range : p.max_streams_bidi < u64

pub no_limits-IsSound : IsSound no_limits
unfolding get lookup total
no_limits-IsSound = record {
  balanced = omega arith;
  within_stream = λ id. omega arith;
  within_uni = omega arith;
  within_bidi = omega arith;
  uni_range = omega arith;
  bidi_range = omega arith;
}

-- The limits that a session starts with.
pub adopt-IsSound :
    (p : PeerInitialLimits) (s : Endpoint)
    → IsGrant p
    → s.limits ≡ no_limits
    → IsSound (adopt_peer_send_limits p s).limits
unfolding adopt_peer_send_limits get lookup total
adopt-IsSound p s g e = rw e (record {
  balanced = ground arith;
  within_stream = λ id. omega arith;
  within_uni = omega arith;
  within_bidi = omega arith;
  uni_range = omega (arith, g.uni_range);
  bidi_range = omega (arith, g.bidi_range);
})

get_missing :
    (id : ℕ) (s : Endpoint) → lookup id s.limits.stream_max ≡ none → get id s.limits.stream_max ≡ 0
unfolding get
get_missing id s h = ground arith

get_found :
    (id v : ℕ) (s : Endpoint)
    → lookup id s.limits.stream_max ≡ some v
    → get id s.limits.stream_max ≡ v
unfolding get
get_found id v s h = ground arith

pub ensure-IsSound :
    (id : ℕ) (s : Endpoint) → IsSound s.limits → IsSound (ensure_stream_send_limit id s).limits
unfolding ensure_stream_send_limit
ensure-IsSound id s v = record {
  balanced = ground (arith, v.balanced);
  within_stream = λ j. ground (
    arith,
    v.within_stream j,
    get_missing id s,
    get-insert id j (initial_stream_send_limit s id) s.limits.stream_max,
  );
  within_uni = ground (arith, v.within_uni);
  within_bidi = ground (arith, v.within_bidi);
  uni_range = ground (arith, v.uni_range);
  bidi_range = ground (arith, v.bidi_range);
}

pub track-IsSound :
    (id : ℕ) (s : Endpoint) → IsSound s.limits → IsSound (track_send_stream id s).limits
unfolding track_send_stream
track-IsSound id s v = ground (arith, ensure-IsSound id s v, v)

count-IsSound :
    (bidi : Bool) (s : Endpoint)
    → IsSound s.limits
    → s.limits.active ≡ true
    → open_refused bidi s ≡ none
    → IsSound (count_opened bidi s.limits)
unfolding count_opened open_refused
count-IsSound bidi s v a h = record {
  balanced = ground (arith, v.balanced);
  within_stream = λ j. ground (arith, v.within_stream j);
  within_uni = ground (arith, v.within_uni, v.uni_range);
  within_bidi = ground (arith, v.within_bidi, v.bidi_range);
  uni_range = ground (arith, v.uni_range);
  bidi_range = ground (arith, v.bidi_range);
}

charge_open-IsSound :
    (bidi : Bool) (id : ℕ) (s : Endpoint)
    → IsSound s.limits
    → open_refused bidi s ≡ none
    → IsSound (charge_open bidi id s).limits
unfolding charge_open
charge_open-IsSound bidi id s v free = elim (Bool-cases s.limits.active) [
  | inr off ↦ ground (arith, v, off)
  | inl on ↦
      let counted : Endpoint = with_limits s (count_opened bidi s.limits) in
      ground (arith, on, ensure-IsSound id counted (count-IsSound bidi s v on free))
]

pub alloc-IsSound :
    (bidi : Bool) (s : Endpoint) → IsSound s.limits → IsSound (alloc_local_stream bidi s).0.limits
unfolding alloc_local_stream
alloc-IsSound bidi s v = elim (Option-cases (open_refused bidi s)) [
  | inr (e, refused) ↦ rw (refused, alloc_local_stream) v
  | inl free ↦
      rw (free, alloc_local_stream)
        (charge_open-IsSound bidi _ (record s { created_stream_counter = _ }) v
          (unfold open_refused in free))
]

pub reserve-IsSound :
    (id n : ℕ) (s : Endpoint) → IsSound s.limits → IsSound (reserve_send_data id n s).0.limits
unfolding reserve_send_data
reserve-IsSound id n s v = record {
  balanced = ground (
    arith,
    v.balanced,
    get-le-total id s.limits.stream_sent,
    total-insert id ((get id s.limits.stream_sent + n) % u64) s.limits.stream_sent,
  );
  within_stream = λ j. ground (
    arith,
    v.balanced,
    v.within_stream j,
    v.within_stream id,
    get-le-total id s.limits.stream_sent,
    get-insert id j ((get id s.limits.stream_sent + n) % u64) s.limits.stream_sent,
  );
  within_uni = ground (arith, v.within_uni);
  within_bidi = ground (arith, v.within_bidi);
  uni_range = ground (arith, v.uni_range);
  bidi_range = ground (arith, v.bidi_range);
}

-- A refund is balanced if the stream was charged for what it returns.
pub refund-IsSound :
    (id n : ℕ) (s : Endpoint)
    → IsSound s.limits
    → n ≤ get id s.limits.stream_sent
    → IsSound (refund_send_data id n s).limits
unfolding refund_send_data
refund-IsSound id n s v h = record {
  balanced = ground (
    arith,
    v.balanced,
    get-le-total id s.limits.stream_sent,
    total-insert id (get id s.limits.stream_sent - n) s.limits.stream_sent,
  );
  within_stream = λ j. ground (
    arith,
    v.within_stream j,
    get-insert id j (get id s.limits.stream_sent - n) s.limits.stream_sent,
  );
  within_uni = ground (arith, v.within_uni);
  within_bidi = ground (arith, v.within_bidi);
  uni_range = ground (arith, v.uni_range);
  bidi_range = ground (arith, v.bidi_range);
}

pub raise_data-IsSound :
    (max : ℕ) (s : Endpoint)
    → IsU64 max
    → IsSound s.limits
    → IsSound (raise_max_data max s).0.limits
unfolding raise_max_data
raise_data-IsSound max s h v = record {
  balanced = ground (arith, v.balanced);
  within_stream = λ j. ground (arith, v.within_stream j);
  within_uni = ground (arith, v.within_uni);
  within_bidi = ground (arith, v.within_bidi);
  uni_range = ground (arith, v.uni_range);
  bidi_range = ground (arith, v.bidi_range);
}

pub raise_stream_data-IsSound :
    (id max : ℕ) (s : Endpoint)
    → IsSound s.limits
    → IsSound (raise_max_stream_data id max s).0.limits
unfolding raise_max_stream_data current_stream_limit
raise_stream_data-IsSound id max s v = record {
  balanced = ground (arith, v.balanced);
  within_stream = λ j. elim (Option-cases (lookup id s.limits.stream_max)) [
    | inl e ↦
        ground
          (arith, v.within_stream j, get_missing id s e, get-insert id j max s.limits.stream_max)
    | inr (w, e) ↦
        ground
          (arith, v.within_stream j, get_found id w s e, get-insert id j max s.limits.stream_max)
  ];
  within_uni = ground (arith, v.within_uni);
  within_bidi = ground (arith, v.within_bidi);
  uni_range = ground (arith, v.uni_range);
  bidi_range = ground (arith, v.bidi_range);
}

pub raise_streams-IsSound :
    (bidi : Bool) (max : ℕ) (s : Endpoint)
    → IsSound s.limits
    → IsSound (raise_max_streams bidi max s).0.limits
unfolding raise_max_streams
raise_streams-IsSound bidi max s v = record {
  balanced = ground (arith, v.balanced);
  within_stream = λ j. ground (arith, v.within_stream j);
  within_uni = ground (arith, v.within_uni);
  within_bidi = ground (arith, v.within_bidi);
  uni_range = ground (arith, v.uni_range);
  bidi_range = ground (arith, v.bidi_range);
}
