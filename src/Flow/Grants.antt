-- ===== src/Flow/Grants.antt =====
-- WT_MAX_DATA, WT_MAX_STREAM_DATA and WT_MAX_STREAMS: what a capsule of the peer does to the grant.
use webtransport_h2_go.Prelude.{
  ℕ, ◌≤◌, ◌≡◌, refl, Bool, ◌||◌, List, Option, arith, ◌==◌, lookup-insert, Bool-cases, inl, inr,
  IsU64,
}
use webtransport_h2_go.Errors.{Error, Result, ok, err, Result-cases}
use webtransport_h2_go.Wire.{Content, Quicvarint, IsQuicvarint}
use webtransport_h2_go.Capsule
use webtransport_h2_go.Flow.{
  Endpoint, initial_stream_send_limit, current_stream_limit, raise_max_data, raise_max_stream_data,
  raise_max_streams, read_varints, read_capsule_varints, handle_send_limit_capsule, apply_fields,
  field,
}
use webtransport_h2_go.Flow.Soundness.{
  IsSound, raise_data-IsSound, raise_stream_data-IsSound, raise_streams-IsSound,
}

-- The grant of `t` is that of `s` or larger, and the usage is the same.
pub record Grows (s t : Endpoint) : Type 0 where
  pub data_grows : s.limits.max_data ≤ t.limits.max_data
  pub uni_grows : s.limits.max_streams_uni ≤ t.limits.max_streams_uni
  pub bidi_grows : s.limits.max_streams_bidi ≤ t.limits.max_streams_bidi
  pub stream_grows : (id : ℕ) → current_stream_limit id s ≤ current_stream_limit id t
  pub sent_same : t.limits.data_sent ≡ s.limits.data_sent
  pub streams_same : t.limits.stream_sent ≡ s.limits.stream_sent
  pub uni_same : t.limits.opened_uni ≡ s.limits.opened_uni
  pub bidi_same : t.limits.opened_bidi ≡ s.limits.opened_bidi
  pub counter_same : t.created_stream_counter ≡ s.created_stream_counter

Grows-refl : (s : Endpoint) → Grows s s
Grows-refl s = record {
  data_grows = omega arith;
  uni_grows = omega arith;
  bidi_grows = omega arith;
  stream_grows = λ id. omega arith;
  sent_same = refl;
  streams_same = refl;
  uni_same = refl;
  bidi_same = refl;
  counter_same = refl;
}

raise_data-Grows : (max : ℕ) (s : Endpoint) → Grows s (raise_max_data max s).0
unfolding raise_max_data
raise_data-Grows max s = record {
  data_grows = ground arith;
  uni_grows = ground arith;
  bidi_grows = ground arith;
  stream_grows = λ id. unfold current_stream_limit initial_stream_send_limit in ground arith;
  sent_same = ground arith;
  streams_same = ground arith;
  uni_same = ground arith;
  bidi_same = ground arith;
  counter_same = ground arith;
}

raise_stream_data-Grows : (id max : ℕ) (s : Endpoint) → Grows s (raise_max_stream_data id max s).0
unfolding raise_max_stream_data
raise_stream_data-Grows id max s = record {
  data_grows = ground arith;
  uni_grows = ground arith;
  bidi_grows = ground arith;
  stream_grows = λ j.
      unfold current_stream_limit initial_stream_send_limit in
      ground (arith, lookup-insert id j max s.limits.stream_max);
  sent_same = ground arith;
  streams_same = ground arith;
  uni_same = ground arith;
  bidi_same = ground arith;
  counter_same = ground arith;
}

raise_streams-Grows :
    (bidi : Bool) (max : ℕ) (s : Endpoint) → Grows s (raise_max_streams bidi max s).0
unfolding raise_max_streams
raise_streams-Grows bidi max s = record {
  data_grows = ground arith;
  uni_grows = ground arith;
  bidi_grows = ground arith;
  stream_grows = λ id. unfold current_stream_limit initial_stream_send_limit in ground arith;
  sent_same = ground arith;
  streams_same = ground arith;
  uni_same = ground arith;
  bidi_same = ground arith;
  counter_same = ground arith;
}

apply-lem {ℓ} :
    (P : Endpoint → Type ℓ) (r : Result (List ℕ)) (raise : List ℕ → Endpoint × Option Error)
    (s : Endpoint)
    → P s
    → ((fields : List ℕ) → r ≡ ok fields → P (raise fields).0)
    → P (apply_fields r raise s).0
unfolding apply_fields
apply-lem P (ok fields) raise s h k = k fields refl
apply-lem P (err e) raise s h k = h

-- Every property that the raises keep holds after a capsule.
pub handle-cases {ℓ} :
    (P : Endpoint → Type ℓ) (q : Quicvarint) (typ : ℕ) (content : Content) (s : Endpoint)
    → P s
    → ((fields : List ℕ)
        → read_capsule_varints q content 1 ≡ ok fields
        → P (raise_max_data (field 0 fields) s).0)
    → ((id max : ℕ) → P (raise_max_stream_data id max s).0)
    → ((bidi : Bool) (max : ℕ) → P (raise_max_streams bidi max s).0)
    → P (handle_send_limit_capsule q typ content s).0
unfolding handle_send_limit_capsule
handle-cases P q typ content s h d m n = elim (Bool-cases (typ == Capsule.wt_max_data)) [
  | inl a ↦ rw (a) (apply-lem P (read_capsule_varints q content 1) _ s h d)
  | inr a ↦ elim (Bool-cases (typ == Capsule.wt_max_stream_data)) [
    | inl b ↦
        rw (a, b)
          (apply-lem P (read_capsule_varints q content 2) _ s h
            (λ fields _. m (field 0 fields) (field 1 fields)))
    | inr b ↦
        elim (Bool-cases
          (typ == Capsule.wt_max_streams_bidi || typ == Capsule.wt_max_streams_uni)) [
            | inl c ↦
                rw (a, b, c)
                  (apply-lem P (read_capsule_varints q content 1) _ s h
                    (λ fields _. n (typ == Capsule.wt_max_streams_bidi) (field 0 fields)))
            | inr c ↦ rw (a, b, c) h
          ]
  ]
]

-- Whatever capsule the peer sends, well formed or not, accepted or refused, no limit goes down and
-- nothing that was counted as sent or opened changes.
pub handle-Grows :
    (q : Quicvarint) (typ : ℕ) (content : Content) (s : Endpoint)
    → Grows s (handle_send_limit_capsule q typ content s).0
handle-Grows q typ content s =
    handle-cases (Grows s) q typ content s (Grows-refl s)
      (λ fields _. raise_data-Grows (field 0 fields) s) (λ id max. raise_stream_data-Grows id max s)
      (λ bidi max. raise_streams-Grows bidi max s)

read_one :
    (q : Quicvarint) (content : Content) (fields : List ℕ)
    → IsQuicvarint q
    → read_capsule_varints q content 1 ≡ ok fields
    → IsU64 (field 0 fields)
unfolding read_capsule_varints read_varints
read_one q content fields w h = elim (Result-cases (q.read content)) [
  | inl ((v, rest), e) ↦ ground (arith, w.read_range content rest v, e)
  | inr (x, e) ↦ ground (arith, e)
]

-- The invariant survives any capsule.
pub handle-IsSound :
    (q : Quicvarint) (typ : ℕ) (content : Content) (s : Endpoint)
    → IsQuicvarint q
    → IsSound s.limits
    → IsSound (handle_send_limit_capsule q typ content s).0.limits
handle-IsSound q typ content s w v =
    handle-cases (λ t. IsSound t.limits) q typ content s v
      (λ fields e. raise_data-IsSound (field 0 fields) s (read_one q content fields w e) v)
      (λ id max. raise_stream_data-IsSound id max s v)
      (λ bidi max. raise_streams-IsSound bidi max s v)
