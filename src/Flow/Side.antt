-- ===== src/Flow/Side.antt =====
-- Each operation of flow.go leaves an endpoint on its side of the connection, and its counter a multiple of 4.
use webtransport_h2_go.Prelude.{
  ℕ, ◌||◌, ◌==◌, ◌+◌, u64, List, if◌then◌else◌, ◌%◌, ◌≡◌, refl, ◌∙◌, arith, Bool, true, false,
  Option, Option-cases, inl, inr,
}
use webtransport_h2_go.Errors.{Error, Result, ok, err}
use webtransport_h2_go.Wire.{Quicvarint, Content}
use webtransport_h2_go.Capsule
use webtransport_h2_go.Flow.{
  Endpoint, with_limits, alloc_local_stream, open_refused, charge_open, count_opened,
  ensure_stream_send_limit, track_send_stream, reserve_send_data, refund_send_data, raise_max_data,
  raise_max_stream_data, raise_max_streams, apply_fields, field, read_capsule_varints,
  handle_send_limit_capsule,
}
use webtransport_h2_go.StreamId.{next_stream_id, is_our_stream}
use webtransport_h2_go.StreamId.Laws.{next_stream_id_kind}

pub record IsSided (is_server : Bool) (e : Endpoint) : Type 0 where
  pub server : e.is_server ≡ is_server
  pub aligned : e.created_stream_counter % 4 ≡ 0

-- An operation that leaves the side and the counter as they were.
pub record Level (e f : Endpoint) : Type 0 where
  pub server : f.is_server ≡ e.is_server
  pub counter : f.created_stream_counter ≡ e.created_stream_counter

pub level : (b : Bool) (e f : Endpoint) → Level e f → IsSided b e → IsSided b f
level b e f l i = record { server = l.server ∙ i.server; aligned = rw l.counter i.aligned }

ensure-Level : (id : ℕ) (e : Endpoint) → Level e (ensure_stream_send_limit id e)
unfolding ensure_stream_send_limit
ensure-Level id e = ground arith

pub track-Level : (id : ℕ) (e : Endpoint) → Level e (track_send_stream id e)
unfolding track_send_stream
track-Level id e = ground (arith, ensure-Level id e)

pub reserve-Level : (id n : ℕ) (e : Endpoint) → Level e (reserve_send_data id n e).0
unfolding reserve_send_data
reserve-Level id n e = ground arith

pub refund-Level : (id n : ℕ) (e : Endpoint) → Level e (refund_send_data id n e)
unfolding refund_send_data
refund-Level id n e = ground arith

data-Level : (max : ℕ) (e : Endpoint) → Level e (raise_max_data max e).0
unfolding raise_max_data
data-Level max e = ground arith

stream_data-Level : (id max : ℕ) (e : Endpoint) → Level e (raise_max_stream_data id max e).0
unfolding raise_max_stream_data
stream_data-Level id max e = ground arith

streams-Level : (bidi : Bool) (max : ℕ) (e : Endpoint) → Level e (raise_max_streams bidi max e).0
unfolding raise_max_streams
streams-Level bidi max e = ground arith

-- The same of an operation that may fail.
pub record TryLevel (e : Endpoint) (r : Endpoint × Option Error) : Type 0 where
  pub level : Level e r.0

apply-TryLevel :
    (r : Result (List ℕ)) (f : List ℕ → Endpoint × Option Error) (e : Endpoint)
    → ((fields : List ℕ) → TryLevel e (f fields))
    → TryLevel e (apply_fields r f e)
unfolding apply_fields
apply-TryLevel (ok fields) f e h = h fields
apply-TryLevel (err x) f e h = record { level = record { server = refl; counter = refl } }

choose_level :
    (b : Bool) (e : Endpoint) {x y : Endpoint × Option Error}
    → TryLevel e x
    → TryLevel e y
    → TryLevel e (if b then x else y)
choose_level true e i j = i
choose_level false e i j = j

pub limit-TryLevel :
    (q : Quicvarint) (typ : ℕ) (c : Content) (e : Endpoint)
    → TryLevel e (handle_send_limit_capsule q typ c e)
unfolding handle_send_limit_capsule
limit-TryLevel q typ c e =
    let one = read_capsule_varints q c 1 in
    let session =
      apply-TryLevel one (λ max. raise_max_data (field 0 max) e) e
        (λ max. record { level = data-Level (field 0 max) e }) in
    let stream =
      apply-TryLevel (read_capsule_varints q c 2)
        (λ fields. raise_max_stream_data (field 0 fields) (field 1 fields) e) e
        (λ fields. record { level = stream_data-Level (field 0 fields) (field 1 fields) e }) in
    let bidi = typ == Capsule.wt_max_streams_bidi in
    let streams =
      apply-TryLevel one (λ max. raise_max_streams bidi (field 0 max) e) e
        (λ max. record { level = streams-Level bidi (field 0 max) e }) in
    choose_level (typ == Capsule.wt_max_data) e session (
      choose_level (typ == Capsule.wt_max_stream_data) e stream (
        choose_level (bidi || typ == Capsule.wt_max_streams_uni) e streams
          (record { level = record { server = refl; counter = refl } })))

next_counter :
    (is_server : Bool) (counter : ℕ) (bidi : Bool)
    → (next_stream_id is_server counter bidi).0 ≡ (counter + 4) % u64
unfolding next_stream_id
next_counter is_server counter bidi = refl

charge-Level : (bidi : Bool) (id : ℕ) (e : Endpoint) → Level e (charge_open bidi id e)
unfolding charge_open
charge-Level bidi id e =
    ground (arith, ensure-Level id (with_limits e (count_opened bidi e.limits)))

-- An open takes an ID of this side, and the side stays.
pub alloc-IsSided :
    (b bidi : Bool) (e : Endpoint)
    → IsSided b e
    → IsSided b (alloc_local_stream bidi e).0
      × ((id : ℕ) → (alloc_local_stream bidi e).1 ≡ ok id → is_our_stream b id ≡ true)
alloc-IsSided b bidi e i = elim (Option-cases (open_refused bidi e)) [
  | inr (x, r) ↦
      unfold alloc_local_stream in rw (r, alloc_local_stream) (i, λ id h. ground (arith, h))
  | inl free ↦
      let (counter, id) = next_stream_id e.is_server e.created_stream_counter bidi in
      let e' : Endpoint = record e { created_stream_counter = counter } in
      let l = charge-Level bidi id e' in
      let (ours, theirs, kind) =
        next_stream_id_kind e.is_server e.created_stream_counter bidi i.aligned in
      unfold alloc_local_stream in
      rw (free, alloc_local_stream)
        (
          record {
            server = l.server ∙ i.server;
            aligned = omega (
              arith,
              l.counter,
              next_counter e.is_server e.created_stream_counter bidi,
              i.aligned,
            );
          },
          λ j h. ground (arith, h, ours, i.server),
        )
]
