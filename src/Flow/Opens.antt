-- ===== src/Flow/Opens.antt =====
-- `allocLocalStream`: the IDs and the limits that local streams get.
use webtransport_h2_go.Prelude.{
  ℕ, suc, ◌+◌, ◌*◌, ◌%◌, ◌≤◌, ◌<◌, ◌≡◌, ◌⊎◌, refl, ap, ◌∙◌, Bool, true, false, List, [], ◌∷◌, none,
  some, arith, if◌then◌else◌, u64, lookup, lookup-insert, Option-cases, inl, inr, length,
}
use webtransport_h2_go.Errors.{Error, Result, ok, err, send_limit, bidi_streams, uni_streams}
use webtransport_h2_go.StreamId.{next_stream_id, is_our_stream, is_bidirectional_stream}
use webtransport_h2_go.StreamId.Laws.{id_of, next_stream_id-id_of, next_stream_id_kind}
use webtransport_h2_go.Flow.{
  Endpoint, SendLimits, alloc_local_stream, open_refused, charge_open, count_opened,
  ensure_stream_send_limit, current_stream_limit, initial_stream_send_limit, with_limits,
}

abbrev pub opened : Bool → SendLimits → ℕ
opened bidi l = if bidi then l.opened_bidi else l.opened_uni

abbrev pub max_streams : Bool → SendLimits → ℕ
max_streams bidi l = if bidi then l.max_streams_bidi else l.max_streams_uni

-- An open fails exactly when limits are active and the grant for streams of that kind is used up.
-- Then the error says so, and neither an ID nor anything else is used.
pub alloc_refused :
    (bidi : Bool) (s : Endpoint)
    → s.limits.active ≡ true
    → max_streams bidi s.limits ≤ opened bidi s.limits
    → alloc_local_stream bidi s ≡ (s, err (send_limit (if bidi then bidi_streams else uni_streams)))
unfolding alloc_local_stream open_refused
alloc_refused true s a h = ground arith
alloc_refused false s a h = ground arith

abbrev pub MayOpen : Bool → Endpoint → Type 0
MayOpen bidi s = (s.limits.active ≡ false) ⊎ (opened bidi s.limits < max_streams bidi s.limits)

open-free : (bidi : Bool) (s : Endpoint) → MayOpen bidi s → open_refused bidi s ≡ none
unfolding open_refused
open-free true s h = ground arith
open-free false s h = ground arith

ensure_lookup :
    (id : ℕ) (s : Endpoint)
    → s.limits.active ≡ true
    → lookup id (ensure_stream_send_limit id s).limits.stream_max ≡ some (current_stream_limit id s)
unfolding ensure_stream_send_limit current_stream_limit
ensure_lookup id s a =
    ground (arith, lookup-insert id id (initial_stream_send_limit s id) s.limits.stream_max)

-- The limits do not depend on the counters.
current-count :
    (id counter : ℕ) (bidi : Bool) (s : Endpoint)
    → current_stream_limit id
        (record s { created_stream_counter = counter; limits = count_opened bidi s.limits })
      ≡ current_stream_limit id s
unfolding current_stream_limit initial_stream_send_limit count_opened
current-count id counter bidi s = ground arith

ensure_counter :
    (id : ℕ) (s : Endpoint)
    → ((ensure_stream_send_limit id s).created_stream_counter ≡ s.created_stream_counter)
      × ((ensure_stream_send_limit id s).is_server ≡ s.is_server)
unfolding ensure_stream_send_limit
ensure_counter id s = ground arith

charge_counter :
    (bidi : Bool) (id : ℕ) (s : Endpoint)
    → ((charge_open bidi id s).created_stream_counter ≡ s.created_stream_counter)
      × ((charge_open bidi id s).is_server ≡ s.is_server)
unfolding charge_open
charge_counter bidi id s =
    ground (arith, ensure_counter id (with_limits s (count_opened bidi s.limits)))

-- What a successful open returns.
alloc-free :
    (bidi : Bool) (s : Endpoint)
    → open_refused bidi s ≡ none
    → let (counter, id) = next_stream_id s.is_server s.created_stream_counter bidi in
      alloc_local_stream bidi s
      ≡ (charge_open bidi id (record s { created_stream_counter = counter }), ok id)
unfolding alloc_local_stream
alloc-free bidi s h = rw (h, alloc_local_stream) refl

next_counter :
    (is_server : Bool) (counter : ℕ) (bidi : Bool)
    → (next_stream_id is_server counter bidi).0 ≡ (counter + 4) % u64
unfolding next_stream_id
next_counter is_server counter bidi = refl

charge_limit :
    (bidi : Bool) (id counter : ℕ) (s : Endpoint)
    → s.limits.active ≡ true
    → lookup id
        (charge_open bidi id (record s { created_stream_counter = counter })).limits.stream_max
      ≡ some (current_stream_limit id s)
unfolding charge_open
charge_limit bidi id counter s a =
    let counted : Endpoint = record s {
      created_stream_counter = counter;
      limits = count_opened bidi s.limits;
    } in
    ground (
      arith,
      ensure_lookup id counted (unfold count_opened in ground (arith, a)),
      current-count id counter bidi s,
    )

-- What the peer has granted to a stream of ours: the value of a WT_MAX_STREAM_DATA capsule for its ID,
-- or the SETTINGS value for streams of its kind that the peer does not open.
abbrev pub granted : Bool → ℕ → SendLimits → ℕ
granted bidi id l = elim (lookup id l.stream_max) [
  | some max ↦ max
  | none ↦ if bidi then l.stream_data_bidi_remote else l.stream_data_uni
]

current-granted :
    (bidi : Bool) (id : ℕ) (s : Endpoint)
    → is_our_stream s.is_server id ≡ true
    → is_bidirectional_stream id ≡ bidi
    → current_stream_limit id s ≡ granted bidi id s.limits
unfolding current_stream_limit initial_stream_send_limit
current-granted bidi id s o k = ground (arith, o, k)

-- A stream that is opened under active limits, if the counter is a multiple of 4, starts with the limit
-- that a WT_MAX_STREAM_DATA capsule gave to its ID beforehand, and with the peer's SETTINGS value for its
-- kind if there was none.
pub alloc_limit :
    (bidi : Bool) (s : Endpoint)
    → s.created_stream_counter % 4 ≡ 0
    → s.limits.active ≡ true
    → opened bidi s.limits < max_streams bidi s.limits
    → let id = (next_stream_id s.is_server s.created_stream_counter bidi).1 in
      ((alloc_local_stream bidi s).1 ≡ ok id)
      × (lookup id (alloc_local_stream bidi s).0.limits.stream_max
          ≡ some (granted bidi id s.limits))
alloc_limit bidi s m a h =
    let (ours, theirs, kind) = next_stream_id_kind s.is_server s.created_stream_counter bidi m in
    rw (alloc-free bidi s (open-free bidi s (inr h)))
      (refl, charge_limit bidi _ _ s a ∙ ap some (current-granted bidi _ s ours kind))

unfoldable pub collect : Result ℕ → List ℕ → List ℕ
collect (ok id) ids = id ∷ ids
collect (err e) ids = ids

-- Opening streams in turn: the IDs of those that were opened.
unfoldable pub open_all : List Bool → Endpoint → List ℕ
open_all [] s = []
open_all (bidi ∷ kinds) s =
    collect (alloc_local_stream bidi s).1 (open_all kinds (alloc_local_stream bidi s).0)

-- Each ID is above `low`, and above those before it.
abbrev pub Ascending : ℕ → List ℕ → Type 0
Ascending low [] = Unit {0}
Ascending low (id ∷ ids) = (low ≤ id) × Ascending (suc id) ids

Ascending-weaken :
    (low high : ℕ) (ids : List ℕ) → low ≤ high → Ascending high ids → Ascending low ids
Ascending-weaken low high [] h a = tt
Ascending-weaken low high (id ∷ ids) h a = (omega arith, a.1)

-- The two outcomes of an open.
alloc_cases :
    (bidi : Bool) (s : Endpoint)
    → s.created_stream_counter % 4 ≡ 0
    → s.created_stream_counter + 4 < u64
    → ((e : Error) × (alloc_local_stream bidi s ≡ (s, err e)))
      ⊎ (((alloc_local_stream bidi s).1 ≡ ok (id_of s.is_server bidi s.created_stream_counter))
          × ((alloc_local_stream bidi s).0.created_stream_counter ≡ s.created_stream_counter + 4)
          × ((alloc_local_stream bidi s).0.is_server ≡ s.is_server))
alloc_cases bidi s m h = elim (Option-cases (open_refused bidi s)) [
  | inr (e, refused) ↦ inl (e, unfold alloc_local_stream in rw (refused, alloc_local_stream) refl)
  | inl free ↦
      let c = s.created_stream_counter in
      let id = (next_stream_id s.is_server c bidi).1 in
      let t : Endpoint = record s {
        created_stream_counter = (next_stream_id s.is_server c bidi).0;
      } in
      inr (
        rw (alloc-free bidi s free) (
          ap ok (next_stream_id-id_of s.is_server c bidi m),
          omega (arith, (charge_counter bidi id t).0, next_counter s.is_server c bidi),
          (charge_counter bidi id t).1,
        ))
]

-- As long as the counter does not wrap, the IDs that a session allocates go up strictly, whatever the
-- limits refuse in between: no ID is ever used twice.
pub open_all-Ascending :
    (kinds : List Bool) (s : Endpoint)
    → s.created_stream_counter % 4 ≡ 0
    → s.created_stream_counter + 4 * length kinds < u64
    → Ascending s.created_stream_counter (open_all kinds s)
unfolding open_all collect
open_all-Ascending [] s m h = tt
open_all-Ascending (bidi ∷ kinds) s m h = elim (alloc_cases bidi s m (omega arith)) [
  | inl (e, refused) ↦ rw (refused, Ascending, collect) (open_all-Ascending kinds s m (omega arith))
  | inr (got, counter, side) ↦
      let t = (alloc_local_stream bidi s).0 in
      let id = id_of s.is_server bidi s.created_stream_counter in
      let rest = open_all-Ascending kinds t (omega (arith, counter)) (omega (arith, counter)) in
      rw (got, collect)
        (
          ground arith,
          Ascending-weaken (suc id) _ (open_all kinds t) (ground (arith, counter)) rest,
        )
]
