-- ===== src/Flow.antt =====
-- flow.go: the peer's grant for the data and the streams that this endpoint sends.
-- Each function is one critical section of `limits.mu`. `Endpoint` holds the fields of `Session`
-- that flow.go uses. The maps are made when first written, and a nil map reads as an empty one, so
-- here they start empty.
pub mod Charge
pub mod Soundness
pub mod Grants
pub mod Capsules
pub mod Opens
pub mod Side
pub mod Interleaving
use webtransport_h2_go.Prelude.{
  ℕ, suc, zero, ◌+◌, ◌-◌, ◌%◌, ◌^◌, ◌||◌, Bool, true, false, not, ◌&&◌, List, [], ◌∷◌, ◌++◌, Option,
  none, some, arith, ltb, leb, ◌==◌, if◌then◌else◌, u64, Map, lookup, insert, get,
}
use webtransport_h2_go.Errors.{
  Error, Result, ok, err, ◌>>=◌, send_limit, session_data, stream_data, uni_streams, bidi_streams,
  flow_control, max_data_below, max_stream_data_below, max_streams_exceeds, max_streams_below,
}
use webtransport_h2_go.Wire.{Content, Quicvarint, discard}
use webtransport_h2_go.Capsule
use webtransport_h2_go.StreamId.{is_bidirectional_stream, is_our_stream, next_stream_id}

pub record PeerInitialLimits : Type 0 where
  pub max_data : ℕ
  pub max_streams_uni : ℕ
  pub max_streams_bidi : ℕ
  pub stream_data_uni : ℕ
  pub stream_data_bidi_local : ℕ
  pub stream_data_bidi_remote : ℕ

pub record SendLimits : Type 0 where
  pub active : Bool
  pub max_data : ℕ
  pub max_streams_uni : ℕ
  pub max_streams_bidi : ℕ
  pub stream_data_uni : ℕ
  pub stream_data_bidi_local : ℕ
  pub stream_data_bidi_remote : ℕ
  pub stream_max : Map ℕ
  pub data_sent : ℕ
  pub stream_sent : Map ℕ
  pub opened_uni : ℕ
  pub opened_bidi : ℕ

-- Go's zero value.
abbrev pub no_limits : SendLimits
no_limits = record {
  active = false;
  max_data = 0;
  max_streams_uni = 0;
  max_streams_bidi = 0;
  stream_data_uni = 0;
  stream_data_bidi_local = 0;
  stream_data_bidi_remote = 0;
  stream_max = [];
  data_sent = 0;
  stream_sent = [];
  opened_uni = 0;
  opened_bidi = 0;
}

pub record Endpoint : Type 0 where
  pub is_server : Bool
  pub created_stream_counter : ℕ
  pub limits : SendLimits

abbrev pub with_limits : Endpoint → SendLimits → Endpoint
with_limits s l = record s { limits = l }

unfoldable pub adopt_peer_send_limits : PeerInitialLimits → Endpoint → Endpoint
adopt_peer_send_limits peer s = with_limits s (record s.limits {
  active = true;
  max_data = peer.max_data;
  max_streams_uni = peer.max_streams_uni;
  max_streams_bidi = peer.max_streams_bidi;
  stream_data_uni = peer.stream_data_uni;
  stream_data_bidi_local = peer.stream_data_bidi_local;
  stream_data_bidi_remote = peer.stream_data_bidi_remote;
})

unfoldable pub initial_stream_send_limit : Endpoint → ℕ → ℕ
initial_stream_send_limit s id =
    if not (is_bidirectional_stream id)
    then s.limits.stream_data_uni
    else if is_our_stream s.is_server id
    then s.limits.stream_data_bidi_remote
    else s.limits.stream_data_bidi_local

unfoldable pub ensure_stream_send_limit : ℕ → Endpoint → Endpoint
ensure_stream_send_limit id s =
    if not s.limits.active then s else elim (lookup id s.limits.stream_max) [
      | some max ↦ s
      | none ↦ with_limits s (record s.limits {
        stream_max = insert id (initial_stream_send_limit s id) s.limits.stream_max;
      })
    ]

unfoldable pub track_send_stream : ℕ → Endpoint → Endpoint
track_send_stream id s =
    if not (is_bidirectional_stream id) && not (is_our_stream s.is_server id)
    then s
    else ensure_stream_send_limit id s

-- The error of `allocLocalStream` where the grant for streams is used up.
unfoldable pub open_refused : Bool → Endpoint → Option Error
open_refused bidi s =
    let opened = if bidi then s.limits.opened_bidi else s.limits.opened_uni in
    let max = if bidi then s.limits.max_streams_bidi else s.limits.max_streams_uni in
    let kind = if bidi then bidi_streams else uni_streams in
    if s.limits.active && leb max opened then some (send_limit kind) else none

-- `openedBidi++` or `openedUni++`
unfoldable pub count_opened : Bool → SendLimits → SendLimits
count_opened bidi l =
    if bidi
    then record l { opened_bidi = (l.opened_bidi + 1) % u64 }
    else record l { opened_uni = (l.opened_uni + 1) % u64 }

-- The second `if s.limits.active` of `allocLocalStream`.
unfoldable pub charge_open : Bool → ℕ → Endpoint → Endpoint
charge_open bidi id s =
    if s.limits.active
    then ensure_stream_send_limit id (with_limits s (count_opened bidi s.limits))
    else s

unfoldable pub alloc_local_stream : Bool → Endpoint → Endpoint × Result ℕ
alloc_local_stream bidi s = elim (open_refused bidi s) [
  | some e ↦ (s, err e)
  | none ↦
      let (counter, id) = next_stream_id s.is_server s.created_stream_counter bidi in
      (charge_open bidi id (record s { created_stream_counter = counter }), ok id)
]

unfoldable pub reserve_send_data : ℕ → ℕ → Endpoint → Endpoint × Option Error
reserve_send_data id n s =
    let l = s.limits in
    let max_stream = get id l.stream_max in
    let sent = get id l.stream_sent in
    if n == 0
    then (s, none)
    else if not l.active
    then (s, none)
    else if ltb l.max_data l.data_sent || ltb (l.max_data - l.data_sent) n
    then (s, some (send_limit session_data))
    else if ltb max_stream sent || ltb (max_stream - sent) n
    then (s, some (send_limit stream_data))
    else (
      with_limits s (record l {
        data_sent = (l.data_sent + n) % u64;
        stream_sent = insert id ((sent + n) % u64) l.stream_sent;
      }),
      none,
    )

unfoldable pub refund_send_data : ℕ → ℕ → Endpoint → Endpoint
refund_send_data id n s =
    let l = s.limits in
    let sent = get id l.stream_sent in
    if n == 0
    then s
    else if not l.active
    then s
    else with_limits s (record l {
      data_sent = if leb n l.data_sent then l.data_sent - n else l.data_sent;
      stream_sent = if leb n sent then insert id (sent - n) l.stream_sent else l.stream_sent;
    })

-- The largest WT_MAX_STREAMS value: stream IDs cannot encode a count above it.
abbrev pub max_stream_count : ℕ
max_stream_count = 2 ^ 60

unfoldable pub raise_max_data : ℕ → Endpoint → Endpoint × Option Error
raise_max_data max s =
    let l : SendLimits = record s.limits { active = true } in
    if ltb max l.max_data
    then (with_limits s l, some (flow_control (max_data_below max l.max_data)))
    else (with_limits s (record l { max_data = max }), none)

-- `cur` of `raiseMaxStreamData`: the entry of the stream, or the SETTINGS value.
unfoldable pub current_stream_limit : ℕ → Endpoint → ℕ
current_stream_limit id s = elim (lookup id s.limits.stream_max) [
  | none ↦ initial_stream_send_limit s id
  | some existing ↦ existing
]

unfoldable pub raise_max_stream_data : ℕ → ℕ → Endpoint → Endpoint × Option Error
raise_max_stream_data id max s =
    let l : SendLimits = record s.limits { active = true } in
    let cur = current_stream_limit id s in
    if ltb max cur
    then (with_limits s l, some (flow_control (max_stream_data_below max id cur)))
    else (with_limits s (record l { stream_max = insert id max l.stream_max }), none)

unfoldable pub raise_max_streams : Bool → ℕ → Endpoint → Endpoint × Option Error
raise_max_streams bidi max s =
    let l : SendLimits = record s.limits { active = true } in
    let cur = if bidi then l.max_streams_bidi else l.max_streams_uni in
    if ltb max_stream_count max
    then (s, some (flow_control (max_streams_exceeds max)))
    else if ltb max cur
    then (with_limits s l, some (flow_control (max_streams_below max cur)))
    else if bidi
    then (with_limits s (record l { max_streams_bidi = max }), none)
    else (with_limits s (record l { max_streams_uni = max }), none)

-- The loop of `readCapsuleVarints`: `n` numbers, in order, and the rest of the content.
unfoldable pub read_varints : Quicvarint → ℕ → Content → Result (List ℕ × Content)
read_varints q zero content = ok ([], content)
read_varints q (suc n) content = do
  (v, rest) ← q.read content
  (out, end) ← read_varints q n rest
  ok (v ∷ out, end)

unfoldable pub read_capsule_varints : Quicvarint → Content → ℕ → Result (List ℕ)
read_capsule_varints q content n = do
  (out, rest) ← read_varints q n content
  elim (discard rest) [ some e ↦ err e | none ↦ ok out ]

-- `out[i]` of the slice that `readCapsuleVarints` returns: it has the length that was asked for.
abbrev pub field : ℕ → List ℕ → ℕ
field i [] = 0
field zero (x ∷ xs) = x
field (suc i) (x ∷ xs) = field i xs

unfoldable pub apply_fields :
    Result (List ℕ) → (List ℕ → Endpoint × Option Error) → Endpoint → Endpoint × Option Error
apply_fields (ok fields) raise s = raise fields
apply_fields (err e) raise s = (s, some e)

unfoldable pub handle_send_limit_capsule :
    Quicvarint → ℕ → Content → Endpoint → Endpoint × Option Error
handle_send_limit_capsule q typ content s =
    if typ == Capsule.wt_max_data
    then apply_fields (read_capsule_varints q content 1) (λ max. raise_max_data (field 0 max) s) s
    else if typ == Capsule.wt_max_stream_data
    then apply_fields (read_capsule_varints q content 2)
        (λ fields. raise_max_stream_data (field 0 fields) (field 1 fields) s) s
    else if typ == Capsule.wt_max_streams_bidi || typ == Capsule.wt_max_streams_uni
    then apply_fields (read_capsule_varints q content 1)
        (λ max. raise_max_streams (typ == Capsule.wt_max_streams_bidi) (field 0 max) s) s
    else (s, none)
