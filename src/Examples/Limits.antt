-- ===== src/Examples/Limits.antt =====
-- Runs of flow.go and of the stream numbering.
use webtransport_h2_go.Prelude.{
  ℕ, ◌≤◌, ◌≡◌, ◌≢◌, ◌↔◌, refl, true, false, [], ◌∷◌, none, some, arith, lookup, get, insert, total,
}
use webtransport_h2_go.Errors.{ok}
use webtransport_h2_go.Capsule
use webtransport_h2_go.StreamId.{is_bidirectional_stream, is_our_stream, next_stream_id}
use webtransport_h2_go.Flow.{
  PeerInitialLimits, Endpoint, adopt_peer_send_limits, reserve_send_data, refund_send_data,
  alloc_local_stream, open_refused, charge_open, count_opened, ensure_stream_send_limit,
  initial_stream_send_limit, handle_send_limit_capsule,
}
use webtransport_h2_go.Flow.Charge.{IsBalanced, Fits, reserve_iff, refund-reserve}
use webtransport_h2_go.Flow.Grants.{Grows, handle-Grows}
use webtransport_h2_go.Flow.Capsules.{
  stream_data_limit, receive, in_force, IsLawful, receive-IsLawful,
}
use webtransport_h2_go.Flow.Opens.{
  granted, open_all, collect, Ascending, open_all-Ascending, alloc_limit,
}
use webtransport_h2_go.Flow.Interleaving.{
  System, Reach, here, next, reserves, written, failed, opens, fresh, all_bytes, bytes_of,
  wire-within_grant,
}
use webtransport_h2_go.Examples.Varint.{rfc_9000, rfc_9000-IsQuicvarint}

abbrev grant : PeerInitialLimits
grant = record {
  max_data = 100;
  max_streams_uni = 1;
  max_streams_bidi = 2;
  stream_data_uni = 10;
  stream_data_bidi_local = 20;
  stream_data_bidi_remote = 30;
}

-- A client with one bidirectional stream, 0, on which 5 bytes were sent.
abbrev busy : Endpoint
busy = record {
  is_server = false;
  created_stream_counter = 4;
  limits = record {
    active = true;
    max_data = 100;
    max_streams_uni = 1;
    max_streams_bidi = 2;
    stream_data_uni = 10;
    stream_data_bidi_local = 20;
    stream_data_bidi_remote = 30;
    stream_max = (0, 30) ∷ [];
    data_sent = 5;
    stream_sent = (0, 5) ∷ [];
    opened_uni = 0;
    opened_bidi = 1;
  };
}

busy-IsBalanced : IsBalanced busy.limits
unfolding total
busy-IsBalanced = omega arith

reserve_busy : (reserve_send_data 0 25 busy).1 ≡ none
unfolding reserve_send_data get lookup
reserve_busy = refl

reserve_too_much : (reserve_send_data 0 26 busy).1 ≢ none
unfolding reserve_send_data get lookup
reserve_too_much = λ e. cc

reserve_iff_example : ((reserve_send_data 0 25 busy).1 ≡ none) ↔ Fits 0 25 busy
unfolding get lookup
reserve_iff_example = reserve_iff 0 25 busy refl (omega arith) (omega arith) (omega arith)

refund-reserve_example :
    let t = refund_send_data 0 25 (reserve_send_data 0 25 busy).0 in
    (t.limits.data_sent ≡ 5)
    × ((j : ℕ) → get j t.limits.stream_sent ≡ get j busy.limits.stream_sent)
refund-reserve_example = refund-reserve 0 25 busy refl busy-IsBalanced reserve_busy

-- Bidirectional, unidirectional, a refused unidirectional one, bidirectional.
opened_ids : open_all (true ∷ false ∷ false ∷ []) busy ≡ 4 ∷ 10 ∷ []
unfolding open_all collect alloc_local_stream open_refused charge_open count_opened
    ensure_stream_send_limit initial_stream_send_limit lookup next_stream_id insert
opened_ids = refl

open_all-Ascending_example : Ascending 4 (open_all (true ∷ false ∷ false ∷ []) busy)
open_all-Ascending_example = open_all-Ascending (true ∷ false ∷ false ∷ []) busy refl (omega arith)

alloc_limit_example :
    let id = (next_stream_id false 4 true).1 in
    ((alloc_local_stream true busy).1 ≡ ok id)
    × (lookup id (alloc_local_stream true busy).0.limits.stream_max
        ≡ some (granted true id busy.limits))
alloc_limit_example = alloc_limit true busy refl refl (omega arith)

handle-Grows_example :
    Grows busy
      (handle_send_limit_capsule rfc_9000 Capsule.wt_max_data
        (record { bytes = 0x3f ∷ []; fault = none })
        busy).0
handle-Grows_example =
    handle-Grows rfc_9000 Capsule.wt_max_data (record { bytes = 0x3f ∷ []; fault = none }) busy

receive-IsLawful_example :
    (((receive rfc_9000 (stream_data_limit 0 40) (7 ∷ []) busy).1 ≡ none)
      ↔ IsLawful (stream_data_limit 0 40) busy)
    × ((receive rfc_9000 (stream_data_limit 0 40) (7 ∷ []) busy).1 ≡ none
        → in_force
            (stream_data_limit 0 40)
            (receive rfc_9000 (stream_data_limit 0 40) (7 ∷ []) busy).0
          ≡ 40)
receive-IsLawful_example =
    receive-IsLawful rfc_9000 (stream_data_limit 0 40) (7 ∷ []) busy rfc_9000-IsQuicvarint
      (omega arith)

-- A stream is opened; one write of 10 bytes is under way while another of 20 fails and is refunded.
abbrev opened : Endpoint
opened = (alloc_local_stream true (fresh false grant).endpoint).0

abbrev ten : Endpoint
ten = (reserve_send_data 0 10 opened).0

abbrev thirty : Endpoint
thirty = (reserve_send_data 0 20 ten).0

abbrev last : System
last = record { endpoint = refund_send_data 0 20 thirty; pending = []; wire = (0, 10) ∷ [] }

run : Reach rfc_9000 (fresh false grant) last
unfolding adopt_peer_send_limits alloc_local_stream open_refused charge_open count_opened
    ensure_stream_send_limit initial_stream_send_limit lookup next_stream_id reserve_send_data get
    insert is_bidirectional_stream is_our_stream
run =
    let s1 : System = record { endpoint = opened; pending = []; wire = [] } in
    let s2 : System = record { endpoint = ten; pending = (0, 10) ∷ []; wire = [] } in
    let s3 : System = record { endpoint = thirty; pending = (0, 20) ∷ (0, 10) ∷ []; wire = [] } in
    let s4 : System = record { endpoint = thirty; pending = (0, 20) ∷ []; wire = (0, 10) ∷ [] } in
    next {t = s4}
      (next {t = s3}
        (next {t = s2} (next {t = s1} (next here (opens true refl)) (reserves 0 10 refl refl))
          (reserves 0 20 refl refl))
        (written 0 10 ((0, 20) ∷ []) [] refl refl))
      (failed 0 20 [] [] refl refl)

wire-within_grant_example :
    (10 ≤ last.endpoint.limits.max_data)
    × ((id : ℕ) → bytes_of id last.wire ≤ get id last.endpoint.limits.stream_max)
    × (last.pending ≡ [] → last.endpoint.limits.data_sent ≡ all_bytes last.wire)
unfolding all_bytes
wire-within_grant_example =
    wire-within_grant rfc_9000 false grant last rfc_9000-IsQuicvarint (omega arith) run
