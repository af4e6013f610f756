-- ===== src/Flow/Interleaving.antt =====
-- Goroutines that write, open streams and read capsules, interleaved. A write is three critical
-- sections: it reserves, hands its capsule to the transport, and refunds if that fails. Others may
-- run in between. `pending` holds the reservations of writes that are under way, and `wire` the
-- payloads that the transport took: (stream ID, bytes).
use webtransport_h2_go.Prelude.{
  ℕ, ◌+◌, ◌≤◌, ◌≡◌, refl, ap, Bool, true, List, [], ◌∷◌, ◌++◌, none, some, arith, ◌==◌,
  if◌then◌else◌, get, lookup,
}
use webtransport_h2_go.Errors.{Error}
use webtransport_h2_go.Wire.{Content, Quicvarint, IsQuicvarint}
use webtransport_h2_go.Flow.{
  Endpoint, PeerInitialLimits, no_limits, adopt_peer_send_limits, alloc_local_stream, charge_open,
  count_opened, ensure_stream_send_limit, track_send_stream, reserve_send_data, refund_send_data,
  handle_send_limit_capsule, raise_max_data, raise_max_stream_data, raise_max_streams,
}
use webtransport_h2_go.Flow.Charge.{reserve_charges, reserve_rejected, refund_returns}
use webtransport_h2_go.Flow.Soundness.{
  IsSound, IsGrant, adopt-IsSound, alloc-IsSound, track-IsSound, reserve-IsSound, refund-IsSound,
}
use webtransport_h2_go.Flow.Grants.{handle-Grows, handle-IsSound, handle-cases}

abbrev pub Payloads : Type 0
Payloads = List (ℕ × ℕ)

-- The bytes of all payloads, and those of one stream.
unfoldable pub all_bytes : Payloads → ℕ
all_bytes [] = 0
all_bytes ((id, n) ∷ ps) = n + all_bytes ps

unfoldable pub bytes_of : ℕ → Payloads → ℕ
bytes_of j [] = 0
bytes_of j ((id, n) ∷ ps) = (if id == j then n else 0) + bytes_of j ps

all_bytes-middle :
    (xs ys : Payloads) (id n : ℕ) → all_bytes (xs ++ (id, n) ∷ ys) ≡ n + all_bytes (xs ++ ys)
unfolding all_bytes
all_bytes-middle [] ys id n = refl
all_bytes-middle ((i, m) ∷ xs) ys id n = omega (arith, all_bytes-middle xs ys id n)

bytes_of-middle :
    (j : ℕ) (xs ys : Payloads) (id n : ℕ)
    → bytes_of j (xs ++ (id, n) ∷ ys) ≡ (if id == j then n else 0) + bytes_of j (xs ++ ys)
unfolding bytes_of
bytes_of-middle j [] ys id n = refl
bytes_of-middle j ((i, m) ∷ xs) ys id n = omega (arith, bytes_of-middle j xs ys id n)

pub record System : Type 0 where
  pub endpoint : Endpoint
  pub pending : Payloads
  pub wire : Payloads

pub data Step (q : Quicvarint) (s t : System) : Type 0 where
  reserves :
      (id n : ℕ)
      → (reserve_send_data id n s.endpoint).1 ≡ none
      → t ≡ record s {
        endpoint = (reserve_send_data id n s.endpoint).0;
        pending = (id, n) ∷ s.pending;
      }
      → Step q s t
  rejected :
      (id n : ℕ) (e : Error)
      → (reserve_send_data id n s.endpoint).1 ≡ some e
      → t ≡ record s { endpoint = (reserve_send_data id n s.endpoint).0 }
      → Step q s t
  written :
      (id n : ℕ) (xs ys : Payloads)
      → s.pending ≡ xs ++ (id, n) ∷ ys
      → t ≡ record s { pending = xs ++ ys; wire = (id, n) ∷ s.wire }
      → Step q s t
  failed :
      (id n : ℕ) (xs ys : Payloads)
      → s.pending ≡ xs ++ (id, n) ∷ ys
      → t ≡ record s { endpoint = refund_send_data id n s.endpoint; pending = xs ++ ys }
      → Step q s t
  opens :
      (bidi : Bool)
      → t ≡ record s { endpoint = (alloc_local_stream bidi s.endpoint).0 }
      → Step q s t
  accepts : (id : ℕ) → t ≡ record s { endpoint = track_send_stream id s.endpoint } → Step q s t
  receives :
      (typ : ℕ) (content : Content)
      → t ≡ record s { endpoint = (handle_send_limit_capsule q typ content s.endpoint).0 }
      → Step q s t

pub data Reach (q : Quicvarint) (s : System) : System → Type 0 where
  here : Reach q s s
  next : {t u : System} → Reach q s t → Step q t u → Reach q s u

-- What was charged is what is on the wire and what is under way.
pub record Inv (s : System) : Type 0 where
  pub active : s.endpoint.limits.active ≡ true
  pub sound : IsSound s.endpoint.limits
  pub charged : all_bytes s.wire + all_bytes s.pending ≡ s.endpoint.limits.data_sent
  pub charged_to :
      (id : ℕ) → bytes_of id s.wire + bytes_of id s.pending ≡ get id s.endpoint.limits.stream_sent

-- The functions that charge nothing keep the counters and stay active.
record Keeps (s t : Endpoint) : Type 0 where
  on : s.limits.active ≡ true → t.limits.active ≡ true
  sent : t.limits.data_sent ≡ s.limits.data_sent
  streams : t.limits.stream_sent ≡ s.limits.stream_sent

ensure-Keeps : (id : ℕ) (s : Endpoint) → Keeps s (ensure_stream_send_limit id s)
unfolding ensure_stream_send_limit
ensure-Keeps id s = ground arith

track-Keeps : (id : ℕ) (s : Endpoint) → Keeps s (track_send_stream id s)
unfolding track_send_stream
track-Keeps id s = ground (arith, ensure-Keeps id s)

alloc-Keeps : (bidi : Bool) (s : Endpoint) → Keeps s (alloc_local_stream bidi s).0
unfolding alloc_local_stream charge_open count_opened ensure_stream_send_limit
alloc-Keeps bidi s = ground arith

handle-active :
    (q : Quicvarint) (typ : ℕ) (content : Content) (s : Endpoint)
    → s.limits.active ≡ true
    → (handle_send_limit_capsule q typ content s).0.limits.active ≡ true
unfolding raise_max_data raise_max_stream_data raise_max_streams
handle-active q typ content s a =
    handle-cases (λ t. t.limits.active ≡ true) q typ content s a (λ fields e. ground arith)
      (λ id max. ground arith) (λ bidi max. ground arith)

handle-Keeps :
    (q : Quicvarint) (typ : ℕ) (content : Content) (s : Endpoint)
    → Keeps s (handle_send_limit_capsule q typ content s).0
handle-Keeps q typ content s = record {
  on = handle-active q typ content s;
  sent = (handle-Grows q typ content s).sent_same;
  streams = (handle-Grows q typ content s).streams_same;
}

-- A step that charges nothing.
Keeps-Inv :
    (s : System) (t : Endpoint)
    → Keeps s.endpoint t
    → IsSound t.limits
    → Inv s
    → Inv (record s { endpoint = t })
Keeps-Inv s t k v i = record {
  active = k.on i.active;
  sound = v;
  charged = omega (arith, i.charged, k.sent);
  charged_to = λ id. rw (k.streams) (i.charged_to id);
}

reserves-Inv :
    (id n : ℕ) (s : System)
    → (reserve_send_data id n s.endpoint).1 ≡ none
    → Inv s
    → Inv (record s {
      endpoint = (reserve_send_data id n s.endpoint).0;
      pending = (id, n) ∷ s.pending;
    })
reserves-Inv id n s h i =
    let e = s.endpoint in
    let c = reserve_charges id n e i.active i.sound.balanced h in
    record {
      active = unfold reserve_send_data in ground (arith, i.active);
      sound = reserve-IsSound id n e i.sound;
      charged = unfold all_bytes in omega (arith, c.0, i.charged);
      charged_to = λ j. unfold bytes_of in omega (arith, c.1 j, i.charged_to j);
    }

written-Inv :
    (id n : ℕ) (xs ys : Payloads) (s : System)
    → s.pending ≡ xs ++ (id, n) ∷ ys
    → Inv s
    → Inv (record s { pending = xs ++ ys; wire = (id, n) ∷ s.wire })
written-Inv id n xs ys s h i = record {
  active = i.active;
  sound = i.sound;
  charged =
      unfold all_bytes in omega (arith, i.charged, ap all_bytes h, all_bytes-middle xs ys id n);
  charged_to = λ j.
      unfold bytes_of in
      omega (arith, i.charged_to j, ap (bytes_of j) h, bytes_of-middle j xs ys id n);
}

failed-Inv :
    (id n : ℕ) (xs ys : Payloads) (s : System)
    → s.pending ≡ xs ++ (id, n) ∷ ys
    → Inv s
    → Inv (record s { endpoint = refund_send_data id n s.endpoint; pending = xs ++ ys })
failed-Inv id n xs ys s h i =
    let e = s.endpoint in
    let held : n ≤ get id e.limits.stream_sent =
      ground (arith, i.charged_to id, ap (bytes_of id) h, bytes_of-middle id xs ys id n) in
    let r = refund_returns id n e i.active i.sound.balanced held in
    record {
      active = unfold refund_send_data in ground (arith, i.active);
      sound = refund-IsSound id n e i.sound held;
      charged = omega (arith, r.0, i.charged, ap all_bytes h, all_bytes-middle xs ys id n);
      charged_to = λ j.
          omega (arith, r.1 j, i.charged_to j, ap (bytes_of j) h, bytes_of-middle j xs ys id n);
    }

pub Step-Inv : (q : Quicvarint) (s t : System) → IsQuicvarint q → Step q s t → Inv s → Inv t
Step-Inv q s t w (reserves id n h e) i = rw e (reserves-Inv id n s h i)
Step-Inv q s t w (rejected id n x h e) i = rw (e, reserve_rejected id n s.endpoint x h) i
Step-Inv q s t w (written id n xs ys h e) i = rw e (written-Inv id n xs ys s h i)
Step-Inv q s t w (failed id n xs ys h e) i = rw e (failed-Inv id n xs ys s h i)
Step-Inv q s t w (opens bidi e) i =
    rw e (Keeps-Inv s _ (alloc-Keeps bidi s.endpoint) (alloc-IsSound bidi s.endpoint i.sound) i)
Step-Inv q s t w (accepts id e) i =
    rw e (Keeps-Inv s _ (track-Keeps id s.endpoint) (track-IsSound id s.endpoint i.sound) i)
Step-Inv q s t w (receives typ content e) i = rw e (
    Keeps-Inv s _ (handle-Keeps q typ content s.endpoint)
      (handle-IsSound q typ content s.endpoint w i.sound) i)

Reach-Inv : (q : Quicvarint) (s t : System) → IsQuicvarint q → Reach q s t → Inv s → Inv t
Reach-Inv q s t w here i = i
Reach-Inv q s t w (next {t = u} r st) i = Step-Inv q u t w st (Reach-Inv q s u w r i)

-- A session whose peer sent its SETTINGS, before anything was sent.
abbrev pub fresh : Bool → PeerInitialLimits → System
fresh is_server peer = record {
  endpoint =
      adopt_peer_send_limits peer
        (record { is_server = is_server; created_stream_counter = 0; limits = no_limits });
  pending = [];
  wire = [];
}

fresh-Inv :
    (is_server : Bool) (peer : PeerInitialLimits) → IsGrant peer → Inv (fresh is_server peer)
fresh-Inv is_server peer g = record {
  active = unfold adopt_peer_send_limits in refl;
  sound = adopt-IsSound peer _ g refl;
  charged = unfold adopt_peer_send_limits all_bytes in refl;
  charged_to = λ id. unfold adopt_peer_send_limits bytes_of get lookup in refl;
}

-- On a session that starts with the limits of its peer's SETTINGS and with nothing sent, whatever the
-- goroutines' order and whatever the peer sends, the bytes that the transport took never exceed the session's limit in force, nor those of a stream that stream's limit, and with no write
-- under way the counter is exactly the bytes that the transport took.
pub wire-within_grant :
    (q : Quicvarint) (is_server : Bool) (peer : PeerInitialLimits) (t : System)
    → IsQuicvarint q
    → IsGrant peer
    → Reach q (fresh is_server peer) t
    → (all_bytes t.wire ≤ t.endpoint.limits.max_data)
      × ((id : ℕ) → bytes_of id t.wire ≤ get id t.endpoint.limits.stream_max)
      × (t.pending ≡ [] → t.endpoint.limits.data_sent ≡ all_bytes t.wire)
wire-within_grant q is_server peer t w g r =
    let i = Reach-Inv q _ t w r (fresh-Inv is_server peer g) in
    (
      omega (arith, i.charged, i.sound.within_data),
      λ id. omega (arith, i.charged_to id, i.sound.within_stream id),
      λ e. unfold all_bytes in omega (arith, i.charged, ap all_bytes e),
    )
