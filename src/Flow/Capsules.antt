-- ===== src/Flow/Capsules.antt =====
-- The capsules that raise a grant, from the sender's side: what is written, and what the receiver of
-- the capsule makes of it.
use webtransport_h2_go.Prelude.{
  ℕ, ◌^◌, ◌≤◌, ◌<◌, ◌≡◌, ◌↔◌, refl, Bool, true, false, List, [], ◌∷◌, ◌++◌, Option, none, arith,
  lookup-insert,
}
use webtransport_h2_go.Errors.{Error, ok}
use webtransport_h2_go.Wire.{Quicvarint, IsQuicvarint, discard}
use webtransport_h2_go.Capsule
use webtransport_h2_go.Flow.{
  Endpoint, current_stream_limit, raise_max_data, raise_max_stream_data, raise_max_streams,
  read_varints, read_capsule_varints, handle_send_limit_capsule, apply_fields, max_stream_count,
}

-- A new limit, as the drafts name them.
pub data Update : Type 0 where
  data_limit : ℕ → Update
  stream_data_limit : ℕ → ℕ → Update
  stream_limit : Bool → ℕ → Update

abbrev pub capsule_type : Update → ℕ
capsule_type (data_limit max) = Capsule.wt_max_data
capsule_type (stream_data_limit id max) = Capsule.wt_max_stream_data
capsule_type (stream_limit true max) = Capsule.wt_max_streams_bidi
capsule_type (stream_limit false max) = Capsule.wt_max_streams_uni

abbrev pub encode : Quicvarint → Update → List ℕ → List ℕ
encode q (data_limit max) rest = q.append [] max ++ rest
encode q (stream_data_limit id max) rest = q.append [] id ++ (q.append [] max ++ rest)
encode q (stream_limit bidi max) rest = q.append [] max ++ rest

-- The numbers fit variable-length integers.
abbrev pub IsEncodable : Update → Type 0
IsEncodable (data_limit max) = max < 2 ^ 62
IsEncodable (stream_data_limit id max) = (id < 2 ^ 62) × (max < 2 ^ 62)
IsEncodable (stream_limit bidi max) = max < 2 ^ 62

abbrev pub claimed : Update → ℕ
claimed (data_limit max) = max
claimed (stream_data_limit id max) = max
claimed (stream_limit bidi max) = max

-- The limit in force that the update is about.
abbrev pub in_force : Update → Endpoint → ℕ
in_force (data_limit max) s = s.limits.max_data
in_force (stream_data_limit id max) s = current_stream_limit id s
in_force (stream_limit true max) s = s.limits.max_streams_bidi
in_force (stream_limit false max) s = s.limits.max_streams_uni

-- The draft's rule: a limit never goes down, and a count of streams is at most 2^60.
abbrev pub IsLawful : Update → Endpoint → Type 0
IsLawful (data_limit max) s = s.limits.max_data ≤ max
IsLawful (stream_data_limit id max) s = current_stream_limit id s ≤ max
IsLawful (stream_limit true max) s = (s.limits.max_streams_bidi ≤ max) × (max ≤ max_stream_count)
IsLawful (stream_limit false max) s = (s.limits.max_streams_uni ≤ max) × (max ≤ max_stream_count)

abbrev pub receive : Quicvarint → Update → List ℕ → Endpoint → Endpoint × Option Error
receive q u rest s =
    handle_send_limit_capsule q (capsule_type u) (record { bytes = encode q u rest; fault = none })
      s

-- The raise that the capsule stands for.
abbrev apply : Update → Endpoint → Endpoint × Option Error
apply (data_limit max) s = raise_max_data max s
apply (stream_data_limit id max) s = raise_max_stream_data id max s
apply (stream_limit bidi max) s = raise_max_streams bidi max s

module _ (q : Quicvarint) (w : IsQuicvarint q) (rest : List ℕ) (s : Endpoint) where
  read_one :
      (v : ℕ)
      → v < 2 ^ 62
      → read_capsule_varints q (record { bytes = q.append [] v ++ rest; fault = none }) 1
        ≡ ok (v ∷ [])
  unfolding read_capsule_varints read_varints discard
  read_one v h = ground (arith, w.read-append v rest none h)

  read_two :
      (v u : ℕ)
      → v < 2 ^ 62
      → u < 2 ^ 62
      → read_capsule_varints q
          (record { bytes = q.append [] v ++ (q.append [] u ++ rest); fault = none })
          2
        ≡ ok (v ∷ u ∷ [])
  unfolding read_capsule_varints read_varints discard
  read_two v u h k =
      ground (arith, w.read-append v (q.append [] u ++ rest) none h, w.read-append u rest none k)

  receive-apply : (u : Update) → IsEncodable u → receive q u rest s ≡ apply u s
  unfolding handle_send_limit_capsule apply_fields
  receive-apply (data_limit max) h = rw (read_one max h, apply_fields) refl
  receive-apply (stream_data_limit id max) h = rw (read_two id max h.0 h.1, apply_fields) refl
  receive-apply (stream_limit true max) h = rw (read_one max h, apply_fields) refl
  receive-apply (stream_limit false max) h = rw (read_one max h, apply_fields) refl

apply_iff : (u : Update) (s : Endpoint) → ((apply u s).1 ≡ none) ↔ IsLawful u s
unfolding raise_max_data raise_max_stream_data raise_max_streams
apply_iff (data_limit max) s = (λ h. ground arith, λ h. ground arith)
apply_iff (stream_data_limit id max) s = (λ h. ground arith, λ h. ground arith)
apply_iff (stream_limit true max) s = (λ h. ground arith, λ h. ground arith)
apply_iff (stream_limit false max) s = (λ h. ground arith, λ h. ground arith)

apply_sets :
    (u : Update) (s : Endpoint) → (apply u s).1 ≡ none → in_force u (apply u s).0 ≡ claimed u
unfolding raise_max_data raise_max_stream_data raise_max_streams
apply_sets (data_limit max) s h = ground arith
apply_sets (stream_data_limit id max) s h =
    unfold current_stream_limit in ground (arith, lookup-insert id id max s.limits.stream_max)
apply_sets (stream_limit true max) s h = ground arith
apply_sets (stream_limit false max) s h = ground arith

-- A WT_MAX_DATA, WT_MAX_STREAM_DATA or WT_MAX_STREAMS capsule, with any bytes behind its fields, is
-- accepted exactly when it obeys the draft's rule, and then its limit is the one in force.
pub receive-IsLawful :
    (q : Quicvarint) (u : Update) (rest : List ℕ) (s : Endpoint)
    → IsQuicvarint q
    → IsEncodable u
    → (((receive q u rest s).1 ≡ none) ↔ IsLawful u s)
      × ((receive q u rest s).1 ≡ none → in_force u (receive q u rest s).0 ≡ claimed u)
receive-IsLawful q u rest s w h = rw (receive-apply q w rest s u h) (apply_iff u s, apply_sets u s)
