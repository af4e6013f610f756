-- ===== src/Capsule.antt =====
-- capsule.go: the capsule types and their names.
use webtransport_h2_go.Prelude.{
  ℕ, zero, suc, ◌+◌, ◌-◌, ◌/◌, ◌%◌, List, [], ◌∷◌, ◌++◌, ltb, ◌==◌, if◌then◌else◌, codes,
}

abbrev pub padding : ℕ
padding = 0x190B4D38

abbrev pub wt_reset_stream : ℕ
wt_reset_stream = 0x190B4D39

abbrev pub wt_stop_sending : ℕ
wt_stop_sending = 0x190B4D3A

abbrev pub wt_stream : ℕ
wt_stream = 0x190B4D3C

abbrev pub wt_stream_fin : ℕ
wt_stream_fin = 0x190B4D3B

abbrev pub wt_max_data : ℕ
wt_max_data = 0x190B4D3D

abbrev pub wt_max_stream_data : ℕ
wt_max_stream_data = 0x190B4D3E

abbrev pub wt_max_streams_bidi : ℕ
wt_max_streams_bidi = 0x190B4D3F

abbrev pub wt_max_streams_uni : ℕ
wt_max_streams_uni = 0x190B4D40

abbrev pub wt_data_blocked : ℕ
wt_data_blocked = 0x190B4D41

abbrev pub wt_stream_data_blocked : ℕ
wt_stream_data_blocked = 0x190B4D42

abbrev pub wt_streams_blocked_bidi : ℕ
wt_streams_blocked_bidi = 0x190B4D43

abbrev pub wt_streams_blocked_uni : ℕ
wt_streams_blocked_uni = 0x190B4D44

abbrev pub datagram : ℕ
datagram = 0x00

abbrev pub wt_close_session : ℕ
wt_close_session = 0x2843

abbrev pub wt_drain_session : ℕ
wt_drain_session = 0x78ae

-- A digit as `%X` prints it.
hex_digit : ℕ → ℕ
hex_digit d = if ltb d 10 then b'0' + d else b'A' + d - 10

-- The digits of `n` in front of `acc`, highest first. 16 rounds are enough for a uint64.
hex_loop : ℕ → ℕ → List ℕ → List ℕ
hex_loop zero n acc = acc
hex_loop (suc fuel) n acc =
    let out = hex_digit (n % 16) ∷ acc in
    let rest = hex_loop fuel (n / 16) out in if n / 16 == 0 then out else rest

-- `fmt.Sprintf("%X", n)` of a uint64
hex_upper : ℕ → List ℕ
hex_upper n = hex_loop 16 n []

-- `CapsuleType.String`
pub to_string : ℕ → List ℕ
to_string c =
    if c == padding
    then codes "PADDING"
    else if c == wt_reset_stream
    then codes "WT_RESET_STREAM"
    else if c == wt_stop_sending
    then codes "WT_STOP_SENDING"
    else if c == wt_stream
    then codes "WT_STREAM"
    else if c == wt_stream_fin
    then codes "WT_STREAM_FIN"
    else if c == wt_max_data
    then codes "WT_MAX_DATA"
    else if c == wt_max_stream_data
    then codes "WT_MAX_STREAM_DATA"
    else if c == wt_max_streams_bidi
    then codes "WT_MAX_STREAMS_BIDI"
    else if c == wt_max_streams_uni
    then codes "WT_MAX_STREAMS_UNI"
    else if c == wt_data_blocked
    then codes "WT_DATA_BLOCKED"
    else if c == wt_stream_data_blocked
    then codes "WT_STREAM_DATA_BLOCKED"
    else if c == wt_streams_blocked_bidi
    then codes "WT_STREAMS_BLOCKED_BIDI"
    else if c == wt_streams_blocked_uni
    then codes "WT_STREAMS_BLOCKED_UNI"
    else if c == datagram
    then codes "DATAGRAM"
    else if c == wt_close_session
    then codes "WT_CLOSE_SESSION"
    else if c == wt_drain_session
    then codes "WT_DRAIN_SESSION"
    else codes "unknown(0x" ++ (hex_upper c ++ codes ")")
