-- ===== src/Settings.antt =====
-- third_party/net/http2/webtransport_settings.go: the SETTINGS of WebTransport, as they are sent and
-- as the peer's are kept. Each function is one critical section of its `mu`.
pub mod Exchanged
use webtransport_h2_go.Prelude.{
  ℕ, Bool, true, false, List, [], ◌∷◌, ◌++◌, Option, none, some, ◌==◌, if◌then◌else◌,
}

abbrev pub wt_enabled : ℕ
wt_enabled = 0x2b60

abbrev pub wt_initial_max_data : ℕ
wt_initial_max_data = 0x2b61

abbrev pub wt_initial_max_stream_data_uni : ℕ
wt_initial_max_stream_data_uni = 0x2b62

abbrev pub wt_initial_max_stream_data_bidi_local : ℕ
wt_initial_max_stream_data_bidi_local = 0x2b63

abbrev pub wt_initial_max_streams_uni : ℕ
wt_initial_max_streams_uni = 0x2b64

abbrev pub wt_initial_max_streams_bidi : ℕ
wt_initial_max_streams_bidi = 0x2b65

abbrev pub wt_initial_max_stream_data_bidi_remote : ℕ
wt_initial_max_stream_data_bidi_remote = 0x2b66

-- The limits are 32-bit numbers.
pub record WebTransportSettings : Type 0 where
  pub enabled : Bool
  pub initial_max_data : ℕ
  pub initial_max_stream_data_uni : ℕ
  pub initial_max_stream_data_bidi_local : ℕ
  pub initial_max_stream_data_bidi_remote : ℕ
  pub initial_max_streams_uni : ℕ
  pub initial_max_streams_bidi : ℕ

unfoldable pub default_settings : WebTransportSettings
default_settings = record {
  enabled = true;
  initial_max_data = 1048576;
  initial_max_stream_data_uni = 1048576;
  initial_max_stream_data_bidi_local = 1048576;
  initial_max_stream_data_bidi_remote = 1048576;
  initial_max_streams_uni = 100;
  initial_max_streams_bidi = 100;
}

unfoldable pub default_client_settings : WebTransportSettings
default_client_settings = record default_settings { enabled = false }

-- The zero value, with which a connection's record of its peer starts.
abbrev pub no_settings : WebTransportSettings
no_settings = record {
  enabled = false;
  initial_max_data = 0;
  initial_max_stream_data_uni = 0;
  initial_max_stream_data_bidi_local = 0;
  initial_max_stream_data_bidi_remote = 0;
  initial_max_streams_uni = 0;
  initial_max_streams_bidi = 0;
}

pub record Setting : Type 0 where
  pub id : ℕ
  pub val : ℕ

abbrev setting : ℕ → ℕ → Setting
setting id val = record { id = id; val = val }

-- `none` is the nil pointer.
unfoldable pub settings : Option WebTransportSettings → List Setting
settings none = []
settings (some s) =
    (if s.enabled then setting wt_enabled 1 ∷ [] else [])
    ++ setting wt_initial_max_data s.initial_max_data
      ∷ setting wt_initial_max_stream_data_uni s.initial_max_stream_data_uni
      ∷ setting wt_initial_max_stream_data_bidi_local s.initial_max_stream_data_bidi_local
      ∷ setting wt_initial_max_stream_data_bidi_remote s.initial_max_stream_data_bidi_remote
      ∷ setting wt_initial_max_streams_uni s.initial_max_streams_uni
      ∷ setting wt_initial_max_streams_bidi s.initial_max_streams_bidi
      ∷ []

-- The Boolean says whether the setting is one of WebTransport's.
unfoldable pub apply : Setting → WebTransportSettings → WebTransportSettings × Bool
apply s p =
    if s.id == wt_enabled
    then (record p { enabled = s.val == 1 }, true)
    else if s.id == wt_initial_max_data
    then (record p { initial_max_data = s.val }, true)
    else if s.id == wt_initial_max_stream_data_uni
    then (record p { initial_max_stream_data_uni = s.val }, true)
    else if s.id == wt_initial_max_stream_data_bidi_local
    then (record p { initial_max_stream_data_bidi_local = s.val }, true)
    else if s.id == wt_initial_max_stream_data_bidi_remote
    then (record p { initial_max_stream_data_bidi_remote = s.val }, true)
    else if s.id == wt_initial_max_streams_uni
    then (record p { initial_max_streams_uni = s.val }, true)
    else if s.id == wt_initial_max_streams_bidi
    then (record p { initial_max_streams_bidi = s.val }, true)
    else (p, false)

-- The SETTINGS of a frame, or of several, one after the other.
unfoldable pub apply_all : List Setting → WebTransportSettings → WebTransportSettings
apply_all [] p = p
apply_all (s ∷ rest) p = apply_all rest (apply s p).0

-- `peerWTSettingsCapture`: the peer's SETTINGS as they are when the client writes a request.
pub record Capture : Type 0 where
  pub ok : Bool
  pub s : WebTransportSettings

abbrev pub no_capture : Capture
no_capture = record { ok = false; s = no_settings }

unfoldable pub store : WebTransportSettings → Capture → Capture
store s c = record { ok = true; s = s }

unfoldable pub get : Capture → Option WebTransportSettings
get c = if c.ok then some c.s else none

-- `recordPeerWebTransportSettings`: a request that has no capture keeps none.
unfoldable pub record_peer_settings : WebTransportSettings → Option Capture → Option Capture
record_peer_settings peer none = none
record_peer_settings peer (some c) = some (store peer c)
