-- ===== src/Handshake.antt =====
-- server.go and client.go: how the two sides come to a session, over an HTTP library and go-sfv
-- (structured fields), which are not in this repository. Header names are fixed by each function, so a
-- request and a response hold the values of those that the code reads. Texts are lists of code points.
pub mod Server
pub mod Client
pub mod Agreement
pub mod Upgraded
pub mod Offered
use webtransport_h2_go.Prelude.{ℕ, List, [], ◌∷◌, Option, none, some, ◌≡◌, ◌≢◌}
use webtransport_h2_go.Errors.{Error, Result, ok, err}
use webtransport_h2_go.Flow.{PeerInitialLimits}
use webtransport_h2_go.Settings.{WebTransportSettings}

abbrev pub Text : Type 0
Text = List ℕ

-- An item of a structured field: a string, or any other value by its text.
pub data Item : Type 0 where
  string : Text → Item
  other_value : Text → Item

pub record Sfv : Type 0 where
  -- `EncodeItem`, `DecodeItem`, `EncodeList`, `DecodeList`; the decoders take a header's values.
  pub encode_item : Item → Result Text
  pub decode_item : List Text → Result Item
  pub encode_list : List Item → Result Text
  pub decode_list : List Text → Result (List Item)

-- The text of an item is not empty; what is encoded is decoded again.
pub record IsSfv (v : Sfv) : Type 0 where
  pub item_again : (i : Item) (t : Text) → v.encode_item i ≡ ok t → v.decode_item (t ∷ []) ≡ ok i
  pub item_filled : (i : Item) → v.encode_item i ≢ ok []
  pub list_again :
      (items : List Item) (t : Text)
      → v.encode_list items ≡ ok t
      → v.decode_list (t ∷ []) ≡ ok items

-- `peerLimitsFromSettings`
unfoldable pub peer_limits_from_settings : WebTransportSettings → PeerInitialLimits
peer_limits_from_settings s = record {
  max_data = s.initial_max_data;
  max_streams_uni = s.initial_max_streams_uni;
  max_streams_bidi = s.initial_max_streams_bidi;
  stream_data_uni = s.initial_max_stream_data_uni;
  stream_data_bidi_local = s.initial_max_stream_data_bidi_local;
  stream_data_bidi_remote = s.initial_max_stream_data_bidi_remote;
}

abbrev pub peer_limits : Option WebTransportSettings → Option PeerInitialLimits
peer_limits none = none
peer_limits (some s) = some (peer_limits_from_settings s)
