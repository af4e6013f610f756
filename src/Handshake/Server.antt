-- ===== src/Handshake/Server.antt =====
-- server.go: `Upgrade`. A `http.ResponseController` either enables full duplex or returns an error.
use webtransport_h2_go.Prelude.{
  eq_text, Bool, true, false, not, List, [], ◌∷◌, ◌++◌, Option, none, some, length, replicate,
  if◌then◌else◌, codes, ◌||◌,
}
use webtransport_h2_go.Errors.{Error, Result, ok, err}
use webtransport_h2_go.Fallible.{Try, done, failed, ◌>>=◌}
use webtransport_h2_go.Settings.{WebTransportSettings}
use webtransport_h2_go.Session.State.{Session, new_session}
use webtransport_h2_go.Handshake.{Text, Item, string, other_value, Sfv, peer_limits}

pub record Request : Type 0 where
  pub method : Text
  pub proto : Text
  -- the values of the header `:protocol`
  pub protocol_values : List Text
  pub wt_available_protocols : List Text
  pub peer_settings : Option WebTransportSettings

pub data UpgradeError : Type 0 where
  expected_connect expected_http2 expected_webtransport not_available : UpgradeError
  invalid_available_protocols : Error → UpgradeError
  expected_string : Text → UpgradeError
  from_library : Error → UpgradeError

-- What `Upgrade` has done to the response when it returns.
pub record Response : Type 0 where
  pub wt_protocol : Option Text
  -- the status 200 was written and flushed
  pub accepted : Bool

-- `http.Header.Get`
abbrev pub first : List Text → Text
first [] = []
first (v ∷ vs) = v

-- `slices.Contains`
unfoldable pub contains_text : List Text → Text → Bool
contains_text [] t = false
contains_text (x ∷ xs) t = eq_text x t || contains_text xs t

-- The loop of `parseAvailableProtocolsHeader`.
unfoldable pub append_strings : List Text → List Item → Try UpgradeError (List Text)
append_strings protocols [] = done protocols
append_strings protocols (string p ∷ items) = append_strings (protocols ++ p ∷ []) items
append_strings protocols (other_value v ∷ items) = failed (expected_string v)

-- `make([]string, len(list))` is a slice of empty strings.
unfoldable pub parse_available_protocols : Sfv → List Text → Try UpgradeError (List Text)
parse_available_protocols v h = elim (v.decode_list h) [
  | err e ↦ failed (invalid_available_protocols e)
  | ok items ↦ append_strings (replicate (length items) []) items
]

abbrev pub from_result : {A : Type 0} → Result A → Try UpgradeError A
from_result (ok a) = done a
from_result (err e) = failed (from_library e)

-- The part of `Upgrade` behind `SelectProtocol`: the protocol, and the header where one is set.
unfoldable pub announce : Sfv → List Text → Text → Try UpgradeError (Text × Option Text)
announce v available [] = done ([], none)
announce v available (c ∷ cs) =
    if not (contains_text available (c ∷ cs))
    then failed not_available
    else from_result (v.encode_item (string (c ∷ cs))) >>= (λ h. done (c ∷ cs, some h))

-- `SelectProtocol` is the application's.
unfoldable pub negotiate :
    Sfv
    → Option (Request → List Text → Result Text)
    → Request
    → Try UpgradeError (Text × Option Text)
negotiate v none r = done ([], none)
negotiate v (some select) r = do
  available ← parse_available_protocols v r.wt_available_protocols
  protocol ← from_result (select r available)
  announce v available protocol

-- The three guards at the top.
unfoldable pub check_request : Request → Option UpgradeError
check_request r =
    if not (eq_text r.method (codes "CONNECT"))
    then some expected_connect
    else if not (eq_text r.proto (codes "HTTP/2.0"))
    then some expected_http2
    else if not (eq_text (first r.protocol_values) (codes "webtransport"))
    then some expected_webtransport
    else none

module _ {W : Type 0} where
  abbrev pub start :
      W → Request → Option Error → Text × Option Text → Response × Try UpgradeError (Session W)
  start w r (some e) (protocol, h) =
      (record { wt_protocol = h; accepted = false }, failed (from_library e))
  start w r none (protocol, h) = (
    record { wt_protocol = h; accepted = true },
    done (new_session w protocol true (peer_limits r.peer_settings)),
  )

  unfoldable pub upgrade :
      Sfv
      → Option (Request → List Text → Result Text)
      → Option Error
      → W
      → Request
      → Response × Try UpgradeError (Session W)
  upgrade v select duplex w r =
      let nothing : Response = record { wt_protocol = none; accepted = false } in
      elim (check_request r) [
        | some e ↦ (nothing, failed e)
        | none ↦ elim (negotiate v select r) [
          | failed e ↦ (nothing, failed e)
          | done n ↦ start w r duplex n
        ]
      ]
