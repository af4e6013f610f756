-- ===== src/Handshake/Client.antt =====
-- client.go: `Connect`. The round trip of the HTTP library is a parameter. `pipe_closed` and
-- `body_closed` say what `Connect` closed before it returned.
use webtransport_h2_go.Prelude.{
  ℕ, ◌||◌, Bool, true, false, List, [], ◌∷◌, Option, none, some, ltb, leb, if◌then◌else◌, map,
}
use webtransport_h2_go.Errors.{Error, Result, ok, err}
use webtransport_h2_go.Fallible.{Try, done, failed}
use webtransport_h2_go.Settings.{WebTransportSettings}
use webtransport_h2_go.Session.State.{Session, new_session}
use webtransport_h2_go.Handshake.{Text, string, other_value, Sfv, peer_limits}

pub data ConnectError : Type 0 where
  from_library : Error → ConnectError
  connection_failed : Error → ConnectError
  refused : ℕ → ConnectError
  invalid_protocol : Error → ConnectError
  expected_string : Text → ConnectError

pub record HttpResponse : Type 0 where
  pub status_code : ℕ
  -- the values of the header `WT-Protocol`
  pub wt_protocol : List Text

pub record Closed : Type 0 where
  pub pipe_closed : Bool
  pub body_closed : Bool

unfoldable pub encode_available_protocols : Sfv → List Text → Result Text
encode_available_protocols v available = v.encode_list (map string available)

-- The header `WT-Available-Protocols`, where there is something to offer.
unfoldable pub offer : Sfv → List Text → Result (Option Text)
offer v [] = ok none
offer v (p ∷ available) = elim (encode_available_protocols v (p ∷ available)) [
  | err e ↦ err e
  | ok t ↦ ok (some t)
]

unfoldable pub decode_selected : Sfv → List Text → Try ConnectError Text
decode_selected v h = elim (v.decode_item h) [
  | err e ↦ failed (invalid_protocol e)
  | ok i ↦ elim i [ string p ↦ done p | other_value t ↦ failed (expected_string t) ]
]

unfoldable pub parse_selected_protocol : Sfv → List Text → Try ConnectError Text
parse_selected_protocol v [] = done []
parse_selected_protocol v ([] ∷ []) = done []
parse_selected_protocol v h = decode_selected v h

module _ {W : Type 0} where
  -- The part of `Connect` behind the round trip.
  unfoldable pub connected :
      Sfv
      → W
      → Option WebTransportSettings
      → Result HttpResponse
      → Closed × Try ConnectError (Session W)
  connected v pipe peer (err e) =
      (record { pipe_closed = true; body_closed = false }, failed (connection_failed e))
  connected v pipe peer (ok res) =
      if ltb res.status_code 200 || leb 300 res.status_code
      then (record { pipe_closed = true; body_closed = true }, failed (refused res.status_code))
      else elim (parse_selected_protocol v res.wt_protocol) [
        | failed e ↦ (record { pipe_closed = true; body_closed = true }, failed e)
        | done protocol ↦ (
          record { pipe_closed = false; body_closed = false },
          done (new_session pipe protocol false (peer_limits peer)),
        )
      ]

  -- `new_request` is the error of `http.NewRequest`; the round trip takes the offer, and returns the
  -- response with the peer's SETTINGS that were captured.
  unfoldable pub connect :
      Sfv
      → Option Error
      → (Option Text → Result HttpResponse × Option WebTransportSettings)
      → W
      → List Text
      → Closed × Try ConnectError (Session W)
  connect v (some e) round_trip pipe available =
      (record { pipe_closed = false; body_closed = false }, failed (from_library e))
  connect v none round_trip pipe available = elim (offer v available) [
    | err e ↦ (record { pipe_closed = false; body_closed = false }, failed (from_library e))
    | ok header ↦ let (res, peer) = round_trip header in connected v pipe peer res
  ]
