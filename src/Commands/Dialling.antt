-- ===== src/Commands/Dialling.antt =====
-- The echo client's dialling in cmd/echo/main.go against the echo handler of internal/echo/handler.go.
use webtransport_h2_go.Prelude.{
  ◌≡◌, refl, ap, ◌∙◌, true, false, [], ◌∷◌, Option, none, some, eq_text,
}
use webtransport_h2_go.Errors.{Result, ok}
use webtransport_h2_go.Fallible.{done}
use webtransport_h2_go.Settings.{WebTransportSettings}
use webtransport_h2_go.Session.State.{new_session}
use webtransport_h2_go.Handshake.{Text, string, Sfv, IsSfv, peer_limits}
use webtransport_h2_go.Handshake.Server.{
  Request, Response, contains_text, negotiate, announce, check_request, upgrade,
}
use webtransport_h2_go.Handshake.Client.{offer, connect, connected, HttpResponse}
use webtransport_h2_go.Handshake.Agreement.{values, agreement, upgrade_negotiated}
use webtransport_h2_go.Handshake.Offered.{offered_blanks}
use webtransport_h2_go.Echo.{protocol, select_protocol, run_echo_server}
use webtransport_h2_go.Commands.EchoCommand.{handler, dial, on_accepted}

-- The request with the header that the client sets, or without it.
abbrev pub offering : Option Text → Request → Request
offering h r = record r { wt_available_protocols = values h }

negotiated :
    (v : Sfv) (r : Request) (header u : Text)
    → IsSfv v
    → offer v (protocol ∷ []) ≡ ok (some header)
    → v.encode_item (string protocol) ≡ ok u
    → negotiate v (some select_protocol) (offering (some header) r) ≡ done (protocol, some u)
unfolding negotiate announce select_protocol contains_text eq_text
negotiated v r header u k o e = rw (offered_blanks v protocol [] header k o, e) refl

request_checked : (h : Option Text) (r : Request) → check_request (offering h r) ≡ check_request r
unfolding check_request
request_checked h r = refl

module _ {W : Type 0} where
  dialled :
      (v : Sfv) (round_trip : Option Text → Result HttpResponse × Option WebTransportSettings)
      (pipe : W) (header : Text)
      → offer v (protocol ∷ []) ≡ ok (some header)
      → dial v none round_trip pipe
        ≡ connected v pipe (round_trip (some header)).1 (round_trip (some header)).0
  unfolding dial connect
  dialled v round_trip pipe header o = rw (o, connect) refl

  -- If go-sfv decodes what it encodes and encodes the text echo, a request that passes Upgrade's guards
  -- and on which full duplex can be enabled, with the header that the echo client sets: the echo handler
  -- starts its server on a session for the protocol echo, with the limits of the client's SETTINGS; and
  -- the client that gets the header of the response with status 200 has a session for the protocol echo
  -- with the limits of the server's, and has closed nothing.
  pub dial_echo :
      (v : Sfv) (w pipe : W) (r : Request) (header u : Text) (peer : Option WebTransportSettings)
      → IsSfv v
      → offer v (protocol ∷ []) ≡ ok (some header)
      → v.encode_item (string protocol) ≡ ok u
      → check_request r ≡ none
      → ((handler v none w (offering (some header) r)).1
          ≡ done (run_echo_server (new_session w protocol true (peer_limits r.peer_settings))))
        × (dial v none
              (λ h. (
                ok (record {
                  status_code = 200;
                  wt_protocol = values (handler v none w (offering h r)).0.wt_protocol;
                }),
                peer,
              ))
              pipe
            ≡ (
              record { pipe_closed = false; body_closed = false },
              done (new_session pipe protocol false (peer_limits peer)),
            ))
  unfolding handler new_session
  dial_echo v w pipe r header u peer k o e d =
      let req = offering (some header) r in
      let s = new_session w protocol true (peer_limits r.peer_settings) in
      let resp : Response = record { wt_protocol = some u; accepted = true } in
      let up : upgrade v (some select_protocol) none w req ≡ (resp, done s) =
        (upgrade_negotiated v (some select_protocol) none w req resp s).1 (
          request_checked (some header) r ∙ d,
          refl,
          ((protocol, some u), negotiated v r header u k o e, refl, refl),
        ) in
      let answer = agreement v (some select_protocol) w req resp s pipe peer k up in
      (
        ap (λ x. (on_accepted x).1) up,
        dialled v _ pipe header o
            ∙ (ap
                  (λ x. connected v pipe peer (
                    ok (record {
                      status_code = 200;
                      wt_protocol = values (on_accepted x).0.wt_protocol;
                    })))
                  up
                ∙ answer),
      )
