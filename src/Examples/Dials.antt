-- ===== src/Examples/Dials.antt =====
-- The commands: an echo client that dials the echo handler, and the parameters of a baton session.
use webtransport_h2_go.Prelude.{arith, ◌≡◌, refl, true, false, [], ◌∷◌, none, some, eq_text, pos}
use webtransport_h2_go.Errors.{ok}
use webtransport_h2_go.Fallible.{done}
use webtransport_h2_go.Settings.{default_settings}
use webtransport_h2_go.Session.State.{new_session}
use webtransport_h2_go.Handshake.{string, peer_limits}
use webtransport_h2_go.Handshake.Server.{check_request}
use webtransport_h2_go.Handshake.Client.{offer, encode_available_protocols}
use webtransport_h2_go.Handshake.Agreement.{values}
use webtransport_h2_go.Echo.{protocol, run_echo_server}
use webtransport_h2_go.Baton.Config.{Config, query}
use webtransport_h2_go.Baton.Run.{start_run}
use webtransport_h2_go.Commands.EchoCommand.{handler, dial}
use webtransport_h2_go.Commands.Dialling.{offering, dial_echo}
use webtransport_h2_go.Commands.BatonCommand.{selftest_config, selftest_handler}
use webtransport_h2_go.Commands.Queries.{selftest_agrees}
use webtransport_h2_go.Examples.Handshakes.{marks, marks-IsSfv, request, all_marked}
use webtransport_h2_go.Examples.Sessions.{Log, server}

abbrev no_capsules : Log
no_capsules = []

dial_echo_example :
    ((handler marks none no_capsules
        (offering (some (all_marked (string protocol ∷ []))) request)).1
      ≡ done (
          run_echo_server
            (new_session no_capsules protocol true (peer_limits (some default_settings)))))
    × (dial marks none
          (λ h. (
            ok (record {
              status_code = 200;
              wt_protocol =
                  values (handler marks none no_capsules (offering h request)).0.wt_protocol;
            }),
            some default_settings,
          ))
          []
        ≡ (
          record { pipe_closed = false; body_closed = false },
          done (new_session no_capsules protocol false (peer_limits (some default_settings))),
        ))
unfolding offer encode_available_protocols check_request eq_text
dial_echo_example =
    dial_echo marks no_capsules no_capsules request (all_marked (string protocol ∷ []))
      (all_marked (string protocol ∷ [])) (some default_settings) marks-IsSfv refl refl refl

abbrev hops : Config
hops = record { version = pos 0; baton = 200; count = pos 2; padding = pos 5 }

selftest_agrees_example :
    selftest_handler (pos 5) (query hops) (done server) ≡ done (start_run server true hops)
unfolding selftest_config
selftest_agrees_example =
    selftest_agrees (λ q. q) (pos 200) (pos 5) 2 hops server (λ k q. refl) (omega arith) refl
