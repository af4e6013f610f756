-- ===== src/Commands/EchoCommand.antt =====
-- cmd/echo/main.go: `client` and `selftest`; internal/echo/handler.go: the handler around `Upgrade`.
use mathlib.Core.Option
use webtransport_h2_go.Prelude.{ℕ, List, [], ◌∷◌, Option, none, some, eq_text, codes, if◌then◌else◌}
use webtransport_h2_go.Errors.{Error, Result}
use webtransport_h2_go.Fallible.{Try, done, failed}
use webtransport_h2_go.Wire.{Quicvarint}
use webtransport_h2_go.Settings.{WebTransportSettings}
use webtransport_h2_go.Session.State.{Session, Transport}
use webtransport_h2_go.Session.Close.{close}
use webtransport_h2_go.Handshake.{Text, Sfv}
use webtransport_h2_go.Handshake.Server.{Request, Response, UpgradeError, upgrade}
use webtransport_h2_go.Handshake.Client.{HttpResponse, ConnectError, Closed, connect}
use webtransport_h2_go.Echo
use webtransport_h2_go.Echo.{select_protocol, EchoServer, run_echo_server}
use webtransport_h2_go.Echo.Client.{
  Mode, mode_bidi, mode_uni, mode_datagram, other_mode, EchoError, Waits, run_client,
}

pub data EchoCommandError : Type 0 where
  url_required : EchoCommandError
  not_connected : ConnectError → EchoCommandError
  client_failed : EchoError → EchoCommandError

-- `echo.Mode(*modeFlag)`
unfoldable pub mode_of : Text → Mode
mode_of t =
    if eq_text t (codes "bidi")
    then mode_bidi
    else if eq_text t (codes "uni")
    then mode_uni
    else if eq_text t (codes "datagram")
    then mode_datagram
    else other_mode t

abbrev pub on_accepted :
    {W : Type 0}
    → Response × Try UpgradeError (Session W)
    → Response × Try UpgradeError (EchoServer W)
on_accepted (r, failed e) = (r, failed e)
on_accepted (r, done s) = (r, done (run_echo_server s))

module _ {W : Type 0} where
  -- `Handler` of internal/echo, up to the first wait; an error is the text of a response of status 400.
  unfoldable pub handler :
      Sfv → Option Error → W → Request → Response × Try UpgradeError (EchoServer W)
  handler v duplex w r = on_accepted (upgrade v (some select_protocol) duplex w r)

  -- `dial`
  unfoldable pub dial :
      Sfv
      → Option Error
      → (Option Text → Result HttpResponse × Option WebTransportSettings)
      → W
      → Closed × Try ConnectError (Session W)
  dial v new_request round_trip pipe = connect v new_request round_trip pipe (Echo.protocol ∷ [])

module _ {W : Type 0} (net : Transport W) (q : Quicvarint) where
  abbrev finished : Session W × Option EchoError → Option (Session W) × Option EchoCommandError
  finished (s, none) = (some (close s), none)
  finished (s, some e) = (some (close s), some (client_failed e))

  -- The part that `cmdClient` and `cmdSelftest` share, behind `dial`: the exchange, and the deferred
  -- `Close` of the session (the pipe's is left out). `none`: the exchange has to wait.
  unfoldable pub exchange :
      Waits W
      → Text
      → List ℕ
      → Try ConnectError (Session W)
      → Option (Option (Session W) × Option EchoCommandError)
  exchange w mode payload (failed e) = some (none, some (not_connected e))
  exchange w mode payload (done s) =
      Option.map finished (run_client net q w (mode_of mode) payload s)

  unfoldable pub cmd_client :
      Waits W
      → Text
      → Text
      → List ℕ
      → Try ConnectError (Session W)
      → Option (Option (Session W) × Option EchoCommandError)
  cmd_client w [] mode payload dialled = some (none, some url_required)
  cmd_client w (c ∷ raw_url) mode payload dialled = exchange w mode payload dialled
