-- ===== src/Echo/Client.antt =====
-- internal/echo/echo.go: the client, which sends a payload and checks the echo.
use mathlib.Core.Option
use webtransport_h2_go.Prelude.{ℕ, Bool, List, [], Option, none, some, if◌then◌else◌, eq_text}
use webtransport_h2_go.Errors.{Error, Result, ok, err, context_done}
use webtransport_h2_go.Wire.{Quicvarint}
use webtransport_h2_go.Session.State.{Session, Transport, Stream}
use webtransport_h2_go.Session.Send.{close_send}
use webtransport_h2_go.Session.Receive.{close_receive}
use webtransport_h2_go.Session.Streams.{open_stream, AcceptCase, accept_unidirectional_stream}
use webtransport_h2_go.Session.Steps.{receive_datagram}
use webtransport_h2_go.Handshake.{Text}
use webtransport_h2_go.Echo.{read_all_of, send_and_close, reply_uni, echo_datagram, received}

-- The client.
pub data Mode : Type 0 where
  mode_bidi mode_uni mode_datagram : Mode
  other_mode : Text → Mode

pub data EchoError : Type 0 where
  session_error : Error → EchoError
  bad_mode : EchoError
  mismatch : Mode → List ℕ → List ℕ → EchoError

-- How a wait of the client for the bytes of a reply ends: io.ReadAll returns, by the fuel and the sizes of
-- its slices, or the context ends first.
pub data Awaited : Type 0 where
  reads : ℕ → (ℕ → ℕ) → Awaited
  over : Awaited

-- What the client meets while it waits: what the session's other goroutines make of the session until the
-- wait for a stream or a datagram ends and until the wait for the bytes does, and how these end.
pub record Waits (W : Type 0) : Type 0 where
  pub meanwhile : Session W → Session W
  pub accepting : AcceptCase
  pub ctx_done : Bool
  pub later : Session W → Session W
  pub reply : Awaited

module _ {W : Type 0} (net : Transport W) (q : Quicvarint) where
  abbrev pub with_stream : List ℕ → Session W × Result Stream → Session W × Result Stream
  with_stream p (s, err e) = (s, err e)
  with_stream p (s, ok st) =
      let (t, e) = send_and_close net q st.send (close_send net q st.send) p s in
      (t, elim e [ some x ↦ err x | none ↦ ok st ])

  abbrev pub read_whole : Session W × List ℕ → Session W × Result (List ℕ)
  read_whole (s, p) = (s, ok p)

  -- The `select` behind a request: the goroutine that reads has read to the end, or the context ends and
  -- the half is closed. `none`: the reading has to go on.
  unfoldable pub await_reply : ℕ → Awaited → Session W → Option (Session W × Result (List ℕ))
  await_reply a (reads fuel chunk) s = Option.map read_whole (read_all_of fuel chunk a [] s)
  await_reply a over s = some (close_receive a s, err context_done)

  abbrev pub on_stream : Waits W → Session W × Result Stream → Option (Session W × Result (List ℕ))
  on_stream w (s, err e) = some (s, err e)
  on_stream w (s, ok st) = await_reply st.receive w.reply (w.later s)

  unfoldable pub exchange_bidi : Waits W → List ℕ → Session W → Option (Session W × Result (List ℕ))
  exchange_bidi w p s = on_stream w (with_stream p (open_stream s))

  abbrev on_accepted :
      Waits W → Option (Session W × Result ℕ) → Option (Session W × Result (List ℕ))
  on_accepted w none = none
  on_accepted w (some (s, err e)) = some (s, err e)
  on_accepted w (some (s, ok a)) = await_reply a w.reply (w.later s)

  abbrev on_requested : Waits W → Session W × Option Error → Option (Session W × Result (List ℕ))
  on_requested w (s, some e) = some (s, err e)
  on_requested w (s, none) =
      on_accepted w (accept_unidirectional_stream w.accepting w.ctx_done (w.meanwhile s))

  -- `none`, too: the case of `AcceptUnidirectionalStream` that was chosen is not ready.
  unfoldable pub exchange_uni : Waits W → List ℕ → Session W → Option (Session W × Result (List ℕ))
  exchange_uni w p s = on_requested w (reply_uni net q p s)

  abbrev on_sent : Waits W → Session W × Option Error → Option (Session W × Result (List ℕ))
  on_sent w (s, some e) = some (s, err e)
  on_sent w (s, none) = received w.ctx_done (receive_datagram (w.meanwhile s))

  unfoldable pub exchange_datagram :
      Waits W → List ℕ → Session W → Option (Session W × Result (List ℕ))
  exchange_datagram w p s = on_sent w (echo_datagram net q p s)

-- `RunClient` behind the exchange.
unfoldable pub check_echo : Mode → List ℕ → Result (List ℕ) → Option EchoError
check_echo mode p (err e) = some (session_error e)
check_echo mode p (ok back) = if eq_text p back then none else some (mismatch mode p back)

module _ {W : Type 0} (net : Transport W) (q : Quicvarint) where
  abbrev pub checked : Mode → List ℕ → Session W × Result (List ℕ) → Session W × Option EchoError
  checked mode p (s, r) = (s, check_echo mode p r)

  -- `RunClient`; `none`: an exchange has to wait.
  unfoldable pub run_client :
      Waits W → Mode → List ℕ → Session W → Option (Session W × Option EchoError)
  run_client w mode_bidi p s = Option.map (checked mode_bidi p) (exchange_bidi net q w p s)
  run_client w mode_uni p s = Option.map (checked mode_uni p) (exchange_uni net q w p s)
  run_client w mode_datagram p s =
      Option.map (checked mode_datagram p) (exchange_datagram net q w p s)
  run_client w (other_mode m) p s = some (s, some bad_mode)
