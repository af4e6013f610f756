-- ===== src/Echo.antt =====
-- internal/echo: the echo server and the choice of its protocol. A handler and a round of a loop run here
-- without other goroutines in between. Logging is left out, and so is `openMu`, since an open is one step.
pub mod Client
pub mod Streams
pub mod Results
use mathlib.Core.Option
use webtransport_h2_go.Prelude.{
  ℕ, zero, suc, Bool, true, false, List, [], ◌∷◌, ◌++◌, ◌||◌, Option, none, some, if◌then◌else◌,
  codes, eq_text,
}
use webtransport_h2_go.Errors.{Error, Result, ok, err, eof, context_done}
use webtransport_h2_go.Fallible.{Try, done, failed}
use webtransport_h2_go.Wire.{Quicvarint}
use webtransport_h2_go.Buffer.{Outcome, copied}
use webtransport_h2_go.Datagram.{Attempt, payload}
use webtransport_h2_go.Datagram
use webtransport_h2_go.Session.State.{Session, Transport, Stream}
use webtransport_h2_go.Session.Close.{flush, close}
use webtransport_h2_go.Session.Send.{write, close_send, send_datagram}
use webtransport_h2_go.Session.Receive.{read, close_receive, close_stream}
use webtransport_h2_go.Session.Streams.{
  open_stream, open_unidirectional_stream, AcceptCase, accept_stream, accept_unidirectional_stream,
}
use webtransport_h2_go.Session.Steps.{receive_datagram}
use webtransport_h2_go.Handshake.{Text}
use webtransport_h2_go.Handshake.Server.{Request, contains_text}

abbrev pub protocol : Text
protocol = codes "echo"

-- `SelectProtocol` of `Handler`
unfoldable pub select_protocol : Request → List Text → Result Text
select_protocol r available = if contains_text available protocol then ok protocol else ok []

module _ {W : Type 0} where
  -- `io.ReadAll` of a receive half, with slices of at least one byte, whose free space `chunk` the library
  -- chooses. `none`: a read has to wait, or the rounds run out.
  unfoldable pub read_all_of : ℕ → (ℕ → ℕ) → ℕ → List ℕ → Session W → Option (Session W × List ℕ)
  read_all_of zero chunk a out s = none
  read_all_of (suc fuel) chunk a out s =
      let next = read a (suc (chunk fuel)) s in
      elim next.1 [
        | copied p ↦ read_all_of fuel chunk a (out ++ p) next.0
        | Outcome.ended ↦ some (next.0, out)
        | Outcome.waits ↦ none
      ]

module _ {W : Type 0} (net : Transport W) (q : Quicvarint) where
  abbrev after_close : Session W × Option Error → Session W × Option Error
  after_close (s, some e) = (s, some e)
  after_close (s, none) = (flush net s, none)

  abbrev after_write :
      (Session W → Session W × Option Error) → Session W × Result ℕ → Session W × Option Error
  after_write close (s, err e) = (s, some e)
  after_write close (s, ok n) = after_close (close s)

  -- `Write`, a way to close, and `Flush`, up to the first error.
  unfoldable pub send_and_close :
      ℕ → (Session W → Session W × Option Error) → List ℕ → Session W → Session W × Option Error
  send_and_close a close p s = after_write close (write net q a p s)

  -- `echoBidi` behind `io.ReadAll`
  unfoldable pub reply_bidi : Stream → List ℕ → Session W → Session W × Option Error
  reply_bidi st p s = send_and_close st.send (close_stream net q st) p s

  abbrev on_opened : List ℕ → Session W × Result ℕ → Session W × Option Error
  on_opened p (s, err e) = (s, some e)
  on_opened p (s, ok a) = send_and_close a (close_send net q a) p s

  -- `echoUni` behind `io.ReadAll`
  unfoldable pub reply_uni : List ℕ → Session W → Session W × Option Error
  reply_uni p s = on_opened p (open_unidirectional_stream s)

  -- `echoBidi`
  unfoldable pub echo_bidi : ℕ → (ℕ → ℕ) → Stream → Session W → Option (Session W × Option Error)
  echo_bidi fuel chunk st s = elim (read_all_of fuel chunk st.receive [] s) [
    | none ↦ none
    | some (t, p) ↦ some (reply_bidi st p t)
  ]

  -- `echoUni`
  unfoldable pub echo_uni : ℕ → (ℕ → ℕ) → ℕ → Session W → Option (Session W × Option Error)
  echo_uni fuel chunk a s = elim (read_all_of fuel chunk a [] s) [
    | none ↦ none
    | some (t, p) ↦ some (reply_uni p t)
  ]

  abbrev flush_sent : Session W × Option Error → Session W × Option Error
  flush_sent (s, some e) = (s, some e)
  flush_sent (s, none) = (flush net s, none)

  -- A round of `echoDatagramLoop` behind `ReceiveDatagram`; an error ends the loop.
  unfoldable pub echo_datagram : List ℕ → Session W → Session W × Option Error
  echo_datagram p s = flush_sent (send_datagram net p s)

-- The goroutines of `runEchoServer`: which of the three loops run, and the streams that a handler was
-- started for, newest first.
pub record EchoServer (W : Type 0) : Type 0 where
  pub sess : Session W
  pub bidi_loop : Bool
  pub uni_loop : Bool
  pub datagram_loop : Bool
  pub bidi_handlers : List Stream
  pub uni_handlers : List ℕ

module _ {W : Type 0} where
  -- `runEchoServer` up to its first wait
  unfoldable pub run_echo_server : Session W → EchoServer W
  run_echo_server s = record {
    sess = s;
    bidi_loop = true;
    uni_loop = true;
    datagram_loop = true;
    bidi_handlers = [];
    uni_handlers = [];
  }

  abbrev on_bidi : EchoServer W → Session W × Result Stream → EchoServer W
  on_bidi e (s, err x) = record e { sess = s; bidi_loop = false }
  on_bidi e (s, ok st) = record e { sess = s; bidi_handlers = st ∷ e.bidi_handlers }

  -- A round of `echoBidiLoop`; `none`: the case of the accept is not ready, or the loop has returned.
  unfoldable pub echo_bidi_loop : AcceptCase → Bool → EchoServer W → Option (EchoServer W)
  echo_bidi_loop c ctx_done e =
      if e.bidi_loop then Option.map (on_bidi e) (accept_stream c ctx_done e.sess) else none

  abbrev on_uni : EchoServer W → Session W × Result ℕ → EchoServer W
  on_uni e (s, err x) = record e { sess = s; uni_loop = false }
  on_uni e (s, ok a) = record e { sess = s; uni_handlers = a ∷ e.uni_handlers }

  -- A round of `echoUniLoop`
  unfoldable pub echo_uni_loop : AcceptCase → Bool → EchoServer W → Option (EchoServer W)
  echo_uni_loop c ctx_done e =
      if e.uni_loop
      then Option.map (on_uni e) (accept_unidirectional_stream c ctx_done e.sess)
      else none

module _ {W : Type 0} where
  -- The end of `runEchoServer`, behind `wg.Wait()`, and the deferred `Close` of `Handler`. `none`: a loop
  -- runs. Handlers that have not returned go on.
  unfoldable end_echo_server : EchoServer W → Option (EchoServer W)
  end_echo_server e =
      if e.bidi_loop || e.uni_loop || e.datagram_loop
      then none
      else some (record e { sess = close e.sess })

-- `ReceiveDatagram` where it returns: after a round that found something, or with the context.
abbrev pub received :
    {W : Type 0} → Bool → Session W × Attempt → Option (Session W × Result (List ℕ))
received ctx_done (s, payload p) = some (s, ok p)
received ctx_done (s, Attempt.ended) = some (s, err eof)
received ctx_done (s, Attempt.waits) = if ctx_done then some (s, err context_done) else none

module _ {W : Type 0} (net : Transport W) (q : Quicvarint) where
  abbrev after_echo : EchoServer W → Session W × Option Error → EchoServer W
  after_echo e (s, some x) = record e { sess = s; datagram_loop = false }
  after_echo e (s, none) = record e { sess = s }

  abbrev on_datagram : EchoServer W → Session W × Result (List ℕ) → EchoServer W
  on_datagram e (s, err x) = record e { sess = s; datagram_loop = false }
  on_datagram e (s, ok p) = after_echo e (echo_datagram net q p s)

  -- A round of `echoDatagramLoop`
  unfoldable pub echo_datagram_loop : Bool → EchoServer W → Option (EchoServer W)
  echo_datagram_loop ctx_done e =
      if e.datagram_loop
      then Option.map (on_datagram e) (received ctx_done (receive_datagram e.sess))
      else none
