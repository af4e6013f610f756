-- ===== src/Baton/Run.antt =====
-- `Run` of internal/baton/session.go and the handler in internal/baton/handler.go: the loops, the
-- handlers that they start, and the end. A handler is one step here up to its call of `fail` or `finish`,
-- whose parts are steps of their own.
use mathlib.Core.Option
use webtransport_h2_go.Prelude.{
  ℕ, ◌≡◌, Bool, true, false, List, [], ◌∷◌, ◌++◌, Option, none, some, if◌then◌else◌, ℤ, pos, negsuc,
  ltb,
}
use webtransport_h2_go.Errors.{Result, ok, err}
use webtransport_h2_go.Wire.{Quicvarint}
use webtransport_h2_go.Datagram.{Attempt, payload}
use webtransport_h2_go.Session.State.{Session, Transport, Stream}
use webtransport_h2_go.Session.Streams.{AcceptCase, accept_stream, accept_unidirectional_stream}
use webtransport_h2_go.Session.Steps
use webtransport_h2_go.Session.Steps.{receive_datagram}
use webtransport_h2_go.Fallible.{Try, done, failed}
use webtransport_h2_go.Handshake.Server.{UpgradeError}
use webtransport_h2_go.Baton.Config.{Config, ConfigError, Values, parse_query}
use webtransport_h2_go.Baton.Calls.{Call, at_fail, advance, untouched, before_call, called}
use webtransport_h2_go.Baton.Exchange.{
  BatonSession, BatonError, canceled, Source, from_stream, from_receive, StreamKind, kind_uni,
  kind_peer_bidi, new_baton_session, track, fail, handle_incoming, handle_datagram, setup,
}

-- Where the goroutine of `Run` stands.
pub data Stage : Type 0 where
  setting_up waiting stopping leaving : Stage
  returned : Option BatonError → Stage

-- `b.tracked` are the handlers of streams that were started and have not ended, and `datagrams` those of
-- datagrams. `calls` are the calls that handlers are in, and `own` is the one that `Run` itself is in.
pub record BatonRun (W : Type 0) : Type 0 where
  pub b : BatonSession W
  pub bidi_loop : Bool
  pub uni_loop : Bool
  pub datagram_loop : Bool
  pub datagrams : List (List ℕ)
  pub calls : List Call
  pub own : Option Call
  pub stage : Stage

-- `b.err != nil && !errors.Is(b.err, context.Canceled)`
unfoldable pub run_result : Option BatonError → Option BatonError
run_result (some canceled) = none
run_result e = e

abbrev pub with_call : Option Call → List Call → List Call
with_call none ks = ks
with_call (some k) ks = k ∷ ks

module _ {W : Type 0} where
  -- `Run` up to its first wait.
  unfoldable pub start_run : Session W → Bool → Config → BatonRun W
  start_run sess is_server cfg = record {
    b = new_baton_session sess is_server cfg;
    bidi_loop = true;
    uni_loop = true;
    datagram_loop = true;
    datagrams = [];
    calls = [];
    own = none;
    stage = if is_server then setting_up else waiting;
  }

  abbrev pub on_bidi : BatonRun W → Session W × Result Stream → BatonRun W
  on_bidi r (s, err e) = record r { b = record r.b { sess = s }; bidi_loop = false }
  on_bidi r (s, ok st) = record r {
    b = track (from_stream st) kind_peer_bidi (record r.b { sess = s });
  }

  -- A round of `acceptBidiLoop`; `none`: the case is not ready, or the loop has returned.
  unfoldable pub accept_bidi_loop : AcceptCase → Bool → BatonRun W → Option (BatonRun W)
  accept_bidi_loop c ctx_done r =
      if r.bidi_loop then Option.map (on_bidi r) (accept_stream c ctx_done r.b.sess) else none

  abbrev pub on_uni : BatonRun W → Session W × Result ℕ → BatonRun W
  on_uni r (s, err e) = record r { b = record r.b { sess = s }; uni_loop = false }
  on_uni r (s, ok a) = record r { b = track (from_receive a) kind_uni (record r.b { sess = s }) }

  -- A round of `acceptUniLoop`
  unfoldable pub accept_uni_loop : AcceptCase → Bool → BatonRun W → Option (BatonRun W)
  accept_uni_loop c ctx_done r =
      if r.uni_loop
      then Option.map (on_uni r) (accept_unidirectional_stream c ctx_done r.b.sess)
      else none

  abbrev pub on_datagram : Bool → BatonRun W → Session W × Attempt → Option (BatonRun W)
  on_datagram ctx_done r (s, payload p) =
      some (record r { b = record r.b { sess = s }; datagrams = p ∷ r.datagrams })
  on_datagram ctx_done r (s, Attempt.ended) =
      some (record r { b = record r.b { sess = s }; datagram_loop = false })
  on_datagram ctx_done r (s, Attempt.waits) =
      if ctx_done then some (record r { datagram_loop = false }) else none

  -- A round of `datagramLoop`
  unfoldable pub datagram_loop_round : Bool → BatonRun W → Option (BatonRun W)
  datagram_loop_round ctx_done r =
      if r.datagram_loop then on_datagram ctx_done r (receive_datagram r.b.sess) else none

  abbrev pub set_up : BatonSession W × Option BatonError → BatonSession W
  set_up (b, none) = b
  set_up (b, some e) = fail e b

  -- `setup` has come to the call of `fail`, or to its end.
  unfoldable pub after_setup : BatonSession W → BatonRun W → BatonRun W
  after_setup c r = record r { b = before_call r.b c; own = called c; stage = waiting }

  -- The `select` of `Run`, by its case of the context.
  unfoldable pub on_context : BatonError → BatonRun W → BatonRun W
  on_context e r = record r { own = some (at_fail e); stage = stopping }

  -- What follows `sess.Close()`.
  unfoldable pub end_run : BatonRun W → BatonRun W
  end_run r = record r { stage = returned (run_result r.b.first_err) }

  -- A handler has come to its call, or to its end: `c` is what it makes of untouched flags.
  unfoldable pub handled : BatonSession W → BatonRun W → BatonRun W
  handled c r = record r { b = before_call r.b c; calls = with_call (called c) r.calls }

-- `a < b` of Go's ints
abbrev int_less : ℤ → ℤ → Bool
int_less (pos a) (pos b) = ltb a b
int_less (pos a) (negsuc b) = false
int_less (negsuc a) (pos b) = true
int_less (negsuc a) (negsuc b) = ltb b a

pub data HandlerError : Type 0 where
  bad_query : ConfigError → HandlerError
  count_exceeds : ℤ → ℤ → HandlerError
  not_upgraded : UpgradeError → HandlerError

-- `Handler` in front of `Upgrade`
unfoldable pub admit : ℤ → ℤ → Values → Try HandlerError Config
admit max_count padding query = elim (parse_query query) [
  | failed e ↦ failed (bad_query e)
  | done cfg ↦
      if int_less max_count cfg.count
      then failed (count_exceeds cfg.count max_count)
      else done (record cfg { padding = padding })
]

abbrev pub on_upgraded :
    {W : Type 0} → Config → Try UpgradeError (Session W) → Try HandlerError (BatonRun W)
on_upgraded cfg (failed e) = failed (not_upgraded e)
on_upgraded cfg (done s) = done (start_run s true cfg)

-- `Handler`, up to the first wait of `Run`; an error is the text of a response of status 400. `upgraded` is
-- what `Upgrade` returns.
unfoldable pub handle_request :
    {W : Type 0} → ℤ → ℤ → Values → Try UpgradeError (Session W) → Try HandlerError (BatonRun W)
handle_request max_count padding query upgraded = elim (admit max_count padding query) [
  | failed e ↦ failed e
  | done cfg ↦ on_upgraded cfg upgraded
]

module _ {W : Type 0} (net : Transport W) (q : Quicvarint) where
  -- The goroutines of a session, and the session's own.
  pub data Step (x y : BatonRun W) : Type 0 where
    accepts : (c : AcceptCase) (ctx_done : Bool) → accept_bidi_loop c ctx_done x ≡ some y → Step x y
    accepts_uni :
        (c : AcceptCase) (ctx_done : Bool) → accept_uni_loop c ctx_done x ≡ some y → Step x y
    takes_datagram : (ctx_done : Bool) → datagram_loop_round ctx_done x ≡ some y → Step x y
    handles :
        (before after : List (Source × StreamKind)) (src : Source) (kind : StreamKind)
        (read : Result (List ℕ))
        → x.b.tracked ≡ before ++ (src, kind) ∷ after
        → y
          ≡ handled
              (handle_incoming net q read kind src
                (untouched (record x.b { tracked = before ++ after })))
              x
        → Step x y
    handles_datagram :
        (before after : List (List ℕ)) (p : List ℕ)
        → x.datagrams ≡ before ++ p ∷ after
        → y
          ≡ handled
              (handle_datagram net q p (untouched x.b))
              (record x { datagrams = before ++ after })
        → Step x y
    -- the next part of a handler's call
    advances :
        (before after : List Call) (k : Call) (c : BatonSession W) (o : Option Call)
        → x.calls ≡ before ++ k ∷ after
        → advance k x.b ≡ some (c, o)
        → y ≡ record x { b = c; calls = with_call o (before ++ after) }
        → Step x y
    -- the next part of the call that `Run` itself is in
    advances_own :
        (k : Call) (c : BatonSession W) (o : Option Call)
        → x.own ≡ some k
        → advance k x.b ≡ some (c, o)
        → y ≡ record x { b = c; own = o }
        → Step x y
    sets_up :
        (random : Result ℕ)
        → x.stage ≡ setting_up
        → y ≡ after_setup (set_up (setup net q random (untouched x.b))) x
        → Step x y
    sees_done :
        x.stage ≡ waiting
        → x.own ≡ none
        → x.b.is_done ≡ true
        → y ≡ record x { stage = stopping }
        → Step x y
    sees_context :
        (e : BatonError) → x.stage ≡ waiting → x.own ≡ none → y ≡ on_context e x → Step x y
    -- `b.inflight.Wait()` returns
    waited :
        x.stage ≡ stopping
        → x.own ≡ none
        → x.b.tracked ≡ []
        → x.datagrams ≡ []
        → x.calls ≡ []
        → y ≡ record x { stage = leaving }
        → Step x y
    -- `sess.Close()`, whose steps are the session's, has returned
    returns : x.stage ≡ leaving → x.b.sess.done ≡ true → y ≡ end_run x → Step x y
    session_acts :
        (s : Session W)
        → Steps.Step net q x.b.sess s
        → y ≡ record x { b = record x.b { sess = s } }
        → Step x y

  pub data Reach (x : BatonRun W) : BatonRun W → Type 0 where
    here : Reach x x
    next : {y z : BatonRun W} → Reach x y → Step y z → Reach x z
