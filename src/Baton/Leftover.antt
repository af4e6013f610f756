-- ===== src/Baton/Leftover.antt =====
-- A handler of internal/baton/session.go that starts after `Run` has returned.
use mathlib.Core.Option
use webtransport_h2_go.Prelude.{
  ◌≡◌, refl, ap, ◌∙◌, arith, true, List, [], ◌∷◌, none, some, if◌then◌else◌,
}
use webtransport_h2_go.Errors.{ok}
use webtransport_h2_go.Wire.{Quicvarint}
use webtransport_h2_go.Session.State.{Session, Transport, Stream}
use webtransport_h2_go.Session.Closable.{closable}
use webtransport_h2_go.Session.Steps
use webtransport_h2_go.Session.Streams.{take_stream, from_channel, accept_stream}
use webtransport_h2_go.Baton.Exchange.{from_stream, kind_peer_bidi}
use webtransport_h2_go.Baton.Run.{
  BatonRun, stopping, returned, run_result, accept_bidi_loop, on_bidi, end_run, Reach, here, next,
  accepts, waited, returns, leaving, session_acts,
}

module _ {W : Type 0} where
  taken :
      (st : Stream) (rest streams : List Stream) (s : Session W)
      → streams ≡ st ∷ rest
      → take_stream streams s ≡ some (record s { incoming_streams = rest }, ok st)
  taken st rest [] s e = absurd (ground (arith, e))
  taken st rest (x ∷ xs) s e = ground (arith, e)

  takes :
      (r : BatonRun W) (st : Stream) (rest : List Stream)
      → r.bidi_loop ≡ true
      → r.b.sess.incoming_streams ≡ st ∷ rest
      → accept_bidi_loop from_channel true r
        ≡ some (on_bidi r (record r.b.sess { incoming_streams = rest }, ok st))
  unfolding accept_bidi_loop accept_stream
  takes r st rest o e =
      let found =
        ap (Option.map (on_bidi r)) (taken st rest r.b.sess.incoming_streams r.b.sess e) in
      ap
        (λ b. if b then Option.map (on_bidi r) (accept_stream from_channel true r.b.sess) else none)
        o
      ∙ found

module _ {W : Type 0} (net : Transport W) (q : Quicvarint) where
  -- The session's own steps are steps of the run.
  acting :
      (x : BatonRun W) (t : Session W)
      → Steps.Reach net q x.b.sess t
      → Reach net q x (record x { b = record x.b { sess = t } })
  acting x _ Steps.Reach.here = here
  acting x t (Steps.Reach.next {t = u} r e) = next (acting x u r) (session_acts t e refl)

  -- Two runs in a row.
  behind : (x y z : BatonRun W) → Reach net q x y → Reach net q y z → Reach net q x z
  behind x y _ r here = r
  behind x y z r (next s e) = next (behind x y _ r s) e

  -- `Run` waits for the handlers that have started, not for the loops that start them: where it is about
  -- to stop, with no handler and no call of finish left, while a stream waits to be accepted and the loop
  -- has not seen the context, it can return, and then the loop starts a handler on a session that the
  -- HTTP handler has left.
  pub handler_outlives :
      (x : BatonRun W) (st : Stream) (rest : List Stream)
      → x.stage ≡ stopping
      → x.own ≡ none
      → x.b.tracked ≡ []
      → x.datagrams ≡ []
      → x.calls ≡ []
      → x.bidi_loop ≡ true
      → x.b.sess.incoming_streams ≡ st ∷ rest
      → (y : BatonRun W) × Reach net q x y
        × (y.stage ≡ returned (run_result x.b.first_err))
        × (y.b.tracked ≡ (from_stream st, kind_peer_bidi) ∷ [])
  unfolding end_run
  handler_outlives x st rest l n t d k o c =
      let left : BatonRun W = record x { stage = leaving } in
      let (u, r, h, e) = closable net q x.b.sess in
      let closed : BatonRun W = record left { b = record x.b { sess = u } } in
      let y = end_run closed in
      let z = on_bidi y (record u { incoming_streams = rest }, ok st) in
      (
        z,
        next
            (next (behind x left closed (next here (waited l n t d k refl)) (acting left u r))
              (returns refl h refl))
            (accepts from_channel true (takes y st rest o (e ∙ c))),
        refl,
        ap (λ ts. (from_stream st, kind_peer_bidi) ∷ ts) t,
      )
