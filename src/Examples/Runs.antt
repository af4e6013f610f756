-- ===== src/Examples/Runs.antt =====
-- Runs of a baton session.
use webtransport_h2_go.Prelude.{
  some, ◌≢◌, ◌⊎◌, ◌≡◌, refl, true, false, [], ◌∷◌, Option, none, is_positive,
}
use webtransport_h2_go.Baton.Exchange.{
  BatonSession, BatonError, canceled, from_stream, kind_peer_bidi, new_baton_session,
}
use webtransport_h2_go.Baton.Calls.{Call, at_fail, at_finish, at_select, at_close, advance}
use webtransport_h2_go.Session.Steps.{closes}
use webtransport_h2_go.Session.Close.{close, close_datagram_delivery}
use webtransport_h2_go.Baton.Run.{
  BatonRun, stopping, returned, run_result, start_run, on_context, end_run, Reach, here, next,
  sees_context, advances_own, waited, returns, session_acts, leaving,
}
use webtransport_h2_go.Baton.Outcome.{run_outcome}
use webtransport_h2_go.Baton.Leftover.{handler_outlives}
use webtransport_h2_go.Examples.Varint.{rfc_9000}
use webtransport_h2_go.Examples.Sessions.{Log, keeping, server}
use webtransport_h2_go.Examples.Batons.{three_batons, playing, stream_0}

-- `Run` sees that its context was canceled, records that in `fail`, closes `done` and the session, and
-- returns.
abbrev started : BatonRun Log
started = start_run server false three_batons

abbrev failed_session : BatonSession Log
failed_session = record (new_baton_session server false three_batons) { first_err = some canceled }

abbrev stopped : BatonSession Log
stopped = record failed_session { is_done = true }

abbrev at_own : BatonSession Log → Option Call → BatonRun Log
at_own b o = record started { b = b; own = o; stage = stopping }

abbrev canceled_run : BatonRun Log
canceled_run =
    end_run
      (record (at_own stopped none) { b = record stopped { sess = close server }; stage = leaving })

canceled_run-Reach : Reach keeping rfc_9000 started canceled_run
unfolding start_run new_baton_session on_context advance close close_datagram_delivery
canceled_run-Reach =
    let seen : Reach keeping rfc_9000 started
        (at_own (new_baton_session server false three_batons) (some (at_fail canceled))) =
      next here (sees_context canceled refl refl refl) in
    let called : Reach keeping rfc_9000 started
        (at_own (new_baton_session server false three_batons) (some (at_finish (some canceled)))) =
      next seen (advances_own (at_fail canceled) _ _ refl refl refl) in
    let recorded : Reach keeping rfc_9000 started (at_own failed_session (some at_select)) =
      next called (advances_own (at_finish (some canceled)) _ _ refl refl refl) in
    let selected : Reach keeping rfc_9000 started (at_own failed_session (some at_close)) =
      next recorded (advances_own at_select _ _ refl refl refl) in
    let closed : Reach keeping rfc_9000 started (at_own stopped none) =
      next selected (advances_own at_close _ _ refl refl refl) in
    next
      (next (next closed (waited refl refl refl refl refl refl))
        (session_acts (close server) (closes refl) refl))
      (returns refl refl refl)

run_outcome_example :
    (canceled_run.b.is_done ≡ true)
    × (Path (Option BatonError) none none)
    × ((canceled_run.b.first_err ≢ none) ⊎ (is_positive canceled_run.b.active ≡ false))
unfolding end_run run_result new_baton_session
run_outcome_example =
    run_outcome keeping rfc_9000 server false three_batons canceled_run none canceled_run-Reach refl

abbrev about_to_stop : BatonRun Log
about_to_stop = record {
  b = record playing { sess = record server { incoming_streams = stream_0 ∷ [] }; is_done = true };
  bidi_loop = true;
  uni_loop = false;
  datagram_loop = false;
  datagrams = [];
  calls = [];
  own = none;
  stage = stopping;
}

handler_outlives_example :
    (y : BatonRun Log) × Reach keeping rfc_9000 about_to_stop y
    × (y.stage ≡ returned (run_result none))
    × (y.b.tracked ≡ (from_stream stream_0, kind_peer_bidi) ∷ [])
handler_outlives_example =
    handler_outlives keeping rfc_9000 about_to_stop stream_0 [] refl refl refl refl refl refl refl
