-- ===== src/Baton/Rounds.antt =====
-- What holds of a run of internal/baton/session.go in between, and the rounds of its loops.
use mathlib.Core.Option
use webtransport_h2_go.Prelude.{
  [], ℕ, ◌≡◌, sym, ap, ◌∙◌, subst, arith, Bool, true, false, Option, none, some, if◌then◌else◌,
  is_positive,
}
use webtransport_h2_go.Errors.{Result, ok, err}
use webtransport_h2_go.Session.State.{Session, Stream}
use webtransport_h2_go.Session.Streams.{AcceptCase, accept_stream, accept_unidirectional_stream}
use webtransport_h2_go.Session.Steps.{receive_datagram}
use webtransport_h2_go.Session.Registry.{some-inj}
use webtransport_h2_go.Datagram.{Attempt, payload}
use webtransport_h2_go.Baton.Pending.{all_quiet, all_just, Later, reason-Later, just-Later}
use webtransport_h2_go.Baton.Replies.{has_reason, is_some}
use webtransport_h2_go.Baton.Run.{
  with_call, leaving, BatonRun, Stage, setting_up, waiting, stopping, returned, run_result,
  accept_bidi_loop, accept_uni_loop, datagram_loop_round, on_bidi, on_uni, on_datagram,
}

module _ {W : Type 0} where
  -- The session is over, and nothing that is under way says more about it.
  pub record Settled (r : BatonRun W) : Type 0 where
    pub idle : r.own ≡ none
    pub over : r.b.is_done ≡ true
    pub quiet : all_quiet r.calls ≡ true

  -- What the stage of `Run` says is true of the session.
  abbrev pub Says : Stage → BatonRun W → Type 0
  Says (returned e) r = Settled r × (e ≡ run_result r.b.first_err)
  Says leaving r = Settled r
  Says stopping r = r.own ≡ none → r.b.is_done ≡ true
  Says _ r = Unit {0}

  pub record Inv (r : BatonRun W) : Type 0 where
    pub reason : r.b.is_done ≡ true → has_reason r.b ≡ true
    pub just : all_just r.calls r.b ≡ true
    pub own : all_just (with_call r.own []) r.b ≡ true
    pub says : Says r.stage r

  -- A step that `Run` has no part in.
  pub record Moves (x y : BatonRun W) : Type 0 where
    pub stage : y.stage ≡ x.stage
    pub own : y.own ≡ x.own
    pub over : x.b.is_done ≡ true → y.b.is_done ≡ true
    pub quiet : x.b.is_done ≡ true → all_quiet x.calls ≡ true → all_quiet y.calls ≡ true
    pub says : x.b.is_done ≡ true → all_quiet x.calls ≡ true → y.b.first_err ≡ x.b.first_err

  Moves-Settled : (x y : BatonRun W) → Moves x y → Settled x → Settled y
  Moves-Settled x y m s = record {
    idle = m.own ∙ s.idle;
    over = m.over s.over;
    quiet = m.quiet s.over s.quiet;
  }

  at-Says : (l : Stage) (x y : BatonRun W) → Moves x y → Says l x → Says l y
  at-Says (returned e) x y m (s, h) =
      (Moves-Settled x y m s, h ∙ ap run_result (sym (m.says s.over s.quiet)))
  at-Says leaving x y m s = Moves-Settled x y m s
  at-Says stopping x y m h = λ o. m.over (h (sym m.own ∙ o))
  at-Says setting_up x y m h = tt
  at-Says waiting x y m h = tt

  pub Moves-Says : (x y : BatonRun W) → Moves x y → Says x.stage x → Says y.stage y
  Moves-Says x y m h = subst (λ l. Says l y) (sym m.stage) (at-Says x.stage x y m h)

  -- A round of a loop leaves alone what `Run` returns.
  pub record Passes (x y : BatonRun W) : Type 0 where
    pub stage : y.stage ≡ x.stage
    pub own : y.own ≡ x.own
    pub calls : y.calls ≡ x.calls
    pub over : y.b.is_done ≡ x.b.is_done
    pub says : y.b.first_err ≡ x.b.first_err
    pub active : y.b.active ≡ x.b.active

  Passes-Later : (x y : BatonRun W) → Passes x y → Later x.b y.b
  Passes-Later x y p = record {
    fewer = λ h. ap is_positive p.active ∙ h;
    failed = λ h. ap is_some p.says ∙ h;
  }

  pub Passes-Inv : (x y : BatonRun W) → Passes x y → Inv x → Inv y
  Passes-Inv x y p i =
      let l = Passes-Later x y p in
      record {
        reason = λ d. reason-Later x.b y.b l (i.reason (sym p.over ∙ d));
        just = ap (λ k. all_just k y.b) p.calls ∙ just-Later x.calls x.b y.b l i.just;
        own =
            ap (λ o. all_just (with_call o []) y.b) p.own
            ∙ just-Later (with_call x.own []) x.b y.b l i.own;
        says =
            Moves-Says x y
              (record {
                stage = p.stage;
                own = p.own;
                over = λ d. p.over ∙ d;
                quiet = λ d h. ap all_quiet p.calls ∙ h;
                says = λ d h. p.says;
              })
              i.says;
      }

  mapped :
      {A : Type 0} (f : A → BatonRun W) (o : Option A) (x y : BatonRun W)
      → ((a : A) → Passes x (f a))
      → Option.map f o ≡ some y
      → Passes x y
  mapped f none x y h e = absurd (ground (arith, e))
  mapped f (some a) x y h e = subst (Passes x) (some-inj (f a) y e) (h a)

  when :
      (b : Bool) (o : Option (BatonRun W)) (x y : BatonRun W)
      → (o ≡ some y → Passes x y)
      → (if b then o else none) ≡ some y
      → Passes x y
  when true o x y h e = h e
  when false o x y h e = absurd (ground (arith, e))

  on_bidi-Passes : (x : BatonRun W) (r : Session W × Result Stream) → Passes x (on_bidi x r)
  on_bidi-Passes x (s, ok st) = ground arith
  on_bidi-Passes x (s, err e) = ground arith

  on_uni-Passes : (x : BatonRun W) (r : Session W × Result ℕ) → Passes x (on_uni x r)
  on_uni-Passes x (s, ok a) = ground arith
  on_uni-Passes x (s, err e) = ground arith

  on_datagram-Passes :
      (d : Bool) (x y : BatonRun W) (r : Session W × Attempt)
      → on_datagram d x r ≡ some y
      → Passes x y
  on_datagram-Passes d x y (s, payload p) e = ground (arith, e)
  on_datagram-Passes d x y (s, Attempt.ended) e = ground (arith, e)
  on_datagram-Passes d x y (s, Attempt.waits) e = ground (arith, e)

  pub bidi-Passes :
      (c : AcceptCase) (d : Bool) (x y : BatonRun W) → accept_bidi_loop c d x ≡ some y → Passes x y
  unfolding accept_bidi_loop
  bidi-Passes c d x y =
      when x.bidi_loop _ x y
        (mapped (on_bidi x) (accept_stream c d x.b.sess) x y (on_bidi-Passes x))

  pub uni-Passes :
      (c : AcceptCase) (d : Bool) (x y : BatonRun W) → accept_uni_loop c d x ≡ some y → Passes x y
  unfolding accept_uni_loop
  uni-Passes c d x y =
      when x.uni_loop _ x y
        (mapped (on_uni x) (accept_unidirectional_stream c d x.b.sess) x y (on_uni-Passes x))

  pub datagram-Passes :
      (d : Bool) (x y : BatonRun W) → datagram_loop_round d x ≡ some y → Passes x y
  unfolding datagram_loop_round
  datagram-Passes d x y =
      when x.datagram_loop _ x y (on_datagram-Passes d x y (receive_datagram x.b.sess))
