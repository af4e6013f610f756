-- ===== src/Baton/Outcome.antt =====
-- What `Run` of internal/baton/session.go returns, and when.
use webtransport_h2_go.Prelude.{
  ◌≢◌, ◌⊎◌, ℕ, zero, suc, ◌≡◌, refl, sym, ap, subst, inl, inr, arith, Bool, true, false, List, ◌++◌,
  Option, none, if◌then◌else◌, is_positive, pos_part, Bool-cases, Option-cases, ◌==◌,
}
use webtransport_h2_go.Errors.{Result, ok, err}
use webtransport_h2_go.Wire.{Quicvarint}
use webtransport_h2_go.Session.State.{Session, Transport}
use webtransport_h2_go.Baton.Config.{Config}
use webtransport_h2_go.Baton.Exchange.{
  BatonSession, BatonError, new_baton_session, setup, with_baton, send_uni_msg, send_count, message,
}
use webtransport_h2_go.Baton.Calls.{untouched, before_call}
use webtransport_h2_go.Baton.Pending.{
  all_quiet, is_just, all_just, reason-Later, just-Later, advanced,
}
use webtransport_h2_go.Baton.Replies.{IsFinal, IsFinal-trans, handle-IsFinal, datagram-IsFinal}
use webtransport_h2_go.Baton.Rounds.{
  Inv, Says, Passes-Inv, bidi-Passes, uni-Passes, datagram-Passes,
}
use webtransport_h2_go.Baton.Handled.{
  set_up-IsFinal, before-Later, called-just, handled-Inv, advances-Inv, own-Inv,
}
use webtransport_h2_go.Baton.Run.{
  set_up, after_setup, BatonRun, setting_up, waiting, returned, run_result, start_run, on_context,
  end_run, Step, Reach, here, next, accepts, accepts_uni, takes_datagram, handles, handles_datagram,
  sets_up, sees_done, sees_context, advances, advances_own, waited, returns, session_acts,
}

module _ {W : Type 0} (net : Transport W) (q : Quicvarint) where
  uni_msg-IsFinal : (msg : List ℕ) (b : BatonSession W) → IsFinal b (send_uni_msg net q msg b).0
  unfolding send_uni_msg
  uni_msg-IsFinal msg b = ground arith

  send_count-IsFinal : (n baton : ℕ) (b : BatonSession W) → IsFinal b (send_count net q n baton b).0
  unfolding send_count
  send_count-IsFinal zero baton b = ground arith
  send_count-IsFinal (suc n) baton b =
      let sent = send_uni_msg net q (message net q baton b) b in
      let f = uni_msg-IsFinal (message net q baton b) b in
      elim (Option-cases sent.1) [
        | inr (e, h) ↦ rw (h, send_count) f
        | inl h ↦
            rw (h, send_count) (IsFinal-trans b sent.0 _ f (send_count-IsFinal n baton sent.0))
      ]

  with_baton-IsFinal : (r : Result ℕ) (b : BatonSession W) → IsFinal b (with_baton net q r b).0
  with_baton-IsFinal (err e) b = ground arith
  with_baton-IsFinal (ok random) b =
      let baton = if random == 0 then 1 else random in
      let c : BatonSession W = record b { cfg = record b.cfg { baton = baton } } in
      IsFinal-trans b c _ (ground arith) (send_count-IsFinal (pos_part b.cfg.count) baton c)

  setup-IsFinal : (r : Result ℕ) (b : BatonSession W) → IsFinal b (setup net q r b).0
  unfolding setup
  setup-IsFinal r b = elim (Bool-cases (b.cfg.baton == 0)) [
    | inr n ↦ rw (n, setup) (send_count-IsFinal _ b.cfg.baton b)
    | inl z ↦ rw (z, setup) (with_baton-IsFinal r b)
  ]

  set_up-Inv :
      (random : Result ℕ) (x : BatonRun W)
      → Inv x
      → Inv (after_setup (set_up (setup net q random (untouched x.b))) x)
  unfolding after_setup
  set_up-Inv random x i =
      let c = set_up (setup net q random (untouched x.b)) in
      let f = set_up-IsFinal (untouched x.b) _ (setup-IsFinal random (untouched x.b)) in
      let l = before-Later x.b c f in
      record {
        reason = λ d. reason-Later x.b (before_call x.b c) l (i.reason d);
        just = just-Later x.calls x.b (before_call x.b c) l i.just;
        own = called-just x.b c f;
        says = tt;
      }

  step-Inv : (x y : BatonRun W) → Step net q x y → Inv x → Inv y
  unfolding on_context end_run all_just is_just all_quiet
  step-Inv x y (accepts c d e) i = Passes-Inv x y (bidi-Passes c d x y e) i
  step-Inv x y (accepts_uni c d e) i = Passes-Inv x y (uni-Passes c d x y e) i
  step-Inv x y (takes_datagram d e) i = Passes-Inv x y (datagram-Passes d x y e) i
  step-Inv x y (handles before after src kind r m e) i =
      let b = untouched (record x.b { tracked = before ++ after }) in
      let f = handle-IsFinal net q r kind src b in
      subst Inv (sym e) (
        handled-Inv _ x
          (record { over = f.over; says = f.says; reason = f.reason; fewer = f.fewer }) i)
  step-Inv x y (handles_datagram before after p m e) i =
      let z : BatonRun W = record x { datagrams = before ++ after } in
      subst Inv (sym e) (
        handled-Inv _ z (datagram-IsFinal net q p (untouched x.b)) (
          Passes-Inv x z
            (record {
              stage = refl;
              own = refl;
              calls = refl;
              over = refl;
              says = refl;
              active = refl;
            })
            i))
  step-Inv x y (advances before after k c o h a e) i =
      subst Inv (sym e) (advances-Inv before after k c o x h (advanced k x.b c o a) i)
  step-Inv x y (advances_own k c o h a e) i =
      subst Inv (sym e) (own-Inv k c o x h (advanced k x.b c o a) i)
  step-Inv x y (sets_up random l e) i = subst Inv (sym e) (set_up-Inv random x i)
  step-Inv x y (sees_done l n d e) i =
      subst Inv (sym e) (record { reason = i.reason; just = i.just; own = i.own; says = λ o. d })
  step-Inv x y (sees_context c l n e) i = subst Inv (sym e) (record {
    reason = i.reason;
    just = i.just;
    own = refl;
    says = λ o. absurd (ground (arith, o));
  })
  step-Inv x y (waited l n t d k e) i = subst Inv (sym e) (record {
    reason = i.reason;
    just = i.just;
    own = i.own;
    says = record { idle = n; over = subst (λ s. Says s x) l i.says n; quiet = ap all_quiet k };
  })
  step-Inv x y (returns l d e) i = subst Inv (sym e) (record {
    reason = i.reason;
    just = i.just;
    own = i.own;
    says = (
      (let s = subst (λ s. Says s x) l i.says in
          record { idle = s.idle; over = s.over; quiet = s.quiet }),
      refl,
    );
  })
  step-Inv x y (session_acts s h e) i = subst Inv (sym e) (
      Passes-Inv x (record x { b = record x.b { sess = s } })
        (record { stage = refl; own = refl; calls = refl; over = refl; says = refl; active = refl })
        i)

  starts : (is_server : Bool) (r : BatonRun W) → Says (if is_server then setting_up else waiting) r
  starts true r = tt
  starts false r = tt

  reach-Inv : (x y : BatonRun W) → Reach net q x y → Inv x → Inv y
  reach-Inv x _ here i = i
  reach-Inv x _ (next {y = y} r e) i = step-Inv y _ e (reach-Inv x y r i)

  returned-Says :
      (e : Option BatonError) (y : BatonRun W)
      → Inv y
      → y.stage ≡ returned e
      → (y.b.is_done ≡ true)
        × (e ≡ run_result y.b.first_err)
        × ((y.b.first_err ≢ none) ⊎ (is_positive y.b.active ≡ false))
  returned-Says e y i l =
      let (s, h) = subst (λ s. Says s y) l i.says in (s.over, h, ground (arith, i.reason s.over))

  -- Whatever the peer sends, the goroutines do and in whatever order, the parts of `fail` and `finish`
  -- included: when `Run` has returned, `done` is closed, what was returned is the first error that was
  -- recorded, or nil if there is none or it is that the context was canceled, and if there is none, then
  -- no baton is waited for.
  pub run_outcome :
      (sess : Session W) (is_server : Bool) (cfg : Config) (y : BatonRun W) (e : Option BatonError)
      → Reach net q (start_run sess is_server cfg) y
      → y.stage ≡ returned e
      → (y.b.is_done ≡ true)
        × (e ≡ run_result y.b.first_err)
        × ((y.b.first_err ≢ none) ⊎ (is_positive y.b.active ≡ false))
  unfolding start_run new_baton_session all_just
  run_outcome sess is_server cfg y e r l =
      returned-Says e y
        (reach-Inv (start_run sess is_server cfg) y r (record {
          reason = λ d. absurd (ground (arith, d));
          just = refl;
          own = refl;
          says = starts is_server (start_run sess is_server cfg);
        }))
        l
