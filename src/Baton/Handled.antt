-- ===== src/Baton/Handled.antt =====
-- internal/baton/session.go: what a handler up to its call, and a part of a call, keep of what the outcome
-- of `Run` rests on.
use webtransport_h2_go.Prelude.{
  [], ◌∷◌, ◌≡◌, refl, sym, ap, ◌∙◌, inl, inr, arith, true, List, ◌++◌, Option, none, some,
  Bool-cases,
}
use webtransport_h2_go.Baton.Exchange.{BatonSession, BatonError, fail}
use webtransport_h2_go.Baton.Calls.{Call, untouched, before_call, called}
use webtransport_h2_go.Baton.Pending.{
  is_quiet, all_quiet, quiet-middle, quiet-with_call, is_just, all_just, just-middle,
  just-with_call, Later, reason-Later, just-Later, Advanced,
}
use webtransport_h2_go.Baton.Replies.{has_reason, IsFinal, IsFinal-trans, fail-IsFinal}
use webtransport_h2_go.Baton.Rounds.{Inv, Says, Moves-Says}
use webtransport_h2_go.Baton.Run.{
  with_call, handled, set_up, leaving, BatonRun, Stage, setting_up, waiting, stopping, returned,
}

module _ {W : Type 0} where
  pub set_up-IsFinal :
      (b : BatonSession W) (r : BatonSession W × Option BatonError)
      → IsFinal b r.0
      → IsFinal b (set_up r)
  set_up-IsFinal b (c, none) f = f
  set_up-IsFinal b (c, some e) f = IsFinal-trans b c (fail e c) f (fail-IsFinal e c)

  -- What a handler does before its call.
  pub before-Later : (b c : BatonSession W) → IsFinal (untouched b) c → Later b (before_call b c)
  before-Later b c f = record { fewer = f.fewer; failed = λ h. h }

  pub called-just :
      (b c : BatonSession W)
      → IsFinal (untouched b) c
      → all_just (with_call (called c) []) (before_call b c) ≡ true
  unfolding called all_just is_just
  called-just b c f = ground (arith, f.reason)

  called-quiet : (c : BatonSession W) → all_quiet (with_call (called c) []) ≡ true
  unfolding called all_quiet is_quiet
  called-quiet c = ground arith

  pub handled-Inv :
      (c : BatonSession W) (x : BatonRun W) → IsFinal (untouched x.b) c → Inv x → Inv (handled c x)
  unfolding handled
  handled-Inv c x f i =
      let b = before_call x.b c in
      let l = before-Later x.b c f in
      record {
        reason = λ d. reason-Later x.b b l (i.reason d);
        just =
            just-with_call (called c) x.calls b (called-just x.b c f)
              (just-Later x.calls x.b b l i.just);
        own = just-Later (with_call x.own []) x.b b l i.own;
        says =
            Moves-Says x (handled c x)
              (record {
                stage = refl;
                own = refl;
                over = λ d. d;
                quiet = λ d h. quiet-with_call (called c) x.calls (called-quiet c) h;
                says = λ d h. refl;
              })
              i.says;
      }

  done_by :
      (k : Call) (b c : BatonSession W) (o : Option Call)
      → Advanced k b c o
      → is_just k b ≡ true
      → (b.is_done ≡ true → has_reason b ≡ true)
      → c.is_done ≡ true
      → has_reason c ≡ true
  done_by k b c o a j r d = elim (Bool-cases b.is_done) [
    | inl y ↦ a.reason j d (r y)
    | inr n ↦ a.closes j n d
  ]

  pub advances-Inv :
      (xs ys : List Call) (k : Call) (c : BatonSession W) (o : Option Call) (x : BatonRun W)
      → x.calls ≡ xs ++ k ∷ ys
      → Advanced k x.b c o
      → Inv x
      → Inv (record x { b = c; calls = with_call o (xs ++ ys) })
  advances-Inv xs ys k c o x h a i =
      let y : BatonRun W = record x { b = c; calls = with_call o (xs ++ ys) } in
      let (j, js) = just-middle xs ys k x.b (ap (λ ks. all_just ks x.b) (sym h) ∙ i.just) in
      record {
        reason = done_by k x.b c o a j i.reason;
        just = just-with_call o (xs ++ ys) c (a.just j) (just-Later (xs ++ ys) x.b c a.later js);
        own = just-Later (with_call x.own []) x.b c a.later i.own;
        says =
            Moves-Says x y
              (record {
                stage = refl;
                own = refl;
                over = a.over;
                quiet = λ d n.
                    let (m, ms) = quiet-middle xs ys k (ap all_quiet (sym h) ∙ n) in
                    quiet-with_call o (xs ++ ys) (a.quiet d m) ms;
                says = λ d n. a.says d (quiet-middle xs ys k (ap all_quiet (sym h) ∙ n)).0;
              })
              i.says;
      }

  own-Says :
      (l : Stage) (k : Call) (c : BatonSession W) (o : Option Call) (x : BatonRun W)
      → x.own ≡ some k
      → Advanced k x.b c o
      → Says l x
      → Says l (record x { b = c; own = o })
  own-Says (returned e) k c o x h a (s, n) = absurd (ground (arith, sym h ∙ s.idle))
  own-Says leaving k c o x h a s = absurd (ground (arith, sym h ∙ s.idle))
  own-Says stopping k c o x h a n = a.ends
  own-Says setting_up k c o x h a n = tt
  own-Says waiting k c o x h a n = tt

  pub own-Inv :
      (k : Call) (c : BatonSession W) (o : Option Call) (x : BatonRun W)
      → x.own ≡ some k
      → Advanced k x.b c o
      → Inv x
      → Inv (record x { b = c; own = o })
  unfolding all_just
  own-Inv k c o x h a i =
      let j : is_just k x.b ≡ true =
        ground (arith, ap (λ w. all_just (with_call w []) x.b) (sym h) ∙ i.own) in
      record {
        reason = done_by k x.b c o a j i.reason;
        just = just-Later x.calls x.b c a.later i.just;
        own = a.just j;
        says = own-Says x.stage k c o x h a i.says;
      }
