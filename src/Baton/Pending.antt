-- ===== src/Baton/Pending.antt =====
-- The calls of `fail` and `finish` of internal/baton/session.go that are under way: why they may end a
-- session, and that they do nothing more once it is done.

use webtransport_h2_go.Prelude.{
  [], ◌∷◌, ◌&&◌, not, ◌≡◌, refl, arith, Bool, true, false, List, ◌++◌, Option, none, some,
  is_positive,
}
use webtransport_h2_go.Baton.Exchange.{BatonSession}
use webtransport_h2_go.Baton.Calls.{Call, at_fail, at_finish, at_select, at_close, advance}
use webtransport_h2_go.Baton.Replies.{has_reason, is_some}
use webtransport_h2_go.Baton.Run.{with_call}

module _ {W : Type 0} where
  -- What stands behind a call: `finish` of no error is for a session that waits for no baton.
  unfoldable pub is_just : Call → BatonSession W → Bool
  is_just (at_fail e) b = true
  is_just (at_finish (some e)) b = true
  is_just (at_finish none) b = not (is_positive b.active)
  is_just at_select b = has_reason b
  is_just at_close b = has_reason b

  unfoldable pub all_just : List Call → BatonSession W → Bool
  all_just [] b = true
  all_just (k ∷ ks) b = is_just k b && all_just ks b

-- A call that changes nothing any more where `done` is closed.
unfoldable pub is_quiet : Call → Bool
is_quiet (at_fail e) = true
is_quiet (at_finish (some e)) = false
is_quiet (at_finish none) = true
is_quiet at_select = true
is_quiet at_close = false

unfoldable pub all_quiet : List Call → Bool
all_quiet [] = true
all_quiet (k ∷ ks) = is_quiet k && all_quiet ks

pub quiet-middle :
    (xs ys : List Call) (k : Call)
    → all_quiet (xs ++ k ∷ ys) ≡ true
    → (is_quiet k ≡ true) × (all_quiet (xs ++ ys) ≡ true)
unfolding all_quiet
quiet-middle [] ys k h = ground (arith, h)
quiet-middle (x ∷ xs) ys k h = ground (arith, h, quiet-middle xs ys k)

pub quiet-with_call :
    (o : Option Call) (ks : List Call)
    → all_quiet (with_call o []) ≡ true
    → all_quiet ks ≡ true
    → all_quiet (with_call o ks) ≡ true
unfolding all_quiet
quiet-with_call none ks h i = i
quiet-with_call (some k) ks h i = ground (arith, h, i)

module _ {W : Type 0} where
  pub just-middle :
      (xs ys : List Call) (k : Call) (b : BatonSession W)
      → all_just (xs ++ k ∷ ys) b ≡ true
      → (is_just k b ≡ true) × (all_just (xs ++ ys) b ≡ true)
  unfolding all_just
  just-middle [] ys k b h = ground (arith, h)
  just-middle (x ∷ xs) ys k b h = ground (arith, h, just-middle xs ys k b)

  pub just-with_call :
      (o : Option Call) (ks : List Call) (b : BatonSession W)
      → all_just (with_call o []) b ≡ true
      → all_just ks b ≡ true
      → all_just (with_call o ks) b ≡ true
  unfolding all_just
  just-with_call none ks b h i = i
  just-with_call (some k) ks b h i = ground (arith, h, i)

  -- Batons complete, and an error stays.
  pub record Later (b c : BatonSession W) : Type 0 where
    pub fewer : is_positive b.active ≡ false → is_positive c.active ≡ false
    pub failed : is_some b.first_err ≡ true → is_some c.first_err ≡ true

  pub reason-Later : (b c : BatonSession W) → Later b c → has_reason b ≡ true → has_reason c ≡ true
  reason-Later b c l h = ground (arith, l.fewer, l.failed, h)

  is_just-Later :
      (k : Call) (b c : BatonSession W) → Later b c → is_just k b ≡ true → is_just k c ≡ true
  unfolding is_just
  is_just-Later (at_fail e) b c l h = refl
  is_just-Later (at_finish (some e)) b c l h = refl
  is_just-Later (at_finish none) b c l h = ground (arith, l.fewer, h)
  is_just-Later at_select b c l h = reason-Later b c l h
  is_just-Later at_close b c l h = reason-Later b c l h

  pub just-Later :
      (ks : List Call) (b c : BatonSession W)
      → Later b c
      → all_just ks b ≡ true
      → all_just ks c ≡ true
  unfolding all_just
  just-Later [] b c l h = refl
  just-Later (k ∷ ks) b c l h = ground (arith, is_just-Later k b c l, just-Later ks b c l, h)

  -- A part of a call.
  pub record Advanced (k : Call) (b c : BatonSession W) (o : Option Call) : Type 0 where
    pub later : Later b c
    pub over : b.is_done ≡ true → c.is_done ≡ true
    pub reason : is_just k b ≡ true → c.is_done ≡ true → has_reason b ≡ true → has_reason c ≡ true
    pub closes : is_just k b ≡ true → b.is_done ≡ false → c.is_done ≡ true → has_reason c ≡ true
    pub just : is_just k b ≡ true → all_just (with_call o []) c ≡ true
    pub ends : o ≡ none → c.is_done ≡ true
    pub says : b.is_done ≡ true → is_quiet k ≡ true → c.first_err ≡ b.first_err
    pub quiet : b.is_done ≡ true → is_quiet k ≡ true → all_quiet (with_call o []) ≡ true

  pub advanced :
      (k : Call) (b c : BatonSession W) (o : Option Call)
      → advance k b ≡ some (c, o)
      → Advanced k b c o
  unfolding advance is_just all_just is_quiet all_quiet
  advanced (at_fail x) b c o e = ground (arith, e)
  advanced (at_finish none) b c o e = ground (arith, e)
  advanced (at_finish (some x)) b c o e = ground (arith, e)
  advanced at_select b c o e = ground (arith, e)
  advanced at_close b c o e = ground (arith, e)
