-- ===== src/Baton/Calls.antt =====
-- `fail` and `finish` of internal/baton/session.go, called from many goroutines: the section under `errMu`,
-- the two `select`s on `done`, and the `close` are steps of their own, between which others run.
use webtransport_h2_go.Prelude.{
  ◌≡◌, true, false, Option, none, some, if◌then◌else◌, arith, Bool-cases, inl, inr,
}
use webtransport_h2_go.Baton.Exchange.{BatonSession, BatonError, keep_first, finish, fail}

-- A call that is under way, by what it does next: the `select` of `fail`, and the three parts of `finish`.
pub data Call : Type 0 where
  at_fail : BatonError → Call
  at_finish : Option BatonError → Call
  at_select at_close : Call

module _ {W : Type 0} where
  -- The next part of a call. `none`: `done` is closed a second time, which ends the program.
  unfoldable pub advance : Call → BatonSession W → Option (BatonSession W × Option Call)
  advance (at_fail e) b = some (b, if b.is_done then none else some (at_finish (some e)))
  advance (at_finish e) b = some (record b { first_err = keep_first b.first_err e }, some at_select)
  advance at_select b = some (b, if b.is_done then none else some at_close)
  advance at_close b = if b.is_done then none else some (record b { is_done = true }, none)

  -- The flags as nobody has touched them.
  abbrev pub untouched : BatonSession W → BatonSession W
  untouched b = record b { is_done = false; first_err = none }

  -- What a handler does besides its call of `fail` or `finish`, which it makes at most once: `c` is what
  -- the handler makes of a session whose flags are untouched. No handler reads the flags, but for the
  -- `select` in `fail`. A completed baton is counted here, before the call; so is the Close of the stream,
  -- which follows the call.
  abbrev pub before_call : BatonSession W → BatonSession W → BatonSession W
  before_call b c = record c { is_done = b.is_done; first_err = b.first_err }

  unfoldable pub called : BatonSession W → Option Call
  called c =
      if c.is_done
      then some (elim c.first_err [ some e ↦ at_fail e | none ↦ at_finish none ])
      else none

  -- A call that no other goroutine interrupts.
  abbrev pub then_on :
      (Call → BatonSession W → BatonSession W)
      → BatonSession W
      → Option (BatonSession W × Option Call)
      → BatonSession W
  then_on f b none = b
  then_on f b (some (c, none)) = c
  then_on f b (some (c, some k)) = f k c

  unfoldable pub alone : Call → BatonSession W → BatonSession W
  alone k b =
      then_on
        (λ k2 b2.
          then_on
            (λ k3 b3.
              then_on (λ k4 b4. then_on (λ k5 b5. b5) b4 (advance k4 b4)) b3 (advance k3 b3))
            b2 (advance k2 b2))
        b (advance k b)

  -- Where no other goroutine runs in between, the parts come to `fail` and to `finish`.
  alone-fail : (e : BatonError) (b : BatonSession W) → alone (at_fail e) b ≡ fail e b
  unfolding alone advance fail finish
  alone-fail e b = elim (Bool-cases b.is_done) [ inl y ↦ ground arith | inr n ↦ ground arith ]

  alone-finish : (e : Option BatonError) (b : BatonSession W) → alone (at_finish e) b ≡ finish e b
  unfolding alone advance finish
  alone-finish e b = elim (Bool-cases b.is_done) [ inl y ↦ ground arith | inr n ↦ ground arith ]
