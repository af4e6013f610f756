-- ===== src/Baton/Rules.antt =====
-- The rules of the exchange in internal/baton/session.go: how the baton goes up, when a session is
-- complete, and what ends it.
use webtransport_h2_go.Prelude.{
  ℕ, suc, zero, ◌-◌, ◌≡◌, ◌≤◌, inl, inr, refl, ◌∙◌, ap, true, false, leb, arith, pos, ℕ-cases,
}
use webtransport_h2_go.Baton.Exchange.{BatonSession, finish, complete_one}

abbrev pub times {ℓ} : {A : Type ℓ} → ℕ → (A → A) → A → A
times zero f a = a
times (suc n) f a = times n f (f a)

module _ {W : Type 0} where
  done_stays :
      (n : ℕ) (b : BatonSession W)
      → b.is_done ≡ true
      → ((times n complete_one b).is_done ≡ true)
        × ((times n complete_one b).first_err ≡ b.first_err)
  unfolding complete_one finish
  done_stays zero b d = (d, refl)
  done_stays (suc n) b d = ground (arith, done_stays n (complete_one b) (ground arith))

  complete-last :
      (b : BatonSession W)
      → b.active ≡ pos 1
      → ((complete_one b).is_done ≡ true) × ((complete_one b).first_err ≡ b.first_err)
  unfolding complete_one finish
  complete-last b h = (rw (h, complete_one) refl, rw (h, complete_one) (ground arith))

  complete-more :
      (c : ℕ) (b : BatonSession W)
      → b.active ≡ pos (suc (suc c))
      → complete_one b ≡ record b { active = pos (suc c) }
  unfolding complete_one finish
  complete-more c b h = rw (h, complete_one) (ground arith)

  -- A session for `c` batons is done after the c-th completion, and not before; no error is recorded.
  complete-counts :
      (n c : ℕ) (b : BatonSession W)
      → b.active ≡ pos c
      → 1 ≤ c
      → b.is_done ≡ false
      → ((times n complete_one b).is_done ≡ leb c n)
        × ((times n complete_one b).first_err ≡ b.first_err)
  complete-counts zero c b h k d = ground arith
  complete-counts (suc n) c b h k d = elim (ℕ-cases c 1) [
    | inl e ↦
        let (x, y) = complete-last b (h ∙ ap pos e) in
        let (u, v) = done_stays n (complete_one b) x in (ground (arith, u), v ∙ y)
    | inr e ↦
        let m = complete-more (c - 2) b (h ∙ ap pos (ground (arith, e, k))) in
        let (u, v) =
          complete-counts n (suc (c - 2)) (complete_one b) (ap (λ x. x.active) m) (omega arith)
            (ap (λ x. x.is_done) m ∙ d) in
        (u ∙ ground (arith, e, k), v ∙ ap (λ x. x.first_err) m)
  ]
