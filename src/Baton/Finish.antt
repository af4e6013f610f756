-- ===== src/Baton/Finish.antt =====
-- `finish` of internal/baton/session.go, called from many handlers: the section under `errMu`, the
-- `select` on `done`, and the `close` are three steps, between which other goroutines run.
use webtransport_h2_go.Prelude.{
  ℕ, ◌≡◌, ◌≢◌, Bool, true, false, ◌||◌, Option, none, ◌==◌, if◌then◌else◌, refl, arith,
}
use webtransport_h2_go.Baton.Exchange.{BatonError, keep_first}

-- Where a goroutine stands in `finish`.
pub data Point : Type 0 where
  outside recorded closing : Point

pub record Finishing : Type 0 where
  pub first_err : Option BatonError
  pub is_done : Bool
  -- a second `close` of `done` panics
  pub panicked : Bool
  pub point : ℕ → Point

abbrev pub at : ℕ → Point → (ℕ → Point) → ℕ → Point
at i p f j = if j == i then p else f j

unfoldable pub record_err : ℕ → Option BatonError → Finishing → Finishing
record_err i e s = record s { first_err = keep_first s.first_err e; point = at i recorded s.point }

-- `select { case <-b.done: default: ... }`
unfoldable pub select_done : ℕ → Finishing → Finishing
select_done i s = record s { point = at i (if s.is_done then outside else closing) s.point }

unfoldable pub close_done : ℕ → Finishing → Finishing
close_done i s = record s {
  is_done = true;
  panicked = s.panicked || s.is_done;
  point = at i outside s.point;
}

-- A step of goroutine `i`.
pub data Step (i : ℕ) (s t : Finishing) : Type 0 where
  records : (e : Option BatonError) → s.point i ≡ outside → t ≡ record_err i e s → Step i s t
  selects : s.point i ≡ recorded → t ≡ select_done i s → Step i s t
  closes : s.point i ≡ closing → t ≡ close_done i s → Step i s t

pub data Reach (s : Finishing) : Finishing → Type 0 where
  here : Reach s s
  next : {t u : Finishing} (i : ℕ) → Reach s t → Step i t u → Reach s u

-- Runs in which no two calls overlap: a goroutine takes a step only while all others are outside.
pub data SerialReach (s : Finishing) : Finishing → Type 0 where
  here : SerialReach s s
  next :
      {t u : Finishing} (i : ℕ)
      → SerialReach s t
      → ((j : ℕ) → j ≢ i → t.point j ≡ outside)
      → Step i t u
      → SerialReach s u

-- With `done` open and two goroutines that have not entered `finish`, both calls can pass the `select`
-- before either closes `done`, so that a state is reached in which `close` has panicked.
pub both_close :
    (s : Finishing) (i j : ℕ)
    → s.is_done ≡ false
    → i ≢ j
    → s.point i ≡ outside
    → s.point j ≡ outside
    → (t : Finishing) × Reach s t × (t.panicked ≡ true)
unfolding record_err select_done close_done
both_close s i j d n pi pj =
    let a = record_err i none s in
    let b = record_err j none a in
    let c = select_done i b in
    let e = select_done j c in
    let f = close_done i e in
    let g = close_done j f in
    let r : Reach s c =
      next i (next j (next i Reach.here (records none pi refl)) (records none (ground arith) refl))
        (selects (ground arith) refl) in
    (
      g,
      next j (next i (next j r (selects (ground arith) refl)) (closes (ground arith) refl))
          (closes (ground arith) refl),
      ground arith,
    )

record IsSafe (s : Finishing) : Type 0 where
  open_at : (i : ℕ) → s.point i ≡ closing → s.is_done ≡ false
  intact : s.panicked ≡ false

step-IsSafe :
    (i : ℕ) (s t : Finishing)
    → ((j : ℕ) → j ≢ i → s.point j ≡ outside)
    → Step i s t
    → IsSafe s
    → IsSafe t
unfolding record_err select_done close_done
step-IsSafe i s t alone (records e p h) k =
    rw h (record { open_at = λ j c. ground (arith, k.open_at j); intact = k.intact })
step-IsSafe i s t alone (selects p h) k =
    rw h (record { open_at = λ j c. ground (arith, alone j); intact = k.intact })
step-IsSafe i s t alone (closes p h) k = rw h (record {
  open_at = λ j c. ground (arith, alone j);
  intact = ground (arith, k.open_at i p, k.intact);
})

reach-IsSafe : (s t : Finishing) → SerialReach s t → IsSafe s → IsSafe t
reach-IsSafe s _ SerialReach.here k = k
reach-IsSafe s t (SerialReach.next {t = u} i r alone e) k =
    step-IsSafe i u t alone e (reach-IsSafe s u r k)

-- If no two calls of `finish` overlap, `done` is closed at most once however many there are.
serial_safe :
    (s t : Finishing)
    → s.panicked ≡ false
    → ((i : ℕ) → s.point i ≡ outside)
    → SerialReach s t
    → t.panicked ≡ false
serial_safe s t h o r =
    (reach-IsSafe s t r (record { open_at = λ i c. ground (arith, o i); intact = h })).intact
