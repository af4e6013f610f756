-- ===== src/Link/OnWire.antt =====
-- The capsules on the wire, and what a write adds to them.
use webtransport_h2_go.Prelude.{
  ℕ, ◌<◌, ◌^◌, ◌≡◌, ◌⊎◌, inl, inr, refl, sym, ap, ◌∙◌, arith, List, [], ◌∷◌, ◌++◌, Option, none,
  ◌==◌, length, if◌then◌else◌, append-nil, append_assoc,
}
use webtransport_h2_go.Errors.{Error, ok, err}
use webtransport_h2_go.Wire.{Quicvarint, IsQuicvarint}
use webtransport_h2_go.Capsule
use webtransport_h2_go.Session.State.{Session}
use webtransport_h2_go.Session.Close.{write_capsule}
use webtransport_h2_go.Session.Send.{sender, write, write_reserved, after_write}
use webtransport_h2_go.Link.{Wire, onto_wire, carried, in_flight}

in_flight-append :
    (q : Quicvarint) (id : ℕ) (v w : Wire)
    → in_flight q id (v ++ w) ≡ in_flight q id v ++ in_flight q id w
unfolding in_flight
in_flight-append q id [] w = refl
in_flight-append q id (c ∷ v) w =
    ap (◌++◌ (carried q id c)) (in_flight-append q id v w)
    ∙ sym (append_assoc (carried q id c) (in_flight q id v) (in_flight q id w))

module _ (q : Quicvarint) (v : IsQuicvarint q) (id : ℕ) where
  -- One more capsule on the wire.
  pub in_flight-snoc :
      (w : Wire) (c : ℕ × List ℕ)
      → in_flight q id (w ++ c ∷ []) ≡ in_flight q id w ++ carried q id c
  unfolding in_flight
  in_flight-snoc w c =
      in_flight-append q id w (c ∷ []) ∙ ap (◌++◌ (in_flight q id w)) (append-nil (carried q id c))

  pub carried-stream :
      (other : ℕ) (p : List ℕ)
      → other < 2 ^ 62
      → (carried q id (Capsule.wt_stream, q.append [] other ++ p) ≡ (if other == id then p else []))
  unfolding carried
  carried-stream other p h = rw (v.read-append other p none h, carried) refl

  pub carried-fin :
      (other : ℕ) → other < 2 ^ 62 → carried q id (Capsule.wt_stream_fin, q.append [] other) ≡ []
  unfolding carried
  carried-fin other h =
      ap (λ p. carried q id (Capsule.wt_stream_fin, p)) (sym (append-nil (q.append [] other)))
      ∙ (rw (v.read-append other [] none h, carried) (ground arith))

  -- What a write puts on the wire, and what it returns.
  pub write-wire :
      (fails : ℕ → List ℕ → Wire → Option Error) (a : ℕ) (p : List ℕ) (s : Session Wire)
      → let r = write (onto_wire fails) q a p s in
        ((r.1 ≡ ok (length p))
          × (r.0.writer ≡ s.writer ++ (Capsule.wt_stream, q.append [] (sender a s).id ++ p) ∷ []))
        ⊎ ((e : Error) × (r.1 ≡ err e) × (r.0.writer ≡ s.writer))
  unfolding write write_reserved after_write write_capsule
  write-wire fails a p s = ground arith

  added :
      (s t : Session Wire) (c : ℕ × List ℕ)
      → t.writer ≡ s.writer ++ c ∷ []
      → carried q id c ≡ []
      → in_flight q id t.writer ≡ in_flight q id s.writer ++ []
  added s t c e n =
      ap (in_flight q id) e ∙ in_flight-snoc s.writer c ∙ ap (◌++◌ (in_flight q id s.writer)) n

  pub unchanged :
      (s t : Session Wire)
      → t.writer ≡ s.writer
      → in_flight q id t.writer ≡ in_flight q id s.writer ++ []
  unchanged s t e = ap (in_flight q id) e ∙ sym (append-nil (in_flight q id s.writer))

  -- At most one capsule more, with nothing of the stream in it.
  pub beside :
      (s t : Session Wire)
      → (t.writer ≡ s.writer)
        ⊎ ((c : ℕ × List ℕ) × (t.writer ≡ s.writer ++ c ∷ []) × (carried q id c ≡ []))
      → in_flight q id t.writer ≡ in_flight q id s.writer ++ []
  beside s t (inl e) = unchanged s t e
  beside s t (inr (c, e, n)) = added s t c e n
