-- ===== src/Session/Closable.antt =====
-- session.go: `Close` returns, wherever it stands, and leaves the queued streams alone.
use webtransport_h2_go.Prelude.{◌≡◌, refl, inl, inr, true, false, arith, Bool-cases}
use webtransport_h2_go.Wire.{Quicvarint}
use webtransport_h2_go.Session.State.{Session, Transport}
use webtransport_h2_go.Session.Close.{close, close_datagram_delivery, store_stop, close_done}
use webtransport_h2_go.Session.Steps.{
  Reach, here, next, closes, stores_stop, closes_delivery, closes_done,
}

module _ {W : Type 0} where
  pub close_streams : (s : Session W) → (close s).incoming_streams ≡ s.incoming_streams
  unfolding close close_datagram_delivery
  close_streams s = ground arith

module _ {W : Type 0} (net : Transport W) (q : Quicvarint) where
  -- A session that is closed, with the same streams in the channel.
  abbrev pub Closable : Session W → Type 0
  Closable s =
      (u : Session W) × Reach net q s u
      × (u.done ≡ true)
      × (u.incoming_streams ≡ s.incoming_streams)

  stopped :
      (s t : Session W)
      → Reach net q s t
      → t.stop ≡ true
      → t.done ≡ false
      → t.incoming_streams ≡ s.incoming_streams
      → Closable s
  unfolding close_datagram_delivery
  stopped s t r a b e =
      let v = close_datagram_delivery t in
      (
        close_done v,
        next (next r (closes_delivery a b refl))
            (closes_done (ground arith) (ground (arith, b)) refl),
        refl,
        ground (arith, e),
      )

  pub closable : (s : Session W) → Closable s
  unfolding close close_datagram_delivery
  closable s = elim (Bool-cases s.done) [
    | inl d ↦ (s, here, d, refl)
    | inr d ↦ elim (Bool-cases s.close_once) [
      | inr n ↦ (close s, next here (closes refl), ground (arith, n), close_streams s)
      | inl o ↦ elim (Bool-cases s.stop) [
        | inl a ↦ stopped s s here a d refl
        | inr a ↦ stopped s (store_stop s) (next here (stores_stop o a refl)) refl d refl
      ]
    ]
  ]
