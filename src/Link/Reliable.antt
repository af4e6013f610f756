-- ===== src/Link/Reliable.antt =====
-- Streams between two sessions are reliable and in order.
use webtransport_h2_go.Prelude.{
  ◌∷◌, ℕ, ◌≡◌, ◌⊎◌, inl, inr, refl, sym, ap, ◌∙◌, Bool, true, false, List, [], ◌++◌, Option,
  append_assoc, subst, lookup,
}
use webtransport_h2_go.Wire.{Quicvarint, IsQuicvarint}
use webtransport_h2_go.StreamId.{is_bidirectional_stream, is_our_stream}
use webtransport_h2_go.Flow.{PeerInitialLimits}
use webtransport_h2_go.Session.State.{parsing, Session, exited, new_session}
use webtransport_h2_go.Session.Close.{begun}
use webtransport_h2_go.Session.Registry.{IsSound, Aside-IsSound, begun-Aside}
use webtransport_h2_go.Session.Routing.{parsed-IsSound}
use webtransport_h2_go.Session.Routed.{step-IsSound, new_session-IsSound}
use webtransport_h2_go.Session.Side.{begun-IsOn, new_session-IsOn, IsOn, step-IsOn, parsed-IsOn}
use webtransport_h2_go.Link.{
  handed, Wire, written, Link, LinkStep, LinkReach, sends, arrives, arrives_closing, acts, here,
  next, held, HasStoppedReading, pending, in_flight, joined,
}
use webtransport_h2_go.Link.Receiving.{Carries, passes}
use webtransport_h2_go.Link.Arriving.{parsed-Carries}
use webtransport_h2_go.Link.Acting.{step-Carries}
use webtransport_h2_go.Link.Sending.{step-in_flight}

module _ {W : Type 0} (id : ℕ) where
  -- More is sent.
  extends :
      (s : Session W) (wire sent received p : List ℕ)
      → Carries id s wire sent received
      → Carries id s (wire ++ p) (sent ++ p) received
  extends s wire sent received p c = record {
    aimed = c.aimed;
    rest = c.rest ++ p;
    whole = ap (λ x. x ++ p) c.whole ∙ append_assoc (received ++ held id s) c.rest p;
    going = elim c.going [
      | inl o ↦ inl o
      | inr (inl o) ↦ inr (inl o)
      | inr (inr o) ↦ inr (inr (ap (λ x. x ++ p) o ∙ append_assoc (pending id s.loop) wire p))
    ];
  }

module _ {W : Type 0} (q : Quicvarint) (v : IsQuicvarint q) (id : ℕ) (b : Bool)
    (bidi : is_bidirectional_stream id ≡ true) (theirs : is_our_stream b id ≡ false) where
  record Inv (x : Link W) : Type 0 where
    carries : Carries id x.to (in_flight q id x.from.writer) x.sent x.received
    sound : IsSound x.to
    on : IsOn b x.to

  -- The oldest capsule reaches the read loop.
  arrive-Inv :
      (x : Link W) (typ : ℕ) (p : List ℕ) (w : Wire)
      → x.from.writer ≡ (typ, p) ∷ w
      → x.to.loop ≡ parsing
      → Inv x
      → Inv (record x { from = record x.from { writer = w }; to = handed q typ p x.to })
  unfolding in_flight
  arrive-Inv x typ p w h l i = record {
    carries =
        parsed-Carries q id x.to l i.sound bidi
          (subst (λ c. is_our_stream c id ≡ false) (sym i.on.side.server) theirs) (in_flight q id w)
          x.sent x.received typ p
          (subst (λ u. Carries id x.to (in_flight q id u) x.sent x.received) h i.carries);
    sound = parsed-IsSound q _ x.to i.sound;
    on = parsed-IsOn b q _ x.to i.on;
  }

  step-Inv : (x y : Link W) → LinkStep q id x y → Inv x → Inv y
  unfolding in_flight
  step-Inv x y (sends fails t e n f) i = subst Inv (sym f) (record {
    carries =
        subst (λ w. Carries id x.to w (x.sent ++ written id x.from t e) x.received)
          (sym (step-in_flight q v id fails x.from t e n))
          (extends id x.to (in_flight q id x.from.writer) x.sent x.received (written id x.from t e)
            i.carries);
    sound = i.sound;
    on = i.on;
  })
  step-Inv x y (arrives typ p w h l f) i = subst Inv (sym f) (arrive-Inv x typ p w h l i)
  step-Inv x y (arrives_closing typ p w h l g m f) i =
      let t = handed q typ p x.to in
      let j = arrive-Inv x typ p w h l i in
      subst Inv (sym f) (record {
        carries =
            passes id t (begun x.to t) (in_flight q id w) x.sent x.received (begun-Aside x.to t)
              j.carries;
        sound = Aside-IsSound t (begun x.to t) (begun-Aside x.to t) j.sound;
        on = begun-IsOn b x.to t j.on;
      })
  step-Inv x y (acts net t e k f) i = subst Inv (sym f) (record {
    carries =
        step-Carries net q id b theirs (in_flight q id x.from.writer) x.sent x.received x.to t e k
          i.on i.sound i.carries;
    sound = step-IsSound net q x.to t e i.sound;
    on = step-IsOn net q b x.to t e i.on;
  })

  joined-Inv :
      (w : W) (protocol : List ℕ) (mine peers : Option PeerInitialLimits)
      → Inv (joined w protocol b mine peers)
  unfolding joined new_session in_flight held pending lookup
  joined-Inv w protocol mine peers = record {
    carries = record { aimed = tt; rest = []; whole = refl; going = inr (inr refl) };
    sound = new_session-IsSound w protocol b mine;
    on = new_session-IsOn b w protocol mine;
  }

  reach-Inv : (x y : Link W) → LinkReach q id x y → Inv x → Inv y
  reach-Inv x _ here i = i
  reach-Inv x _ (next {y = y} r e) i = step-Inv y _ e (reach-Inv x y r i)

  -- Two new sessions, one a server and one a client, joined by a connection that delivers capsules whole
  -- and in order and may break at any time; a bidirectional stream that the sending side opens. However
  -- the applications and the read loops at both ends interleave: the bytes that were read from the stream,
  -- and then those that the receiving session holds, are the first of those that were written to it, in
  -- order. Unless the receiving read loop has returned or the application has closed its half, the other
  -- bytes are those in the loop's hands and on the wire, so none is lost.
  pub reads-writes :
      (w : W) (protocol : List ℕ) (mine peers : Option PeerInitialLimits) (y : Link W)
      → LinkReach q id (joined w protocol b mine peers) y
      → (rest : List ℕ) × (y.sent ≡ (y.received ++ held id y.to) ++ rest)
        × ((y.to.loop ≡ exited)
            ⊎ HasStoppedReading id y.to
            ⊎ (rest ≡ pending id y.to.loop ++ in_flight q id y.from.writer))
  reads-writes w protocol mine peers y r =
      let i = reach-Inv (joined w protocol b mine peers) y r (joined-Inv w protocol mine peers) in
      (i.carries.rest, i.carries.whole, i.carries.going)
