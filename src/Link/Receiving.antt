-- ===== src/Link/Receiving.antt =====
-- What the receiving session holds of a stream, and what the steps do to it that work on other streams.
use webtransport_h2_go.Prelude.{
  ℕ, ◌≡◌, ◌⊎◌, inl, inr, refl, sym, ap, ◌∙◌, arith, List, ◌++◌, some, Option-cases, subst, lookup,
}
use webtransport_h2_go.Session.State.{
  Session, Stream, ReceiveStream, Delivery, ReadLoop, at_top, parsing, exited, enqueuing_stream,
  enqueuing_uni, delivering,
}
use webtransport_h2_go.Session.Close.{close}
use webtransport_h2_go.Session.Receive.{receiver}
use webtransport_h2_go.Session.ReadLoop.{exit}
use webtransport_h2_go.Session.Registry.{Aside, close-Aside}
use webtransport_h2_go.Link.{held, HasStoppedReading, pending}

-- A payload for `id` is bound for the receive half of the stream that the session knows as `id`.
abbrev pub Aim : {W : Type 0} → ℕ → Session W → Delivery → Type 0
Aim id s d = d.id ≡ id → (st : Stream) × (lookup id s.streams ≡ some st) × (d.target ≡ st.receive)

abbrev pub IsAimed : {W : Type 0} → ℕ → Session W → ReadLoop → Type 0
IsAimed id s (delivering d) = Aim id s d
IsAimed id s (enqueuing_stream st d) = Aim id s d
IsAimed id s (enqueuing_uni a d) = Aim id s d
IsAimed id s _ = Unit {0}

-- A receive half with the same bytes, that the application closed or did not close as before.
pub record Alike (h k : ReceiveStream) : Type 0 where
  pub bytes : k.recv_buffer.bytes ≡ h.recv_buffer.bytes
  pub closed : k.closed ≡ h.closed

pub alike : (h k : ReceiveStream) → k ≡ h → Alike h k
alike h k e = record { bytes = ap (λ x. x.recv_buffer.bytes) e; closed = ap (λ x. x.closed) e }

module _ {W : Type 0} (id : ℕ) where
  -- Nothing that was sent is missing in the middle: what was read, what is held, and then `rest`, which
  -- is what the loop is busy with and what is on the wire, as long as the stream is received from.
  pub record Carries (s : Session W) (wire sent received : List ℕ) : Type 0 where
    pub aimed : IsAimed id s s.loop
    pub rest : List ℕ
    pub whole : sent ≡ (received ++ held id s) ++ rest
    pub going : (s.loop ≡ exited) ⊎ HasStoppedReading id s ⊎ (rest ≡ pending id s.loop ++ wire)

  -- The stream `id` is as it was.
  pub record Kept (s t : Session W) : Type 0 where
    pub found : lookup id t.streams ≡ lookup id s.streams
    pub half :
        (st : Stream)
        → lookup id s.streams ≡ some st
        → Alike (receiver st.receive s) (receiver st.receive t)

  pub Aside-Kept : (s t : Session W) → Aside s t → Kept s t
  Aside-Kept s t a = record {
    found = ap (lookup id) a.bidi;
    half = λ st e. alike _ _ (ap (λ h. h.cell st.receive) a.heap);
  }

  pub exit-Kept : (s : Session W) → Kept s (exit s)
  unfolding exit
  exit-Kept s =
      let k = Aside-Kept s (close s) (close-Aside s) in record { found = k.found; half = k.half }

  pub Kept-trans : (s t u : Session W) → Kept s t → Kept t u → Kept s u
  Kept-trans s t u k l = record {
    found = l.found ∙ k.found;
    half = λ st e. record {
      bytes = (l.half st (k.found ∙ e)).bytes ∙ (k.half st e).bytes;
      closed = (l.half st (k.found ∙ e)).closed ∙ (k.half st e).closed;
    };
  }

  pub held-Kept : (s t : Session W) → Kept s t → held id t ≡ held id s
  unfolding held
  held-Kept s t k = elim (Option-cases (lookup id s.streams)) [
    | inl n ↦ ground (arith, k.found, n)
    | inr (st, e) ↦ ground (arith, k.found, e, (k.half st e).bytes)
  ]

  pub stopped-Kept : (s t : Session W) → Kept s t → HasStoppedReading id s → HasStoppedReading id t
  unfolding HasStoppedReading
  stopped-Kept s t k (st, e, c) = (st, k.found ∙ e, (k.half st e).closed ∙ c)

  -- The loop goes on with the same bytes of the stream, or with those that come off the wire.
  pub goes_on :
      (s t : Session W) (wire wire' sent received : List ℕ)
      → Kept s t
      → IsAimed id t t.loop
      → (s.loop ≡ exited → t.loop ≡ exited)
      → pending id s.loop ++ wire ≡ pending id t.loop ++ wire'
      → Carries s wire sent received
      → Carries t wire' sent received
  goes_on s t wire wire' sent received k a over e c = record {
    aimed = a;
    rest = c.rest;
    whole = c.whole ∙ ap (λ h. (received ++ h) ++ c.rest) (sym (held-Kept s t k));
    going = elim c.going [
      | inl o ↦ inl (over o)
      | inr (inl o) ↦ inr (inl (stopped-Kept s t k o))
      | inr (inr o) ↦ inr (inr (o ∙ e))
    ];
  }

  -- The loop returns.
  pub ends :
      (s t : Session W) (wire wire' sent received : List ℕ)
      → Kept s t
      → t.loop ≡ exited
      → Carries s wire sent received
      → Carries t wire' sent received
  ends s t wire wire' sent received k e c = record {
    aimed = subst (IsAimed id t) (sym e) tt;
    rest = c.rest;
    whole = c.whole ∙ ap (λ h. (received ++ h) ++ c.rest) (sym (held-Kept s t k));
    going = inl e;
  }

  pub exits :
      (s t : Session W) (wire wire' sent received : List ℕ)
      → Kept s t
      → Carries s wire sent received
      → Carries (exit t) wire' sent received
  unfolding exit
  exits s t wire wire' sent received k c =
      ends s (exit t) wire wire' sent received (Kept-trans s t (exit t) k (exit-Kept t)) refl c

  pub IsAimed-same :
      (s t : Session W) (l : ReadLoop)
      → lookup id t.streams ≡ lookup id s.streams
      → IsAimed id s l
      → IsAimed id t l
  IsAimed-same s t (delivering d) e a = λ h. (let (st, f, g) = a h in (st, e ∙ f, g))
  IsAimed-same s t (enqueuing_stream x d) e a = λ h. (let (st, f, g) = a h in (st, e ∙ f, g))
  IsAimed-same s t (enqueuing_uni x d) e a = λ h. (let (st, f, g) = a h in (st, e ∙ f, g))
  IsAimed-same s t at_top e a = tt
  IsAimed-same s t parsing e a = tt
  IsAimed-same s t exited e a = tt

  -- A step that leaves the streams, the receive halves and the loop alone.
  pub passes :
      (s t : Session W) (wire sent received : List ℕ)
      → Aside s t
      → Carries s wire sent received
      → Carries t wire sent received
  passes s t wire sent received a c =
      goes_on s t wire wire sent received (Aside-Kept s t a)
        (subst (IsAimed id t) (sym a.loop)
          (IsAimed-same s t s.loop (ap (lookup id) a.bidi) c.aimed))
        (λ o. a.loop ∙ o) (ap (λ l. pending id l ++ wire) (sym a.loop)) c
