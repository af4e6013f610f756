-- ===== src/Session/Registry.antt =====
-- In every reachable state the read loop hands a payload to the receive half of the stream that the
-- capsule names.
use webtransport_h2_go.Prelude.{
  ℤ, ℕ, ◌<◌, ◌≤◌, ◌≡◌, refl, sym, subst, ap, ◌∙◌, arith, false, Option, none, some, Map, Heap,
  lookup, insert, delete, lookup-insert, lookup-delete, ==_iff, ==_refl, Bool-cases, inl, inr,
  alloc, store, ◌==◌,
}
use webtransport_h2_go.Errors.{Error}
use webtransport_h2_go.Session.State.{
  Session, Stream, ReceiveStream, ReadLoop, at_top, parsing, exited, enqueuing_stream,
  enqueuing_uni, delivering, CloseReason,
}
use webtransport_h2_go.Session.Close.{
  close, close_datagram_delivery, set_close_err, set_close_reason, begun, store_stop, close_done,
}
use webtransport_h2_go.Session.ReadLoop.{exit}

abbrev pub IsAt : Heap ReceiveStream → ℕ → ℕ → Type 0
IsAt h a id = (a < h.next) × ((h.cell a).id ≡ id)

-- What the read loop still has to deliver is bound for the half with its ID.
abbrev pub IsBound : Heap ReceiveStream → ReadLoop → Type 0
IsBound h (delivering d) = IsAt h d.target d.id
IsBound h (enqueuing_stream st d) = IsAt h d.target d.id
IsBound h (enqueuing_uni a d) = IsAt h d.target d.id
IsBound h _ = Unit {0}

pub record IsRouted (h : Heap ReceiveStream) (uni : Map ℕ) (bidi : Map Stream) (l : ReadLoop)
    : Type 0 where
  pub of_uni : (id a : ℕ) → lookup id uni ≡ some a → IsAt h a id
  pub of_bidi : (id : ℕ) (st : Stream) → lookup id bidi ≡ some st → IsAt h st.receive id
  pub bound : IsBound h l

-- Objects keep their IDs, and none goes away.
pub record Grown (h k : Heap ReceiveStream) : Type 0 where
  pub more : h.next ≤ k.next
  pub ids : (a : ℕ) → a < h.next → (k.cell a).id ≡ (h.cell a).id

Grown-IsAt : (h k : Heap ReceiveStream) (a id : ℕ) → Grown h k → IsAt h a id → IsAt k a id
Grown-IsAt h k a id g (l, e) = (omega (arith, l, g.more), g.ids a l ∙ e)

Grown-IsBound : (h k : Heap ReceiveStream) (l : ReadLoop) → Grown h k → IsBound h l → IsBound k l
Grown-IsBound h k (delivering d) g b = Grown-IsAt h k d.target d.id g b
Grown-IsBound h k (enqueuing_stream st d) g b = Grown-IsAt h k d.target d.id g b
Grown-IsBound h k (enqueuing_uni a d) g b = Grown-IsAt h k d.target d.id g b
Grown-IsBound h k at_top g b = tt
Grown-IsBound h k parsing g b = tt
Grown-IsBound h k exited g b = tt

pub Grown-IsRouted :
    (h k : Heap ReceiveStream) (uni : Map ℕ) (bidi : Map Stream) (l : ReadLoop)
    → Grown h k
    → IsRouted h uni bidi l
    → IsRouted k uni bidi l
Grown-IsRouted h k uni bidi l g r = record {
  of_uni = λ id a e. Grown-IsAt h k a id g (r.of_uni id a e);
  of_bidi = λ id st e. Grown-IsAt h k st.receive id g (r.of_bidi id st e);
  bound = Grown-IsBound h k l g r.bound;
}

pub store-Grown :
    (h : Heap ReceiveStream) (a : ℕ) (st : ReceiveStream)
    → st.id ≡ (h.cell a).id
    → Grown h (store a st h)
store-Grown h a st e = record {
  more = omega arith;
  ids = λ b l. elim (Bool-cases (a == b)) [
    | inl y ↦ rw y (e ∙ ap (λ x. (h.cell x).id) ((==_iff a b).0 y))
    | inr n ↦ rw n refl
  ];
}

pub alloc-Grown : (h : Heap ReceiveStream) (st : ReceiveStream) → Grown h (alloc st h)
alloc-Grown h st = record {
  more = omega arith;
  ids = λ b l. (let apart : (h.next == b) ≡ false = ground (arith, l) in rw apart refl);
}

pub alloc-IsAt : (h : Heap ReceiveStream) (st : ReceiveStream) → IsAt (alloc st h) h.next st.id
alloc-IsAt h st = (omega arith, rw (==_refl h.next) refl)

pub some-inj : {A : Type 0} (a b : A) → Path (Option A) (some a) (some b) → a ≡ b
some-inj a b e = cc

pub insert-bidi :
    (h : Heap ReceiveStream) (uni : Map ℕ) (bidi : Map Stream) (l : ReadLoop) (id : ℕ) (st : Stream)
    → IsAt h st.receive id
    → IsRouted h uni bidi l
    → IsRouted h uni (insert id st bidi) l
insert-bidi h uni bidi l id st i r = record {
  of_uni = r.of_uni;
  of_bidi = λ j t e. elim (Bool-cases (id == j)) [
    | inl y ↦
        let same = (==_iff id j).0 y in
        let found : st ≡ t = some-inj st t (sym (lookup-insert id j st bidi ∙ rw y refl) ∙ e) in
        subst (λ x. IsAt h x.receive j) found (subst (IsAt h st.receive) same i)
    | inr n ↦ r.of_bidi j t (sym (lookup-insert id j st bidi ∙ rw n refl) ∙ e)
  ];
  bound = r.bound;
}

pub insert-uni :
    (h : Heap ReceiveStream) (uni : Map ℕ) (bidi : Map Stream) (l : ReadLoop) (id a : ℕ)
    → IsAt h a id
    → IsRouted h uni bidi l
    → IsRouted h (insert id a uni) bidi l
insert-uni h uni bidi l id a i r = record {
  of_uni = λ j b e. elim (Bool-cases (id == j)) [
    | inl y ↦
        let same = (==_iff id j).0 y in
        let found : a ≡ b = some-inj a b (sym (lookup-insert id j a uni ∙ rw y refl) ∙ e) in
        subst (λ x. IsAt h x j) found (subst (IsAt h a) same i)
    | inr n ↦ r.of_uni j b (sym (lookup-insert id j a uni ∙ rw n refl) ∙ e)
  ];
  of_bidi = r.of_bidi;
  bound = r.bound;
}

pub delete-uni :
    (h : Heap ReceiveStream) (uni : Map ℕ) (bidi : Map Stream) (l : ReadLoop) (id : ℕ)
    → IsRouted h uni bidi l
    → IsRouted h (delete id uni) bidi l
delete-uni h uni bidi l id r = record {
  of_uni = λ j b e. elim (Bool-cases (id == j)) [
    | inl y ↦
        let gone : lookup j (delete id uni) ≡ none = lookup-delete id j uni ∙ rw y refl in
        absurd (ground (arith, sym gone ∙ e))
    | inr n ↦ r.of_uni j b (sym (lookup-delete id j uni ∙ rw n refl) ∙ e)
  ];
  of_bidi = r.of_bidi;
  bound = r.bound;
}

pub go_to-IsRouted :
    (h : Heap ReceiveStream) (uni : Map ℕ) (bidi : Map Stream) (l m : ReadLoop)
    → IsBound h m
    → IsRouted h uni bidi l
    → IsRouted h uni bidi m
go_to-IsRouted h uni bidi l m b r = record { of_uni = r.of_uni; of_bidi = r.of_bidi; bound = b }

module _ {W : Type 0} where
  pub record IsSound (s : Session W) : Type 0 where
    pub routed : IsRouted s.receive_heap s.receive_streams s.streams s.loop

  -- A step that leaves the maps, the receive halves and the read loop alone.
  pub record Aside (s t : Session W) : Type 0 where
    pub heap : t.receive_heap ≡ s.receive_heap
    pub uni : t.receive_streams ≡ s.receive_streams
    pub bidi : t.streams ≡ s.streams
    pub loop : t.loop ≡ s.loop

  pub Aside-IsSound : (s t : Session W) → Aside s t → IsSound s → IsSound t
  Aside-IsSound s t a r = record { routed = rw (a.heap, a.uni, a.bidi, a.loop) r.routed }

  pub close-Aside : (s : Session W) → Aside s (close s)
  unfolding close close_datagram_delivery
  close-Aside s = ground arith

  pub begun-Aside : (s t : Session W) → Aside t (begun s t)
  begun-Aside s t = record { heap = refl; uni = refl; bidi = refl; loop = refl }

  pub stop-Aside : (s : Session W) → Aside s (store_stop s)
  stop-Aside s = record { heap = refl; uni = refl; bidi = refl; loop = refl }

  pub delivery-Aside : (s : Session W) → Aside s (close_datagram_delivery s)
  unfolding close_datagram_delivery
  delivery-Aside s = ground arith

  pub done-Aside : (s : Session W) → Aside s (close_done s)
  done-Aside s = record { heap = refl; uni = refl; bidi = refl; loop = refl }

  pub size-Aside : (n : ℤ) (s : Session W) → Aside s (record s { stream_receive_buffer_size = n })
  size-Aside n s = record { heap = refl; uni = refl; bidi = refl; loop = refl }

  pub exit-IsSound : (s : Session W) → IsSound s → IsSound (exit s)
  unfolding exit
  exit-IsSound s r = record {
    routed = go_to-IsRouted _ _ _ _ exited tt (Aside-IsSound s (close s) (close-Aside s) r).routed;
  }

  pub set_err-Aside : (e : Error) (s : Session W) → Aside s (set_close_err e s)
  unfolding set_close_err
  set_err-Aside e s = ground arith

  pub set_reason-Aside : (e : CloseReason) (s : Session W) → Aside s (set_close_reason e s)
  unfolding set_close_reason
  set_reason-Aside e s = ground arith
