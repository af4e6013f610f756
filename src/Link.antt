-- ===== src/Link.antt =====
-- Two sessions at the ends of one connection, session.go and stream.go at either end: what one sends
-- waits on the wire until the other's read loop takes it.
pub mod OnWire
pub mod Sending
pub mod Receiving
pub mod Routes
pub mod Arriving
pub mod Holding
pub mod Settled
pub mod Delivered
pub mod Acting
pub mod Reliable
use webtransport_h2_go.Prelude.{
  ℕ, true, false, not, ◌<◌, ◌^◌, ◌≡◌, Bool, List, [], ◌∷◌, ◌++◌, Option, none, some, ◌==◌, ◌||◌,
  if◌then◌else◌, lookup,
}
use webtransport_h2_go.Errors.{Error, Result, ok, err}
use webtransport_h2_go.Wire.{Content, Quicvarint}
use webtransport_h2_go.Capsule
use webtransport_h2_go.Buffer.Fifo.{bytes_copied}
use webtransport_h2_go.Flow.{PeerInitialLimits}
use webtransport_h2_go.Session.State.{
  new_session, Session, Transport, Stream, Delivery, ReadLoop, parsing, delivering,
  enqueuing_stream, enqueuing_uni,
}
use webtransport_h2_go.Session.Close.{begun}
use webtransport_h2_go.Session.Send.{sender, write}
use webtransport_h2_go.Session.Receive.{receiver, read}
use webtransport_h2_go.Session.ReadLoop.{Inbound, capsule, broken, parsed}
use webtransport_h2_go.Session.Steps.{
  Step, checks, parses, enqueues, delivers, opens, opens_uni, accepts, accepts_uni, writes, pads,
  finishes, reads, stops_reading, sends_datagram, receives_datagram, flushes, closes, closes_with,
  begins_close, stores_stop, closes_delivery, closes_done, sets_buffer_size,
}

-- The capsules on the wire, the oldest first: type and value.
abbrev pub Wire : Type 0
Wire = List (ℕ × List ℕ)

-- The HTTP library's writer, which puts a capsule on the wire or fails and puts nothing there. When it
-- fails is left open.
abbrev pub onto_wire : (ℕ → List ℕ → Wire → Option Error) → Transport Wire
onto_wire fails = record {
  write_capsule =
      λ typ p w. elim (fails typ p w) [ none ↦ (w ++ (typ, p) ∷ [], none) | some e ↦ (w, some e) ];
  flush = λ w. w;
}

abbrev pub when_id : Quicvarint → ℕ → Result (ℕ × Content) → List ℕ
when_id q id (ok (other, rest)) = if other == id then rest.bytes else []
when_id q id (err e) = []

-- The bytes of the stream `id` in a capsule.
unfoldable pub carried : Quicvarint → ℕ → ℕ × List ℕ → List ℕ
carried q id (typ, p) =
    if typ == Capsule.wt_stream || typ == Capsule.wt_stream_fin
    then when_id q id (q.read (record { bytes = p; fault = none }))
    else []

-- The bytes of the stream `id` on the wire.
unfoldable pub in_flight : Quicvarint → ℕ → Wire → List ℕ
in_flight q id [] = []
in_flight q id (c ∷ w) = carried q id c ++ in_flight q id w

abbrev when_ok : Result ℕ → List ℕ → List ℕ
when_ok (ok n) p = p
when_ok (err e) p = []

-- The bytes of the bidirectional stream `id` that a `Read` on the receive half at `a` returns.
unfoldable pub taken : {W : Type 0} → ℕ → ℕ → ℕ → Session W → List ℕ
taken id a n s = elim (lookup id s.streams) [
  | none ↦ []
  | some st ↦ if st.receive == a then bytes_copied (read a n s).1 else []
]

module _ {W : Type 0} {net : Transport W} {q : Quicvarint} where
  -- What a step hands in successfully on the stream `id`: the bytes of a `Write` that returns no error.
  unfoldable pub written : ℕ → (s t : Session W) → Step net q s t → List ℕ
  written id s t (writes a p e) =
      if (sender a s).id == id then when_ok (write net q a p s).1 p else []
  written id s t (begins_close u e a b c) = written id s u e
  written id s t _ = []

  -- What a step hands out of the bidirectional stream `id`: the bytes of a `Read` on its receive half.
  unfoldable pub read_out : ℕ → (s t : Session W) → Step net q s t → List ℕ
  read_out id s t (reads a n e) = taken id a n s
  read_out id s t (begins_close u e a b c) = read_out id s u e
  read_out id s t _ = []

  -- `quicvarint.Append` takes numbers below 2^62: the ID in what the step sends is one.
  unfoldable pub IsEncodable : (s t : Session W) → Step net q s t → Type 0
  IsEncodable s t (writes a p e) = (sender a s).id < 2 ^ 62
  IsEncodable s t (finishes a e) = (sender a s).id < 2 ^ 62
  IsEncodable s t (begins_close u e a b c) = IsEncodable s u e
  IsEncodable s t _ = Unit {0}

  -- A step that takes no capsule from the peer: any call of the application, any other step of the read
  -- loop, and the end of the connection.
  unfoldable pub IsLocal : (s t : Session W) → Step net q s t → Type 0
  IsLocal s t (parses (capsule typ c) h e) = ⊥
  IsLocal s t (begins_close u e a b c) = IsLocal s u e
  IsLocal s t _ = Unit {0}

module _ {W : Type 0} where
  -- The bytes of the stream `id` that were received and not read.
  unfoldable pub held : ℕ → Session W → List ℕ
  held id s = elim (lookup id s.streams) [
    | none ↦ []
    | some st ↦ (receiver st.receive s).recv_buffer.bytes
  ]

  -- The application gave up reading from the stream `id`.
  unfoldable pub HasStoppedReading : ℕ → Session W → Type 0
  HasStoppedReading id s =
      (st : Stream) × (lookup id s.streams ≡ some st) × ((receiver st.receive s).closed ≡ true)

abbrev pub payload_for : ℕ → Delivery → List ℕ
payload_for id d = if d.id == id then d.payload else []

-- The bytes of the stream `id` that the read loop is busy with.
unfoldable pub pending : ℕ → ReadLoop → List ℕ
pending id (delivering d) = payload_for id d
pending id (enqueuing_stream st d) = payload_for id d
pending id (enqueuing_uni a d) = payload_for id d
pending id _ = []

-- The two ends, and two records of what the applications did with one stream: the bytes that were
-- written to it at one end, and those that were read from it at the other.
pub record Link (W : Type 0) : Type 0 where
  pub from : Session Wire
  pub to : Session W
  pub sent : List ℕ
  pub received : List ℕ

-- Two new sessions: the receiving one is a server if `is_server` says so, and the sending one is the other.
-- `newSessionConfigured` runs at both ends, with the limits that the other end's SETTINGS gave.
unfoldable pub joined :
    {W : Type 0} → W → List ℕ → Bool → Option PeerInitialLimits → Option PeerInitialLimits → Link W
joined w protocol is_server mine peers = record {
  from = new_session [] protocol (not is_server) peers;
  to = new_session w protocol is_server mine;
  sent = [];
  received = [];
}

-- The read loop is given a whole capsule.
abbrev pub handed : {W : Type 0} → Quicvarint → ℕ → List ℕ → Session W → Session W
handed q typ p s = parsed q (capsule typ (record { bytes = p; fault = none })) s

module _ {W : Type 0} (q : Quicvarint) (id : ℕ) where
  pub data LinkStep (x y : Link W) : Type 0 where
    -- any step of the sending session, its own read loop's on any input included
    sends :
        (fails : ℕ → List ℕ → Wire → Option Error) (t : Session Wire)
        (e : Step (onto_wire fails) q x.from t)
        → IsEncodable x.from t e
        → y ≡ record x { from = t; sent = x.sent ++ written id x.from t e }
        → LinkStep x y
    -- the oldest capsule on the wire reaches the other end's read loop
    arrives :
        (typ : ℕ) (p : List ℕ) (w : Wire)
        → x.from.writer ≡ (typ, p) ∷ w
        → x.to.loop ≡ parsing
        → y ≡ record x { from = record x.from { writer = w }; to = handed q typ p x.to }
        → LinkStep x y
    -- the same, where the capsule ends the read loop, which has begun to close the session
    arrives_closing :
        (typ : ℕ) (p : List ℕ) (w : Wire)
        → x.from.writer ≡ (typ, p) ∷ w
        → x.to.loop ≡ parsing
        → x.to.close_once ≡ false
        → (handed q typ p x.to).close_once ≡ true
        → y
          ≡ record x { from = record x.from { writer = w }; to = begun x.to (handed q typ p x.to) }
        → LinkStep x y
    -- any other step of the receiving session
    acts :
        (net : Transport W) (t : Session W) (e : Step net q x.to t)
        → IsLocal x.to t e
        → y ≡ record x { to = t; received = x.received ++ read_out id x.to t e }
        → LinkStep x y

  pub data LinkReach (x : Link W) : Link W → Type 0 where
    here : LinkReach x x
    next : {y z : Link W} → LinkReach x y → LinkStep y z → LinkReach x z
