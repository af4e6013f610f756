-- ===== src/Session/Within.antt =====
-- The limits on what a session keeps for the application.
use webtransport_h2_go.Prelude.{
  ℕ, ◌≤◌, ◌≡◌, refl, sym, ◌∙◌, subst, arith, Bool, true, false, List, pos, negsuc, ℤ, length,
  lookup, if◌then◌else◌, Bool-cases, Option-cases, inl, inr, ◌==◌,
}
use webtransport_h2_go.StreamId.{is_our_stream, is_bidirectional_stream}
use webtransport_h2_go.Datagram
use webtransport_h2_go.Datagram.Fifo
use webtransport_h2_go.Datagram.Fifo.{IsValid, total_length}
use webtransport_h2_go.Datagram.{DatagramReceiveBuffer, new_datagram_receive_buffer}
use webtransport_h2_go.Buffer
use webtransport_h2_go.Buffer.{exceeds, StreamReceiveBuffer, new_stream_receive_buffer}
use webtransport_h2_go.Buffer.Fifo.{IsBounded}
use webtransport_h2_go.Session.State.{Session, ReceiveStream}
use webtransport_h2_go.Session.Receive.{receiver, put_receiver}
use webtransport_h2_go.Session.Streams.{new_stream, new_receive_stream, new_send_stream}
use webtransport_h2_go.Session.ReadLoop.{route, route_bidi, route_uni}

-- A positive number up to `B`.
unfoldable pub IsCap : ℕ → ℤ → Type 0
IsCap B (pos n) = (1 ≤ n) × (n ≤ B)
IsCap B (negsuc n) = ⊥

-- A receive half with a limit of at most `B` bytes, and within it.
pub record IsSmall (B : ℕ) (h : ReceiveStream) : Type 0 where
  pub limit : IsCap B h.recv_buffer.max_bytes
  pub fits : IsBounded h.recv_buffer

pub put_buffer-IsSmall :
    {B : ℕ} (h : ReceiveStream) (b : StreamReceiveBuffer)
    → b.max_bytes ≡ h.recv_buffer.max_bytes
    → IsBounded b
    → IsSmall B h
    → IsSmall B (record h { recv_buffer = b })
put_buffer-IsSmall {B = B} h b e f i = record { limit = subst (IsCap B) (sym e) i.limit; fits = f }

pub write-limit :
    (p : List ℕ) (b : StreamReceiveBuffer) → (Buffer.write p b).0.max_bytes ≡ b.max_bytes
unfolding Buffer.write
write-limit p b = ground arith

pub read-limit : (n : ℕ) (b : StreamReceiveBuffer) → (Buffer.read n b).0.max_bytes ≡ b.max_bytes
unfolding Buffer.read
read-limit n b = ground arith

-- A datagram buffer within its limit of 64 KiB.
pub record IsSmallQueue (b : DatagramReceiveBuffer) : Type 0 where
  pub limit : b.max_bytes ≡ pos 65536
  pub valid : IsValid b

queue-limit :
    (o : Datagram.Fifo.Op) (b : DatagramReceiveBuffer)
    → (Datagram.Fifo.step o b).max_bytes ≡ b.max_bytes
unfolding Datagram.write Datagram.read Datagram.close
queue-limit (Datagram.Fifo.writes p) b = ground arith
queue-limit Datagram.Fifo.reads b = ground arith
queue-limit Datagram.Fifo.closes b = ground arith

pub step-IsSmallQueue :
    (o : Datagram.Fifo.Op) (b : DatagramReceiveBuffer)
    → IsSmallQueue b
    → IsSmallQueue (Datagram.Fifo.step o b)
step-IsSmallQueue o b i = record {
  limit = queue-limit o b ∙ i.limit;
  valid = Datagram.Fifo.step-IsValid o b i.valid;
}

cap-length : (B n : ℕ) (z : ℤ) → IsCap B z → exceeds z n ≡ false → n ≤ B
unfolding IsCap
cap-length B n (pos m) c e = ground (arith, c, e)
cap-length B n (negsuc m) c e = absurd c

empty-fits : (B : ℕ) (z : ℤ) → IsCap B z → exceeds z 0 ≡ false
unfolding IsCap
empty-fits B (pos m) c = ground (arith, c)
empty-fits B (negsuc m) c = absurd c

pub small-length : {B : ℕ} (h : ReceiveStream) → IsSmall B h → length h.recv_buffer.bytes ≤ B
small-length {B = B} h i = cap-length B _ h.recv_buffer.max_bytes i.limit i.fits

pub small_queue-length : (b : DatagramReceiveBuffer) → IsSmallQueue b → total_length b.queue ≤ 65536
small_queue-length b i = ground (arith, i.limit, i.valid.bounded, i.valid.counted)

module _ {W : Type 0} where
  pub record IsWithin (B : ℕ) (s : Session W) : Type 0 where
    pub size : IsCap B s.stream_receive_buffer_size
    pub streams : length s.incoming_streams ≤ 16
    pub unis : length s.incoming_unidirectional_streams ≤ 16
    pub halves : (a : ℕ) → IsSmall B (receiver a s)
    pub datagrams : IsSmallQueue s.datagram_buffer

  -- A step that adds nothing.
  pub record Leaves (s t : Session W) : Type 0 where
    pub size : t.stream_receive_buffer_size ≡ s.stream_receive_buffer_size
    pub streams : length t.incoming_streams ≤ length s.incoming_streams
    pub unis : length t.incoming_unidirectional_streams ≤ length s.incoming_unidirectional_streams
    pub halves : t.receive_heap ≡ s.receive_heap
    pub datagrams : t.datagram_buffer ≡ s.datagram_buffer

module _ {W : Type 0} {B : ℕ} where
  -- A step that leaves all this alone.
  pub leave :
      (s t : Session W)
      → t.stream_receive_buffer_size ≡ s.stream_receive_buffer_size
      → t.incoming_streams ≡ s.incoming_streams
      → t.incoming_unidirectional_streams ≡ s.incoming_unidirectional_streams
      → t.receive_heap ≡ s.receive_heap
      → t.datagram_buffer ≡ s.datagram_buffer
      → IsWithin B s
      → IsWithin B t
  leave s t size streams unis halves datagrams i = record {
    size = subst (IsCap B) (sym size) i.size;
    streams = rw streams i.streams;
    unis = rw unis i.unis;
    halves = λ a. subst (λ h. IsSmall B (h.cell a)) (sym halves) (i.halves a);
    datagrams = subst IsSmallQueue (sym datagrams) i.datagrams;
  }

  pub leaves : (s t : Session W) → Leaves s t → IsWithin B s → IsWithin B t
  leaves s t l i = record {
    size = subst (IsCap B) (sym l.size) i.size;
    streams = omega (arith, l.streams, i.streams);
    unis = omega (arith, l.unis, i.unis);
    halves = λ a. subst (λ h. IsSmall B (h.cell a)) (sym l.halves) (i.halves a);
    datagrams = subst IsSmallQueue (sym l.datagrams) i.datagrams;
  }

  pub choose_first :
      {A : Type 0} (b : Bool) (x y : Session W × A)
      → IsWithin B x.0
      → IsWithin B y.0
      → IsWithin B (if b then x else y).0
  choose_first true x y i j = i
  choose_first false x y i j = j

  pub put-IsWithin :
      (a : ℕ) (h : ReceiveStream) (s : Session W)
      → IsSmall B h
      → IsWithin B s
      → IsWithin B (put_receiver a h s)
  put-IsWithin a h s k i = record {
    size = i.size;
    streams = i.streams;
    unis = i.unis;
    halves = λ b. elim (Bool-cases (a == b)) [ inl y ↦ rw y k | inr n ↦ rw n (i.halves b) ];
    datagrams = i.datagrams;
  }

  pub new-IsWithin :
      (id : ℕ) (s : Session W) → IsWithin B s → IsWithin B (new_receive_stream id s).0
  unfolding new_receive_stream new_stream_receive_buffer
  new-IsWithin id s i = record {
    size = i.size;
    streams = i.streams;
    unis = i.unis;
    halves = λ b. elim (Bool-cases (s.receive_heap.next == b)) [
      | inl y ↦
          rw y (record { limit = i.size; fits = empty-fits B s.stream_receive_buffer_size i.size })
      | inr n ↦ rw n (i.halves b)
    ];
    datagrams = i.datagrams;
  }

  pub route-IsWithin :
      (id : ℕ) (fin : Bool) (p : List ℕ) (s : Session W)
      → IsWithin B s
      → IsWithin B (route id fin p s)
  unfolding route route_bidi route_uni new_stream new_send_stream
  route-IsWithin id fin p s i =
      let n = new-IsWithin id s i in
      elim (Bool-cases (is_bidirectional_stream id)) [
        | inl b ↦ elim (Option-cases (lookup id s.streams)) [
          | inr (st, e) ↦ rw (b, e, route_bidi) (leave s _ refl refl refl refl refl i)
          | inl e ↦ elim (Bool-cases (is_our_stream s.endpoint.is_server id)) [
            | inl y ↦ rw (b, e, route_bidi, y) (leave s _ refl refl refl refl refl i)
            | inr o ↦ rw (b, e, route_bidi, o) (leave _ _ refl refl refl refl refl n)
          ]
        ]
        | inr b ↦ elim (Option-cases (lookup id s.receive_streams)) [
          | inr (a, e) ↦ rw (b, e, route_uni) (leave s _ refl refl refl refl refl i)
          | inl e ↦ elim (Bool-cases (is_our_stream s.endpoint.is_server id)) [
            | inl y ↦ rw (b, e, route_uni, y) (leave s _ refl refl refl refl refl i)
            | inr o ↦ rw (b, e, route_uni, o) (leave _ _ refl refl refl refl refl n)
          ]
        ]
      ]
