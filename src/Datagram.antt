-- ===== src/Datagram.antt =====
-- datagram.go: the queue of received datagrams. Each operation is one critical section of `mu`.
-- `notify` says whether the channel of capacity 1 holds its token.
pub mod Fifo
pub mod Wakeup
pub mod TwoReaders
use webtransport_h2_go.Prelude.{
  ℕ, ◌+◌, ◌-◌, Bool, true, false, ◌&&◌, List, [], ◌∷◌, ◌++◌, length, ltb, if◌then◌else◌, ℤ,
  is_positive, pos_part,
}

pub record DatagramReceiveBuffer : Type 0 where
  pub queue : List (List ℕ)
  pub buffered_bytes : ℕ
  pub closed : Bool
  pub max_bytes : ℤ
  pub notify : Bool

unfoldable pub new_datagram_receive_buffer : ℤ → DatagramReceiveBuffer
new_datagram_receive_buffer max = record {
  queue = [];
  buffered_bytes = 0;
  closed = false;
  max_bytes = max;
  notify = false;
}

-- `b.maxBytes > 0 && b.bufferedBytes+len(p) > b.maxBytes`
abbrev pub exceeds : ℤ → ℕ → Bool
exceeds max n = is_positive max && ltb (pos_part max) n

-- `false`: the datagram is dropped.
unfoldable pub write : List ℕ → DatagramReceiveBuffer → DatagramReceiveBuffer × Bool
write p b =
    if b.closed
    then (b, false)
    else if exceeds b.max_bytes (b.buffered_bytes + length p)
    then (b, false)
    else (
      record b {
        queue = b.queue ++ p ∷ [];
        buffered_bytes = b.buffered_bytes + length p;
        notify = true;
      },
      true,
    )

-- What one round of the loop in `read` comes to under the lock.
pub data Attempt : Type 0 where
  payload : List ℕ → Attempt
  ended : Attempt
  waits : Attempt

abbrev attempt : List (List ℕ) → DatagramReceiveBuffer → DatagramReceiveBuffer × Attempt
attempt (p ∷ rest) b =
    (record b { queue = rest; buffered_bytes = b.buffered_bytes - length p }, payload p)
attempt [] b = if b.closed then (b, ended) else (b, waits)

unfoldable pub read : DatagramReceiveBuffer → DatagramReceiveBuffer × Attempt
read b = attempt b.queue b

unfoldable pub close : DatagramReceiveBuffer → DatagramReceiveBuffer
close b = if b.closed then b else record b { closed = true; notify = true }
