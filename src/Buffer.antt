-- ===== src/Buffer.antt =====
-- stream.go: the bytes that a stream received and the application has not read. Each operation is
-- one critical section of `mu`; a `read` that has to wait for the condition variable is `waits`.
pub mod Fifo
pub mod Drain
use webtransport_h2_go.Prelude.{
  ℕ, ◌+◌, Bool, true, false, ◌&&◌, List, [], ◌∷◌, ◌++◌, length, ltb, if◌then◌else◌, ℤ, is_positive,
  pos_part, take, drop, min,
}
use webtransport_h2_go.Errors.{Error, Result, ok, err, closed_pipe, stream_receive_buffer_full, eof}

pub record StreamReceiveBuffer : Type 0 where
  pub bytes : List ℕ
  pub closed : Bool
  pub max_bytes : ℤ

unfoldable pub new_stream_receive_buffer : ℤ → StreamReceiveBuffer
new_stream_receive_buffer max = record { bytes = []; closed = false; max_bytes = max }

-- `b.maxBytes > 0 && len(b.data)+len(p) > b.maxBytes`
abbrev pub exceeds : ℤ → ℕ → Bool
exceeds max n = is_positive max && ltb (pos_part max) n

-- The count of bytes taken, or the error that leaves the buffer as it was.
unfoldable pub write : List ℕ → StreamReceiveBuffer → StreamReceiveBuffer × Result ℕ
write p b =
    if b.closed
    then (b, err closed_pipe)
    else if exceeds b.max_bytes (length b.bytes + length p)
    then (b, err stream_receive_buffer_full)
    else (record b { bytes = b.bytes ++ p }, ok (length p))

-- What a call of `read` with a slice of length `n` comes to under the lock: the bytes copied, the end
-- of the stream, or a wait.
pub data Outcome : Type 0 where
  copied : List ℕ → Outcome
  ended : Outcome
  waits : Outcome

abbrev outcome : List ℕ → ℕ → StreamReceiveBuffer → StreamReceiveBuffer × Outcome
outcome [] n b = if b.closed then (b, ended) else (b, waits)
outcome (x ∷ xs) n b = (record b { bytes = drop n (x ∷ xs) }, copied (take n (x ∷ xs)))

unfoldable pub read : ℕ → StreamReceiveBuffer → StreamReceiveBuffer × Outcome
read n b = outcome b.bytes n b

unfoldable pub close : StreamReceiveBuffer → StreamReceiveBuffer
close b = record b { closed = true }
