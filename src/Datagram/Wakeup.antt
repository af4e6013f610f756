-- ===== src/Datagram/Wakeup.antt =====
-- Goroutines blocked in `read`. After a round that finds nothing, a reader waits in the `select` for
-- the token of `notify` or the end of its context, and then tries again.
use webtransport_h2_go.Prelude.{ℕ, ◌≡◌, ◌≢◌, ◌⊎◌, true, false, List, [], ℤ}
use webtransport_h2_go.Errors.{Result, ok, err, eof, context_done}
use webtransport_h2_go.Datagram.{
  DatagramReceiveBuffer, Attempt, payload, ended, waits, new_datagram_receive_buffer, write, read,
  close,
}

pub data Reader : Type 0 where
  trying waiting : Reader
  returned : Result (List ℕ) → Reader

abbrev pub after : Attempt → Reader
after (payload p) = returned (ok p)
after ended = returned (err eof)
after waits = waiting

-- One step of a reader on the buffer.
pub data Move (b : DatagramReceiveBuffer) (r : Reader) (c : DatagramReceiveBuffer) (r' : Reader)
    : Type 0 where
  tries : r ≡ trying → c ≡ (read b).0 → r' ≡ after (read b).1 → Move b r c r'
  wakes :
      r ≡ waiting → b.notify ≡ true → c ≡ record b { notify = false } → r' ≡ trying → Move b r c r'
  cancelled : r ≡ waiting → c ≡ b → r' ≡ returned (err context_done) → Move b r c r'
  -- the next call of `read`
  calls : (o : Result (List ℕ)) → r ≡ returned o → c ≡ b → r' ≡ trying → Move b r c r'

-- What other goroutines do to the buffer.
pub data Change (b c : DatagramReceiveBuffer) : Type 0 where
  writes : (p : List ℕ) → c ≡ (write p b).0 → Change b c
  closes : c ≡ close b → Change b c

pub record One : Type 0 where
  pub buffer : DatagramReceiveBuffer
  pub reader : Reader

pub data OneStep (s t : One) : Type 0 where
  moves : Move s.buffer s.reader t.buffer t.reader → OneStep s t
  changes : Change s.buffer t.buffer → t.reader ≡ s.reader → OneStep s t

pub data OneReach (s : One) : One → Type 0 where
  here : OneReach s s
  next : {t u : One} → OneReach s t → OneStep t u → OneReach s u

-- The buffer has something to tell a reader.
abbrev pub IsReady : DatagramReceiveBuffer → Type 0
IsReady b = (b.queue ≢ []) ⊎ (b.closed ≡ true)

abbrev pub IsAwake : One → Type 0
IsAwake s = s.reader ≡ waiting → IsReady s.buffer → s.buffer.notify ≡ true

abbrev pub start : ℤ → One
start max = record { buffer = new_datagram_receive_buffer max; reader = trying }
