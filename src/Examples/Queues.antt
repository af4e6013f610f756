-- ===== src/Examples/Queues.antt =====
-- Runs of the receive buffers.
use webtransport_h2_go.Prelude.{◌≡◌, ◌↔◌, refl, true, false, List, [], ◌∷◌, ◌++◌, some, arith, pos}
use webtransport_h2_go.Errors.{err, eof}
use webtransport_h2_go.Datagram.{DatagramReceiveBuffer, new_datagram_receive_buffer, payload}
use webtransport_h2_go.Datagram
use webtransport_h2_go.Datagram.Fifo.{IsValid, step-IsValid, run-queue, write_iff}
use webtransport_h2_go.Datagram.Wakeup.{One, waiting, returned, writes}
use webtransport_h2_go.Datagram.TwoReaders.{Two, Reach, close_wakes_one}
use webtransport_h2_go.Buffer.{StreamReceiveBuffer, exceeds}
use webtransport_h2_go.Buffer
use webtransport_h2_go.Buffer.Fifo.{run-bytes}
use webtransport_h2_go.Buffer.Drain.{read_to_end, read_to_end-closed}

-- Six bytes of room.
abbrev small : DatagramReceiveBuffer
small = record {
  queue = (1 ∷ 2 ∷ []) ∷ [];
  buffered_bytes = 2;
  closed = false;
  max_bytes = pos 6;
  notify = true;
}

abbrev ops : List Datagram.Fifo.Op
ops =
    Datagram.Fifo.writes (3 ∷ 4 ∷ 5 ∷ [])
    ∷ Datagram.Fifo.writes (6 ∷ 7 ∷ [])
    ∷ Datagram.Fifo.reads
    ∷ Datagram.Fifo.closes
    ∷ Datagram.Fifo.reads
    ∷ []

delivered_datagrams : Datagram.Fifo.all_delivered ops small ≡ (1 ∷ 2 ∷ []) ∷ (3 ∷ 4 ∷ 5 ∷ []) ∷ []
unfolding Datagram.Fifo.all_delivered Datagram.write Datagram.read Datagram.close
delivered_datagrams = refl

run-queue_example :
    small.queue ++ Datagram.Fifo.all_accepted ops small
    ≡ Datagram.Fifo.all_delivered ops small ++ (Datagram.Fifo.run ops small).queue
run-queue_example = run-queue ops small

step-IsValid_example : IsValid (Datagram.write (3 ∷ 4 ∷ 5 ∷ []) small).0
step-IsValid_example =
    step-IsValid (Datagram.Fifo.writes (3 ∷ 4 ∷ 5 ∷ [])) small
      (record { counted = refl; bounded = refl })

write_iff_example :
    ((Datagram.write (3 ∷ []) small).1 ≡ true)
    ↔ ((small.closed ≡ false) × (Datagram.exceeds small.max_bytes 3 ≡ false))
write_iff_example = write_iff (3 ∷ []) small

-- The reader waits, and then a datagram comes.
abbrev told : One
told = record {
  buffer = (Datagram.write (9 ∷ []) (new_datagram_receive_buffer (pos 6))).0;
  reader = waiting;
}

abbrev empty : DatagramReceiveBuffer
empty = record { queue = []; buffered_bytes = 0; closed = false; max_bytes = pos 6; notify = false }

close_wakes_one_example :
    (t : Two) × Reach (record { buffer = empty; first = waiting; second = waiting }) t
    × (t.first ≡ returned (err eof))
    × (t.buffer.closed ≡ true)
    × ((u : Two) → Reach t u → u.second ≡ waiting)
close_wakes_one_example = close_wakes_one empty refl refl

abbrev pipe : StreamReceiveBuffer
pipe = record { bytes = 1 ∷ 2 ∷ 3 ∷ []; closed = false; max_bytes = pos 4 }

abbrev pipe_ops : List Buffer.Fifo.Op
pipe_ops =
    Buffer.Fifo.writes (4 ∷ 5 ∷ [])
    ∷ Buffer.Fifo.reads 2
    ∷ Buffer.Fifo.writes (6 ∷ [])
    ∷ Buffer.Fifo.closes
    ∷ Buffer.Fifo.reads 9
    ∷ []

pipe_read : Buffer.Fifo.all_delivered pipe_ops pipe ≡ 1 ∷ 2 ∷ 3 ∷ 6 ∷ []
unfolding Buffer.Fifo.all_delivered Buffer.write Buffer.read Buffer.close
pipe_read = refl

run-bytes_example :
    pipe.bytes ++ Buffer.Fifo.all_accepted pipe_ops pipe
    ≡ Buffer.Fifo.all_delivered pipe_ops pipe ++ (Buffer.Fifo.run pipe_ops pipe).bytes
run-bytes_example = run-bytes pipe_ops pipe

read_to_end-closed_example :
    read_to_end 4 (λ i. 0) [] (record pipe { closed = true })
    ≡ some (1 ∷ 2 ∷ 3 ∷ [], record pipe { bytes = []; closed = true })
read_to_end-closed_example =
    read_to_end-closed 4 (λ i. 0) [] (1 ∷ 2 ∷ 3 ∷ []) (record pipe { closed = true }) refl refl
      (omega arith)
