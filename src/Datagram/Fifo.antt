-- ===== src/Datagram/Fifo.antt =====
-- The buffer as a bounded queue: what is accepted comes out whole, once, in order.
use webtransport_h2_go.Prelude.{
  ℕ, ◌+◌, ◌≡◌, ◌↔◌, refl, sym, ◌∙◌, ap, true, false, List, [], ◌∷◌, ◌++◌, length, if◌then◌else◌,
  arith, append_assoc, append-nil,
}
use webtransport_h2_go.Datagram.{
  DatagramReceiveBuffer, Attempt, payload, ended, waits, exceeds, write, read, close, attempt,
}

abbrev pub total_length : List (List ℕ) → ℕ
total_length [] = 0
total_length (p ∷ ps) = length p + total_length ps

total_length-append :
    (ps qs : List (List ℕ)) → total_length (ps ++ qs) ≡ total_length ps + total_length qs
total_length-append [] qs = omega arith
total_length-append (p ∷ ps) qs = omega (arith, total_length-append ps qs)

pub record IsValid (b : DatagramReceiveBuffer) : Type 0 where
  pub counted : b.buffered_bytes ≡ total_length b.queue
  pub bounded : exceeds b.max_bytes b.buffered_bytes ≡ false

pub data Op : Type 0 where
  writes : List ℕ → Op
  reads : Op
  closes : Op

abbrev pub step : Op → DatagramReceiveBuffer → DatagramReceiveBuffer
step (writes p) b = (write p b).0
step reads b = (read b).0
step closes b = close b

unfoldable pub run : List Op → DatagramReceiveBuffer → DatagramReceiveBuffer
run [] b = b
run (o ∷ os) b = run os (step o b)

-- What an operation adds to the datagrams accepted, and to those delivered.
abbrev accepted_by : Op → DatagramReceiveBuffer → List (List ℕ)
accepted_by (writes p) b = if (write p b).1 then p ∷ [] else []
accepted_by reads b = []
accepted_by closes b = []

abbrev delivered : Attempt → List (List ℕ)
delivered (payload p) = p ∷ []
delivered ended = []
delivered waits = []

abbrev delivered_by : Op → DatagramReceiveBuffer → List (List ℕ)
delivered_by (writes p) b = []
delivered_by reads b = delivered (read b).1
delivered_by closes b = []

unfoldable pub all_accepted : List Op → DatagramReceiveBuffer → List (List ℕ)
all_accepted [] b = []
all_accepted (o ∷ os) b = accepted_by o b ++ all_accepted os (step o b)

unfoldable pub all_delivered : List Op → DatagramReceiveBuffer → List (List ℕ)
all_delivered [] b = []
all_delivered (o ∷ os) b = delivered_by o b ++ all_delivered os (step o b)

read-IsValid :
    (q : List (List ℕ)) (b : DatagramReceiveBuffer)
    → b.queue ≡ q
    → IsValid b
    → IsValid (attempt q b).0
read-IsValid [] b e v = ground arith
read-IsValid (p ∷ rest) b e v = ground arith

-- The count is that of the queue and stays within a positive `maxBytes`, after any operation.
pub step-IsValid : (o : Op) (b : DatagramReceiveBuffer) → IsValid b → IsValid (step o b)
unfolding write read close
step-IsValid (writes p) b v = ground (arith, total_length-append b.queue (p ∷ []))
step-IsValid reads b v = read-IsValid b.queue b refl v
step-IsValid closes b v = ground arith

-- A datagram is accepted exactly when the buffer is open and has room for all of it.
pub write_iff :
    (p : List ℕ) (b : DatagramReceiveBuffer)
    → ((write p b).1 ≡ true)
      ↔ ((b.closed ≡ false) × (exceeds b.max_bytes (b.buffered_bytes + length p) ≡ false))
unfolding write
write_iff p b = (λ h. ground arith, λ h. ground arith)

attempt-queue :
    (q : List (List ℕ)) (b : DatagramReceiveBuffer)
    → b.queue ≡ q
    → b.queue ≡ delivered (attempt q b).1 ++ (attempt q b).0.queue
attempt-queue [] b e = ground arith
attempt-queue (p ∷ rest) b e = ground arith

step-queue :
    (o : Op) (b : DatagramReceiveBuffer)
    → b.queue ++ accepted_by o b ≡ delivered_by o b ++ (step o b).queue
unfolding write read close
step-queue (writes p) b = ground (arith, append-nil b.queue)
step-queue reads b = rw (append-nil) (attempt-queue b.queue b refl)
step-queue closes b = ground (arith, append-nil b.queue)

-- Over any sequence of operations, what was delivered and what is still queued is what was queued at
-- the start and what was accepted since, in this order.
pub run-queue :
    (os : List Op) (b : DatagramReceiveBuffer)
    → b.queue ++ all_accepted os b ≡ all_delivered os b ++ (run os b).queue
unfolding run all_accepted all_delivered
run-queue [] b = append-nil b.queue
run-queue (o ∷ os) b =
    sym (append_assoc b.queue (accepted_by o b) (all_accepted os (step o b)))
    ∙ ap (λ q. q ++ all_accepted os (step o b)) (step-queue o b)
    ∙ append_assoc (delivered_by o b) (step o b).queue (all_accepted os (step o b))
    ∙ ap (◌++◌ (delivered_by o b)) (run-queue os (step o b))
    ∙ sym (append_assoc (delivered_by o b) (all_delivered os (step o b)) (run os (step o b)).queue)
