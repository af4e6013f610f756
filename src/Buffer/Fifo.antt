-- ===== src/Buffer/Fifo.antt =====
-- The buffer as a bounded pipe of bytes.
use webtransport_h2_go.Prelude.{
  ℕ, ◌+◌, ◌≤◌, ◌≡◌, ◌⊎◌, refl, sym, ◌∙◌, ap, true, false, List, [], ◌∷◌, ◌++◌, length, arith,
  append_assoc, append-nil, length-append, take, drop, take-append-drop,
}
use webtransport_h2_go.Errors.{Result, ok, err, closed_pipe, stream_receive_buffer_full}
use webtransport_h2_go.Buffer.{
  StreamReceiveBuffer, Outcome, copied, ended, waits, exceeds, write, read, close, outcome,
}

-- The buffered bytes stay within a positive `maxBytes`.
abbrev pub IsBounded : StreamReceiveBuffer → Type 0
IsBounded b = exceeds b.max_bytes (length b.bytes) ≡ false

pub data Op : Type 0 where
  writes : List ℕ → Op
  reads : ℕ → Op
  closes : Op

abbrev pub step : Op → StreamReceiveBuffer → StreamReceiveBuffer
step (writes p) b = (write p b).0
step (reads n) b = (read n b).0
step closes b = close b

unfoldable pub run : List Op → StreamReceiveBuffer → StreamReceiveBuffer
run [] b = b
run (o ∷ os) b = run os (step o b)

abbrev when_ok : Result ℕ → List ℕ → List ℕ
when_ok (ok n) p = p
when_ok (err e) p = []

abbrev accepted_by : Op → StreamReceiveBuffer → List ℕ
accepted_by (writes p) b = when_ok (write p b).1 p
accepted_by (reads n) b = []
accepted_by closes b = []

abbrev pub bytes_copied : Outcome → List ℕ
bytes_copied (copied p) = p
bytes_copied ended = []
bytes_copied waits = []

abbrev delivered_by : Op → StreamReceiveBuffer → List ℕ
delivered_by (writes p) b = []
delivered_by (reads n) b = bytes_copied (read n b).1
delivered_by closes b = []

unfoldable pub all_accepted : List Op → StreamReceiveBuffer → List ℕ
all_accepted [] b = []
all_accepted (o ∷ os) b = accepted_by o b ++ all_accepted os (step o b)

unfoldable pub all_delivered : List Op → StreamReceiveBuffer → List ℕ
all_delivered [] b = []
all_delivered (o ∷ os) b = delivered_by o b ++ all_delivered os (step o b)

length-drop-le : (n : ℕ) (xs : List ℕ) → length (drop n xs) ≤ length xs
length-drop-le n xs =
    omega (arith, ap length (take-append-drop n xs), length-append (take n xs) (drop n xs))

outcome-IsBounded :
    (n : ℕ) (xs : List ℕ) (b : StreamReceiveBuffer)
    → b.bytes ≡ xs
    → IsBounded b
    → IsBounded (outcome xs n b).0
outcome-IsBounded n [] b e v = ground arith
outcome-IsBounded n (x ∷ xs) b e v = ground (arith, length-drop-le n (x ∷ xs), e)

pub step-IsBounded : (o : Op) (b : StreamReceiveBuffer) → IsBounded b → IsBounded (step o b)
unfolding write read close
step-IsBounded (writes p) b v = ground (arith, length-append b.bytes p)
step-IsBounded (reads n) b v = outcome-IsBounded n b.bytes b refl v
step-IsBounded closes b v = v

-- A write takes all its bytes or none. It fails exactly on a closed buffer, and on an open one that has
-- no room for all of them, and the error says which.
pub write_cases :
    (p : List ℕ) (b : StreamReceiveBuffer)
    → ((b.closed ≡ true) × (write p b ≡ (b, err closed_pipe)))
      ⊎ ((b.closed ≡ false)
          × (exceeds b.max_bytes (length b.bytes + length p) ≡ true)
          × (write p b ≡ (b, err stream_receive_buffer_full)))
      ⊎ ((b.closed ≡ false)
          × (exceeds b.max_bytes (length b.bytes + length p) ≡ false)
          × (write p b ≡ (record b { bytes = b.bytes ++ p }, ok (length p))))
unfolding write
write_cases p b = ground arith

outcome-bytes :
    (n : ℕ) (xs : List ℕ) (b : StreamReceiveBuffer)
    → b.bytes ≡ xs
    → b.bytes ≡ bytes_copied (outcome xs n b).1 ++ (outcome xs n b).0.bytes
outcome-bytes n [] b e = ground arith
outcome-bytes n (x ∷ xs) b e = e ∙ sym (take-append-drop n (x ∷ xs))

-- A read splits the buffered bytes into those that it returns and those that stay.
pub read-bytes :
    (n : ℕ) (b : StreamReceiveBuffer) → b.bytes ≡ bytes_copied (read n b).1 ++ (read n b).0.bytes
unfolding read
read-bytes n b = outcome-bytes n b.bytes b refl

step-bytes :
    (o : Op) (b : StreamReceiveBuffer)
    → b.bytes ++ accepted_by o b ≡ delivered_by o b ++ (step o b).bytes
unfolding write read close
step-bytes (writes p) b = ground (arith, append-nil b.bytes)
step-bytes (reads n) b = rw append-nil (read-bytes n b)
step-bytes closes b = append-nil b.bytes

-- Over any sequence of operations, the bytes read and the bytes still buffered are those buffered at the
-- start and those accepted since, in this order.
pub run-bytes :
    (os : List Op) (b : StreamReceiveBuffer)
    → b.bytes ++ all_accepted os b ≡ all_delivered os b ++ (run os b).bytes
unfolding run all_accepted all_delivered
run-bytes [] b = append-nil b.bytes
run-bytes (o ∷ os) b =
    sym (append_assoc b.bytes (accepted_by o b) (all_accepted os (step o b)))
    ∙ ap (λ q. q ++ all_accepted os (step o b)) (step-bytes o b)
    ∙ append_assoc (delivered_by o b) (step o b).bytes (all_accepted os (step o b))
    ∙ ap (◌++◌ (delivered_by o b)) (run-bytes os (step o b))
    ∙ sym (append_assoc (delivered_by o b) (all_delivered os (step o b)) (run os (step o b)).bytes)
