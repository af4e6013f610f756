-- ===== src/Datagram/TwoReaders.antt =====
-- Two goroutines in `read` on one buffer: the channel holds one token only, so `close` wakes one.
use webtransport_h2_go.Prelude.{ℕ, ◌≡◌, ◌≢◌, refl, sym, ap, true, false, List, [], ◌∷◌, arith}
use webtransport_h2_go.Errors.{err, eof, context_done}
use webtransport_h2_go.Datagram.{DatagramReceiveBuffer, ended, write, read, close, attempt}
use webtransport_h2_go.Datagram.Wakeup.{
  Reader, trying, waiting, returned, after, Move, tries, wakes, cancelled, calls, Change, writes,
  closes,
}

pub record Two : Type 0 where
  pub buffer : DatagramReceiveBuffer
  pub first : Reader
  pub second : Reader

-- The steps in which nobody's context ends.
pub data Step (s t : Two) : Type 0 where
  moves_first :
      Move s.buffer s.first t.buffer t.first
      → t.first ≢ returned (err context_done)
      → t.second ≡ s.second
      → Step s t
  moves_second :
      Move s.buffer s.second t.buffer t.second
      → t.second ≢ returned (err context_done)
      → t.first ≡ s.first
      → Step s t
  changes : Change s.buffer t.buffer → t.first ≡ s.first → t.second ≡ s.second → Step s t

pub data Reach (s : Two) : Two → Type 0 where
  here : Reach s s
  next : {t u : Two} → Reach s t → Step t u → Reach s u

-- Closed, and the only token is gone.
pub record IsSilent (s : Two) : Type 0 where
  pub shut : s.buffer.closed ≡ true
  pub no_token : s.buffer.notify ≡ false
  pub left : s.second ≡ waiting

read_keeps :
    (q : List (List ℕ)) (b : DatagramReceiveBuffer)
    → ((attempt q b).0.closed ≡ b.closed) × ((attempt q b).0.notify ≡ b.notify)
read_keeps [] b = ground arith
read_keeps (p ∷ rest) b = (refl, refl)

first-IsSilent :
    (s t : Two)
    → Move s.buffer s.first t.buffer t.first
    → t.second ≡ s.second
    → IsSilent s
    → IsSilent t
unfolding read
first-IsSilent s t (tries e f g) h i =
    ground (arith, i.shut, i.no_token, i.left, read_keeps s.buffer.queue s.buffer)
first-IsSilent s t (wakes e n f g) h i = ground (arith, i.shut, i.no_token, i.left)
first-IsSilent s t (cancelled e f g) h i = ground (arith, i.shut, i.no_token, i.left)
first-IsSilent s t (calls o e f g) h i = ground (arith, i.shut, i.no_token, i.left)

second-IsSilent :
    (s t : Two)
    → Move s.buffer s.second t.buffer t.second
    → t.second ≢ returned (err context_done)
    → IsSilent s
    → IsSilent t
second-IsSilent s t (tries e f g) h i = ground (arith, i.left)
second-IsSilent s t (wakes e n f g) h i = ground (arith, i.no_token)
second-IsSilent s t (cancelled e f g) h i = absurd (h g)
second-IsSilent s t (calls o e f g) h i = ground (arith, i.left)

Change-IsSilent :
    (s t : Two) → Change s.buffer t.buffer → t.second ≡ s.second → IsSilent s → IsSilent t
unfolding write close
Change-IsSilent s t (writes p e) h i = ground (arith, i.shut, i.no_token, i.left)
Change-IsSilent s t (closes e) h i = ground (arith, i.shut, i.no_token, i.left)

Step-IsSilent : (s t : Two) → Step s t → IsSilent s → IsSilent t
Step-IsSilent s t (moves_first m h e) i = first-IsSilent s t m e i
Step-IsSilent s t (moves_second m h e) i = second-IsSilent s t m h i
Step-IsSilent s t (changes c d e) i = Change-IsSilent s t c e i

Reach-IsSilent : (s t : Two) → Reach s t → IsSilent s → IsSilent t
Reach-IsSilent s t here i = i
Reach-IsSilent s t (next {t = u} r st) i = Step-IsSilent u t st (Reach-IsSilent s u r i)

attempt_ended :
    (q : List (List ℕ)) (b : DatagramReceiveBuffer)
    → q ≡ []
    → b.closed ≡ true
    → attempt q b ≡ (b, ended)
attempt_ended [] b e c = ground arith
attempt_ended (p ∷ rest) b e c = cc

read_ended : (b : DatagramReceiveBuffer) → b.queue ≡ [] → b.closed ≡ true → read b ≡ (b, ended)
unfolding read
read_ended b e c = attempt_ended b.queue b e c

-- Both readers wait on an open, empty buffer without a token; then the buffer is closed and the first
-- reader wakes. It gets io.EOF, and there is a state that is reached so from which the second reader
-- waits in every state that can follow, whatever the others do, unless its context ends.
pub close_wakes_one :
    (b : DatagramReceiveBuffer)
    → b.closed ≡ false
    → b.queue ≡ []
    → (t : Two) × Reach (record { buffer = b; first = waiting; second = waiting }) t
      × (t.first ≡ returned (err eof))
      × (t.buffer.closed ≡ true)
      × ((u : Two) → Reach t u → u.second ≡ waiting)
unfolding close
close_wakes_one b live empty = (
  last,
  next (next (next here (changes (closes refl) refl refl)) (moves_first woken (λ e. cc) refl))
      (moves_first returning (λ e. cc) refl),
  refl,
  ground (arith, live),
  λ u r. (Reach-IsSilent last u r silent).left,
)
  where
    cleared : DatagramReceiveBuffer
    cleared = record (close b) { notify = false }

    last : Two
    last = record { buffer = cleared; first = returned (err eof); second = waiting }

    ending : read cleared ≡ (cleared, ended)
    ending = read_ended cleared (ground (arith, empty)) (ground (arith, live))

    woken : Move (close b) waiting cleared trying
    woken = wakes refl (ground (arith, live)) refl refl

    returning : Move cleared trying cleared (returned (err eof))
    returning = tries refl (sym (ap (λ p. p.0) ending)) (sym (ap (λ p. after p.1) ending))

    silent : IsSilent last
    silent = record { shut = ground (arith, live); no_token = refl; left = refl }
