-- ===== src/Buffer/Drain.antt =====
-- Reading a stream to its end, as `io.ReadAll` does.
use webtransport_h2_go.Prelude.{
  ℕ, zero, suc, ◌≤◌, ◌<◌, ◌≡◌, refl, ◌∙◌, ap, true, List, [], ◌∷◌, ◌++◌, length, Option, none, some,
  arith, append_assoc, append-nil, length-append, take, drop, take-append-drop,
}
use webtransport_h2_go.Buffer.{StreamReceiveBuffer, copied, ended, waits, read, outcome}

-- `io.ReadAll` with slices of at least one byte, on a buffer that nobody else writes to: the bytes read
-- up to the end of the stream; `none` where a read has to wait or the rounds run out. `chunk` gives the
-- free space of the slice, which the library chooses.
unfoldable pub read_to_end :
    ℕ → (ℕ → ℕ) → List ℕ → StreamReceiveBuffer → Option (List ℕ × StreamReceiveBuffer)
read_to_end zero chunk out b = none
read_to_end (suc fuel) chunk out b = elim (read (suc (chunk fuel)) b).1 [
  | copied p ↦ read_to_end fuel chunk (out ++ p) (read (suc (chunk fuel)) b).0
  | ended ↦ some (out, b)
  | waits ↦ none
]

pub drop_shrinks : (n x : ℕ) (xs : List ℕ) → length (drop (suc n) (x ∷ xs)) ≤ length xs
drop_shrinks n x xs =
    omega (arith, ap length (take-append-drop n xs), length-append (take n xs) (drop n xs))

outcome_ended :
    (n : ℕ) (xs : List ℕ) (b : StreamReceiveBuffer)
    → xs ≡ []
    → b.closed ≡ true
    → outcome xs n b ≡ (b, ended)
outcome_ended n [] b e c = ground arith
outcome_ended n (x ∷ xs) b e c = cc

pub read_ended :
    (n : ℕ) (b : StreamReceiveBuffer) → b.bytes ≡ [] → b.closed ≡ true → read n b ≡ (b, ended)
unfolding read
read_ended n b e c = outcome_ended n b.bytes b e c

pub read_copied :
    (n x : ℕ) (xs : List ℕ) (b : StreamReceiveBuffer)
    → b.bytes ≡ x ∷ xs
    → read n b ≡ (record b { bytes = drop n (x ∷ xs) }, copied (take n (x ∷ xs)))
unfolding read
read_copied n x xs b e = rw (e, outcome) refl

-- On a closed stream it ends after at most one round more than there are bytes, and returns exactly
-- the bytes that were buffered, whatever sizes the library reads in.
pub read_to_end-closed :
    (fuel : ℕ) (chunk : ℕ → ℕ) (out bytes : List ℕ) (b : StreamReceiveBuffer)
    → b.bytes ≡ bytes
    → b.closed ≡ true
    → length bytes < fuel
    → read_to_end fuel chunk out b ≡ some (out ++ bytes, record b { bytes = [] })
unfolding read_to_end
read_to_end-closed zero chunk out bytes b e c h = absurd (omega arith)
read_to_end-closed (suc fuel) chunk out [] b e c h =
    rw (read_ended (suc (chunk fuel)) b e c, append-nil, read_to_end) (ground (arith, e))
read_to_end-closed (suc fuel) chunk out (x ∷ xs) b e c h =
    let n = suc (chunk fuel) in
    let left = drop n (x ∷ xs) in
    rw (read_copied n x xs b e, read_to_end)
      (rw (read_copied n x xs b e) (
        read_to_end-closed fuel chunk (out ++ take n (x ∷ xs)) left (record b { bytes = left }) refl
          c (omega (arith, drop_shrinks (chunk fuel) x xs))
        ∙ ap (λ r. some (r, record b { bytes = [] }))
            (append_assoc out (take n (x ∷ xs)) left
              ∙ ap (◌++◌ out) (take-append-drop n (x ∷ xs)))))
