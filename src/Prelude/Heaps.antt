-- ===== src/Prelude/Heaps.antt =====
-- Objects behind pointers: an address is a number below `next`, and a pointer never dangles.
use Prim.Native.Nat.{ℕ, ◌+◌}
use webtransport_h2_go.Prelude.Tests.{◌==◌, if◌then◌else◌}

pub record Heap {ℓ} (A : Type ℓ) : Type ℓ where
  pub next : ℕ
  pub cell : ℕ → A

module _ {ℓ} {A : Type ℓ} where
  abbrev pub update : (ℕ → A) → ℕ → A → ℕ → A
  update f a v b = if a == b then v else f b

  -- `&T{...}`
  abbrev pub alloc : A → Heap A → Heap A
  alloc v h = record { next = h.next + 1; cell = update h.cell h.next v }

  -- `*p = v`
  abbrev pub store : ℕ → A → Heap A → Heap A
  store a v h = record h { cell = update h.cell a v }
