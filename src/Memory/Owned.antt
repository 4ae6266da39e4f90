-- ===== src/Memory/Owned.antt =====
-- Who may hold a page, in pkg/stam/vm.c and pkg/stam/mmu.c: what isolates programs from one another.
use verkos.Prelude.{ℕ, ◌≤◌, ◌<◌, ◌≡◌}
use verkos.Memory.Frames.{Frames, page_count}
use verkos.Memory.Pool.{avail}

-- `uses n` entries of all spaces together map the page `n`, and `writes n` of them let it be written.
-- A page is on offer at most once and then mapped nowhere; it has at least as many holders as
-- entries; and where an entry may write it, there is no other.
pub record Owned (fr : Frames) (uses writes : ℕ → ℕ) : Type 0 where
  pub once : (n : ℕ) → avail n fr ≤ 1
  pub unused : (n : ℕ) → 0 < avail n fr → uses n ≡ 0
  pub held : (n : ℕ) → uses n ≤ page_count n fr
  pub alone : (n : ℕ) → 0 < writes n → uses n ≤ 1
