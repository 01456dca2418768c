-- ===== src/Host/Remote.antt =====
-- A host whose bulk transfers work: what Margo promises of transfers that succeed, and of buffers.
use mochi_bake.Prelude.{ℕ, ◌≡◌, pos, length, List}
use mochi_bake.Host.{Host}
use mochi_bake.Host.Disk.{slice}

pub record Remote (host : Host) : Type 0 where
  -- the memory behind the caller's bulk handle
  pub memory : Host.World host → ℕ → ℕ
  pub pool_ok : (w : Host.World host) (n : ℕ) → (Host.poolset_get host w n).0 ≡ pos 0
  pub pool_length : (w : Host.World host) (n : ℕ) → length (Host.poolset_get host w n).1 ≡ n
  pub pull_ok :
      (w : Host.World host) (offset n : ℕ)
      → Host.bulk_pull host w offset n ≡ (pos 0, slice (memory w) offset n)
  -- A write to the log leaves the caller's memory alone.
  pub memory-pwrite :
      (w : Host.World host) (bytes : List ℕ) (offset p : ℕ)
      → memory (Host.pwrite host w bytes offset).1 p ≡ memory w p
