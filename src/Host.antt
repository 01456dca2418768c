-- ===== src/Host.antt =====
-- What the file backend asks of the world around it: abt-io, `posix_memalign` and Margo's bulk
-- transfers. They are parameters; each takes the state of the world and returns the new one.
pub mod Disk
pub mod Remote
use mochi_bake.Prelude.{ℕ, ℤ, List}

pub record Host : Type 1 where
  pub World : Type 0
  -- `posix_memalign(&p, alignment, size)`: the code, and what stands in the fresh memory.
  pub memalign : World → ℕ → ℕ → ℤ × List ℕ
  -- `abt_io_pwrite(aid, fd, buf, count, offset)`, for the first `count` bytes of `buf`.
  pub pwrite : World → List ℕ → ℕ → ℤ × World
  -- `abt_io_pread(aid, fd, buf, count, offset)`: the code, and the bytes that `buf` then holds.
  pub pread : World → ℕ → ℕ → ℤ × List ℕ
  -- `abt_io_fdatasync(aid, fd)`.
  pub fdatasync : World → ℤ × World
  -- `abt_io_fallocate(aid, fd, FALLOC_FL_PUNCH_HOLE | FALLOC_FL_KEEP_SIZE, offset, len)`.
  pub punch_hole : World → ℕ → ℕ → ℤ × World
  -- `margo_bulk_poolset_get(poolset, size, &bulk)`: the code, and what stands in the buffer.
  pub poolset_get : World → ℕ → ℤ × List ℕ
  -- `margo_bulk_transfer(…, HG_BULK_PULL, remote offset, local, 0, size)`.
  pub bulk_pull : World → ℕ → ℕ → ℤ × List ℕ
  -- `margo_bulk_transfer(…, HG_BULK_PUSH, remote offset, local, local offset, size)`, for the bytes
  -- that are sent.
  pub bulk_push : World → List ℕ → ℕ → ℤ × World
