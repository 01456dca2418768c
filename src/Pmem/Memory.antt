-- ===== src/Pmem/Memory.antt =====
-- Persistent memory and bulk transfers that work: what libpmemobj and Margo promise of calls that
-- succeed.
use mochi_bake.Prelude.{
  ℕ, zero, suc, ◌+◌, ◌*◌, ◌/◌, ◌≤◌, ◌<◌, ◌≡◌, refl, ap, ◌∙◌, ◌⊎◌, pos, List, arith, length, get_or,
}
use mochi_bake.Host.Disk.{slice}
use mochi_bake.Backend.{Platform}
use mochi_bake.Pmem.{Pmemobj, word_bytes, word_value}

pub record Memory {platform : Platform} (pmem : Pmemobj platform) : Type 0 where
  pub byte : Platform.World platform → ℕ → ℕ
  pub load_bytes :
      (w : Platform.World platform) (a n : ℕ) → Pmemobj.load pmem w a n ≡ slice (byte w) a n
  pub store_byte :
      (w : Platform.World platform) (a : ℕ) (bytes : List ℕ) (i : ℕ)
      → i < length bytes
      → byte (Pmemobj.store pmem w a bytes) (a + i) ≡ get_or bytes i 0
  pub store_other :
      (w : Platform.World platform) (a : ℕ) (bytes : List ℕ) (p : ℕ)
      → (p < a) ⊎ (a + length bytes ≤ p)
      → byte (Pmemobj.store pmem w a bytes) p ≡ byte w p
  pub flush_byte :
      (w : Platform.World platform) (a n p : ℕ) → byte (Pmemobj.flush pmem w a n) p ≡ byte w p
  -- Where an object stands depends on no byte.
  pub direct-store :
      (w : Platform.World platform) (a : ℕ) (bytes : List ℕ) (oid : Pmemobj.Oid pmem)
      → Pmemobj.direct pmem (Pmemobj.store pmem w a bytes) oid ≡ Pmemobj.direct pmem w oid
  pub direct-flush :
      (w : Platform.World platform) (a n : ℕ) (oid : Pmemobj.Oid pmem)
      → Pmemobj.direct pmem (Pmemobj.flush pmem w a n) oid ≡ Pmemobj.direct pmem w oid

-- Transfers from one handle succeed, with the bytes of the memory behind it.
pub record Pulls {platform : Platform} (pmem : Pmemobj platform) (ctx : Platform.Context platform)
    (addr : Platform.Addr platform) (bulk : Platform.Bulk platform) : Type 0 where
  pub remote : ℕ → ℕ
  pub pull_ok :
      (w : Platform.World platform) (offset n : ℕ)
      → Pmemobj.bulk_pull pmem w addr bulk offset n ≡ (pos 0, slice remote offset n)
  pub create_ok : (w : Platform.World platform) (a n : ℕ) → Pmemobj.bulk_create pmem w a n ≡ pos 0
  pub pool_ok : (w : Platform.World platform) (n : ℕ) → Pmemobj.poolset_get pmem w ctx n ≡ pos 0

pub get_or-slice : (f : ℕ → ℕ) (o n i : ℕ) → i < n → get_or (slice f o n) i 0 ≡ f (o + i)
get_or-slice f o zero i h = absurd (omega arith)
get_or-slice f o (suc n) zero h = ap f (omega arith)
get_or-slice f o (suc n) (suc i) h = get_or-slice f (o + 1) n i (omega arith) ∙ ap f (omega arith)

-- The words below 256 ^ k, as they are written with `k` bytes.
abbrev pub word_limit : ℕ → ℕ
word_limit zero = 1
word_limit (suc k) = 256 * word_limit k

pub word_value-word_bytes : (k n : ℕ) → n < word_limit k → word_value (word_bytes k n) ≡ n
unfolding word_value word_bytes
word_value-word_bytes zero n h = omega arith
word_value-word_bytes (suc k) n h = omega (arith, word_value-word_bytes k (n / 256) (omega arith))

pub length-word_bytes : (k n : ℕ) → length (word_bytes k n) ≡ k
unfolding word_bytes
length-word_bytes zero n = refl
length-word_bytes (suc k) n = ap suc (length-word_bytes k (n / 256))
