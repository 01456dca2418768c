-- ===== src/Host/Disk.antt =====
-- A host whose disk works: what POSIX promises of complete reads and writes of a regular file.
use mochi_bake.Prelude.{
  ℕ, zero, suc, ◌+◌, ◌-◌, ◌^◌, ◌≤◌, ◌<◌, ◌≡◌, refl, ap, ◌∙◌, sym, pos, List, [], ◌∷◌, arith, length,
  get_or, take, drop, max, ◌⊎◌,
}
use mochi_bake.Host.{Host}

-- The `n` bytes of a file from `offset`.
abbrev pub slice : (ℕ → ℕ) → ℕ → ℕ → List ℕ
slice f offset zero = []
slice f offset (suc n) = f offset ∷ slice f (offset + 1) n

-- The most bytes that one `pwrite` or `pread` transfers on Linux.
abbrev pub max_count : ℕ
max_count = 2 ^ 31 - 4096

pub record Disk (host : Host) : Type 0 where
  pub byte : Host.World host → ℕ → ℕ
  pub size : Host.World host → ℕ
  -- `posix_memalign` takes an alignment that is a power of two and a multiple of the size of a pointer,
  -- and there is memory for alignments and sizes below 2 GiB.
  pub memalign_ok :
      (w : Host.World host) (a k n : ℕ)
      → a ≡ 2 ^ k
      → 8 ≤ a
      → a < 2 ^ 31
      → n < 2 ^ 31
      → (Host.memalign host w a n).0 ≡ pos 0
  pub memalign_length : (w : Host.World host) (a n : ℕ) → length (Host.memalign host w a n).1 ≡ n
  -- A write of no more bytes than one call transfers, below the largest `off_t`, is complete, stores
  -- the bytes, and touches no other.
  pub pwrite_ret :
      (w : Host.World host) (bytes : List ℕ) (offset : ℕ)
      → length bytes ≤ max_count
      → offset + length bytes < 2 ^ 63
      → (Host.pwrite host w bytes offset).0 ≡ pos (length bytes)
  pub pwrite_byte :
      (w : Host.World host) (bytes : List ℕ) (offset i : ℕ)
      → length bytes ≤ max_count
      → offset + length bytes < 2 ^ 63
      → i < length bytes
      → byte (Host.pwrite host w bytes offset).1 (offset + i) ≡ get_or bytes i 0
  pub pwrite_other :
      (w : Host.World host) (bytes : List ℕ) (offset p : ℕ)
      → length bytes ≤ max_count
      → offset + length bytes < 2 ^ 63
      → (p < offset) ⊎ (offset + length bytes ≤ p)
      → byte (Host.pwrite host w bytes offset).1 p ≡ byte w p
  pub pwrite_size :
      (w : Host.World host) (bytes : List ℕ) (offset : ℕ)
      → length bytes ≤ max_count
      → offset + length bytes < 2 ^ 63
      → 0 < length bytes
      → size (Host.pwrite host w bytes offset).1 ≡ max (size w) (offset + length bytes)
  -- So is a read inside the file.
  pub pread_ret :
      (w : Host.World host) (n offset : ℕ)
      → n ≤ max_count
      → offset + n ≤ size w
      → (Host.pread host w n offset).0 ≡ pos n
  pub pread_bytes :
      (w : Host.World host) (n offset : ℕ)
      → n ≤ max_count
      → offset + n ≤ size w
      → (Host.pread host w n offset).1 ≡ slice (byte w) offset n
  pub sync_ret : (w : Host.World host) → (Host.fdatasync host w).0 ≡ pos 0
  pub sync_byte : (w : Host.World host) (p : ℕ) → byte (Host.fdatasync host w).1 p ≡ byte w p
  pub sync_size : (w : Host.World host) → size (Host.fdatasync host w).1 ≡ size w

pub length-slice : (f : ℕ → ℕ) (o n : ℕ) → length (slice f o n) ≡ n
length-slice f o zero = refl
length-slice f o (suc n) = ap suc (length-slice f (o + 1) n)

pub drop-slice : (f : ℕ → ℕ) (o k n : ℕ) → k ≤ n → drop k (slice f o n) ≡ slice f (o + k) (n - k)
drop-slice f o zero n h = ground arith
drop-slice f o (suc k) zero h = absurd (omega arith)
drop-slice f o (suc k) (suc n) h = ground (arith, drop-slice f (o + 1) k n)

pub take-slice : (f : ℕ → ℕ) (o k n : ℕ) → k ≤ n → take k (slice f o n) ≡ slice f o k
take-slice f o zero n h = refl
take-slice f o (suc k) zero h = absurd (omega arith)
take-slice f o (suc k) (suc n) h =
    ap (λ (t : List ℕ). f o ∷ t) (take-slice f (o + 1) k n (omega arith))

-- A range of a file that holds a list holds the list's slice.
pub slice-list :
    (f : ℕ → ℕ) (o : ℕ) (xs : List ℕ)
    → ((i : ℕ) → i < length xs → f (o + i) ≡ get_or xs i 0)
    → slice f o (length xs) ≡ xs
slice-list f o [] h = refl
slice-list f o (x ∷ xs) h =
    ap (λ (t : ℕ). t ∷ slice f (o + 1) (length xs)) (ap f (omega arith) ∙ h 0 (omega arith))
    ∙ ap (λ (t : List ℕ). x ∷ t)
        (slice-list f (o + 1) xs (λ i hi. ap f (omega arith) ∙ h (suc i) (omega arith)))

-- So a part of the range holds the part of the list.
pub slice-part :
    (f : ℕ → ℕ) (o : ℕ) (xs : List ℕ) (k n : ℕ)
    → ((i : ℕ) → i < length xs → f (o + i) ≡ get_or xs i 0)
    → k + n ≤ length xs
    → slice f (o + k) n ≡ take n (drop k xs)
slice-part f o xs k n h fits =
    sym (take-slice f (o + k) n (length xs - k) (omega arith))
    ∙ ap (take n) (sym (drop-slice f o k (length xs) (omega arith)))
    ∙ ap (λ (t : List ℕ). take n (drop k t)) (slice-list f o xs h)
