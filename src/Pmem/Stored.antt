-- ===== src/Pmem/Stored.antt =====
-- What regions of src/bake-pmem-backend.c hold, and where their bounds check fails.
use mochi_bake.Prelude.{
  ℕ, ◌+◌, ◌-◌, ◌^◌, ◌≤◌, ◌<◌, ◌≡◌, refl, sym, ap, ◌∙◌, ◌⊎◌, inl, inr, pos, ℤ, Bool, true, false,
  some, List, [], ◌∷◌, arith, length, get_or, take, drop, ltb, if◌then◌else◌, min,
}
use mochi_bake.ReturnCode.{success, err_out_of_bounds}
use mochi_bake.Host.Disk.{slice, slice-list, slice-part}
use mochi_bake.FileBackend.{u64}
use mochi_bake.Backend.{Platform}
use mochi_bake.Pmem.{
  Pmemobj, word_bytes, word_value, header_size, region_size, content_size, pmem_write_raw,
  size_to_read, pmem_read_raw, pmem_create_write_persist_raw,
}
use mochi_bake.Pmem.Transfer.{write_transfer_data, pmem_create_write_persist_bulk}
use mochi_bake.Pmem.Memory.{Memory, word_value-word_bytes, length-word_bytes}

take-all : (xs : List ℕ) → take (length xs) xs ≡ xs
take-all [] = refl
take-all (x ∷ xs) = ap (λ (t : List ℕ). x ∷ t) (take-all xs)

not_less_zero : (n : ℕ) → ltb n 0 ≡ false
not_less_zero n = ground arith

module _ {platform : Platform} (pmem : Pmemobj platform) (mem : Memory pmem) where
  open platform use {World, Context}
  open pmem use {Oid, direct, store, flush, load}
  open mem use {byte}

  -- A header that has been written gives the size back.
  header-size :
      (sizecheck : Bool) (w : World) (region size : ℕ)
      → size < 2 ^ 64
      → ((i : ℕ) → i < 8 → byte w (region + i) ≡ get_or (word_bytes 8 size) i 0)
      → region_size pmem sizecheck w region ≡ size
  unfolding region_size
  header-size sizecheck w region size small h =
      let len = length-word_bytes 8 size in
      let bytes =
        slice-list (byte w) region (word_bytes 8 size) (λ i hi. h i (omega (arith, len))) in
      rw (mem.load_bytes w region 8) (
        ap word_value (ap (slice (byte w) region) (sym len) ∙ bytes)
        ∙ word_value-word_bytes 8 size (omega arith))

  -- The state that `bake_pmem_create_write_persist_raw` leaves.
  abbrev headed : Bool → World → ℕ → ℕ → World
  headed sizecheck w region size = if sizecheck then store w region (word_bytes 8 size) else w

  abbrev stored : Bool → World → ℕ → List ℕ → World
  stored sizecheck w region bytes =
      flush
        (store (headed sizecheck w region (length bytes)) (region + header_size sizecheck)
          (take (length bytes) bytes))
        region (content_size pmem sizecheck (length bytes))

  stored-bytes :
      (sizecheck : Bool) (w : World) (region : ℕ) (bytes : List ℕ) (i : ℕ)
      → i < length bytes
      → byte (stored sizecheck w region bytes) (region + header_size sizecheck + i)
        ≡ get_or bytes i 0
  stored-bytes sizecheck w region bytes i h =
      mem.flush_byte _ _ _ _
      ∙ rw (take-all bytes) (
          mem.store_byte (headed sizecheck w region (length bytes)) (region + header_size sizecheck)
            bytes i h)

  stored-header :
      (w : World) (region : ℕ) (bytes : List ℕ)
      → length bytes < 2 ^ 64
      → region_size pmem true (stored true w region bytes) region ≡ length bytes
  stored-header w region bytes small =
      header-size true (stored true w region bytes) region (length bytes) small (λ i h.
        mem.flush_byte _ _ _ _
        ∙ mem.store_other _ (region + 8) (take (length bytes) bytes) (region + i)
            (inl (omega arith))
        ∙ mem.store_byte w region (word_bytes 8 (length bytes)) i
            (omega (arith, length-word_bytes 8 (length bytes))))

  stored-direct :
      (sizecheck : Bool) (w : World) (region : ℕ) (bytes : List ℕ) (oid : Oid)
      → direct (stored sizecheck w region bytes) oid ≡ direct w oid
  stored-direct true w region bytes oid =
      mem.direct-flush _ _ _ oid ∙ mem.direct-store _ _ _ oid ∙ mem.direct-store _ _ _ oid
  stored-direct false w region bytes oid = mem.direct-flush _ _ _ oid ∙ mem.direct-store _ _ _ oid

  -- What a read delivers of a region of `len` bytes.
  size_to_read-min :
      (sizecheck : Bool) (w : World) (region len offset n : ℕ)
      → (sizecheck ≡ true → region_size pmem sizecheck w region ≡ len)
      → (sizecheck ≡ true) ⊎ (offset + n ≤ len)
      → offset ≤ len
      → len < 2 ^ 64
      → offset + n < 2 ^ 64
      → size_to_read pmem sizecheck w region offset n ≡ some (min n (len - offset))
  unfolding size_to_read
  size_to_read-min true w region len offset n size fits low small word = ground (arith, size refl)
  size_to_read-min false w region len offset n size (inl h) low small word = cc
  size_to_read-min false w region len offset n size (inr h) low small word =
      ap (λ (k : ℕ). some k) (omega arith)

  stored-size :
      (sizecheck : Bool) (w : World) (region : ℕ) (bytes : List ℕ)
      → length bytes < 2 ^ 64
      → sizecheck ≡ true
      → region_size pmem sizecheck (stored sizecheck w region bytes) region ≡ length bytes
  stored-size true w region bytes small e = stored-header w region bytes small
  stored-size false w region bytes small e = cc

  made-stored :
      (sizecheck : Bool) (w : World) (ctx : Context) (bytes : List ℕ) (oid : Oid) (w₁ : World)
      (region : ℕ)
      → pmem.alloc w ctx (content_size pmem sizecheck (length bytes)) ≡ (pos 0, oid, w₁)
      → direct w₁ oid ≡ some region
      → pmem_create_write_persist_raw pmem sizecheck w ctx bytes (length bytes)
        ≡ (success, oid, stored sizecheck w₁ region bytes)
  unfolding pmem_create_write_persist_raw
  made-stored sizecheck w ctx bytes oid w₁ region made found =
      rw (pmem_create_write_persist_raw, made) (rw found refl)

  wrapped_write :
      (w : World) (oid : Oid) (region : ℕ) (bytes : List ℕ)
      → direct w oid ≡ some region
      → region + 8 < 2 ^ 64
      → length bytes ≡ 8
      → pmem_write_raw pmem true w oid (2 ^ 64 - 8) 8 bytes ≡ (success, store w region bytes)
  unfolding pmem_write_raw
  wrapped_write w oid region bytes found low len =
      let address : u64 (region + 8 + (2 ^ 64 - 8)) ≡ region = omega arith in
      let whole : take 8 bytes ≡ bytes = ap (λ (k : ℕ). take k bytes) (sym len) ∙ take-all bytes in
      rw (pmem_write_raw, found)
        (rw (not_less_zero (region_size pmem true w region)) (rw (address, whole) refl))

  read_header :
      (w : World) (region : ℕ) (bytes : List ℕ)
      → length bytes ≡ 8
      → region_size pmem true (store w region bytes) region ≡ word_value bytes
  unfolding region_size
  read_header w region bytes len = rw (mem.load_bytes (store w region bytes) region 8) (
      ap word_value (
        ap (slice (byte (store w region bytes)) region) (sym len)
        ∙ slice-list (byte (store w region bytes)) region bytes
            (λ i h. mem.store_byte w region bytes i h)))

  reads :
      (sizecheck : Bool) (w : World) (oid : Oid) (region offset n k : ℕ) (bytes : List ℕ)
      → direct w oid ≡ some region
      → size_to_read pmem sizecheck w region offset n ≡ some k
      → ((i : ℕ)
          → i < length bytes
          → byte w (region + header_size sizecheck + i) ≡ get_or bytes i 0)
      → offset + k ≤ length bytes
      → region + header_size sizecheck + length bytes < 2 ^ 64
      → pmem_read_raw pmem sizecheck w oid offset n
        ≡ (success, some (take k (drop offset bytes), k))
  unfolding pmem_read_raw
  reads sizecheck w oid region offset n k bytes found size holds part fits =
      let start = region + header_size sizecheck in
      let address : u64 (start + offset) ≡ start + offset = omega arith in
      let got =
        mem.load_bytes w (start + offset) k ∙ slice-part (byte w) start bytes offset k holds part in
      rw (pmem_read_raw, found) (rw size (rw (address, got) refl))

  -- A region that `bake_pmem_create_write_persist_raw` makes reads back with `bake_pmem_read_raw`, from
  -- any offset in it: with a size header as many bytes as were asked for or as there are left, and
  -- without one as many as were asked for, which then must lie in the region.
  pub pmem_read_raw-create_write_persist_raw :
      (sizecheck : Bool) (w : World) (ctx : Context) (bytes : List ℕ) (oid : Oid) (w₁ : World)
      (region offset n : ℕ)
      → pmem.alloc w ctx (content_size pmem sizecheck (length bytes)) ≡ (pos 0, oid, w₁)
      → direct w₁ oid ≡ some region
      → region + header_size sizecheck + length bytes < 2 ^ 64
      → offset ≤ length bytes
      → offset + n < 2 ^ 64
      → (sizecheck ≡ true) ⊎ (offset + n ≤ length bytes)
      → (w' : World) × (pmem_create_write_persist_raw pmem sizecheck w ctx bytes (length bytes)
          ≡ (success, oid, w'))
        × (pmem_read_raw pmem sizecheck w' oid offset n ≡ (
          success,
          some (
            take (min n (length bytes - offset)) (drop offset bytes),
            min n (length bytes - offset),
          ),
        ))
  pmem_read_raw-create_write_persist_raw sizecheck w ctx bytes oid w₁ region offset n made found
        fits low word inside =
      let len = length bytes in
      let w' = stored sizecheck w₁ region bytes in
      let header = stored-size sizecheck w₁ region bytes (omega arith) in
      let size =
        size_to_read-min sizecheck w' region len offset n header inside low (omega arith) word in
      (
        w',
        made-stored sizecheck w ctx bytes oid w₁ region made found,
        reads sizecheck w' oid region offset n (min n (len - offset)) bytes
            (stored-direct sizecheck w₁ region bytes oid ∙ found) size
            (stored-bytes sizecheck w₁ region bytes) (omega arith) fits,
      )

  -- With a size header the check of `bake_pmem_write_raw` adds in 64 bits and can be passed from
  -- outside: eight bytes written at the offset `2 ^ 64 - 8` are taken, and are then the size of the
  -- region.
  pub pmem_write_raw-header :
      (w : World) (oid : Oid) (region : ℕ) (bytes : List ℕ)
      → direct w oid ≡ some region
      → region + 8 < 2 ^ 64
      → length bytes ≡ 8
      → ((pmem_write_raw pmem true w oid (2 ^ 64 - 8) 8 bytes).0 ≡ success)
        × (region_size pmem true (pmem_write_raw pmem true w oid (2 ^ 64 - 8) 8 bytes).1 region
            ≡ word_value bytes)
  pmem_write_raw-header w oid region bytes found low len =
      let wrote = wrapped_write w oid region bytes found low len in
      (
        ap (λ (r : ℤ × World). r.0) wrote,
        ap (λ (r : ℤ × World). region_size pmem true r.1 region) wrote
            ∙ read_header w region bytes len,
      )

  out_of_bounds :
      (fuel : ℕ) (w : World) (ctx : Context) (oid : Oid) (bulk : Platform.Bulk platform)
      (addr : Platform.Addr platform) (bulk_offset size region : ℕ)
      → direct w oid ≡ some region
      → ltb (region_size pmem true w region) (u64 (0 + size)) ≡ true
      → write_transfer_data pmem true fuel w ctx oid 0 bulk bulk_offset size addr
        ≡ some (err_out_of_bounds, w)
  unfolding write_transfer_data
  out_of_bounds fuel w ctx oid bulk addr bulk_offset size region found checked =
      rw (write_transfer_data, found) (rw checked refl)

  -- With a size header `bake_pmem_create_write_persist_bulk` reports success without a byte written
  -- or persisted where the fresh memory happens to start with a number that is less than the size:
  -- `write_transfer_data` checks the bounds before the header is written, and its code is dropped.
  pub pmem_create_write_persist_bulk-lost :
      (fuel : ℕ) (w : World) (ctx : Context) (bulk : Platform.Bulk platform)
      (addr : Platform.Addr platform) (bulk_offset size : ℕ) (oid : Oid) (w₁ : World) (region : ℕ)
      → pmem.alloc w ctx (content_size pmem true size) ≡ (pos 0, oid, w₁)
      → direct w₁ oid ≡ some region
      → region_size pmem true w₁ region < size
      → size < 2 ^ 64
      → pmem_create_write_persist_bulk pmem true fuel w ctx bulk addr bulk_offset size
        ≡ some (success, oid, w₁)
  unfolding pmem_create_write_persist_bulk
  pmem_create_write_persist_bulk-lost fuel w ctx bulk addr bulk_offset size oid w₁ region made found
        less small =
      let checked : ltb (region_size pmem true w₁ region) (u64 (0 + size)) ≡ true = ground arith in
      let refused : write_transfer_data pmem true fuel w₁ ctx oid 0 bulk bulk_offset size addr
          ≡ some (err_out_of_bounds, w₁) =
        out_of_bounds fuel w₁ ctx oid bulk addr bulk_offset size region found checked in
      rw (pmem_create_write_persist_bulk, made) (rw refused refl)
