-- ===== src/FileBackend/Race.antt =====
-- Two creations on one target. `bake_file_create` reads `entry->log_offset` once more after it has
-- left the section under the mutex, so another creation can come in between.
use mochi_bake.Prelude.{ℕ, ◌+◌, ◌^◌, ◌≤◌, ◌<◌, ◌≡◌, ap, ◌∙◌, List, arith, length, get_or}
use mochi_bake.ReturnCode.{success}
use mochi_bake.Host.{Host}
use mochi_bake.Host.Disk.{Disk}
use mochi_bake.FileBackend.{Entry, align_up, reserve, extend_log, file_write_raw}
use mochi_bake.FileBackend.Align.{align_up-lt, align_up-block, align_up-multiple}
use mochi_bake.FileBackend.Layout.{IsAligned, reserve-log_offset, reserve-IsAligned}
use mochi_bake.FileBackend.Create.{extend_log-ok}
use mochi_bake.FileBackend.Raw.{IsRegion, block_count, file_write_raw-ok}

module _ (host : Host) (disk : Disk host) where
  open host use {World, memalign}
  open disk use {byte}

  -- A first creation, of positive size, stops behind the section; a second one, of at most one block,
  -- runs to its end, and its region is filled with an eager write; then the first goes on. On a disk
  -- that works, and with an alignment of at least the size of a pointer, both creations and the write
  -- report success, and the region of the second holds what the fresh memory of the first happened to
  -- hold.
  pub create_race :
      (entry : Entry) (w : World) (first second : ℕ) (bytes : List ℕ)
      → IsAligned entry
      → 8 ≤ entry.log_alignment
      → 0 < first
      → 0 < second
      → second ≤ entry.log_alignment
      → 0 < length bytes
      → length bytes ≤ second
      → entry.log_offset
          + (first + (second + (entry.log_alignment + (entry.log_alignment + entry.log_alignment))))
        < 2 ^ 63
      → let a = entry.log_alignment in
        let (frid, entry₂) = reserve (reserve entry first).1 second in
        let (ret₁, w₁) = extend_log host entry₂ w in
        let (ret₂, w₂) = file_write_raw host entry₂ w₁ frid 0 (length bytes) bytes in
        let (ret₃, w₃) = extend_log host entry₂ w₂ in
        (ret₁ ≡ success)
        × (ret₂ ≡ success)
        × (ret₃ ≡ success)
        × ((i : ℕ) → i < length bytes → byte w₂ (frid.log_entry_offset + i) ≡ get_or bytes i 0)
        × ((i : ℕ) → i < a → byte w₃ (frid.log_entry_offset + i) ≡ get_or (memalign w₂ a a).1 i 0)
  unfolding reserve
  create_race entry w first second bytes v wide p1 p2 small p3 fits room =
      let a = entry.log_alignment in
      let al = v.alignment in
      let entry₁ = (reserve entry first).1 in
      let e₁ = reserve-log_offset entry first v (omega arith) in
      let up = align_up-lt al first (omega arith) in
      let v₁ = reserve-IsAligned entry first v (omega arith) in
      let one : align_up second a ≡ a =
        ap (λ (t : ℕ). align_up t a) (omega arith)
        ∙ align_up-block al 0 second (omega arith) (omega arith) p2 small
        ∙ omega arith in
      let entry₂ = (reserve entry₁ second).1 in
      let frid = (reserve entry₁ second).0 in
      let e₂ = reserve-log_offset entry₁ second v₁ (omega (arith, e₁)) in
      let v₂ = reserve-IsAligned entry₁ second v₁ (omega (arith, e₁)) in
      let w₁ = (extend_log host entry₂ w).1 in
      let (ret₁, _, _, _) =
        extend_log-ok host disk entry₂ w al (omega (arith, e₁, e₂, one))
          (omega (arith, e₁, e₂, one)) wide in
      let region : IsRegion a frid = record {
        alignment = al;
        offset_aligned = v₁.aligned;
        size_aligned = align_up-multiple al second (omega arith);
        in_range = omega (arith, e₁, one);
      } in
      let (ret₂, held, _, _) =
        file_write_raw-ok host disk entry₂ w₁ frid region wide bytes (omega (arith, one))
          (block_count al (length bytes) p3 (omega arith)) p3 (omega arith) in
      let w₂ = (file_write_raw host entry₂ w₁ frid 0 (length bytes) bytes).1 in
      let (ret₃, lost, _, _) =
        extend_log-ok host disk entry₂ w₂ al (omega (arith, e₁, e₂, one))
          (omega (arith, e₁, e₂, one)) wide in
      (ret₁, ret₂, ret₃, held, λ i h. ap (byte _) (omega (arith, e₁, e₂, one)) ∙ lost i h)
