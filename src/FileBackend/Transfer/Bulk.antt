-- ===== src/FileBackend/Transfer/Bulk.antt =====
-- `bake_file_write_bulk` of src/bake-file-backend.c from its call to its end.
use native.Mathlib.Decide.{dec_lt}
use mathlib.Core.Option
use mochi_bake.Prelude.{
  ℕ, zero, suc, ◌+◌, ◌^◌, ◌≤◌, ◌<◌, ◌≡◌, refl, ap, ◌∙◌, ◌⊎◌, ℤ, true, false, some, ltb, arith,
}
use mochi_bake.ReturnCode.{success}
use mochi_bake.Host.{Host}
use mochi_bake.Host.Disk.{Disk}
use mochi_bake.Host.Remote.{Remote}
use mochi_bake.FileBackend.{u64, FileRegion, Entry}
use mochi_bake.FileBackend.Align.{IsAlignment-pos}
use mochi_bake.FileBackend.Raw.{IsRegion}
use mochi_bake.FileBackend.Transfer.Setup.{start_xfer-IsFresh, start_xfer-front}
use mochi_bake.FileBackend.Transfer.{
  write, Xfer, xfer_loop, int_word, count_ults, start_xfer, Outcome, returns, outcome, run_xfer,
  transfer_data, file_write_bulk,
}
use mochi_bake.FileBackend.Transfer.Chunks.{IsXfer-status}
use mochi_bake.FileBackend.Transfer.Written.{xfer_loop-Wrote}

-- The threads of a transfer are counted, and there is one where there is work.
count_ults-total :
    (fuel i size step : ℕ)
    → 0 < step
    → size + step < 2 ^ 31
    → i < size + step
    → size + step ≤ i + fuel
    → (n : ℕ) × (count_ults fuel i size step ≡ some n) × (i < size → 0 < n)
unfolding count_ults
count_ults-total zero i size step p small low h = absurd (omega arith)
count_ults-total (suc fuel) i size step p small low h = elim (dec_lt i size) [
  | no done ↦
      let over : ltb i size ≡ false = ground arith in (0, rw over refl, λ b. absurd (done b))
  | yes more ↦
      let next : int_word (i + step) ≡ i + step = ground arith in
      let under : ltb i size ≡ true = ground arith in
      let (n, e, _) =
        count_ults-total fuel (i + step) size step p small (omega arith) (omega arith) in
      (
        suc n,
        rw under (
            ap (λ (t : ℕ). Option.map suc (count_ults fuel t size step)) next
            ∙ ap (Option.map suc) e),
        λ b. omega arith,
      )
]

-- A transfer is for writing, and begins without an error.
start_xfer-op :
    (entry : Entry) (frid : FileRegion) (n max : ℕ)
    → (start_xfer entry frid 0 0 n max write).op ≡ write
unfolding start_xfer
start_xfer-op entry frid n max = refl

start_xfer-ret :
    (entry : Entry) (frid : FileRegion) (n max : ℕ)
    → (start_xfer entry frid 0 0 n max write).ret ≡ success
unfolding start_xfer
start_xfer-ret entry frid n max = refl

module _ (host : Host) (disk : Disk host) (remote : Remote host) where
  open host use {World}
  open disk use {byte}
  open remote use {memory}

  run_xfer-runs :
      (fuel k : ℕ) (w w' : World) (x x' : Xfer)
      → 0 < k
      → xfer_loop host fuel w (record x { ults_active = k }) ≡ some (w', x')
      → x'.ret ≡ success
      → run_xfer host fuel (some k) w x ≡ returns success w'
  unfolding run_xfer
  run_xfer-runs fuel zero w w' x x' h e z = absurd (omega arith)
  run_xfer-runs fuel (suc k) w w' x x' h e z =
      let give : ℤ → Outcome host = λ t. returns t w' in ap (outcome host) e ∙ ap give z

  transfer_data-runs :
      (fuel k : ℕ) (entry : Entry) (w : World) (frid : FileRegion) (n max : ℕ) (end : Outcome host)
      → n ≤ frid.log_entry_size
      → n < 2 ^ 64
      → let x = start_xfer entry frid 0 0 n max write in
        count_ults fuel 0 x.log_entry_size max ≡ some k
        → run_xfer host fuel (some k) w x ≡ end
        → file_write_bulk host fuel entry w frid 0 n 0 max ≡ end
  unfolding file_write_bulk transfer_data start_xfer
  transfer_data-runs fuel k entry w frid n max end fits word counted run =
      let inside : ltb frid.log_entry_size (u64 (n + 0)) ≡ false = ground arith in
      rw inside (rw counted run)

  -- On a host whose disk and whose bulk transfers work, a bulk write of `n` bytes to a region, done by
  -- one thread, comes to its end with the code 0: the region then begins with the `n` bytes of the
  -- caller's memory, and no byte outside the region has changed. The buffers are at least a block, the
  -- extent and a buffer fit in an int, and the fuel is the region's size and that of a buffer.
  pub file_write_bulk-ok :
      (entry : Entry) (w : World) (frid : FileRegion) (n max fuel : ℕ)
      → IsRegion entry.log_alignment frid
      → 0 < n
      → n ≤ frid.log_entry_size
      → entry.log_alignment ≤ max
      → frid.log_entry_size + max < 2 ^ 31
      → frid.log_entry_size + max < fuel
      → (w' : World) × (file_write_bulk host fuel entry w frid 0 n 0 max ≡ returns success w')
        × ((i : ℕ) → i < n → byte w' (frid.log_entry_offset + i) ≡ memory w i)
        × ((p : ℕ)
            → (p < frid.log_entry_offset) ⊎ (frid.log_entry_offset + frid.log_entry_size ≤ p)
            → byte w' p ≡ byte w p)
  unfolding start_xfer
  file_write_bulk-ok entry w frid n max fuel r positive fits big small enough =
      let x = start_xfer entry frid 0 0 n max write in
      let (fresh, first, last, from, size, _, _, _, _, _) =
        start_xfer-IsFresh entry frid r 0 0 n max write (omega arith) (omega arith) big
          (omega arith) in
      let (aligned, at) =
        start_xfer-front entry frid r 0 0 n max write (omega arith) (omega arith) refl in
      let (k, counted, some_work) =
        count_ults-total fuel 0 x.log_entry_size max
          (omega (arith, big, IsAlignment-pos r.alignment)) (omega arith) (omega arith)
          (omega arith) in
      let work : 0 < k = some_work (omega (arith, fresh.valid.contained, fresh.valid.nonempty)) in
      let (w', x', runs, wrote) =
        xfer_loop-Wrote host disk remote fuel w (record x { ults_active = k })
          (IsXfer-status x x.log_retired x.ret k fresh.valid) (start_xfer-op entry frid n max)
          (start_xfer-ret entry frid n max) aligned (omega (arith, fresh.not_issued))
          (omega (arith, first, last, small)) in
      (
        w',
        transfer_data-runs fuel k entry w frid n max (returns success w') fits
            (omega (arith, r.in_range)) counted
            (run_xfer-runs fuel k w w' x x' work runs wrote.code),
        λ i h.
            ap (byte w') (omega (arith, at))
            ∙ wrote.bytes i (omega (arith, fresh.not_issued, fresh.valid.issued))
                (omega (arith, size))
            ∙ ap (memory w) (omega (arith, from)),
        λ p h. wrote.others p (ground (arith, first, last, at, h)),
      )
