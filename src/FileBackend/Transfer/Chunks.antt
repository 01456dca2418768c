-- ===== src/FileBackend/Transfer/Chunks.antt =====
-- The chunks that the threads of a transfer pull tile the log extent, and their transmissions tile
-- the remote range.
use mochi_bake.Prelude.{ℕ, ◌+◌, ◌-◌, ◌^◌, ◌≤◌, ◌<◌, ◌≡◌, refl, min, ◌⊎◌, inl, inr, arith, ℤ}
use mochi_bake.FileBackend.Transfer.{Xfer, chunk_size, chunk_skip, chunk_transmit, take_chunk}

-- A transfer whose range lies in its log extent and begins in the first chunk, on whatever round of
-- the loops.
pub record IsXfer (x : Xfer) : Type 0 where
  pub nonempty : 0 < x.transmit_size
  pub log_in_range : x.log_entry_offset + x.log_entry_size < 2 ^ 63
  pub remote_in_range : x.remote_offset + x.transmit_size < 2 ^ 63
  pub contained : x.transmit_offset_in_log + x.transmit_size ≤ x.log_entry_size
  pub first_chunk : x.transmit_offset_in_log < x.poolset_max_size
  pub pool_in_range : x.poolset_max_size < 2 ^ 63
  pub issued_le : x.log_issued ≤ x.log_entry_size
  pub skipped : (x.log_issued ≡ 0) ⊎ (x.transmit_offset_in_log < x.log_issued)
  pub issued : x.transmit_issued ≡ min x.transmit_size (x.log_issued - x.transmit_offset_in_log)

module _ (x : Xfer) (v : IsXfer x) (work : x.log_issued < x.log_entry_size) where
  open x use {
    remote_offset, log_entry_offset, log_entry_size, log_issued, transmit_size,
    transmit_offset_in_log, transmit_issued, poolset_max_size,
  }

  chunk_size-eq : chunk_size x ≡ min poolset_max_size (log_entry_size - log_issued)
  unfolding chunk_size
  chunk_size-eq = ground (arith, v.log_in_range, v.pool_in_range)

  chunk_skip-eq : chunk_skip x ≡ transmit_offset_in_log - log_issued
  unfolding chunk_skip
  chunk_skip-eq = ground (arith, v.nonempty, v.skipped, v.issued)

  chunk_transmit-eq :
      chunk_transmit x ≡ min (chunk_size x - chunk_skip x) (transmit_size - transmit_issued)
  unfolding chunk_transmit
  chunk_transmit-eq = ground (
    arith, chunk_size-eq, chunk_skip-eq, v.log_in_range, v.remote_in_range, v.contained,
    v.first_chunk, v.pool_in_range, v.skipped, v.issued,
  )

  -- The range of the transmission within the chunk.
  transmit_fits : chunk_skip x + chunk_transmit x ≤ chunk_size x
  transmit_fits = ground (
    arith, chunk_size-eq, chunk_skip-eq, chunk_transmit-eq, v.contained, v.first_chunk, v.nonempty,
  )

  issued_next :
      transmit_issued + chunk_transmit x
      ≡ min transmit_size (log_issued + chunk_size x - transmit_offset_in_log)
  issued_next = ground (
    arith, chunk_size-eq, chunk_skip-eq, chunk_transmit-eq, v.contained, v.first_chunk, v.nonempty,
    v.skipped, v.issued,
  )

  size_bounds : (0 < chunk_size x) × (log_issued + chunk_size x ≤ log_entry_size)
  size_bounds = ground (arith, chunk_size-eq, v.first_chunk)

  transmit_le : transmit_issued + chunk_transmit x ≤ transmit_size
  transmit_le = omega (arith, issued_next)

  matched :
      (chunk_transmit x ≡ 0)
      ⊎ (log_issued + chunk_skip x ≡ transmit_issued + transmit_offset_in_log)
  matched =
      ground
        (arith, chunk_size-eq, chunk_skip-eq, chunk_transmit-eq, v.contained, v.skipped, v.issued)

  -- What one thread takes off the shared state under the mutex.
  pub take_chunk-lem :
      let (c, x') = take_chunk x in
      (c.log_offset ≡ log_entry_offset + log_issued)
      × (0 < c.log_size)
      × (c.log_size ≤ poolset_max_size)
      × (x'.log_issued ≡ log_issued + c.log_size)
      × (c.remote_offset ≡ remote_offset + transmit_issued)
      × (x'.transmit_issued ≡ transmit_issued + c.transmit_size)
      × (c.transmit_offset_in_log + c.transmit_size ≤ c.log_size)
      × ((c.transmit_size ≡ 0)
          ⊎ (c.log_offset + c.transmit_offset_in_log + remote_offset
              ≡ c.remote_offset + log_entry_offset + transmit_offset_in_log))
  unfolding take_chunk
  take_chunk-lem = (
    omega (arith, v.log_in_range),
    size_bounds.0,
    omega (arith, chunk_size-eq),
    omega (arith, size_bounds, v.log_in_range),
    omega (arith, transmit_le, v.remote_in_range),
    omega (arith, transmit_le, v.remote_in_range),
    transmit_fits,
    elim matched [
      | inl nothing ↦ inl nothing
      | inr same ↦ inr (omega (arith, same, v.log_in_range, transmit_le, v.remote_in_range))
    ],
  )

  pub take_chunk-IsXfer : IsXfer (take_chunk x).1
  unfolding take_chunk
  take_chunk-IsXfer = record {
    nonempty = v.nonempty;
    log_in_range = v.log_in_range;
    remote_in_range = v.remote_in_range;
    contained = v.contained;
    first_chunk = v.first_chunk;
    pool_in_range = v.pool_in_range;
    issued_le = omega (arith, size_bounds, v.log_in_range);
    skipped = inr (
        omega (
          arith, chunk_size-eq, size_bounds, v.log_in_range, v.contained, v.nonempty, v.first_chunk,
        ));
    issued =
        omega (arith, issued_next, transmit_le, size_bounds, v.log_in_range, v.remote_in_range);
  }

-- Taking a chunk leaves the extents, the retired count and the code alone.
pub take_chunk_kept :
    (x : Xfer)
    → let x' = (take_chunk x).1 in
      (x'.log_entry_offset ≡ x.log_entry_offset)
      × (x'.log_entry_size ≡ x.log_entry_size)
      × (x'.remote_offset ≡ x.remote_offset)
      × (x'.transmit_size ≡ x.transmit_size)
      × (x'.log_retired ≡ x.log_retired)
      × (x'.ret ≡ x.ret)
unfolding take_chunk
take_chunk_kept x = (refl, refl, refl, refl, refl, refl)

-- The counts of finished work and the code do not matter to `IsXfer`.
pub IsXfer-status :
    (x : Xfer) (retired : ℕ) (code : ℤ) (active : ℕ)
    → IsXfer x
    → IsXfer (record x { log_retired = retired; ret = code; ults_active = active })
IsXfer-status x retired code active v = record {
  nonempty = v.nonempty;
  log_in_range = v.log_in_range;
  remote_in_range = v.remote_in_range;
  contained = v.contained;
  first_chunk = v.first_chunk;
  pool_in_range = v.pool_in_range;
  issued_le = v.issued_le;
  skipped = v.skipped;
  issued = v.issued;
}
