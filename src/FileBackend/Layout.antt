-- ===== src/FileBackend/Layout.antt =====
-- The extents that a sequence of creations hands out: they tile the log.
use mochi_bake.Prelude.{
  ℕ, suc, ◌+◌, ◌%◌, ◌^◌, ◌≤◌, ◌<◌, ◌≡◌, refl, ap, ◌∙◌, List, [], ◌∷◌, arith, get_elem?, some, zero,
  subst,
}
use mochi_bake.FileBackend.{FileRegion, Entry, align_up, reserve}
use mochi_bake.FileBackend.Align.{
  IsAlignment, IsAlignment-pos, align_up-multiple, le-align_up, align_up-lt, add_mod-mod,
}

-- The requests in the order in which they hold `log_offset_mutex`, by whatever threads.
unfoldable pub reserve_all : Entry → List ℕ → List FileRegion × Entry
reserve_all entry [] = ([], entry)
reserve_all entry (size ∷ sizes) =
    let (frid, entry') = reserve entry size in
    let (frids, last) = reserve_all entry' sizes in (frid ∷ frids, last)

reserve-log_alignment :
    (entry : Entry) (size : ℕ) → (reserve entry size).1.log_alignment ≡ entry.log_alignment
unfolding reserve
reserve-log_alignment entry size = refl

-- Room for the requests, each with the rounding, below the largest `off_t`.
abbrev pub room : ℕ → List ℕ → ℕ
room a [] = 0
room a (size ∷ sizes) = size + a + room a sizes

-- The regions stand for the requests, one behind the other from `start` to `end`, on whole blocks,
-- and each is as long as its request and less than a block longer.
pub data Tiles (a : ℕ) : ℕ → List ℕ → List FileRegion → ℕ → Type 0 where
  nil : {start : ℕ} → Tiles a start [] [] start
  cons :
      {start size end : ℕ} {sizes : List ℕ} {frid : FileRegion} {frids : List FileRegion}
      → frid.log_entry_offset ≡ start
      → start % a ≡ 0
      → frid.log_entry_size % a ≡ 0
      → size ≤ frid.log_entry_size
      → frid.log_entry_size < size + a
      → Tiles a (start + frid.log_entry_size) sizes frids end
      → Tiles a start (size ∷ sizes) (frid ∷ frids) end

-- An attached target: its alignment is one that was accepted, and the log ends on a whole block.
pub record IsAligned (entry : Entry) : Type 0 where
  pub alignment : IsAlignment entry.log_alignment
  pub aligned : entry.log_offset % entry.log_alignment ≡ 0

module _ (entry : Entry) (size : ℕ) (v : IsAligned entry)
    (fits : entry.log_offset + (size + entry.log_alignment) ≤ 2 ^ 63) where
  open entry use {log_offset, log_alignment}

  pub reserve-log_offset :
      (reserve entry size).1.log_offset ≡ log_offset + align_up size log_alignment
  unfolding reserve
  reserve-log_offset = omega (arith, align_up-lt v.alignment size (omega arith))

  -- A creation keeps the log aligned.
  pub reserve-IsAligned : IsAligned (reserve entry size).1
  unfolding reserve
  reserve-IsAligned = record {
    alignment = v.alignment;
    aligned =
        ap (λ (t : ℕ). t % log_alignment) reserve-log_offset
        ∙ add_mod-mod log_alignment log_offset (align_up size log_alignment)
            (IsAlignment-pos v.alignment) v.aligned
            (align_up-multiple v.alignment size (omega arith));
  }

  reserve-Tiles :
      {sizes : List ℕ} {frids : List FileRegion} {end : ℕ}
      → Tiles log_alignment (reserve entry size).1.log_offset sizes frids end
      → Tiles log_alignment log_offset (size ∷ sizes) ((reserve entry size).0 ∷ frids) end
  unfolding reserve
  reserve-Tiles {sizes} {frids} {end} rest =
      let small : size + log_alignment ≤ 2 ^ 64 = omega arith in
      cons refl v.aligned (align_up-multiple v.alignment size small)
        (le-align_up v.alignment size small) (align_up-lt v.alignment size small)
        (subst (λ t. Tiles log_alignment t sizes frids end) reserve-log_offset rest)

-- Whatever sizes are asked for, in whatever order the requests come: the regions handed out follow
-- one another without gap or overlap from the old end of the log to the new one, each on whole
-- blocks, at least as long as its request and less than a block longer, as long as the log stays
-- below the largest `off_t`.
pub reserve_all-Tiles :
    (entry : Entry) (sizes : List ℕ)
    → IsAligned entry
    → entry.log_offset + room entry.log_alignment sizes ≤ 2 ^ 63
    → Tiles entry.log_alignment entry.log_offset sizes
        (reserve_all entry sizes).0
        (reserve_all entry sizes).1.log_offset
unfolding reserve_all
reserve_all-Tiles entry [] v h = nil
reserve_all-Tiles entry (size ∷ sizes) v h = reserve-Tiles entry size v (omega arith) (
    subst
      (λ t.
        Tiles t (reserve entry size).1.log_offset sizes (reserve_all (reserve entry size).1 sizes).0
          (reserve_all (reserve entry size).1 sizes).1.log_offset)
      kept
      (reserve_all-Tiles (reserve entry size).1 sizes (reserve-IsAligned entry size v (omega arith))
        (omega (
          arith,
          reserve-log_offset entry size v (omega arith),
          align_up-lt v.alignment size (omega arith),
          ap (λ t. room t sizes) kept,
        ))))
  where
    kept : (reserve entry size).1.log_alignment ≡ entry.log_alignment
    kept = reserve-log_alignment entry size

Tiles-above :
    {a start end : ℕ} {sizes : List ℕ} {frids : List FileRegion}
    → Tiles a start sizes frids end
    → (j : ℕ) (q : FileRegion) → get_elem? frids j ≡ some q
    → start ≤ q.log_entry_offset
Tiles-above nil j q e = cc
Tiles-above (cons at _ _ _ _ rest) zero q e = ground arith
Tiles-above (cons at _ _ _ _ rest) (suc j) q e = omega (arith, Tiles-above rest j q e)

-- Of two regions that were handed out the later one begins behind the earlier one.
pub Tiles-disjoint :
    {a start end : ℕ} {sizes : List ℕ} {frids : List FileRegion}
    → Tiles a start sizes frids end
    → (i j : ℕ) (p q : FileRegion) → i < j
    → get_elem? frids i ≡ some p
    → get_elem? frids j ≡ some q
    → p.log_entry_offset + p.log_entry_size ≤ q.log_entry_offset
Tiles-disjoint nil i j p q h ei ej = cc
Tiles-disjoint (cons at _ _ _ _ rest) zero zero p q h ei ej = absurd (omega arith)
Tiles-disjoint (cons at _ _ _ _ rest) zero (suc j) p q h ei ej =
    ground (arith, Tiles-above rest j q ej)
Tiles-disjoint (cons at _ _ _ _ rest) (suc i) zero p q h ei ej = absurd (omega arith)
Tiles-disjoint (cons at _ _ _ _ rest) (suc i) (suc j) p q h ei ej =
    Tiles-disjoint rest i j p q (omega arith) ei ej

-- No two regions of any sequence of creations share a byte.
reserve_all-disjoint :
    (entry : Entry) (sizes : List ℕ) (i j : ℕ) (p q : FileRegion)
    → IsAligned entry
    → entry.log_offset + room entry.log_alignment sizes ≤ 2 ^ 63
    → i < j
    → get_elem? (reserve_all entry sizes).0 i ≡ some p
    → get_elem? (reserve_all entry sizes).0 j ≡ some q
    → p.log_entry_offset + p.log_entry_size ≤ q.log_entry_offset
reserve_all-disjoint entry sizes i j p q v h =
    Tiles-disjoint (reserve_all-Tiles entry sizes v h) i j p q
