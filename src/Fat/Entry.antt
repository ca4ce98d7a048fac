-- ===== src/Fat/Entry.antt =====
-- A FAT entry without the cache: next_cluster against the bytes of the table.
use rpi_pico_card_reader.Prelude.{
  ℕ, ◌+◌, ◌*◌, ◌/◌, ◌%◌, ◌≤◌, ◌<◌, ◌≡◌, ◌⊎◌, inl, inr, refl, sym, ap, ap₂, subst, ◌∙◌, List,
  Bool-cases, Option, none, some, Option-cases, if◌then◌else◌, if_intro, with_option,
  with_option_intro, ltb, ◌==◌, get_or, length, u32, arith,
}
use rpi_pico_card_reader.Fat.Volume.{Disk, block_size, FatVol}
use rpi_pico_card_reader.Fat.Chain.{
  FatCache, fat_sector, read_entry, entry_offset, entry12, next_cluster,
}

-- A block that can be read has 512 bytes.
pub record IsDisk (disk : Disk) : Type 0 where
  pub sized : (lba : ℕ) (b : List ℕ) → disk lba ≡ some b → length b ≡ block_size
  pub bytes : (lba : ℕ) (b : List ℕ) → disk lba ≡ some b → (i : ℕ) → get_or b i 0 < 256

-- Byte k of the table.
abbrev pub fat_byte : Disk → FatVol → ℕ → Option ℕ
fat_byte disk v k =
    with_option (disk (u32 (v.fat_start + k / block_size))) none
      (λ b. some (get_or b (k % block_size) 0))

abbrev pub entry_of : FatVol → ℕ → ℕ → ℕ → ℕ
entry_of v clus lo hi = if v.fat_type == 16 then lo + hi * 256 else entry12 clus lo hi

-- The entry of a cluster: two bytes, of which a FAT12 entry takes 12 bits; 1 if it cannot be read.
abbrev pub next_of : Disk → FatVol → ℕ → ℕ
next_of disk v clus =
    let off = entry_offset v clus in
    with_option (fat_byte disk v off) 1
      (λ lo. with_option (fat_byte disk v (off + 1)) 1 (λ hi. entry_of v clus lo hi))

-- The cached sector is a sector of the device, or there is none yet.
abbrev pub IsCoherent : Disk → FatCache → Type 0
IsCoherent disk c = (c.fsec_lba ≡ 4294967295) ⊎ (disk c.fsec_lba ≡ some c.fsec)

abbrev pub IsNext : Disk → FatVol → ℕ → ℕ × FatCache → Type 0
IsNext disk v clus r = (r.0 ≡ next_of disk v clus) × IsCoherent disk r.1

module _ (disk : Disk) (lba : ℕ) (c : FatCache) (h : IsCoherent disk c)
    (valid : lba < 4294967295) where
  fat_sector_lem :
      ((fat_sector disk lba c ≡ none) × (disk lba ≡ none))
      ⊎ ((c' : FatCache) × (fat_sector disk lba c ≡ some c')
          × (disk lba ≡ some c'.fsec)
          × (c'.fsec_lba ≡ lba))
  unfolding fat_sector
  fat_sector_lem = elim (Bool-cases (lba == c.fsec_lba)) [
    | inl hit ↦
        inr (c, ground arith, ground (arith, ap disk {x = lba} {y = c.fsec_lba}), ground arith)
    | inr miss ↦ elim (Option-cases (disk lba)) [
      | inl e ↦ inl (ground arith, e)
      | inr (b, e) ↦ inr (record { fsec = b; fsec_lba = lba }, ground arith, e, refl)
    ]
  ]

-- The two bytes of an entry, where its sector is in the cache.
module _ (disk : Disk) (v : FatVol) (clus : ℕ) (c : FatCache) (s : v.fat_start < 65536)
    (k : clus < 65536) where
  abbrev off : ℕ
  off = entry_offset v clus

  next_of_bytes :
      (lo hi : Option ℕ)
      → fat_byte disk v off ≡ lo
      → fat_byte disk v (off + 1) ≡ hi
      → next_of disk v clus ≡ with_option lo 1 (λ l. with_option hi 1 (λ h. entry_of v clus l h))
  next_of_bytes lo hi p q =
      ap₂ (λ l h. with_option l 1 (λ l. with_option h 1 (λ h. entry_of v clus l h))) p q

  module _ (d : disk c.fsec_lba ≡ some c.fsec)
      (at : c.fsec_lba ≡ u32 (v.fat_start + off / block_size)) where
    low_byte : fat_byte disk v off ≡ some (get_or c.fsec (off % block_size) 0)
    low_byte =
        ap (λ b. with_option b none (λ b. some (get_or b (off % block_size) 0)))
          (ap disk {x = u32 (v.fat_start + off / block_size)} {y = c.fsec_lba} (sym at) ∙ d)

    high_byte :
        off % block_size + 1 < block_size
        → fat_byte disk v (off + 1) ≡ some (get_or c.fsec (off % block_size + 1) 0)
    high_byte lt =
        ap (λ b. with_option b none (λ b. some (get_or b ((off + 1) % block_size) 0)))
          (ap disk {x = u32 (v.fat_start + (off + 1) / block_size)} {y = c.fsec_lba}
              (ground (arith, at))
            ∙ d)
        ∙ ap (λ i. some (get_or c.fsec i 0)) {x = (off + 1) % block_size} {y = off % block_size + 1}
            (omega arith)

    next_byte :
        block_size ≤ off % block_size + 1
        → fat_byte disk v (off + 1)
          ≡ with_option (disk (u32 (c.fsec_lba + 1))) none (λ b. some (get_or b 0 0))
    next_byte ge =
        ap₂ (λ l i. with_option (disk l) none (λ b. some (get_or b i 0)))
          {x = u32 (v.fat_start + (off + 1) / block_size)} {y = u32 (c.fsec_lba + 1)}
          (ground (arith, at)) (omega arith)

    read_entry_lem : IsNext disk v clus (read_entry disk v clus c)
    unfolding read_entry
    read_entry_lem =
        let idx = off % block_size in
        let lo = get_or c.fsec idx 0 in
        let hi = get_or c.fsec (idx + 1) 0 in
        if_intro (IsNext disk v clus) (v.fat_type == 16)
          (λ p. (
            sym (
                next_of_bytes (some lo) (some hi) low_byte (high_byte (ground arith))
                ∙ ap (λ b. if b then lo + hi * 256 else entry12 clus lo hi) p),
            inr d,
          ))
          (λ p.
            if_intro (IsNext disk v clus) (ltb (idx + 1) block_size)
              (λ q. (
                sym (
                    next_of_bytes (some lo) (some hi) low_byte (high_byte (ground arith))
                    ∙ ap (λ b. if b then lo + hi * 256 else entry12 clus lo hi) p),
                inr d,
              ))
              (λ q.
                with_option_intro (IsNext disk v clus) (disk (u32 (c.fsec_lba + 1)))
                  (λ e. (
                    sym (
                        next_of_bytes (some lo) none low_byte (
                          next_byte (ground arith)
                          ∙ ap (λ o. with_option o none (λ b. some (get_or b 0 0))) e)),
                    inr d,
                  ))
                  (λ b e. (
                    sym (
                        next_of_bytes (some lo) (some (get_or b 0 0)) low_byte (
                          next_byte (ground arith)
                          ∙ ap (λ o. with_option o none (λ b. some (get_or b 0 0))) e)
                        ∙ ap
                            (λ t.
                              if t then lo + get_or b 0 0 * 256 else entry12 clus lo (get_or b 0 0))
                            p),
                    inr e,
                  ))))

-- The lookup of a FAT entry through the cache gives the entry of the table, also where a 12-bit
-- entry straddles two sectors and where a read fails, and leaves a coherent cache.
pub next_cluster_lem :
    (disk : Disk) (v : FatVol) (clus : ℕ) (c : FatCache)
    → v.fat_start < 65536
    → clus < 65536
    → IsCoherent disk c
    → ((next_cluster disk v clus c).0 ≡ next_of disk v clus)
      × IsCoherent disk (next_cluster disk v clus c).1
unfolding next_cluster
next_cluster_lem disk v clus c s k h =
    let off = entry_offset v clus in
    let lba = u32 (v.fat_start + off / block_size) in
    elim (fat_sector_lem disk lba c h (ground arith)) [
      | inl (e, d) ↦ ground (arith, e, d, h)
      | inr (c', e, d, at) ↦
          subst (λ o. IsNext disk v clus (with_option o (1, c) (read_entry disk v clus))) (sym e)
            (read_entry_lem disk v clus c' s k (ap disk {x = c'.fsec_lba} {y = lba} at ∙ d) at)
    ]
