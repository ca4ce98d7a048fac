-- ===== src/Fat/Chain.antt =====
-- The cluster chain: next_cluster with its cache of one FAT sector, and end_of_chain.
use rpi_pico_card_reader.Prelude.{
  ℕ, ◌+◌, ◌*◌, ◌/◌, ◌%◌, List, [], Bool, Option, none, some, if◌then◌else◌, with_option, ltb, leb,
  ◌==◌, get_or, u32,
}
use rpi_pico_card_reader.Fat.Volume.{Disk, block_size, rd16, FatVol}

-- The static fsec and fsec_lba.
pub record FatCache : Type 0 where
  pub fsec : List ℕ
  pub fsec_lba : ℕ

-- Before the first lookup: UINT32_MAX.
abbrev pub cold : FatCache
cold = record { fsec = []; fsec_lba = 4294967295 }

-- if (lba != fsec_lba) { ... }; `none` where the read fails.
unfoldable pub fat_sector : Disk → ℕ → FatCache → Option FatCache
fat_sector disk lba c =
    if lba == c.fsec_lba
    then some c
    else with_option (disk lba) none (λ b. some (record { fsec = b; fsec_lba = lba }))

-- The byte offset of a cluster's entry.
abbrev pub entry_offset : FatVol → ℕ → ℕ
entry_offset v clus = if v.fat_type == 16 then u32 (clus * 2) else u32 (clus + clus / 2)

abbrev pub entry12 : ℕ → ℕ → ℕ → ℕ
entry12 clus lo hi = let ent = lo + hi * 256 in if clus % 2 == 1 then ent / 16 else ent % 4096

-- next_cluster once the sector of the entry is in fsec: a 12-bit entry may go on in the next one.
unfoldable pub read_entry : Disk → FatVol → ℕ → FatCache → ℕ × FatCache
read_entry disk v clus c =
    let idx = entry_offset v clus % block_size in
    if v.fat_type == 16
    then (rd16 c.fsec idx, c)
    else if ltb (idx + 1) block_size
    then (entry12 clus (get_or c.fsec idx 0) (get_or c.fsec (idx + 1) 0), c)
    else with_option (disk (u32 (c.fsec_lba + 1))) (1, c)
        (λ b. (
          entry12 clus (get_or c.fsec idx 0) (get_or b 0 0),
          record { fsec = b; fsec_lba = u32 (c.fsec_lba + 1) },
        ))

unfoldable pub next_cluster : Disk → FatVol → ℕ → FatCache → ℕ × FatCache
next_cluster disk v clus c =
    with_option (fat_sector disk (u32 (v.fat_start + entry_offset v clus / block_size)) c) (1, c)
      (read_entry disk v clus)

unfoldable pub end_of_chain : FatVol → ℕ → Bool
end_of_chain v clus = if v.fat_type == 16 then leb 0xfff8 clus else leb 0x0ff8 clus
