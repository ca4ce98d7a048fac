-- ===== src/Fat/Volume.antt =====
-- The boot sector: fat_mount.
use rpi_pico_card_reader.Prelude.{
  ℕ, ◌+◌, ◌-◌, ◌*◌, ◌/◌, List, Bool, ◌||◌, Option, if◌then◌else◌, with_option, ltb, leb, ◌==◌, not,
  get_or, u32,
}

abbrev pub Disk : Type 0
Disk = ℕ → Option (List ℕ)

-- BS
abbrev pub block_size : ℕ
block_size = 512

-- rd16(&p[i]) and rd32(&p[i])
abbrev pub rd16 : List ℕ → ℕ → ℕ
rd16 p i = get_or p i 0 + get_or p (i + 1) 0 * 256

abbrev pub rd32 : List ℕ → ℕ → ℕ
rd32 p i =
    get_or p i 0
    + get_or p (i + 1) 0 * 256
    + get_or p (i + 2) 0 * 65536
    + get_or p (i + 3) 0 * 16777216

pub record FatVol : Type 0 where
  pub fat_type : ℕ
  pub sec_per_clus : ℕ
  pub reserved : ℕ
  pub fat_start : ℕ
  pub root_start : ℕ
  pub root_secs : ℕ
  pub data_start : ℕ
  pub clusters : ℕ
  pub total_secs : ℕ

-- The results 0 and -1 to -5.
pub data Mounted : Type 0 where
  mounted : FatVol → Mounted
  unreadable no_signature bad_sector_size bad_geometry no_data : Mounted

abbrev pub total_sectors : List ℕ → ℕ
total_sectors b = if rd16 b 19 == 0 then rd32 b 32 else rd16 b 19

abbrev pub root_start_of : List ℕ → ℕ
root_start_of b = u32 (rd16 b 14 + get_or b 16 0 * rd16 b 22)

abbrev pub root_secs_of : List ℕ → ℕ
root_secs_of b = (rd16 b 17 * 32 + block_size - 1) / block_size

-- The volume of an accepted boot sector.
abbrev pub volume_of : List ℕ → FatVol
volume_of b =
    let data_start = root_start_of b + root_secs_of b in
    let clusters = (total_sectors b - data_start) / get_or b 13 0 in
    record {
      fat_type = if ltb clusters 4085 then 12 else 16;
      sec_per_clus = get_or b 13 0;
      reserved = rd16 b 14;
      fat_start = rd16 b 14;
      root_start = root_start_of b;
      root_secs = root_secs_of b;
      data_start = data_start;
      clusters = clusters;
      total_secs = total_sectors b;
    }

abbrev pub is_bad_geometry : List ℕ → Bool
is_bad_geometry b =
    get_or b 13 0 == 0
    || get_or b 16 0 == 0
    || rd16 b 22 == 0
    || rd16 b 17 == 0
    || total_sectors b == 0

unfoldable pub fat_mount : Disk → Mounted
fat_mount disk = with_option (disk 0) unreadable (λ b.
    if not (get_or b 510 0 == 0x55) || not (get_or b 511 0 == 0xaa)
    then no_signature
    else if not (rd16 b 11 == block_size)
    then bad_sector_size
    else if is_bad_geometry b
    then bad_geometry
    else if leb (total_sectors b) (root_start_of b + root_secs_of b)
    then no_data
    else mounted (volume_of b))
