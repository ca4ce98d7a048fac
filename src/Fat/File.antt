-- ===== src/Fat/File.antt =====
-- Opening and reading a file: fat_open and fat_read.
use rpi_pico_card_reader.Prelude.{
  ℕ, zero, suc, ◌+◌, ◌-◌, ◌*◌, ◌/◌, ◌%◌, List, [], ◌∷◌, ◌++◌, Bool, true, false, ◌&&◌, ◌||◌, Option,
  none, some, if◌then◌else◌, with_option, ltb, leb, ◌==◌, take, drop, length, u32, sub32,
}
use rpi_pico_card_reader.Fat.Volume.{Disk, block_size, rd16, rd32, FatVol}
use rpi_pico_card_reader.Fat.Chain.{FatCache, next_cluster, end_of_chain}
use rpi_pico_card_reader.Fat.Directory.{walk_root}

-- struct fat_file; the volume is an argument of the operations.
pub record FatFile : Type 0 where
  pub size : ℕ
  pub pos : ℕ
  pub first_clus : ℕ
  pub cur_clus : ℕ
  pub clus_pos : ℕ

abbrev pub lower : ℕ → ℕ
lower c = if leb b'A' c && leb c b'Z' then c + 32 else c

unfoldable pub ieq : List ℕ → List ℕ → Bool
ieq [] [] = true
ieq [] (y ∷ ys) = false
ieq (x ∷ xs) [] = false
ieq (x ∷ xs) (y ∷ ys) = lower x == lower y && ieq xs ys

abbrev pub blank_file : FatFile
blank_file = record { size = 0; pos = 0; first_clus = 0; cur_clus = 0; clus_pos = 0 }

-- open_cb: the state is what is found.
unfoldable pub open_cb : List ℕ → List ℕ → List ℕ → Option FatFile → Option FatFile × Bool
unfolding ieq
open_cb want name e found =
    if ieq name want
    then (some (record blank_file { size = rd32 e 28; first_clus = rd16 e 26 }), true)
    else (found, false)

pub data Opened : Type 0 where
  opened : FatFile → Opened
  unreadable not_found : Opened

unfoldable pub fat_open : Disk → FatVol → List ℕ → Opened
unfolding open_cb walk_root
fat_open disk v name = with_option (walk_root (open_cb name) disk v none) unreadable (λ w.
    with_option w.state not_found
      (λ f. opened (record f { cur_clus = f.first_clus; clus_pos = 0 })))

-- The bytes that are read, or `none` for -1.
abbrev pub ReadResult : Type 0
ReadResult = Option (List ℕ) × FatFile × FatCache

abbrev pub prepend : List ℕ → ReadResult → ReadResult
prepend bytes (r, f, c) = (with_option r none (λ bs. some (bytes ++ bs)), f, c)

abbrev pub clus_bytes : FatVol → ℕ
clus_bytes v = v.sec_per_clus * block_size

-- uint32_t in_clus = f->pos - f->clus_pos
abbrev pub in_clus : FatFile → ℕ
in_clus f = sub32 f.pos f.clus_pos

-- The block of the byte at the cursor.
abbrev pub block_at : FatVol → FatFile → ℕ
block_at v f =
    u32 (v.data_start + (f.cur_clus + 4294967294) * v.sec_per_clus + in_clus f / block_size)

-- The bytes of one round, of the `left` that are wanted.
abbrev pub bytes_at : FatFile → ℕ → List ℕ → List ℕ
bytes_at f left sec = take left (drop (in_clus f % block_size) sec)

module _ (disk : Disk) (v : FatVol) where
  -- while (f->pos - f->clus_pos >= clus_bytes), a round per unit of fuel.
  -- The Boolean is false where the chain ends early.
  unfoldable pub seek : ℕ → FatFile → FatCache → FatFile × FatCache × Bool
  unfolding next_cluster end_of_chain
  seek zero f c = (f, c, false)
  seek (suc fuel) f c =
      let (nx, c') = next_cluster disk v f.cur_clus c in
      let next =
        seek fuel (record f { cur_clus = nx; clus_pos = u32 (f.clus_pos + clus_bytes v) }) c' in
      if ltb (in_clus f) (clus_bytes v)
      then (f, c, true)
      else if ltb nx 2 || end_of_chain v nx
      then (f, c', false)
      else next

  -- while (done < len), a round per unit of fuel.
  unfoldable pub read_rounds : ℕ → ℕ → FatFile → FatCache → ReadResult
  read_rounds zero left f c = (some [], f, c)
  read_rounds (suc fuel) left f c =
      let (f', c', here) = seek (suc f.pos) f c in
      let rest : List ℕ → ReadResult = λ sec.
        let bytes = bytes_at f' left sec in
        prepend bytes (
          read_rounds fuel (left - length bytes) (record f' { pos = u32 (f'.pos + length bytes) })
            c') in
      if left == 0
      then (some [], f, c)
      else if here
      then with_option (disk (block_at v f')) (none, f', c') rest
      else (some [], f', c')

  unfoldable pub fat_read : FatFile → FatCache → ℕ → ReadResult
  unfolding read_rounds
  fat_read f c len =
      let n = if ltb (f.size - f.pos) len then f.size - f.pos else len in
      if leb f.size f.pos then (some [], f, c) else read_rounds n n f c
