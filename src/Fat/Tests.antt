-- ===== src/Fat/Tests.antt =====
-- A FAT12 volume of ten blocks with one capture file, and reading it.
use rpi_pico_card_reader.Prelude.{
  ℕ, zero, suc, ◌+◌, ◌*◌, ◌/◌, ◌%◌, ◌≡◌, inl, refl, ap, ◌∙◌, List, [], ◌∷◌, ◌++◌, Bool, true, ◌&&◌,
  none, some, if◌then◌else◌, if_intro, with_option, ltb, ◌==◌, get_or, length, window, u32, arith,
}
use rpi_pico_card_reader.Fat.Volume.{Disk, block_size, FatVol, mounted, fat_mount}
use rpi_pico_card_reader.Fat.Chain.{cold, next_cluster}
use rpi_pico_card_reader.Fat.File.{FatFile, opened, fat_open, fat_read}
use rpi_pico_card_reader.Fat.Entry.{IsDisk, next_of, IsCoherent, next_cluster_lem}
use rpi_pico_card_reader.Fat.Content.{IsVol, IsFile, chain, cluster_byte}
use rpi_pico_card_reader.Fat.Listing.{IsBytes}
use rpi_pico_card_reader.Fat.Block.{IsRead, content}
use rpi_pico_card_reader.Fat.Read.{fat_read_lem}
use rpi_pico_card_reader.Fat.Reader.{fat_mount-IsVol, fat_open-IsFile, fat_reader}
use rpi_pico_card_reader.Fat.Directory.{fat_list}
use rpi_pico_card_reader.Fat.Search.{listed, IsOpened, fat_open-fat_list}
use rpi_pico_card_reader.Fat.Device.{IsBlock, some-IsBlock, none-IsBlock}
use rpi_pico_card_reader.Fat.Load.{IsWhole, deckload_file-fat_read}
use rpi_pico_card_reader.Cap.{cap_parse_init, cap_parse_chunk, cap_parse_finish}
use rpi_pico_card_reader.Deckload.{chars, deckload_file}
use rpi_pico_card_reader.Deckload.File.{named_deck}

abbrev all_bytes : List ℕ → Bool
all_bytes [] = true
all_bytes (x ∷ xs) = ltb x 256 && all_bytes xs

all_bytes-IsBytes : (b : List ℕ) → all_bytes b ≡ true → IsBytes b
all_bytes-IsBytes [] h i = ground arith
all_bytes-IsBytes (x ∷ b) h zero = ground (arith, h)
all_bytes-IsBytes (x ∷ b) h (suc i) = all_bytes-IsBytes b (ground (arith, h)) i

abbrev IsBlockList : List ℕ → Type 0
IsBlockList b = (length b ≡ block_size) × (all_bytes b ≡ true)

-- A device of four blocks.
abbrev device : List ℕ → List ℕ → List ℕ → List ℕ → Disk
device a b c d lba =
    if lba == 0
    then some a
    else if lba == 1
    then some b
    else if lba == 2
    then some c
    else if lba == 3
    then some d
    else none

device-IsDisk :
    (a b c d : List ℕ)
    → IsBlockList a
    → IsBlockList b
    → IsBlockList c
    → IsBlockList d
    → IsDisk (device a b c d)
device-IsDisk a b c d p q r s =
    let good : (x : List ℕ) → IsBlockList x → IsBlock (some x) =
      λ x h. some-IsBlock x h.0 (all_bytes-IsBytes x h.1) in
    let all : (lba : ℕ) → IsBlock (device a b c d lba) = λ lba.
      if_intro IsBlock (lba == 0) (λ u. good a p)
        (λ u.
          if_intro IsBlock (lba == 1) (λ u. good b q)
            (λ u.
              if_intro IsBlock (lba == 2) (λ u. good c r)
                (λ u. if_intro IsBlock (lba == 3) (λ u. good d s) (λ u. none-IsBlock)))) in
    record { sized = λ lba x e. (all lba x e).0; bytes = λ lba x e. (all lba x e).1 }

abbrev blank : ℕ → List ℕ
blank n = window (λ i. 0) 0 n

abbrev boot_sector : List ℕ
boot_sector =
    blank 11 ++ 0 ∷ 2 ∷ 1 ∷ 1 ∷ 0 ∷ 1 ∷ 16 ∷ 0 ∷ 10 ∷ 0 ∷ 0xf8 ∷ 1 ∷ blank 487 ++ 0x55 ∷ 0xaa ∷ []

-- Entry 2 is an end of chain.
abbrev table : List ℕ
table = 0xf8 ∷ 0xff ∷ 0xff ∷ 0xff ∷ 0x0f ∷ blank 507

abbrev text : List ℕ
text = chars "Card n. 1" ++ 10 ∷ chars "0100"

abbrev root : List ℕ
root = chars "A       CAP" ++ blank 15 ++ 2 ∷ 0 ∷ 14 ∷ blank 483

abbrev disk : Disk
disk = device boot_sector table root (text ++ blank 498)

disk_lem : IsDisk disk
disk_lem =
    device-IsDisk boot_sector table root (text ++ blank 498) (refl, refl) (refl, refl) (refl, refl)
      (refl, refl)

abbrev vol : FatVol
vol = record {
  fat_type = 12;
  sec_per_clus = 1;
  reserved = 1;
  fat_start = 1;
  root_start = 2;
  root_secs = 1;
  data_start = 3;
  clusters = 7;
  total_secs = 10;
}

abbrev cap : FatFile
cap = record { size = 14; pos = 0; first_clus = 2; cur_clus = 2; clus_pos = 0 }

mount_vol : fat_mount disk ≡ mounted vol
unfolding fat_mount
mount_vol = refl

open_cap : fat_open disk vol (chars "a.cap") ≡ opened cap
unfolding fat_open
open_cap = refl

cold_coherent : IsCoherent disk cold
cold_coherent = inl refl

vol_lem : IsVol vol
vol_lem = fat_mount-IsVol disk disk_lem vol mount_vol

cap-IsWhole : IsWhole disk vol cap
cap-IsWhole p lt =
    let i = p % 512 in
    (
      get_or (text ++ blank 498) (i % 512) 0,
      ap (λ k. with_option (chain disk vol 2 k) none (λ c. cluster_byte disk vol c i)) {x = p / 512}
            {y = 0} (omega arith)
          ∙ ap (λ l. with_option (disk l) none (λ b. some (get_or b (i % 512) 0)))
              {x = u32 (3 + (2 + 4294967294) * 1 + i / 512)} {y = 3} (omega arith),
    )

next_cluster_lem_example :
    ((next_cluster disk vol 2 cold).0 ≡ next_of disk vol 2)
    × IsCoherent disk (next_cluster disk vol 2 cold).1
next_cluster_lem_example =
    next_cluster_lem disk vol 2 cold (omega arith) (omega arith) cold_coherent

list_cap : fat_list disk vol ≡ some ((chars "A.CAP", 14) ∷ [], 1)
unfolding fat_list
list_cap = refl

fat_open-fat_list_example :
    IsOpened (listed (chars "a.cap") ((chars "A.CAP", 14) ∷ [])) (fat_open disk vol (chars "a.cap"))
fat_open-fat_list_example =
    fat_open-fat_list disk vol (chars "a.cap") ((chars "A.CAP", 14) ∷ []) 1 disk_lem list_cap

cap-IsFile : IsFile disk vol cap
cap-IsFile = (fat_open-IsFile disk disk_lem vol (chars "a.cap") cap open_cap).0

-- Ten bytes are asked for.
fat_read_lem_example : IsRead disk vol 2 0 14 10 (fat_read disk vol cap cold 10)
fat_read_lem_example = fat_read_lem disk vol vol_lem disk_lem cap cold 10 cap-IsFile cold_coherent

deckload_file-fat_read_example :
    deckload_file (fat_reader disk vol vol_lem disk_lem cold cold_coherent) (chars "a.cap")
    ≡ named_deck
        (chars "a.cap")
        (cap_parse_finish (cap_parse_chunk cap_parse_init (window (content disk vol 2) 0 14)))
deckload_file-fat_read_example =
    deckload_file-fat_read disk vol vol_lem disk_lem cold cold_coherent (chars "a.cap") cap open_cap
      cap-IsWhole
