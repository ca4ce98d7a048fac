-- ===== src/Fat/Listing.antt =====
-- What a walk over the root directory keeps, and the entry that fat_open takes.
use rpi_pico_card_reader.Prelude.{
  ℕ, zero, suc, ◌+◌, ◌<◌, ◌≡◌, subst, List, [], ◌∷◌, Bool, Option, some, if_intro, with_option,
  with_option_intro, get_or, take, drop, u32, arith,
}
use rpi_pico_card_reader.Fat.Volume.{Disk, FatVol}
use rpi_pico_card_reader.Fat.Directory.{
  Walk, EntryKind, end_of_directory, long_name, skipped, file, entry_kind, entry_name, on_kind,
  walk_entry, walk_sector, walk_sectors, walk_root,
}
use rpi_pico_card_reader.Fat.Entry.{IsDisk}

abbrev pub IsBytes : List ℕ → Type 0
IsBytes b = (i : ℕ) → get_or b i 0 < 256

pub IsBytes-take : (n : ℕ) (b : List ℕ) → IsBytes b → IsBytes (take n b)
IsBytes-take zero b h i = ground arith
IsBytes-take (suc n) [] h i = ground arith
IsBytes-take (suc n) (x ∷ b) h zero = h 0
IsBytes-take (suc n) (x ∷ b) h (suc i) = IsBytes-take n b (λ j. h (suc j)) i

pub IsBytes-drop : (n : ℕ) (b : List ℕ) → IsBytes b → IsBytes (drop n b)
IsBytes-drop zero b h = h
IsBytes-drop (suc n) [] h = h
IsBytes-drop (suc n) (x ∷ b) h = IsBytes-drop n b (λ j. h (suc j))

-- What the callback keeps, the walk keeps.
module _ {S : Type 0} (cb2 : List ℕ → List ℕ → S → S × Bool) (P : S → Type 0)
    (keeps : (name e : List ℕ) (s : S) → IsBytes e → P s → P (cb2 name e s).0) where
  on_kind_keeps :
      (k : EntryKind) (e : List ℕ) (w : Walk S)
      → IsBytes e
      → P w.state
      → P (on_kind cb2 k e w).state
  unfolding on_kind
  on_kind_keeps end_of_directory e w b h = h
  on_kind_keeps long_name e w b h = h
  on_kind_keeps skipped e w b h = h
  on_kind_keeps file e w b h = keeps (entry_name w.names e) e w.state b h

  pub walk_entry_keeps :
      (e : List ℕ) (w : Walk S) → IsBytes e → P w.state → P (walk_entry cb2 e w).state
  unfolding walk_entry
  walk_entry_keeps e w b h = on_kind_keeps (entry_kind e) e w b h

  pub walk_sector_keeps :
      (n : ℕ) (sec : List ℕ) (w : Walk S)
      → IsBytes sec
      → P w.state
      → P (walk_sector cb2 n sec w).state
  unfolding walk_sector
  walk_sector_keeps zero sec w b h = h
  walk_sector_keeps (suc n) sec w b h =
      if_intro (λ (x : Walk S). P x.state) w.over (λ p. h)
        (λ p.
          walk_sector_keeps n (drop 32 sec) (walk_entry cb2 (take 32 sec) w) (IsBytes-drop 32 sec b)
            (walk_entry_keeps (take 32 sec) w (IsBytes-take 32 sec b) h))

  abbrev pub Kept : Option (Walk S) → Type 0
  Kept o = (w : Walk S) → o ≡ some w → P w.state

  some_keeps : (w w' : Walk S) → P w.state → some w ≡ some w' → P w'.state
  some_keeps w w' h e = subst (λ o. with_option o (P w.state) (λ x. P x.state)) e h

  pub walk_sectors_keeps :
      (disk : Disk) (d : IsDisk disk) (n lba : ℕ) (w : Walk S)
      → P w.state
      → Kept (walk_sectors cb2 disk n lba w)
  unfolding walk_sectors
  walk_sectors_keeps disk d zero lba w h = λ w' e. some_keeps w w' h e
  walk_sectors_keeps disk d (suc n) lba w h =
      if_intro Kept w.over (λ p w' e. some_keeps w w' h e)
        (λ p.
          with_option_intro Kept (disk lba) (λ q w' e. absurd (ground (arith, e)))
            (λ sec q.
              walk_sectors_keeps disk d n (u32 (lba + 1)) (walk_sector cb2 16 sec w)
                (walk_sector_keeps 16 sec w (d.bytes lba sec q) h)))

  pub walk_root_keeps :
      (disk : Disk) (v : FatVol) → IsDisk disk → (s : S) → P s → Kept (walk_root cb2 disk v s)
  unfolding walk_root
  walk_root_keeps disk v d s h = walk_sectors_keeps disk d v.root_secs v.root_start _ h
