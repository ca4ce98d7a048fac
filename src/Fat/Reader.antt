-- ===== src/Fat/Reader.antt =====
-- Mounting and opening for fat_read, and the volume as what src/deckload.c reads capture files from.
use rpi_pico_card_reader.Prelude.{
  ℕ, ◌+◌, ◌-◌, ◌<◌, ◌≡◌, inl, inr, refl, sym, ap, subst, ◌∙◌, List, [], ◌∷◌, Bool, Option, none,
  some, if◌then◌else◌, if_intro, with_option, with_option_intro, ltb, length, window, length-window,
  arith,
}
use rpi_pico_card_reader.Fat.Volume.{Disk, rd16, rd32, FatVol, Mounted, mounted, fat_mount}
use rpi_pico_card_reader.Fat.Chain.{FatCache}
use rpi_pico_card_reader.Fat.Directory.{walk_root}
use rpi_pico_card_reader.Fat.File.{FatFile, ieq, open_cb, Opened, opened, fat_open, fat_read}
use rpi_pico_card_reader.Fat.Entry.{IsDisk, IsCoherent}
use rpi_pico_card_reader.Fat.Content.{IsVol, IsFile}
use rpi_pico_card_reader.Fat.Listing.{IsBytes, walk_root_keeps}
use rpi_pico_card_reader.Deckload.{FatReader}
use rpi_pico_card_reader.Fat.Block.{content, IsRead}
use rpi_pico_card_reader.Fat.Read.{fat_read_lem}

abbrev pub file_of : FatFile → Opened → FatFile
file_of f (opened g) = g
file_of f _ = f

module _ (disk : Disk) (d : IsDisk disk) where
  rd16-lt : (b : List ℕ) (i : ℕ) → IsBytes b → rd16 b i < 65536
  rd16-lt b i h = omega (arith, h i, h (i + 1))

  rd32-lt : (b : List ℕ) (i : ℕ) → IsBytes b → rd32 b i < 4294967296
  rd32-lt b i h = omega (arith, h i, h (i + 1), h (i + 2), h (i + 3))

  abbrev Good : FatVol → Mounted → Type 0
  Good v m = m ≡ mounted v → IsVol v

  -- A volume that fat_mount accepts is one that files can be read from.
  pub fat_mount-IsVol : (v : FatVol) → fat_mount disk ≡ mounted v → IsVol v
  unfolding fat_mount
  fat_mount-IsVol v =
      with_option_intro (Good v) (disk 0) (λ p e. absurd (ground (arith, e)))
        (λ b p e.
          let lt = rd16-lt b 14 (d.bytes 0 b p) in
          let few = d.bytes 0 b p 13 in
          record {
            fat_fits = ground (arith, e, lt);
            some_sector = ground (arith, e);
            few_sectors = ground (arith, e, few);
          })

  -- The state of fat_open's callback holds an entry whose fields are in range.
  abbrev Found : Option FatFile → Type 0
  Found o =
      (f : FatFile) → o ≡ some f → (f.size < 4294967296) × (f.first_clus < 65536) × (f.pos ≡ 0)

  open_cb-Found :
      (want name e : List ℕ) (found : Option FatFile)
      → IsBytes e
      → Found found
      → Found (open_cb want name e found).0
  unfolding open_cb
  open_cb-Found want name e found b h =
      if_intro (λ (x : Option FatFile × Bool). Found x.0) (ieq name want)
        (λ p f q. ground (arith, q, rd32-lt e 28 b, rd16-lt e 26 b)) (λ p. h)

  -- A file that fat_open gives is at its first byte, with the cursor at its first cluster.
  pub fat_open-IsFile :
      (v : FatVol) (name : List ℕ) (f : FatFile)
      → fat_open disk v name ≡ opened f
      → IsFile disk v f × (f.pos ≡ 0)
  unfolding fat_open
  fat_open-IsFile v name f =
      with_option_intro (λ o. o ≡ opened f → IsFile disk v f × (f.pos ≡ 0))
        (walk_root (open_cb name) disk v none) (λ p e. absurd (ground (arith, e)))
        (λ w p.
          with_option_intro (λ o. o ≡ opened f → IsFile disk v f × (f.pos ≡ 0)) w.state
            (λ q e. absurd (ground (arith, e)))
            (λ g q e.
              let h =
                walk_root_keeps (open_cb name) Found (open_cb-Found name) disk v d none
                  (λ x u. absurd (ground (arith, u))) w p g q in
              subst (λ x. IsFile disk v x × (x.pos ≡ 0)) (ap (file_of f) e)
                (
                  record {
                    index = 0;
                    at_cluster = refl;
                    start = omega arith;
                    within = omega arith;
                    inside = omega (arith, h);
                    fits = h.0;
                    small = h.1;
                  },
                  h.2,
                )))

-- A file that is being read.
pub record Reading (disk : Disk) (v : FatVol) : Type 0 where
  pub file : FatFile
  pub cache : FatCache
  pub is_file : IsFile disk v file
  pub is_coherent : IsCoherent disk cache

module _ (disk : Disk) (v : FatVol) (w : IsVol v) (d : IsDisk disk) (c : FatCache)
    (k : IsCoherent disk c) where
  abbrev pub reading_of :
      (o : Opened) → ((f : FatFile) → o ≡ opened f → IsFile disk v f) → Option (Reading disk v)
  reading_of (opened f) h =
      some (record { file = f; cache = c; is_file = h f refl; is_coherent = k })
  reading_of _ h = none

  abbrev count_of : FatFile → ℕ → ℕ
  count_of f len = if ltb (f.size - f.pos) len then f.size - f.pos else len

  abbrev pub read_lem :
      (r : Reading disk v) (len : ℕ)
      → IsRead disk v r.file.first_clus r.file.pos r.file.size
          (count_of r.file len)
          (fat_read disk v r.file r.cache len)
  read_lem r len = fat_read_lem disk v w d r.file r.cache len r.is_file r.is_coherent

  abbrev pub after_read : Reading disk v → ℕ → Reading disk v
  after_read r len =
      let h = read_lem r len in
      record {
        file = (fat_read disk v r.file r.cache len).1;
        cache = (fat_read disk v r.file r.cache len).2;
        is_file = h.file;
        is_coherent = h.coherent;
      }

  abbrev pub read_on : Reading disk v → ℕ → Option (List ℕ × Reading disk v)
  read_on r len =
      with_option (fat_read disk v r.file r.cache len).0 none
        (λ bytes. some (bytes, after_read r len))

  -- A read that succeeds gives the file's bytes at the position.
  pub read_on_lem :
      (r r' : Reading disk v) (len : ℕ) (bytes : List ℕ)
      → read_on r len ≡ some (bytes, r')
      → (bytes ≡ window (content disk v r.file.first_clus) r.file.pos (length bytes))
        × (r'.file.pos ≡ r.file.pos + length bytes)
        × (r'.file.size ≡ r.file.size)
        × (r'.file.first_clus ≡ r.file.first_clus)
        × (length bytes ≡ (read_lem r len).count)
  read_on_lem r r' len bytes e =
      let h = read_lem r len in
      let g : Option (List ℕ) → Option (List ℕ × Reading disk v) =
        λ o. with_option o none (λ bytes. some (bytes, after_read r len)) in
      elim h.result [
        | inl q ↦
            let p = sym (ap g q) ∙ e in
            let same = ap (λ o. with_option o [] (λ x. x.0)) p in
            let many = length-window (content disk v r.file.first_clus) r.file.pos h.count in
            let n : length bytes ≡ h.count = sym (ap length same) ∙ many in
            (
              sym same ∙ ap (window (content disk v r.file.first_clus) r.file.pos) (sym n),
              sym (ap (λ o. with_option o 0 (λ x. x.1.file.pos)) p)
                  ∙ h.moved
                  ∙ ap (λ i. r.file.pos + i) (sym n),
              sym (ap (λ o. with_option o 0 (λ x. x.1.file.size)) p) ∙ h.same_size,
              sym (ap (λ o. with_option o 0 (λ x. x.1.file.first_clus)) p) ∙ h.same_first,
              n,
            )
        | inr (q, lt) ↦ absurd (ground (arith, sym (ap g q) ∙ e))
      ]

  pub read_on_less :
      (r r' : Reading disk v) (len x : ℕ) (xs : List ℕ)
      → read_on r len ≡ some (x ∷ xs, r')
      → r'.file.size - r'.file.pos < r.file.size - r.file.pos
  read_on_less r r' len x xs e =
      let (same, moved, size, first, n) = read_on_lem r r' len (x ∷ xs) e in
      omega (arith, moved, size, r'.is_file.inside)

  -- The volume, with the cache that the opening starts from, as a reader of files.
  abbrev pub fat_reader : FatReader
  fat_reader = record {
    File = Reading disk v;
    fat_open =
        λ name. reading_of (fat_open disk v name) (λ f e. (fat_open-IsFile disk d v name f e).0);
    fat_read = read_on;
    left = λ r. r.file.size - r.file.pos;
    less = read_on_less;
  }
