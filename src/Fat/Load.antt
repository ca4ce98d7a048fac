-- ===== src/Fat/Load.antt =====
-- Loading a capture file from the FAT volume: deckload_file over fat_open and fat_read.
use rpi_pico_card_reader.Prelude.{
  ℕ, zero, suc, ◌+◌, ◌-◌, ◌<◌, ◌≡◌, ◌⊎◌, inl, inr, refl, sym, subst, ap, ap₂, ◌∙◌, List, [], ◌∷◌,
  ◌++◌, none, some, Bool-cases, if◌then◌else◌, with_option, ltb, ◌&&◌, length, take, drop, window,
  window-append, arith,
}
use rpi_pico_card_reader.Fat.Volume.{Disk, FatVol}
use rpi_pico_card_reader.Fat.Chain.{FatCache}
use rpi_pico_card_reader.Fat.Directory.{fat_name_max}
use rpi_pico_card_reader.Fat.File.{FatFile, Opened, opened, fat_open}
use rpi_pico_card_reader.Fat.Entry.{IsDisk, IsCoherent}
use rpi_pico_card_reader.Fat.Content.{IsVol, IsFile, file_byte}
use rpi_pico_card_reader.Fat.Block.{content}
use rpi_pico_card_reader.Fat.Reader.{
  fat_open-IsFile, file_of, Reading, reading_of, read_lem, after_read, read_on, fat_reader,
}
use rpi_pico_card_reader.Cap.{list_eq, cap_parse_init, cap_parse_chunk, cap_parse_finish}
use rpi_pico_card_reader.Cap.Stream.{concat, parse_chunks-eq-cap_parse_chunk}
use rpi_pico_card_reader.Deckload.{FatReader, chars, open_with_fallback, deckload_file}
use rpi_pico_card_reader.Deckload.File.{IsReading, eof, chunk, named_deck, deckload_file_lem}

zero_or_suc : (n : ℕ) → (n ≡ 0) ⊎ ((m : ℕ) × (n ≡ suc m))
zero_or_suc zero = inl refl
zero_or_suc (suc m) = inr (m, refl)

-- Every byte of the file can be read.
abbrev pub IsWhole : Disk → FatVol → FatFile → Type 0
IsWhole disk v f = (p : ℕ) → p < f.size → (x : ℕ) × (file_byte disk v f.first_clus p ≡ some x)

module _ (disk : Disk) (v : FatVol) (w : IsVol v) (d : IsDisk disk) (c : FatCache)
    (k : IsCoherent disk c) where
  abbrev Vol : FatReader
  Vol = fat_reader disk v w d c k

  abbrev text_of : FatFile → List ℕ
  text_of f = window (content disk v f.first_clus) f.pos (f.size - f.pos)

  abbrev Reads : Reading disk v → Type 0
  Reads r = (cs : List (List ℕ)) × IsReading Vol r cs × (concat cs ≡ text_of r.file)

  -- A read of a whole file gives all that is left, or 512 bytes.
  full_read :
      (r : Reading disk v)
      → IsWhole disk v r.file
      → (n : ℕ) × (n
          ≡ (if ltb (r.file.size - r.file.pos) 512 then r.file.size - r.file.pos else 512))
        × (read_on disk v w d c k r 512
            ≡ some (
              window (content disk v r.file.first_clus) r.file.pos n,
              after_read disk v w d c k r 512,
            ))
        × ((after_read disk v w d c k r 512).file.pos ≡ r.file.pos + n)
  full_read r whole =
      let h = read_lem disk v w d c k r 512 in
      let full : h.count
          ≡ (if ltb (r.file.size - r.file.pos) 512 then r.file.size - r.file.pos else 512) =
        elim (Bool-cases (
          ltb h.count
            (if ltb (r.file.size - r.file.pos) 512 then r.file.size - r.file.pos else 512))) [
              | inl lt ↦
                  let stop = h.stop (ground (arith, lt)) in
                  let (x, e) =
                    whole (r.file.pos + h.count) (ground (arith, lt, r.is_file.inside)) in
                  absurd (ground (arith, sym stop ∙ e))
              | inr ge ↦ ground (arith, ge, h.at_most)
            ] in
      (
        h.count,
        full,
        (elim h.result [
          | inl q ↦
              ap (λ o. with_option o none (λ bytes. some (bytes, after_read disk v w d c k r 512)))
                q
          | inr (q, lt) ↦ absurd (omega (arith, lt, full))
        ]),
        h.moved,
      )

  -- The reads from a position on, one per unit of fuel.
  reads :
      (fuel : ℕ) (r : Reading disk v)
      → r.file.size - r.file.pos < fuel
      → IsWhole disk v r.file
      → Reads r
  reads zero r lt whole = absurd (omega (arith, lt))
  reads (suc fuel) r lt whole =
      let (n, full, e, moved) = full_read r whole in
      let r' = after_read disk v w d c k r 512 in
      let h = read_lem disk v w d c k r 512 in
      let c' = content disk v r.file.first_clus in
      elim (zero_or_suc n) [
        | inl p ↦ (
          [],
          eof (e ∙ ap (λ m. some (window c' r.file.pos m, r')) p),
          ap (window c' r.file.pos) {x = 0} (ground (arith, full, p)),
        )
        | inr (m, p) ↦
            let (cs, rest, same) = reads fuel r' (omega (arith, moved, h.same_size, p, lt)) (λ q u.
              let (x, b) = whole q (omega (arith, h.same_size, u)) in
              (x, ap (λ s. file_byte disk v s q) h.same_first ∙ b)) in
            (
              window c' r.file.pos (suc m) ∷ cs,
              chunk (e ∙ ap (λ m. some (window c' r.file.pos m, r')) p) rest,
              ap (λ text. window c' r.file.pos (suc m) ++ text)
                    (same
                      ∙ ap (λ s. window (content disk v s) r'.file.pos (r'.file.size - r'.file.pos))
                          h.same_first
                      ∙ ap₂ (window c') {x = r'.file.pos} {y = r.file.pos + suc m}
                          (omega (arith, moved, p)) (ap₂ (λ a b. a - b) h.same_size moved))
                  ∙ sym (window-append c' r.file.pos (suc m) (r.file.size - (r.file.pos + n)))
                  ∙ ap (window c' r.file.pos) {x = suc m + (r.file.size - (r.file.pos + n))}
                      (ground (arith, full, p)),
            )
      ]

  reading_of-opened :
      (o : Opened) (h : (f : FatFile) → o ≡ opened f → IsFile disk v f) (f : FatFile)
      → o ≡ opened f
      → (r : Reading disk v) × (reading_of disk v w d c k o h ≡ some r) × (r.file ≡ f)
  reading_of-opened (opened g) h f e = (_, refl, ap (file_of g) e)
  reading_of-opened Opened.unreadable h f e = absurd (ground (arith, e))
  reading_of-opened Opened.not_found h f e = absurd (ground (arith, e))

  -- A capture file that fat_open finds on the volume, and whose every byte can be read, is loaded
  -- from exactly its contents: the bytes of its chain of clusters, up to its size.
  pub deckload_file-fat_read :
      (name : List ℕ) (f : FatFile)
      → fat_open disk v name ≡ opened f
      → IsWhole disk v f
      → deckload_file Vol name
        ≡ named_deck name (
            cap_parse_finish
              (cap_parse_chunk cap_parse_init (window (content disk v f.first_clus) 0 f.size)))
  unfolding open_with_fallback
  deckload_file-fat_read name f e whole =
      let fallback =
        if ltb 4 (length name)
          && ltb (length name) (fat_name_max - 4)
          && list_eq (drop (length name - 4) name) (chars ".cap")
        then Vol.fat_open (take (length name - 4) name ++ chars ".hex.cap")
        else none in
      let (r, found, same) =
        reading_of-opened (fat_open disk v name) (λ f e. (fat_open-IsFile disk d v name f e).0) f
          e in
      let (cs, reading, text) =
        reads (suc (r.file.size - r.file.pos)) r (omega arith)
          (subst (IsWhole disk v) (sym same) whole) in
      deckload_file_lem Vol name r cs (ap (λ o. with_option o fallback (λ f. some f)) found) reading
      ∙ ap (λ p. named_deck name (cap_parse_finish p))
          (parse_chunks-eq-cap_parse_chunk cap_parse_init cs
            ∙ ap (cap_parse_chunk cap_parse_init) (
                text
                ∙ ap text_of same
                ∙ ap (λ p. window (content disk v f.first_clus) p (f.size - p)) {y = 0}
                    (fat_open-IsFile disk d v name f e).1
                ∙ ap (window (content disk v f.first_clus) 0) {x = f.size - 0} (omega arith)))
