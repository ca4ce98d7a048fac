-- ===== src/Fat/Read.antt =====
-- fat_read against the contents of the file: the bytes that it gives, where it stops, and what it
-- leaves.
use rpi_pico_card_reader.Prelude.{
  ℕ, zero, suc, ◌+◌, ◌-◌, ◌≤◌, ◌<◌, ◌≡◌, ◌⊎◌, inl, inr, refl, ap, ap₂, subst, ◌∙◌, List, [], Option,
  none, some, if◌then◌else◌, if_intro, with_option_intro, ltb, leb, ◌==◌, length, u32, arith,
}
use rpi_pico_card_reader.Fat.Volume.{Disk, FatVol}
use rpi_pico_card_reader.Fat.Chain.{FatCache}
use rpi_pico_card_reader.Fat.File.{
  FatFile, clus_bytes, block_at, bytes_at, seek, ReadResult, read_rounds, fat_read,
}
use rpi_pico_card_reader.Fat.Entry.{IsDisk, IsCoherent}
use rpi_pico_card_reader.Fat.Content.{IsVol, IsFile, file_byte, seek_lem}
use rpi_pico_card_reader.Fat.Block.{IsRead, no_block, length-bytes_at, prepend-IsRead}

module _ (disk : Disk) (v : FatVol) (w : IsVol v) (d : IsDisk disk) where
  -- Nothing is read: nothing is wanted, or there is no byte at the position.
  none_read :
      (left : ℕ) (f : FatFile) (c : FatCache) (o : Option (List ℕ))
      → IsFile disk v f
      → IsCoherent disk c
      → (o ≡ some []) ⊎ ((o ≡ none) × (0 < left))
      → (0 < left → file_byte disk v f.first_clus f.pos ≡ none)
      → IsRead disk v f.first_clus f.pos f.size left (o, f, c)
  none_read left f c o h k result stop = record {
    count = 0;
    at_most = omega arith;
    result = result;
    stop = λ lt.
        ap (file_byte disk v f.first_clus) {x = f.pos + 0} {y = f.pos} (omega arith) ∙ stop lt;
    file = h;
    moved = omega arith;
    same_size = refl;
    same_first = refl;
    coherent = k;
  }

  at_position :
      {first first' pos pos' size size' left : ℕ} {r : ReadResult}
      → pos' ≡ pos
      → size' ≡ size
      → first' ≡ first
      → IsRead disk v first' pos' size' left r
      → IsRead disk v first pos size left r
  at_position {first} {first'} {pos} {pos'} {size} {size'} {left} {r} p q o h =
      subst (λ x. IsRead disk v first x size left r) p
        (subst (λ x. IsRead disk v first pos' x left r) q
          (subst (λ x. IsRead disk v x pos' size' left r) o h))

  -- The rounds, each of which reads the rest of a block.
  read_rounds_lem :
      (fuel left : ℕ) (f : FatFile) (c : FatCache)
      → IsFile disk v f
      → IsCoherent disk c
      → left ≤ fuel
      → f.pos + left ≤ f.size
      → IsRead disk v f.first_clus f.pos f.size left (read_rounds disk v fuel left f c)
  unfolding read_rounds
  read_rounds_lem zero left f c h k le fit =
      none_read left f c (some []) h k (inl refl) (λ e. absurd (omega arith))
  read_rounds_lem (suc fuel) left f c h k le fit =
      let (f', c', here) = seek disk v (suc f.pos) f c in
      let s = seek_lem disk v w d (suc f.pos) f c h k (omega arith) in
      if_intro (IsRead disk v f.first_clus f.pos f.size left) (left == 0)
        (λ p. none_read left f c (some []) h k (inl refl) (λ e. absurd (ground arith)))
        (λ p.
          if_intro (IsRead disk v f.first_clus f.pos f.size left) here
            (λ q.
              let in_cluster : f'.pos < f'.clus_pos + clus_bytes v =
                omega (arith, s.here q, s.pos) in
              let wanted : 0 < left = ground (arith, p) in
              with_option_intro (IsRead disk v f.first_clus f.pos f.size left)
                (disk (block_at v f'))
                (λ e. at_position s.pos s.size s.first (
                  none_read left f' c' none s.file s.coherent (inr (refl, wanted))
                    (λ u. no_block disk v w d f' s.file in_cluster e)))
                (λ sec e.
                  let n = length (bytes_at f' left sec) in
                  let few = length-bytes_at disk v w d f' s.file in_cluster sec left e wanted in
                  let moved : u32 (f'.pos + n) ≡ f'.pos + n =
                    omega (arith, s.file.fits, s.pos, s.size, few, fit) in
                  at_position s.pos s.size s.first (
                    prepend-IsRead disk v w d f' s.file in_cluster sec left _ e wanted (
                      at_position moved refl refl (
                        read_rounds_lem fuel (left - n) (record f' { pos = u32 (f'.pos + n) }) c'
                          (record {
                            index = s.file.index;
                            at_cluster = s.file.at_cluster;
                            start = s.file.start;
                            within = omega (arith, moved, s.file.within);
                            inside = omega (arith, moved, s.pos, s.size, few, fit);
                            fits = s.file.fits;
                            small = s.file.small;
                          })
                          s.coherent (omega (arith, few))
                          (omega (arith, moved, s.pos, s.size, few, fit)))))))
            (λ q. at_position s.pos s.size s.first (
              none_read left f' c' (some []) s.file s.coherent (inl refl)
                (λ u. ap₂ (file_byte disk v) s.first s.pos ∙ s.past q))))

  -- fat_read gives the file's bytes from the position on, as many as are asked for and are left,
  -- and moves the position behind them. It gives fewer, or -1, only where the file has no byte to
  -- give: its chain of clusters ends, or a block cannot be read. What it leaves can be read on: the
  -- cursor and the cached FAT sector are right again.
  pub fat_read_lem :
      (f : FatFile) (c : FatCache) (len : ℕ)
      → IsFile disk v f
      → IsCoherent disk c
      → IsRead disk v f.first_clus f.pos f.size
          (if ltb (f.size - f.pos) len then f.size - f.pos else len)
          (fat_read disk v f c len)
  unfolding fat_read
  fat_read_lem f c len h k =
      let n = if ltb (f.size - f.pos) len then f.size - f.pos else len in
      if_intro (IsRead disk v f.first_clus f.pos f.size n) (leb f.size f.pos)
        (λ p. none_read n f c (some []) h k (inl refl) (λ lt. absurd (ground (arith, p, h.inside))))
        (λ p. read_rounds_lem n n f c h k (omega arith) (ground (arith, h.inside)))
