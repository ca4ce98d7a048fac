-- ===== src/Fat/Content.antt =====
-- The contents of a file, from the table and the blocks alone, and the cluster cursor (the inner
-- loop of fat_read) against them.
use native.Mathlib.Nat.{le-div_iff_mul-le, div-lt_iff_lt-mul, mod-eq-sub-div-mul}
use rpi_pico_card_reader.Prelude.{
  ℕ, zero, suc, ◌+◌, ◌-◌, ◌*◌, ◌/◌, ◌%◌, ◌≤◌, ◌<◌, ◌≡◌, inl, inr, refl, sym, ap, ap₂, ◌∙◌, Bool,
  true, false, ◌||◌, Bool-cases, Option, none, some, if◌then◌else◌, if_intro, with_option,
  with_option_intro, ltb, ◌==◌, get_or, u32, arith,
}
use rpi_pico_card_reader.Fat.Volume.{Disk, block_size, FatVol}
use rpi_pico_card_reader.Fat.Chain.{FatCache, entry_offset, next_cluster, end_of_chain}
use rpi_pico_card_reader.Fat.File.{FatFile, clus_bytes, in_clus, seek}
use rpi_pico_card_reader.Fat.Entry.{IsDisk, fat_byte, next_of, IsCoherent, next_cluster_lem}

-- The volume that fat_mount gives, as far as reading a file needs it.
pub record IsVol (v : FatVol) : Type 0 where
  pub fat_fits : v.fat_start < 65536
  pub some_sector : 0 < v.sec_per_clus
  pub few_sectors : v.sec_per_clus < 256

module _ (disk : Disk) (v : FatVol) where
  abbrev pub following : ℕ → Option ℕ
  following c = let n = next_of disk v c in if ltb n 2 || end_of_chain v n then none else some n

  -- Cluster k of a chain.
  abbrev pub chain : ℕ → ℕ → Option ℕ
  chain first zero = some first
  chain first (suc k) = with_option (chain first k) none following

  -- The byte at offset i of a cluster.
  abbrev pub cluster_byte : ℕ → ℕ → Option ℕ
  cluster_byte c i =
      with_option (disk (u32 (v.data_start + (c + 4294967294) * v.sec_per_clus + i / block_size)))
        none (λ b. some (get_or b (i % block_size) 0))

  -- Byte p of the file whose first cluster is `first`.
  abbrev pub file_byte : ℕ → ℕ → Option ℕ
  file_byte first p =
      with_option (chain first (p / clus_bytes v)) none (λ c. cluster_byte c (p % clus_bytes v))

  -- The cursor is at the start of a cluster of the file's chain, not behind the position.
  pub record IsFile (f : FatFile) : Type 0 where
    pub index : ℕ
    pub at_cluster : chain f.first_clus index ≡ some f.cur_clus
    pub start : f.clus_pos ≡ index * clus_bytes v
    pub within : f.clus_pos ≤ f.pos
    pub inside : f.pos ≤ f.size
    pub fits : f.size < 4294967296
    pub small : f.cur_clus < 65536

chain-none :
    (disk : Disk) (v : FatVol) (first k j : ℕ)
    → k ≤ j
    → chain disk v first k ≡ none
    → chain disk v first j ≡ none
chain-none disk v first k zero le e = ap (chain disk v first) {x = zero} {y = k} (omega arith) ∙ e
chain-none disk v first k (suc j) le e = elim (Bool-cases (k == suc j)) [
  | inl p ↦ ap (chain disk v first) {x = suc j} {y = k} (ground arith) ∙ e
  | inr p ↦
      ap (λ o. with_option o none (following disk v)) (chain-none disk v first k j (ground arith) e)
]

module _ (disk : Disk) (v : FatVol) (w : IsVol v) where
  abbrev cb : ℕ
  cb = clus_bytes v

  cb_pos : 0 < cb
  cb_pos = omega (arith, w.some_sector)

  pub div_clus : (k p : ℕ) → k * cb ≤ p → p < k * cb + cb → p / cb ≡ k
  div_clus k p ge lt = omega (
    arith,
    (le-div_iff_mul-le {k = cb} {x = k} {y = p} cb_pos).1 ge,
    (div-lt_iff_lt-mul {k = cb} {x = p} {y = suc k} cb_pos).1 (grind arith),
  )

  -- A byte of the cluster that the cursor is at.
  pub file_byte-in :
      (f : FatFile) (h : IsFile disk v f) (p : ℕ)
      → f.clus_pos ≤ p
      → p < f.clus_pos + cb
      → file_byte disk v f.first_clus p ≡ cluster_byte disk v f.cur_clus (p - f.clus_pos)
  file_byte-in f h p ge lt =
      let k : p / cb ≡ h.index =
        div_clus h.index p (omega (arith, h.start)) (omega (arith, h.start)) in
      ap₂ (λ k i. with_option (chain disk v f.first_clus k) none (λ c. cluster_byte disk v c i)) k
        (mod-eq-sub-div-mul p cb ∙ ap (λ q. p - q * cb) k ∙ ap (λ q. p - q) (sym h.start))
      ∙ ap (λ o. with_option o none (λ c. cluster_byte disk v c (p - f.clus_pos))) h.at_cluster

  -- Past the end of the chain there are no bytes.
  pub file_byte-past :
      (first k p : ℕ) → k * cb ≤ p → chain disk v first k ≡ none → file_byte disk v first p ≡ none
  file_byte-past first k p le e =
      ap (λ o. with_option o none (λ c. cluster_byte disk v c (p % cb)))
        (chain-none disk v first k (p / cb)
          ((le-div_iff_mul-le {k = cb} {x = k} {y = p} cb_pos).1 le) e)

fat_byte-lt :
    (disk : Disk) (v : FatVol) (k x : ℕ) → IsDisk disk → fat_byte disk v k ≡ some x → x < 256
fat_byte-lt disk v k x d =
    let l = u32 (v.fat_start + k / block_size) in
    with_option_intro (λ o. o ≡ some x → x < 256) (disk l) (λ e q. absurd (ground (arith, q)))
      (λ b e q. ground (arith, q, d.bytes l b e (k % block_size)))

next_of-lt : (disk : Disk) (v : FatVol) (clus : ℕ) → IsDisk disk → next_of disk v clus < 65536
next_of-lt disk v clus d =
    let off = entry_offset v clus in
    with_option_intro (λ n. n < 65536) (fat_byte disk v off) (λ e. omega arith)
      (λ lo e.
        with_option_intro (λ n. n < 65536) (fat_byte disk v (off + 1)) (λ q. omega arith)
          (λ hi q.
            let small_lo = fat_byte-lt disk v off lo d e in
            let small_hi = fat_byte-lt disk v (off + 1) hi d q in ground arith))

-- The cursor after the inner loop: it is at the position, or the chain ends before that.
pub record IsSought (disk : Disk) (v : FatVol) (f : FatFile) (r : FatFile × FatCache × Bool)
    : Type 0 where
  pub file : IsFile disk v r.0
  pub coherent : IsCoherent disk r.1
  pub pos : r.0.pos ≡ f.pos
  pub size : r.0.size ≡ f.size
  pub first : r.0.first_clus ≡ f.first_clus
  pub here : r.2 ≡ true → f.pos < r.0.clus_pos + clus_bytes v
  pub past : r.2 ≡ false → file_byte disk v f.first_clus f.pos ≡ none

next_start : (k n : ℕ) → suc k * n ≡ k * n + n
next_start k n = grind arith

module _ (disk : Disk) (v : FatVol) (w : IsVol v) (d : IsDisk disk) where
  pub seek_lem :
      (fuel : ℕ) (f : FatFile) (c : FatCache)
      → IsFile disk v f
      → IsCoherent disk c
      → f.pos < f.clus_pos + fuel
      → IsSought disk v f (seek disk v fuel f c)
  unfolding seek
  seek_lem zero f c h k lt = absurd (omega (arith, h.within))
  seek_lem (suc fuel) f c h k lt =
      let bytes = clus_bytes v in
      let (nx, c') = next_cluster disk v f.cur_clus c in
      let (entry, coherent) = next_cluster_lem disk v f.cur_clus c w.fat_fits h.small k in
      let g = record f { cur_clus = nx; clus_pos = u32 (f.clus_pos + bytes) } in
      if_intro (IsSought disk v f) (ltb (in_clus f) bytes)
        (λ p. record {
          file = h;
          coherent = k;
          pos = refl;
          size = refl;
          first = refl;
          here = λ e. ground (arith, h.within, h.inside, h.fits);
          past = λ e. absurd (ground arith);
        })
        (λ p.
          let step : chain disk v f.first_clus (suc h.index)
              ≡ (if ltb nx 2 || end_of_chain v nx then none else some nx) =
            ap (λ o. with_option o none (following disk v)) h.at_cluster
            ∙ ap (λ n. if ltb n 2 || end_of_chain v n then none else some n) (sym entry) in
          let far : f.clus_pos + bytes ≤ f.pos = ground (arith, h.within, h.inside, h.fits) in
          if_intro (IsSought disk v f) (ltb nx 2 || end_of_chain v nx)
            (λ q. record {
              file = h;
              coherent = coherent;
              pos = refl;
              size = refl;
              first = refl;
              here = λ e. absurd (ground arith);
              past = λ e.
                  file_byte-past disk v w f.first_clus (suc h.index) f.pos
                    (omega (arith, next_start h.index (clus_bytes v), h.start, far))
                    (step ∙ ap (λ b. if b then none else some nx) q);
            })
            (λ q.
              let rest =
                seek_lem fuel g c'
                  (record {
                    index = suc h.index;
                    at_cluster = step ∙ ap (λ b. if b then none else some nx) q;
                    start =
                        omega (
                          arith,
                          next_start h.index (clus_bytes v),
                          h.start,
                          h.fits,
                          h.inside,
                          far,
                        );
                    within = omega (arith, far, h.fits, h.inside);
                    inside = h.inside;
                    fits = h.fits;
                    small = omega (arith, entry, next_of-lt disk v f.cur_clus d);
                  })
                  coherent (omega (arith, w.some_sector, h.fits, h.inside, far)) in
              record {
                file = rest.file;
                coherent = rest.coherent;
                pos = rest.pos;
                size = rest.size;
                first = rest.first;
                here = rest.here;
                past = rest.past;
              }))
