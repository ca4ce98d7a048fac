-- ===== src/Fat/Block.antt =====
-- One round of fat_read: the block at the cursor, and the bytes that are taken of it.
use rpi_pico_card_reader.Prelude.{
  ℕ, zero, suc, ◌+◌, ◌-◌, ◌*◌, ◌/◌, ◌%◌, ◌≤◌, ◌<◌, ◌≡◌, ◌⊎◌, inl, inr, refl, sym, ap, ap₂, ◌∙◌,
  List, [], ◌∷◌, ◌++◌, none, some, with_option, get_or, take, drop, length, length-take,
  length-drop, window, window_ext, window_shift, window-append, u32, arith,
}
use rpi_pico_card_reader.Fat.Volume.{Disk, block_size, FatVol}
use rpi_pico_card_reader.Fat.File.{
  FatFile, clus_bytes, in_clus, block_at, bytes_at, ReadResult, prepend,
}
use rpi_pico_card_reader.Fat.Entry.{IsDisk, IsCoherent}
use rpi_pico_card_reader.Fat.Content.{IsVol, IsFile, file_byte, cluster_byte, file_byte-in}

-- A part of a list, as a window of its entries.
take-window : (n : ℕ) (xs : List ℕ) → take n xs ≡ window (λ i. get_or xs i 0) 0 (length (take n xs))
take-window zero xs = refl
take-window (suc n) [] = refl
take-window (suc n) (x ∷ xs) =
    let m = length (take n xs) in
    ap (λ ys. x ∷ ys)
      (take-window n xs
        ∙ window_ext _ (λ j. get_or (x ∷ xs) (1 + j) 0) 0 m
            (λ j p q. ap (λ i. get_or (x ∷ xs) i 0) {x = suc j} {y = 1 + j} (omega arith))
        ∙ window_shift (λ i. get_or (x ∷ xs) i 0) 1 0 m
        ∙ ap (λ i. window (λ i. get_or (x ∷ xs) i 0) i m) {x = 1 + 0} {y = 0 + 1} (omega arith))

get_or-drop : (k : ℕ) (xs : List ℕ) (i : ℕ) → get_or (drop k xs) i 0 ≡ get_or xs (k + i) 0
get_or-drop zero xs i = ap (λ j. get_or xs j 0) {x = i} {y = 0 + i} (omega arith)
get_or-drop (suc k) [] i = refl
get_or-drop (suc k) (x ∷ xs) i =
    get_or-drop k xs i
    ∙ ap (λ j. get_or (x ∷ xs) j 0) {x = suc (k + i)} {y = suc k + i} (omega arith)

-- The byte at a position, 0 where there is none.
abbrev pub content : Disk → FatVol → ℕ → ℕ → ℕ
content disk v first p = with_option (file_byte disk v first p) 0 (λ x. x)

-- Of `left` bytes that are wanted, `count` are there: they are read, or a later block cannot be,
-- and the file has no byte after them if they are fewer.
pub record IsRead (disk : Disk) (v : FatVol) (first pos size left : ℕ) (r : ReadResult)
    : Type 0 where
  pub count : ℕ
  pub at_most : count ≤ left
  pub result :
      (r.0 ≡ some (window (content disk v first) pos count)) ⊎ ((r.0 ≡ none) × (count < left))
  pub stop : count < left → file_byte disk v first (pos + count) ≡ none
  pub file : IsFile disk v r.1
  pub moved : r.1.pos ≡ pos + count
  pub same_size : r.1.size ≡ size
  pub same_first : r.1.first_clus ≡ first
  pub coherent : IsCoherent disk r.2

module _ (disk : Disk) (v : FatVol) (w : IsVol v) (d : IsDisk disk) where
  -- The block at the cursor is the block of the byte at the position, and of those behind it.
  module _ (f : FatFile) (h : IsFile disk v f) (here : f.pos < f.clus_pos + clus_bytes v) where
    pub block_bytes :
        (sec : List ℕ) (i : ℕ)
        → disk (block_at v f) ≡ some sec
        → in_clus f % block_size + i < block_size
        → file_byte disk v f.first_clus (f.pos + i)
          ≡ some (get_or sec (in_clus f % block_size + i) 0)
    block_bytes sec i e lt =
        let at : in_clus f ≡ f.pos - f.clus_pos = omega (arith, h.within, h.inside, h.fits) in
        file_byte-in disk v w f h (f.pos + i) (omega (arith, h.within))
          (omega (arith, h.within, at))
        ∙ ap₂ (λ l j. with_option (disk l) none (λ b. some (get_or b j 0)))
            {x = u32 (
              v.data_start
              + (f.cur_clus + 4294967294) * v.sec_per_clus
              + (f.pos + i - f.clus_pos) / block_size)}
            {y = block_at v f}
            (ap (λ q. u32 (v.data_start + (f.cur_clus + 4294967294) * v.sec_per_clus + q))
              {x = (f.pos + i - f.clus_pos) / block_size} {y = in_clus f / block_size}
              (omega (arith, at, h.within, lt)))
            (omega (arith, at, h.within, lt))
        ∙ ap (λ o. with_option o none (λ b. some (get_or b (in_clus f % block_size + i) 0))) e

    pub no_block : disk (block_at v f) ≡ none → file_byte disk v f.first_clus f.pos ≡ none
    no_block e =
        let at : f.pos - f.clus_pos ≡ in_clus f = omega (arith, h.within, h.inside, h.fits) in
        file_byte-in disk v w f h f.pos h.within here
        ∙ ap (λ i. cluster_byte disk v f.cur_clus i) at
        ∙ ap (λ o. with_option o none (λ b. some (get_or b (in_clus f % block_size) 0))) e

    pub bytes_at-window :
        (sec : List ℕ) (left : ℕ)
        → disk (block_at v f) ≡ some sec
        → bytes_at f left sec
          ≡ window (content disk v f.first_clus) f.pos (length (bytes_at f left sec))
    bytes_at-window sec left e =
        let j = in_clus f % block_size in
        let m = length (bytes_at f left sec) in
        let c = content disk v f.first_clus in
        take-window left (drop j sec)
        ∙ window_ext _ (λ i. c (f.pos + i)) 0 m
            (λ i p q.
              get_or-drop j sec i
              ∙ sym (
                  ap (λ o. with_option o 0 (λ x. x))
                    (block_bytes sec i e (
                      omega (
                        arith,
                        length-take left (drop j sec),
                        length-drop j sec,
                        d.sized (block_at v f) sec e,
                      )))))
        ∙ window_shift c f.pos 0 m
        ∙ ap (λ i. window c i m) {x = f.pos + 0} {y = f.pos} (omega arith)

    pub length-bytes_at :
        (sec : List ℕ) (left : ℕ)
        → disk (block_at v f) ≡ some sec
        → 0 < left
        → (0 < length (bytes_at f left sec)) × (length (bytes_at f left sec) ≤ left)
    length-bytes_at sec left e pos =
        let j = in_clus f % block_size in
        omega
          (arith, length-take left (drop j sec), length-drop j sec, d.sized (block_at v f) sec e)

    -- What a round reads is put before what the later rounds read.
    pub prepend-IsRead :
        (sec : List ℕ) (left : ℕ) (r : ReadResult)
        → disk (block_at v f) ≡ some sec
        → 0 < left
        → IsRead disk v f.first_clus
            (f.pos + length (bytes_at f left sec))
            f.size
            (left - length (bytes_at f left sec))
            r
        → IsRead disk v f.first_clus f.pos f.size left (prepend (bytes_at f left sec) r)
    prepend-IsRead sec left r e pos rest =
        let n = length (bytes_at f left sec) in
        let c = content disk v f.first_clus in
        let (some_read, most) = length-bytes_at sec left e pos in
        record {
          count = n + rest.count;
          at_most = omega (arith, rest.at_most, most);
          result = elim rest.result [
            | inl q ↦ inl (
                ap (λ o. with_option o none (λ bs. some (bytes_at f left sec ++ bs))) q
                ∙ ap (λ bs. some (bs ++ window c (f.pos + n) rest.count))
                    (bytes_at-window sec left e)
                ∙ ap some (sym (window-append c f.pos n rest.count)))
            | inr (q, lt) ↦ inr (
              ap (λ o. with_option o none (λ bs. some (bytes_at f left sec ++ bs))) q,
              omega (arith, lt, most),
            )
          ];
          stop = λ lt.
              ap (file_byte disk v f.first_clus) {x = f.pos + (n + rest.count)}
                {y = f.pos + n + rest.count} (omega arith)
              ∙ rest.stop (omega (arith, lt, most));
          file = rest.file;
          moved = omega (arith, rest.moved);
          same_size = rest.same_size;
          same_first = rest.same_first;
          coherent = rest.coherent;
        }
