-- ===== src/Storage/Blocks.antt =====
-- Writing blocks: the loop of storage_write_blocks, also where a flush fails in the middle.
use rpi_pico_card_reader.Prelude.{
  ℕ, zero, suc, ◌+◌, ◌-◌, ◌*◌, ◌/◌, ◌≤◌, ◌<◌, ◌≡◌, refl, sym, ap, ◌∙◌, Bool, true, ◌&&◌,
  if◌then◌else◌, if_intro, ltb, leb, u32, Array, arith,
}
use rpi_pico_card_reader.Storage.{
  Storage, fat_flash_size, blocks_per_sector, storage_flush, cache_load, put_block, write_rounds,
  storage_write_blocks,
}
use rpi_pico_card_reader.Storage.View.{view, IsStorage}
use rpi_pico_card_reader.Storage.Sector.{cache_load_lem, put_block-IsStorage, view-put_block}

-- What the host sees after n blocks from src are written at lba.
abbrev pub with_blocks : (ℕ → ℕ) → ℕ → ℕ → Array ℕ → ℕ → ℕ
with_blocks before lba n src a =
    if leb (lba * 512) a && ltb a ((lba + n) * 512) then src (a - lba * 512) else before a

-- The first `written` blocks are written, all of them if the call succeeds; it does so if every
-- flush does.
pub record IsWritten (s : Storage) (ok : ℕ → Bool) (lba count : ℕ) (src : Array ℕ)
    (r : Storage × Bool) : Type 0 where
  pub storage : IsStorage r.0
  pub written : ℕ
  pub at_most : written ≤ count
  pub complete : r.1 ≡ true → written ≡ count
  pub succeeds : ((i : ℕ) → i < count → ok i ≡ true) → r.1 ≡ true
  pub seen : (a : ℕ) → a < fat_flash_size → view r.0 a ≡ with_blocks (view s) lba written src a

load_succeeds :
    (ok : Bool) (sector : ℕ) (s : Storage) → ok ≡ true → (cache_load ok sector s).1 ≡ true
unfolding cache_load storage_flush
load_succeeds ok sector s h = ground arith

-- One block, and n blocks behind it.
with_blocks-suc :
    (before after : ℕ → ℕ) (lba n : ℕ) (src : Array ℕ) (a : ℕ)
    → lba < 6144
    → after a
      ≡ (if leb (lba * 512) a && ltb a (lba * 512 + 512) then src (a - lba * 512) else before a)
    → with_blocks after (u32 (lba + 1)) n (λ j. src (512 + j)) a
      ≡ with_blocks before lba (suc n) src a
with_blocks-suc before after lba n src a lt e =
    ground (arith, ap src {x = 512 + (a - u32 (lba + 1) * 512)} {y = a - lba * 512})

module _ (ok : ℕ → Bool) (now : ℕ → ℕ) where
  pub write_rounds_lem :
      (count lba : ℕ) (src : Array ℕ) (s : Storage)
      → IsStorage s
      → lba + count ≤ 6144
      → IsWritten s ok lba count src (write_rounds ok now count lba src s)
  unfolding write_rounds
  write_rounds_lem zero lba src s h le = record {
    storage = h;
    written = 0;
    at_most = omega arith;
    complete = λ e. refl;
    succeeds = λ e. refl;
    seen = λ a lt. ground arith;
  }
  write_rounds_lem (suc count) lba src s h le =
      let r = cache_load (ok count) (lba / blocks_per_sector) s in
      let l = cache_load_lem (ok count) (lba / blocks_per_sector) s h (omega arith) in
      let t = put_block (now count) lba src r.0 in
      if_intro (IsWritten s ok lba (suc count) src) r.1
        (λ p.
          let at = l.at_sector p in
          let rest =
            write_rounds_lem count (u32 (lba + 1)) (λ j. src (512 + j)) t
              (put_block-IsStorage (now count) lba src r.0 l.storage at (omega arith))
              (omega arith) in
          record {
            storage = rest.storage;
            written = suc rest.written;
            at_most = omega (arith, rest.at_most);
            complete = λ e. ap suc (rest.complete e);
            succeeds = λ e. rest.succeeds (λ i q. e i (omega arith));
            seen = λ a lt.
                rest.seen a lt
                ∙ with_blocks-suc (view s) (view t) lba rest.written src a (omega arith) (
                    view-put_block (now count) lba src r.0 l.storage at (omega arith) a lt
                    ∙ ap
                        (λ b.
                          if leb (lba * 512) a && ltb a (lba * 512 + 512)
                          then src (a - lba * 512)
                          else b)
                        (l.same a lt));
          })
        (λ p. record {
          storage = l.storage;
          written = 0;
          at_most = omega arith;
          complete = λ e. absurd (ground arith);
          succeeds = λ e.
              sym p ∙ load_succeeds (ok count) (lba / blocks_per_sector) s (e count (omega arith));
          seen = λ a lt. l.same a lt ∙ ground arith;
        })

-- Blocks written to the region: the host sees the first blocks of the request, as many as were
-- written, and everything else as before; a call that succeeds has written them all, and it does
-- so if every flash operation does. A failure in the middle loses nothing that was written before.
pub storage_write_blocks_lem :
    (s : Storage) (ok : ℕ → Bool) (now : ℕ → ℕ) (lba count : ℕ) (src : Array ℕ)
    → IsStorage s
    → lba + count ≤ 6144
    → let (t, done) = storage_write_blocks ok now lba count src s in
      IsStorage t
      × ((n : ℕ) × (n ≤ count)
          × (done ≡ true → n ≡ count)
          × (((i : ℕ) → i < count → ok i ≡ true) → done ≡ true)
          × ((a : ℕ) → a < fat_flash_size → view t a ≡ with_blocks (view s) lba n src a))
unfolding storage_write_blocks
storage_write_blocks_lem s ok now lba count src h le =
    let w = write_rounds_lem ok now count lba src s h le in
    if_intro
      (λ (r : Storage × Bool).
        IsStorage r.0
        × ((n : ℕ) × (n ≤ count)
            × (r.1 ≡ true → n ≡ count)
            × (((i : ℕ) → i < count → ok i ≡ true) → r.1 ≡ true)
            × ((a : ℕ) → a < fat_flash_size → view r.0 a ≡ with_blocks (view s) lba n src a)))
      (ltb fat_flash_size (u32 (u32 (lba + count) * 512))) (λ p. absurd (ground arith))
      (λ p. (w.storage, (w.written, w.at_most, w.complete, w.succeeds, w.seen)))
