-- ===== src/Deckload.antt =====
-- src/deckload.c and the table of src/surgery.c: a deck image from a file of the FAT volume. The
-- reader of the volume is an interface: the files of src/fat_ro.c, with what the loops rely on. A
-- string is the list of its characters.
pub mod File
use Prim.Native.Char.{code}
use Prim.Native.String.{String}
use rpi_pico_card_reader.Fat.Directory.{fat_name_max}
use rpi_pico_card_reader.Prelude.{
  ℕ, zero, suc, ◌+◌, ◌-◌, ◌<◌, ◌≡◌, List, [], ◌∷◌, ◌++◌, Bool, true, false, not, ◌&&◌, Option, none,
  some, if◌then◌else◌, with_option, ltb, leb, ◌==◌, length, take, drop,
}
use rpi_pico_card_reader.Deck.{DeckImg, zero_img, deck_find_loader_card}
use rpi_pico_card_reader.Cap.{
  CapStatus, is_ok, list_eq, CapParser, cap_parse_init, cap_parse_chunk, cap_parse_finish,
}
use rpi_pico_card_reader.Surgery.{
  SurgeryOp, as_is, trim_title_summary, serial_loader, surgery_apply,
}
use rpi_pico_card_reader.Bin2deck.{
  Bin2deck, bin2deck_ipl_max, bin2deck_begin, bin2deck_feed, bin2deck_end, bin2deck_ipl,
}

-- struct fat_vol with fat_open and fat_read. A negative result is `none`, the end of the file is no
-- bytes; a read that gives bytes leaves less of the file.
pub record FatReader : Type 1 where
  pub File : Type 0
  pub fat_open : List ℕ → Option File
  pub fat_read : File → ℕ → Option (List ℕ × File)
  pub left : File → ℕ
  pub less :
      (f f' : File) (size : ℕ) (x : ℕ) (xs : List ℕ)
      → fat_read f size ≡ some (x ∷ xs, f')
      → left f' < left f

-- The codes 0, -1 and -2.
pub data Loaded : Type 0 where
  loaded : DeckImg → Loaded
  no_file bad_file : Loaded

abbrev pub chars : String → List ℕ
chars String.[] = []
chars (String.◌∷◌ c s) = code c ∷ chars s

-- The image that deckload_prepare and deckload_batch build on.
abbrev pub blank_img : DeckImg
blank_img = record zero_img { loader_card = none }

abbrev pub recipe : Bool → DeckImg → SurgeryOp
recipe raw tmp =
    if not raw && with_option tmp.loader_card false (λ l. ltb 0 l) && leb 7 tmp.n_cards
    then serial_loader
    else as_is

abbrev pub to_loaded : Option DeckImg → Loaded
to_loaded o = with_option o bad_file loaded

module _ (vol : FatReader) where
  -- "x.cap", or else "x.hex.cap"
  unfoldable pub open_with_fallback : List ℕ → Option vol.File
  open_with_fallback name =
      let n = length name in
      let stem = take (n - 4) name in
      with_option (vol.fat_open name)
        (if ltb 4 n && ltb n (fat_name_max - 4) && list_eq (drop (n - 4) name) (chars ".cap")
          then vol.fat_open (stem ++ chars ".hex.cap")
          else none)
        (λ f. some f)

  -- The loop of deckload_file, a read per unit of fuel.
  unfoldable pub parse_rounds : ℕ → vol.File → CapParser → Option CapParser
  parse_rounds zero f p = none
  parse_rounds (suc fuel) f p = elim (vol.fat_read f 512) [
    | none ↦ none
    | some ([], f') ↦ some p
    | some (x ∷ xs, f') ↦
        let p' = cap_parse_chunk p (x ∷ xs) in
        let rest = parse_rounds fuel f' p' in if is_ok p'.error then rest else none
  ]

  unfoldable pub deckload_file : List ℕ → Loaded
  unfolding parse_rounds open_with_fallback
  deckload_file name = with_option (open_with_fallback name) no_file (λ f.
      with_option (parse_rounds (suc (vol.left f)) f cap_parse_init) bad_file (λ p.
        let (img, status) = cap_parse_finish p in
        if is_ok status
        then loaded (deck_find_loader_card (record img { name = take 47 name })).0
        else bad_file))

  unfoldable pub deckload_prepare : List ℕ → Bool → Loaded
  unfolding deckload_file
  deckload_prepare name raw = elim (deckload_file name) [
    | loaded tmp ↦
        with_option (surgery_apply blank_img tmp (recipe raw tmp)) bad_file
          (λ (dst, src). loaded (deck_find_loader_card (record dst { name = take 47 src.name })).0)
    | _ ↦ no_file
  ]

  -- The loop of deckload_batch over the sources that are left.
  unfoldable pub batch_sources : List (List ℕ × SurgeryOp) → DeckImg → Loaded
  unfolding deckload_file
  batch_sources [] dst = loaded dst
  batch_sources ((file, op) ∷ rest) dst = elim (deckload_file file) [
    | loaded tmp ↦
        with_option (surgery_apply dst tmp op) bad_file (λ (dst', src). batch_sources rest dst')
    | _ ↦ no_file
  ]

  -- The loop of deckload_bin, a read per unit of fuel.
  unfoldable pub feed_file : ℕ → vol.File → Bin2deck → Option Bin2deck
  feed_file zero f b = none
  feed_file (suc fuel) f b = elim (vol.fat_read f 512) [
    | none ↦ none
    | some ([], f') ↦ some b
    | some (x ∷ xs, f') ↦ with_option (bin2deck_feed b (x ∷ xs)) none (λ b'. feed_file fuel f' b')
  ]

  -- The branch for base 0: the whole program as one card.
  unfoldable pub load_ipl : List ℕ → vol.File → Loaded
  load_ipl name f = elim (vol.fat_read f (bin2deck_ipl_max + 1)) [
    | none ↦ bad_file
    | some (bytes, f') ↦ if length bytes == 0 then bad_file else to_loaded (bin2deck_ipl name bytes)
  ]

  unfoldable pub deckload_bin : List ℕ → ℕ → ℕ → Loaded
  unfolding feed_file load_ipl
  deckload_bin name base entry = with_option (vol.fat_open name) no_file (λ f.
      if base == 0
      then load_ipl name f
      else with_option (bin2deck_begin name base) bad_file (λ b.
        with_option (feed_file (suc (vol.left f)) f b) bad_file
          (λ c. to_loaded (bin2deck_end c entry))))

-- struct surgery_batch; `title` is only printed.
pub record SurgeryBatch : Type 0 where
  pub name : List ℕ
  pub src : List (List ℕ × SurgeryOp)

abbrev pub surgery_batches : List SurgeryBatch
surgery_batches =
    record {
      name = chars "control-program-cr";
      src = (chars "control-program-cr.cap", serial_loader) ∷ [];
    }
    ∷ record {
      name = chars "ls600-controller-sat";
      src =
          (chars "sat-ls600.cap", serial_loader)
          ∷ (chars "ls600-controller-test.cap", trim_title_summary)
          ∷ [];
    }
    ∷ record {
      name = chars "ls600-transcoder-sat";
      src =
          (chars "sat-ls600.cap", serial_loader)
          ∷ (chars "ls600-transcoder-test.cap", trim_title_summary)
          ∷ [];
    }
    ∷ record {
      name = chars "ls600-doe-sat";
      src =
          (chars "sat-ls600.cap", serial_loader) ∷ (chars "ls600-doe.cap", trim_title_summary) ∷ [];
    }
    ∷ []

unfoldable pub deckload_batch : FatReader → SurgeryBatch → Loaded
unfolding batch_sources
deckload_batch vol b = elim (batch_sources vol b.src blank_img) [
  | loaded dst ↦ loaded (deck_find_loader_card (record dst { name = take 47 b.name })).0
  | no_file ↦ no_file
  | bad_file ↦ bad_file
]

-- The loop of deckload_find_batch over the batches that are left.
unfoldable pub find_batch : List ℕ → List SurgeryBatch → Option SurgeryBatch
find_batch name [] = none
find_batch name (b ∷ bs) =
    let rest = find_batch name bs in if list_eq b.name name then some b else rest

unfoldable pub deckload_find_batch : List ℕ → Option SurgeryBatch
unfolding find_batch
deckload_find_batch name = find_batch name surgery_batches
