-- ===== src/Deckload/File.antt =====
-- Loading a capture file in reads of 512 bytes (deckload_file of src/deckload.c).
use rpi_pico_card_reader.Prelude.{
  ℕ, zero, suc, ◌<◌, ◌≡◌, refl, sym, ap, subst, ◌∙◌, List, [], ◌∷◌, ◌++◌, false, Option, none, some,
  if◌then◌else◌, if_intro, with_option, take, arith,
}
use rpi_pico_card_reader.Deck.{DeckImg, deck_find_loader_card}
use rpi_pico_card_reader.Cap.{
  CapStatus, is_ok, CapParser, cap_parse_init, cap_parse_chunk, cap_parse_finish, process_line,
  scan_tokens, collect, open_card,
}
use rpi_pico_card_reader.Cap.Stream.{parse_chunks, cap_parse_chunk_stuck}
use rpi_pico_card_reader.Deckload.{
  FatReader, Loaded, loaded, no_file, bad_file, open_with_fallback, parse_rounds, deckload_file,
}

-- The reads from f on give these chunks, the end of the file after them.
pub data IsReading (vol : FatReader) : vol.File → List (List ℕ) → Type 0 where
  eof : {f f' : vol.File} → vol.fat_read f 512 ≡ some ([], f') → IsReading vol f []
  chunk :
      {f f' : vol.File} {x : ℕ} {xs : List ℕ} {cs : List (List ℕ)}
      → vol.fat_read f 512 ≡ some (x ∷ xs, f')
      → IsReading vol f' cs
      → IsReading vol f ((x ∷ xs) ∷ cs)

-- What deckload_file makes of a parsed text.
abbrev pub named_deck : List ℕ → DeckImg × CapStatus → Loaded
named_deck name (img, status) =
    if is_ok status
    then loaded (deck_find_loader_card (record img { name = take 47 name })).0
    else bad_file

abbrev from_parser : List ℕ → Option CapParser → Loaded
from_parser name o = with_option o bad_file (λ p. named_deck name (cap_parse_finish p))

-- An error stays an error.
collect_stuck :
    (p : CapParser) (tok : List ℕ) → is_ok p.error ≡ false → is_ok (collect p tok).0.error ≡ false
unfolding collect
collect_stuck p tok h = ground arith

scan_tokens_stuck :
    (p : CapParser) (tok cs : List ℕ)
    → is_ok p.error ≡ false
    → is_ok (scan_tokens p tok cs).error ≡ false
unfolding scan_tokens
scan_tokens_stuck p tok [] h = collect_stuck p tok h
scan_tokens_stuck p tok (c ∷ cs) h = ground (
  arith,
  collect_stuck p tok h,
  scan_tokens_stuck (collect p tok).0 [] cs,
  scan_tokens_stuck p (tok ++ c ∷ []) cs h,
)

process_line_stuck :
    (p : CapParser) (line : List ℕ)
    → is_ok p.error ≡ false
    → is_ok (process_line p line).error ≡ false
unfolding process_line open_card
process_line_stuck p line h = ground (arith, scan_tokens_stuck p [] line h)

finish_stuck : (p : CapParser) → is_ok p.error ≡ false → is_ok (cap_parse_finish p).1 ≡ false
unfolding cap_parse_finish
finish_stuck p h = ground (arith, process_line_stuck p p.linebuf h)

parse_chunks_stuck :
    (p : CapParser) (cs : List (List ℕ)) → is_ok p.error ≡ false → parse_chunks p cs ≡ p
unfolding parse_chunks
parse_chunks_stuck p [] h = refl
parse_chunks_stuck p (c ∷ cs) h =
    ap (λ q. parse_chunks q cs) (cap_parse_chunk_stuck p c h) ∙ parse_chunks_stuck p cs h

stuck_is_bad :
    (name : List ℕ) (p : CapParser) (cs : List (List ℕ))
    → is_ok p.error ≡ false
    → bad_file ≡ named_deck name (cap_parse_finish (parse_chunks p cs))
stuck_is_bad name p cs h =
    ap
      (λ b.
        if b
        then loaded
            (deck_find_loader_card (record (cap_parse_finish p).0 { name = take 47 name })).0
        else bad_file)
      (sym (finish_stuck p h))
    ∙ ap (λ q. named_deck name (cap_parse_finish q)) (sym (parse_chunks_stuck p cs h))

-- A round of the loop, from the result of its read.
abbrev round : (vol : FatReader) → ℕ → CapParser → Option (List ℕ × vol.File) → Option CapParser
round vol fuel p o = elim o [
  | none ↦ none
  | some ([], f') ↦ some p
  | some (x ∷ xs, f') ↦
      let p' = cap_parse_chunk p (x ∷ xs) in
      let rest = parse_rounds vol fuel f' p' in if is_ok p'.error then rest else none
]

-- The loop of deckload_file, with a round more than what is left of the file.
parse_rounds_lem :
    (vol : FatReader) (name : List ℕ) (fuel : ℕ) (f : vol.File) (cs : List (List ℕ)) (p : CapParser)
    → IsReading vol f cs
    → vol.left f < fuel
    → from_parser name (parse_rounds vol fuel f p)
      ≡ named_deck name (cap_parse_finish (parse_chunks p cs))
unfolding parse_rounds parse_chunks
parse_rounds_lem vol name zero f cs p r h = absurd (omega arith)
parse_rounds_lem vol name (suc fuel) f [] p (eof e) h =
    subst (λ o. from_parser name (round vol fuel p o) ≡ named_deck name (cap_parse_finish p))
      (sym e) refl
parse_rounds_lem vol name (suc fuel) f ([] ∷ cs) p r h = elim r [ ]
parse_rounds_lem vol name (suc fuel) f ((x ∷ xs) ∷ cs) p (chunk {f'} e r) h =
    subst
      (λ o.
        from_parser name (round vol fuel p o)
        ≡ named_deck name (cap_parse_finish (parse_chunks (cap_parse_chunk p (x ∷ xs)) cs)))
      (sym e)
      (if_intro
        (λ o.
          from_parser name o
          ≡ named_deck name (cap_parse_finish (parse_chunks (cap_parse_chunk p (x ∷ xs)) cs)))
        (is_ok (cap_parse_chunk p (x ∷ xs)).error)
        (λ q.
          parse_rounds_lem vol name fuel f' cs (cap_parse_chunk p (x ∷ xs)) r
            (omega (arith, vol.less f f' 512 x xs e)))
        (λ q. stuck_is_bad name (cap_parse_chunk p (x ∷ xs)) cs q))

-- A capture file that is found and whose reads all succeed is loaded from the whole of its text, however many reads it takes:
-- the result is the parsed image with its name and its loader card, or the failure that the
-- parser reports.
pub deckload_file_lem :
    (vol : FatReader) (name : List ℕ) (f : vol.File) (cs : List (List ℕ))
    → open_with_fallback vol name ≡ some f
    → IsReading vol f cs
    → deckload_file vol name ≡ named_deck name (cap_parse_finish (parse_chunks cap_parse_init cs))
unfolding deckload_file
deckload_file_lem vol name f cs o r =
    ap
      (λ o.
        with_option o no_file
          (λ f. from_parser name (parse_rounds vol (suc (vol.left f)) f cap_parse_init)))
      o
    ∙ parse_rounds_lem vol name (suc (vol.left f)) f cs cap_parse_init r (omega arith)
