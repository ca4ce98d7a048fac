-- ===== src/Bin2deck/Ipl.antt =====
-- The bootstrap card: bin2deck_ipl against the machine's reading of a hexadecimal card.
use rpi_pico_card_reader.Prelude.{
  ℕ, zero, suc, ◌+◌, ◌-◌, ◌*◌, ◌/◌, ◌%◌, ◌≤◌, ◌<◌, ◌≡◌, refl, ap, ap₂, ◌∙◌, List, [], ◌∷◌, ◌++◌,
  some, if_intro, ltb, ◌==◌, length, take, replicate, arith,
}
use rpi_pico_card_reader.Transcode.{hex, transcode_column}
use rpi_pico_card_reader.Transcode.Inverse.{transcode_column-nibble_to_hex_col}
use rpi_pico_card_reader.Deck.{DeckImg, card_cols, zero_img}
use rpi_pico_card_reader.Deck.View.{cards}
use rpi_pico_card_reader.Deck.Layout.{IsDeck, zero_img-IsDeck}
use rpi_pico_card_reader.Deck.Append.{add_card, cards-add_card}
use rpi_pico_card_reader.Bin2deck.{append_card_cols, bin2deck_ipl, bin2deck_ipl_max, ipl_cols}

-- Two hexadecimal columns make a byte, the high nibble first.
abbrev pub packed : List ℕ → List ℕ
packed (c ∷ e ∷ cs) = (transcode_column c hex * 16 + transcode_column e hex) ∷ packed cs
packed _ = []

pub data IsBytes : List ℕ → Type 0 where
  none_left : IsBytes []
  byte : {x : ℕ} {xs : List ℕ} → x < 256 → IsBytes xs → IsBytes (x ∷ xs)

packed-blanks : (k : ℕ) → packed (replicate (k + k) 0) ≡ replicate k 0
unfolding transcode_column
packed-blanks zero = refl
packed-blanks (suc k) =
    ap (λ n. packed (replicate n 0)) {x = suc k + suc k} {y = suc (suc (k + k))} (omega arith)
    ∙ ap (λ xs. 0 ∷ xs) (packed-blanks k)

packed-ipl_cols :
    (bytes : List ℕ) (k : ℕ)
    → IsBytes bytes
    → packed (ipl_cols bytes ++ replicate (k + k) 0) ≡ bytes ++ replicate k 0
packed-ipl_cols [] k none_left = packed-blanks k
packed-ipl_cols (x ∷ xs) k (byte lt b) =
    ap₂ (λ y ys. y ∷ ys)
      (omega (
        arith,
        transcode_column-nibble_to_hex_col (x / 16) (omega arith),
        transcode_column-nibble_to_hex_col (x % 16) (omega arith),
      ))
      (packed-ipl_cols xs k b)

-- A program of 1 to 40 bytes becomes one card, and reading that card in hexadecimal gives the
-- program and zeros up to 40 bytes.
pub bin2deck_ipl_lem :
    (name bytes : List ℕ)
    → IsBytes bytes
    → 0 < length bytes
    → length bytes ≤ bin2deck_ipl_max
    → (img : DeckImg) × (cols : List ℕ) × (bin2deck_ipl name bytes ≡ some img)
      × (cards img ≡ cols ∷ [])
      × (packed cols ≡ bytes ++ replicate (40 - length bytes) 0)
unfolding bin2deck_ipl append_card_cols
bin2deck_ipl_lem name bytes b h k =
    let start : DeckImg = record zero_img { name = take 47 name } in
    let empty : IsDeck start = record {
      few = zero_img-IsDeck.few;
      inside = zero_img-IsDeck.inside;
      ordered = zero_img-IsDeck.ordered;
    } in
    let rest = 40 - length bytes in
    let cols = ipl_cols bytes ++ replicate (card_cols - 2 * length bytes) 0 in
    (
      add_card start cols,
      cols,
      if_intro (λ o. o ≡ some (add_card start cols)) (length bytes == 0)
          (λ p. absurd (ground arith))
          (λ p.
            if_intro (λ o. o ≡ some (add_card start cols)) (ltb bin2deck_ipl_max (length bytes))
              (λ q. absurd (ground arith)) (λ q. refl)),
      cards-add_card start empty (omega arith) cols,
      ap (λ n. packed (ipl_cols bytes ++ replicate n 0)) {x = card_cols - 2 * length bytes}
            {y = rest + rest} (omega arith)
          ∙ packed-ipl_cols bytes rest b,
    )
