-- ===== src/Cap/Compact.antt =====
-- Dropping the cards with no column: the cards that are left, and the layout.
use native.Mathlib.Numerals.{add-one}
use native.Mathlib.Nat.{add-zero, zero-add}
use rpi_pico_card_reader.Prelude.{
  ℕ, zero, suc, ◌+◌, ◌≤◌, ◌<◌, ◌≡◌, refl, sym, ap, ap₂, subst, ◌∙◌, List, [], ◌∷◌, ◌++◌, append-nil,
  append_assoc, inl, inr, not, ◌==◌, arith, Array, store, store_self, store-ne, length,
  length-window, keep, Bool-cases,
}
use rpi_pico_card_reader.Deck.{DeckCard, DeckImg, deck_max_cols}
use rpi_pico_card_reader.Deck.View.{columns, cards_upto, cards_upto_ext, cards}
use rpi_pico_card_reader.Deck.Layout.{IsDeck}
use rpi_pico_card_reader.Cap.{compact, drop_empty}

abbrev pub keep_full : List (List ℕ) → List (List ℕ)
keep_full = keep (λ c. not (length c == 0))

module _ (cols : Array ℕ) where
  -- The k cards from card r on.
  abbrev cards_from : Array DeckCard → ℕ → ℕ → List (List ℕ)
  cards_from idx r zero = []
  cards_from idx r (suc k) = columns cols (idx r) ∷ cards_from idx (r + 1) k

  cards_from_ext :
      (idx idx' : Array DeckCard) (k r : ℕ)
      → ((j : ℕ) → r ≤ j → idx j ≡ idx' j)
      → cards_from idx r k ≡ cards_from idx' r k
  cards_from_ext idx idx' zero r h = refl
  cards_from_ext idx idx' (suc k) r h =
      ap₂ (λ c cs. c ∷ cs) (ap (columns cols) (h r (omega arith)))
        (cards_from_ext idx idx' k (r + 1) (λ j p. h j (omega arith)))

  cards_upto-append-cards_from :
      (idx : Array DeckCard) (k r : ℕ)
      → cards_upto idx cols r ++ cards_from idx r k ≡ cards_upto idx cols (r + k)
  cards_upto-append-cards_from idx zero r = simp (append-nil, add-zero)
  cards_upto-append-cards_from idx (suc k) r =
      sym (
        append_assoc (cards_upto idx cols r) (columns cols (idx r) ∷ []) (cards_from idx (r + 1) k))
      ∙ subst
          (λ m. cards_upto idx cols m ++ cards_from idx (r + 1) k ≡ cards_upto idx cols (r + 1 + k))
          (add-one r) (cards_upto-append-cards_from idx k (r + 1))
      ∙ ap (cards_upto idx cols) {x = r + 1 + k} {y = r + suc k} (omega arith)

  -- The card that is read becomes the card that is written.
  kept :
      (idx : Array DeckCard) (r w : ℕ)
      → cards_upto (store idx w (idx r)) cols (w + 1)
        ≡ cards_upto idx cols w ++ columns cols (idx r) ∷ []
  kept idx r w =
      ap (cards_upto (store idx w (idx r)) cols) (add-one w)
      ∙ ap₂ (λ cs c. cs ++ c ∷ [])
          (cards_upto_ext (store idx w (idx r)) idx cols cols w
            (λ j p. ap (columns cols) (store-ne idx w (idx r) (omega arith))))
          (ap (columns cols) (store_self idx w (idx r)))

  compact_cards :
      (idx : Array DeckCard) (k r w : ℕ)
      → w ≤ r
      → cards_upto (compact idx k r w).0 cols (compact idx k r w).1
        ≡ cards_upto idx cols w ++ keep_full (cards_from idx r k)
  unfolding compact
  compact_cards idx zero r w h = sym (append-nil _)
  compact_cards idx (suc k) r w h = elim (Bool-cases ((idx r).ncols == 0)) [
    | inl empty ↦
        rw (empty, length-window cols (idx r).off (idx r).ncols, empty)
          (compact_cards idx k (r + 1) w (omega arith))
    | inr full ↦
        let idx' = store idx w (idx r) in
        rw (full, length-window cols (idx r).off (idx r).ncols, full)
          (compact_cards idx' k (r + 1) (w + 1) (omega arith)
            ∙ ap₂ (λ cs ds. cs ++ keep_full ds) (kept idx r w)
                (cards_from_ext idx' idx k (r + 1) (λ j p. store-ne idx w (idx r) (omega arith)))
            ∙ append_assoc (cards_upto idx cols w) (columns cols (idx r) ∷ [])
                (keep_full (cards_from idx (r + 1) k)))
  ]

-- What the loop keeps, for the w cards written and those from r on that are still to be read.
record IsHalfway (idx : Array DeckCard) (w r n : ℕ) : Type 0 where
  behind : w ≤ r
  inside_old : (k : ℕ) → k < w → (idx k).off + (idx k).ncols ≤ deck_max_cols
  inside_new : (k : ℕ) → r ≤ k → k < n → (idx k).off + (idx k).ncols ≤ deck_max_cols
  old : (k j : ℕ) → k < j → j < w → (idx k).off + (idx k).ncols ≤ (idx j).off
  new : (k j : ℕ) → r ≤ k → k < j → j < n → (idx k).off + (idx k).ncols ≤ (idx j).off
  across : (k j : ℕ) → k < w → r ≤ j → j < n → (idx k).off + (idx k).ncols ≤ (idx j).off

skip-IsHalfway :
    (idx : Array DeckCard) (w r n : ℕ) → IsHalfway idx w r n → IsHalfway idx w (r + 1) n
skip-IsHalfway idx w r n h = record {
  behind = omega arith;
  inside_old = h.inside_old;
  inside_new = λ k p. h.inside_new k (omega arith);
  old = h.old;
  new = λ k j p. h.new k j (omega arith);
  across = λ k j p q. h.across k j p (omega arith);
}

copy-IsHalfway :
    (idx : Array DeckCard) (w r n : ℕ)
    → r < n
    → IsHalfway idx w r n
    → IsHalfway (store idx w (idx r)) (w + 1) (r + 1) n
copy-IsHalfway idx w r n lt h = record {
  behind = omega arith;
  inside_old = λ k p. ground (arith, h.inside_old k, h.inside_new r, h.behind);
  inside_new = λ k p q. ground (arith, h.inside_new k, h.behind);
  old = λ k j p q. ground (arith, h.old k j, h.across k r, h.behind);
  new = λ k j p q t. ground (arith, h.new k j, h.behind);
  across = λ k j p q t. ground (arith, h.across k j, h.new r j, h.behind);
}

compact-IsHalfway :
    (idx : Array DeckCard) (k r w n : ℕ)
    → r + k ≡ n
    → IsHalfway idx w r n
    → IsHalfway (compact idx k r w).0 (compact idx k r w).1 n n
unfolding compact
compact-IsHalfway idx zero r w n e h = subst (λ m. IsHalfway idx w m n) (sym (add-zero r) ∙ e) h
compact-IsHalfway idx (suc k) r w n e h = elim (Bool-cases ((idx r).ncols == 0)) [
  | inl empty ↦
      rw empty (compact-IsHalfway idx k (r + 1) w n (omega arith) (skip-IsHalfway idx w r n h))
  | inr full ↦ rw full (
      compact-IsHalfway (store idx w (idx r)) k (r + 1) (w + 1) n (omega arith)
        (copy-IsHalfway idx w r n (omega arith) h))
]

-- Dropping the empty cards leaves the other cards, in their order.
pub cards-drop_empty : (img : DeckImg) → cards (drop_empty img) ≡ keep_full (cards img)
unfolding drop_empty
cards-drop_empty img =
    compact_cards img.cols img.idx img.n_cards 0 0 (omega arith)
    ∙ ap keep_full (
        cards_upto-append-cards_from img.cols img.idx img.n_cards 0
        ∙ ap (cards_upto img.idx img.cols) (zero-add img.n_cards))

-- Dropping the empty cards keeps the layout.
pub drop_empty-IsDeck : {img : DeckImg} → IsDeck img → IsDeck (drop_empty img)
unfolding drop_empty
drop_empty-IsDeck {img} d =
    let half = compact-IsHalfway img.idx img.n_cards 0 0 img.n_cards (omega arith) (record {
      behind = omega arith;
      inside_old = λ k p. absurd (omega arith);
      inside_new = λ k p q. d.inside k q;
      old = λ k j p q. absurd (omega arith);
      new = λ k j p q t. d.ordered k j q t;
      across = λ k j p. absurd (omega arith);
    }) in
    record { few = omega (arith, half.behind, d.few); inside = half.inside_old; ordered = half.old }
