-- ===== src/Bin2deck/Scatter.antt =====
-- Feeding bytes into the synthesizer: the buffer, and the cards that it fills.
use rpi_pico_card_reader.Prelude.{
  ℕ, zero, suc, ◌+◌, ◌-◌, ◌≤◌, ◌<◌, ◌≡◌, refl, sym, ap, ◌∙◌, List, [], ◌∷◌, ◌++◌, Option, none,
  some, if◌then◌else◌, if_intro, with_option, ltb, ◌==◌, length, length-append, length-take,
  length-drop, with_option_intro, u16, take, drop, append_assoc, append-nil, take-append-drop,
  arith,
}
use rpi_pico_card_reader.Bin2deck.{
  Bin2deck, bin2deck_chunk, append_scatter_card, flush_card, feed_rounds, bin2deck_feed,
}

-- The synthesizer byte by byte: a byte goes into the buffer, and a full buffer becomes a card.
abbrev pub feed_byte : Bin2deck → ℕ → Option Bin2deck
feed_byte b x =
    let c = record b { buf = b.buf ++ x ∷ [] } in
    if length c.buf == bin2deck_chunk then flush_card c else some c

abbrev pub feed_bytes : Bin2deck → List ℕ → Option Bin2deck
feed_bytes b [] = some b
feed_bytes b (x ∷ xs) = with_option (feed_byte b x) none (λ c. feed_bytes c xs)

-- Bytes that do not fill the buffer only go into it.
feed_bytes-room :
    (b : Bin2deck) (xs ys : List ℕ)
    → length b.buf + length xs < bin2deck_chunk
    → feed_bytes b (xs ++ ys) ≡ feed_bytes (record b { buf = b.buf ++ xs }) ys
feed_bytes-room b [] ys h = ap (λ u. feed_bytes (record b { buf = u }) ys) (sym (append-nil b.buf))
feed_bytes-room b (x ∷ xs) ys h =
    if_intro
      (λ o.
        with_option o none (λ c. feed_bytes c (xs ++ ys))
        ≡ feed_bytes (record b { buf = b.buf ++ x ∷ xs }) ys)
      (length (b.buf ++ x ∷ []) == bin2deck_chunk)
      (λ p. absurd (ground (arith, length-append b.buf (x ∷ []))))
      (λ p.
        feed_bytes-room (record b { buf = b.buf ++ x ∷ [] }) xs ys
          (omega (arith, length-append b.buf (x ∷ [])))
        ∙ ap (λ u. feed_bytes (record b { buf = u }) ys) (append_assoc b.buf (x ∷ []) xs))

-- The bytes that fill the buffer make a card.
feed_bytes-fill :
    (b : Bin2deck) (xs ys : List ℕ)
    → length b.buf < bin2deck_chunk
    → length b.buf + length xs ≡ bin2deck_chunk
    → feed_bytes b (xs ++ ys)
      ≡ with_option (flush_card (record b { buf = b.buf ++ xs })) none (λ c. feed_bytes c ys)
feed_bytes-fill b [] ys k h = absurd (omega arith)
feed_bytes-fill b (x ∷ []) ys k h =
    if_intro
      (λ o.
        with_option o none (λ c. feed_bytes c ys)
        ≡ with_option (flush_card (record b { buf = b.buf ++ x ∷ [] })) none (λ c. feed_bytes c ys))
      (length (b.buf ++ x ∷ []) == bin2deck_chunk) (λ p. refl)
      (λ p. absurd (ground (arith, length-append b.buf (x ∷ []))))
feed_bytes-fill b (x ∷ y ∷ xs) ys k h =
    if_intro
      (λ o.
        with_option o none (λ c. feed_bytes c (y ∷ xs ++ ys))
        ≡ with_option (flush_card (record b { buf = b.buf ++ x ∷ y ∷ xs })) none
            (λ c. feed_bytes c ys))
      (length (b.buf ++ x ∷ []) == bin2deck_chunk)
      (λ p. absurd (ground (arith, length-append b.buf (x ∷ []))))
      (λ p.
        feed_bytes-fill (record b { buf = b.buf ++ x ∷ [] }) (y ∷ xs) ys
          (omega (arith, length-append b.buf (x ∷ [])))
          (omega (arith, length-append b.buf (x ∷ [])))
        ∙ ap (λ u. with_option (flush_card (record b { buf = u })) none (λ c. feed_bytes c ys))
            (append_assoc b.buf (x ∷ []) (y ∷ xs)))

-- A flush leaves the buffer empty.
flush_card-empty : (b e : Bin2deck) → flush_card b ≡ some e → length e.buf ≡ 0
unfolding flush_card
flush_card-empty b e h =
    let leaves : Option Bin2deck → Type 0 = λ o. o ≡ some e → length e.buf ≡ 0 in
    if_intro leaves (length b.buf == 0) (λ p q. ground arith)
      (λ p.
        if_intro leaves (ltb 0x10000 (b.addr + length b.buf)) (λ q r. ground arith)
          (λ q.
            with_option_intro leaves (append_scatter_card b.img (u16 b.addr) b.buf)
              (λ r s. ground arith) (λ img r s. ground arith)))
      h

after_flush :
    (o : Option Bin2deck) (fuel : ℕ) (xs : List ℕ)
    → ((e : Bin2deck) → o ≡ some e → feed_rounds fuel e xs ≡ feed_bytes e xs)
    → with_option o none (λ e. feed_rounds fuel e xs) ≡ with_option o none (λ e. feed_bytes e xs)
after_flush none fuel xs h = refl
after_flush (some e) fuel xs h = h e refl

feed_rounds_lem :
    (fuel : ℕ) (b : Bin2deck) (xs : List ℕ)
    → length b.buf < bin2deck_chunk
    → length xs ≤ fuel
    → feed_rounds fuel b xs ≡ feed_bytes b xs
unfolding feed_rounds
feed_rounds_lem zero b [] k h = refl
feed_rounds_lem (suc fuel) b [] k h = refl
feed_rounds_lem zero b (x ∷ xs) k h = absurd (omega arith)
feed_rounds_lem (suc fuel) b (x ∷ xs) k h =
    let room = bin2deck_chunk - length b.buf in
    let t = take room (x ∷ xs) in
    let l = drop room (x ∷ xs) in
    let c = record b { buf = b.buf ++ t } in
    let joined = length-append b.buf t in
    let shorter : length l ≤ fuel = omega (arith, length-drop room (x ∷ xs)) in
    let split = ap (feed_bytes b) (take-append-drop room (x ∷ xs)) in
    if_intro (λ o. o ≡ feed_bytes b (x ∷ xs)) (length c.buf == bin2deck_chunk)
      (λ p.
        after_flush (flush_card c) fuel l
          (λ e q. feed_rounds_lem fuel e l (omega (arith, flush_card-empty c e q)) shorter)
        ∙ sym (feed_bytes-fill b t l k (ground (arith, joined)))
        ∙ split)
      (λ p.
        feed_rounds_lem fuel c l (ground (arith, joined, length-take room (x ∷ xs))) shorter
        ∙ sym (feed_bytes-room b t l (ground (arith, joined, length-take room (x ∷ xs))))
        ∙ split)

-- With room in the buffer, the loop of bin2deck_feed, which copies as many bytes at a time as the
-- buffer takes, does what the bytes do one by one: it ends, and fails exactly when they do.
pub bin2deck_feed_lem :
    (b : Bin2deck) (bytes : List ℕ)
    → length b.buf < bin2deck_chunk
    → bin2deck_feed b bytes ≡ feed_bytes b bytes
unfolding bin2deck_feed
bin2deck_feed_lem b bytes k = feed_rounds_lem (length bytes) b bytes k (omega arith)
