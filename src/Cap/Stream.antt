-- ===== src/Cap/Stream.antt =====
-- The parser as a stream: the chunks of cap_parse_chunk.
use rpi_pico_card_reader.Prelude.{ℕ, ◌≡◌, refl, List, [], ◌∷◌, ◌++◌, if◌then◌else◌, false}
use rpi_pico_card_reader.Cap.{CapParser, is_ok, feed_char, cap_parse_chunk}

-- In any state, two chunks one after the other leave the parser as the joined chunk does.
pub cap_parse_chunk-append :
    (p : CapParser) (xs ys : List ℕ)
    → cap_parse_chunk p (xs ++ ys) ≡ cap_parse_chunk (cap_parse_chunk p xs) ys
unfolding cap_parse_chunk
cap_parse_chunk-append p [] ys = refl
cap_parse_chunk-append p (c ∷ xs) ys =
    cap_parse_chunk-append (if is_ok p.error then feed_char p c else p) xs ys

-- The calls of a client, one for each chunk.
unfoldable pub parse_chunks : CapParser → List (List ℕ) → CapParser
parse_chunks p [] = p
parse_chunks p (c ∷ cs) = parse_chunks (cap_parse_chunk p c) cs

abbrev pub concat : List (List ℕ) → List ℕ
concat [] = []
concat (c ∷ cs) = c ++ concat cs

pub parse_chunks-eq-cap_parse_chunk :
    (p : CapParser) (chunks : List (List ℕ))
    → parse_chunks p chunks ≡ cap_parse_chunk p (concat chunks)
unfolding parse_chunks
parse_chunks-eq-cap_parse_chunk p [] = unfold cap_parse_chunk in refl
parse_chunks-eq-cap_parse_chunk p (c ∷ cs) =
    rw (cap_parse_chunk-append p c (concat cs))
      (parse_chunks-eq-cap_parse_chunk (cap_parse_chunk p c) cs)

-- After an error every chunk is ignored.
pub cap_parse_chunk_stuck :
    (p : CapParser) (xs : List ℕ) → is_ok p.error ≡ false → cap_parse_chunk p xs ≡ p
unfolding cap_parse_chunk
cap_parse_chunk_stuck p [] h = refl
cap_parse_chunk_stuck p (c ∷ xs) h = rw h (cap_parse_chunk_stuck p xs h)
