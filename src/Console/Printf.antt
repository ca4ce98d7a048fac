-- ===== src/Console/Printf.antt =====
-- src/console.c: con_printf from the formatted text on. The port is the list of its answers: how many
-- bytes each call of tud_cdc_write takes, and whether the host is still there after it.
use rpi_pico_card_reader.Prelude.{
  ℕ, zero, suc, ◌+◌, ◌-◌, ◌≤◌, ◌<◌, ◌≡◌, refl, sym, ap, ◌∙◌, List, [], ◌∷◌, ◌++◌, Bool, true, false,
  not, ◌||◌, if◌then◌else◌, if_intro, leb, ◌==◌, take, length, Array, window-store_list,
  length-append, window, window-append, store_list, arith,
}

abbrev pub buf_size : ℕ
buf_size = 256

abbrev smaller : ℕ → ℕ → ℕ
smaller a b = if leb a b then a else b

-- vsnprintf: the text, cut to the buffer, with a 0 behind it; `memory` is what the buffer held.
abbrev pub vsnprintf : Array ℕ → List ℕ → Array ℕ
vsnprintf memory text = store_list memory 0 (take (buf_size - 1) text ++ 0 ∷ [])

-- The loop from `off` on, and the bytes that the port takes.
unfoldable pub write_all : Array ℕ → ℕ → List (ℕ × Bool) → ℕ → List ℕ
write_all buf n [] off = []
write_all buf n ((room, connected) ∷ port) off =
    let w = smaller room (n - off) in
    let rest = write_all buf n port (off + w) in
    if leb n off
    then []
    else if w == 0
    then (if connected then rest else [])
    else window buf off w ++ rest

unfoldable pub con_printf_bytes : Array ℕ → Bool → List (ℕ × Bool) → List ℕ → List ℕ
unfolding write_all
con_printf_bytes memory connected port text =
    if length text == 0 || not connected
    then []
    else write_all (vsnprintf memory text) (length text) port 0

-- The room of all answers.
abbrev pub total : List (ℕ × Bool) → ℕ
total [] = 0
total ((room, c) ∷ port) = room + total port

-- The host stays.
abbrev pub Stays : List (ℕ × Bool) → Type 0
Stays [] = Unit
Stays ((room, c) ∷ port) = (c ≡ true) × Stays port

module _ (buf : Array ℕ) (n off : ℕ) where
  joined :
      (w k : ℕ)
      → window buf off w ++ window buf (off + w) (smaller k (n - (off + w)))
        ≡ window buf off (w + smaller k (n - (off + w)))
  joined w k = sym (window-append buf off w (smaller k (n - (off + w))))

  one_round :
      (room k : ℕ) (c : Bool) (rest : List ℕ)
      → let w = smaller room (n - off) in
        c ≡ true
        → rest ≡ window buf (off + w) (smaller k (n - (off + w)))
        → (if leb n off
            then []
            else if w == 0
            then (if c then rest else [])
            else window buf off w ++ rest)
          ≡ window buf off (smaller (room + k) (n - off))
  one_round room k c rest p e =
      let w = smaller room (n - off) in
      let all : window buf off w ++ rest ≡ window buf off (smaller (room + k) (n - off)) =
        ap (λ xs. window buf off w ++ xs) e
        ∙ joined w k
        ∙ ap (window buf off) {x = w + smaller k (n - (off + w))} {y = smaller (room + k) (n - off)}
            (ground arith) in
      if_intro (λ xs. xs ≡ window buf off (smaller (room + k) (n - off))) (leb n off)
        (λ q. ap (window buf off) {x = 0} {y = smaller (room + k) (n - off)} (ground (arith, q)))
        (λ q.
          if_intro (λ xs. xs ≡ window buf off (smaller (room + k) (n - off))) (w == 0)
            (λ r.
              ap (λ (b : Bool). if b then rest else []) p
              ∙ ap (λ m. window buf off m ++ rest) {x = 0} {y = w} (ground (arith, r))
              ∙ all)
            (λ r. all))

write_all_lem :
    (buf : Array ℕ) (n : ℕ) (port : List (ℕ × Bool)) (off : ℕ)
    → Stays port
    → write_all buf n port off ≡ window buf off (smaller (total port) (n - off))
unfolding write_all
write_all_lem buf n [] off h = ap (window buf off) {x = 0} {y = smaller 0 (n - off)} (ground arith)
write_all_lem buf n ((room, c) ∷ port) off (p, h) =
    let w = smaller room (n - off) in
    one_round buf n off room (total port) c (write_all buf n port (off + w)) p
      (write_all_lem buf n port (off + w) h)

take-window : (a : Array ℕ) (i m k : ℕ) → take m (window a i (m + k)) ≡ window a i m
take-window a i zero k = refl
take-window a i (suc m) k =
    ap (λ j. take (suc m) (window a i j)) {x = suc m + k} {y = suc (m + k)} (omega arith)
    ∙ ap (λ xs. a i ∷ xs) (take-window a (i + 1) m k)

take-prefix : (xs : List ℕ) (m : ℕ) (ys : List ℕ) → m ≤ length xs → take m (xs ++ ys) ≡ take m xs
take-prefix xs zero ys h = refl
take-prefix [] (suc m) ys h = absurd (omega (arith, h))
take-prefix (x ∷ xs) (suc m) ys h = ap (λ zs. x ∷ zs) (take-prefix xs m ys (omega (arith, h)))

take_nil : (m : ℕ) → take {A = ℕ} m [] ≡ []
take_nil zero = refl
take_nil (suc m) = refl

take_empty : (m : ℕ) (xs : List ℕ) → (length xs == 0 || false) ≡ true → [] ≡ take m xs
take_empty m [] h = sym (take_nil m)
take_empty m (x ∷ xs) h = absurd (ground (arith, h))

take-smaller : (m : ℕ) (xs : List ℕ) → take (smaller m (length xs)) xs ≡ take m xs
take-smaller m [] = take_nil (smaller m 0) ∙ sym (take_nil m)
take-smaller zero (x ∷ xs) =
    ap (λ k. take k (x ∷ xs)) {x = smaller 0 (suc (length xs))} {y = 0} (ground arith)
take-smaller (suc m) (x ∷ xs) =
    ap (λ k. take k (x ∷ xs)) {x = smaller (suc m) (suc (length xs))}
      {y = suc (smaller m (length xs))} (ground arith)
    ∙ ap (λ zs. x ∷ zs) (take-smaller m xs)

take_whole : (m : ℕ) (xs : List ℕ) → length xs ≤ m → take m xs ≡ xs
take_whole zero [] h = refl
take_whole zero (x ∷ xs) h = absurd (omega (arith, h))
take_whole (suc m) [] h = refl
take_whole (suc m) (x ∷ xs) h = ap (λ zs. x ∷ zs) (take_whole m xs (omega (arith, h)))

-- What the buffer holds of a text that fits.
window-vsnprintf :
    (memory : Array ℕ) (text : List ℕ) (m : ℕ)
    → length text < buf_size
    → m ≤ length text
    → window (vsnprintf memory text) 0 m ≡ take m text
window-vsnprintf memory text m h k =
    let line = take 255 text ++ 0 ∷ [] in
    let same : take 255 text ≡ text = take_whole 255 text (omega (arith, h)) in
    sym (take-window (store_list memory 0 line) 0 m (length line - m))
    ∙ ap (λ j. take m (window (store_list memory 0 line) 0 j)) {x = m + (length line - m)}
        {y = length line} (omega (arith, k, ap length same, length-append (take 255 text) (0 ∷ [])))
    ∙ ap (take m) (window-store_list memory 0 line)
    ∙ take-prefix (take 255 text) m (0 ∷ []) (omega (arith, k, ap length same))
    ∙ ap (take m) same

-- A text that fits the buffer of 256 bytes is sent as it is, whatever part of it each call of the port
-- takes: the bytes sent are the first ones of the text, as many as the port took in all, and so the
-- whole text once the port has taken its length. The host stays connected.
pub con_printf_lem :
    (memory : Array ℕ) (port : List (ℕ × Bool)) (text : List ℕ)
    → length text < buf_size
    → Stays port
    → con_printf_bytes memory true port text ≡ take (total port) text
unfolding con_printf_bytes
con_printf_lem memory port text h s =
    if_intro (λ xs. xs ≡ take (total port) text) (length text == 0 || false)
      (λ q. take_empty (total port) text q)
      (λ q.
        write_all_lem (vsnprintf memory text) (length text) port 0 s
        ∙ ap (window (vsnprintf memory text) 0) {x = smaller (total port) (length text - 0)}
            {y = smaller (total port) (length text)} (ground arith)
        ∙ window-vsnprintf memory text (smaller (total port) (length text)) h (ground arith)
        ∙ take-smaller (total port) text)
