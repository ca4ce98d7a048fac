-- ===== src/Console/Editor.antt =====
-- The line editor of console_poll.
use rpi_pico_card_reader.Prelude.{
  ℕ, ◌+◌, ◌≤◌, ◌<◌, ◌≡◌, sym, ap, ap₂, ◌∙◌, List, [], ◌∷◌, ◌++◌, map, append-nil, append_assoc,
  Bool, true, false, not, ◌&&◌, if◌then◌else◌, leb, ◌==◌, length, length-append, arith,
}
use rpi_pico_card_reader.Console.State.{Console, Env, con_printf, newline, greeting, echo}
use rpi_pico_card_reader.Console.Shell.{execute, read_char, read_chars, console_poll}

-- A character that the editor takes into the line.
abbrev pub is_printable : ℕ → Bool
is_printable ch = leb 0x20 ch && not (ch == 0x7F)

abbrev pub all_printable : List ℕ → Bool
all_printable [] = true
all_printable (ch ∷ chs) = is_printable ch && all_printable chs

-- The state in which a line that was typed is executed.
abbrev pub after_typing : List ℕ → Console → Console
after_typing text c = record c { line = []; out = (c.out ++ map echo text) ++ newline ∷ [] }

read_chars-lost :
    (env : Env) (ch : ℕ) (chs : List ℕ) (c : Console)
    → c.lost ≡ false
    → read_chars env (ch ∷ chs) c ≡ read_chars env chs (read_char env ch c)
unfolding read_chars
read_chars-lost env ch chs c h =
    ap (λ b. if b then c else read_chars env chs (read_char env ch c)) h

read_printable :
    (env : Env) (ch : ℕ) (c : Console)
    → is_printable ch ≡ true
    → length c.line < 95
    → read_char env ch c ≡ con_printf (echo ch) (record c { line = c.line ++ ch ∷ [] })
unfolding read_char
read_printable env ch c p lt = ground (arith, p, lt)

typed :
    (env : Env) (text : List ℕ) (c : Console)
    → c.lost ≡ false
    → length c.line + length text ≤ 95
    → all_printable text ≡ true
    → read_chars env (text ++ b'\r' ∷ []) c ≡ execute env (c.line ++ text) (after_typing text c)
unfolding read_chars read_char
typed env [] c h le p =
    read_chars-lost env b'\r' [] c h
    ∙ ap₂ (λ l o. execute env l (record c { line = []; out = o ++ newline ∷ [] }))
        (sym (append-nil c.line)) (sym (append-nil c.out))
typed env (ch ∷ text) c h le p =
    let next = con_printf (echo ch) (record c { line = c.line ++ ch ∷ [] }) in
    read_chars-lost env ch (text ++ b'\r' ∷ []) c h
    ∙ ap (read_chars env (text ++ b'\r' ∷ []))
        (read_printable env ch c (ground (arith, p)) (omega (arith, le)))
    ∙ typed env text next h (omega (arith, le, length-append c.line (ch ∷ []))) (ground (arith, p))
    ∙ ap₂ (λ l o. execute env l (record c { line = []; out = o ++ newline ∷ [] }))
        (append_assoc c.line (ch ∷ []) text) (append_assoc c.out (echo ch ∷ []) (map echo text))

-- A line of at most 95 printable characters that is typed at the prompt, and ended by a carriage
-- return, is executed as it was typed, after each of its characters was echoed.
pub console_poll-execute :
    (env : Env) (text : List ℕ) (c : Console)
    → c.lost ≡ false
    → c.greeted ≡ true
    → c.line ≡ []
    → length text ≤ 95
    → all_printable text ≡ true
    → console_poll env true (text ++ b'\r' ∷ []) c ≡ execute env text (after_typing text c)
unfolding console_poll
console_poll-execute env text c h g e le p =
    ap
      (λ b.
        read_chars env (text ++ b'\r' ∷ [])
          (if b then c else record (con_printf greeting c) { greeted = true }))
      g
    ∙ typed env text c h (omega (arith, le, ap length e)) p
    ∙ ap (λ l. execute env (l ++ text) (after_typing text c)) e
