-- ===== src/Console/Text.antt =====
-- The functions of the C library that src/console.c takes a command line apart with.
use rpi_pico_card_reader.Prelude.{
  ℕ, ◌+◌, ◌-◌, ◌*◌, List, [], ◌∷◌, Bool, true, false, ◌&&◌, ◌||◌, Option, none, some, if◌then◌else◌,
  with_option, ltb, leb, ◌==◌, get_or, drop, u32,
}

-- strchr(s, c): what is before the first c and, where there is one, what is behind it.
unfoldable pub split_at : ℕ → List ℕ → List ℕ × Option (List ℕ)
split_at c [] = ([], none)
split_at c (x ∷ xs) =
    let (before, behind) = split_at c xs in if x == c then ([], some xs) else (x ∷ before, behind)

unfoldable pub skip_blanks : List ℕ → List ℕ
skip_blanks [] = []
skip_blanks (x ∷ xs) = let rest = skip_blanks xs in if x == b' ' then rest else x ∷ xs

-- strtok(s, " "): the first word, and where the next call goes on.
unfoldable pub strtok : List ℕ → Option (List ℕ × List ℕ)
unfolding split_at skip_blanks
strtok s =
    let (word, behind) = split_at b' ' (skip_blanks s) in
    let none_left : Bool = elim word [ [] ↦ true | _ ∷ _ ↦ false ] in
    if none_left then none else some (word, with_option behind [] (λ r. r))

-- A digit of a base up to 16, or `none`.
unfoldable pub digit : ℕ → ℕ → Option ℕ
digit base c =
    let d =
      if leb b'0' c && leb c b'9'
      then c - b'0'
      else if leb b'a' c && leb c b'f'
      then c - b'a' + 10
      else if leb b'A' c && leb c b'F'
      then c - b'A' + 10
      else base in
    if ltb d base then some d else none

-- The digits from here on, of any value.
unfoldable pub digits : ℕ → ℕ → List ℕ → ℕ
unfolding digit
digits base acc [] = acc
digits base acc (c ∷ cs) =
    let next : ℕ → ℕ = λ d. digits base (acc * base + d) cs in with_option (digit base c) acc next

abbrev has_value : Option ℕ → Bool
has_value o = with_option o false (λ d. true)

abbrev is_x : ℕ → Bool
is_x c = c == b'x' || c == b'X'

-- A number behind the sign: base 0 is 16 after 0x, 8 after another 0, and else 10.
unfoldable pub magnitude : ℕ → List ℕ → ℕ
unfolding digits
magnitude base s =
    let octal = get_or s 0 0 == b'0' in
    if octal
      && is_x (get_or s 1 0)
      && has_value (digit 16 (get_or s 2 0))
      && (base == 0 || base == 16)
    then digits 16 0 (drop 2 s)
    else digits (if base == 0 then (if octal then 8 else 10) else base) 0 s

-- isspace
abbrev is_space : ℕ → Bool
is_space c = c == b' ' || leb 9 c && leb c 13

unfoldable pub skip_spaces : List ℕ → List ℕ
skip_spaces [] = []
skip_spaces (x ∷ xs) = let rest = skip_spaces xs in if is_space x then rest else x ∷ xs

-- strtoul(s, NULL, base): ULONG_MAX for a number that is too large, and the negated number after -.
unfoldable pub strtoul : List ℕ → ℕ → ℕ
unfolding magnitude skip_spaces
strtoul s base =
    let limited : ℕ → ℕ → ℕ = λ m good. if ltb 4294967295 m then 4294967295 else good in
    elim (skip_spaces s) [
      | [] ↦ 0
      | c ∷ cs ↦
          if c == b'-'
          then limited (magnitude base cs) (u32 (4294967296 - magnitude base cs))
          else if c == b'+'
          then limited (magnitude base cs) (magnitude base cs)
          else limited (magnitude base (c ∷ cs)) (magnitude base (c ∷ cs))
    ]
