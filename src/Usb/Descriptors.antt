-- ===== src/Usb/Descriptors.antt =====
-- src/usb_descriptors.c: tud_descriptor_string_cb, over the static array desc of 32 entries. The serial
-- number of the board and the descriptor's type, a constant of the USB library, are arguments.
use rpi_pico_card_reader.Prelude.{
  ℕ, zero, suc, ◌+◌, ◌*◌, ◌≤◌, ◌<◌, ◌≡◌, refl, sym, subst, Bool, true, false, ◌∙◌, List, [], ◌∷◌,
  Option, none, some, if◌then◌else◌, ltb, ◌==◌, u16, take, length, length-take, Array, store,
  store_self, store-ne, store_list, window, window_ext, window-store_list, arith,
}
use rpi_pico_card_reader.Deckload.{chars}

-- string_desc; the entries 0 and 3 are null, and have a case of their own.
abbrev pub string_desc : ℕ → List ℕ
string_desc index =
    if index == 1
    then chars "MusIF-MIAI"
    else if index == 2
    then chars "GE-120 Card Reader Simulator"
    else if index == 4
    then chars "GE-120 console"
    else chars "GE-120 decks"

-- for (len = 0; s[len] && len < 31; len++)
abbrev pub put_string : List ℕ → Array ℕ → Array ℕ
put_string s desc = store_list desc 1 (take 31 s)

abbrev pub with_header : ℕ → ℕ → Array ℕ → Array ℕ
with_header desc_type len desc = store desc 0 (u16 (desc_type * 256 + (2 * len + 2)))

unfoldable pub tud_descriptor_string_cb : ℕ → List ℕ → ℕ → Array ℕ → Option (Array ℕ)
tud_descriptor_string_cb desc_type serial index desc =
    if index == 0
    then some (with_header desc_type 1 (store desc 1 0x0409))
    else if index == 3
    then some (with_header desc_type (length (take 31 serial)) (put_string serial desc))
    else if ltb index 6
    then some (
        with_header desc_type (length (take 31 (string_desc index)))
          (put_string (string_desc index) desc))
    else none

-- The text of an index.
abbrev pub text_of : List ℕ → ℕ → List ℕ
text_of serial index =
    if index == 0 then 0x0409 ∷ [] else if index == 3 then serial else string_desc index

store_list_above :
    (a : Array ℕ) (i : ℕ) (xs : List ℕ) (j : ℕ) → i + length xs ≤ j → store_list a i xs j ≡ a j
store_list_above a i [] j h = refl
store_list_above a i (x ∷ xs) j h =
    store_list_above (store a i x) (i + 1) xs j (omega (arith, h))
    ∙ store-ne a i x (omega (arith, h))

-- A descriptor of a text: its length in bytes and the type, and the characters, at most 31; the array
-- from entry 32 on is as before.
pub record IsDescriptor (desc_type : ℕ) (text : List ℕ) (before after : Array ℕ) : Type 0 where
  pub header : after 0 ≡ u16 (desc_type * 256 + (2 * length (take 31 text) + 2))
  pub shown : window after 1 (length (take 31 text)) ≡ take 31 text
  pub inside : (j : ℕ) → 32 ≤ j → after j ≡ before j

put-IsDescriptor :
    (desc_type : ℕ) (s : List ℕ) (desc : Array ℕ)
    → IsDescriptor desc_type s desc (with_header desc_type (length (take 31 s)) (put_string s desc))
put-IsDescriptor desc_type s desc =
    let len = length (take 31 s) in
    let a = put_string s desc in
    let head = u16 (desc_type * 256 + (2 * len + 2)) in
    record {
      header = store_self a 0 head;
      shown =
          window_ext (store a 0 head) a 1 len (λ j p q. store-ne a 0 head (omega (arith, p)))
          ∙ window-store_list desc 1 (take 31 s);
      inside = λ j h.
          store-ne a 0 head (omega (arith, h))
          ∙ store_list_above desc 1 (take 31 s) j (omega (arith, h, length-take 31 s));
    }

abbrev Described : ℕ → List ℕ → ℕ → Array ℕ → Option (Array ℕ) → Type 0
Described desc_type serial index desc none = 6 ≤ index
Described desc_type serial index desc (some after) =
    (index < 6) × IsDescriptor desc_type (text_of serial index) desc after

no_descriptor :
    (a b c : Bool) (x y z : Option (Array ℕ))
    → a ≡ false
    → b ≡ false
    → c ≡ false
    → (if a then x else if b then y else if c then z else none) ≡ none
no_descriptor false false false x y z p q r = refl
no_descriptor false false true x y z p q r = absurd (ground (arith, r))
no_descriptor false true c x y z p q r = absurd (ground (arith, q))
no_descriptor true b c x y z p q r = absurd (ground (arith, p))

-- A string index below 6 gives the descriptor of its text, cut to 31 characters, within the array of
-- 32 entries; another index gives none.
pub string_descriptor :
    (desc_type : ℕ) (serial : List ℕ) (index : ℕ) (desc : Array ℕ)
    → Described desc_type serial index desc (tud_descriptor_string_cb desc_type serial index desc)
unfolding tud_descriptor_string_cb
string_descriptor desc_type serial zero desc =
    (omega arith, put-IsDescriptor desc_type (0x0409 ∷ []) desc)
string_descriptor desc_type serial (suc zero) desc =
    (omega arith, put-IsDescriptor desc_type (chars "MusIF-MIAI") desc)
string_descriptor desc_type serial (suc (suc zero)) desc =
    (omega arith, put-IsDescriptor desc_type (string_desc 2) desc)
string_descriptor desc_type serial (suc (suc (suc zero))) desc =
    (omega arith, put-IsDescriptor desc_type serial desc)
string_descriptor desc_type serial (suc (suc (suc (suc zero)))) desc =
    (omega arith, put-IsDescriptor desc_type (string_desc 4) desc)
string_descriptor desc_type serial (suc (suc (suc (suc (suc zero))))) desc =
    (omega arith, put-IsDescriptor desc_type (string_desc 5) desc)
string_descriptor desc_type serial (suc (suc (suc (suc (suc (suc n)))))) desc =
    let index = suc (suc (suc (suc (suc (suc n))))) in
    let beyond : 6 ≤ index = omega arith in
    subst (Described desc_type serial index desc)
      (sym (
        no_descriptor (index == 0) (index == 3) (ltb index 6) _ _ _ (ground arith) (ground arith)
          (ground arith)))
      beyond
