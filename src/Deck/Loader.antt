-- ===== src/Deck/Loader.antt =====
-- What deck_find_loader_card finds.
use rpi_pico_card_reader.Prelude.{
  ℕ, zero, suc, ◌+◌, ◌≤◌, ◌<◌, ◌≡◌, ◌⊎◌, ◌∙◌, inl, inr, refl, true, false, some, arith,
  if◌then◌else◌, Bool-cases, ◌==◌, ==_iff,
}
use rpi_pico_card_reader.Deck.{
  DeckImg, is_marked, find_marked, loader_limit, loader_fallback, deck_find_loader_card,
}

-- Card r is the first marked one from i on.
abbrev pub IsFirstMarked : DeckImg → ℕ → ℕ → Type 0
IsFirstMarked img i r =
    (i ≤ r) × (is_marked img r ≡ true) × ((j : ℕ) → i ≤ j → j < r → is_marked img j ≡ false)

abbrev NoneMarked : DeckImg → ℕ → ℕ → Type 0
NoneMarked img i e = (j : ℕ) → i ≤ j → j < e → is_marked img j ≡ false

-- A fact of card i and one of the cards after it.
from_first :
    (img : DeckImg) (i e : ℕ)
    → is_marked img i ≡ false
    → NoneMarked img (i + 1) e
    → NoneMarked img i e
from_first img i e h t j p q = elim (Bool-cases (i == j)) [
  | inl same ↦ ground (arith, (==_iff i j).0 same)
  | inr other ↦ t j (ground arith) q
]

find_marked_cases :
    (img : DeckImg) (k i f : ℕ)
    → (IsFirstMarked img i (find_marked img k i f) × (find_marked img k i f < i + k))
      ⊎ ((find_marked img k i f ≡ f) × NoneMarked img i (i + k))
unfolding find_marked
find_marked_cases img zero i f = inr (refl, λ j p q. absurd (omega arith))
find_marked_cases img (suc k) i f = elim (Bool-cases (is_marked img i)) [
  | inl m ↦ rw m (inl ((omega arith, m, λ j p q. absurd (omega arith)), omega arith))
  | inr m ↦ rw m (elim (find_marked_cases img k (i + 1) f) [
    | inl (first, below) ↦ inl ((omega arith, first.1, from_first img i _ m first.2), omega arith)
    | inr (e, other) ↦ inr (e, from_first img i (i + suc k) m (λ j p q. other j p (omega arith)))
  ])
]

limit_range :
    (n : ℕ) → (loader_limit n ≤ 5) × (loader_limit n ≤ n) × (0 < n → loader_fallback n < n)
unfolding loader_limit loader_fallback
limit_range n = ground arith

limit_reached : (n j : ℕ) → j < 5 → j < n → j < loader_limit n
unfolding loader_limit
limit_reached n j p q = ground arith

fallback_lem : (n : ℕ) → 0 < n → loader_fallback n ≡ (if n == 1 then 0 else 1)
unfolding loader_fallback
fallback_lem n h = ground arith

recorded :
    (img : DeckImg) → (deck_find_loader_card img).0.loader_card ≡ some (deck_find_loader_card img).1
unfolding deck_find_loader_card
recorded img = refl

module _ (img : DeckImg) (h : 0 < img.n_cards) where
  abbrev found : ℕ
  found = (deck_find_loader_card img).1

  found_cases :
      ((found < 5) × (found < img.n_cards) × IsFirstMarked img 0 found)
      ⊎ ((found ≡ loader_fallback img.n_cards) × NoneMarked img 0 (loader_limit img.n_cards))
  unfolding deck_find_loader_card
  found_cases =
      elim (find_marked_cases img (loader_limit img.n_cards) 0 (loader_fallback img.n_cards)) [
        | inl (first, below) ↦
            inl (
              omega (arith, limit_range img.n_cards),
              omega (arith, limit_range img.n_cards),
              first,
            )
        | inr (e, other) ↦ inr (e, λ j p q. other j p (omega arith))
      ]

-- The loader card of an image with a card is one of its cards, and is what the image records. If
-- one of the first five cards is marked it is the first of those; else it is card 1, or card 0 of
-- a deck of one card.
pub deck_find_loader_card_lem :
    (img : DeckImg)
    → 0 < img.n_cards
    → let (img', found) = deck_find_loader_card img in
      (img'.loader_card ≡ some found)
      × (found < img.n_cards)
      × (((found < 5) × IsFirstMarked img 0 found)
          ⊎ ((found ≡ (if img.n_cards == 1 then 0 else 1))
              × ((j : ℕ) → j < 5 → j < img.n_cards → is_marked img j ≡ false)))
deck_find_loader_card_lem img h = elim (found_cases img h) [
  | inl (low, below, first) ↦ (recorded img, below, inl (low, first))
  | inr (e, other) ↦ (
    recorded img,
    omega (arith, e, (limit_range img.n_cards).2 h),
    inr (
      e ∙ fallback_lem img.n_cards h,
      λ j p q. other j (omega arith) (limit_reached img.n_cards j p q),
    ),
  )
]
