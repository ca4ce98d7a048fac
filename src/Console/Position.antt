-- ===== src/Console/Position.antt =====
-- The command go, and the feeder that takes its word.
use rpi_pico_card_reader.Prelude.{
  ℕ, ◌+◌, ◌-◌, ◌≤◌, ◌<◌, ◌≡◌, ◌⊎◌, inl, inr, sym, subst, ap, ◌∙◌, [], ◌∷◌, ◌++◌, false, some, u16,
  dec_lt, arith,
}
use rpi_pico_card_reader.Deck.{DeckImg}
use rpi_pico_card_reader.Wire.{ipc_word, ipc_arg, ipc_val}
use rpi_pico_card_reader.Wire.Fields.{ipc_word_fields}
use rpi_pico_card_reader.Feeder.Types.{Feeder, armed_wait, start_card, cursor_reset, lupob_update}
use rpi_pico_card_reader.Feeder.Mailbox.{decode_op, on_go, on_op, feeder_on_ipc}
use rpi_pico_card_reader.Config.{is_disarmed}
use rpi_pico_card_reader.Console.State.{Console, Env}
use rpi_pico_card_reader.Console.Param.{go_start, go_to}

go_start_lem : (d : DeckImg) → start_card d < 65536 → go_start d ≡ start_card d
go_start_lem d h = ground (arith, h)

go_to-sent :
    (env : Env) (n : ℕ) (c : Console)
    → is_disarmed env.state ≡ false
    → start_card c.deck ≤ c.deck.n_cards
    → c.deck.n_cards < 65536
    → ((1 ≤ n)
        × (start_card c.deck + n ≤ c.deck.n_cards)
        × ((go_to env n c).sent ≡ c.sent ++ ipc_word 7 0 (u16 n) ∷ []))
      ⊎ (((n ≡ 0) ⊎ (c.deck.n_cards < start_card c.deck + n)) × ((go_to env n c).sent ≡ c.sent))
unfolding go_to
go_to-sent env n c armed le small =
    let start = go_start_lem c.deck (omega (arith, le, small)) in
    elim (dec_lt n 1) [
      | yes p ↦ inr (inl (omega (arith, p)), ground (arith, armed, p))
      | no p ↦ elim (dec_lt c.deck.n_cards (start_card c.deck + n)) [
        | yes q ↦ inr (inr q, ground (arith, armed, q, start))
        | no q ↦ inl (omega (arith, p), omega (arith, q), ground (arith, armed, p, q, start))
      ]
    ]

module _ (g_deck : ℕ → DeckImg) where
  go_word :
      (val : ℕ) (s : Feeder)
      → val < 65536
      → feeder_on_ipc g_deck (ipc_word 7 0 val) s ≡ lupob_update (on_go g_deck val s)
  unfolding feeder_on_ipc on_op decode_op
  go_word val s k =
      let (op, arg, value, fits) = ipc_word_fields 7 0 val (omega arith) (omega arith) k in
      ap
        (λ o.
          lupob_update (
            on_op g_deck (decode_op o) (ipc_arg (ipc_word 7 0 val)) (ipc_val (ipc_word 7 0 val)) s))
        op
      ∙ ap (λ v. lupob_update (on_go g_deck v s)) value

  -- The feeder at the start of card i.
  pub record IsAt (i : ℕ) (s : Feeder) : Type 0 where
    pub card : s.card ≡ i
    pub col : s.col ≡ 0
    pub half : s.half ≡ 0
    pub state : s.state ≡ armed_wait

  on_go_lem :
      (n k : ℕ) (s : Feeder)
      → s.deck ≡ some k
      → 1 ≤ n
      → start_card (g_deck k) + n ≤ (g_deck k).n_cards
      → (g_deck k).n_cards < 65536
      → IsAt (start_card (g_deck k) + n - 1) (lupob_update (on_go g_deck n s))
  unfolding on_go lupob_update cursor_reset
  on_go_lem n k s e pos fit small = record {
    card = ground (arith, e);
    col = ground (arith, e);
    half = ground (arith, e);
    state = ground (arith, e);
  }

  -- The command go while a deck is armed: a number from 1 to the cards of the feed order is sent to
  -- the feeder, which then waits at the start of that card of the order; for any other number nothing
  -- is sent.
  pub go_to-feeder_on_ipc :
      (env : Env) (n k : ℕ) (c : Console) (s : Feeder)
      → is_disarmed env.state ≡ false
      → s.deck ≡ some k
      → g_deck k ≡ c.deck
      → start_card c.deck ≤ c.deck.n_cards
      → c.deck.n_cards < 65536
      → let start = start_card c.deck in
        let c' = go_to env n c in
        (((1 ≤ n) × (start + n ≤ c.deck.n_cards))
          × (word : ℕ) × (c'.sent ≡ c.sent ++ word ∷ [])
          × IsAt (start + n - 1) (feeder_on_ipc g_deck word s))
        ⊎ (((n ≡ 0) ⊎ (c.deck.n_cards < start + n)) × (c'.sent ≡ c.sent))
  go_to-feeder_on_ipc env n k c s armed e same le small = elim (go_to-sent env n c armed le small) [
    | inr r ↦ inr r
    | inl (pos, fit, sent) ↦
        let there =
          on_go_lem n k s e pos (subst (λ d. start_card d + n ≤ d.n_cards) (sym same) fit)
            (subst (λ d. d.n_cards < 65536) (sym same) small) in
        let i = start_card c.deck + n - 1 in
        let here : IsAt i (lupob_update (on_go g_deck n s)) =
          subst (λ d. IsAt (start_card d + n - 1) (lupob_update (on_go g_deck n s))) same there in
        let whole : n ≡ u16 n = omega (arith, fit, small) in
        inl (
          (pos, fit),
          ipc_word 7 0 (u16 n),
          sent,
          subst (IsAt i) (sym (go_word (u16 n) s (omega arith)))
              (subst (λ v. IsAt i (lupob_update (on_go g_deck v s))) whole here),
        )
  ]
