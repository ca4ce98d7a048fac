-- ===== src/Feeder/Cursor.antt =====
-- The cursor against the armed deck, for the handlers of src/feeder.c that move it.
use rpi_pico_card_reader.Prelude.{
  ℕ, zero, suc, ◌+◌, ◌<◌, ◌≡◌, ◌≢◌, if_intro, u16, Bool, true, false, Option, arith,
}
use rpi_pico_card_reader.Deck.{DeckImg}
use rpi_pico_card_reader.Deck.Layout.{IsDeck}
use rpi_pico_card_reader.Feeder.Types.{
  disarmed, presenting, done, error, Feeder, lupob_update, finin_release, is_armed_wait,
  is_card_done, start_card,
}
use rpi_pico_card_reader.Feeder.Present.{
  advance_card, present_next, prefill, begin_card, feed_on, start_card_strobes, leave_parked,
  trigger_present,
}

-- What the feeder needs of a deck that is armed: a well-formed image with a card, no empty card,
-- and a loader card, if any, that it has.
pub record IsFeedable (d : DeckImg) : Type 0 where
  pub deck : IsDeck d
  pub some_card : 0 < d.n_cards
  pub start_in : start_card d < d.n_cards
  pub full : (k : ℕ) → k < d.n_cards → 0 < (d.idx k).ncols

-- The cursor and the flags of a feeder whose deck pointer is at d.
pub record IsOn (slot : Option ℕ) (d : DeckImg) (s : Feeder) : Type 0 where
  pub at_slot : s.deck ≡ slot
  pub card_in : s.card < d.n_cards
  pub col_in : s.col < (d.idx s.card).ncols
  pub half_in : s.half < 2
  pub armed : s.state ≢ disarmed
  pub strobing : s.state ≡ presenting → s.is_presenting ≡ true
  pub exhausted : s.state ≡ done → (s.fiden ≡ true) × (s.card + 1 ≡ d.n_cards)
  pub failed : s.state ≡ error → s.luren ≡ true

module _ (slot : Option ℕ) (d : DeckImg) (f : IsFeedable d) where
  pub present_next-IsOn : (s : Feeder) → IsOn slot d s → IsOn slot d (present_next d s)
  unfolding present_next
  present_next-IsOn s h = ground (arith, f.full s.card)

  pub advance_card-IsOn : (s : Feeder) → IsOn slot d s → IsOn slot d (advance_card d s)
  unfolding advance_card
  advance_card-IsOn s h = ground (arith, f.full s.card, f.full (u16 (s.card + 1)), f.deck.few)

  begin_card-IsOn : (s : Feeder) → IsOn slot d s → IsOn slot d (begin_card d s)
  unfolding begin_card lupob_update
  begin_card-IsOn s h = ground arith

  pub finin_release-IsOn : (s : Feeder) → IsOn slot d s → IsOn slot d (finin_release s)
  unfolding finin_release
  finin_release-IsOn s h = ground arith

  pub lupob_update-IsOn : (s : Feeder) → IsOn slot d s → IsOn slot d (lupob_update s)
  unfolding lupob_update
  lupob_update-IsOn s h = ground arith

  prefill-IsOn : (room : ℕ) (s : Feeder) → IsOn slot d s → IsOn slot d (prefill d room s)
  unfolding prefill
  prefill-IsOn zero s h = h
  prefill-IsOn (suc room) s h =
      if_intro (IsOn slot d) s.is_presenting
        (λ p. prefill-IsOn room (present_next d s) (present_next-IsOn s h)) (λ p. h)

  start_card_strobes-IsOn :
      (room : ℕ) (s : Feeder) → IsOn slot d s → IsOn slot d (start_card_strobes d room s)
  unfolding start_card_strobes feed_on
  start_card_strobes-IsOn room s h =
      let v = prefill-IsOn room (begin_card d s) (begin_card-IsOn s h) in
      record {
        at_slot = v.at_slot;
        card_in = v.card_in;
        col_in = v.col_in;
        half_in = v.half_in;
        armed = v.armed;
        strobing = v.strobing;
        exhausted = v.exhausted;
        failed = v.failed;
      }

  leave_parked-IsOn :
      (via_feed : Bool) (s : Feeder) → IsOn slot d s → IsOn slot d (leave_parked d via_feed s)
  unfolding leave_parked
  leave_parked-IsOn via_feed s h =
      if_intro (IsOn slot d) (is_card_done s.state)
        (λ p. advance_card-IsOn _ (if_intro (IsOn slot d) via_feed (λ q. h) (λ q. ground arith)))
        (λ p. h)

  pub trigger_present-IsOn :
      (via_feed : Bool) (room : ℕ) (s : Feeder)
      → IsOn slot d s
      → IsOn slot d (trigger_present d via_feed room s)
  unfolding trigger_present
  trigger_present-IsOn via_feed room s h =
      let t = leave_parked d via_feed (record s { cmd_pending = false }) in
      let on : IsOn slot d t =
        leave_parked-IsOn via_feed (record s { cmd_pending = false }) (ground arith) in
      if_intro (IsOn slot d) s.cmd_pending
        (λ p.
          if_intro (IsOn slot d) (is_armed_wait t.state) (λ w. start_card_strobes-IsOn room t on)
            (λ w. lupob_update-IsOn t on))
        (λ p. h)
