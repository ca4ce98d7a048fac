-- ===== src/Console/Carried.antt =====
-- The parameters through the shell: what any command leaves of the agreement with the feeder.
use rpi_pico_card_reader.Prelude.{
  ℕ, ◌≡◌, refl, sym, ap, subst, ◌∙◌, List, [], ◌∷◌, ◌++◌, false, ◌==◌, arith,
}
use rpi_pico_card_reader.Deck.{DeckImg, zero_img}
use rpi_pico_card_reader.Wire.{ipc_word, ipc_op}
use rpi_pico_card_reader.Feeder.Types.{Feeder, boot}
use rpi_pico_card_reader.Feeder.Mailbox.{feeder_on_ipc}
use rpi_pico_card_reader.Feeder.Kept.{Params, params}
use rpi_pico_card_reader.Feeder.Params.{taken, ipc-params}
use rpi_pico_card_reader.Config.{Cfg}
use rpi_pico_card_reader.Console.Agreed.{IsAgreed, put_param-IsAgreed}
use rpi_pico_card_reader.Console.State.{Console, ipc_send}
use rpi_pico_card_reader.Console.Param.{Param, put_param}

abbrev pub with_params : Params → Feeder
with_params p = record boot {
  w_ticks = p.w_ticks;
  g_ticks = p.g_ticks;
  s_ticks = p.s_ticks;
  d_us = p.d_us;
  finin_to_us = p.finin_to_us;
  post_loader_colbin = p.post_loader_colbin;
  auto_rewind = p.auto_rewind;
}

-- The op words, the first one first.
abbrev pub taken_all : List ℕ → Params → Params
taken_all [] p = p
taken_all (w ∷ ws) p = taken_all ws (taken w p)

pub taken_all-append :
    (ws vs : List ℕ) (p : Params) → taken_all (ws ++ vs) p ≡ taken_all vs (taken_all ws p)
taken_all-append [] vs p = refl
taken_all-append (w ∷ ws) vs p = taken_all-append ws vs (taken w p)

-- The agreement once the words that the console has sent are taken.
abbrev pub IsCarried : Params → Console → Type 0
IsCarried p c = IsAgreed c.g_cfg (with_params (taken_all c.sent p))

pub same_params : (c : Cfg) (s t : Feeder) → params s ≡ params t → IsAgreed c s → IsAgreed c t
same_params c s t e h = record {
  w_ticks = ap (λ (p : Params). p.w_ticks) (sym e) ∙ h.w_ticks;
  g_ticks = ap (λ (p : Params). p.g_ticks) (sym e) ∙ h.g_ticks;
  s_ticks = ap (λ (p : Params). p.s_ticks) (sym e) ∙ h.s_ticks;
  d_us = ap (λ (p : Params). p.d_us) (sym e) ∙ h.d_us;
  finin_to_us = ap (λ (p : Params). p.finin_to_us) (sym e) ∙ h.finin_to_us;
  post_loader_colbin = ap (λ (p : Params). p.post_loader_colbin) (sym e) ∙ h.post_loader_colbin;
  auto_rewind = ap (λ (p : Params). p.auto_rewind) (sym e) ∙ h.auto_rewind;
  w_fits = h.w_fits;
  g_fits = h.g_fits;
  plc_flag = h.plc_flag;
  arw_flag = h.arw_flag;
}

-- The agreement does not read the name and the checksum of the configuration.
pub unread :
    (c : Cfg) (crc : ℕ) (name : List ℕ) (s : Feeder)
    → IsAgreed c s
    → IsAgreed (record c { crc = crc; last_deck = name }) s
unread c crc name s h = record {
  w_ticks = h.w_ticks;
  g_ticks = h.g_ticks;
  s_ticks = h.s_ticks;
  d_us = h.d_us;
  finin_to_us = h.finin_to_us;
  post_loader_colbin = h.post_loader_colbin;
  auto_rewind = h.auto_rewind;
  w_fits = h.w_fits;
  g_fits = h.g_fits;
  plc_flag = h.plc_flag;
  arw_flag = h.arw_flag;
}

module _ (p : Params) where
  -- A word of another operation.
  pub send-IsCarried :
      (op val : ℕ) (c : Console)
      → (ipc_op (ipc_word op 0 val) == 5) ≡ false
      → IsCarried p c
      → IsCarried p (ipc_send op 0 val c)
  send-IsCarried op val c q h =
      let word = ipc_word op 0 val in
      let same : taken_all (c.sent ++ word ∷ []) p ≡ taken_all c.sent p =
        taken_all-append c.sent (word ∷ []) p ∙ ground (arith, q) in
      subst (λ (r : Params). IsAgreed c.g_cfg (with_params r)) (sym same) h

  pub put_param-IsCarried :
      (k : Param) (name : List ℕ) (v : ℕ) (c : Console)
      → IsCarried p c
      → IsCarried p (put_param k name v c)
  put_param-IsCarried k name v c h =
      let decks : ℕ → DeckImg = λ i. zero_img in
      let s = with_params (taken_all c.sent p) in
      let (word, sent, agreed) = put_param-IsAgreed decks k name v c s h in
      let c' = put_param k name v c in
      same_params c'.g_cfg (feeder_on_ipc decks word s) (with_params (taken_all c'.sent p))
        (ipc-params decks word s
          ∙ sym (taken_all-append c.sent (word ∷ []) p)
          ∙ ap (λ ws. taken_all ws p) (sym sent))
        agreed
