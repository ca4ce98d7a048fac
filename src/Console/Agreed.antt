-- ===== src/Console/Agreed.antt =====
-- The parameters of the configuration and those of the feeder: the command set changes both.
use rpi_pico_card_reader.Prelude.{
  ℕ, zero, suc, ◌*◌, ◌/◌, ◌%◌, ◌≤◌, ◌<◌, ◌≡◌, refl, sym, subst, ap, ap₂, ◌∙◌, List, [], ◌∷◌, ◌++◌,
  ◌==◌, u16, arith,
}
use Prim.Native.Nat.{bit_or}
use rpi_pico_card_reader.Deck.{DeckImg}
use rpi_pico_card_reader.Wire.{ipc_word, ipc_arg, ipc_val}
use rpi_pico_card_reader.Wire.Fields.{ipc_word_fields}
use rpi_pico_card_reader.Feeder.Types.{Feeder, feeder_init, lupob_update}
use rpi_pico_card_reader.Feeder.Mailbox.{decode_op, apply_param, on_op, feeder_on_ipc}
use rpi_pico_card_reader.Config.{Cfg, cfg_defaults}
use rpi_pico_card_reader.Console.State.{Console}
use rpi_pico_card_reader.Console.Param.{
  put_param, Param, set_w, set_g, set_s, set_d, set_finto, set_plc, set_arw, param_code, capped,
  say_capped, set_field, sent_value,
}

-- The feeder has the parameters of the configuration, and its two times fit the presenter's word.
pub record IsAgreed (c : Cfg) (s : Feeder) : Type 0 where
  pub w_ticks : s.w_ticks ≡ c.w_ticks
  pub g_ticks : s.g_ticks ≡ c.g_ticks
  pub s_ticks : s.s_ticks ≡ c.s_ticks
  pub d_us : s.d_us ≡ c.d_us
  pub finin_to_us : s.finin_to_us ≡ c.finin_to_us
  pub post_loader_colbin : s.post_loader_colbin ≡ (c.post_loader_colbin == 1)
  pub auto_rewind : s.auto_rewind ≡ (c.auto_rewind == 1)
  pub w_fits : c.w_ticks ≤ 255
  pub g_fits : c.g_ticks ≤ 32767
  pub plc_flag : c.post_loader_colbin < 2
  pub arw_flag : c.auto_rewind < 2

-- A feeder that has just started has the parameters of the default configuration.
pub feeder_init-IsAgreed : (s : Feeder) → IsAgreed cfg_defaults (feeder_init s)
unfolding feeder_init
feeder_init-IsAgreed s = record {
  w_ticks = refl;
  g_ticks = refl;
  s_ticks = refl;
  d_us = refl;
  finin_to_us = refl;
  post_loader_colbin = refl;
  auto_rewind = refl;
  w_fits = omega arith;
  g_fits = omega arith;
  plc_flag = omega arith;
  arw_flag = omega arith;
}

-- The two flags in one word.
policy_lem :
    (p a : ℕ)
    → p < 2
    → a < 2
    → (u16 (bit_or p (a * 2)) % 2 ≡ p) × (u16 (bit_or p (a * 2)) / 2 % 2 ≡ a)
policy_lem zero zero h k = (refl, refl)
policy_lem zero (suc zero) h k = (refl, refl)
policy_lem (suc zero) zero h k = (refl, refl)
policy_lem (suc zero) (suc zero) h k = (refl, refl)
policy_lem (suc (suc p)) a h k = absurd (omega arith)
policy_lem p (suc (suc a)) h k = absurd (omega arith)

param_code-lt : (p : Param) → param_code p < 256
param_code-lt set_w = omega arith
param_code-lt set_g = omega arith
param_code-lt set_s = omega arith
param_code-lt set_d = omega arith
param_code-lt set_finto = omega arith
param_code-lt set_plc = omega arith
param_code-lt set_arw = omega arith

sent_value-lt : (p : Param) (v : ℕ) (c : Cfg) → sent_value p v c < 65536
sent_value-lt set_w v c = omega arith
sent_value-lt set_g v c = omega arith
sent_value-lt set_s v c = omega arith
sent_value-lt set_d v c = omega arith
sent_value-lt set_finto v c = omega arith
sent_value-lt set_plc v c = omega arith
sent_value-lt set_arw v c = omega arith

module _ (g_deck : ℕ → DeckImg) where
  set_param_word :
      (code val : ℕ) (s : Feeder)
      → code < 256
      → val < 65536
      → feeder_on_ipc g_deck (ipc_word 5 code val) s ≡ lupob_update (apply_param code val s)
  unfolding feeder_on_ipc on_op decode_op
  set_param_word code val s h k =
      let (op, arg, value, fits) = ipc_word_fields 5 code val (omega arith) h k in
      ap
        (λ o. lupob_update (
          on_op g_deck (decode_op o) (ipc_arg (ipc_word 5 code val)) (ipc_val (ipc_word 5 code val))
            s))
        op
      ∙ ap₂ (λ a v. lupob_update (apply_param a v s)) arg value

  say_capped-sent : (p : Param) (v : ℕ) (c : Console) → (say_capped p v c).sent ≡ c.sent
  say_capped-sent set_w v c = ground arith
  say_capped-sent set_g v c = ground arith
  say_capped-sent set_s v c = refl
  say_capped-sent set_d v c = refl
  say_capped-sent set_finto v c = refl
  say_capped-sent set_plc v c = refl
  say_capped-sent set_arw v c = refl

  apply-IsAgreed :
      (p : Param) (v : ℕ) (c : Cfg) (s : Feeder)
      → IsAgreed c s
      → IsAgreed (set_field p (capped p v) c) (
          lupob_update
            (apply_param (param_code p) (sent_value p (capped p v) (set_field p (capped p v) c)) s))
  unfolding apply_param lupob_update
  apply-IsAgreed set_w v c s h = record {
    w_ticks = refl;
    g_ticks = h.g_ticks;
    s_ticks = h.s_ticks;
    d_us = h.d_us;
    finin_to_us = h.finin_to_us;
    post_loader_colbin = h.post_loader_colbin;
    auto_rewind = h.auto_rewind;
    w_fits = ground arith;
    g_fits = h.g_fits;
    plc_flag = h.plc_flag;
    arw_flag = h.arw_flag;
  }
  apply-IsAgreed set_g v c s h = record {
    w_ticks = h.w_ticks;
    g_ticks = refl;
    s_ticks = h.s_ticks;
    d_us = h.d_us;
    finin_to_us = h.finin_to_us;
    post_loader_colbin = h.post_loader_colbin;
    auto_rewind = h.auto_rewind;
    w_fits = h.w_fits;
    g_fits = ground arith;
    plc_flag = h.plc_flag;
    arw_flag = h.arw_flag;
  }
  apply-IsAgreed set_s v c s h = record {
    w_ticks = h.w_ticks;
    g_ticks = h.g_ticks;
    s_ticks = refl;
    d_us = h.d_us;
    finin_to_us = h.finin_to_us;
    post_loader_colbin = h.post_loader_colbin;
    auto_rewind = h.auto_rewind;
    w_fits = h.w_fits;
    g_fits = h.g_fits;
    plc_flag = h.plc_flag;
    arw_flag = h.arw_flag;
  }
  apply-IsAgreed set_d v c s h = record {
    w_ticks = h.w_ticks;
    g_ticks = h.g_ticks;
    s_ticks = h.s_ticks;
    d_us = refl;
    finin_to_us = h.finin_to_us;
    post_loader_colbin = h.post_loader_colbin;
    auto_rewind = h.auto_rewind;
    w_fits = h.w_fits;
    g_fits = h.g_fits;
    plc_flag = h.plc_flag;
    arw_flag = h.arw_flag;
  }
  apply-IsAgreed set_finto v c s h = record {
    w_ticks = h.w_ticks;
    g_ticks = h.g_ticks;
    s_ticks = h.s_ticks;
    d_us = h.d_us;
    finin_to_us = refl;
    post_loader_colbin = h.post_loader_colbin;
    auto_rewind = h.auto_rewind;
    w_fits = h.w_fits;
    g_fits = h.g_fits;
    plc_flag = h.plc_flag;
    arw_flag = h.arw_flag;
  }
  apply-IsAgreed set_plc v c s h =
      let (plc, arw) = policy_lem (v % 2) c.auto_rewind (omega arith) h.arw_flag in
      record {
        w_ticks = h.w_ticks;
        g_ticks = h.g_ticks;
        s_ticks = h.s_ticks;
        d_us = h.d_us;
        finin_to_us = h.finin_to_us;
        post_loader_colbin = ap (λ b. b == 1) plc;
        auto_rewind = ap (λ b. b == 1) arw;
        w_fits = h.w_fits;
        g_fits = h.g_fits;
        plc_flag = omega arith;
        arw_flag = h.arw_flag;
      }
  apply-IsAgreed set_arw v c s h =
      let (plc, arw) = policy_lem c.post_loader_colbin (v % 2) h.plc_flag (omega arith) in
      record {
        w_ticks = h.w_ticks;
        g_ticks = h.g_ticks;
        s_ticks = h.s_ticks;
        d_us = h.d_us;
        finin_to_us = h.finin_to_us;
        post_loader_colbin = ap (λ b. b == 1) plc;
        auto_rewind = ap (λ b. b == 1) arw;
        w_fits = h.w_fits;
        g_fits = h.g_fits;
        plc_flag = h.plc_flag;
        arw_flag = omega arith;
      }

  -- What the command set leaves: one word is sent, and the configuration and the feeder, once it has
  -- taken the word, agree again.
  abbrev pub IsTaken : Console → Feeder → Console → Type 0
  IsTaken c s c' =
      (word : ℕ) × (c'.sent ≡ c.sent ++ word ∷ []) × IsAgreed c'.g_cfg (feeder_on_ipc g_deck word s)

  -- A parameter that is set at the console, with any number as its value, takes effect on both sides:
  -- one word is sent, and once the feeder has taken it, its parameters are again those of the
  -- configuration, with the two times that the presenter's word holds capped to their fields.
  pub put_param-IsAgreed :
      (p : Param) (name : List ℕ) (v : ℕ) (c : Console) (s : Feeder)
      → IsAgreed c.g_cfg s
      → IsTaken c s (put_param p name v c)
  unfolding put_param
  put_param-IsAgreed p name v c s h =
      let c' = set_field p (capped p v) c.g_cfg in
      let val = sent_value p (capped p v) c' in
      let code_fits : param_code p < 256 = param_code-lt p in
      let fits : val < 65536 = sent_value-lt p (capped p v) c' in
      (
        ipc_word 5 (param_code p) val,
        ap (λ xs. xs ++ ipc_word 5 (param_code p) val ∷ []) (say_capped-sent p v c),
        subst (IsAgreed c') (sym (set_param_word (param_code p) val s code_fits fits))
            (apply-IsAgreed p v c.g_cfg s h),
      )
