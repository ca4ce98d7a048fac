-- ===== src/Console/Restart.antt =====
-- The button after a restart: the name of the last deck through the flash.
use rpi_pico_card_reader.Prelude.{
  ℕ, zero, suc, ◌≤◌, ◌<◌, ◌≡◌, ◌≢◌, refl, ap, ap₂, ◌∙◌, List, [], ◌∷◌, ◌++◌, Bool, true, false, not,
  if◌then◌else◌, ◌==◌, get_or, take, replicate, length, length-append, length-take, Array, arith,
}
use rpi_pico_card_reader.Feeder.Types.{disarmed}
use rpi_pico_card_reader.Wire.{ipc_word}
use rpi_pico_card_reader.Fat.Volume.{FatVol}
use rpi_pico_card_reader.Storage.{storage_flush}
use rpi_pico_card_reader.Fat.Directory.{c_string}
use rpi_pico_card_reader.Config.{Cfg, is_disarmed, cfg_load, cfg_save}
use rpi_pico_card_reader.Config.Layout.{IsCfg}
use rpi_pico_card_reader.Config.Saved.{cfg_load-cfg_save}
use rpi_pico_card_reader.Console.State.{Console, Env, con_printf, ipc_send, ok_rewind, err_no_last}
use rpi_pico_card_reader.Console.Arm.{
  mount, named_base, deck_of, last_deck_of, arm_named, console_arm_last,
}
use rpi_pico_card_reader.Console.Outcome.{
  cfg_save-last_deck, arm_named-outcome, finish_keeps, arm_named-loaded,
}

-- A name of a C string that fits g_cfg.last_deck.
pub record IsName (name : List ℕ) : Type 0 where
  pub some_char : 0 < length name
  pub short : length name < 48
  pub no_nul : (i : ℕ) → i < length name → get_or name i 0 ≢ 0

take_all : (n : ℕ) (xs : List ℕ) → length xs ≤ n → take n xs ≡ xs
take_all zero [] h = refl
take_all zero (x ∷ xs) h = absurd (omega (arith, h))
take_all (suc n) [] h = refl
take_all (suc n) (x ∷ xs) h = ap (λ ys. x ∷ ys) (take_all n xs (omega (arith, h)))

-- A string that is cut behind its 0.
c_string-take :
    (n : ℕ) (name rest : List ℕ)
    → length name < n
    → ((i : ℕ) → i < length name → get_or name i 0 ≢ 0)
    → c_string (take n (name ++ 0 ∷ rest)) ≡ name
unfolding c_string
c_string-take zero name rest lt h = absurd (omega (arith, lt))
c_string-take (suc n) [] rest lt h = refl
c_string-take (suc n) (x ∷ name) rest lt h =
    let tail =
      c_string-take n name rest (omega (arith, lt)) (λ i k. h (suc i) (omega (arith, k))) in
    ground (arith, h 0 (omega arith), ap (λ ys. x ∷ ys) tail)

last_deck_of-IsName : (name : List ℕ) → IsName name → c_string (last_deck_of name) ≡ name
last_deck_of-IsName name h =
    ap (λ n. c_string (take 48 (n ++ replicate 48 0))) (take_all 47 name (omega (arith, h.short)))
    ∙ c_string-take 48 name (replicate 47 0) h.short h.no_nul

first_char : (name : List ℕ) → IsName name → (get_or (last_deck_of name) 0 0 == 0) ≡ false
first_char [] h = absurd (omega (arith, h.some_char))
first_char (x ∷ name) h = ground (arith, h.no_nul 0 (omega arith))

length-last_deck_of : (name : List ℕ) → length (last_deck_of name) ≡ 48
length-last_deck_of name = omega (
  arith,
  length-take 48 (take 47 name ++ replicate 48 0),
  length-append (take 47 name) (replicate 48 0),
)

named-IsCfg :
    (c : Cfg) (name : List ℕ) → IsCfg c → IsCfg (record c { last_deck = last_deck_of name })
named-IsCfg c name h = record {
  magic = h.magic;
  w_ticks = h.w_ticks;
  g_ticks = h.g_ticks;
  s_ticks = h.s_ticks;
  d_us = h.d_us;
  finin_to_us = h.finin_to_us;
  last_deck = length-last_deck_of name;
  padding = h.padding;
  crc = h.crc;
}

-- After a restart the button arms the name that was armed last, without --raw.
restarted_name :
    (env : Env) (name : List ℕ) (raw : Bool) (c : Console)
    → IsCfg c.g_cfg
    → IsName name
    → env.state ≡ disarmed
    → env.saves ≡ true
    → (arm_named env name raw c).1 ≡ true
    → (env2 : Env) (c2 : Console) → env2.state ≡ disarmed
    → c2.g_cfg ≡ cfg_load (arm_named env name raw c).0.storage.flash
    → console_arm_last env2 c2 ≡ (arm_named env2 name false c2).0
unfolding console_arm_last
restarted_name env name raw c h k state saves ok env2 c2 state2 restart =
    let armed = (arm_named-outcome env name raw c).0 ok in
    let cfg = record c.g_cfg { last_deck = last_deck_of name } in
    let old : Array ℕ = (storage_flush env.flushes c.storage).0.flash in
    let flash = armed.flash ∙ ap₂ (λ b s. (cfg_save b s cfg old).1) saves state in
    let last : c2.g_cfg.last_deck ≡ last_deck_of name =
      ap (λ x. x.last_deck)
        (restart ∙ ap cfg_load flash ∙ (cfg_load-cfg_save cfg old (named-IsCfg c.g_cfg name h)).1)
      ∙ cfg_save-last_deck true disarmed cfg old in
    let arms : Bool → Bool → List ℕ → Console = λ d e n.
      if not d
      then con_printf ok_rewind (ipc_send 3 0 0 c2)
      else if e
      then con_printf err_no_last c2
      else (arm_named env2 n false c2).0 in
    ap (λ d. arms d (get_or c2.g_cfg.last_deck 0 0 == 0) (c_string c2.g_cfg.last_deck))
      (ap is_disarmed state2)
    ∙ ap (λ l. arms true (get_or l 0 0 == 0) (c_string l)) last
    ∙ ap₂ (arms true) (first_char name k) (last_deck_of-IsName name k)

-- The volume is as it was: it can be mounted with the same geometry, and its files read the same.
pub record IsSameVolume (env : Env) (c : Console) (env2 : Env) (c2 : Console) : Type 1 where
  pub volume :
      mount (storage_flush env2.flushes c2.storage).0
      ≡ mount (storage_flush env.flushes c.storage).0
  pub files :
      (v : FatVol)
      → env2.reader (storage_flush env2.flushes c2.storage).0 v
        ≡ env.reader (storage_flush env.flushes c.storage).0 v

-- A deck that is armed without --raw, by a name of at most 47 characters, while the feeder is DISARMED
-- and the configuration can be saved, is the one that the button arms after a restart, as long as the
-- volume is as it was: with the configuration that is loaded then, console_arm_last loads the same
-- deck into g_deck[0] and sends IPC_ARM.
pub console_arm_last-arm_named :
    (env : Env) (name : List ℕ) (c : Console)
    → IsCfg c.g_cfg
    → IsName name
    → env.state ≡ disarmed
    → env.saves ≡ true
    → (arm_named env name false c).1 ≡ true
    → (env2 : Env) (c2 : Console) → env2.state ≡ disarmed
    → c2.g_cfg ≡ cfg_load (arm_named env name false c).0.storage.flash
    → IsSameVolume env c env2 c2
    → ((console_arm_last env2 c2).deck ≡ (arm_named env name false c).0.deck)
      × ((console_arm_last env2 c2).sent ≡ c2.sent ++ ipc_word 1 0 0 ∷ [])
console_arm_last-arm_named env name c h k state saves ok env2 c2 state2 restart same =
    let armed = (arm_named-outcome env name false c).0 ok in
    let d = (arm_named env name false c).0.deck in
    let deck =
      ap (λ files. deck_of files (named_base name).0 (named_base name).1 false)
        (same.files armed.vol)
      ∙ armed.deck in
    let (loads, _, _, sends) =
      finish_keeps env2 name false c2
        (record c2 { storage = (storage_flush env2.flushes c2.storage).0; deck = d }) in
    let arms =
      restarted_name env name false c h k state saves ok env2 c2 state2 restart
      ∙ ap (λ (r : Console × Bool). r.0)
          (arm_named-loaded env2 name false c2 armed.vol d armed.base (same.volume ∙ armed.mounted)
            deck) in
    (ap (λ (x : Console). x.deck) arms ∙ loads, ap (λ (x : Console). x.sent) arms ∙ sends)
