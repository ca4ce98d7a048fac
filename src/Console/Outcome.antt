-- ===== src/Console/Outcome.antt =====
-- What arming leaves, on every path of arm_named, and the button after a restart.
use rpi_pico_card_reader.Prelude.{
  ℕ, ◌≡◌, refl, sym, ap, ap₂, ◌∙◌, List, [], ◌∷◌, ◌++◌, Bool, true, false, ◌&&◌, some, if_intro,
  with_option, with_option_intro, Option, if◌then◌else◌, Array, arith,
}
use rpi_pico_card_reader.Deck.{DeckImg}
use rpi_pico_card_reader.Feeder.Types.{FeederState}
use rpi_pico_card_reader.Wire.{ipc_word}
use rpi_pico_card_reader.Storage.{Storage, storage_flush}
use rpi_pico_card_reader.Fat.Volume.{FatVol}
use rpi_pico_card_reader.Config.{Cfg, cfg_save}
use rpi_pico_card_reader.Deckload.{Loaded, loaded, no_file, bad_file}
use rpi_pico_card_reader.Console.State.{Console, Env, con_printf, err_base, err_no_volume}
use rpi_pico_card_reader.Console.Arm.{
  mount, named_base, is_bin, is_bad_base, deck_of, last_deck_of, finish_arm, after_load, arm_named,
}

pub cfg_save-last_deck :
    (ok : Bool) (state : FeederState) (c : Cfg) (flash : Array ℕ)
    → (cfg_save ok state c flash).0.last_deck ≡ c.last_deck
unfolding cfg_save
cfg_save-last_deck ok state c flash = ground arith

module _ (env : Env) (name : List ℕ) (raw : Bool) (c : Console) where
  abbrev pub flushed : Storage
  flushed = (storage_flush env.flushes c.storage).0

  abbrev pub saved_flash : Storage → Array ℕ
  saved_flash s =
      (cfg_save env.saves env.state (record c.g_cfg { last_deck = last_deck_of name }) s.flash).1

  -- A deck was loaded from the volume into g_deck[0], and one word sent.
  pub record IsArmed (c' : Console) : Type 1 where
    pub vol : FatVol
    pub mounted : mount flushed ≡ some vol
    pub deck :
        deck_of (env.reader flushed vol) (named_base name).0 (named_base name).1 raw
        ≡ loaded c'.deck
    pub base : (is_bin (named_base name).0 && is_bad_base (named_base name).1) ≡ false
    pub last_deck : c'.g_cfg.last_deck ≡ last_deck_of name
    pub flash : c'.storage.flash ≡ saved_flash flushed
    pub sent : c'.sent ≡ c.sent ++ ipc_word 1 0 0 ∷ []

  pub finish_keeps :
      (c1 : Console)
      → let c' = finish_arm env name raw c1 in
        (c'.deck ≡ c1.deck)
        × (c'.g_cfg.last_deck ≡ last_deck_of name)
        × (c'.storage.flash
            ≡ (cfg_save env.saves env.state
                (record c1.g_cfg { last_deck = last_deck_of name })
                c1.storage.flash).1)
        × (c'.sent ≡ c1.sent ++ ipc_word 1 0 0 ∷ [])
  unfolding finish_arm
  finish_keeps c1 = (refl, cfg_save-last_deck env.saves env.state _ _, refl, refl)

  abbrev pub Armed : Console × Bool → Type 1
  Armed (c', ok) = ok ≡ true → IsArmed c'

  abbrev pub Refused : Console × Bool → Type 0
  Refused (c', ok) = ok ≡ false → (c'.sent ≡ c.sent) × (c'.g_cfg ≡ c.g_cfg) × (c'.line ≡ c.line)

  abbrev pub Settled : Console × Bool → Type 1
  Settled r = Armed r × Refused r

  refused :
      (c' : Console)
      → (c'.sent ≡ c.sent) × (c'.g_cfg ≡ c.g_cfg) × (c'.line ≡ c.line)
      → Settled (c', false)
  refused c' h = ((λ e. absurd (ground (arith, e))), λ e. h)

  after_load_lem :
      (v : FatVol) (l : Loaded)
      → mount flushed ≡ some v
      → (is_bin (named_base name).0 && is_bad_base (named_base name).1) ≡ false
      → deck_of (env.reader flushed v) (named_base name).0 (named_base name).1 raw ≡ l
      → Settled (after_load env name raw l (record c { storage = flushed }))
  unfolding after_load
  after_load_lem v (loaded d) q p e =
      let (deck, last, flash, sent) = finish_keeps (record c { storage = flushed; deck = d }) in
      (
        λ u. record {
          vol = v;
          mounted = q;
          deck = e ∙ ap loaded (sym deck);
          base = p;
          last_deck = last;
          flash = flash;
          sent = sent;
        },
        λ u. absurd (ground (arith, u)),
      )
  after_load_lem v no_file q p e = refused _ (refl, refl, refl)
  after_load_lem v bad_file q p e = refused _ (refl, refl, refl)

  -- Arming by name succeeds only if the volume can be mounted and the loader makes a deck of the
  -- named file, binary or batch, at a base that the binary's loader card leaves free. That deck is then
  -- in g_deck[0], the name is the last deck's, and the feeder is sent IPC_ARM. When it fails, nothing is
  -- sent and the configuration stays as it is.
  pub arm_named-outcome : Settled (arm_named env name raw c)
  unfolding arm_named
  arm_named-outcome =
      let (n, base) = named_base name in
      if_intro Settled (is_bin n && is_bad_base base) (λ p. refused _ (refl, refl, refl))
        (λ p.
          with_option_intro Settled (mount flushed) (λ q. refused _ (refl, refl, refl))
            (λ v q. after_load_lem v (deck_of (env.reader flushed v) n base raw) q p refl))

  -- Where the volume can be mounted and a deck is loaded, arm_named arms it.
  pub arm_named-loaded :
      (v : FatVol) (d : DeckImg)
      → (is_bin (named_base name).0 && is_bad_base (named_base name).1) ≡ false
      → mount flushed ≡ some v
      → deck_of (env.reader flushed v) (named_base name).0 (named_base name).1 raw ≡ loaded d
      → arm_named env name raw c
        ≡ (finish_arm env name raw (record c { storage = flushed; deck = d }), true)
  unfolding arm_named after_load
  arm_named-loaded v d base mounted e =
      let ready = record c { storage = flushed } in
      let load : FatVol → Loaded =
        λ u. deck_of (env.reader flushed u) (named_base name).0 (named_base name).1 raw in
      let paths : Bool → Option FatVol → Console × Bool = λ b m.
        if b
        then (con_printf (err_base (named_base name).1) c, false)
        else with_option m (con_printf err_no_volume ready, false)
            (λ u. after_load env name raw (load u) ready) in
      ap₂ paths base mounted ∙ ap (λ l. after_load env name raw l ready) e
