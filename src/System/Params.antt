-- ===== src/System/Params.antt =====
-- The parameters of the console and of the feeder, over any interleaving of the two cores.
use rpi_pico_card_reader.Prelude.{
  ℕ, ◌≤◌, ◌≡◌, refl, sym, ap, ap₂, subst, ◌∙◌, List, [], ◌∷◌, if_intro, ltb, ◌==◌, length,
  length-append, arith,
}
use rpi_pico_card_reader.Deck.{DeckImg}
use rpi_pico_card_reader.Feeder.Types.{Feeder}
use rpi_pico_card_reader.Feeder.Run.{Input}
use rpi_pico_card_reader.Feeder.Kept.{Params, params}
use rpi_pico_card_reader.Feeder.Params.{ipc-params, step-params}
use rpi_pico_card_reader.Console.State.{Console}
use rpi_pico_card_reader.Console.Arm.{console_arm_last}
use rpi_pico_card_reader.Console.Shell.{read_char}
use rpi_pico_card_reader.Console.Agreed.{IsAgreed}
use rpi_pico_card_reader.Console.Carried.{
  with_params, taken_all, taken_all-append, IsCarried, same_params,
}
use rpi_pico_card_reader.Console.Effects.{last-IsCarried, read_char-IsCarried}
use rpi_pico_card_reader.System.{
  System, g_deck, with_state, ipc_queue_depth, queue_add, ipc_try_recv, SysEvent, typed, button,
  send, beat, receive, re_cmd, tu03, txfeed, poll, elapse, on_core0, sys_step, sys_run,
}

-- The parameters of the feeder once the queue, and then what the console sends, is taken.
abbrev coming : System → Params
coming s = taken_all s.console.sent (taken_all s.ipc_q (params s.feeder))

pub record IsSound (s : System) : Type 0 where
  pub agreed : IsAgreed s.console.g_cfg (with_params (coming s))
  pub room : length s.ipc_q ≤ ipc_queue_depth

core0-IsSound :
    (f : Console → Console) (scratch : DeckImg) (s : System)
    → ((p : Params) → IsCarried p s.console → IsCarried p (f s.console))
    → IsSound s
    → IsSound (on_core0 f scratch s)
core0-IsSound f scratch s k h =
    if_intro IsSound (length s.console.sent == 0)
      (λ q. record { agreed = k (taken_all s.ipc_q (params s.feeder)) h.agreed; room = h.room })
      (λ q. h)

core1-IsSound :
    (s : System) (t : Feeder)
    → params t ≡ params s.feeder
    → IsSound s
    → IsSound (record s { feeder = t })
core1-IsSound s t e h = record {
  agreed =
      subst
        (λ (p : Params).
          IsAgreed s.console.g_cfg (with_params (taken_all s.console.sent (taken_all s.ipc_q p))))
        (sym e) h.agreed;
  room = h.room;
}

send-IsSound :
    (ws : List ℕ) (s : System) → s.console.sent ≡ ws → IsSound s → IsSound (queue_add ws s)
unfolding queue_add
send-IsSound [] s e h = h
send-IsSound (w ∷ ws) s e h =
    if_intro IsSound (ltb (length s.ipc_q) ipc_queue_depth)
      (λ q. record {
        agreed =
            subst (λ (p : Params). IsAgreed s.console.g_cfg (with_params p))
              (ap (λ vs. taken_all vs (taken_all s.ipc_q (params s.feeder))) e
                ∙ ap (taken_all ws) (sym (taken_all-append s.ipc_q (w ∷ []) (params s.feeder))))
              h.agreed;
        room = ground (arith, q, length-append s.ipc_q (w ∷ []));
      })
      (λ q. h)

receive-IsSound :
    (ws : List ℕ) (s : System) → s.ipc_q ≡ ws → IsSound s → IsSound (ipc_try_recv ws s)
unfolding ipc_try_recv
receive-IsSound [] s e h = h
receive-IsSound (w ∷ ws) s e h = record {
  agreed =
      subst (λ (p : Params). IsAgreed s.console.g_cfg (with_params (taken_all s.console.sent p)))
        (ap (λ vs. taken_all vs (params s.feeder)) e
          ∙ ap (taken_all ws) (sym (ipc-params (g_deck s) w s.feeder)))
        h.agreed;
  room = omega (arith, h.room, ap length e);
}

step-IsSound : (e : SysEvent) (s : System) → IsSound s → IsSound (sys_step e s)
unfolding sys_step
step-IsSound (typed env scratch ch) s h =
    core0-IsSound (read_char (with_state s env) ch) scratch s
      (λ p k. read_char-IsCarried p (with_state s env) ch s.console k) h
step-IsSound (button env scratch) s h =
    core0-IsSound (console_arm_last (with_state s env)) scratch s
      (λ p k. last-IsCarried p (with_state s env) s.console k) h
step-IsSound send s h = send-IsSound s.console.sent s refl h
step-IsSound beat s h = record { agreed = h.agreed; room = h.room }
step-IsSound receive s h = receive-IsSound s.ipc_q s refl h
step-IsSound (re_cmd re) s h =
    core1-IsSound s _ (step-params (g_deck s) (Input.re_cmd re) s.feeder) h
step-IsSound (tu03 n) s h = core1-IsSound s _ (step-params (g_deck s) (Input.tu03 n) s.feeder) h
step-IsSound txfeed s h = core1-IsSound s _ (step-params (g_deck s) Input.txfeed s.feeder) h
step-IsSound (poll n) s h = core1-IsSound s _ (step-params (g_deck s) (Input.poll n) s.feeder) h
step-IsSound (elapse us) s h =
    core1-IsSound s _ (step-params (g_deck s) (Input.elapse us) s.feeder) h

-- Whatever the two cores do, in any order, the parameters that the feeder will have, once the words on
-- their way are taken, stay those of the configuration, and the queue holds 16 words at most.
pub sys_run-IsSound : (es : List SysEvent) (s : System) → IsSound s → IsSound (sys_run es s)
unfolding sys_run
sys_run-IsSound [] s h = h
sys_run-IsSound (e ∷ es) s h = sys_run-IsSound es (sys_step e s) (step-IsSound e s h)

-- Whenever no word is on its way, the feeder has the parameters of the configuration, after any
-- commands, button presses and events of the wire in any order, from a state in which they agree.
pub settled-IsAgreed :
    (es : List SysEvent) (s : System)
    → IsAgreed s.console.g_cfg s.feeder
    → s.ipc_q ≡ []
    → s.console.sent ≡ []
    → (sys_run es s).ipc_q ≡ []
    → (sys_run es s).console.sent ≡ []
    → IsAgreed (sys_run es s).console.g_cfg (sys_run es s).feeder
settled-IsAgreed es s h q0 c0 q c =
    let t = sys_run es s in
    let still : (u : System) → u.ipc_q ≡ [] → u.console.sent ≡ [] → coming u ≡ params u.feeder =
      λ u i j. ap₂ (λ ws vs. taken_all ws (taken_all vs (params u.feeder))) j i in
    let start : IsSound s = record {
      agreed =
          same_params s.console.g_cfg s.feeder (with_params (coming s)) (sym (still s q0 c0)) h;
      room = omega (arith, ap length q0);
    } in
    same_params t.console.g_cfg (with_params (coming t)) t.feeder (still t q c)
      (sys_run-IsSound es s start).agreed
