-- ===== src/Monitor/Tests.antt =====
-- Runs of the event ring, and uses of its theorems.
use rpi_pico_card_reader.Prelude.{◌≡◌, refl, [], ◌∷◌, ◌++◌, arith}
use rpi_pico_card_reader.Monitor.{EvKind, tu03, autofeed, EvRing, new_event, ev_push}
use rpi_pico_card_reader.Monitor.Queue.{pending, last_events, IsRing, pending-ev_push}
use rpi_pico_card_reader.Prelude.{true, false, ◌||◌, ◌==◌}
use rpi_pico_card_reader.Wire.{re_byte}
use rpi_pico_card_reader.Monitor.Drain.{
  event_line, pins_line, Monitor, Pins, monitor_drain, monitor_drain_lem,
}

-- An empty ring just before the counters wrap.
abbrev at_wrap : EvRing
at_wrap = record {
  ev = λ i. record { t_us = 0; kind = EvKind.re_cmd; arg = 0; seq = 0 };
  wr = 4294967295;
  rd = 4294967295;
}

at_wrap-IsRing : IsRing at_wrap
at_wrap-IsRing = record { wr_fits = omega arith; rd_fits = omega arith }

two_events :
    pending (ev_push 8 autofeed 1 (ev_push 7 tu03 0 at_wrap))
    ≡ record { t_us = 7; kind = tu03; arg = 0; seq = 65535 }
      ∷ record { t_us = 8; kind = autofeed; arg = 1; seq = 0 }
      ∷ []
unfolding ev_push
two_events = refl

pending-ev_push_example :
    pending (ev_push 7 tu03 0 at_wrap)
    ≡ last_events (pending at_wrap ++ new_event 7 tu03 0 at_wrap ∷ [])
pending-ev_push_example = pending-ev_push 7 tu03 0 at_wrap at_wrap-IsRing (omega arith)

abbrev traced : Monitor
traced = record {
  ring = ev_push 8 autofeed 1 (ev_push 7 tu03 0 at_wrap);
  trace_on = true;
  next_us = 0;
  out = [];
}

traced-IsRing : IsRing traced.ring
unfolding ev_push
traced-IsRing = record { wr_fits = omega arith; rd_fits = omega arith }

-- RE00 and RE06 are up.
abbrev gpio : Pins
gpio i = i == 28 || i == 22

monitor_drain_lem_example :
    let u = monitor_drain 600000 gpio traced in
    (u.out
      ≡ event_line (record { t_us = 7; kind = tu03; arg = 0; seq = 65535 })
        ∷ event_line (record { t_us = 8; kind = autofeed; arg = 1; seq = 0 })
        ∷ pins_line 600000 false false 0x81
        ∷ [])
    × (pending u.ring ≡ [])
    × (u.ring.wr ≡ 1)
    × (u.next_us ≡ 1100000)
unfolding ev_push re_byte
monitor_drain_lem_example = monitor_drain_lem 600000 gpio traced traced-IsRing
