-- ===== src/Monitor.antt =====
-- include/events.h and src/monitor.c: the event ring, written by core1 and read by core0. `ev` is
-- an array of EV_RING_LEN entries, `wr` and `rd` are free-running 32-bit counters. The time of an
-- event is an argument; the section with interrupts off is one step.
mod Tests
pub mod Queue
pub mod Drain
use rpi_pico_card_reader.Prelude.{
  ℕ, ◌+◌, ◌-◌, ◌%◌, Option, none, some, if◌then◌else◌, ltb, ◌==◌, u16, u32, sub32, Array, store,
}

pub data EvKind : Type 0 where
  re_cmd tu03 present_start present_end mode autofeed fiden anomaly tu00_edge : EvKind

pub record Event : Type 0 where
  pub t_us : ℕ
  pub kind : EvKind
  pub arg : ℕ
  pub seq : ℕ

abbrev pub ev_ring_len : ℕ
ev_ring_len = 1024

pub record EvRing : Type 0 where
  pub ev : Array Event
  pub wr : ℕ
  pub rd : ℕ

abbrev pub new_event : ℕ → EvKind → ℕ → EvRing → Event
new_event now kind arg g = record { t_us = now; kind = kind; arg = arg; seq = u16 g.wr }

unfoldable pub ev_push : ℕ → EvKind → ℕ → EvRing → EvRing
ev_push now kind arg g = record g {
  ev = store g.ev (g.wr % ev_ring_len) (new_event now kind arg g);
  wr = u32 (g.wr + 1);
}

-- Where the reader goes on: an overrun skips to the oldest event that is still there.
unfoldable pub read_from : EvRing → ℕ
read_from g = if ltb ev_ring_len (sub32 g.wr g.rd) then sub32 g.wr ev_ring_len else g.rd

unfoldable pub ev_pop : EvRing → Option (Event × EvRing)
unfolding read_from
ev_pop g =
    let rd = read_from g in
    if g.rd == g.wr then none else some (g.ev (rd % ev_ring_len), record g { rd = u32 (rd + 1) })
