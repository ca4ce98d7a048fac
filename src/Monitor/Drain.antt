-- ===== src/Monitor/Drain.antt =====
-- src/monitor.c: the trace that core0 prints, monitor_drain and pins_snapshot. Nothing is pushed while
-- the ring is drained; the wording of a line is left out.
use rpi_pico_card_reader.Prelude.{
  ℕ, zero, suc, ◌+◌, ◌-◌, ◌*◌, ◌^◌, ◌≤◌, ◌<◌, ◌≡◌, refl, sym, ap, ap₂, subst, ◌∙◌, List, [], ◌∷◌,
  ◌++◌, map, append-nil, append_assoc, Option, none, some, Bool, true, false, ◌&&◌, if◌then◌else◌,
  if_intro, ◌==◌, u8, u32, expired, length, length-window, arith,
}
use rpi_pico_card_reader.Wire.{re_byte}
use rpi_pico_card_reader.Monitor.{Event, EvRing, ev_ring_len, read_from, ev_pop}
use rpi_pico_card_reader.Monitor.Queue.{backlog, entry, pending, popped, IsRing, pending-ev_pop}

-- A line for an event, and the line of the pins: the time, TU00N, TU03N and the RE byte.
pub data Line : Type 0 where
  event_line : Event → Line
  pins_line : ℕ → Bool → Bool → ℕ → Line

pub record Monitor : Type 0 where
  pub ring : EvRing
  pub trace_on : Bool
  pub next_us : ℕ
  pub out : List Line

unfoldable pub monitor_set_trace : Bool → Monitor → Monitor
monitor_set_trace on m = record m { trace_on = on }

-- gpio_get
abbrev pub Pins : Type 0
Pins = ℕ → Bool

abbrev pub level : Pins → ℕ → ℕ
level gpio i = if gpio i then 1 else 0

-- The loop over RE01 to RE07; the bits are distinct, so `|` is a sum.
abbrev pub re_bits : Pins → ℕ → ℕ → ℕ → ℕ
re_bits gpio zero i re = re
re_bits gpio (suc n) i re = re_bits gpio n (i + 1) (re + level gpio (16 + i) * 2 ^ (i + 1))

abbrev pub pins_snapshot_us : ℕ
pins_snapshot_us = 500000

unfoldable pub pins_snapshot : ℕ → Pins → Monitor → Monitor
pins_snapshot t gpio m =
    if expired t m.next_us
    then record m {
      next_us = u32 (t + pins_snapshot_us);
      out = m.out ++ pins_line t (gpio 27) (gpio 26) (u8 (re_bits gpio 7 0 (level gpio 28))) ∷ [];
    }
    else m

-- The loop of monitor_drain, on the number of events that it may take.
unfoldable pub drain_ring : ℕ → Monitor → Monitor
drain_ring zero m = m
drain_ring (suc n) m = elim (ev_pop m.ring) [
  | none ↦ m
  | some (e, g) ↦ drain_ring n (record m { ring = g; out = m.out ++ event_line e ∷ [] })
]

unfoldable pub monitor_drain : ℕ → Pins → Monitor → Monitor
monitor_drain t gpio m = if m.trace_on then pins_snapshot t gpio (drain_ring ev_ring_len m) else m

abbrev PopKept : Option (Event × EvRing) → EvRing → Type 0
PopKept none g = Unit
PopKept (some (e, h)) g = IsRing h × (h.wr ≡ g.wr)

ev_pop-IsRing : (g : EvRing) → IsRing g → PopKept (ev_pop g) g
unfolding ev_pop read_from
ev_pop-IsRing g r =
    if_intro (λ o. PopKept o g) (g.rd == g.wr) (λ p. tt)
      (λ p. (record { wr_fits = r.wr_fits; rd_fits = omega arith }, refl))

-- What the loop prints, and what it leaves.
abbrev Drained : Monitor → Monitor → Type 0
Drained m t =
    (t.out ≡ m.out ++ map event_line (pending m.ring))
    × (pending t.ring ≡ [])
    × (t.ring.wr ≡ m.ring.wr)
    × (t.next_us ≡ m.next_us)
    × IsRing t.ring

nil_of_length : {A : Type 0} (xs : List A) → length xs ≤ 0 → xs ≡ []
nil_of_length [] h = refl
nil_of_length (x ∷ xs) h = absurd (omega (arith, h))

abbrev after : ℕ → Monitor → Option (Event × EvRing) → Monitor
after n m none = m
after n m (some (e, g)) = drain_ring n (record m { ring = g; out = m.out ++ event_line e ∷ [] })

abbrev Works : ℕ → Type 0
Works n = (m : Monitor) → IsRing m.ring → length (pending m.ring) ≤ n → Drained m (drain_ring n m)

nothing_left : (m : Monitor) → IsRing m.ring → pending m.ring ≡ [] → Drained m m
nothing_left m r e =
    (sym (append-nil m.out) ∙ ap (λ es. m.out ++ map event_line es) (sym e), e, refl, refl, r)

drain_one :
    (n : ℕ) (m : Monitor) (o : Option (Event × EvRing))
    → Works n
    → IsRing m.ring
    → length (pending m.ring) ≤ suc n
    → popped o ≡ pending m.ring
    → PopKept o m.ring
    → Drained m (after n m o)
drain_one n m none works r h e k = nothing_left m r (sym e)
drain_one n m (some (x, g)) works r h e (ring, wr) =
    let (out, empty, same, next, last) =
      works (record m { ring = g; out = m.out ++ event_line x ∷ [] }) ring
        (omega (arith, h, ap length e)) in
    (
      out
          ∙ append_assoc m.out (event_line x ∷ []) (map event_line (pending g))
          ∙ ap (λ es. m.out ++ map event_line es) e,
      empty,
      same ∙ wr,
      next,
      last,
    )

drain_lem : (n : ℕ) → Works n
unfolding drain_ring
drain_lem zero m r h = nothing_left m r (nil_of_length (pending m.ring) h)
drain_lem (suc n) m r h =
    drain_one n m (ev_pop m.ring) (drain_lem n) r h (pending-ev_pop m.ring r)
      (ev_pop-IsRing m.ring r)

pending_bound : (g : EvRing) → length (pending g) ≤ ev_ring_len
pending_bound g =
    ground (arith, length-window (entry g) (g.wr + 4294967296 - backlog g) (backlog g))

-- The pins that the capture samples, GP16 to GP28, as one word.
abbrev pub window_word : Pins → ℕ → ℕ → ℕ
window_word gpio zero i = 0
window_word gpio (suc n) i = level gpio (16 + i) * 2 ^ i + window_word gpio n (i + 1)

level-lt : (gpio : Pins) (i : ℕ) → level gpio i < 2
level-lt gpio i = ground arith

byte_of :
    (low junk top : ℕ)
    → low < 128
    → junk < 32
    → top < 2
    → re_byte (low + 128 * junk + 4096 * top) ≡ u8 (top + low * 2)
unfolding re_byte
byte_of low junk top p q r = omega (arith, p, q, r)

-- The byte of the snapshot is the byte that the capture makes of the same levels.
snapshot-re_byte :
    (gpio : Pins) → u8 (re_bits gpio 7 0 (level gpio 28)) ≡ re_byte (window_word gpio 13 0)
unfolding re_byte
snapshot-re_byte gpio =
    let b = level gpio in
    let low = b 16 + b 17 * 2 + b 18 * 4 + b 19 * 8 + b 20 * 16 + b 21 * 32 + b 22 * 64 in
    let junk = b 23 + b 24 * 2 + b 25 * 4 + b 26 * 8 + b 27 * 16 in
    let fits : (low < 128) × (junk < 32) = omega (
      arith,
      level-lt gpio 16,
      level-lt gpio 17,
      level-lt gpio 18,
      level-lt gpio 19,
      level-lt gpio 20,
      level-lt gpio 21,
      level-lt gpio 22,
      level-lt gpio 23,
      level-lt gpio 24,
      level-lt gpio 25,
      level-lt gpio 26,
      level-lt gpio 27,
    ) in
    ap u8 {x = re_bits gpio 7 0 (b 28)} {y = b 28 + low * 2} (omega arith)
    ∙ sym (byte_of low junk (b 28) fits.0 fits.1 (level-lt gpio 28))
    ∙ ap re_byte {x = low + 128 * junk + 4096 * b 28} {y = window_word gpio 13 0} (omega arith)

abbrev snapshot_lines : ℕ → Pins → ℕ → List Line
snapshot_lines t gpio next_us =
    if expired t next_us
    then pins_line t (gpio 27) (gpio 26) (re_byte (window_word gpio 13 0)) ∷ []
    else []

abbrev Snapped : ℕ → Pins → Monitor → Monitor → Type 0
Snapped t gpio m u =
    (u.out ≡ m.out ++ snapshot_lines t gpio m.next_us)
    × (u.ring ≡ m.ring)
    × (u.next_us ≡ (if expired t m.next_us then u32 (t + pins_snapshot_us) else m.next_us))

snapshot_lem : (t : ℕ) (gpio : Pins) (m : Monitor) → Snapped t gpio m (pins_snapshot t gpio m)
unfolding pins_snapshot
snapshot_lem t gpio m =
    let shown : ℕ → Monitor = λ re. record m {
      next_us = u32 (t + pins_snapshot_us);
      out = m.out ++ pins_line t (gpio 27) (gpio 26) re ∷ [];
    } in
    subst (λ (re : ℕ). Snapped t gpio m (if expired t m.next_us then shown re else m))
      (sym (snapshot-re_byte gpio)) (ground (arith, append-nil m.out))

abbrev Traced : ℕ → Pins → Monitor → Monitor → Type 0
Traced t gpio m u =
    (u.out
      ≡ m.out
        ++ (if m.trace_on
            then map event_line (pending m.ring) ++ snapshot_lines t gpio m.next_us
            else []))
    × (pending u.ring ≡ (if m.trace_on then [] else pending m.ring))
    × (u.ring.wr ≡ m.ring.wr)
    × (u.next_us
        ≡ (if m.trace_on && expired t m.next_us then u32 (t + pins_snapshot_us) else m.next_us))

at_trace :
    (t : ℕ) (gpio : Pins) (b : Bool) (m : Monitor)
    → IsRing m.ring
    → Traced t gpio (record m { trace_on = b }) (monitor_drain t gpio (record m { trace_on = b }))
unfolding monitor_drain
at_trace t gpio false m r = (sym (append-nil m.out), refl, refl, refl)
at_trace t gpio true m r =
    let n = record m { trace_on = true } in
    let d = drain_ring ev_ring_len n in
    let (out, empty, wr, next, ring) = drain_lem ev_ring_len n r (pending_bound m.ring) in
    let (more, same, then_us) = snapshot_lem t gpio d in
    (
      more
          ∙ ap₂ (λ xs us. xs ++ snapshot_lines t gpio us) out next
          ∙ append_assoc m.out (map event_line (pending m.ring)) (snapshot_lines t gpio m.next_us),
      ap pending same ∙ empty,
      ap (λ (g : EvRing). g.wr) same ∙ wr,
      then_us ∙ ap (λ us. if expired t us then u32 (t + pins_snapshot_us) else us) next,
    )

-- With the trace on, monitor_drain prints all pending events, each once and the oldest first, and
-- leaves none; then, when half a second is over, the levels of the inputs, with the RE byte that the
-- capture would make of them. With the trace off it does nothing.
pub monitor_drain_lem :
    (t : ℕ) (gpio : Pins) (m : Monitor)
    → IsRing m.ring
    → let u = monitor_drain t gpio m in
      (u.out
        ≡ m.out
          ++ (if m.trace_on
              then map event_line (pending m.ring) ++ snapshot_lines t gpio m.next_us
              else []))
      × (pending u.ring ≡ (if m.trace_on then [] else pending m.ring))
      × (u.ring.wr ≡ m.ring.wr)
      × (u.next_us
          ≡ (if m.trace_on && expired t m.next_us then u32 (t + pins_snapshot_us) else m.next_us))
unfolding monitor_drain
monitor_drain_lem t gpio m r = at_trace t gpio m.trace_on m r
