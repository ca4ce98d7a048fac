-- ===== src/Monitor/Queue.antt =====
-- The event ring read as the queue of the events that are pending.
use rpi_pico_card_reader.Prelude.{
  ℕ, zero, suc, ◌+◌, ◌-◌, ◌%◌, ◌≤◌, ◌<◌, ◌≡◌, refl, sym, ap, ap₂, ◌∙◌, List, [], ◌∷◌, ◌++◌, Option,
  none, some, true, false, Bool-cases, inl, inr, if◌then◌else◌, if_intro, ltb, ◌==◌, u32, sub32,
  store_self, store-ne, window, window_ext, window-append, drop, length, length-append,
  length-window, arith,
}
use rpi_pico_card_reader.Monitor.{
  EvKind, Event, EvRing, ev_ring_len, new_event, ev_push, read_from, ev_pop,
}

-- How many events the reader has still to see.
abbrev pub backlog : EvRing → ℕ
backlog g = if ltb ev_ring_len (sub32 g.wr g.rd) then ev_ring_len else sub32 g.wr g.rd

-- The event that a counter points at.
abbrev pub entry : EvRing → ℕ → Event
entry g i = g.ev (i % ev_ring_len)

-- The last events written, as many as the reader has still to see.
abbrev pub pending : EvRing → List Event
pending g = window (entry g) (g.wr + 4294967296 - backlog g) (backlog g)

-- An event and the events that are pending after it, from the result of a pop.
abbrev pub popped : Option (Event × EvRing) → List Event
popped none = []
popped (some (e, g)) = e ∷ pending g

-- The last 1024 events of a list.
abbrev pub last_events : List Event → List Event
last_events es = drop (length es - ev_ring_len) es

pub record IsRing (g : EvRing) : Type 0 where
  pub wr_fits : g.wr < 4294967296
  pub rd_fits : g.rd < 4294967296

-- Counters that agree modulo the ring's length point at the same events.
window_mod :
    (g : EvRing) (i j n : ℕ)
    → i % ev_ring_len ≡ j % ev_ring_len
    → window (entry g) i n ≡ window (entry g) j n
window_mod g i j zero h = refl
window_mod g i j (suc n) h =
    ap₂ (λ x xs. x ∷ xs) (ap g.ev h) (window_mod g (i + 1) (j + 1) n (omega arith))

full_again : ev_ring_len ≡ 1023 + 1
full_again = omega arith

-- An element put behind a full window pushes the first one out.
drop-window :
    (f : ℕ → Event) (i n m : ℕ) (e : Event)
    → n ≡ suc m
    → drop (length (window f i n ++ e ∷ []) - n) (window f i n ++ e ∷ [])
      ≡ window f (i + 1) m ++ e ∷ []
drop-window f i n m e h =
    ap (λ k. drop k (window f i n ++ e ∷ [])) {x = length (window f i n ++ e ∷ []) - n} {y = 1}
      (omega (arith, length-append (window f i n) (e ∷ []), length-window f i n))
    ∙ ap (λ k. drop 1 (window f i k ++ e ∷ [])) h

module _ (now : ℕ) (kind : EvKind) (arg : ℕ) (g : EvRing) (r : IsRing g) where
  abbrev e : Event
  e = new_event now kind arg g

  abbrev g' : EvRing
  g' = ev_push now kind arg g

  -- The last k events and the new one.
  window-push :
      (k : ℕ)
      → k < ev_ring_len
      → window (entry g') (g.wr + 4294967296 - k) (k + 1)
        ≡ window (entry g) (g.wr + 4294967296 - k) k ++ e ∷ []
  unfolding ev_push
  window-push k h =
      window-append (entry g') (g.wr + 4294967296 - k) k 1
      ∙ ap₂ (λ xs x. xs ++ x ∷ [])
          (window_ext (entry g') (entry g) (g.wr + 4294967296 - k) k
            (λ j p q. store-ne g.ev (g.wr % ev_ring_len) e (omega arith)))
          (ap g'.ev {x = (g.wr + 4294967296 - k + k) % ev_ring_len} {y = g.wr % ev_ring_len}
              (omega arith)
            ∙ store_self g.ev (g.wr % ev_ring_len) e)

  backlog-push :
      sub32 g.wr g.rd < 4294967295
      → backlog g' ≡ (if ltb (backlog g) ev_ring_len then backlog g + 1 else ev_ring_len)
  unfolding ev_push
  backlog-push h = ground (arith, r.wr_fits, r.rd_fits)

  pending-at :
      (n : ℕ)
      → backlog g' ≡ n
      → n ≤ ev_ring_len
      → pending g' ≡ window (entry g') (g.wr + 1 + 4294967296 - n) n
  unfolding ev_push
  pending-at n h k =
      ap (λ b. window (entry g') (u32 (g.wr + 1) + 4294967296 - b) b) h
      ∙ window_mod g' (u32 (g.wr + 1) + 4294967296 - n) (g.wr + 1 + 4294967296 - n) n (omega arith)

  push_room :
      (h : sub32 g.wr g.rd < 4294967295)
      → ltb (backlog g) ev_ring_len ≡ true
      → pending g' ≡ last_events (pending g ++ e ∷ [])
  push_room h p =
      let c = backlog g in
      pending-at (c + 1) (backlog-push h ∙ ap (λ b. if b then c + 1 else ev_ring_len) p)
        (ground arith)
      ∙ ap (λ i. window (entry g') i (c + 1)) {x = g.wr + 1 + 4294967296 - (c + 1)}
          {y = g.wr + 4294967296 - c} (omega arith)
      ∙ window-push c (ground arith)
      ∙ ap (λ n. drop n (pending g ++ e ∷ [])) {x = 0}
          {y = length (pending g ++ e ∷ []) - ev_ring_len}
          (ground (
            arith,
            length-append (pending g) (e ∷ []),
            length-window (entry g) (g.wr + 4294967296 - c) c,
          ))

  push_full :
      (h : sub32 g.wr g.rd < 4294967295)
      → ltb (backlog g) ev_ring_len ≡ false
      → pending g' ≡ last_events (pending g ++ e ∷ [])
  push_full h p =
      let c = backlog g in
      let f = entry g in
      pending-at ev_ring_len (backlog-push h ∙ ap (λ b. if b then c + 1 else ev_ring_len) p)
        (omega arith)
      ∙ ap₂ (λ i n. window (entry g') i n) {x = g.wr + 1 + 4294967296 - 1024}
          {y = g.wr + 4294967296 - 1023} (omega arith) full_again
      ∙ window-push 1023 (omega arith)
      ∙ ap (λ i. window f i 1023 ++ e ∷ []) {x = g.wr + 4294967296 - 1023}
          {y = g.wr + 4294967296 - c + 1} (ground arith)
      ∙ sym (drop-window f (g.wr + 4294967296 - c) c 1023 e (ground arith))
      ∙ ap (λ n. drop (length (pending g ++ e ∷ []) - n) (pending g ++ e ∷ [])) {x = c}
          {y = ev_ring_len} (ground arith)

-- A push puts the new event at the end of what is pending, and of more than 1024 events drops the
-- oldest one; the reader is not 2 ^ 32 - 1 events behind.
pub pending-ev_push :
    (now : ℕ) (kind : EvKind) (arg : ℕ) (g : EvRing)
    → IsRing g
    → sub32 g.wr g.rd < 4294967295
    → pending (ev_push now kind arg g) ≡ last_events (pending g ++ new_event now kind arg g ∷ [])
pending-ev_push now kind arg g r h = elim (Bool-cases (ltb (backlog g) ev_ring_len)) [
  | inl p ↦ push_room now kind arg g r h p
  | inr p ↦ push_full now kind arg g r h p
]

pending-next :
    (g : EvRing)
    → IsRing g
    → (g.rd == g.wr) ≡ false
    → g.ev (read_from g % ev_ring_len) ∷ pending (record g { rd = u32 (read_from g + 1) })
      ≡ pending g
unfolding read_from
pending-next g r p =
    let c = backlog g in
    let c' = backlog (record g { rd = u32 (read_from g + 1) }) in
    let one_less : c ≡ suc c' = ground (arith, r.wr_fits, r.rd_fits) in
    let small : c ≤ ev_ring_len = ground arith in
    ap₂ (λ x xs. x ∷ xs)
      (ap g.ev {x = read_from g % ev_ring_len} {y = (g.wr + 4294967296 - c) % ev_ring_len}
        (ground (arith, r.wr_fits, r.rd_fits)))
      (ap (λ i. window (entry g) i c') {x = g.wr + 4294967296 - c'} {y = g.wr + 4294967296 - c + 1}
        (omega (arith, one_less, small)))
    ∙ ap (λ n. window (entry g) (g.wr + 4294967296 - c) n) (sym one_less)

-- A pop takes the oldest pending event and leaves the others; with none pending it gives none.
pub pending-ev_pop : (g : EvRing) → IsRing g → popped (ev_pop g) ≡ pending g
unfolding ev_pop read_from
pending-ev_pop g r =
    if_intro (λ o. popped o ≡ pending g) (g.rd == g.wr)
      (λ p.
        ap (λ b. window (entry g) (g.wr + 4294967296 - b) b) {x = 0} {y = backlog g} (ground arith))
      (λ p. pending-next g r p)
