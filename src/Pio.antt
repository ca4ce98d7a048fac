-- ===== src/Pio.antt =====
-- The two programs of the PIO, pio/presenter.pio and pio/re_capture.pio, and the instructions that they
-- use. A state machine executes one instruction in a tick, and then waits for its delay; an
-- instruction that stalls drives its side-set pin and is tried again in the next tick. A register has
-- 32 bits.
pub mod Presenter
pub mod Drain
pub mod Waveform
pub mod Capture
pub mod Card
mod Tests
use rpi_pico_card_reader.Prelude.{
  ℕ, ◌+◌, ◌-◌, ◌*◌, ◌/◌, ◌%◌, ◌^◌, List, [], ◌∷◌, ◌++◌, Bool, true, false, not, ◌||◌, ◌&&◌,
  if◌then◌else◌, ltb, ◌==◌, get_or, length, u32,
}

-- The operands of `jmp` are the addresses of the labels.
pub data Op : Type 0 where
  pull_block push_block : Op
  out_pins out_x out_y in_pins jmp_x_dec jmp_y_dec : ℕ → Op
  wait_gpio : Bool → Op

-- An instruction with its side-set value and its delay.
pub record Instr : Type 0 where
  pub op : Op
  pub side_set : Bool
  pub after : ℕ

-- A state machine: `pins` are the pins that `out` drives, `side` the one of the side-set, `tx` and
-- `rx` the FIFOs.
pub record Sm : Type 0 where
  pub pc : ℕ
  pub delay : ℕ
  pub x : ℕ
  pub y : ℕ
  pub osr : ℕ
  pub isr : ℕ
  pub pins : ℕ
  pub side : Bool
  pub tx : List ℕ
  pub rx : List ℕ

-- A machine whose registers, pins and FIFOs are clear.
abbrev pub cleared : Sm
cleared = record {
  pc = 0;
  delay = 0;
  x = 0;
  y = 0;
  osr = 0;
  isr = 0;
  pins = 0;
  side = false;
  tx = [];
  rx = [];
}

abbrev pub fifo_depth : ℕ
fifo_depth = 4

-- The levels that a tick sees: the pin of `wait`, and the pins of `in`.
pub record Levels : Type 0 where
  pub gpio : Bool
  pub window : ℕ

abbrev same : Bool → Bool → Bool
same a b = if a then b else not b

-- The next instruction, behind the delay.
abbrev advance : ℕ → Instr → Sm → Sm
advance next i m = record m { pc = next; delay = i.after }

-- An instruction, with the address of the one behind it.
unfoldable pub exec : Op → ℕ → Instr → Levels → Sm → Sm
exec pull_block next i l m = elim m.tx [
  | [] ↦ m
  | w ∷ ws ↦ advance next i (record m { osr = w; tx = ws })
]
exec push_block next i l m =
    if ltb (length m.rx) fifo_depth
    then advance next i (record m { rx = m.rx ++ m.isr ∷ []; isr = 0 })
    else m
exec (out_pins n) next i l m =
    advance next i (record m { pins = m.osr % 2 ^ n; osr = m.osr / 2 ^ n })
exec (out_x n) next i l m = advance next i (record m { x = m.osr % 2 ^ n; osr = m.osr / 2 ^ n })
exec (out_y n) next i l m = advance next i (record m { y = m.osr % 2 ^ n; osr = m.osr / 2 ^ n })
exec (in_pins n) next i l m =
    advance next i (record m { isr = u32 (m.isr * 2 ^ n + l.window % 2 ^ n) })
exec (jmp_x_dec to) next i l m =
    advance (if m.x == 0 then next else to) i (record m { x = u32 (m.x + 4294967295) })
exec (jmp_y_dec to) next i l m =
    advance (if m.y == 0 then next else to) i (record m { y = u32 (m.y + 4294967295) })
exec (wait_gpio level) next i l m = if same level l.gpio then advance next i m else m

abbrev pub nothing : Instr
nothing = record { op = pull_block; side_set = false; after = 0 }

-- One tick, with the wrap from the last instruction to the first one.
unfoldable pub tick : List Instr → Levels → Sm → Sm
unfolding exec
tick program l m =
    let i = get_or program m.pc nothing in
    if ltb 0 m.delay
    then record m { delay = m.delay - 1 }
    else exec i.op (if m.pc + 1 == length program then 0 else m.pc + 1) i l
        (record m { side = i.side_set })

-- The program presenter.
abbrev pub presenter : List Instr
presenter =
    record { op = pull_block; side_set = false; after = 0 }
    ∷ record { op = out_pins 9; side_set = false; after = 3 }
    ∷ record { op = out_x 8; side_set = false; after = 0 }
    ∷ record { op = jmp_x_dec 3; side_set = true; after = 0 }
    ∷ record { op = out_y 15; side_set = false; after = 0 }
    ∷ record { op = jmp_y_dec 5; side_set = false; after = 0 }
    ∷ []

-- The program re_capture; it has no side-set pin.
abbrev pub re_capture : List Instr
re_capture =
    record { op = wait_gpio true; side_set = false; after = 2 }
    ∷ record { op = in_pins 13; side_set = false; after = 0 }
    ∷ record { op = push_block; side_set = false; after = 0 }
    ∷ record { op = wait_gpio false; side_set = false; after = 0 }
    ∷ []
