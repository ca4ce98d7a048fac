-- ===== src/Wire/Fields.antt =====
-- The fields of the words of the wire and the queue.
use rpi_pico_card_reader.Prelude.{ℕ, ◌^◌, ◌<◌, ◌≡◌, arith}
use rpi_pico_card_reader.Wire.{ipc_word, ipc_op, ipc_arg, ipc_val}

-- The op word of the queue carries its operation, its argument and its value unchanged.
pub ipc_word_fields :
    (op arg val : ℕ)
    → op < 256
    → arg < 256
    → val < 65536
    → (ipc_op (ipc_word op arg val) ≡ op)
      × (ipc_arg (ipc_word op arg val) ≡ arg)
      × (ipc_val (ipc_word op arg val) ≡ val)
      × (ipc_word op arg val < 2 ^ 32)
unfolding ipc_word ipc_op ipc_arg ipc_val
ipc_word_fields op arg val p q r = omega arith
