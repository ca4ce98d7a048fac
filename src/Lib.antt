-- ===== src/Lib.antt =====
-- The firmware of a card reader emulator: a microcontroller stands in for the card reader of a
-- GE-100 computer, and presents decks of punched cards from its memory.
--
-- Parts. A capture file (.cap) is parsed into a deck image (src/deck.c, include/deckimg.h), put in
-- feed order (src/surgery.c) or synthesized from a binary (src/bin2deck.c). The image is armed
-- through a queue of op words (include/ipc.h); the feeder on core1 (src/feeder.c) answers the read
-- commands of the machine, transcodes the columns (src/transcode.c), hands presentation words to
-- the wire engine (pio/presenter.pio) and writes an event ring that core0 reads (src/monitor.c). The
-- files stand on a FAT volume (src/fat_ro.c) in the flash, which the host fills over USB
-- (src/usb_composite.c, src/storage.c). A command shell and a button (src/console.c) load and arm
-- decks and set the parameters, which are kept in a flash sector (src/config.c).
--
-- Files.
--   Prelude          Boolean tests, lists, machine words, arrays as functions of the index
--   Transcode        transcode_column of src/transcode.c, and the encoders of src/bin2deck.c
--   Deck             struct deck_img; Deck/View reads an image as the list of its cards,
--                    Deck/Layout is its well-formedness, Deck/Append its growth, Deck/Loader
--                    deck_find_loader_card
--   Cap              the .cap parser of src/deck.c; Cap/Spec is the specification, a function of
--                    the whole text, and Cap/Refine the refinement
--   Wire             presenter_word, the command byte of src/wire_rx.c, the op words
--   Pio              the programs of pio/presenter.pio and pio/re_capture.pio and the instructions
--                    they use; Presenter, Drain and Waveform are about the first, Capture about the
--                    second, Card joins the presenter with the feeder
--   WireRx           the interrupts of src/wire_rx.c; Commands joins them with the capture
--   WireTx           src/wire_tx.c over the calls of the SDK; Documented is what these do
--   Monitor          the event ring of include/events.h, and src/monitor.c (Drain is the trace)
--   Feeder           src/feeder.c: Types (state), Present (presentation), Commands (interrupt
--                    handlers and poll), Mailbox (feeder_on_ipc), Run (sessions); the other
--                    children hold proofs
--   System           the two cores: src/ipc.c, and the loops of src/core1_main.c and src/main.c; Params
--                    follows the parameters from the console to the feeder
--   Bin2deck         src/bin2deck.c
--   Surgery          src/surgery.c
--   Deckload         src/deckload.c and the batch table of src/surgery.c, over FatReader, an interface
--                    for the FAT reader
--   Fat              src/fat_ro.c: Volume (boot sector), Chain (clusters), Directory (root
--                    directory), File (fat_open, fat_read). Entry, Content, Block and Read relate them
--                    to the bytes of the volume, Listing and Search to each other; Reader
--                    makes a volume a FatReader and Load loads from it; Device is the storage
--                    as the block device
--   Storage          src/storage.c: View is what the host sees, Sector, Blocks and Region hold the proofs
--   Config           src/config.c: the layout of struct cfg, cfg_load and cfg_save
--   Usb              the drive callbacks of src/usb_composite.c; Descriptors is the string descriptors
--                    of src/usb_descriptors.c
--   Button           src/button.c
--   Console          src/console.c: Text (C library), State, Arm, Param (set, go), Shell
--                    (execute, console_poll); Agreed and Position join set and go with the
--                    feeder, Restart the button with the configuration; Printf is con_printf;
--                    the others hold proofs
--
-- Correspondence. A function of the source is the definition of its name; a helper that the source
-- does not name is a part of the function, and its comment says which. The feeder's state is the
-- struct `fd`, the fields of g_feeder_status that it writes, the pins, and the list of the calls
-- that reached the wire engine. Machine integers are natural numbers with the casts of the source
-- written out (u8, u16, u32). A session is a list of inputs, each handled whole: that a handler
-- preempts another one in the middle is not modelled. A flash operation is a Boolean, which says
-- whether it is carried out, or fails and changes nothing; the clock is an argument. What the shell
-- reads of the other core in one call is the record Env. Its replies are constructors without their
-- wording.
--
-- The two cores. An event of System is one step of one core: a character of the console, a press of
-- the button, one word into the queue or out of it, one handler of the feeder. Any list of events is
-- an interleaving. A console that has a word to send waits until it is in the queue. The loop of
-- core0 also serves USB, the trace and the flash, which do not touch what the theorems there are about.
--
-- The state machines of the PIO make one step for a tick of 100 ns. Their instructions have the
-- meaning of the data sheet; the calls of the SDK on them (put, clear, restart, exec) are an argument
-- of WireTx, with their documented effect as hypotheses.
--
-- Fuel. `prefill` takes the room of the FIFO, at the start of its loop; the presenter draws no
-- word during the loop. `feed_rounds` takes a round for each byte; a round takes at least one. The loops over a
-- file take a round more than what is left of it, and a round that goes on leaves less. The rounds of
-- fat_read are the bytes that are wanted, since each reads at least one, and its search for the
-- cluster takes a round more than the position, since each step moves the cursor by a cluster. The
-- loop of the trace takes as many rounds as the ring has entries.
--
-- Not modelled: the set-up of the hardware, the other USB descriptors and the calls of TinyUSB, the start of
-- the cores, and the wording of what is printed (the text of status and help, the names of the
-- events).
pub mod Prelude
pub mod Transcode
pub mod Deck
pub mod Cap
pub mod Wire
pub mod Monitor
pub mod Feeder
pub mod Bin2deck
pub mod Surgery
pub mod Deckload
pub mod Button
pub mod Config
pub mod Console
pub mod Fat
pub mod Pio
pub mod Storage
pub mod System
pub mod Usb
pub mod WireRx
pub mod WireTx
