-- ===== src/Feeder.antt =====
-- src/feeder.c: the reader-side protocol engine of core1. One record holds g_feeder_status, the
-- static `fd` and what the feeder drives: the status pins, LUPOB, the event ring and the calls of
-- wire_tx, oldest first. The deck pointer is the slot of g_deck. `now` is what time_us_32 reads.
-- Where a handler asks wire_tx_full, `room` is the number of times that it answers no.
pub mod Types
pub mod Present
pub mod Commands
pub mod Mailbox
pub mod Run
pub mod Ready
pub mod Cursor
pub mod Memory
pub mod Session
pub mod Words
pub mod Steps
pub mod Card
pub mod Kept
pub mod Params
mod Tests
