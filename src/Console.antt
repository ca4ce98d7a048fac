-- ===== src/Console.antt =====
-- src/console.c: the command shell on the USB serial port. The text that con_printf writes is a list
-- of replies, the words of ipc_send a list of numbers, both in their order. What the shell reads of
-- the other core and of the hardware in one call is the record Env.
pub mod Text
pub mod State
pub mod Arm
pub mod Param
pub mod Shell
pub mod Armed
pub mod Agreed
pub mod Carried
pub mod Effects
pub mod Position
pub mod Outcome
pub mod Restart
pub mod Editor
pub mod Line
pub mod Printf
mod Tests
