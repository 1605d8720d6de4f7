-- ===== src/Zebus.antt =====
-- The earlier driver, esphome/components/zebus. Its enumerations `TelegramState`, `TelegramType` and
-- `EbusState`, its constants and the members of `TelegramBase`, `Telegram` and `SendCommand` are those
-- of esphome/components/ebus, and are the same types here; its functions are translated anew.
pub mod Types
pub mod Elf
pub mod Telegram
pub mod SendCommand
pub mod Driver
pub mod Receive
pub mod Active
pub mod Process
pub mod Messages
pub mod Component
pub mod Hardware
pub mod Same
pub mod Safety
pub mod SafePushes
pub mod Stored
pub mod Invariant
pub mod Kept
pub mod Escapes
pub mod Commands
pub mod Stuffing
pub mod Stuffed
pub mod Pieces
pub mod Setup
pub mod Identify
pub mod Publish
pub mod SameSteps
pub mod SameReplies
pub mod Agreement
pub mod Runs
