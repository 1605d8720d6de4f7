-- ===== src/Tests.antt =====
-- Runs of the model on concrete inputs, and each theorem at an input that meets its hypotheses.
mod Bus
mod Items
mod Frames
mod Driver
mod Rounds
mod Conversation
mod Zebus
