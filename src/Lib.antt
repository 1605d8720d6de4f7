-- ===== src/Lib.antt =====
-- The eBUS driver for ESPHome: the component esphome/components/ebus, and the earlier one in
-- esphome/components/zebus.
--
-- Bytes from the bus go to `Ebus::process_received_char`, one at a time. It undoes escapes, follows
-- the telegram that is on the bus, advances the command that waits to be sent, and answers requests
-- to its own secondary address. Telegrams that have ended go through a queue to the items, which
-- publish what they read in them; the items' commands come back through another queue.
--
-- - Elf.antt: the class Elf of ebus.cpp (CRC, addresses). Elf/Crc and Elf/Address: its laws.
-- - Telegram.antt, Telegram/Received, Telegram/Command: telegram.h and telegram.cpp (TelegramBase,
--   Telegram, SendCommand). Telegram/Bounds: the buffers' sizes. Telegram/Frame and Telegram/Sent:
--   requests as sequences of bytes.
-- - Ebus.antt: the class Ebus of ebus.h and ebus.cpp, its members and senders. Ebus/Receive: the
--   first switch of process_received_char. Ebus/Active: the second. Ebus/Process: the whole.
--   Ebus/Receiver, Ebus/Safety, Ebus/Invariant, Ebus/Diagram: laws of the reception of a byte.
--   Ebus/Queueing, Ebus/Fetching: what is handed to the queue and taken from it. Ebus/Replies:
--   answers to requests. Ebus/Arbitration, Ebus/Attempts, Ebus/Runs, Ebus/Retries, Ebus/Lock:
--   when a command is started, and how often. Ebus/Wire, Ebus/Reception, Ebus/Sending: whole
--   requests on the wire. Ebus/Response, Ebus/Heard: whole responses. Ebus/Phases, Ebus/Switched,
--   Ebus/Steps, Ebus/Sends, Ebus/Reaching, Ebus/Completion: a command from its start to its
--   acknowledgement. Ebus/Losses,
--   Ebus/Failure: a command that loses every arbitration. Ebus/Bus: two drivers on one wire.
--   Ebus/Says, Ebus/Ranks, Ebus/Settled, Ebus/Hearing, Ebus/Stretch, Ebus/Answered, Ebus/Opening,
--   Ebus/Asking, Ebus/Replying, Ebus/Closing, Ebus/Conversation: what they say to each other.
-- - Item.antt: EbusItem of ebus_component.h and ebus_component.cpp, with the subclasses in sensor/,
--   binary_sensor/ and number/. Item/Match: is_mine. Item/Decode: get_response_bytes.
-- - Component.antt: EbusComponent. Component/Fifo: its queues. Component/Delivery: the
--   rounds of its two tasks, in any order. Component/Polling: update. Component/Traffic,
--   Component/Overrun, Component/Conveys: the way of its commands, up to the write behind the
--   variable for one. Component/Hardware: setup with
--   the UART, the queues and the tasks. Component/Start: what setup leaves. Component/Log: log
--   lines.
-- - Zebus/Types, Zebus/Elf, Zebus/Telegram, Zebus/SendCommand, Zebus/Driver, Zebus/Receive,
--   Zebus/Active, Zebus/Process: include/ebus.cpp, include/telegram.cpp and their headers in
--   esphome/components/zebus, on the data types of the later driver. Zebus/Messages,
--   Zebus/Component, Zebus/Hardware: zebus.h. Zebus/Same, Zebus/SameSteps, Zebus/SameReplies,
--   Zebus/Agreement, Zebus/Runs: both drivers side by side. Zebus/Safety, Zebus/SafePushes,
--   Zebus/Stored, Zebus/Kept, Zebus/Invariant, Zebus/Setup: its buffers. Zebus/Escapes,
--   Zebus/Stuffing, Zebus/Pieces, Zebus/Stuffed: escaped requests. Zebus/Commands: its commands.
--   Zebus/Identify: its answer to an identification request. Zebus/Publish: what it publishes.
-- - Tests: runs, and each theorem at a concrete input.
--
-- Arrays are lists of bytes, and a write outside an array is `none`. A `uint8_t` is a number with
-- its wrap-around written out. The members of an object are a record; an operation returns the
-- new record. Callbacks that act on the outside are effects in a list, in the order of the calls;
-- what the callback for the next command answers is an argument. Response handlers are functions
-- of the telegram. Loops run over lists or over the rounds left, so that no fuel is needed. Only
-- the wire between two drivers, in Ebus/Bus, counts down the bytes that it may still carry: 78
-- are enough for the longest request and reply, all of whose bytes are escaped.
--
-- The queues of FreeRTOS hold items of a fixed number of bytes, and `xQueueReceive` writes all of them
-- to where it is told. Both components create the queue of commands with the size of a `Telegram`, 46
-- bytes, but take a command into a `SendCommand` of 27: that is a write outside a variable, `none` in
-- `take_command` and `take_dequeued`. So theorems about rounds of the tasks hold up to the first
-- command that is taken. Those about a driver alone are about what it does with a command that its
-- callback has answered. That the sender reads behind the command is not modelled.
--
-- The earlier driver's response handlers write into a buffer: they take it and return it. The read of
-- an array outside its bounds is `none` there as well.
--
-- Not modelled: how ESPHome formats log lines, that FreeRTOS may fail to create a queue or a task
-- (the code does not ask), that one task may interrupt another within a round, and the
-- configuration schema in Python. Floats, the queues of FreeRTOS and what the UART driver's calls
-- return are parameters; IsFifo states what the queues do, where a theorem needs it.
mod Prelude
pub mod Elf
pub mod Telegram
pub mod Ebus
mod Tests
pub mod Item
pub mod Component
pub mod Zebus
