-- ===== src/Component/Polling.antt =====
-- `update` of the class `EbusComponent` of esphome/components/ebus/ebus_component.cpp.
use esphome.Prelude.{
  ℕ, ◌/◌, ◌^◌, ◌≤◌, ◌≡◌, ◌==◌, refl, bit_and, u8, if◌then◌else◌, List, [], ◌∷◌, map, length, some,
  none, arith, All,
}
use esphome.Elf.{crc8_array}
use esphome.Telegram.{wait_for_send, syn}
use esphome.Telegram.Command.{SendCommand}
use esphome.Telegram.Frame.{request_of}
use esphome.Telegram.Sent.{request_body, request_frame, send_command-frame}
use esphome.Item.{Floats, EbusItem, Item, item_of, prepare_command}
use esphome.Component.{Queues, EbusComponent, poll_all, update}

-- The items that are polled, in order.
unfoldable pub polled : List EbusItem → List EbusItem
polled [] = []
polled (item ∷ rest) = if item.send_poll then item ∷ polled rest else polled rest

-- The command of an item, as it lies in its buffer.
abbrev pub poll_of : ℕ → EbusItem → SendCommand
poll_of qq item =
    let hi = u8 (item.command / 2 ^ 8) in
    let lo = bit_and item.command 0xFF in
    record {
      base =
          request_of wait_for_send (request_frame qq item.address hi lo item.payload)
            (crc8_array (request_body qq item.address hi lo item.payload));
      tries_count = 0;
    }

-- The payload leaves room for the CRC, and its length is one that receivers read.
abbrev pub IsShort : EbusItem → Type 0
IsShort item = length item.payload ≤ 15

prepare_command-poll_of :
    (qq : ℕ) (item : EbusItem)
    → IsShort item
    → prepare_command qq item ≡ some (if item.send_poll then some (poll_of qq item) else none)
unfolding prepare_command
prepare_command-poll_of qq item short =
    rw (send_command-frame qq item.address item.command item.payload short) (ground arith)

module _ (f : Floats) (q : Queues) where
  poll_all-polled :
      (qq : ℕ) (items : List (Item f))
      → All IsShort (map (item_of f) items)
      → poll_all f q qq items ≡ some (map (poll_of qq) (polled (map (item_of f) items)))
  unfolding poll_all polled
  poll_all-polled qq [] short = refl
  poll_all-polled qq (item ∷ rest) short =
      rw (prepare_command-poll_of qq (item_of f item) short.0, poll_all-polled qq rest short.1)
        (ground arith)

  -- `update` has one command for the queue for each item that is polled, in the order of the items: its
  -- buffer holds the request with the own address, the item's address, command and payload, and the
  -- CRC. Without an own address it has none. No payload is longer than 15 bytes, so nothing is written
  -- outside a buffer.
  pub update-polled :
      (c : EbusComponent f q)
      → All IsShort (map (item_of f) c.items)
      → update f q c
        ≡ some (
            if c.primary_address == syn
            then []
            else map (poll_of c.primary_address) (polled (map (item_of f) c.items)))
  unfolding update
  update-polled c short = ground (arith, poll_all-polled c.primary_address c.items short)
