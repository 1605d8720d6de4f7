-- ===== src/Zebus/Publish.antt =====
-- The message handlers of esphome/components/zebus/zebus.h on the answers to what `update` asks.
use mathlib.Core.List.{append-nil}
use esphome.Prelude.{
  ℕ, zero, suc, ◌+◌, ◌*◌, ◌<◌, ◌≡◌, refl, ap, ◌∙◌, true, false, ltb, if◌then◌else◌, List, [], ◌∷◌,
  ◌++◌, arith,
}
use esphome.Telegram.{end_completed, same_state}
use esphome.Telegram.Received.{Telegram, get_response_nn}
use esphome.Ebus.Response.{answering}
use esphome.Item.{Floats, get_response_bytes as item_response_bytes, response_bytes_from}
use esphome.Item.Decode.{get_response_bytes-little_endian, little_endian}
use esphome.Telegram.Sent.{request_frame}
use esphome.Component.{Queues}
use esphome.Zebus.Telegram.{get_response_byte, get_pb, get_sb, get_nn, get_request_byte}
use esphome.Zebus.Messages.{
  get_response_bytes, response_bytes_loop, published, water_pressure, disp_room_temp,
  water_pressure_received, disp_room_temp_received, status_received, to_float, reads_config,
  command_of_telegram, bytes_to_word, device_config_water_pressure, device_config_disp_room_temp,
}
use esphome.Zebus.Component.{
  Zebus, setup, setup_driver, add_message_handler, call_handlers, handle_telegram,
}

-- The loop is that of the later component's items.
same_loop :
    (t : Telegram) (start left i result : ℕ)
    → response_bytes_loop t start left i result ≡ response_bytes_from t start left i result
unfolding response_bytes_loop response_bytes_from get_response_byte
    esphome.Telegram.Received.get_response_byte
same_loop t start zero i result = refl
same_loop t start (suc left) i result = same_loop t start left (i + 1) _

same_get_response_bytes :
    (t : Telegram) (start count : ℕ)
    → get_response_bytes t start count ≡ item_response_bytes t start count
unfolding get_response_bytes item_response_bytes
same_get_response_bytes t start count = same_loop t start (if ltb count 4 then count else 4) 0 0

-- A completed telegram that reads an element of a configuration, with two bytes of response.
abbrev pub config_answer : ℕ → ℕ → List ℕ → ℕ → ℕ → ℕ → Telegram
config_answer qq zz element lo hi crc =
    answering end_completed (request_frame qq zz 0xB5 0x09 (0x0D ∷ element)) 0
      (2 ∷ lo ∷ hi ∷ crc ∷ []) crc

response_of :
    (qq zz : ℕ) (element : List ℕ) (lo hi crc : ℕ)
    → lo < 256
    → hi < 256
    → crc < 256
    → get_response_bytes (config_answer qq zz element lo hi crc) 0 2 ≡ lo + 256 * hi
unfolding little_endian get_response_nn
response_of qq zz element lo hi crc l h c =
    same_get_response_bytes (config_answer qq zz element lo hi crc) 0 2
    ∙ get_response_bytes-little_endian (config_answer qq zz element lo hi crc) 0 2
        (record { sized = refl; bytes = ground arith; crc_byte = c }) (omega arith)
    ∙ omega arith

-- The elements of the configuration that are asked for.
abbrev pressure_element : List ℕ
pressure_element = 0x02 ∷ 0x00 ∷ []

abbrev temperature_element : List ℕ
temperature_element = 0x3E ∷ 0x00 ∷ []

-- The two handlers, from what they ask for and what they read.
module _ (f : Floats) (t : Telegram) where
  pressure_published :
      (value : ℕ)
      → reads_config device_config_water_pressure t ≡ true
      → get_response_bytes t 0 2 ≡ value
      → water_pressure_received f t
        ≡ published water_pressure (f.divide (f.of_uint32 value) (f.of_uint32 1000)) ∷ []
  unfolding water_pressure_received to_float
  pressure_published value asked e =
      rw (asked)
        (ap (λ n. published water_pressure (f.divide (f.of_uint32 n) (f.of_uint32 1000)) ∷ []) e)

  pressure_silent :
      reads_config device_config_water_pressure t ≡ false → water_pressure_received f t ≡ []
  unfolding water_pressure_received
  pressure_silent other = rw (other)

  temperature_published :
      (value : ℕ)
      → reads_config device_config_disp_room_temp t ≡ true
      → get_response_bytes t 0 2 ≡ value
      → disp_room_temp_received f t
        ≡ published disp_room_temp (f.divide (f.of_uint32 value) (f.of_uint32 16)) ∷ []
  unfolding disp_room_temp_received to_float
  temperature_published value asked e =
      rw (asked)
        (ap (λ n. published disp_room_temp (f.divide (f.of_uint32 n) (f.of_uint32 16)) ∷ []) e)

  temperature_silent :
      reads_config device_config_disp_room_temp t ≡ false → disp_room_temp_received f t ≡ []
  unfolding disp_room_temp_received
  temperature_silent other = rw (other)

module _ (f : Floats) (qq zz lo hi crc : ℕ) where
  pressure_asked :
      (reads_config device_config_water_pressure (config_answer qq zz pressure_element lo hi crc)
        ≡ true)
      × (reads_config device_config_disp_room_temp (config_answer qq zz pressure_element lo hi crc)
          ≡ false)
      × (status_received f (config_answer qq zz pressure_element lo hi crc) ≡ [])
  unfolding reads_config status_received command_of_telegram bytes_to_word get_pb get_sb
      get_request_byte get_nn
  pressure_asked = (refl, refl, refl)

  temperature_asked :
      (reads_config device_config_water_pressure (config_answer qq zz temperature_element lo hi crc)
        ≡ false)
      × (reads_config device_config_disp_room_temp
            (config_answer qq zz temperature_element lo hi crc)
          ≡ true)
      × (status_received f (config_answer qq zz temperature_element lo hi crc) ≡ [])
  unfolding reads_config status_received command_of_telegram bytes_to_word get_pb get_sb
      get_request_byte get_nn
  temperature_asked = (refl, refl, refl)

-- The handlers that `setup` adds, on a completed telegram.
all_handlers :
    (f : Floats) (q : Queues) (z : Zebus f q) (t : Telegram)
    → z.message_handlers ≡ []
    → t.state ≡ end_completed
    → handle_telegram f q (setup f q z) t
      ≡ water_pressure_received f t ++ (disp_room_temp_received f t ++ status_received f t)
unfolding handle_telegram call_handlers setup setup_driver add_message_handler
all_handlers f q z t none' s =
    let completed : same_state t.state end_completed ≡ true = ground (arith, s) in
    rw (completed, none')
      (ap (λ r. water_pressure_received f t ++ (disp_room_temp_received f t ++ r))
        (append-nil (status_received f t)))

-- After `setup` with no other handlers, the answer to the question for the water pressure is published as
-- the pressure, a thousandth of its two bytes, the low one first, and the answer to that for the room
-- temperature as the temperature, a sixteenth, and nothing else is published of either. The answers
-- are completed telegrams with two data bytes, from any participants.
pub handle_telegram-published :
    (f : Floats) (q : Queues) (z : Zebus f q) (qq zz lo hi crc : ℕ)
    → z.message_handlers ≡ []
    → lo < 256
    → hi < 256
    → crc < 256
    → (handle_telegram f q (setup f q z) (config_answer qq zz (0x02 ∷ 0x00 ∷ []) lo hi crc)
        ≡ published water_pressure (f.divide (f.of_uint32 (lo + 256 * hi)) (f.of_uint32 1000)) ∷ [])
      × (handle_telegram f q (setup f q z) (config_answer qq zz (0x3E ∷ 0x00 ∷ []) lo hi crc)
          ≡ published disp_room_temp (f.divide (f.of_uint32 (lo + 256 * hi)) (f.of_uint32 16)) ∷ [])
handle_telegram-published f q z qq zz lo hi crc none' l h c =
    let pressure = config_answer qq zz pressure_element lo hi crc in
    let temperature = config_answer qq zz temperature_element lo hi crc in
    let asked = pressure_asked f qq zz lo hi crc in
    let asked' = temperature_asked f qq zz lo hi crc in
    (
      rw
          (
            all_handlers f q z pressure none' refl,
            pressure_published f pressure (lo + 256 * hi) asked.0
                (response_of qq zz pressure_element lo hi crc l h c),
            temperature_silent f pressure asked.1,
            asked.2,
          )
          refl,
      rw
          (
            all_handlers f q z temperature none' refl,
            temperature_published f temperature (lo + 256 * hi) asked'.1
                (response_of qq zz temperature_element lo hi crc l h c),
            pressure_silent f temperature asked'.0,
            asked'.2,
          )
          refl,
    )
