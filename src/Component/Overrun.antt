-- ===== src/Component/Overrun.antt =====
-- Where `process_received_bytes` of esphome/components/ebus/ebus_component.cpp writes behind the variable
-- for a command.
use esphome.Prelude.{
  ℕ, ◌<◌, ◌≡◌, ◌≢◌, refl, ap, sym, subst, ◌∙◌, ◌⊎◌, ◌↔◌, inl, inr, true, ltb, List, [], ◌∷◌, Option,
  Option-cases, Bool-cases, some, none, arith,
}
use esphome.Telegram.{is_finished}
use esphome.Telegram.Received.{sizeof_telegram}
use esphome.Telegram.Command.{SendCommand, sizeof_send_command}
use esphome.Ebus.{Ebus, Effect}
use esphome.Ebus.Process.{
  process_received_char, unescape, Unescaped, escape_begins, invalid_sequence, real_byte,
}
use esphome.Ebus.Safety.{IsReceiving}
use esphome.Ebus.Invariant.{process_received_char-Processes}
use esphome.Ebus.Fetching.{dequeues, fetches, fetches_at, process_received_char-dequeues}
use esphome.Item.{Floats}
use esphome.Component.{Queues, EbusComponent, receive_byte, next_command}
use esphome.Component.Hardware.{setup_queues}
use esphome.Component.Fifo.{IsFifo, perform-none, perform-Appends}

List-cases : {A : Type 0} (xs : List A) → (xs ≡ []) ⊎ ((x : A) × (rest : List A) × (xs ≡ x ∷ rest))
List-cases [] = inl refl
List-cases (x ∷ rest) = inr (x, rest, refl)

module _ (f : Floats) (q : Queues) where
  open q use {receive}

  module _ (fifo : IsFifo q) where
    open fifo use {contents, room}

    -- The driver asks for a command at the byte, and one is queued.
    pub record Fetches (byte : ℕ) (c : EbusComponent f q) : Type 0 where
      pub real : ℕ
      pub says : unescape c.ebus.in_esc byte ≡ real_byte real
      pub done : is_finished c.ebus.active_command.base ≡ true
      pub queued : contents c.command_queue ≢ []

    -- A round with a byte at which no command is fetched.
    pub record ReadsByte (byte : ℕ) (c : EbusComponent f q) : Type 0 where
      pub next : EbusComponent f q
      pub sent : List ℕ
      pub returns : receive_byte f q byte c ≡ some (next, sent)
      pub same_commands : next.command_queue ≡ c.command_queue
      pub same_items : next.items ≡ c.items
      pub valid : IsReceiving next.ebus.receiving_telegram

    -- The queue of commands has items of the size with which `setup_queues_` creates it.
    abbrev pub IsAsCreated : EbusComponent f q → Type 0
    IsAsCreated c = q.item_size c.command_queue ≡ q.item_size (setup_queues f q c).command_queue

    -- That is the size of a telegram.
    abbrev pub HasLongItems : EbusComponent f q → Type 0
    HasLongItems c = q.item_size c.command_queue ≡ sizeof_telegram

    pub IsAsCreated-long : (c : EbusComponent f q) → IsAsCreated c → HasLongItems c
    unfolding setup_queues
    IsAsCreated-long c h = h ∙ fifo.has_size c.command_queue_size sizeof_telegram

    too_long :
        (c : EbusComponent f q)
        → HasLongItems c
        → ltb sizeof_send_command (q.item_size c.command_queue) ≡ true
    too_long c h = rw (h) refl

    asks-cases :
        (u : Unescaped) (e : Ebus)
        → (fetches_at u e ≡ 0)
          ⊎ ((fetches_at u e ≡ 1)
              × ((real : ℕ) × (u ≡ real_byte real))
              × (is_finished e.active_command.base ≡ true))
    unfolding fetches_at fetches
    asks-cases escape_begins e = inl refl
    asks-cases invalid_sequence e = inl refl
    asks-cases (real_byte real) e = elim (Bool-cases (is_finished e.active_command.base)) [
      | inl done ↦ inr (rw (done) refl, (real, refl), done)
      | inr busy ↦ inl (rw (busy) refl)
    ]

    asked :
        (c : EbusComponent f q) → (answer : Option SendCommand) × (next_command f q c ≡ some answer)
    unfolding next_command
    asked c = elim (Option-cases (receive c.command_queue)) [
      | inl e ↦ (none, rw (e, next_command) refl)
      | inr (taken, e) ↦ (some taken.0, rw (e, next_command) refl)
    ]

    effects-asks :
        (byte : ℕ) (c : EbusComponent f q) (next : Ebus) (effects : List Effect)
        → process_received_char (next_command f q c) byte c.ebus ≡ some (next, effects)
        → dequeues effects ≡ fetches_at (unescape c.ebus.in_esc byte) c.ebus
    effects-asks byte c next effects returns =
        let (answer, is) = asked c in
        process_received_char-dequeues answer byte c.ebus next effects
          (ap (λ d. process_received_char d byte c.ebus) (sym is) ∙ returns)

    -- A byte at which no command is fetched, whether the driver asks for one or not.
    quiet_byte :
        (byte : ℕ) (c : EbusComponent f q) (next : Ebus) (effects : List Effect)
        → process_received_char (next_command f q c) byte c.ebus ≡ some (next, effects)
        → IsReceiving next.receiving_telegram
        → (dequeues effects ≡ 0) ⊎ (receive c.command_queue ≡ none)
        → ReadsByte byte c
    quiet_byte byte c next effects returns v idle =
        let a = perform-Appends f q fifo effects (record c { ebus = next }) idle in
        record {
          next = a.next;
          sent = a.sent;
          returns = unfold receive_byte in rw (returns) (a.returns);
          same_commands = a.same_commands;
          same_items = a.same_items;
          valid = subst (λ e. IsReceiving e.receiving_telegram) (sym a.same_ebus) v;
        }

    fetching_byte :
        (byte : ℕ) (c : EbusComponent f q) (next : Ebus) (effects : List Effect)
        (command : SendCommand) (rest : List SendCommand)
        → process_received_char (next_command f q c) byte c.ebus ≡ some (next, effects)
        → HasLongItems c
        → dequeues effects ≢ 0
        → contents c.command_queue ≡ command ∷ rest
        → receive_byte f q byte c ≡ none
    fetching_byte byte c next effects command rest returns long asks is =
        let (shorter, got, holds, more) = fifo.receives command rest c.command_queue is in
        let lost =
          perform-none f q effects (record c { ebus = next }) asks (command, shorter) got
            (too_long c long) in
        unfold receive_byte in rw (returns) lost

    -- A byte overruns the variable for a command exactly if the driver fetches one at it.
    pub receive_byte-cases :
        (byte : ℕ) (c : EbusComponent f q)
        → byte < 256
        → IsReceiving c.ebus.receiving_telegram
        → HasLongItems c
        → ReadsByte byte c ⊎ (Fetches byte c × (receive_byte f q byte c ≡ none))
    receive_byte-cases byte c h v long =
        let p = process_received_char-Processes (next_command f q c) byte c.ebus h v in
        let asks = effects-asks byte c p.next p.effects p.returns in
        elim (asks-cases (unescape c.ebus.in_esc byte) c.ebus) [
          | inl quiet ↦
              inl (quiet_byte byte c p.next p.effects p.returns p.valid (inl (asks ∙ quiet)))
          | inr (one, (real, says), done) ↦ elim (List-cases (contents c.command_queue)) [
            | inl empty ↦ inl (
                quiet_byte byte c p.next p.effects p.returns p.valid
                  (inr (fifo.receives_none c.command_queue empty)))
            | inr (command, rest, is) ↦ inr (
              record { real = real; says = says; done = done; queued = λ empty. cc (empty, is) },
              fetching_byte byte c p.next p.effects command rest p.returns long
                  (λ never. absurd (omega (arith, never, asks, one))) is,
            )
          ]
        ]

    fetches_at-real :
        (real : ℕ) (u : Unescaped) (e : Ebus)
        → u ≡ real_byte real
        → is_finished e.active_command.base ≡ true
        → fetches_at u e ≡ 1
    unfolding fetches_at fetches
    fetches_at-real real u e says done = rw (says, done) refl

    fetch-none :
        (byte : ℕ) (c : EbusComponent f q)
        → byte < 256
        → IsReceiving c.ebus.receiving_telegram
        → HasLongItems c
        → Fetches byte c
        → receive_byte f q byte c ≡ none
    fetch-none byte c h v long fetch =
        let p = process_received_char-Processes (next_command f q c) byte c.ebus h v in
        let asks = effects-asks byte c p.next p.effects p.returns in
        let one =
          fetches_at-real fetch.real (unescape c.ebus.in_esc byte) c.ebus fetch.says fetch.done in
        elim (List-cases (contents c.command_queue)) [
          | inl empty ↦ absurd (fetch.queued empty)
          | inr (command, rest, is) ↦
              fetching_byte byte c p.next p.effects command rest p.returns long
                (λ never. absurd (omega (arith, never, asks, one))) is
        ]

    -- Where the items of the command queue have the size with which `setup_queues_` creates it, a byte
    -- makes `process_received_bytes` write outside a variable exactly if the driver fetches a
    -- command at it: the byte says one that is not part of an escape yet, the active command is
    -- finished, and a command is queued. The queue is one that keeps the order, and the telegram that
    -- is received is proper.
    pub receive_byte-overruns_iff :
        (byte : ℕ) (c : EbusComponent f q)
        → byte < 256
        → IsReceiving c.ebus.receiving_telegram
        → IsAsCreated c
        → (receive_byte f q byte c ≡ none) ↔ Fetches byte c
    receive_byte-overruns_iff byte c h v created = (
      λ lost. elim (receive_byte-cases byte c h v (IsAsCreated-long c created)) [
        | inl r ↦ cc (r.returns, lost)
        | inr overrun ↦ overrun.0
      ],
      fetch-none byte c h v (IsAsCreated-long c created),
    )
