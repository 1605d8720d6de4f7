-- ===== src/Component/Fifo.antt =====
-- What the class `EbusComponent` of esphome/components/ebus/ebus_component.cpp relies on in the queues
-- of FreeRTOS, and its callbacks under that.
use mathlib.Core.List.{append_assoc, append-nil}
use esphome.Prelude.{
  ℕ, suc, ◌+◌, ◌≤◌, ◌<◌, ◌≡◌, ◌≢◌, refl, ap, sym, subst, ◌∙◌, ◌⊎◌, inl, inr, true, ltb, List, [],
  ◌∷◌, ◌++◌, length, Option, some, none, arith,
}
use esphome.Telegram.Received.{Telegram}
use esphome.Telegram.Command.{SendCommand, sizeof_send_command}
use esphome.Ebus.{Effect, uart_send, queue_received_telegram, dequeue_command}
use esphome.Ebus.Queueing.{queued}
use esphome.Ebus.Fetching.{dequeues}
use esphome.Item.{Floats}
use esphome.Component.{Queues, EbusComponent, perform, take_command}

-- A queue holds elements in order, and has room for some more; a new one is empty, with room for its
-- size, and with items of the size that is asked for. While there is room, an element is added at its
-- end, and otherwise it is refused; while there is an element, the first is taken. The size of the
-- items stays.
pub record IsFifo (q : Queues) : Type 1 where
  pub contents : {A : Type 0} → q.Queue A → List A
  pub room : {A : Type 0} → q.Queue A → ℕ
  pub creates : {A : Type 0} (size item_size : ℕ) → contents {A = A} (q.create size item_size) ≡ []
  pub has_room : {A : Type 0} (size item_size : ℕ) → room {A = A} (q.create size item_size) ≡ size
  pub has_size :
      {A : Type 0} (size item_size : ℕ) → q.item_size {A = A} (q.create size item_size) ≡ item_size
  pub sends :
      {A : Type 0} (x : A) (queue : q.Queue A)
      → 0 < room queue
      → (longer : q.Queue A) × (q.send_to_back x queue ≡ some longer)
        × (contents longer ≡ contents queue ++ x ∷ [])
        × (suc (room longer) ≡ room queue)
        × (q.item_size longer ≡ q.item_size queue)
  pub refuses :
      {A : Type 0} (x : A) (queue : q.Queue A) → room queue ≡ 0 → q.send_to_back x queue ≡ none
  pub receives_none :
      {A : Type 0} (queue : q.Queue A) → contents queue ≡ [] → q.receive queue ≡ none
  pub receives :
      {A : Type 0} (x : A) (xs : List A) (queue : q.Queue A)
      → contents queue ≡ x ∷ xs
      → (shorter : q.Queue A) × (q.receive queue ≡ some (x, shorter))
        × (contents shorter ≡ xs)
        × (room shorter ≡ suc (room queue))

module _ (f : Floats) (q : Queues) where
  take_command-none :
      (queue : q.Queue SendCommand) (taken : SendCommand × q.Queue SendCommand)
      → q.receive queue ≡ some taken
      → ltb sizeof_send_command (q.item_size queue) ≡ true
      → take_command f q queue ≡ none
  unfolding take_command
  take_command-none queue taken e large = rw (e, take_command, large) refl

  take_command-empty :
      (queue : q.Queue SendCommand) → q.receive queue ≡ none → take_command f q queue ≡ some queue
  unfolding take_command
  take_command-empty queue e = rw (e, take_command) refl

  -- A command that is taken is written behind the local variable if the queue's items are too long.
  pub perform-none :
      (effects : List Effect) (c : EbusComponent f q)
      → dequeues effects ≢ 0
      → (taken : SendCommand × q.Queue SendCommand) → q.receive c.command_queue ≡ some taken
      → ltb sizeof_send_command (q.item_size c.command_queue) ≡ true
      → perform f q effects c ≡ none
  unfolding perform dequeues
  perform-none [] c asks taken e large = absurd (asks refl)
  perform-none (uart_send bytes ∷ rest) c asks taken e large =
      rw (perform-none rest c asks taken e large) refl
  perform-none (queue_received_telegram t ∷ rest) c asks taken e large =
      perform-none rest _ asks taken e large
  perform-none (dequeue_command ∷ rest) c asks taken e large =
      rw (take_command-none c.command_queue taken e large) refl

  module _ (fifo : IsFifo q) where
    open fifo use {contents, room}

    -- The callbacks append telegrams to the history queue, if that has room, and leave the rest of the
    -- class alone.
    pub record Appends (telegrams : List Telegram) (c : EbusComponent f q)
        (result : Option (EbusComponent f q × List ℕ)) : Type 0 where
      pub next : EbusComponent f q
      pub sent : List ℕ
      pub returns : result ≡ some (next, sent)
      pub history :
          length telegrams ≤ room c.history_queue
          → (contents next.history_queue ≡ contents c.history_queue ++ telegrams)
            × (room next.history_queue + length telegrams ≡ room c.history_queue)
      pub same_commands : next.command_queue ≡ c.command_queue
      pub same_items : next.items ≡ c.items
      pub same_ebus : next.ebus ≡ c.ebus
      pub same_address : next.primary_address ≡ c.primary_address

    -- They return if no command is asked for, or none is in the queue.
    pub perform-Appends :
        (effects : List Effect) (c : EbusComponent f q)
        → (dequeues effects ≡ 0) ⊎ (q.receive c.command_queue ≡ none)
        → Appends (queued effects) c (perform f q effects c)
    unfolding perform queued dequeues
    perform-Appends [] c idle = record {
      next = c;
      sent = [];
      returns = refl;
      history = λ h. (sym (append-nil (contents c.history_queue)), omega arith);
      same_commands = refl;
      same_items = refl;
      same_ebus = refl;
      same_address = refl;
    }
    perform-Appends (uart_send bytes ∷ rest) c idle =
        let r = perform-Appends rest c idle in
        record {
          next = r.next;
          sent = bytes ++ r.sent;
          returns = rw (r.returns) refl;
          history = r.history;
          same_commands = r.same_commands;
          same_items = r.same_items;
          same_ebus = r.same_ebus;
          same_address = r.same_address;
        }
    perform-Appends (dequeue_command ∷ rest) c (inl never) = absurd (omega (arith, never))
    perform-Appends (dequeue_command ∷ rest) c (inr empty) =
        let r = perform-Appends rest c (inr empty) in
        record {
          next = r.next;
          sent = r.sent;
          returns = rw (take_command-empty c.command_queue empty) (r.returns);
          history = r.history;
          same_commands = r.same_commands;
          same_items = r.same_items;
          same_ebus = r.same_ebus;
          same_address = r.same_address;
        }
    perform-Appends (queue_received_telegram t ∷ rest) c idle =
        let stored : q.Queue Telegram = elim (q.send_to_back t c.history_queue) [
          | none ↦ c.history_queue
          | some longer ↦ longer
        ] in
        let r = perform-Appends rest (record c { history_queue = stored }) idle in
        record {
          next = r.next;
          sent = r.sent;
          returns = r.returns;
          history = λ h. added stored r.next.history_queue refl h r.history;
          same_commands = r.same_commands;
          same_items = r.same_items;
          same_ebus = r.same_ebus;
          same_address = r.same_address;
        }
      where
        added :
            (stored last : q.Queue Telegram)
            → (elim (q.send_to_back t c.history_queue) [
              | none ↦ c.history_queue
              | some longer ↦ longer
            ])
              ≡ stored
            → suc (length (queued rest)) ≤ room c.history_queue
            → (length (queued rest) ≤ room stored
                → (contents last ≡ contents stored ++ queued rest)
                  × (room last + length (queued rest) ≡ room stored))
            → (contents last ≡ contents c.history_queue ++ t ∷ queued rest)
              × (room last + suc (length (queued rest)) ≡ room c.history_queue)
        added stored last is h later =
            let (longer, sent, holds, less, same) =
              fifo.sends t c.history_queue (omega (arith, h)) in
            let long : longer ≡ stored =
              ap (λ r. elim r [ none ↦ c.history_queue | some longer ↦ longer ]) (sym sent) ∙ is in
            let behind =
              later (
                subst (λ queue. length (queued rest) ≤ room queue) long (omega (arith, h, less))) in
            (
              behind.0
                  ∙ ap (λ queue. contents queue ++ queued rest) (sym long)
                  ∙ ap (λ ts. ts ++ queued rest) holds
                  ∙ append_assoc (contents c.history_queue) (t ∷ []) (queued rest),
              omega (arith, behind.1, less, ap room long),
            )
