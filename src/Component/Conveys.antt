-- ===== src/Component/Conveys.antt =====
-- The commands of `update` in esphome/components/ebus/ebus_component.cpp on their way to the driver.
use mathlib.Core.List.{append_assoc, append-nil}
use esphome.Prelude.{
  ℕ, ◌<◌, ◌≡◌, ◌==◌, refl, ap, sym, subst, ◌∙◌, ◌⊎◌, inl, inr, if◌then◌else◌, List, [], ◌∷◌, ◌++◌,
  map, Option, some, none, ◌>>=◌, arith, All,
}
use esphome.Telegram.{syn}
use esphome.Telegram.Command.{SendCommand}
use esphome.Ebus.Safety.{IsReceiving}
use esphome.Item.{Floats, item_of}
use esphome.Component.{Queues, EbusComponent}
use esphome.Component.Fifo.{IsFifo}
use esphome.Component.Polling.{IsShort, polled, poll_of, update-polled}
use esphome.Component.Traffic.{
  CommandRound, byte_round, poll_round, send_round, IsCommandRound, Traffic, send_pending,
  run_commands,
}
use esphome.Component.Overrun.{
  Fetches, HasLongItems, IsAsCreated, IsAsCreated-long, receive_byte-cases,
}

module _ (f : Floats) (q : Queues) (fifo : IsFifo q) where
  open fifo use {contents, room}

  -- An attempt to send keeps the commands in order.
  record Waits (pending : List SendCommand) (c : EbusComponent f q)
      (result : List SendCommand × EbusComponent f q) : Type 0 where
    in_order : contents result.1.command_queue ++ result.0 ≡ contents c.command_queue ++ pending
    same_size : q.item_size result.1.command_queue ≡ q.item_size c.command_queue
    same_items : result.1.items ≡ c.items
    same_ebus : result.1.ebus ≡ c.ebus

  send_pending-Waits :
      (pending : List SendCommand) (c : EbusComponent f q)
      → Waits pending c (send_pending f q pending c)
  unfolding send_pending
  send_pending-Waits [] c = record {
    in_order = refl;
    same_size = refl;
    same_items = refl;
    same_ebus = refl;
  }
  send_pending-Waits (command ∷ rest) c = elim (room-cases (room c.command_queue)) [
    | inl full ↦
        rw (fifo.refuses command c.command_queue full, send_pending)
          (record { in_order = refl; same_size = refl; same_items = refl; same_ebus = refl })
    | inr free ↦
        let (longer, sent, holds, less, same) = fifo.sends command c.command_queue free in
        rw (sent, send_pending)
          (record {
            in_order =
                ap (λ commands. commands ++ rest) holds
                ∙ append_assoc (contents c.command_queue) (command ∷ []) rest;
            same_size = same;
            same_items = refl;
            same_ebus = refl;
          })
  ]
    where
      room-cases : (n : ℕ) → (n ≡ 0) ⊎ (0 < n)
      room-cases n = ground arith

  -- The rounds return, and no command is lost or leaves its place.
  pub record Keeps (rounds : List CommandRound) (pending : List SendCommand) (c : EbusComponent f q)
      : Type 0 where
    pub traffic : Traffic f q
    pub returns : run_commands f q rounds pending c ≡ some traffic
    pub in_order :
        contents traffic.component.command_queue ++ traffic.pending
        ≡ contents c.command_queue ++ (pending ++ traffic.prepared)

  -- They do so up to the first byte at which the driver fetches a command, and end there.
  pub record Overruns (rounds : List CommandRound) (pending : List SendCommand)
      (c : EbusComponent f q) : Type 0 where
    pub before : List CommandRound
    pub byte : ℕ
    pub behind : List CommandRound
    pub split : rounds ≡ before ++ byte_round byte ∷ behind
    pub kept : Keeps before pending c
    pub fetches : Fetches f q fifo byte kept.traffic.component
    pub ends : run_commands f q rounds pending c ≡ none

  abbrev Result : List CommandRound → List SendCommand → EbusComponent f q → Type 0
  Result rounds pending c = Keeps rounds pending c ⊎ Overruns rounds pending c

  module _ (round : CommandRound) (rest : List CommandRound)
      (pending left prepared : List SendCommand) (c next : EbusComponent f q)
      (steps : (rounds : List CommandRound)
        → run_commands f q (round ∷ rounds) pending c ≡ (
            run_commands f q rounds left next >>= λ later.
            some (record later { prepared = prepared ++ later.prepared })))
      (same : contents next.command_queue ++ left
        ≡ contents c.command_queue ++ (pending ++ prepared)) where
    round_kept :
        (rounds : List CommandRound) → Keeps rounds left next → Keeps (round ∷ rounds) pending c
    round_kept rounds k = record {
      traffic = record k.traffic { prepared = prepared ++ k.traffic.prepared };
      returns = steps rounds ∙ rw (k.returns) refl;
      in_order =
          k.in_order
          ∙ sym (append_assoc (contents next.command_queue) left k.traffic.prepared)
          ∙ ap (λ commands. commands ++ k.traffic.prepared) same
          ∙ append_assoc (contents c.command_queue) (pending ++ prepared) k.traffic.prepared
          ∙ ap (◌++◌ (contents c.command_queue)) (append_assoc pending prepared k.traffic.prepared);
    }

    -- A round, then the rest.
    round_then : Result rest left next → Result (round ∷ rest) pending c
    unfolding round_kept
    round_then (inl k) = inl (round_kept rest k)
    round_then (inr o) = inr (record {
      before = round ∷ o.before;
      byte = o.byte;
      behind = o.behind;
      split = ap (◌∷◌ round) o.split;
      kept = round_kept o.before o.kept;
      fetches = o.fetches;
      ends = steps rest ∙ rw (o.ends) refl;
    })

  unprepared :
      (m : Option (Traffic f q))
      → m ≡ (m >>= λ later. some (record later { prepared = [] ++ later.prepared }))
  unprepared none = refl
  unprepared (some later) = refl

  -- Until the first command is fetched, the rounds keep all of them in order.
  kept_rounds :
      (rounds : List CommandRound) (pending : List SendCommand) (c : EbusComponent f q)
      → All IsCommandRound rounds
      → All IsShort (map (item_of f) c.items)
      → IsReceiving c.ebus.receiving_telegram
      → HasLongItems f q fifo c
      → Keeps rounds pending c ⊎ Overruns rounds pending c
  unfolding run_commands
  kept_rounds [] pending c all short v long = inl (record {
    traffic = record { component = c; pending = pending; prepared = [] };
    returns = refl;
    in_order = ap (◌++◌ (contents c.command_queue)) (sym (append-nil pending));
  })
  kept_rounds (byte_round byte ∷ rest) pending c all short v long =
      elim (receive_byte-cases f q fifo byte c all.0 v long) [
        | inl r ↦
            round_then (byte_round byte) rest pending pending [] c r.next
              (λ rounds. rw (r.returns) (unprepared (run_commands f q rounds pending r.next)))
              (ap (λ queue. contents queue ++ pending) r.same_commands
                ∙ ap (◌++◌ (contents c.command_queue)) (sym (append-nil pending)))
              (kept_rounds rest pending r.next all.1
                (subst (λ items. All IsShort (map (item_of f) items)) (sym r.same_items) short)
                r.valid (ap (λ queue. q.item_size queue) r.same_commands ∙ long))
        | inr (fetches, lost) ↦ inr (record {
          before = [];
          byte = byte;
          behind = rest;
          split = refl;
          kept = record {
            traffic = record { component = c; pending = pending; prepared = [] };
            returns = refl;
            in_order = ap (◌++◌ (contents c.command_queue)) (sym (append-nil pending));
          };
          fetches = fetches;
          ends = rw (lost) refl;
        })
      ]
  kept_rounds (poll_round ∷ rest) [] c all short v long =
      let commands =
        if c.primary_address == syn
        then []
        else map (poll_of c.primary_address) (polled (map (item_of f) c.items)) in
      round_then poll_round rest [] commands commands c c
        (λ rounds. rw (update-polled f q c short) refl) refl
        (kept_rounds rest commands c all.1 short v long)
  kept_rounds (poll_round ∷ rest) (command ∷ pending) c all short v long =
      round_then poll_round rest (command ∷ pending) (command ∷ pending) [] c c
        (λ rounds. unprepared (run_commands f q rounds (command ∷ pending) c))
        (ap (◌++◌ (contents c.command_queue)) (sym (append-nil (command ∷ pending))))
        (kept_rounds rest (command ∷ pending) c all.1 short v long)
  kept_rounds (send_round ∷ rest) pending c all short v long =
      let w = send_pending-Waits pending c in
      let left = (send_pending f q pending c).0 in
      let next = (send_pending f q pending c).1 in
      round_then send_round rest pending left [] c next
        (λ rounds. unprepared (run_commands f q rounds left next))
        (w.in_order ∙ ap (◌++◌ (contents c.command_queue)) (sym (append-nil pending)))
        (kept_rounds rest left next all.1
          (subst (λ items. All IsShort (map (item_of f) items)) (sym w.same_items) short)
          (subst (λ e. IsReceiving e.receiving_telegram) (sym w.same_ebus) v) (w.same_size ∙ long))

  -- Whatever the order of the rounds, the commands that `update` prepares are kept in order until the
  -- driver fetches the first one: those in the queue and those that `update` still waits to put there
  -- are those that were in the queue or waited before, and then the prepared ones; so none is lost
  -- when the queue is full. Either all rounds return so, or they do up to the first byte at which the
  -- driver fetches a command, and there it writes outside the variable for it. The queue is one that
  -- keeps the order, with items of the size with which `setup_queues_` creates it; no payload
  -- of an item is longer than 15 bytes, and the telegram that is received is proper.
  pub run_commands-kept :
      (rounds : List CommandRound) (pending : List SendCommand) (c : EbusComponent f q)
      → All IsCommandRound rounds
      → All IsShort (map (item_of f) c.items)
      → IsReceiving c.ebus.receiving_telegram
      → IsAsCreated f q fifo c
      → Keeps rounds pending c ⊎ Overruns rounds pending c
  run_commands-kept rounds pending c all short v created =
      kept_rounds rounds pending c all short v (IsAsCreated-long f q fifo c created)
