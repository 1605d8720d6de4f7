-- ===== src/Ebus/Stretch.antt =====
-- Two drivers of esphome/components/ebus/ebus.cpp on one wire, while a message goes by: both listen,
-- and answer at its end at most.
use mathlib.Core.List.{append-nil}
use esphome.Prelude.{
  ℕ, ◌+◌, ◌*◌, ◌≤◌, ◌<◌, length, ◌≡◌, inl, inr, refl, ap, ap₂, sym, subst, ◌∙◌, Bool, true, false,
  if◌then◌else◌, List, [], ◌∷◌, ◌++◌, Option-cases, some, arith, All, lt_int, pos,
}
use esphome.Telegram.{
  TelegramState, is_finished, state_value, wait_for_arbitration, wait_for_request_data,
  wait_for_request_ack, wait_for_response_data, wait_for_response_ack,
}
use esphome.Telegram.Received.{Telegram}
use esphome.Ebus.{Ebus}
use esphome.Ebus.Receiver.{receive_step}
use esphome.Ebus.Wire.{receive_bytes}
use esphome.Ebus.Ranks.{rank, progress, awaits, IsNoSyn, progress-lt}
use esphome.Ebus.Settled.{SameDriver, answer_to, answer_to-same, answer_to-none}
use esphome.Ebus.Bus.{Talk, Talks}
use esphome.Ebus.Hearing.{
  Hearing, IsGone, after_bytes, after_byte-IsGone, IsGone-IsSettled, hears, SameDriver-trans,
  none-some, Talks-heard_byte,
}

-- A message `line` goes by, with `more` behind it, and leaves the telegram `t'` with both.
pub record Stretch (line more : List ℕ) (t' : Telegram) (a b : Ebus) : Type 0 where
  pub first : Ebus
  pub second : Ebus
  pub first_hears : Hearing false t' first
  pub second_hears : Hearing false t' second
  pub same_first : SameDriver a first
  pub same_second : SameDriver b second
  pub first_command : first.active_command ≡ after_bytes line a.active_command
  pub second_command : second.active_command ≡ after_bytes line b.active_command
  pub goes_on :
      (talk : Talk)
      → Talks (more ++ (answer_to a t' ++ answer_to b t')) first second talk
      → Talks (line ++ more) a b (record talk { carried = line ++ talk.carried })

going_state : (s : TelegramState) → rank s ≤ 4 → lt_int (state_value s) (pos 0) ≡ false
going_state wait_for_arbitration h = refl
going_state wait_for_request_data h = refl
going_state wait_for_request_ack h = refl
going_state wait_for_response_data h = refl
going_state wait_for_response_ack h = refl
going_state _ h = absurd (omega (arith, h))

pub going : (t : Telegram) → rank t.state ≤ 4 → is_finished t.base ≡ false
unfolding is_finished
going t h = going_state t.state h

quiet_state :
    (e : Ebus) (in_esc : Bool) (t : Telegram)
    → (in_esc ≡ false → awaits t.state ≡ 0)
    → (if in_esc then [] else answer_to e t) ≡ []
quiet_state e true t h = refl
quiet_state e false t h =
    answer_to-none e t (λ s. absurd (omega (arith, h refl, ap awaits s)))
      (λ s. absurd (omega (arith, h refl, ap awaits s)))

calm_state :
    (in_esc : Bool) (s : TelegramState) (from final : ℕ)
    → in_esc ≡ false
    → from ≤ progress in_esc s
    → progress in_esc s + awaits s ≤ final
    → (from ≤ rank s * 2) × (rank s * 2 + awaits s ≤ final)
calm_state in_esc s from final closed low high = ground arith

-- The first of the bytes that are received.
first_step :
    (byte : ℕ) (rest : List ℕ) (in_esc : Bool) (t : Telegram) (final : Bool × Telegram)
    → receive_bytes (byte ∷ rest) in_esc t ≡ some final
    → (next : Bool × Telegram) × (receive_step in_esc t byte ≡ some next)
      × (receive_bytes rest next.0 next.1 ≡ some final)
first_step byte rest in_esc t final e = elim (Option-cases (receive_step in_esc t byte)) [
  | inl bad ↦ absurd (none-some (rw (bad) at e))
  | inr (next, ok) ↦ (next, ok, rw (ok) at e)
]

-- The state that a message of a telegram leads to, from a progress on.
pub record IsAhead (from : ℕ) (t' : Telegram) : Type 0 where
  pub on_the_way : rank t'.state ≤ 4
  pub quiet :
      (s : TelegramState)
      → from ≤ rank s * 2
      → rank s * 2 + awaits s ≤ rank t'.state * 2
      → awaits s ≡ 0

module _ (from : ℕ) (t' : Telegram) (ahead : IsAhead from t') (more : List ℕ) where
  last_byte :
      (byte : ℕ) (a b : Ebus) (in_esc : Bool) (t : Telegram)
      → Hearing in_esc t a
      → Hearing in_esc t b
      → IsGone a.active_command
      → IsGone b.active_command
      → IsNoSyn byte
      → rank t.state ≤ 4
      → receive_step in_esc t byte ≡ some (false, t')
      → Stretch (byte ∷ []) more t' a b
  last_byte byte a b in_esc t h_a h_b gone_a gone_b n way step =
      let ha =
        hears byte a in_esc t (false, t') h_a (IsGone-IsSettled byte a.active_command n gone_a)
          step in
      let hb =
        hears byte b in_esc t (false, t') h_b (IsGone-IsSettled byte b.active_command n gone_b)
          step in
      record {
        first = ha.next;
        second = hb.next;
        first_hears = ha.received;
        second_hears = hb.received;
        same_first = ha.same_driver;
        same_second = hb.same_driver;
        first_command = ha.command;
        second_command = hb.command;
        goes_on = λ talk rest.
            Talks-heard_byte more (answer_to a t') (answer_to b t') talk ha hb
              (ap (λ t. is_finished t.base) h_a.1 ∙ going t way)
              (ap (λ t. is_finished t.base) h_b.1 ∙ going t way) refl refl rest;
      }

  pub stretch :
      (byte : ℕ) (rest : List ℕ) (a b : Ebus) (in_esc : Bool) (t : Telegram)
      → Hearing in_esc t a
      → Hearing in_esc t b
      → IsGone a.active_command
      → IsGone b.active_command
      → All IsNoSyn (byte ∷ rest)
      → from ≤ progress in_esc t.state + awaits t.state
      → receive_bytes (byte ∷ rest) in_esc t ≡ some (false, t')
      → Stretch (byte ∷ rest) more t' a b
  stretch byte [] a b in_esc t h_a h_b gone_a gone_b all low e =
      let (next, step, same) = first_step byte [] in_esc t (false, t') e in
      last_byte byte a b in_esc t h_a h_b gone_a gone_b all.0
        (omega (arith, ahead.on_the_way, progress-lt byte [] in_esc false t t' all e)) (step ∙ same)
  stretch byte (x ∷ xs) a b in_esc t h_a h_b gone_a gone_b all low e =
      let (next, step, rest) = first_step byte (x ∷ xs) in_esc t (false, t') e in
      let way : rank t.state ≤ 4 =
        omega (arith, ahead.on_the_way, progress-lt byte (x ∷ xs) in_esc false t t' all e) in
      let further = progress-lt byte [] in_esc next.0 t next.1 (all.0, tt) (rw (step) refl) in
      let calm : next.0 ≡ false → awaits next.1.state ≡ 0 = λ closed.
        (let between =
            calm_state next.0 next.1.state from (rank t'.state * 2) closed
              (omega (arith, low, further))
              (omega (arith, progress-lt x xs next.0 false next.1 t' all.1 rest)) in
          ahead.quiet next.1.state between.0 between.1) in
      let ha =
        hears byte a in_esc t next h_a (IsGone-IsSettled byte a.active_command all.0 gone_a) step in
      let hb =
        hears byte b in_esc t next h_b (IsGone-IsSettled byte b.active_command all.0 gone_b) step in
      let later =
        stretch x xs ha.next hb.next next.0 next.1 ha.received hb.received
          (subst IsGone (sym ha.command) (after_byte-IsGone byte a.active_command gone_a))
          (subst IsGone (sym hb.command) (after_byte-IsGone byte b.active_command gone_b)) all.1
          (omega (arith, low, further)) rest in
      record {
        first = later.first;
        second = later.second;
        first_hears = later.first_hears;
        second_hears = later.second_hears;
        same_first = SameDriver-trans a ha.next later.first ha.same_driver later.same_first;
        same_second = SameDriver-trans b hb.next later.second hb.same_driver later.same_second;
        first_command = later.first_command ∙ ap (after_bytes (x ∷ xs)) ha.command;
        second_command = later.second_command ∙ ap (after_bytes (x ∷ xs)) hb.command;
        goes_on = λ talk said.
            Talks-heard_byte ((x ∷ xs) ++ more) [] []
              (record talk { carried = (x ∷ xs) ++ talk.carried }) ha hb
              (ap (λ t. is_finished t.base) h_a.1 ∙ going t way)
              (ap (λ t. is_finished t.base) h_b.1 ∙ going t way) (quiet_state a next.0 next.1 calm)
              (quiet_state b next.0 next.1 calm)
              (subst
                (λ line.
                  Talks line ha.next hb.next (record talk { carried = (x ∷ xs) ++ talk.carried }))
                (sym (append-nil ((x ∷ xs) ++ more)))
                (later.goes_on talk (
                  subst (λ bytes. Talks (more ++ bytes) later.first later.second talk)
                    (sym (
                      ap₂ (◌++◌) (answer_to-same a ha.next t' ha.same_driver)
                        (answer_to-same b hb.next t' hb.same_driver)))
                    said)));
      }

  -- A message that is not empty.
  pub stretch_all :
      (line : List ℕ) (a b : Ebus) (in_esc : Bool) (t : Telegram)
      → 0 < length line
      → Hearing in_esc t a
      → Hearing in_esc t b
      → IsGone a.active_command
      → IsGone b.active_command
      → All IsNoSyn line
      → from ≤ progress in_esc t.state + awaits t.state
      → receive_bytes line in_esc t ≡ some (false, t')
      → Stretch line more t' a b
  stretch_all [] a b in_esc t some_bytes = absurd (omega (arith, some_bytes))
  stretch_all (byte ∷ rest) a b in_esc t some_bytes = stretch byte rest a b in_esc t
