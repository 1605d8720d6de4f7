-- ===== src/Ebus/Ranks.antt =====
-- How far a telegram has come that `process_received_char` of esphome/components/ebus/ebus.cpp
-- receives: between two SYN it never goes back, and an acknowledgement is awaited once.
use esphome.Prelude.{
  ℕ, ◌+◌, ◌*◌, ◌≤◌, ◌≡◌, ◌≢◌, refl, ap, ◌∙◌, subst, Bool, false, if◌then◌else◌, List, [], ◌∷◌,
  Option, some, none, ◌>>=◌, arith, All, lt_int, pos,
}
use esphome.Telegram.{
  TelegramState, wait_for_syn, wait_for_request_data, wait_for_request_ack, wait_for_response_data,
  wait_for_response_ack, wait_for_arbitration, syn, is_finished, state_value,
}
use esphome.Telegram.Received.{Telegram, new_telegram}
use esphome.Ebus.Receive.{receive_char}
use esphome.Ebus.Process.{unescape, Unescaped, real_byte, escape_begins, invalid_sequence}
use esphome.Ebus.Receiver.{receive_step, receive_unescaped, fresh_telegram}
use esphome.Ebus.Wire.{receive_bytes}
use esphome.Ebus.Diagram.{
  is_open, Moves, found, missed, begun, repeated, lost, cut, continued, asked, told, taken, done,
  refused, ignored, cut_response, answering, answered, accepted, rejected, dropped, over,
  receive_char-Moves,
}

-- The states in the order of a telegram. Behind its end they have to wait for a SYN.
abbrev pub rank : TelegramState → ℕ
rank wait_for_arbitration = 0
rank wait_for_request_data = 1
rank wait_for_request_ack = 2
rank wait_for_response_data = 3
rank wait_for_response_ack = 4
rank _ = 5

-- One more where an acknowledgement is awaited.
abbrev pub awaits : TelegramState → ℕ
awaits wait_for_request_ack = 1
awaits wait_for_response_ack = 1
awaits _ = 0

-- The progress of a telegram, with the escape that may be open.
abbrev pub progress : Bool → TelegramState → ℕ
progress in_esc s = rank s * 2 + (if in_esc then awaits s else 0)

none_awaited_outside : (s : TelegramState) → is_open s ≡ false → awaits s ≡ 0
none_awaited_outside wait_for_request_ack closed = cc
none_awaited_outside wait_for_response_ack closed = cc
none_awaited_outside _ closed = refl

Moves-rank :
    {received : ℕ} {t t' : Telegram} {s s' : TelegramState}
    → Moves received t t' s s'
    → received ≢ syn
    → rank s + awaits s ≤ rank s'
Moves-rank (found e) n = absurd (n e)
Moves-rank (missed e) n = omega arith
Moves-rank (begun e) n = omega arith
Moves-rank (repeated e) n = absurd (n e)
Moves-rank (lost e z) n = absurd (n e)
Moves-rank (cut e z) n = absurd (n e)
Moves-rank (continued e c) n = omega arith
Moves-rank (asked e c a) n = omega arith
Moves-rank (told e c a) n = omega arith
Moves-rank (taken e x) n = omega arith
Moves-rank (done e x) n = omega arith
Moves-rank (refused e) n = omega arith
Moves-rank (ignored a b) n = omega arith
Moves-rank (cut_response e) n = absurd (n e)
Moves-rank (answering e c) n = omega arith
Moves-rank (answered e c) n = omega arith
Moves-rank (accepted e) n = omega arith
Moves-rank (rejected e) n = omega arith
Moves-rank (dropped a b) n = omega arith
Moves-rank {s = s} (over closed same) n = omega (arith, none_awaited_outside s closed)

-- What is awaited of a telegram, as one number.
abbrev behind : TelegramState → ℕ
behind s = rank s + awaits s

behind_fresh :
    (s : TelegramState)
    → behind (if lt_int (state_value s) (pos 0) then wait_for_syn else s) ≡ behind s
behind_fresh wait_for_syn = refl
behind_fresh _ = refl

fresh_telegram-state :
    (t : Telegram)
    → (fresh_telegram t).state
      ≡ (if lt_int (state_value t.state) (pos 0) then wait_for_syn else t.state)
unfolding fresh_telegram is_finished new_telegram
fresh_telegram-state t = ground arith

fresh_telegram-behind : (t : Telegram) → behind (fresh_telegram t).state ≡ behind t.state
fresh_telegram-behind t = ap behind (fresh_telegram-state t) ∙ behind_fresh t.state

-- A property of what bytes leave, if there is that.
Leaves : {A : Type 0} → (A → Type 0) → Option A → Type 0
Leaves P none = Unit
Leaves P (some x) = P x

bind-Leaves :
    {A B : Type 0} (P : A → Type 0) (Q : B → Type 0) (m : Option A) (k : A → Option B)
    → Leaves P m
    → ((x : A) → P x → Leaves Q (k x))
    → Leaves Q (m >>= k)
unfolding Leaves
bind-Leaves P Q none k h more = tt
bind-Leaves P Q (some x) k h more = more x h

of_equation :
    {A : Type 0} (P : A → Type 0) (m : Option A) → ((x : A) → m ≡ some x → P x) → Leaves P m
unfolding Leaves
of_equation P none h = tt
of_equation P (some x) h = h x refl

-- A step from the progress `p` to a state.
abbrev Advances : ℕ → Bool × Telegram → Type 0
Advances p r = p ≤ progress r.0 r.1.state

rank-le : (s : TelegramState) → behind s ≤ 5
rank-le wait_for_syn = omega arith
rank-le _ = omega arith

receive_unescaped-Advances :
    (u : Unescaped) (in_esc : Bool) (t : Telegram) (byte : ℕ)
    → (u ≡ escape_begins → in_esc ≡ false)
    → byte ≢ syn
    → Leaves (Advances (progress in_esc t.state + awaits t.state)) (receive_unescaped u t byte)
unfolding receive_unescaped Leaves new_telegram
receive_unescaped-Advances escape_begins in_esc t byte closed n = rw (closed refl) (omega arith)
receive_unescaped-Advances invalid_sequence in_esc t byte closed n = ground (arith, rank-le t.state)
receive_unescaped-Advances (real_byte real) in_esc t byte closed n =
    bind-Leaves (λ t'. behind t.state ≤ rank t'.state) _ (receive_char byte real (fresh_telegram t))
      (λ t'. some (false, t'))
      (of_equation _ (receive_char byte real (fresh_telegram t)) (λ t' e. omega (
        arith,
        fresh_telegram-behind t,
        Moves-rank (receive_char-Moves byte real (fresh_telegram t) t' e) n,
      )))
      (λ t' further. ground (arith, further))

unescape-closed : (in_esc : Bool) (byte : ℕ) → unescape in_esc byte ≡ escape_begins → in_esc ≡ false
unfolding unescape
unescape-closed in_esc byte e = ground arith

receive_step-Advances :
    (in_esc : Bool) (t : Telegram) (byte : ℕ)
    → byte ≢ syn
    → Leaves (Advances (progress in_esc t.state + awaits t.state)) (receive_step in_esc t byte)
unfolding receive_step
receive_step-Advances in_esc t byte n =
    receive_unescaped-Advances (unescape in_esc byte) in_esc t byte (unescape-closed in_esc byte) n

abbrev pub IsNoSyn : ℕ → Type 0
IsNoSyn byte = byte ≢ syn

weaken :
    {A : Type 0} (P Q : A → Type 0) (m : Option A) → ((x : A) → P x → Q x) → Leaves P m → Leaves Q m
unfolding Leaves
weaken P Q none f h = tt
weaken P Q (some x) f h = f x h

receive_bytes-Advances :
    (bytes : List ℕ) (p : ℕ) (in_esc : Bool) (t : Telegram)
    → p ≤ progress in_esc t.state
    → All IsNoSyn bytes
    → Leaves (Advances p) (receive_bytes bytes in_esc t)
unfolding Leaves
receive_bytes-Advances [] p in_esc t h all = h
receive_bytes-Advances (byte ∷ rest) p in_esc t h all =
    bind-Leaves (Advances (progress in_esc t.state + awaits t.state)) _ (receive_step in_esc t byte)
      (λ next. receive_bytes rest next.0 next.1) (receive_step-Advances in_esc t byte all.0)
      (λ next further.
        receive_bytes-Advances rest p next.0 next.1 (omega (arith, h, further)) all.1)

-- Between two SYN, a telegram only moves on.
pub progress-le :
    (bytes : List ℕ) (in_esc in_esc' : Bool) (t t' : Telegram)
    → All IsNoSyn bytes
    → receive_bytes bytes in_esc t ≡ some (in_esc', t')
    → progress in_esc t.state ≤ progress in_esc' t'.state
unfolding Leaves
progress-le bytes in_esc in_esc' t t' all e =
    subst (Leaves (Advances (progress in_esc t.state))) e
      (receive_bytes-Advances bytes (progress in_esc t.state) in_esc t (omega arith) all)

-- A byte leads on where an acknowledgement is awaited.
pub progress-lt :
    (byte : ℕ) (rest : List ℕ) (in_esc in_esc' : Bool) (t t' : Telegram)
    → All IsNoSyn (byte ∷ rest)
    → receive_bytes (byte ∷ rest) in_esc t ≡ some (in_esc', t')
    → progress in_esc t.state + awaits t.state ≤ progress in_esc' t'.state
unfolding Leaves
progress-lt byte rest in_esc in_esc' t t' all e =
    subst (Leaves (Advances (progress in_esc t.state + awaits t.state))) e (
      bind-Leaves (Advances (progress in_esc t.state + awaits t.state)) _
        (receive_step in_esc t byte) (λ next. receive_bytes rest next.0 next.1)
        (receive_step-Advances in_esc t byte all.0)
        (λ next further.
          receive_bytes-Advances rest (progress in_esc t.state + awaits t.state) next.0 next.1
            further all.1))

-- So no acknowledgement is awaited before bytes that leave a telegram whose request is complete
-- but not acknowledged, or whose response is.
pub none_awaited :
    (byte : ℕ) (rest : List ℕ) (in_esc : Bool) (t t' : Telegram)
    → All IsNoSyn (byte ∷ rest)
    → receive_bytes (byte ∷ rest) in_esc t ≡ some (false, t')
    → rank t.state * 2 + awaits t.state ≤ rank t'.state * 2
none_awaited byte rest in_esc t t' all e =
    ground (arith, progress-lt byte rest in_esc false t t' all e)
