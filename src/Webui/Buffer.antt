-- ===== src/Webui/Buffer.antt =====
-- What the log buffer holds after any writes.
use bqcubbit.Base.{
  ℕ, zero, suc, ◌+◌, ◌-◌, ◌≤◌, Text, Bool-cases, Bool, not, ◌==◌, keep, All-append, List, [], ◌∷◌,
  ◌++◌, map, ◌≡◌, refl, sym, ap, ◌∙◌, inl, inr, arith, All, ltb, length, length-append, length-drop,
  drop,
}
use mathlib.Core.List.{append-nil, append_assoc}
use bqcubbit.Webui.{
  Subscriber, LogBuffer, channel_size, new_log_buffer, append_line, try_send, write, subscribe,
  unsubscribe, take_line, receive,
}

-- What happens to a buffer.
pub data Event : Type 0 where
  wrote : Text → Event
  subscribed : Event
  unsubscribed received : ℕ → Event

unfoldable pub happens : Event → LogBuffer → LogBuffer
happens (wrote line) b = write line b
happens subscribed b = (subscribe b).1
happens (unsubscribed channel) b = unsubscribe channel b
happens (received channel) b = receive channel b

unfoldable pub run_events : List Event → LogBuffer → LogBuffer
unfolding happens
run_events [] b = b
run_events (e ∷ es) b = run_events es (happens e b)

-- The lines that are written.
abbrev pub lines_of : List Event → List Text
lines_of [] = []
lines_of (wrote line ∷ es) = line ∷ lines_of es
lines_of (subscribed ∷ es) = lines_of es
lines_of (unsubscribed channel ∷ es) = lines_of es
lines_of (received channel ∷ es) = lines_of es

module _ {ℓ} {A : Type ℓ} where
  drop-append : (k : ℕ) (xs ys : List A) → k ≤ length xs → drop k (xs ++ ys) ≡ drop k xs ++ ys
  drop-append zero xs ys h = refl
  drop-append (suc k) [] ys h = absurd (omega (arith, h))
  drop-append (suc k) (x ∷ xs) ys h = drop-append k xs ys (omega (arith, h))

  drop-nil : (k : ℕ) → drop {A = A} k [] ≡ []
  drop-nil zero = refl
  drop-nil (suc k) = refl

  drop_one-drop : (k : ℕ) (xs : List A) → drop 1 (drop k xs) ≡ drop (suc k) xs
  drop_one-drop zero xs = refl
  drop_one-drop (suc k) [] = refl
  drop_one-drop (suc k) (x ∷ xs) = drop_one-drop k xs

-- The last `cap` items.
abbrev pub last_lines : ℕ → List Text → List Text
last_lines size all = drop (length all - size) all

append_line-last :
    (size : ℕ) (line : Text) (all : List Text)
    → append_line size line (last_lines size all) ≡ last_lines size (all ++ line ∷ [])
unfolding append_line
append_line-last size line all =
    let n : length (all ++ line ∷ []) ≡ length all + 1 = length-append all (line ∷ []) in
    let k : length (last_lines size all) ≡ length all - (length all - size) =
      length-drop (length all - size) all (omega arith) in
    let m : length (last_lines size all ++ line ∷ []) ≡ length (last_lines size all) + 1 =
      length-append (last_lines size all) (line ∷ []) in
    elim (Bool-cases (ltb size (length (last_lines size all ++ line ∷ [])))) [
      | inl full ↦ rw full (
          ap (drop 1) (sym (drop-append (length all - size) all (line ∷ []) (omega arith)))
          ∙ drop_one-drop (length all - size) (all ++ line ∷ [])
          ∙ ap (λ (j : ℕ). drop j (all ++ line ∷ [])) {x = suc (length all - size)}
              (ground (arith, n, k, m)))
      | inr room ↦ rw room (
          sym (drop-append (length all - size) all (line ∷ []) (omega arith))
          ∙ ap (λ (j : ℕ). drop j (all ++ line ∷ [])) {x = length all - size}
              (ground (arith, n, k, m)))
    ]

abbrev pub AreBounded : List Subscriber → Type 0
AreBounded = All (λ s. length s.waiting ≤ channel_size)

try_send-bounded :
    (line : Text) (ss : List Subscriber) → AreBounded ss → AreBounded (map (try_send line) ss)
unfolding try_send
try_send-bounded line [] h = tt
try_send-bounded line (s ∷ ss) h =
    (ground (arith, length-append s.waiting (line ∷ []), h.0), try_send-bounded line ss h.1)

length-drop_one : (xs : List Text) → length (drop 1 xs) ≤ length xs
length-drop_one [] = omega arith
length-drop_one (x ∷ xs) = omega arith

take_line-bounded :
    (channel : ℕ) (ss : List Subscriber) → AreBounded ss → AreBounded (map (take_line channel) ss)
unfolding take_line
take_line-bounded channel [] h = tt
take_line-bounded channel (s ∷ ss) h =
    (ground (arith, length-drop_one s.waiting, h.0), take_line-bounded channel ss h.1)

keep-bounded :
    (p : Subscriber → Bool) (ss : List Subscriber) → AreBounded ss → AreBounded (keep p ss)
keep-bounded p [] h = tt
keep-bounded p (s ∷ ss) h = elim (Bool-cases (p s)) [
  | inl stays ↦ rw stays (h.0, keep-bounded p ss h.1)
  | inr goes ↦ rw goes (keep-bounded p ss h.1)
]

happens-bounded : (e : Event) (b : LogBuffer) → AreBounded b.subs → AreBounded (happens e b).subs
unfolding happens write subscribe unsubscribe receive
happens-bounded (wrote line) b h = try_send-bounded line b.subs h
happens-bounded subscribed b h =
    All-append (λ s. length s.waiting ≤ channel_size) b.subs
      (record { channel = b.next_channel; waiting = [] } ∷ []) h (omega arith, tt)
happens-bounded (unsubscribed channel) b h = keep-bounded (λ s. not (s.channel == channel)) b.subs h
happens-bounded (received channel) b h = take_line-bounded channel b.subs h

run_events-from :
    (es : List Event) (all : List Text) (b : LogBuffer)
    → b.lines ≡ last_lines b.cap all
    → AreBounded b.subs
    → ((run_events es b).lines ≡ last_lines b.cap (all ++ lines_of es))
      × AreBounded (run_events es b).subs
unfolding run_events happens write subscribe unsubscribe receive
run_events-from [] all b e h = (e ∙ ap (last_lines b.cap) (sym (append-nil all)), h)
run_events-from (wrote line ∷ es) all b e h =
    let (lines, bounded) =
      run_events-from es (all ++ line ∷ []) (write line b)
        (ap (append_line b.cap line) e ∙ append_line-last b.cap line all)
        (happens-bounded (wrote line) b h) in
    (lines ∙ ap (last_lines b.cap) (append_assoc all (line ∷ []) (lines_of es)), bounded)
run_events-from (subscribed ∷ es) all b e h =
    run_events-from es all (subscribe b).1 e (happens-bounded subscribed b h)
run_events-from (unsubscribed channel ∷ es) all b e h =
    run_events-from es all (unsubscribe channel b) e (happens-bounded (unsubscribed channel) b h)
run_events-from (received channel ∷ es) all b e h =
    run_events-from es all (receive channel b) e (happens-bounded (received channel) b h)

-- After any writes, subscriptions, ends of subscriptions and receives on a new buffer, in any
-- order: the buffer holds the last lines that were written, as many as its capacity and in their
-- order, so no more than that; and no channel of a subscriber holds more than 64 lines.
pub log_buffer_bounds :
    (size : ℕ) (es : List Event)
    → ((run_events es (new_log_buffer size)).lines ≡ last_lines size (lines_of es))
      × (length (run_events es (new_log_buffer size)).lines ≤ size)
      × All (λ s. length s.waiting ≤ channel_size) (run_events es (new_log_buffer size)).subs
unfolding new_log_buffer
log_buffer_bounds size es =
    let (lines, bounded) =
      run_events-from es [] (new_log_buffer size) (sym (drop-nil (0 - size))) tt in
    let n : length (last_lines size (lines_of es))
        ≡ length (lines_of es) - (length (lines_of es) - size) =
      length-drop (length (lines_of es) - size) (lines_of es) (omega arith) in
    (lines, omega (arith, ap (λ (ls : List Text). length ls) lines, n), bounded)
