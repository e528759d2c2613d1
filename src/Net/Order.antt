-- ===== src/Net/Order.antt =====
-- About the number and the order of the writes of a connection.
use mathlib.Core.List.{map-append}
use email_server.Base.{
  ℕ, zero, suc, ◌≤◌, ◌≡◌, refl, sym, ◌∙◌, Bool, true, false, inl, inr, List, [], ◌∷◌, ◌++◌, map,
  append_assoc, append-nil, Option, none, some, arith, drop, All, Bool-cases, List-cases,
}
use email_server.Net.Events.{
  Event, sends, runs, completes, looks, pushes, take_posted, run_at, look_at, push_at, complete,
  step, run,
}
use email_server.Net.{
  Channel, Session, connect, send, stop, start_tls, run_posted, look, push, handle_write,
  handle_timeout, channel, pop_front,
}
use email_server.Text.{Text}

abbrev pub in_flight : List Text → ℕ
in_flight [] = 0
in_flight (x ∷ xs) = 1

-- One write is under way exactly while the queue holds something; a stopped session may still
-- hear of one.
pub record OneWrite (s : Session) : Type 0 where
  pub running : s.stopped ≡ false → s.outstanding ≡ in_flight s.write_queue
  pub at_most : s.outstanding ≤ 1

pub connect-OneWrite : (over_tls : Bool) → OneWrite (connect over_tls)
connect-OneWrite over_tls = record { running = λ _. refl; at_most = omega arith }

run_posted-OneWrite : (text : Text) (s : Session) → OneWrite s → OneWrite (run_posted text s)
unfolding run_posted
run_posted-OneWrite text s v = ground arith

run_at-OneWrite : (p : Option (Text × List Text)) (s : Session) → OneWrite s → OneWrite (run_at p s)
unfolding run_at
run_at-OneWrite none s v = v
run_at-OneWrite (some (text, others)) s v =
    run_posted-OneWrite text _ (record { running = v.running; at_most = v.at_most })

complete-OneWrite :
    (n : ℕ) (failed : Bool) (s : Session)
    → s.outstanding ≡ n
    → OneWrite s
    → OneWrite (complete n failed s)
unfolding complete handle_write
complete-OneWrite zero failed s e v = v
complete-OneWrite (suc n) failed s e v = ground arith

-- No lambda is run in parts, as with one thread.
abbrev pub IsWhole : Event → Type 0
IsWhole (looks i) = ⊥
IsWhole (pushes i) = ⊥
IsWhole _ = Unit

step-OneWrite : (s : Session) (e : Event) → IsWhole e → OneWrite s → OneWrite (step s e)
unfolding step send stop start_tls handle_timeout
step-OneWrite s (looks i) o v = absurd o
step-OneWrite s (pushes i) o v = absurd o
step-OneWrite s (sends text) o v = record { running = v.running; at_most = v.at_most }
step-OneWrite s (runs i) o v = run_at-OneWrite (take_posted s.posted i) s v
step-OneWrite s (completes failed) o v = complete-OneWrite s.outstanding failed s refl v
step-OneWrite s _ o v = ground arith

-- If it is so before, it is so whatever happens to a session on one thread, where every lambda is run
-- as a whole, and in whatever order: one write is under way exactly while its queue holds something,
-- as long as it is not stopped, and there are never two at once.
pub run-OneWrite :
    (s : Session) (es : List Event) → All IsWhole es → OneWrite s → OneWrite (run s es)
unfolding run
run-OneWrite s [] o v = v
run-OneWrite s (e ∷ es) o v = run-OneWrite (step s e) es o.1 (step-OneWrite s e o.0 v)

-- What was handed to `async_write`, and what still waits for it: the queue behind the write under
-- way, then the lambdas.
abbrev pub written : Session → List Text
written s = map (λ w. w.1) s.wire

abbrev pub waiting : Session → List Text
waiting s = drop s.outstanding s.write_queue ++ s.posted

abbrev pub account : Session → List Text
account s = written s ++ waiting s

-- Asio runs the lambda that has waited longest, as it does with one thread.
abbrev pub IsFifo : Event → Type 0
IsFifo (runs i) = i ≡ 0
IsFifo (looks i) = ⊥
IsFifo (pushes i) = ⊥
IsFifo _ = Unit

abbrev pub sent_by : Event → List Text
sent_by (sends text) = text ∷ []
sent_by _ = []

abbrev pub sent : List Event → List Text
sent [] = []
sent (e ∷ es) = sent_by e ++ sent es

IsFifo-IsWhole : (e : Event) → IsFifo e → IsWhole e
IsFifo-IsWhole (looks i) f = f
IsFifo-IsWhole (pushes i) f = f
IsFifo-IsWhole _ f = tt

account-run_posted :
    (text : Text) (others : List Text) (s : Session)
    → OneWrite s
    → s.stopped ≡ false
    → s.posted ≡ text ∷ others
    → account (run_posted text (record s { posted = others })) ≡ account s
unfolding run_posted
account-run_posted text others s v h e = ground (
  arith,
  map-append (λ (w : Channel × Text). w.1) s.wire ((channel s, text) ∷ []),
  append_assoc (written s) (text ∷ []) others,
  append_assoc (drop 1 s.write_queue) (text ∷ []) others,
)

account-complete :
    (n : ℕ) (failed : Bool) (s : Session)
    → OneWrite s
    → s.outstanding ≡ n
    → s.stopped ≡ false
    → (complete n failed s).stopped ≡ false
    → account (complete n failed s) ≡ account s
unfolding complete handle_write
account-complete zero failed s v e h k = refl
account-complete (suc n) failed s v e h k = elim (List-cases (pop_front s.write_queue)) [
  | inl none_left ↦ ground arith
  | inr (front, rest, more) ↦ ground (
    arith,
    map-append (λ (w : Channel × Text). w.1) s.wire ((channel s, front) ∷ []),
    append_assoc (written s) (front ∷ []) (rest ++ s.posted),
  )
]

-- The lambda in front, if there is one.
account-run_at :
    (p : List Text) (s : Session)
    → OneWrite s
    → s.stopped ≡ false
    → s.posted ≡ p
    → account (run_at (take_posted p 0) s) ≡ account s
unfolding take_posted run_at
account-run_at [] s v h e = refl
account-run_at (text ∷ others) s v h e = account-run_posted text others s v h e

account-step :
    (s : Session) (e : Event)
    → OneWrite s
    → IsFifo e
    → s.stopped ≡ false
    → (step s e).stopped ≡ false
    → account (step s e) ≡ account s ++ sent_by e
unfolding step send stop start_tls handle_timeout
account-step s (looks i) v f h k = absurd f
account-step s (pushes i) v f h k = absurd f
account-step s (sends text) v f h k = simp append_assoc
account-step s (runs i) v f h k = rw (append-nil, f) (account-run_at s.posted s v h refl)
account-step s (completes failed) v f h k =
    account-complete s.outstanding failed s v refl h k ∙ sym (append-nil _)
account-step s _ v f h k = ground (arith, append-nil (account s))

run_at-stopped :
    (p : Option (Text × List Text)) (s : Session) → s.stopped ≡ true → (run_at p s).stopped ≡ true
unfolding run_at run_posted
run_at-stopped none s h = h
run_at-stopped (some (text, others)) s h = ground arith

look_at-stopped :
    (p : Option (Text × List Text)) (s : Session) → s.stopped ≡ true → (look_at p s).stopped ≡ true
unfolding look_at look
look_at-stopped none s h = h
look_at-stopped (some (text, others)) s h = h

push_at-stopped :
    (p : Option ((Bool × Text) × List (Bool × Text))) (s : Session)
    → s.stopped ≡ true
    → (push_at p s).stopped ≡ true
unfolding push_at push
push_at-stopped none s h = h
push_at-stopped (some ((was_empty, text), others)) s h = ground arith

complete-stopped :
    (n : ℕ) (failed : Bool) (s : Session) → s.stopped ≡ true → (complete n failed s).stopped ≡ true
unfolding complete handle_write
complete-stopped zero failed s h = h
complete-stopped (suc n) failed s h = ground arith

pub step-stopped : (s : Session) (e : Event) → s.stopped ≡ true → (step s e).stopped ≡ true
unfolding step send stop start_tls handle_timeout
step-stopped s (runs i) h = run_at-stopped (take_posted s.posted i) s h
step-stopped s (completes failed) h = complete-stopped s.outstanding failed s h
step-stopped s (looks i) h = look_at-stopped (take_posted s.posted i) s h
step-stopped s (pushes i) h = push_at-stopped (take_posted s.looked i) s h
step-stopped s _ h = ground arith

pub run-stopped : (s : Session) (es : List Event) → s.stopped ≡ true → (run s es).stopped ≡ true
unfolding run
run-stopped s [] h = h
run-stopped s (e ∷ es) h = run-stopped (step s e) es (step-stopped s e h)

-- A session that still runs at the end was not stopped before.
running-before : (s : Session) (es : List Event) → (run s es).stopped ≡ false → s.stopped ≡ false
running-before s es h = elim (Bool-cases s.stopped) [
  | inl stopped ↦ cc (run-stopped s es stopped)
  | inr running ↦ running
]

-- While a session runs which has one write at a time, and Asio runs its lambdas in the order in
-- which they were posted, the buffers written to the socket followed by those that wait are what
-- was there before followed by the texts given to `send`, in the order of the calls: none is lost,
-- doubled or overtaken.
pub account-run :
    (s : Session) (es : List Event)
    → OneWrite s
    → All IsFifo es
    → (run s es).stopped ≡ false
    → account (run s es) ≡ account s ++ sent es
unfolding run
account-run s [] v f k = sym (append-nil (account s))
account-run s (e ∷ es) v f k =
    account-run (step s e) es (step-OneWrite s e (IsFifo-IsWhole e f.0) v) f.1 k
    ∙ rw (account-step s e v f.0 (running-before s (e ∷ es) k) (running-before (step s e) es k))
        (append_assoc (account s) (sent_by e) (sent es))

-- On two threads, two lambdas that both ask whether the queue is empty before either pushes start two
-- writes, and the text of the first is written twice: so it is in any session that runs with an empty
-- queue, where two lambdas wait and no other is begun.
pub run-looked :
    (s : Session) (first second : Text) (others : List Text)
    → s.stopped ≡ false
    → s.write_queue ≡ []
    → s.looked ≡ []
    → s.posted ≡ first ∷ second ∷ others
    → let t = run s (looks 0 ∷ looks 0 ∷ pushes 0 ∷ pushes 0 ∷ []) in
      (t.outstanding ≡ suc (suc s.outstanding))
      × (t.wire ≡ s.wire ++ (channel s, first) ∷ (channel s, first) ∷ [])
      × (t.write_queue ≡ first ∷ second ∷ [])
unfolding run step take_posted look_at look push_at push
run-looked s first second others running idle none_begun waits = (
  ground arith,
  ground (arith, append_assoc s.wire ((channel s, first) ∷ []) ((channel s, first) ∷ [])),
  ground arith,
)
