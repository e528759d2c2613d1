-- ===== src/Net/Stopped.antt =====
-- What `stop` and `start_tls` do to the texts that still wait to be written.
use email_server.Base.{
  ℕ, zero, suc, ◌≡◌, refl, ◌∙◌, Bool, true, false, List, [], ◌∷◌, ◌++◌, append_assoc, append-nil,
  Option, none, some, arith, All, All-append, if◌then◌else◌, ◌||◌, is_empty,
}
use email_server.Net.Events.{
  Event, sends, runs, completes, stops, upgrades, times_out, looks, pushes, take_posted, run_at,
  look_at, push_at, complete, step, run,
}
use email_server.Net.Order.{step-stopped}
use email_server.Net.{
  Channel, tls, Session, send, send_line, stop, start_tls, do_write, start_write, run_posted, look,
  push, handle_write, pop_front, handle_timeout,
}
use email_server.Text.{Text}

run_at-wire :
    (p : Option (Text × List Text)) (s : Session) → s.stopped ≡ true → (run_at p s).wire ≡ s.wire
unfolding run_at run_posted
run_at-wire none s h = refl
run_at-wire (some (text, others)) s h = ground arith

look_at-wire : (p : Option (Text × List Text)) (s : Session) → (look_at p s).wire ≡ s.wire
unfolding look_at look
look_at-wire none s = refl
look_at-wire (some (text, others)) s = refl

push_at-wire :
    (p : Option ((Bool × Text) × List (Bool × Text))) (s : Session)
    → s.stopped ≡ true
    → (push_at p s).wire ≡ s.wire
unfolding push_at push
push_at-wire none s h = refl
push_at-wire (some ((was_empty, text), others)) s h = ground arith

complete-wire :
    (n : ℕ) (failed : Bool) (s : Session) → s.stopped ≡ true → (complete n failed s).wire ≡ s.wire
unfolding complete handle_write
complete-wire zero failed s h = refl
complete-wire (suc n) failed s h = ground arith

step-wire : (s : Session) (e : Event) → s.stopped ≡ true → (step s e).wire ≡ s.wire
unfolding step send stop start_tls handle_timeout
step-wire s (runs i) h = run_at-wire (take_posted s.posted i) s h
step-wire s (completes failed) h = complete-wire s.outstanding failed s h
step-wire s (looks i) h = look_at-wire (take_posted s.posted i) s
step-wire s (pushes i) h = push_at-wire (take_posted s.looked i) s h
step-wire s _ h = ground arith

-- Nothing is written to the socket of a stopped session any more, whatever happens.
pub run-wire : (s : Session) (es : List Event) → s.stopped ≡ true → (run s es).wire ≡ s.wire
unfolding run
run-wire s [] h = refl
run-wire s (e ∷ es) h = run-wire (step s e) es (step-stopped s e h) ∙ step-wire s e h

-- A line that is sent right before the session is stopped, with no other thread between the two calls,
-- is never written: what `send` posts runs after `stop`, and then `do_write` does nothing.
pub stop-send_line :
    (line : Text) (s : Session) (es : List Event) → (run (stop (send_line line s)) es).wire ≡ s.wire
unfolding send_line
stop-send_line line s es =
    run-wire (stop (send_line line s)) es (unfold stop in ground arith)
    ∙ unfold stop in ground arith

abbrev IsTlsWrite : Channel × Text → Type 0
IsTlsWrite w = w.0 ≡ tls

-- What is written from now on, all of it over TLS.
abbrev pub WritesTls : Session → Session → Type 0
WritesTls s t = (new : List (Channel × Text)) × (t.wire ≡ s.wire ++ new) × All IsTlsWrite new

-- A session over TLS, whose writes since `s` all went over TLS.
record Upgraded (s t : Session) : Type 0 where
  secure : t.is_tls ≡ true
  writes : WritesTls s t

start_write-Upgraded :
    (s : Session) (q : List Text) (t : Session) → Upgraded s t → Upgraded s (start_write q t)
unfolding start_write
start_write-Upgraded s [] t u = u
start_write-Upgraded s (front ∷ rest) t u =
    let (new, e, h) = u.writes in
    record {
      secure = u.secure;
      writes = (
        new ++ (tls, front) ∷ [],
        rw (e, u.secure) (append_assoc s.wire new _),
        All-append IsTlsWrite new _ h (refl, tt),
      );
    }

-- The fields that writes do not depend on may change.
same-Upgraded :
    (s t u : Session) → Upgraded s t → u.is_tls ≡ t.is_tls → u.wire ≡ t.wire → Upgraded s u
same-Upgraded s t u h e f =
    let (new, w, a) = h.writes in record { secure = e ∙ h.secure; writes = (new, f ∙ w, a) }

if-Upgraded :
    (b : Bool) (s t u : Session) → Upgraded s t → Upgraded s u → Upgraded s (if b then t else u)
if-Upgraded true s t u h k = h
if-Upgraded false s t u h k = k

do_write-Upgraded : (s t : Session) → Upgraded s t → Upgraded s (do_write t)
unfolding do_write
do_write-Upgraded s t u =
    if-Upgraded (t.stopped || is_empty t.write_queue) s t _ u
      (start_write-Upgraded s t.write_queue t u)

run_posted-Upgraded : (text : Text) (s t : Session) → Upgraded s t → Upgraded s (run_posted text t)
unfolding run_posted
run_posted-Upgraded text s t u =
    let pushed : Session = record t { write_queue = t.write_queue ++ text ∷ [] } in
    let h = same-Upgraded s t pushed u refl refl in
    if-Upgraded (is_empty t.write_queue) s _ pushed (do_write-Upgraded s pushed h) h

run_at-Upgraded :
    (p : Option (Text × List Text)) (s t : Session) → Upgraded s t → Upgraded s (run_at p t)
unfolding run_at
run_at-Upgraded none s t u = u
run_at-Upgraded (some (text, others)) s t u =
    run_posted-Upgraded text s _ (same-Upgraded s t _ u refl refl)

look_at-Upgraded :
    (p : Option (Text × List Text)) (s t : Session) → Upgraded s t → Upgraded s (look_at p t)
unfolding look_at look
look_at-Upgraded none s t u = u
look_at-Upgraded (some (text, others)) s t u = same-Upgraded s t _ u refl refl

push_at-Upgraded :
    (p : Option ((Bool × Text) × List (Bool × Text))) (s t : Session)
    → Upgraded s t
    → Upgraded s (push_at p t)
unfolding push_at push
push_at-Upgraded none s t u = u
push_at-Upgraded (some ((was_empty, text), others)) s t u =
    let pushed : Session = record t { looked = others; write_queue = t.write_queue ++ text ∷ [] } in
    let h = same-Upgraded s t pushed u refl refl in
    if-Upgraded was_empty s _ pushed (do_write-Upgraded s pushed h) h

stop-Upgraded : (s t : Session) → Upgraded s t → Upgraded s (stop t)
unfolding stop
stop-Upgraded s t u = if-Upgraded t.stopped s t _ u (same-Upgraded s t _ u refl refl)

complete-Upgraded :
    (n : ℕ) (failed : Bool) (s t : Session) → Upgraded s t → Upgraded s (complete n failed t)
unfolding complete handle_write
complete-Upgraded zero failed s t u = u
complete-Upgraded (suc n) failed s t u =
    let done : Session = record t { outstanding = n } in
    let popped : Session = record done { write_queue = pop_front t.write_queue } in
    let h = same-Upgraded s t done u refl refl in
    let k = same-Upgraded s t popped u refl refl in
    if-Upgraded t.stopped s _ _ h (
      if-Upgraded failed s _ _ (stop-Upgraded s done h) (
        if-Upgraded (is_empty (pop_front t.write_queue)) s popped _ k
          (do_write-Upgraded s popped k)))

step-Upgraded : (s t : Session) (e : Event) → Upgraded s t → Upgraded s (step t e)
unfolding step send start_tls handle_timeout
step-Upgraded s t (sends text) u = same-Upgraded s t _ u refl refl
step-Upgraded s t (runs i) u = run_at-Upgraded (take_posted t.posted i) s t u
step-Upgraded s t (completes failed) u = complete-Upgraded t.outstanding failed s t u
step-Upgraded s t (looks i) u = look_at-Upgraded (take_posted t.posted i) s t u
step-Upgraded s t (pushes i) u = push_at-Upgraded (take_posted t.looked i) s t u
step-Upgraded s t stops u = stop-Upgraded s t u
step-Upgraded s t upgrades u =
    if-Upgraded t.is_tls s t _ u (record { secure = refl; writes = u.writes })
step-Upgraded s t (times_out cancelled) u =
    if-Upgraded cancelled s t _ u (if-Upgraded t.stopped s t _ u (stop-Upgraded s t u))

run-Upgraded : (s t : Session) (es : List Event) → Upgraded s t → Upgraded s (run t es)
unfolding run
run-Upgraded s t [] u = u
run-Upgraded s t (e ∷ es) u = run-Upgraded s (step t e) es (step-Upgraded s t e u)

-- Whatever happens after `start_tls`, all that is written from then on is written over TLS, also
-- the line that was sent right before the call, where no other thread has run its lambda in between.
pub start_tls-send_line :
    (line : Text) (s : Session) (es : List Event)
    → WritesTls s (run (start_tls (send_line line s)) es)
unfolding send_line start_tls
start_tls-send_line line s es = (run-Upgraded s _ es here).writes
  where
    here : Upgraded s (start_tls (send_line line s))
    here = record { secure = ground arith; writes = ([], ground (arith, append-nil s.wire), tt) }
