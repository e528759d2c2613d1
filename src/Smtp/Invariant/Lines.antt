-- ===== src/Smtp/Invariant/Lines.antt =====
-- The invariant across whole lines: the answers of a login, the lines of a message, and runs.
use email_server.Base.{
  ◌≡◌, refl, Bool, true, false, List, [], ◌∷◌, ◌++◌, Option, none, some, arith, length-append, inl,
  inr, Bool-cases,
}
use email_server.Smtp.Delivery.{deliver_message}
use email_server.Smtp.Host.{Host, Relay}
use email_server.Smtp.Invariant.{
  IsConsistent, send_line-IsConsistent, log_in-IsConsistent, waiting-IsConsistent,
  command-IsConsistent,
}
use email_server.Smtp.Login.{
  conclude, plain_response, auth_response, process_auth_response, plain_credentials,
}
use email_server.Smtp.Protocol.{
  is_receiving, is_waiting, finish_data, append_line, unstuff, end_data, process_data_line, on_data,
  handle_read, run_lines,
}
use email_server.Smtp.Reply.{make, auth_invalid, exceeded_storage}
use email_server.Smtp.{
  SmtpSession, AuthState, plain_waiting, login_waiting_username, login_waiting_password, idle,
  send_line, open_session,
}
use email_server.Net
use email_server.Text.{Text, codes, crlf}

-- While an answer is awaited nobody is logged in.
waiting-authenticated :
    (s : SmtpSession) → is_waiting s.auth_state ≡ true → IsConsistent s → s.authenticated ≡ false
waiting-authenticated s w v = ground arith

conclude-IsConsistent :
    (h : Host) (username password : Text) (s : SmtpSession)
    → s.authenticated ≡ false
    → IsConsistent s
    → IsConsistent (conclude h username password s)
unfolding conclude
conclude-IsConsistent h username password s q v =
    let refused = make auth_invalid (codes "Authentication failed") in
    elim (Bool-cases (h.authenticate username password)) [
      | inl good ↦
          rw (good, conclude) (send_line-IsConsistent _ _ (log_in-IsConsistent username s v))
      | inr bad ↦
          rw (bad, conclude)
            (waiting-IsConsistent idle _ refl (unfold send_line Net.send_line in q)
              (send_line-IsConsistent refused s v))
    ]

plain-IsConsistent :
    (h : Host) (c : Option (Text × Text)) (s : SmtpSession)
    → s.authenticated ≡ false
    → IsConsistent s
    → IsConsistent (plain_response h c s)
unfolding plain_response
plain-IsConsistent h none s q v =
    waiting-IsConsistent idle _ refl (unfold send_line Net.send_line in q)
      (send_line-IsConsistent _ s v)
plain-IsConsistent h (some (username, password)) s q v =
    conclude-IsConsistent h username password s q v

-- Forgetting the name that a login was about.
forget-IsConsistent :
    (s : SmtpSession) → IsConsistent s → IsConsistent (record s { auth_username = [] })
forget-IsConsistent s v = ground arith

response-IsConsistent :
    (h : Host) (a : AuthState) (decoded : Text) (s : SmtpSession)
    → s.auth_state ≡ a
    → is_waiting a ≡ true
    → IsConsistent s
    → IsConsistent (auth_response h a decoded s)
unfolding auth_response
response-IsConsistent h plain_waiting decoded s e w v =
    plain-IsConsistent h (plain_credentials decoded) s (ground arith) v
response-IsConsistent h login_waiting_username decoded s e w v =
    send_line-IsConsistent _ _ (ground arith)
response-IsConsistent h login_waiting_password decoded s e w v =
    forget-IsConsistent _ (conclude-IsConsistent h s.auth_username decoded s (ground arith) v)
response-IsConsistent h _ decoded s e w v = cc

finish-IsConsistent :
    (reply : Text) (s : SmtpSession) → IsConsistent s → IsConsistent (finish_data reply s)
unfolding finish_data send_line Net.send_line
finish-IsConsistent reply s v = ground arith

append-IsConsistent :
    (content : Text) (s : SmtpSession)
    → is_receiving s.state ≡ true
    → IsConsistent s
    → IsConsistent (append_line content s)
unfolding append_line
append-IsConsistent content s q v = ground (
  arith,
  finish-IsConsistent (make exceeded_storage (codes "Message too large")) s v,
  length-append s.data_buffer (content ++ crlf),
  length-append content crlf,
)

module _ {W : Type 0} (h : Host) (r : Relay W) where
  deliver-IsConsistent :
      (s : SmtpSession) (w : W) → IsConsistent s → IsConsistent (deliver_message h r s w).1
  unfolding deliver_message
  deliver-IsConsistent s w v = ground arith

  end-IsConsistent : (s : SmtpSession) (w : W) → IsConsistent s → IsConsistent (end_data h r s w).1
  unfolding end_data
  end-IsConsistent s w v = finish-IsConsistent _ _ (deliver-IsConsistent s w v)

  data_line-IsConsistent :
      (line : Text) (s : SmtpSession) (w : W)
      → is_receiving s.state ≡ true
      → IsConsistent s
      → IsConsistent (process_data_line h r line s w).1
  unfolding process_data_line
  data_line-IsConsistent line s w q v =
      ground (arith, end-IsConsistent s w v, append-IsConsistent (unstuff line) s q v)

  on_data-IsConsistent :
      (line : Text) (s : SmtpSession) (w : W)
      → IsConsistent s
      → IsConsistent (on_data h r line s w).1
  unfolding on_data process_auth_response
  on_data-IsConsistent line s w v = ground (
    arith,
    data_line-IsConsistent line s w,
    response-IsConsistent h s.auth_state (h.base64_decode line) s refl,
    command-IsConsistent h line s,
  )

  pub handle_read-IsConsistent :
      (line : Text) (s : SmtpSession) (w : W)
      → IsConsistent s
      → IsConsistent (handle_read h r line s w).1
  unfolding handle_read
  handle_read-IsConsistent line s w v = ground (arith, on_data-IsConsistent line s w v)

  -- The invariant holds after any lines if it holds before: login state and connection agree, a
  -- transaction is open only for a client who may have one, RCPT and DATA have recipients, and the
  -- limits on recipients and on the message's size are kept.
  pub run_lines-IsConsistent :
      (lines : List Text) (s : SmtpSession) (w : W)
      → IsConsistent s
      → IsConsistent (run_lines h r lines s w).1
  unfolding run_lines
  run_lines-IsConsistent [] s w v = v
  run_lines-IsConsistent (line ∷ rest) s w v =
      let after = handle_read h r line s w in
      run_lines-IsConsistent rest after.1 after.0 (handle_read-IsConsistent line s w v)

pub open_session-IsConsistent :
    (over_tls : Bool) (hostname : Text) (domains : List Text)
    → IsConsistent (open_session over_tls hostname domains)
unfolding open_session
open_session-IsConsistent over_tls hostname domains = ground arith
