-- ===== src/Smtp/Logins/Lines.antt =====
-- Settings and logins across whole lines: the answers of a login, the lines of a message, and runs.
use email_server.Base.{if-both, if-each, List, [], ◌∷◌, Option, none, some, arith}
use email_server.Net
use email_server.Smtp.Delivery.{deliver_message}
use email_server.Smtp.Host.{Host, Relay}
use email_server.Smtp.Login.{
  conclude, plain_response, auth_response, process_auth_response, plain_credentials,
}
use email_server.Smtp.Protocol.{
  is_receiving, is_waiting, finish_data, append_line, unstuff, end_data, process_data_line, on_data,
  handle_read, run_lines,
}
use email_server.Smtp.Reply.{make, exceeded_storage}
use email_server.Smtp.{
  SmtpSession, AuthState, idle, plain_waiting, login_waiting_username, login_waiting_password,
  send_line,
}
use email_server.Text.{Text, codes}
use email_server.Smtp.Logins.{
  Change, Kept, Kept-refl, Kept-trans, Kept-Change, Change-trans, send_line-Kept,
  set_auth_state-Kept, log_in-Change, process_command-Change,
}

conclude-Change :
    (h : Host) (username password : Text) (s : SmtpSession)
    → Change h s (conclude h username password s)
unfolding conclude
conclude-Change h username password s =
    if-each (Change h s) _
      (λ good.
        Change-trans h s _ _ (log_in-Change h username password s good)
          (Kept-Change h _ _ (send_line-Kept _ _)))
      (λ bad.
        Kept-Change h s _ (Kept-trans s _ _ (send_line-Kept _ s) (set_auth_state-Kept idle _)))

plain-Change :
    (h : Host) (c : Option (Text × Text)) (s : SmtpSession) → Change h s (plain_response h c s)
unfolding plain_response
plain-Change h none s =
    Kept-Change h s _ (Kept-trans s _ _ (send_line-Kept _ s) (set_auth_state-Kept idle _))
plain-Change h (some (username, password)) s = conclude-Change h username password s

forget-Kept : (s : SmtpSession) → Kept s (record s { auth_username = [] })
forget-Kept s = ground arith

response-Change :
    (h : Host) (a : AuthState) (decoded : Text) (s : SmtpSession)
    → Change h s (auth_response h a decoded s)
unfolding auth_response
response-Change h plain_waiting decoded s = plain-Change h (plain_credentials decoded) s
response-Change h login_waiting_username decoded s =
    Kept-Change h s _ (Kept-trans s _ _ (ground arith) (send_line-Kept _ _))
response-Change h login_waiting_password decoded s =
    Change-trans h s _ _ (conclude-Change h s.auth_username decoded s)
      (Kept-Change h _ _ (forget-Kept _))
response-Change h _ decoded s = Kept-Change h s _ (set_auth_state-Kept idle s)

finish-Kept : (reply : Text) (s : SmtpSession) → Kept s (finish_data reply s)
unfolding finish_data send_line Net.send_line
finish-Kept reply s = ground arith

append-Kept : (content : Text) (s : SmtpSession) → Kept s (append_line content s)
unfolding append_line
append-Kept content s =
    ground (arith, finish-Kept (make exceeded_storage (codes "Message too large")) s)

module _ {W : Type 0} (h : Host) (r : Relay W) where
  deliver-Kept : (s : SmtpSession) (w : W) → Kept s (deliver_message h r s w).1
  unfolding deliver_message
  deliver-Kept s w = ground arith

  end-Kept : (s : SmtpSession) (w : W) → Kept s (end_data h r s w).1
  unfolding end_data
  end-Kept s w = Kept-trans s _ _ (deliver-Kept s w) (finish-Kept _ _)

  data_line-Kept :
      (line : Text) (s : SmtpSession) (w : W) → Kept s (process_data_line h r line s w).1
  unfolding process_data_line
  data_line-Kept line s w =
      if-both (λ (p : W × SmtpSession). Kept s p.1) _ (end-Kept s w) (append-Kept (unstuff line) s)

  pub handle_read-Change :
      (line : Text) (s : SmtpSession) (w : W) → Change h s (handle_read h r line s w).1
  unfolding handle_read on_data process_auth_response
  handle_read-Change line s w = if-both P s.stopped (Kept-Change h s s (Kept-refl s)) (
      if-both P (is_receiving s.state) (Kept-Change h s _ (data_line-Kept line s w)) (
        if-both P (is_waiting s.auth_state)
          (response-Change h s.auth_state (h.base64_decode line) s)
          (process_command-Change h line s)))
    where
      P : W × SmtpSession → Type 0
      P p = Change h s p.1

  -- No line changes the session's settings, and a session's login is the one that it had before,
  -- or that of a user whose name and password the authenticator has accepted.
  pub run_lines-Change :
      (lines : List Text) (s : SmtpSession) (w : W) → Change h s (run_lines h r lines s w).1
  unfolding run_lines
  run_lines-Change [] s w = Kept-Change h s s (Kept-refl s)
  run_lines-Change (line ∷ rest) s w =
      let after = handle_read h r line s w in
      Change-trans h s _ _ (handle_read-Change line s w) (run_lines-Change rest after.1 after.0)
