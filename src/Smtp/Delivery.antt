-- ===== src/Smtp/Delivery.antt =====
-- `SMTPSession::deliver_message` of smtp/src/smtp_session.cpp.
use email_server.Base.{
  Bool, true, false, ◌&&◌, ◌||◌, List, [], ◌∷◌, ◌++◌, Option, none, some, if◌then◌else◌, is_empty,
}
use email_server.Smtp.Address
use email_server.Smtp.Address.{EmailAddress}
use email_server.Smtp.Handlers.{is_local_domain}
use email_server.Smtp.Host.{Host, Relay}
use email_server.Smtp.{SmtpSession}
use email_server.Text.{Text, codes, crlf}

-- The header line that is put in front of the message.
unfoldable pub received_header : Text → Text → SmtpSession → Text
received_header remote_address timestamp s =
    codes "Received: from "
    ++ (s.client_hostname
        ++ (codes " ("
            ++ (remote_address
                ++ (codes ")"
                    ++ (crlf
                        ++ (codes "\tby "
                            ++ (s.hostname
                                ++ (codes " with "
                                    ++ ((if s.is_tls then codes "ESMTPS" else codes "ESMTP")
                                        ++ (codes ";"
                                            ++ (crlf
                                                ++ (codes "\t" ++ (timestamp ++ crlf)))))))))))))

module _ {W : Type 0} (h : Host) (r : Relay W) where
  -- One recipient, once his address is parsed.
  unfoldable pub deliver_to : Option EmailAddress → Text → Text → SmtpSession → W → W × Bool
  deliver_to none recipient message s w = (w, false)
  deliver_to (some addr) recipient message s w =
      if is_local_domain h s addr.domain
      then r.deliver_local w addr.domain addr.local_part message
      else if s.allow_relay || s.authenticated
      then r.deliver_remote w recipient s.envelope.mail_from message
      else (w, false)

  -- The loop over the recipients; the flag is `all_delivered`.
  unfoldable pub deliver_all : List Text → Text → SmtpSession → W → Bool → W × Bool
  unfolding deliver_to
  deliver_all [] message s w all_delivered = (w, all_delivered)
  deliver_all (recipient ∷ rest) message s w all_delivered =
      let (w', delivered) = deliver_to (Address.parse recipient) recipient message s w in
      deliver_all rest message s w' (all_delivered && delivered)

  -- The session keeps the full message in its envelope.
  unfoldable pub deliver_message : SmtpSession → W → W × SmtpSession × Bool
  unfolding deliver_all
  deliver_message s w =
      let message = received_header h.remote_address (r.timestamp w) s ++ s.data_buffer in
      let kept = record s { envelope = record (s.envelope) { message = message } } in
      let (w', all_delivered) = deliver_all s.envelope.rcpt_to message kept w true in
      if is_empty s.envelope.rcpt_to then (w, s, false) else (w', kept, all_delivered)
