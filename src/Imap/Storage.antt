-- ===== src/Imap/Storage.antt =====
-- What an IMAP session asks of `Maildir` (common/src/storage/maildir.cpp), over the world that holds
-- the mail directories; the first two texts are the domain and the user. `none` around a result is an
-- exception of `std::filesystem`, which the operation does not catch.
use email_server.Base.{ℕ, Bool, List, Option}
use email_server.Maildir.{Message, MailboxInfo}
use email_server.Text.{Text}

pub record Store (W : Type 0) : Type 0 where
  pub exists : W → Text → Text → Option Bool
  pub initialize : W → Text → Text → W × Bool
  pub create_mailbox : W → Text → Text → Text → W × Bool
  pub delete_mailbox : W → Text → Text → Text → W × Bool
  pub rename_mailbox : W → Text → Text → Text → Text → W × Bool
  pub list_mailboxes : W → Text → Text → Text → List Text
  pub get_mailbox_info : W → Text → Text → Text → Option (W × Option MailboxInfo)
  pub list_messages : W → Text → Text → Text → Option (List Message)
  pub get_message_content : W → Text → Text → Text → Text → Option (Option Text)
  pub get_message_headers : W → Text → Text → Text → Text → Option (Option Text)
  pub delete_message : W → Text → Text → Text → Text → Option (W × Bool)
  pub copy_message : W → Text → Text → Text → Text → Text → Option (W × Bool)
  pub set_flags : W → Text → Text → Text → List ℕ → Text → Option (W × Bool)
