-- ===== src/Pop3/Storage.antt =====
-- What a POP3 session asks of `Maildir` (common/src/storage/maildir.cpp) for the mailbox INBOX of a
-- user in a domain, over the world that holds the mail directories.
use email_server.Base.{ℕ, Bool, List, Option}
use email_server.Text.{Text}

-- The parts of a listed message that the session reads.
pub record Entry : Type 0 where
  pub unique_id : Text
  pub size : ℕ

pub record Store (W : Type 0) : Type 0 where
  pub exists : W → Text → Text → Bool
  pub initialize : W → Text → Text → W × Bool
  pub list_messages : W → Text → Text → List Entry
  pub get_message_content : W → Text → Text → Text → Option Text
  pub delete_message : W → Text → Text → Text → W × Bool
