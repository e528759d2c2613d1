-- ===== src/Smtp/Dialogue/Remote.antt =====
-- The choice among the servers of a domain, and a server that hangs up at QUIT.
use email_server.Base.{
  ℕ, suc, ◌≡◌, refl, Bool, true, false, inl, inr, ◌||◌, List, [], ◌∷◌, ◌++◌, Option, none, some,
  arith, drop, Bool-cases, Option-cases,
}
use email_server.Smtp.Dialogue.{
  DeliveryResult, Network, failed, expect_code, response_from, proceed, ask, send_lines, say_quit,
  say_content, say_data, say_recipient, say_sender, say_helo, greet, say_hello, send_to_server,
  try_servers, servers, deliver_remote,
}
use email_server.Smtp.Dialogue.Sent.{Records, ended, greeting, transaction, send_to_server-log}
use email_server.Smtp.Relay.{message_lines}
use email_server.Text.{Text, codes, find_char}

-- The last of what was sent is a whole dialogue about this mail.
abbrev pub EndsInTransaction : Text → List Text → Text → Text → Text → Type 0
EndsInTransaction hostname sent sender recipient content =
    (before : List Text) × (again : Bool) × (sent
      ≡ before ++ ended (greeting hostname again ++ transaction sender recipient content))

module _ {W : Type 0} (n : Network W) (hostname : Text) (log : W → List Text)
    (records : Records n log) where
  try_servers-EndsInTransaction :
      (names : List Text) (sender recipient content : Text) (w : W) (result : DeliveryResult)
      → result.success ≡ false
      → (try_servers n hostname names sender recipient content w result).1.success ≡ true
      → EndsInTransaction hostname
          (log (try_servers n hostname names sender recipient content w result).0)
          sender
          recipient
          content
  unfolding try_servers
  try_servers-EndsInTransaction [] sender recipient content w result f s = absurd (ground arith)
  try_servers-EndsInTransaction (server ∷ rest) sender recipient content w result f s =
      let tried = send_to_server n hostname w server 25 sender recipient content in
      elim (Bool-cases tried.1.success) [
        | inl good ↦
            let said =
              send_to_server-log n hostname log records w server 25 sender recipient content good in
            rw (good, try_servers) (log w, _, said)
        | inr bad ↦
            rw (bad, try_servers)
              (try_servers-EndsInTransaction rest sender recipient content tried.0 tried.1 bad
                (ground arith))
      ]

  -- A remote delivery that reports success has, as the last of all that was sent, carried out one
  -- whole dialogue, with this sender, recipient and content.
  pub deliver_remote-EndsInTransaction :
      (w : W) (recipient sender content : Text)
      → (deliver_remote n hostname w recipient sender content).1.success ≡ true
      → EndsInTransaction hostname
          (log (deliver_remote n hostname w recipient sender content).0)
          sender
          recipient
          content
  unfolding deliver_remote failed
  deliver_remote-EndsInTransaction w recipient sender content s =
      elim (Option-cases (find_char b'@' recipient)) [
        | inl missing ↦ absurd (ground arith)
        | inr (at, found) ↦
            let domain = drop (suc at) recipient in
            rw (found, deliver_remote)
              (try_servers-EndsInTransaction (servers n hostname domain (n.lookup_mx w domain))
                sender recipient content w (failed []) refl (ground arith))
      ]

-- No reply to QUIT ever arrives: the other server closes the connection at once.
abbrev pub HangsUp : {W : Type 0} → Network W → Text → Type 0
HangsUp {W} n hostname = (w : W) → (ask n hostname w (codes "QUIT")).1 ≡ none

module _ {W : Type 0} (n : Network W) (hostname : Text) (hangs_up : HangsUp n hostname) where
  abbrev Fails : (W → W × DeliveryResult) → Type 0
  Fails part = (w : W) → (part w).1.success ≡ false

  proceed-Fails :
      (good : Text → Bool) (refused : Text) (next : W → W × DeliveryResult) (a : W × Option Text)
      → Fails next
      → (proceed n.what good refused next a).1.success ≡ false
  unfolding proceed failed
  proceed-Fails good refused next (w, none) h = refl
  proceed-Fails good refused next (w, some response) h = ground (arith, h w)

  say_quit-Fails : Fails (say_quit n hostname)
  unfolding say_quit proceed failed
  say_quit-Fails w = ground (arith, hangs_up w)

  say_content-Fails : (content : Text) → Fails (say_content n hostname content)
  unfolding say_content failed
  say_content-Fails content w =
      let (w1, sent) = send_lines n hostname (message_lines content) w in
      ground (
        arith,
        proceed-Fails (λ response. expect_code response 250) (codes "Message rejected: ")
            (say_quit n hostname) (ask n hostname w1 (codes ".")) say_quit-Fails,
      )

  say_data-Fails : (content : Text) → Fails (say_data n hostname content)
  unfolding say_data
  say_data-Fails content w =
      proceed-Fails (λ response. expect_code response 354) (codes "DATA rejected: ")
        (say_content n hostname content) (ask n hostname w (codes "DATA"))
        (say_content-Fails content)

  say_recipient-Fails :
      (recipient content : Text) → Fails (say_recipient n hostname recipient content)
  unfolding say_recipient
  say_recipient-Fails recipient content w =
      proceed-Fails (λ response. expect_code response 250 || expect_code response 251)
        (codes "RCPT TO rejected: ") (say_data n hostname content)
        (ask n hostname w (codes "RCPT TO:<" ++ (recipient ++ codes ">"))) (say_data-Fails content)

  say_sender-Fails :
      (sender recipient content : Text) → Fails (say_sender n hostname sender recipient content)
  unfolding say_sender
  say_sender-Fails sender recipient content w =
      proceed-Fails (λ response. expect_code response 250) (codes "MAIL FROM rejected: ")
        (say_recipient n hostname recipient content)
        (ask n hostname w (codes "MAIL FROM:<" ++ (sender ++ codes ">")))
        (say_recipient-Fails recipient content)

  say_helo-Fails :
      (sender recipient content : Text) → Fails (say_helo n hostname sender recipient content)
  unfolding say_helo
  say_helo-Fails sender recipient content w =
      proceed-Fails (λ response. expect_code response 250) (codes "HELO rejected: ")
        (say_sender n hostname sender recipient content)
        (ask n hostname w (codes "HELO " ++ hostname)) (say_sender-Fails sender recipient content)

  greet-Fails :
      (sender recipient content : Text) (a : W × Option Text)
      → (greet n hostname sender recipient content a).1.success ≡ false
  unfolding greet failed
  greet-Fails sender recipient content (w, none) = refl
  greet-Fails sender recipient content (w, some response) = ground (
    arith,
    say_sender-Fails sender recipient content w,
    say_helo-Fails sender recipient content w,
  )

  say_hello-Fails :
      (sender recipient content : Text) → Fails (say_hello n hostname sender recipient content)
  unfolding say_hello
  say_hello-Fails sender recipient content w =
      greet-Fails sender recipient content (ask n hostname w (codes "EHLO " ++ hostname))

  send_to_server-Fails :
      (w : W) (server : Text) (port : ℕ) (sender recipient content : Text)
      → (send_to_server n hostname w server port sender recipient content).1.success ≡ false
  unfolding send_to_server failed
  send_to_server-Fails w server port sender recipient content =
      let got = n.receive (n.connect w server port).0 in
      ground (
        arith,
        proceed-Fails (λ response. expect_code response 220) (codes "Server rejected connection: ")
            (say_hello n hostname sender recipient content) (got.0, response_from [] got.1)
            (say_hello-Fails sender recipient content),
      )

  try_servers-Fails :
      (names : List Text) (sender recipient content : Text) (w : W) (result : DeliveryResult)
      → result.success ≡ false
      → (try_servers n hostname names sender recipient content w result).1.success ≡ false
  unfolding try_servers
  try_servers-Fails [] sender recipient content w result f = f
  try_servers-Fails (server ∷ rest) sender recipient content w result f =
      let bad = send_to_server-Fails w server 25 sender recipient content in
      let tried = send_to_server n hostname w server 25 sender recipient content in
      rw (bad, try_servers) (try_servers-Fails rest sender recipient content tried.0 tried.1 bad)

  -- Where the other servers close the connection at QUIT without a reply, every remote delivery is
  -- reported as failed, whatever they have answered before, also where they accepted the message.
  pub deliver_remote-Fails :
      (w : W) (recipient sender content : Text)
      → (deliver_remote n hostname w recipient sender content).1.success ≡ false
  unfolding deliver_remote failed
  deliver_remote-Fails w recipient sender content = elim (Option-cases (find_char b'@' recipient)) [
    | inl missing ↦ rw (missing, deliver_remote) refl
    | inr (at, found) ↦
        let domain = drop (suc at) recipient in
        rw (found, deliver_remote)
          (try_servers-Fails (servers n hostname domain (n.lookup_mx w domain)) sender recipient
            content w (failed []) refl)
  ]
