-- ===== src/Smtp/Dialogue/Sent.antt =====
-- What was sent to the other server, where a delivery succeeded.
use mathlib.Core.List.{map-append}
use email_server.Base.{
  ℕ, ◌≡◌, ◌≢◌, refl, sym, ap, ◌∙◌, Bool, true, false, inl, inr, ◌⊎◌, ◌||◌, not, List, [], ◌∷◌, ◌++◌,
  map, append_assoc, append-nil, Option, none, some, arith, Bool-cases, if◌then◌else◌,
}
use email_server.Smtp.Dialogue.{
  DeliveryResult, Network, failed, delivered, expect_code, response_from, proceed, ask, send_lines,
  say_quit, say_content, say_data, say_recipient, say_sender, say_helo, greet, say_hello,
  send_to_server,
}
use email_server.Smtp.Relay.{message_lines}
use email_server.Text.{Text, codes, crlf}

-- What the network has been given to send: writing adds to it, and nothing else changes it.
pub record Records {W : Type 0} (n : Network W) (log : W → List Text) : Type 0 where
  pub write :
      (w : W) (text : Text)
      → (n.write w text).1 ≡ true
      → log (n.write w text).0 ≡ log w ++ text ∷ []
  pub receive : (w : W) → log (n.receive w).0 ≡ log w
  pub connect : (w : W) (server : Text) (port : ℕ) → log (n.connect w server port).0 ≡ log w

-- Where this part of the dialogue succeeds, the texts are what it has sent.
abbrev Sends : {W : Type 0} → (W → List Text) → (W → W × DeliveryResult) → List Text → Type 0
Sends {W} log part texts = (w : W) → (part w).1.success ≡ true → log (part w).0 ≡ log w ++ texts

abbrev pub ended : List Text → List Text
ended = map (λ line. line ++ crlf)

-- The dialogue behind the greeting.
abbrev pub transaction : Text → Text → Text → List Text
transaction sender recipient content =
    (codes "MAIL FROM:<" ++ (sender ++ codes ">"))
    ∷ (codes "RCPT TO:<" ++ (recipient ++ codes ">"))
    ∷ codes "DATA"
    ∷ (message_lines content ++ codes "." ∷ codes "QUIT" ∷ [])

-- Whether a reply refuses EHLO.
abbrev pub refuses : Option Text → Bool
refuses none = false
refuses (some response) = not (expect_code response 250)

-- The names under which the client greets: EHLO alone, or EHLO and then HELO.
abbrev pub greeting : Text → Bool → List Text
greeting hostname again =
    (codes "EHLO " ++ hostname) ∷ (if again then (codes "HELO " ++ hostname) ∷ [] else [])

module _ {W : Type 0} (n : Network W) (hostname : Text) (log : W → List Text)
    (records : Records n log) where
  ask-log :
      (w : W) (command : Text)
      → (ask n hostname w command).1 ≢ none
      → log (ask n hostname w command).0 ≡ log w ++ (command ++ crlf) ∷ []
  unfolding ask
  ask-log w command answered =
      ground
        (arith, records.write w (command ++ crlf), records.receive (n.write w (command ++ crlf)).0)

  pub proceed-success :
      (good : Text → Bool) (refused : Text) (next : W → W × DeliveryResult) (a : W × Option Text)
      → (proceed n.what good refused next a).1.success ≡ true
      → (a.1 ≢ none) × (proceed n.what good refused next a ≡ next a.0)
  unfolding proceed failed
  proceed-success good refused next (w, none) s = cc
  proceed-success good refused next (w, some response) s = elim (Bool-cases (good response)) [
    | inl accepted ↦ ((λ e. cc), ground arith)
    | inr other ↦ absurd (ground arith)
  ]

  -- A command in front of a part.
  ask-Sends :
      (good : Text → Bool) (refused command : Text) (next : W → W × DeliveryResult)
      (texts : List Text)
      → Sends log next texts
      → Sends log
          (λ w. proceed n.what good refused next (ask n hostname w command))
          ((command ++ crlf) ∷ texts)
  ask-Sends good refused command next texts h w s =
      let a = ask n hostname w command in
      let (answered, on) = proceed-success good refused next a s in
      let there : (next a.0).1.success ≡ true =
        sym (ap (λ (p : W × DeliveryResult). p.1.success) on) ∙ s in
      ap (λ (p : W × DeliveryResult). log p.0) on
      ∙ h a.0 there
      ∙ rw (ask-log w command answered) (append_assoc (log w) _ texts)

  log-send_lines :
      (lines : List Text) (w : W)
      → (send_lines n hostname lines w).1 ≡ true
      → log (send_lines n hostname lines w).0 ≡ log w ++ ended lines
  unfolding send_lines
  log-send_lines [] w sent = sym (append-nil (log w))
  log-send_lines (line ∷ rest) w sent = elim (Bool-cases (n.write w (line ++ crlf)).1) [
    | inl written ↦
        let w1 = (n.write w (line ++ crlf)).0 in
        rw (written, send_lines)
          (log-send_lines rest w1 (ground arith)
            ∙ rw (records.write w (line ++ crlf) written)
                (append_assoc (log w) ((line ++ crlf) ∷ []) (ended rest)))
    | inr lost ↦ absurd (ground arith)
  ]

  say_quit-Sends : Sends log (say_quit n hostname) (ended (codes "QUIT" ∷ []))
  unfolding say_quit
  say_quit-Sends =
      ask-Sends (λ response. true) [] (codes "QUIT") (λ w. (w, delivered)) []
        (λ w s. sym (append-nil (log w)))

  -- The end of the content and QUIT.
  abbrev end_content : W → W × DeliveryResult
  end_content w =
      proceed n.what (λ response. expect_code response 250) (codes "Message rejected: ")
        (say_quit n hostname) (ask n hostname w (codes "."))

  end_content-Sends : Sends log end_content (ended (codes "." ∷ codes "QUIT" ∷ []))
  end_content-Sends =
      ask-Sends (λ response. expect_code response 250) (codes "Message rejected: ") (codes ".")
        (say_quit n hostname) (ended (codes "QUIT" ∷ [])) say_quit-Sends

  say_content-Sends :
      (content : Text)
      → Sends log
          (say_content n hostname content)
          (ended (message_lines content) ++ ended (codes "." ∷ codes "QUIT" ∷ []))
  unfolding say_content failed
  say_content-Sends content w s =
      elim (Bool-cases (send_lines n hostname (message_lines content) w).1) [
        | inl sent ↦
            let w1 = (send_lines n hostname (message_lines content) w).0 in
            let succeeds : (end_content w1).1.success ≡ true = ground arith in
            rw (sent, say_content)
              (end_content-Sends w1 succeeds
                ∙ rw (log-send_lines (message_lines content) w sent)
                    (append_assoc (log w) (ended (message_lines content)) _))
        | inr lost ↦ absurd (ground arith)
      ]

  say_data-Sends :
      (content : Text)
      → Sends log (say_data n hostname content) (
          (codes "DATA" ++ crlf)
          ∷ (ended (message_lines content) ++ ended (codes "." ∷ codes "QUIT" ∷ [])))
  unfolding say_data
  say_data-Sends content =
      ask-Sends (λ response. expect_code response 354) (codes "DATA rejected: ") (codes "DATA")
        (say_content n hostname content) _ (say_content-Sends content)

  say_recipient-Sends :
      (recipient content : Text)
      → Sends log (say_recipient n hostname recipient content) (
          ((codes "RCPT TO:<" ++ (recipient ++ codes ">")) ++ crlf)
          ∷ (codes "DATA" ++ crlf)
          ∷ (ended (message_lines content) ++ ended (codes "." ∷ codes "QUIT" ∷ [])))
  unfolding say_recipient
  say_recipient-Sends recipient content =
      ask-Sends (λ response. expect_code response 250 || expect_code response 251)
        (codes "RCPT TO rejected: ") (codes "RCPT TO:<" ++ (recipient ++ codes ">"))
        (say_data n hostname content) _ (say_data-Sends content)

  say_sender-Sends :
      (sender recipient content : Text)
      → Sends log
          (say_sender n hostname sender recipient content)
          (ended (transaction sender recipient content))
  unfolding say_sender
  say_sender-Sends sender recipient content =
      rw (map-append (λ line. line ++ crlf) (message_lines content) (codes "." ∷ codes "QUIT" ∷ []))
        (ask-Sends (λ response. expect_code response 250) (codes "MAIL FROM rejected: ")
          (codes "MAIL FROM:<" ++ (sender ++ codes ">"))
          (say_recipient n hostname recipient content) _ (say_recipient-Sends recipient content))

  say_helo-Sends :
      (sender recipient content : Text)
      → Sends log
          (say_helo n hostname sender recipient content)
          (((codes "HELO " ++ hostname) ++ crlf) ∷ ended (transaction sender recipient content))
  unfolding say_helo
  say_helo-Sends sender recipient content =
      ask-Sends (λ response. expect_code response 250) (codes "HELO rejected: ")
        (codes "HELO " ++ hostname) (say_sender n hostname sender recipient content) _
        (say_sender-Sends sender recipient content)

  greet-success :
      (sender recipient content : Text) (a : W × Option Text)
      → (greet n hostname sender recipient content a).1.success ≡ true
      → (a.1 ≢ none)
        × ((refuses a.1 ≡ false)
              × (greet n hostname sender recipient content a
                  ≡ say_sender n hostname sender recipient content a.0)
            ⊎ (refuses a.1 ≡ true)
              × (greet n hostname sender recipient content a
                  ≡ say_helo n hostname sender recipient content a.0))
  unfolding greet failed
  greet-success sender recipient content (w, none) s = cc
  greet-success sender recipient content (w, some response) s = (
    (λ e. cc),
    elim (Bool-cases (expect_code response 250)) [
      | inl accepted ↦ inl (ground (arith, accepted), rw (accepted, greet) refl)
      | inr other ↦ inr (ground (arith, other), rw (other, greet) refl)
    ],
  )

  -- The reply to EHLO.
  abbrev pub ehlo_reply : W → Option Text
  ehlo_reply w = (ask n hostname w (codes "EHLO " ++ hostname)).1

  abbrev Greeted : Text → Text → Text → W → W × DeliveryResult → Type 0
  Greeted sender recipient content w r =
      log r.0
      ≡ log w
        ++ ended
            (greeting hostname (refuses (ehlo_reply w)) ++ transaction sender recipient content)

  say_hello-Greeted :
      (sender recipient content : Text) (w : W)
      → (say_hello n hostname sender recipient content w).1.success ≡ true
      → Greeted sender recipient content w (say_hello n hostname sender recipient content w)
  unfolding say_hello
  say_hello-Greeted sender recipient content w s =
      let a = ask n hostname w (codes "EHLO " ++ hostname) in
      let (answered, ways) = greet-success sender recipient content a s in
      let said = ask-log w (codes "EHLO " ++ hostname) answered in
      let joined = λ (texts : List Text).
        append_assoc (log w) (((codes "EHLO " ++ hostname) ++ crlf) ∷ []) texts in
      elim ways [
        | inl (taken, on) ↦ rw taken (
            ap (λ (p : W × DeliveryResult). log p.0) on
            ∙ say_sender-Sends sender recipient content a.0
                (sym (ap (λ (p : W × DeliveryResult). p.1.success) on) ∙ s)
            ∙ rw said (joined _))
        | inr (refused, on) ↦ rw refused (
            ap (λ (p : W × DeliveryResult). log p.0) on
            ∙ say_helo-Sends sender recipient content a.0
                (sym (ap (λ (p : W × DeliveryResult). p.1.success) on) ∙ s)
            ∙ rw said (joined _))
      ]

  -- A delivery that succeeds has sent the whole dialogue, in this order: EHLO, HELO behind it
  -- exactly where the reply to EHLO refuses it, sender, recipient, DATA, the lines of the content, the dot and QUIT.
  pub send_to_server-log :
      (w : W) (server : Text) (port : ℕ) (sender recipient content : Text)
      → (send_to_server n hostname w server port sender recipient content).1.success ≡ true
      → let again = refuses (ehlo_reply (n.receive (n.connect w server port).0).0) in
        log (send_to_server n hostname w server port sender recipient content).0
        ≡ log w ++ ended (greeting hostname again ++ transaction sender recipient content)
  unfolding send_to_server failed
  send_to_server-log w server port sender recipient content s =
      let w1 = (n.connect w server port).0 in
      let got = n.receive w1 in
      let a : W × Option Text = (got.0, response_from [] got.1) in
      elim (Bool-cases (n.connect w server port).1) [
        | inl connected ↦
            let succeeds : (proceed n.what (λ response. expect_code response 220)
                  (codes "Server rejected connection: ")
                  (say_hello n hostname sender recipient content) a).1.success
                ≡ true =
              ground arith in
            let (answered, on) =
              proceed-success (λ response. expect_code response 220)
                (codes "Server rejected connection: ")
                (say_hello n hostname sender recipient content) a succeeds in
            let again = refuses (ehlo_reply got.0) in
            let said =
              say_hello-Greeted sender recipient content got.0
                (sym (ap (λ (p : W × DeliveryResult). p.1.success) on) ∙ succeeds) in
            rw (connected, send_to_server)
              (ap (λ (p : W × DeliveryResult). log p.0) on
                ∙ said
                ∙ ap
                    (λ l.
                      l ++ ended (greeting hostname again ++ transaction sender recipient content))
                    (records.receive w1 ∙ records.connect w server port))
        | inr lost ↦ absurd (ground arith)
      ]
