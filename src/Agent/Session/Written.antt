-- ===== src/Agent/Session/Written.antt =====
-- Sequences of handled messages, and what they leave on the device.
use camblet.Base.{
  ◌≡◌, ◌≢◌, refl, sym, ap, ◌∙◌, subst, true, false, List, [], ◌∷◌, ◌++◌, All, map, Option, none,
  some, String, ◌==◌, if◌then◌else◌, append-nil, append_assoc, arith,
}
use camblet.Base.Assoc.{Assoc, lookup}
use camblet.Base.Result.{ok, bind-ok_then, ok_inj}
use camblet.Base.Fallible.{Fallible, value, fails}
use camblet.Agent.Messenger.{
  Bytes, Message, answer_message_type, Command, Json, get_command, scan_lines,
}
use camblet.Agent.Messenger.Scan.{message}
use camblet.Agent.Commands.Dispatch.{
  Handler, or_invalid, handle_command, handle_all, publish, reply,
}

-- The answers among messages.
unfoldable pub answers_in : List Message → List Message
answers_in [] = []
answers_in (msg ∷ msgs) =
    let rest = answers_in msgs in if msg.type == answer_message_type then msg ∷ rest else rest

-- The bytes of messages on the device.
unfoldable pub frames : List Message → Bytes
frames [] = []
frames (msg ∷ msgs) = (msg.content ++ b'\n' ∷ []) ++ frames msgs

pub answers_in-none : answers_in [] ≡ []
unfolding answers_in
answers_in-none = refl

pub answers_in-append :
    (xs ys : List Message) → answers_in (xs ++ ys) ≡ answers_in xs ++ answers_in ys
unfolding answers_in
answers_in-append [] ys = refl
answers_in-append (x ∷ xs) ys = ground (arith, answers_in-append xs ys)

pub frames-append :
    (xs : List Message) (y : Message)
    → frames (xs ++ y ∷ []) ≡ frames xs ++ (y.content ++ b'\n' ∷ [])
unfolding frames
frames-append [] y = append-nil _
frames-append (x ∷ xs) y =
    ap (λ r. (x.content ++ b'\n' ∷ []) ++ r) (frames-append xs y)
    ∙ sym (append_assoc (x.content ++ b'\n' ∷ []) (frames xs) (y.content ++ b'\n' ∷ []))

module _ {S : Type 0} (json : Json) (handlers : Assoc (Handler S)) where
  answers_in-publish :
      (j : Fallible Bytes) → answers_in (publish json handlers j) ≡ publish json handlers j
  unfolding answers_in
  answers_in-publish (value j) = refl
  answers_in-publish (fails e) = refl

  answers_in-reply :
      (cmd : Command) (result : String × Option String)
      → answers_in (reply json handlers cmd result) ≡ reply json handlers cmd result
  answers_in-reply cmd result = go cmd.is_message
    where
      go :
          (b : camblet.Base.Bool)
          → answers_in (
              if b
              then []
              else publish json handlers
                  (json.marshal_answer (camblet.Agent.Commands.Dispatch.answer_of cmd result)))
            ≡ (if b
                then []
                else publish json handlers
                    (json.marshal_answer (camblet.Agent.Commands.Dispatch.answer_of cmd result)))
      go true = answers_in-none
      go false = answers_in-publish _

  -- All that the commander publishes are answers.
  pub answers_in-handle_command :
      (msg : Message) (s t : S) (out : List Message)
      → handle_command json handlers msg s ≡ ok (out, t)
      → answers_in out ≡ out
  unfolding handle_command
  answers_in-handle_command msg s t out h = go (get_command json msg) refl
    where
      go : (decoded : Fallible Command) → get_command json msg ≡ decoded → answers_in out ≡ out
      go (fails e) d =
          let nothing : ok ([], s) ≡ ok (out, t) = rw (d, handle_command) at h in
          subst (λ o. answers_in o ≡ o) (ap (λ p. p.0) (ok_inj ([], s) (out, t) nothing))
            answers_in-none
      go (value cmd) d =
          bind-ok_then (or_invalid (lookup cmd.command handlers) cmd s) _
            (rw (d, handle_command) at h)
            λ done e replies.
              subst (λ o. answers_in o ≡ o) (ap (λ p. p.0) (ok_inj _ _ replies))
                (answers_in-reply cmd done.0)

  handle_all-cons :
      (msg : Message) (msgs : List Message) (s t u : S) (out more : List Message)
      → handle_command json handlers msg s ≡ ok (out, t)
      → handle_all json handlers msgs t ≡ ok (more, u)
      → handle_all json handlers (msg ∷ msgs) s ≡ ok (out ++ more, u)
  unfolding handle_all
  handle_all-cons msg msgs s t u out more h k = rw (h, handle_command) (rw k refl)

  pub handle_all-append :
      (msgs : List Message) (msg : Message) (s t u : S) (out more : List Message)
      → handle_all json handlers msgs s ≡ ok (out, t)
      → handle_command json handlers msg t ≡ ok (more, u)
      → handle_all json handlers (msgs ++ msg ∷ []) s ≡ ok (out ++ more, u)
  unfolding handle_all
  handle_all-append [] msg s t u out more h k =
      let same = ok_inj ([], s) (out, t) h in
      handle_all-cons msg [] s u u more []
        (subst (λ x. handle_command json handlers msg x ≡ ok (more, u)) (sym (ap (λ p. p.1) same))
          k)
        refl
      ∙ ap (λ o. ok (o, u)) (append-nil more ∙ ap (λ o. o ++ more) (ap (λ p. p.0) same))
  handle_all-append (first ∷ msgs) msg s t u out more h k =
      bind-ok_then (handle_command json handlers first s) _ h λ done e rest.
        bind-ok_then (handle_all json handlers msgs done.1) _ rest λ later e' all.
          let same = ok_inj (done.0 ++ later.0, later.1) (out, t) all in
          handle_all-cons first (msgs ++ msg ∷ []) s done.1 u done.0 (later.0 ++ more) e (
            handle_all-append msgs msg done.1 later.1 u later.0 more e' (
              subst (λ x. handle_command json handlers msg x ≡ ok (more, u))
                (sym (ap (λ p. p.1) same)) k))
          ∙ ap (λ o. ok (o, u))
              (sym (append_assoc done.0 later.0 more) ∙ ap (λ o. o ++ more) (ap (λ p. p.0) same))

module _ (json : Json) where
  abbrev pub Decodes : Bytes → Type 0
  Decodes line = (cmd : Command) × (json.unmarshal_command line ≡ value cmd)

  pub scan_lines-append :
      (taken rest : List Bytes)
      → All Decodes taken
      → (scan_lines json (taken ++ rest)).0 ≡ map message taken ++ (scan_lines json rest).0
  unfolding scan_lines
  scan_lines-append [] rest all = refl
  scan_lines-append (line ∷ taken) rest ((cmd, e), all) =
      rw (e, scan_lines) (ap (λ ms. message line ∷ ms) (scan_lines-append taken rest all))
