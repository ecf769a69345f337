-- ===== src/Agent/Session/Advances.antt =====
-- Each step that a session still has to take brings it closer to its end.
use camblet.Base.{
  ℕ, ◌+◌, ◌*◌, ◌≤◌, ◌<◌, ◌≡◌, refl, ap, ◌∙◌, subst, true, false, Bool, List, [], ◌∷◌, All, length,
  length-append, Option, none, some, ◌⊎◌, inl, inr, arith, String, Option-cases, if◌then◌else◌,
}
use camblet.Base.Assoc.{lookup}
use camblet.Base.Result.{Error, ok, ◌>>=◌}
use camblet.Base.Fallible.{Fallible, value, fails}
use camblet.Agent.Bus.{publish_all, pending-publish_all}
use camblet.Agent.Messenger.{Bytes, Message, Command, get_command}
use camblet.Agent.Messenger.Scan.{message}
use camblet.Agent.Commands.Dispatch.{Handler, handle_command, reply, publish, answer_of}
use camblet.Agent.Session.{
  running, Session, Move, scans, handles, writes, Parts, publish_line, scan, handle_next,
  write_next, step,
}
use camblet.Agent.Session.Written.{Decodes}

module _ {S : Type 0} (parts : Parts S) where
  open parts use {json, formats, slice_stable, trust_domain, handlers, bus}
  open bus use {Topic, deliver, pending, pending-publish, deliver-some, deliver-none}

  -- An upper bound for the steps that are left: a line is scanned, handled and answered.
  abbrev pub load : Session Topic S → ℕ
  load a = 3 * length a.lines + 2 * length (pending a.incoming) + length (pending a.outgoing)

  -- Nothing is left to do.
  pub record IsQuiet (a : Session Topic S) : Type 0 where
    pub lines : a.lines ≡ []
    pub incoming : pending a.incoming ≡ []
    pub outgoing : pending a.outgoing ≡ []

  -- A step that brings the session closer to its end.
  pub record Advances (a : Session Topic S) : Type 0 where
    pub move : Move
    pub b : Session Topic S
    pub steps : step parts move a ≡ ok b
    pub runs : b.phase ≡ running
    pub decodes : All (Decodes json) b.lines
    pub lowers : load b < load a

  length-reply :
      (cmd : Command) (result : String × Option Error) → length (reply json handlers cmd result) ≤ 1
  length-reply cmd result = go cmd.is_message (json.marshal_answer (answer_of cmd result))
    where
      go : (b : Bool) (j : Fallible Bytes) → length (if b then [] else publish json handlers j) ≤ 1
      go true j = omega arith
      go false (value j) = omega arith
      go false (fails e) = omega arith

  scan-Advances :
      (line : Bytes) (rest : List Bytes) (a : Session Topic S)
      → a.lines ≡ line ∷ rest
      → a.phase ≡ running
      → All (Decodes json) (line ∷ rest)
      → Advances a
  unfolding step scan
  scan-Advances line rest a l e ((cmd, d), all) = record {
    move = scans;
    b = publish_line parts line rest (value cmd) a;
    steps =
        ap (λ p. ok (scan parts p a.lines a)) e
        ∙ ap (λ ls. ok (scan parts running ls a)) l
        ∙ ap (λ decoded. ok (publish_line parts line rest decoded a)) d;
    runs = e;
    decodes = all;
    lowers = omega (
      arith,
      ap length l,
      ap length (pending-publish (message line) a.incoming)
          ∙ length-append (pending a.incoming) (message line ∷ []),
    );
  }

  write-Advances :
      (msg : Message) (rest : Topic) (a : Session Topic S)
      → deliver a.outgoing ≡ some (msg, rest)
      → a.phase ≡ running
      → All (Decodes json) a.lines
      → Advances a
  unfolding step
  write-Advances msg rest a d e all = record {
    move = writes;
    b = write_next parts (some (msg, rest)) a;
    steps = ap (λ o. ok (write_next parts o a)) d;
    runs = e;
    decodes = all;
    lowers = omega (arith, ap length (deliver-some a.outgoing msg rest d));
  }

  module _
      (handler_returns : (name : String) (handler : Handler S)
        → lookup name handlers ≡ some handler
        → (cmd : Command) (s : S)
        → (done : (String × Option Error) × S) × (handler cmd s ≡ ok done)) where
    handle_command-returns :
        (msg : Message) (s : S)
        → (out : List Message) × (t : S) × (handle_command json handlers msg s ≡ ok (out, t))
          × (length out ≤ 1)
    unfolding handle_command
    handle_command-returns msg s = go (get_command json msg) refl
      where
        go :
            (decoded : Fallible Command)
            → get_command json msg ≡ decoded
            → (out : List Message) × (t : S) × (handle_command json handlers msg s ≡ ok (out, t))
              × (length out ≤ 1)
        go (fails e) d = ([], s, rw (d, handle_command) refl, omega arith)
        go (value cmd) d = elim (Option-cases (lookup cmd.command handlers)) [
          | inl missing ↦ (
            reply json handlers cmd ("", some "invalid command"),
            s,
            rw (d, handle_command) (rw missing refl),
            length-reply cmd ("", some "invalid command"),
          )
          | inr (handler, found) ↦
              let (done, e) = handler_returns cmd.command handler found cmd s in
              (
                reply json handlers cmd done.0,
                done.1,
                rw (d, handle_command) (rw found (rw e refl)),
                length-reply cmd done.0,
              )
        ]

    handle-Advances :
        (msg : Message) (rest : Topic) (a : Session Topic S)
        → deliver a.incoming ≡ some (msg, rest)
        → a.phase ≡ running
        → All (Decodes json) a.lines
        → Advances a
    unfolding step
    handle-Advances msg rest a d e all =
        let (out, t, returns, few) = handle_command-returns msg a.state in
        record {
          move = handles;
          b = record a { incoming = rest; outgoing = publish_all bus out a.outgoing; state = t };
          steps =
              ap (λ o. handle_next parts o a) d
              ∙ ap
                  (λ r. r >>= λ done. ok (record a {
                    incoming = rest;
                    outgoing = publish_all bus done.0 a.outgoing;
                    state = done.1;
                  }))
                  returns;
          runs = e;
          decodes = all;
          lowers = omega (
            arith,
            few,
            ap length (deliver-some a.incoming msg rest d),
            ap length (pending-publish_all bus out a.outgoing)
                ∙ length-append (pending a.outgoing) out,
          );
        }

    pub advance :
        (ls : List Bytes) (incoming outgoing : Option (Message × Topic)) (a : Session Topic S)
        → a.lines ≡ ls
        → deliver a.incoming ≡ incoming
        → deliver a.outgoing ≡ outgoing
        → a.phase ≡ running
        → All (Decodes json) a.lines
        → IsQuiet a ⊎ Advances a
    advance (line ∷ rest) incoming outgoing a l i o e all =
        inr (scan-Advances line rest a l e (subst (All (Decodes json)) l all))
    advance [] (some (msg, rest)) outgoing a l i o e all = inr (handle-Advances msg rest a i e all)
    advance [] none (some (msg, rest)) a l i o e all = inr (write-Advances msg rest a o e all)
    advance [] none none a l i o e all = inl (record {
      lines = l;
      incoming = deliver-none a.incoming i;
      outgoing = deliver-none a.outgoing o;
    })
