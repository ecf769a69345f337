-- ===== src/Agent/Session/Drains.antt =====
-- A session in which every command is answered: the steps that are left, and how many they are.
use camblet.Base.{
  ℕ, zero, suc, ◌≤◌, ◌≡◌, refl, sym, ap, ap₂, ◌∙◌, subst, List, [], ◌∷◌, ◌++◌, All, length, Option,
  some, inl, inr, append-nil, arith, String,
}
use camblet.Base.Assoc.{lookup}
use camblet.Base.Result.{Error, ok, ◌>>=◌, bind-ok_then, ok_inj}
use camblet.Agent.Messenger.{Bytes, Message, Command, scan_lines}
use camblet.Agent.Commands.Dispatch.{Handler, handle_all}
use camblet.Agent.Session.{running, Session, Move, Parts, start, step, run}
use camblet.Agent.Session.Written.{answers_in, answers_in-none, frames, Decodes}
use camblet.Agent.Session.Refines.{Refines, session-Refines}
use camblet.Agent.Session.Advances.{load, IsQuiet, Advances, advance}

module _ {S : Type 0} (parts : Parts S) where
  open parts use {json, formats, slice_stable, trust_domain, handlers, bus}
  open bus use {Topic, deliver, pending, pending-publish, deliver-some, deliver-none}

  run-append :
      (moves more : List Move) (a b c : Session Topic S)
      → run parts moves a ≡ ok b
      → run parts more b ≡ ok c
      → run parts (moves ++ more) a ≡ ok c
  unfolding run
  run-append [] more a b c h k = subst (λ x. run parts more x ≡ ok c) (sym (ok_inj a b h)) k
  run-append (move ∷ moves) more a b c h k =
      bind-ok_then (step parts move a) _ h
        λ d e rest. rw (e, run) (run-append moves more d b c rest k)

  -- All lines are handled then, and all answers written.
  quiet_answers :
      (lines : List Bytes) (s : S) (a : Session Topic S)
      → IsQuiet parts a
      → Refines parts lines s a
      → (sent : List Message) × (a.device ≡ some (frames sent))
        × (handle_all json handlers (scan_lines json lines).0 s ≡ ok (answers_in sent, a.state))
  unfolding scan_lines
  quiet_answers lines s a quiet r =
      let none_later : r.later ≡ [] =
        r.waiting ∙ ap₂ (λ ms ls. ms ++ (scan_lines json ls).0) quiet.incoming quiet.lines in
      let all_done : (scan_lines json lines).0 ≡ r.done =
        r.split ∙ ap (λ ms. r.done ++ ms) none_later ∙ append-nil r.done in
      let all_out : r.out ≡ answers_in r.sent =
        r.answered
        ∙ ap (λ ms. answers_in r.sent ++ answers_in ms) quiet.outgoing
        ∙ ap (λ ms. answers_in r.sent ++ ms) answers_in-none
        ∙ append-nil (answers_in r.sent) in
      (
        r.sent,
        r.written,
        ap (λ ms. handle_all json handlers ms s) all_done
            ∙ r.handled
            ∙ ap (λ ms. ok (ms, a.state)) all_out,
      )

  abbrev Drained : Session Topic S → Type 0
  Drained a =
      (more : List Move) × (length more ≤ load parts a)
      × (b : Session Topic S) × (run parts more a ≡ ok b)
      × (b.phase ≡ running)
      × IsQuiet parts b

  stay : (a : Session Topic S) → a.phase ≡ running → IsQuiet parts a → Drained a
  unfolding run
  stay a e quiet = ([], omega arith, a, refl, e, quiet)

  extend : (a : Session Topic S) (adv : Advances parts a) → Drained adv.b → Drained a
  unfolding run
  extend a adv (more, few, b, steps, runs, quiet) = (
    adv.move ∷ more,
    omega (arith, few, adv.lowers),
    b,
    ap (λ r. r >>= λ c. run parts more c) adv.steps ∙ steps,
    runs,
    quiet,
  )

  module _
      (handler_returns : (name : String) (handler : Handler S)
        → lookup name handlers ≡ some handler
        → (cmd : Command) (s : S)
        → (done : (String × Option Error) × S) × (handler cmd s ≡ ok done)) where
    drain :
        (fuel : ℕ) (a : Session Topic S)
        → load parts a ≤ fuel
        → a.phase ≡ running
        → All (Decodes json) a.lines
        → Drained a
    drain zero a bound e all =
        elim (advance parts handler_returns a.lines (deliver a.incoming) (deliver a.outgoing) a refl
          refl refl e all) [
            | inl quiet ↦ stay a e quiet
            | inr adv ↦ absurd (omega (arith, adv.lowers))
          ]
    drain (suc fuel) a bound e all =
        elim (advance parts handler_returns a.lines (deliver a.incoming) (deliver a.outgoing) a refl
          refl refl e all) [
            | inl quiet ↦ stay a e quiet
            | inr adv ↦
                extend a adv (drain fuel adv.b (omega (arith, adv.lowers)) adv.runs adv.decodes)
          ]

    -- While the device is open, and if the registered handlers return for every command: whatever
    -- steps were taken since the start, if the lines that are left are commands, then at most
    -- three steps for each of these lines, two for each message that waits to be handled and one
    -- for each that waits to be written lead to a state of the session in which the answers among
    -- the messages on the device are those of the subscription to the messages that the scanner
    -- makes of all lines, in their order.
    pub session-drains :
        (lines : List Bytes) (s : S) (moves : List Move) (a : Session Topic S)
        → run parts moves (start parts lines s) ≡ ok a
        → a.phase ≡ running
        → All (Decodes json) a.lines
        → (more : List Move) × (length more ≤ load parts a)
          × (b : Session Topic S) × (run parts more a ≡ ok b)
          × (sent : List Message) × (b.device ≡ some (frames sent))
          × (handle_all json handlers (scan_lines json lines).0 s ≡ ok (answers_in sent, b.state))
    session-drains lines s moves a h e all =
        let (more, few, b, steps, runs, quiet) = drain (load parts a) a (omega arith) e all in
        let (sent, written, answers) = quiet_answers lines s b quiet (
          session-Refines parts lines s (moves ++ more) b
            (run-append moves more (start parts lines s) a b h steps) runs) in
        (more, few, b, steps, sent, written, answers)
