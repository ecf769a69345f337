-- ===== src/Agent/Session/Refines.antt =====
-- What is written to the device in a session, for every schedule: the steps, and the theorem.
use camblet.Base.{
  ◌≡◌, refl, sym, ap, ◌∙◌, subst, List, [], ◌∷◌, ◌++◌, Option, none, some, inl, inr, append_assoc,
}
use camblet.Base.Result.{ok, bind-ok_then, ok_inj}
use camblet.Agent.Messenger.{Bytes, Message, scan_lines}
use camblet.Agent.Commands.Dispatch.{handle_command, handle_all}
use camblet.Agent.Session.{
  Phase, starting, running, stopped, Session, Move, opens, scans, handles, writes, ends, tells,
  Parts, start, open_device, scan, end_scan, handle_next, write_next, step, run,
}
use camblet.Agent.Session.Written.{answers_in, answers_in-append, frames, scan_lines-append}
use camblet.Agent.Session.Follows.{
  Follows, Invariant, start-Follows, shown_at, open_device-Invariant, scan-Invariant,
  end_scan-Invariant,
}
use camblet.Agent.Session.Delivers.{handle_next-Invariant, tell-Follows, write_next-Invariant}

module _ {S : Type 0} (parts : Parts S) (lines : List Bytes) (s0 : S) where
  open parts use {json, formats, slice_stable, trust_domain, handlers, bus}
  open bus use {
    Topic, fresh, publish, deliver, pending, pending-fresh, pending-publish, deliver-some,
  }

  step_from :
      (move : Move) (a b : Session Topic S)
      → step parts move a ≡ ok b
      → Follows parts lines s0 a
      → Invariant parts lines s0 b
  unfolding step
  step_from opens a b h f =
      subst (Invariant parts lines s0) (ok_inj _ b h)
        (open_device-Invariant parts lines s0 a.phase a refl f)
  step_from scans a b h f =
      subst (Invariant parts lines s0) (ok_inj _ b h)
        (scan-Invariant parts lines s0 a.phase a.lines a refl refl f)
  step_from ends a b h f =
      subst (Invariant parts lines s0) (ok_inj _ b h)
        (end_scan-Invariant parts lines s0 a.phase a.lines a f)
  step_from handles a b h f = handle_next-Invariant parts lines s0 (deliver a.incoming) a b refl h f
  step_from writes a b h f =
      subst (Invariant parts lines s0) (ok_inj _ b h)
        (write_next-Invariant parts lines s0 (deliver a.outgoing) a refl f)
  step_from (tells event) a b h f =
      subst (Invariant parts lines s0) (ok_inj _ b h) (inr (tell-Follows parts lines s0 event a f))

  open_device-stopped :
      (phase : Phase) (a : Session Topic S)
      → phase ≡ stopped
      → a.phase ≡ stopped
      → (open_device parts phase a).phase ≡ stopped
  open_device-stopped starting a same e = cc
  open_device-stopped running a same e = e
  open_device-stopped stopped a same e = e

  scan-stopped :
      (phase : Phase) (ls : List Bytes) (a : Session Topic S)
      → phase ≡ stopped
      → a.phase ≡ stopped
      → (scan parts phase ls a).phase ≡ stopped
  unfolding scan
  scan-stopped starting ls a same e = e
  scan-stopped running ls a same e = cc
  scan-stopped stopped ls a same e = e

  end_scan-stopped :
      (phase : Phase) (ls : List Bytes) (a : Session Topic S)
      → phase ≡ stopped
      → a.phase ≡ stopped
      → (end_scan parts phase ls a).phase ≡ stopped
  unfolding end_scan
  end_scan-stopped starting ls a same e = e
  end_scan-stopped running ls a same e = cc
  end_scan-stopped stopped ls a same e = e

  handle_next-stopped :
      (delivered : Option (Message × Topic)) (a b : Session Topic S)
      → handle_next parts delivered a ≡ ok b
      → a.phase ≡ stopped
      → b.phase ≡ stopped
  handle_next-stopped none a b h e = ap (λ x. x.phase) (sym (ok_inj a b h)) ∙ e
  handle_next-stopped (some (msg, rest)) a b h e =
      bind-ok_then (handle_command json handlers msg a.state) _ h
        λ done _ made. ap (λ x. x.phase) (sym (ok_inj _ b made)) ∙ e

  write_next-stopped :
      (delivered : Option (Message × Topic)) (a : Session Topic S)
      → a.phase ≡ stopped
      → (write_next parts delivered a).phase ≡ stopped
  write_next-stopped none a e = e
  write_next-stopped (some (msg, rest)) a e = e

  -- After the messenger stopped it stays so.
  step-stopped :
      (move : Move) (a b : Session Topic S)
      → step parts move a ≡ ok b
      → a.phase ≡ stopped
      → b.phase ≡ stopped
  unfolding step
  step-stopped opens a b h e =
      ap (λ x. x.phase) (sym (ok_inj _ b h)) ∙ open_device-stopped a.phase a e e
  step-stopped scans a b h e =
      ap (λ x. x.phase) (sym (ok_inj _ b h)) ∙ scan-stopped a.phase a.lines a e e
  step-stopped ends a b h e =
      ap (λ x. x.phase) (sym (ok_inj _ b h)) ∙ end_scan-stopped a.phase a.lines a e e
  step-stopped handles a b h e = handle_next-stopped (deliver a.incoming) a b h e
  step-stopped writes a b h e =
      ap (λ x. x.phase) (sym (ok_inj _ b h)) ∙ write_next-stopped (deliver a.outgoing) a e
  step-stopped (tells event) a b h e = ap (λ x. x.phase) (sym (ok_inj _ b h)) ∙ e

  run-Invariant :
      (moves : List Move) (a b : Session Topic S)
      → run parts moves a ≡ ok b
      → Invariant parts lines s0 a
      → Invariant parts lines s0 b
  unfolding run
  run-Invariant [] a b h i = subst (Invariant parts lines s0) (ok_inj a b h) i
  run-Invariant (move ∷ moves) a b h i = bind-ok_then (step parts move a) _ h λ c e later.
      run-Invariant moves c b later
        (elim i [ inl end ↦ inl (step-stopped move a c e end) | inr f ↦ step_from move a c e f ])

  -- What is true of a session at each of its moments.
  pub record Refines (a : Session Topic S) : Type 0 where
    pub done : List Message
    pub later : List Message
    pub out : List Message
    pub sent : List Message
    pub split : (scan_lines json lines).0 ≡ done ++ later
    pub handled : handle_all json handlers done s0 ≡ ok (out, a.state)
    pub written : a.device ≡ some (frames sent)
    pub answered : out ≡ answers_in sent ++ answers_in (pending a.outgoing)
    pub waiting : later ≡ pending a.incoming ++ (scan_lines json a.lines).0

  -- Whatever steps were taken since the start, while the device is open: the messages that the
  -- scanner makes of all lines are those that were handled and those that are still to come, first
  -- the ones that wait on the bus and then those of the lines that are left; the state is the one
  -- that the subscription leaves after the handled ones; and the answers that it gives for them
  -- are those among the messages on the device and then those that wait to be written, in order.
  pub session-Refines :
      (moves : List Move) (a : Session Topic S)
      → run parts moves (start parts lines s0) ≡ ok a
      → a.phase ≡ running
      → Refines a
  session-Refines moves a h e =
      elim (run-Invariant moves (start parts lines s0) a h (inr (start-Follows parts lines s0))) [
        | inl end ↦ let mixed : stopped ≡ running = sym end ∙ e in cc
        | inr f ↦ record {
          done = f.done;
          later = pending a.incoming ++ (scan_lines json a.lines).0;
          out = f.out;
          sent = f.sent;
          split =
              ap (λ ls. (scan_lines json ls).0) f.split
              ∙ scan_lines-append json f.taken a.lines f.decodes
              ∙ ap (λ ms. ms ++ (scan_lines json a.lines).0) f.flow
              ∙ append_assoc f.done (pending a.incoming) (scan_lines json a.lines).0;
          handled = f.handled;
          written = shown_at parts lines s0 running a f e;
          answered = sym f.kept ∙ answers_in-append f.sent (pending a.outgoing);
          waiting = refl;
        }
      ]
