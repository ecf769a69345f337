-- ===== src/Agent/Session/Delivers.antt =====
-- The topics deliver: what a message does to the device.
use camblet.Base.{
  ◌≡◌, refl, sym, ap, ◌∙◌, subst, ap₂, List, [], ◌∷◌, ◌++◌, map, Option, none, some, inr,
  append-nil, append_assoc, arith,
}
use camblet.Base.Result.{ok, bind-ok_then, ok_inj}
use camblet.Agent.Bus.{publish_all, pending-publish_all}
use camblet.Agent.Messenger.{Json, new_command, Bytes, Message, Command, write_outgoing}
use camblet.Agent.Messenger.Scan.{message}
use camblet.Agent.Commands.Dispatch.{handle_command, handle_all}
use camblet.Agent.Kernel.{KernelEvent, kernel_messages}
use camblet.Agent.Session.{
  Phase, starting, running, stopped, Session, Parts, handle_next, write_next,
}
use camblet.Agent.Session.Written.{
  answers_in, answers_in-append, answers_in-handle_command, frames, frames-append,
  handle_all-append,
}
use camblet.Agent.Session.Follows.{OnDevice, Follows, Invariant, shown_at}

-- The commands of the kernel are no answers.
answers_in-commands :
    (json : Json) (cmds : List Command) → answers_in (map (new_command json) cmds) ≡ []
unfolding answers_in new_command
answers_in-commands json [] = refl
answers_in-commands json (cmd ∷ cmds) = answers_in-commands json cmds

front_nil {ℓ} : {A : Type ℓ} (xs ys : List A) → [] ≡ xs ++ ys → xs ≡ []
front_nil [] ys h = refl
front_nil (x ∷ xs) ys h = cc

answers_in-drop :
    (sent : List Message) (msg : Message) (rest : List Message)
    → sent ≡ []
    → answers_in (sent ++ msg ∷ rest) ≡ []
    → answers_in (sent ++ rest) ≡ []
unfolding answers_in
answers_in-drop [] msg rest e h = ground arith
answers_in-drop (m ∷ sent) msg rest e h = cc

written-frames :
    (json : Json) (sent : List Message) (msg : Message)
    → write_outgoing json (some (frames sent)) msg ≡ some (frames (sent ++ msg ∷ []))
unfolding write_outgoing
written-frames json sent msg = ap some (sym (frames-append sent msg))

written-none : (json : Json) (msg : Message) → write_outgoing json none msg ≡ none
unfolding write_outgoing
written-none json msg = refl

module _ {S : Type 0} (parts : Parts S) (lines : List Bytes) (s0 : S) where
  open parts use {json, formats, slice_stable, trust_domain, handlers, bus}
  open bus use {
    Topic, fresh, publish, deliver, pending, pending-fresh, pending-publish, deliver-some,
  }

  -- More messages on the outgoing topic.
  kept-publish_all :
      (sent : List Message) (t : Topic) (out more answers : List Message)
      → answers_in (sent ++ pending t) ≡ out
      → answers_in more ≡ answers
      → answers_in (sent ++ pending (publish_all bus more t)) ≡ out ++ answers
  kept-publish_all sent t out more answers kept of_more =
      ap (λ r. answers_in (sent ++ r)) (pending-publish_all bus more t)
      ∙ ap answers_in (sym (append_assoc sent (pending t) more))
      ∙ answers_in-append (sent ++ pending t) more
      ∙ ap₂ ◌++◌ kept of_more

  pub handle_next-Invariant :
      (delivered : Option (Message × Topic)) (a b : Session Topic S)
      → deliver a.incoming ≡ delivered
      → handle_next parts delivered a ≡ ok b
      → Follows parts lines s0 a
      → Invariant parts lines s0 b
  handle_next-Invariant none a b d h f = subst (Invariant parts lines s0) (ok_inj a b h) (inr f)
  handle_next-Invariant (some (msg, rest)) a b d h f =
      bind-ok_then (handle_command json handlers msg a.state) _ h λ done e made.
        subst (Invariant parts lines s0) (ok_inj _ b made) (
          inr (record {
            taken = f.taken;
            done = f.done ++ msg ∷ [];
            out = f.out ++ done.0;
            sent = f.sent;
            split = f.split;
            decodes = f.decodes;
            flow =
                f.flow
                ∙ ap (λ ms. f.done ++ ms) (deliver-some a.incoming msg rest d)
                ∙ sym (append_assoc f.done (msg ∷ []) (pending rest));
            handled =
                handle_all-append json handlers f.done msg s0 a.state done.1 f.out done.0 f.handled
                  e;
            kept =
                kept-publish_all f.sent a.outgoing f.out done.0 done.0 f.kept
                  (answers_in-handle_command json handlers msg a.state done.1 done.0 e);
            shown = f.shown;
          }))

  pub tell-Follows :
      (event : KernelEvent) (a : Session Topic S)
      → Follows parts lines s0 a
      → Follows parts lines s0 (record a {
        outgoing =
            publish_all bus
              (kernel_messages json formats slice_stable trust_domain event)
              a.outgoing;
      })
  unfolding kernel_messages
  tell-Follows event a f = record {
    taken = f.taken;
    done = f.done;
    out = f.out;
    sent = f.sent;
    split = f.split;
    decodes = f.decodes;
    flow = f.flow;
    handled = f.handled;
    kept =
        kept-publish_all f.sent a.outgoing f.out _ [] f.kept (answers_in-commands json _)
        ∙ append-nil f.out;
    shown = f.shown;
  }

  -- Before the device is opened no message is handled.
  nothing_out : (a : Session Topic S) (f : Follows parts lines s0 a) → f.taken ≡ [] → f.out ≡ []
  unfolding handle_all
  nothing_out a f none_taken =
      let no_message =
        front_nil f.done (pending a.incoming) (ap (map message) (sym none_taken) ∙ f.flow) in
      let run_nothing : ok ([], s0) ≡ ok (f.out, a.state) =
        ap (λ ms. handle_all json handlers ms s0) (sym no_message) ∙ f.handled in
      ap (λ p. p.0) (sym (ok_inj ([], s0) (f.out, a.state) run_nothing))

  write_next-Follows :
      (phase : Phase) (msg : Message) (rest : Topic) (a : Session Topic S)
      → deliver a.outgoing ≡ some (msg, rest)
      → a.phase ≡ phase
      → Follows parts lines s0 a
      → Follows parts lines s0 (write_next parts (some (msg, rest)) a)
  write_next-Follows stopped msg rest a d e f = elim (shown_at parts lines s0 stopped a f e) [ ]
  write_next-Follows running msg rest a d e f = record {
    taken = f.taken;
    done = f.done;
    out = f.out;
    sent = f.sent ++ msg ∷ [];
    split = f.split;
    decodes = f.decodes;
    flow = f.flow;
    handled = f.handled;
    kept =
        ap answers_in (append_assoc f.sent (msg ∷ []) (pending rest))
        ∙ ap (λ ms. answers_in (f.sent ++ ms)) (sym (deliver-some a.outgoing msg rest d))
        ∙ f.kept;
    shown =
        subst (λ p. OnDevice p f.taken (f.sent ++ msg ∷ []) (write_outgoing json a.device msg))
          (sym e)
          (ap (λ o. write_outgoing json o msg) (shown_at parts lines s0 running a f e)
            ∙ written-frames json f.sent msg);
  }
  write_next-Follows starting msg rest a d e f = record {
    taken = f.taken;
    done = f.done;
    out = f.out;
    sent = f.sent;
    split = f.split;
    decodes = f.decodes;
    flow = f.flow;
    handled = f.handled;
    kept =
        let (none_taken, none_sent, closed) = shown_at parts lines s0 starting a f e in
        let none_out = nothing_out a f none_taken in
        answers_in-drop f.sent msg (pending rest) none_sent (
          ap (λ ms. answers_in (f.sent ++ ms)) (sym (deliver-some a.outgoing msg rest d))
          ∙ f.kept
          ∙ none_out)
        ∙ sym none_out;
    shown =
        let (none_taken, none_sent, closed) = shown_at parts lines s0 starting a f e in
        subst (λ p. OnDevice p f.taken f.sent (write_outgoing json a.device msg)) (sym e)
          (
            none_taken,
            none_sent,
            ap (λ o. write_outgoing json o msg) closed ∙ written-none json msg,
          );
  }

  pub write_next-Invariant :
      (delivered : Option (Message × Topic)) (a : Session Topic S)
      → deliver a.outgoing ≡ delivered
      → Follows parts lines s0 a
      → Invariant parts lines s0 (write_next parts delivered a)
  write_next-Invariant none a d f = inr f
  write_next-Invariant (some (msg, rest)) a d f =
      inr (write_next-Follows a.phase msg rest a d refl f)
