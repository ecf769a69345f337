-- ===== src/Agent/Session/Follows.antt =====
-- What holds between the lines, the handled messages and the device; the scan keeps it.
use camblet.Base.{
  ◌≡◌, refl, sym, ap, ◌∙◌, subst, List, [], ◌∷◌, ◌++◌, All, All-append, map, Option, none, some,
  ◌⊎◌, inl, inr, append_assoc, map-append,
}
use camblet.Base.Result.{ok}
use camblet.Base.Fallible.{Fallible, value, fails}
use camblet.Agent.Messenger.{Bytes, Message, Command}
use camblet.Agent.Messenger.Scan.{message}
use camblet.Agent.Commands.Dispatch.{handle_all}
use camblet.Agent.Session.{
  Phase, starting, running, stopped, Session, Parts, start, open_device, publish_line, scan,
  end_scan,
}
use camblet.Agent.Session.Written.{answers_in, frames, Decodes}

-- What stands on the device: nothing before it is opened, then the messages that were sent.
abbrev pub OnDevice : Phase → List Bytes → List Message → Option Bytes → Type 0
OnDevice starting taken sent device = (taken ≡ []) × (sent ≡ []) × (device ≡ none)
OnDevice running taken sent device = device ≡ some (frames sent)
OnDevice stopped taken sent device = ⊥

module _ {S : Type 0} (parts : Parts S) (lines : List Bytes) (s0 : S) where
  open parts use {json, formats, slice_stable, trust_domain, handlers, bus}
  open bus use {
    Topic, fresh, publish, deliver, pending, pending-fresh, pending-publish, deliver-some,
  }

  -- The lines that were scanned, the messages of them that were handled, their answers, and the
  -- messages that were written.
  pub record Follows (a : Session Topic S) : Type 0 where
    pub taken : List Bytes
    pub done : List Message
    pub out : List Message
    pub sent : List Message
    pub split : lines ≡ taken ++ a.lines
    pub decodes : All (Decodes json) taken
    pub flow : map message taken ≡ done ++ pending a.incoming
    pub handled : handle_all json handlers done s0 ≡ ok (out, a.state)
    pub kept : answers_in (sent ++ pending a.outgoing) ≡ out
    pub shown : OnDevice a.phase taken sent a.device

  abbrev pub Invariant : Session Topic S → Type 0
  Invariant a = (a.phase ≡ stopped) ⊎ Follows a

  pub start-Follows : Follows (start parts lines s0)
  unfolding answers_in handle_all
  start-Follows = record {
    taken = [];
    done = [];
    out = [];
    sent = [];
    split = refl;
    decodes = tt;
    flow = sym pending-fresh;
    handled = refl;
    kept = ap answers_in pending-fresh;
    shown = (refl, refl, refl);
  }

  pub shown_at :
      (phase : Phase) (a : Session Topic S) (f : Follows a)
      → a.phase ≡ phase
      → OnDevice phase f.taken f.sent a.device
  shown_at phase a f e = subst (λ p. OnDevice p f.taken f.sent a.device) e f.shown

  pub open_device-Invariant :
      (phase : Phase) (a : Session Topic S)
      → a.phase ≡ phase
      → Follows a
      → Invariant (open_device parts phase a)
  unfolding frames
  open_device-Invariant running a e f = inr f
  open_device-Invariant stopped a e f = inr f
  open_device-Invariant starting a e f =
      let (none_taken, none_sent, closed) = shown_at starting a f e in
      inr (record {
        taken = f.taken;
        done = f.done;
        out = f.out;
        sent = f.sent;
        split = f.split;
        decodes = f.decodes;
        flow = f.flow;
        handled = f.handled;
        kept = f.kept;
        shown = ap (λ ms. some (frames ms)) (sym none_sent);
      })

  publish_line-Invariant :
      (line : Bytes) (rest : List Bytes) (decoded : Fallible Command) (a : Session Topic S)
      → json.unmarshal_command line ≡ decoded
      → a.phase ≡ running
      → a.lines ≡ line ∷ rest
      → Follows a
      → Invariant (publish_line parts line rest decoded a)
  publish_line-Invariant line rest (fails m) a d e l f = inl refl
  publish_line-Invariant line rest (value cmd) a d e l f = inr (record {
    taken = f.taken ++ line ∷ [];
    done = f.done;
    out = f.out;
    sent = f.sent;
    split = f.split ∙ ap (λ r. f.taken ++ r) l ∙ sym (append_assoc f.taken (line ∷ []) rest);
    decodes = All-append (Decodes json) f.taken (line ∷ []) f.decodes ((cmd, d), tt);
    flow =
        map-append message f.taken (line ∷ [])
        ∙ ap (λ ms. ms ++ message line ∷ []) f.flow
        ∙ append_assoc f.done (pending a.incoming) (message line ∷ [])
        ∙ ap (λ ms. f.done ++ ms) (sym (pending-publish (message line) a.incoming));
    handled = f.handled;
    kept = f.kept;
    shown =
        subst (λ p. OnDevice p (f.taken ++ line ∷ []) f.sent a.device) (sym e)
          (shown_at running a f e);
  })

  pub scan-Invariant :
      (phase : Phase) (ls : List Bytes) (a : Session Topic S)
      → a.phase ≡ phase
      → a.lines ≡ ls
      → Follows a
      → Invariant (scan parts phase ls a)
  unfolding scan
  scan-Invariant starting ls a e l f = inr f
  scan-Invariant stopped ls a e l f = inr f
  scan-Invariant running [] a e l f = inr f
  scan-Invariant running (line ∷ rest) a e l f =
      publish_line-Invariant line rest (json.unmarshal_command line) a refl e l f

  pub end_scan-Invariant :
      (phase : Phase) (ls : List Bytes) (a : Session Topic S)
      → Follows a
      → Invariant (end_scan parts phase ls a)
  unfolding end_scan
  end_scan-Invariant starting ls a f = inr f
  end_scan-Invariant stopped ls a f = inr f
  end_scan-Invariant running [] a f = inl refl
  end_scan-Invariant running (line ∷ rest) a f = inr f
