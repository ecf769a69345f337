-- ===== src/Agent/Commands/Augment/Cached.antt =====
-- What the augment handler answers from its cache.
use Prim.Native.String.{◌++◌ as concat}
use camblet.Base.{
  ◌≡◌, refl, ap, subst, ◌∙◌, Bool, true, List, [], ◌∷◌, Option, none, some, String, ◌==◌, arith,
  if◌then◌else◌, any,
}
use camblet.Base.Assoc.{Assoc, lookup, insert, lookup-insert}
use camblet.Base.Int.{ℤ, int32, uint32}
use camblet.Base.Result.{ok, ok_inj}
use camblet.Base.Fallible.{Fallible, value, fails}
use camblet.Agent.Messenger.{Command, unique_string}
use camblet.Agent.Commands.Augment.{
  TtlCache, Label, response_labels, augment, answer_from, remember,
}

-- Some label is written k.
abbrev pub names : String → Label → Bool
names k label = concat label.name (concat "=" label.value) == k

pub lookup-response_labels :
    (k : String) (m : Assoc Bool) (labels : List Label)
    → lookup k (response_labels m labels) ≡ (if any labels (names k) then some true else lookup k m)
unfolding response_labels
lookup-response_labels k m [] = refl
lookup-response_labels k m (label ∷ labels) =
    let text = concat label.name (concat "=" label.value) in
    ground
      (arith, lookup-response_labels k (insert text true m) labels, lookup-insert text k true m)

module _ {Store : Type 0} (cache : TtlCache Store)
    (get-set : (k js : String) (s : Store)
      → (cache.get k (cache.delete_expired (cache.set k js s))).0 ≡ some js)
    (get-get : (k js : String) (s : Store)
      → (cache.get k s).0 ≡ some js
      → (cache.get k (cache.delete_expired (cache.get k s).1)).0 ≡ some js) where
  answer_from-hit :
      (get_metadata : ℤ → List Label) (marshal : Assoc Bool → Fallible String) (cmd : Command)
      (js : String) (s : Store)
      → (cache.get (unique_string cmd.context) (cache.delete_expired s)).0 ≡ some js
      → (s' : Store) × (augment cache get_metadata marshal cmd s ≡ ok ((js, none), s'))
  unfolding augment
  answer_from-hit get_metadata marshal cmd js s h =
      go (cache.get (unique_string cmd.context) (cache.delete_expired s)) h
    where
      go :
          (found : Option String × Store)
          → found.0 ≡ some js
          → (s' : Store) × (ok (answer_from cache get_metadata marshal cmd.context found)
              ≡ ok ((js, none), s'))
      go (none, s1) h' = cc
      go (some v, s1) h' = (s1, cc)

  -- While its cache expires nothing in between, the augment handler answers a command like the one
  -- before it with the same unique string, whatever the collector gives by then.
  pub augment-cached :
      (before later : ℤ → List Label) (marshal : Assoc Bool → Fallible String) (cmd again : Command)
      (js : String) (s s' : Store)
      → unique_string again.context ≡ unique_string cmd.context
      → augment cache before marshal cmd s ≡ ok ((js, none), s')
      → (s'' : Store) × (augment cache later marshal again s' ≡ ok ((js, none), s''))
  unfolding augment
  augment-cached before later marshal cmd again js s s' same h =
      answer_from-hit later marshal again js s'
        (rw same (kept (cache.get k (cache.delete_expired s)) refl h))
    where
      k : String
      k = unique_string cmd.context

      FindsIn : Store → Type 0
      FindsIn x = (cache.get k (cache.delete_expired x)).0 ≡ some js

      set_if :
          (f : Fallible String) (s1 : Store)
          → remember cache before marshal cmd.context f s1 ≡ ((js, none), s')
          → FindsIn s'
      set_if (value j) s1 r =
          subst FindsIn (ap (λ x. x.1) r) (get-set k j s1 ∙ ap (λ x. some x.0.0) r)
      set_if (fails e) s1 r = cc

      kept :
          (found : Option String × Store)
          → cache.get k (cache.delete_expired s) ≡ found
          → ok (answer_from cache before marshal cmd.context found) ≡ ok ((js, none), s')
          → FindsIn s'
      kept (some v, s1) e h' =
          let r = ok_inj ((v, none), s1) ((js, none), s') h' in
          subst FindsIn (ap (λ x. x.1) e ∙ ap (λ x. x.1) r)
            (get-get k js (cache.delete_expired s) (ap (λ x. x.0) e ∙ ap (λ x. some x.0.0) r))
      kept (none, s1) e h' =
          let f = marshal (response_labels [] (before (int32 (uint32 cmd.context.pid)))) in
          set_if f s1 (ok_inj (remember cache before marshal cmd.context f s1) ((js, none), s') h')
