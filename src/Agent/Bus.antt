-- ===== src/Agent/Bus.antt =====
-- What the agent takes from werbenhu/eventbus for a topic that has one subscriber: a queue, whose
-- messages are delivered in the order in which they were published.
use camblet.Base.{◌≡◌, sym, ◌∙◌, List, [], ◌∷◌, ◌++◌, Option, none, some, append_assoc}
use mathlib.Core.List.{append-nil}

pub record Bus (M : Type 0) : Type 1 where
  pub Topic : Type 0
  -- A topic on which nothing was published.
  pub fresh : Topic
  pub publish : M → Topic → Topic
  -- The message that the subscriber gets, and what is left.
  pub deliver : Topic → Option (M × Topic)
  -- The messages that were published and not yet delivered.
  pub pending : Topic → List M
  pub pending-fresh : pending fresh ≡ []
  pub pending-publish : (m : M) (t : Topic) → pending (publish m t) ≡ pending t ++ m ∷ []
  pub deliver-some :
      (t : Topic) (m : M) (left : Topic) → deliver t ≡ some (m, left) → pending t ≡ m ∷ pending left
  pub deliver-none : (t : Topic) → deliver t ≡ none → pending t ≡ []

module _ {M : Type 0} (bus : Bus M) where
  open bus use {Topic, publish, pending, pending-publish}

  unfoldable pub publish_all : List M → Topic → Topic
  publish_all [] t = t
  publish_all (m ∷ ms) t = publish_all ms (publish m t)

  pub pending-publish_all : (ms : List M) (t : Topic) → pending (publish_all ms t) ≡ pending t ++ ms
  unfolding publish_all
  pending-publish_all [] t = sym (append-nil (pending t))
  pending-publish_all (m ∷ ms) t =
      pending-publish_all ms (publish m t)
      ∙ rw pending-publish (append_assoc (pending t) (m ∷ []) ms)
