-- ===== src/Cache/Publisher/Answers.antt =====
-- cache/publisher.py: what `publish_many` answers, for which keys, and why it raises.
use coalestra.Prelude.{◌≡◌}
use coalestra.Core.Keys.{ResourceKey}
use coalestra.Cache.State.{Cache}
use coalestra.Cache.Update.{Selection}
use coalestra.Cache.Publisher.{Publisher}
use coalestra.Cache.Publisher.Results.{has}

module _ {A : Type 0} (p : Publisher A) where
  -- The selection has an update for each key that has a precedence.
  Paired : Selection A → Type 0
  Paired s = (q : ResourceKey) → has q s.effective_precedence ≡ has q s.unique_updates
