-- ===== src/Tests/SourceCatalog.antt =====
-- The catalog: a memo of one entry, and two keys.
use coalestra.Prelude.{
  ◌+◌, ◌≡◌, refl, Bool, true, false, some, List, [], ◌∷◌, String-discrete, length, arith,
}
use coalestra.Dict.{lookup, put, pop, to_end}
use coalestra.Core.Errors.{Result, ok}
use coalestra.Core.Keys.{ResourceKey-discrete}
use coalestra.Orchestration.SourceCatalog.{
  CacheKey, CacheKey-discrete, SourceCatalog, SupportCounts, source_catalog, supports,
}
use coalestra.Orchestration.SourceCatalog.Memo.{
  IsFaithful, Event, asks, run, answers_to, run-answers,
}
use coalestra.Tests.Cache.{account, prices}

program : Unit {0}
unfolding run supports lookup put pop to_end CacheKey-discrete String-discrete ResourceKey-discrete
    source_catalog
program = tt

abbrev rest_account : CacheKey
rest_account = record { source = "rest"; key = account }

abbrev rest_prices : CacheKey
rest_prices = record { source = "rest"; key = prices }

abbrev behaviour : CacheKey → Result Bool
behaviour k = elim (String-discrete k.key.namespace "account") [ yes _ ↦ ok true | no _ ↦ ok false ]

abbrev small : SourceCatalog
small = record { cache_supports = true; support_cache_max_entries = some 1; support_cache = [] }

abbrev uncounted : SupportCounts
uncounted = record { support_cache_hits = 0; support_cache_misses = 0 }

abbrev events : List Event
events =
    asks rest_account true
    ∷ asks rest_account true
    ∷ asks rest_prices true
    ∷ asks rest_account true
    ∷ []

built : source_catalog true (some 1) ≡ ok small
unfolding program
built = refl

-- the second question is a hit, and the third pushes its answer out
counts :
    (run behaviour small uncounted events).1
    ≡ record { support_cache_hits = 1; support_cache_misses = 3 }
unfolding program
counts = refl

small-IsFaithful : IsFaithful behaviour small
small-IsFaithful = record { answers = tt; bounded = omega arith }

run-answers_example :
    let (c', n', answers) = run behaviour small uncounted events in
    IsFaithful behaviour c'
    × (answers ≡ answers_to behaviour events)
    × (n'.support_cache_hits + n'.support_cache_misses
        ≡ 0 + 0 + length (answers_to behaviour events))
run-answers_example = run-answers behaviour events small uncounted small-IsFaithful
