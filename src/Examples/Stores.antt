-- ===== src/Examples/Stores.antt =====
-- Examples of the store.
use loti.Base.Key.{nat_key, bytes_key}
use loti.Base.Table.{lookup}
use loti.Store
use loti.Store.{Store, append_clock_event, prune_chain, update_clock_event}
use loti.Store.Lookups.{
  IsNumbered, Appended, append_clock_event-Appended, append_clock_event-IsNumbered,
}
use loti.Store.Pruning.{ChainPruned, prune_chain-ChainPruned}
use loti.Examples.{local, first_tick, second_tick, ticked_store}

empty-IsNumbered : IsNumbered Store.empty
unfolding lookup
empty-IsNumbered = record { live = λ q c h. cc; named = λ k q h. cc; tips = λ chain q h. cc }

append_clock_event-Appended_example :
    Appended
      (local second_tick)
      (append_clock_event (local first_tick) Store.empty).1
      (append_clock_event
        (local second_tick)
        (append_clock_event (local first_tick) Store.empty).1).1
append_clock_event-Appended_example =
    append_clock_event-Appended (local second_tick)
      (append_clock_event (local first_tick) Store.empty).1
      (append_clock_event-IsNumbered (local first_tick) Store.empty empty-IsNumbered)

prune_chain-ChainPruned_example :
    ChainPruned 0 1
      (append_clock_event (local second_tick) ticked_store).1
      (prune_chain 0 1 (append_clock_event (local second_tick) ticked_store).1)
prune_chain-ChainPruned_example =
    prune_chain-ChainPruned 0 1 (append_clock_event (local second_tick) ticked_store).1
