-- ===== src/Examples/Lives.antt =====
-- A node that is built, ticks, publishes, meets a neighbor, and asks for the chain of an event.
use loti.Base.{refl, pos, [], ◌∷◌}
use loti.Store
use loti.Domain.{Event}
use loti.Node.Outcome.{Outcome, done, fault}
use loti.Node.State.{Node, app}
use loti.Base.Key.{bytes_eq}
use loti.Base.Table.{lookup, emplace, insert}
use loti.Node.Bookkeeping.{insert_chain_discovery}
use loti.Node.Dag.{publish_event, create_clock_event}
use loti.Node.Api.{discover_event_chain, on_clock_timer}
use loti.Node.Hydration.{make_node, add_neighbor}
use loti.Node.Completion.{CompletedSound}
use loti.Node.Reachable
use loti.Node.Reachable.{Reachable, Reachable-CompletedSound, built, after}
use loti.Examples.{toy_env, me, peer, far, config, one_to_ten, the_event, quiet}

abbrev node_of : Outcome Node → Node
node_of (done n) = n
node_of (fault x) = quiet

abbrev foreign : Event
foreign = record the_event { creator = far }

abbrev newborn : Node
newborn = node_of (make_node me config Store.empty (pos 7))

abbrev living : Node
living = on_clock_timer toy_env 0 (pos 10) (publish_event toy_env (7 ∷ []) newborn).1

abbrev asking : Node
asking =
    node_of (discover_event_chain toy_env foreign one_to_ten (app 1) (add_neighbor peer living))

Reachable-CompletedSound_example : CompletedSound toy_env asking
unfolding make_node Store.event_count discover_event_chain lookup emplace insert bytes_eq
    add_neighbor on_clock_timer create_clock_event publish_event insert_chain_discovery
Reachable-CompletedSound_example = Reachable-CompletedSound toy_env asking (
    after _ asking
      (after _ _
        (after _ _
          (after _ _ (built me config Store.empty (pos 7) newborn refl)
            (Reachable.publish (7 ∷ []) newborn))
          (Reachable.tick 0 (pos 10) _))
        (Reachable.meet peer living))
      (Reachable.want_chain foreign one_to_ten 1 (add_neighbor peer living) asking refl))
