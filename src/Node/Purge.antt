-- ===== src/Node/Purge.antt =====
-- src/core/node.cpp: the purge of stale discoveries drops entries or aborts them, and completes none.
use loti.Base.{◌≡◌, arith, List, [], ◌∷◌, ltb_ℤ, ◌&&◌}
use loti.Base.{Bool-cases, inl, inr, Option-cases, sub_ℤ}
use loti.Base.Key.{bytes_key, bytes_eq, pair_key}
use loti.Base.Table.{lookup, erase, lookup-erase}
use loti.Domain.{EventHash, Timestamp}
use loti.Node.Outcome.{done}
use loti.Node.State.{Node, Env}
use loti.Node.Bookkeeping.{
  is_open, abort_chain_discovery, abort_bounds_discovery, abort_order_discovery, each_key, keys,
  OrderKey,
}
use loti.Node.Completion.{
  Same, Keeps, Keeps-each_key, Outcome-cases, Keeps-abort_bounds, Keeps-abort_order, CompletedSound,
}
use loti.Node.Completed.{CompletedSound-Same, abort-CompletedSound}
use loti.Node.Api.{
  purge_chain, purge_bounds, purge_order, purge_discoveries, on_purge_timer, schedule_purge_timer,
}

module _ (env : Env) where
  CompletedSound-erase :
      (hash : EventHash) (n : Node)
      → CompletedSound env n
      → CompletedSound env (record n { chain_discoveries = erase hash n.chain_discoveries })
  CompletedSound-erase hash n s = record {
    at = λ h e found c.
        let reads = lookup-erase hash h n.chain_discoveries in
        ground (arith, reads, s.at h e, found, c);
  }

  purge_chain-CompletedSound :
      (limit : Timestamp) (hash : EventHash) (n n' : Node)
      → purge_chain limit hash n ≡ done n'
      → CompletedSound env n
      → CompletedSound env n'
  unfolding purge_chain
  purge_chain-CompletedSound limit hash n n' h s =
      elim (Option-cases (lookup hash n.chain_discoveries)) [
        | inl missing ↦
            let ends = rw (purge_chain, missing) at h in
            CompletedSound-Same env n n' (cc ends, cc ends) s
        | inr (e, found) ↦ elim (Bool-cases (ltb_ℤ e.discovery.start_time limit)) [
          | inr young ↦
              let ends = rw (purge_chain, found, young) at h in
              CompletedSound-Same env n n' (cc ends, cc ends) s
          | inl old ↦
              elim (Bool-cases
                (bytes_eq e.discovery.originator n.id && is_open e.discovery.state)) [
                  | inr shut ↦
                      let ends = rw (purge_chain, found, old, shut) at h in
                      CompletedSound-Same env _ n' (cc ends, cc ends)
                        (CompletedSound-erase hash n s)
                  | inl own ↦
                      let h' = rw (purge_chain, found, old, own) at h in
                      elim (Outcome-cases (abort_chain_discovery e.discovery.event.hash n)) [
                        | inr (x, ea) ↦ cc (rw ea at h')
                        | inl (m, ea) ↦
                            let ends = rw ea at h' in
                            CompletedSound-Same env _ n' (cc ends, cc ends)
                              (CompletedSound-erase hash m
                                (abort-CompletedSound env e.discovery.event.hash n m ea s))
                      ]
                ]
        ]
      ]

  each_purged-CompletedSound :
      (limit : Timestamp) (hashes : List EventHash) (n n' : Node)
      → each_key (purge_chain limit) hashes n ≡ done n'
      → CompletedSound env n
      → CompletedSound env n'
  unfolding each_key
  each_purged-CompletedSound limit [] n n' h s = CompletedSound-Same env n n' (cc h, cc h) s
  each_purged-CompletedSound limit (k ∷ ks) n n' h s =
      elim (Outcome-cases (purge_chain limit k n)) [
        | inr (x, em) ↦ cc (rw em at h)
        | inl (m, em) ↦
            each_purged-CompletedSound limit ks m n' (rw em at h)
              (purge_chain-CompletedSound limit k n m em s)
      ]

  abort_bounds_keeps :
      (hash : EventHash) (n n' : Node) → abort_bounds_discovery hash n ≡ done n' → Same n n'
  abort_bounds_keeps hash n n' h = (Keeps-abort_bounds hash).at n n' h

  abort_order_keeps :
      (key : OrderKey) (n n' : Node) → abort_order_discovery key n ≡ done n' → Same n n'
  abort_order_keeps key n n' h = (Keeps-abort_order key).at n n' h

  Keeps-purge_bounds : (limit : Timestamp) (hash : EventHash) → Keeps (purge_bounds limit hash)
  unfolding purge_bounds
  Keeps-purge_bounds limit hash = record { at = λ n n' h. grind (arith, abort_bounds_keeps) }

  Keeps-purge_order : (limit : Timestamp) (key : OrderKey) → Keeps (purge_order limit key)
  unfolding purge_order
  Keeps-purge_order limit key = record { at = λ n n' h. grind (arith, abort_order_keeps) }

  -- The purge timer keeps the invariant.
  pub on_purge_timer-CompletedSound :
      (n n' : Node) → on_purge_timer n ≡ done n' → CompletedSound env n → CompletedSound env n'
  unfolding on_purge_timer purge_discoveries schedule_purge_timer
  on_purge_timer-CompletedSound n n' h s =
      let limit = sub_ℤ n.now n.config.discovery_expiry in
      elim (Outcome-cases (each_key (purge_chain limit) (keys n.chain_discoveries) n)) [
        | inr (x, e1) ↦ cc (rw e1 at h)
        | inl (n1, e1) ↦
            let h1 = rw e1 at h in
            elim (Outcome-cases (each_key (purge_bounds limit) (keys n1.bounds_discoveries) n1)) [
              | inr (x, e2) ↦ cc (rw e2 at h1)
              | inl (n2, e2) ↦
                  let h2 = rw e2 at h1 in
                  elim (Outcome-cases
                    (each_key (purge_order limit) (keys n2.order_discoveries) n2)) [
                      | inr (x, e3) ↦ cc (rw e3 at h2)
                      | inl (n3, e3) ↦
                          let h3 = rw e3 at h2 in
                          let s1 =
                            each_purged-CompletedSound limit (keys n.chain_discoveries) n n1 e1 s in
                          let k2 =
                            (Keeps-each_key (purge_bounds limit) (Keeps-purge_bounds limit) _).at n1
                              n2 e2 in
                          let k3 =
                            (Keeps-each_key (purge_order limit) (Keeps-purge_order limit) _).at n2
                              n3 e3 in
                          CompletedSound-Same env n3 n' (cc h3, cc h3)
                            (CompletedSound-Same env n2 n3 k3 (CompletedSound-Same env n1 n2 k2 s1))
                    ]
            ]
      ]
