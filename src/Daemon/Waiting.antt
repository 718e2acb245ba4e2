-- ===== src/Daemon/Waiting.antt =====
-- src/app/lotid/lotid.cpp: the clients that wait for a discovery or a proof, and what they are sent.
-- An iterator is valid as long as its element is in the container; none is the use of one that is not.
pub mod Answers
use loti.Base.{
  ℕ, Bool, true, false, ◌&&◌, ◌||◌, not, List, [], ◌∷◌, ◌++◌, Option, none, some, nat_eq,
  if◌then◌else◌,
}
use loti.Base.Key.{bytes_eq}
use loti.Domain.{EventHash, EventChain}
use loti.Proof.{Kind}
use loti.Control.{Text, ControlFields, format_reply}
use loti.Daemon.Commands.{Reply}

abbrev pub PendingByEvent : Type 0
PendingByEvent = List (EventHash × ℕ)

pub record ProofRequest : Type 0 where
  pub fd : ℕ
  pub kind : Kind

pub record OrderProof : Type 0 where
  pub fd : ℕ
  pub a : EventHash
  pub b : EventHash
  pub chain_a : Option EventChain
  pub chain_b : Option EventChain

-- `clients` are the keys of client_buf_; `sent` is what was written to a connection.
pub record Waiting : Type 0 where
  pub clients : List ℕ
  pub pending_bounds : PendingByEvent
  pub pending_chain : PendingByEvent
  pub pending_order : List ((EventHash × EventHash) × ℕ)
  pub pending_proof : List (EventHash × ProofRequest)
  pub order_proofs : List OrderProof
  pub sent : List (ℕ × Text)

-- The container that `answer` takes by reference.
pub data Pending : Type 0 where
  of_bounds of_chain : Pending

unfoldable pub pending_of : Pending → Waiting → PendingByEvent
pending_of of_bounds w = w.pending_bounds
pending_of of_chain w = w.pending_chain

unfoldable pub set_pending : Pending → PendingByEvent → Waiting → Waiting
set_pending of_bounds p w = record w { pending_bounds = p }
set_pending of_chain p w = record w { pending_chain = p }

unfoldable pub erase_if {ℓ} : {A : Type ℓ} → (A → Bool) → List A → List A
erase_if f [] = []
erase_if f (x ∷ xs) = let rest = erase_if f xs in if f x then rest else x ∷ rest

unfoldable pub is_client : ℕ → List ℕ → Bool
is_client fd [] = false
is_client fd (c ∷ cs) = nat_eq fd c || is_client fd cs

unfoldable pub purge_pending_for_fd : ℕ → Waiting → Waiting
unfolding erase_if
purge_pending_for_fd fd w = record w {
  pending_bounds = erase_if (λ kv. nat_eq fd kv.1) w.pending_bounds;
  pending_chain = erase_if (λ kv. nat_eq fd kv.1) w.pending_chain;
  pending_order = erase_if (λ kv. nat_eq fd kv.1) w.pending_order;
  pending_proof = erase_if (λ kv. nat_eq fd kv.1.fd) w.pending_proof;
  order_proofs = erase_if (λ o. nat_eq fd o.fd) w.order_proofs;
}

unfoldable pub close_client : ℕ → Waiting → Waiting
unfolding is_client purge_pending_for_fd erase_if
close_client fd w =
    let p = purge_pending_for_fd fd w in
    if is_client fd w.clients then record p { clients = erase_if (nat_eq fd) p.clients } else w

unfoldable pub respond : ℕ → Reply → Waiting → Waiting
unfolding is_client close_client
respond fd r w =
    if is_client fd w.clients
    then close_client fd
        (record w { sent = w.sent ++ ((fd, format_reply r.code r.error r.fields) ∷ []) })
    else w

unfoldable pub equal_range : EventHash → PendingByEvent → PendingByEvent
equal_range hash [] = []
equal_range hash ((h, fd) ∷ es) =
    let rest = equal_range hash es in if bytes_eq h hash then (h, fd) ∷ rest else rest

unfoldable pub has_entry : EventHash → ℕ → PendingByEvent → Bool
has_entry hash fd [] = false
has_entry hash fd ((h, f) ∷ es) = (nat_eq fd f && bytes_eq hash h) || has_entry hash fd es

-- `++it` needs the element that the client waited by.
unfoldable pub answer_each : Pending → PendingByEvent → Reply → Waiting → Option Waiting
unfolding respond has_entry pending_of
answer_each p [] reply w = some w
answer_each p ((h, fd) ∷ es) reply w =
    let next = respond fd reply w in
    let rest = answer_each p es reply next in
    if has_entry h fd (pending_of p next) then rest else none

unfoldable pub answer : Pending → EventHash → Reply → Waiting → Option Waiting
unfolding equal_range answer_each pending_of set_pending erase_if
answer p hash reply w = elim (answer_each p (equal_range hash (pending_of p w)) reply w) [
  | none ↦ none
  | some done ↦ some (set_pending p (erase_if (λ kv. bytes_eq kv.0 hash) (pending_of p done)) done)
]

abbrev pub invalid_result_code : ℕ
invalid_result_code = 6

-- "discovery aborted"
abbrev pub discovery_aborted : Text
discovery_aborted =
    100 ∷ 105 ∷ 115 ∷ 99 ∷ 111 ∷ 118 ∷ 101 ∷ 114 ∷ 121 ∷ 32 ∷ 97 ∷ 98 ∷ 111 ∷ 114 ∷ 116 ∷ 101 ∷ 100
    ∷ []

unfoldable pub abort_pending : Pending → EventHash → Waiting → Option Waiting
unfolding answer
abort_pending p hash w =
    answer p hash
      (record {
        code = invalid_result_code;
        deferred = false;
        error = discovery_aborted;
        fields = [];
      })
      w
