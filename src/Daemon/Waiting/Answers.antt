-- ===== src/Daemon/Waiting/Answers.antt =====
-- src/app/lotid/lotid.cpp: what becomes of the clients that wait when they are answered.
use loti.Base.{
  ℕ, ◌≡◌, refl, sym, ap, ◌∙◌, Bool, true, false, ◌||◌, [], ◌∷◌, Option, none, nat_eq, Bool-cases,
  inl, inr, if◌then◌else◌,
}
use loti.Domain.{EventHash}
use loti.Daemon.Commands.{Reply}
use loti.Daemon.Waiting.{
  PendingByEvent, Waiting, Pending, of_bounds, of_chain, pending_of, erase_if, is_client,
  purge_pending_for_fd, close_client, respond, equal_range, has_entry, answer_each, answer,
}

-- Some client of the entries is connected.
unfoldable pub some_connected : PendingByEvent → Waiting → Bool
some_connected [] w = false
some_connected ((h, fd) ∷ es) w = is_client fd w.clients || some_connected es w

erased-has_entry :
    (h : EventHash) (fd : ℕ) (es : PendingByEvent)
    → has_entry h fd (erase_if (λ kv. nat_eq fd kv.1) es) ≡ false
unfolding has_entry erase_if
erased-has_entry h fd [] = refl
erased-has_entry h fd ((k, f) ∷ es) = elim (Bool-cases (nat_eq fd f)) [
  | inl e ↦ rw e (erased-has_entry h fd es)
  | inr e ↦ rw (e, e) (erased-has_entry h fd es)
]

-- A connected client that is sent a reply waits no longer.
respond-erases :
    (p : Pending) (h : EventHash) (fd : ℕ) (reply : Reply) (w : Waiting)
    → is_client fd w.clients ≡ true
    → has_entry h fd (pending_of p (respond fd reply w)) ≡ false
unfolding pending_of respond close_client purge_pending_for_fd
respond-erases of_bounds h fd reply w c = rw c (erased-has_entry h fd w.pending_bounds)
respond-erases of_chain h fd reply w c = rw c (erased-has_entry h fd w.pending_chain)

respond_gone :
    (fd : ℕ) (reply : Reply) (w : Waiting) → is_client fd w.clients ≡ false → respond fd reply w ≡ w
unfolding respond
respond_gone fd reply w c = rw c

others_connected :
    (h : EventHash) (fd : ℕ) (es : PendingByEvent) (w : Waiting)
    → some_connected ((h, fd) ∷ es) w ≡ true
    → is_client fd w.clients ≡ false
    → some_connected es w ≡ true
unfolding some_connected
others_connected h fd es w c e = sym (ap (λ b. b || some_connected es w) e) ∙ c

either_none : (b : Bool) {x : Option Waiting} → x ≡ none → (if b then x else none) ≡ none
either_none true e = e
either_none false e = refl

answer_each-connected :
    (p : Pending) (es : PendingByEvent) (reply : Reply) (w : Waiting)
    → some_connected es w ≡ true
    → answer_each p es reply w ≡ none
unfolding answer_each some_connected
answer_each-connected p [] reply w c = cc
answer_each-connected p ((h, fd) ∷ es) reply w c = elim (Bool-cases (is_client fd w.clients)) [
  | inl e ↦ rw (respond-erases p h fd reply w e)
  | inr e ↦ either_none (has_entry h fd (pending_of p (respond fd reply w))) (
      ap (answer_each p es reply) (respond_gone fd reply w e)
      ∙ answer_each-connected p es reply w (others_connected h fd es w c e))
]

-- Where a connected client waits for the event, answering those who wait uses an iterator whose element
-- closing the connection has erased.
pub answer-connected :
    (p : Pending) (hash : EventHash) (reply : Reply) (w : Waiting)
    → some_connected (equal_range hash (pending_of p w)) w ≡ true
    → answer p hash reply w ≡ none
unfolding answer
answer-connected p hash reply w c =
    rw (answer, answer_each-connected p (equal_range hash (pending_of p w)) reply w c)
