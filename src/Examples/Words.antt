-- ===== src/Examples/Words.antt =====
-- Examples of the control protocol.
use loti.Base.{List, ◌++◌, ◌≡◌, refl, arith, false, [], ◌∷◌, none, some}
use loti.Control.{Text, newline, sent_request, ControlFields, parse_reply, format_reply}
use loti.Control.RoundTrip.{IsField, reply_of, parse_reply-format_reply}
use loti.Daemon.{is_separator, chain_path_fields}
use loti.Daemon.Replies.{IsWord, join, parse_reply-chain_path}
use loti.Base.Key.{bytes_eq}
use loti.Daemon.Waiting.{Waiting, of_bounds, pending_of, equal_range, is_client, answer}
use loti.Daemon.Waiting.Answers.{some_connected, answer-connected}
use loti.Daemon.Requests.{to_request, publish_verb}
use loti.Daemon.Lines.{on_control_readable}
use loti.Daemon.Commands.Publishing.{published, all_read, publish_command-as_typed}
use loti.Examples.{the_chain, toy_env, quiet}

-- "no event", and a field "a" with the value "b c"
abbrev message : Text
message = 110 ∷ 111 ∷ 32 ∷ 101 ∷ 118 ∷ 101 ∷ 110 ∷ 116 ∷ []

abbrev one_field : ControlFields
one_field = (97 ∷ [], 98 ∷ 32 ∷ 99 ∷ []) ∷ []

entry-IsField : IsField (97 ∷ [], 98 ∷ 32 ∷ 99 ∷ [])
entry-IsField = record { key = ground arith; no_tab = ground arith; value = ground arith }

parse_reply-format_reply_example :
    parse_reply (format_reply 4 message one_field) ≡ some (reply_of 4 message one_field)
parse_reply-format_reply_example =
    parse_reply-format_reply 4 message one_field (ground arith) (entry-IsField, tt)

parse_reply-chain_path_example :
    parse_reply (format_reply 0 [] (chain_path_fields the_chain))
    ≡ some (reply_of 0 [] (chain_path_fields the_chain))
parse_reply-chain_path_example = parse_reply-chain_path 0 the_chain

short-IsWord : IsWord (97 ∷ [])
unfolding is_separator
short-IsWord = record { first = λ e. cc e; whole = (refl, tt) }

long-IsWord : IsWord (98 ∷ 99 ∷ [])
unfolding is_separator
long-IsWord = record { first = λ e. cc e; whole = (refl, (refl, tt)) }

-- "publish a" and " bc", with its newline, in two reads
abbrev two_reads : List Text
two_reads = (publish_verb ++ (32 ∷ 97 ∷ [])) ∷ (32 ∷ 98 ∷ 99 ∷ newline ∷ []) ∷ []

-- "loti publish a bc" at a daemon that published nothing before
publish_command-as_typed_example :
    on_control_readable toy_env two_reads (record { node = quiet; last_event = [] })
    ≡ some (published toy_env (97 ∷ 32 ∷ 98 ∷ 99 ∷ []) (record { node = quiet; last_event = [] }))
unfolding join all_read sent_request to_request bytes_eq
publish_command-as_typed_example =
    publish_command-as_typed toy_env (97 ∷ []) ((98 ∷ 99 ∷ []) ∷ [])
      (record { node = quiet; last_event = [] }) two_reads (short-IsWord, (long-IsWord, tt))
      (ground arith) ((λ e. cc e), ((λ e. cc e), tt)) refl

-- One client, on connection 5, waits for the bounds of an event.
abbrev one_waits : Waiting
one_waits = record {
  clients = 5 ∷ [];
  pending_bounds = (24 ∷ [], 5) ∷ [];
  pending_chain = [];
  pending_order = [];
  pending_proof = [];
  order_proofs = [];
  sent = [];
}

answer-connected_example :
    answer of_bounds
      (24 ∷ [])
      (record { code = 0; deferred = false; error = []; fields = [] })
      one_waits
    ≡ none
unfolding equal_range some_connected pending_of bytes_eq is_client
answer-connected_example =
    answer-connected of_bounds (24 ∷ [])
      (record { code = 0; deferred = false; error = []; fields = [] }) one_waits refl
