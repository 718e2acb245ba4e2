-- ===== src/Daemon/Commands.antt =====
-- src/app/lotid/lotid.cpp: the daemon's commands that need only the node.
pub mod Publishing
use loti.Base.{
  ℕ, suc, ◌+◌, Bool, true, false, ◌&&◌, ◌||◌, List, [], ◌∷◌, ◌++◌, Option, none, some, length,
  get_elem?, drop, leb, ltb, nat_eq, if◌then◌else◌,
}
use loti.Base.Key.{bytes_eq}
use loti.Domain.{Bytes, EventHash, Event}
use loti.Store
use loti.Hex.{hex, unhex}
use loti.Node.State.{Node, Env}
use loti.Node.Dag.{publish_event, gc}
use loti.Control.{Text, ControlFields, to_string}
use loti.Daemon.Requests.{argument, join_from}
use loti.Daemon.{unhex_some, hex_id, printable}

abbrev pub last_verb : Text
last_verb = 108 ∷ 97 ∷ 115 ∷ 116 ∷ []

-- What the daemon keeps besides the node, as far as these commands use it.
pub record Lotid : Type 0 where
  pub node : Node
  pub last_event : EventHash

pub record Reply : Type 0 where
  pub code : ℕ
  pub deferred : Bool
  pub error : Text
  pub fields : ControlFields

abbrev pub usage_code : ℕ
usage_code = 2

abbrev pub not_found_code : ℕ
not_found_code = 4

abbrev pub success : ControlFields → Reply
success fields = record { code = 0; deferred = false; error = []; fields = fields }

abbrev pub refusal : ℕ → Text → Reply
refusal code error = record { code = code; deferred = false; error = error; fields = [] }

-- `rfind(prefix, 0) == 0`
unfoldable pub starts_with : Text → Text → Bool
starts_with [] s = true
starts_with (p ∷ ps) [] = false
starts_with (p ∷ ps) (c ∷ cs) = nat_eq p c && starts_with ps cs

-- `find(needle) != npos`
unfoldable pub includes : Text → Text → Bool
unfolding starts_with
includes needle [] = starts_with needle []
includes needle (c ∷ cs) = starts_with needle (c ∷ cs) || includes needle cs

-- The first event, in the order of the log, whose hash starts so.
unfoldable pub first_with_prefix : Text → List Event → Option Event
unfolding starts_with hex
first_with_prefix prefix [] = none
first_with_prefix prefix (e ∷ es) =
    let rest = first_with_prefix prefix es in
    if starts_with prefix (hex e.hash) then some e else rest

unfoldable pub find_by_hash_prefix : Text → Node → Option Event
unfolding unhex_some first_with_prefix
find_by_hash_prefix prefix n =
    if nat_eq (length prefix) 64
    then elim (unhex_some prefix) [ none ↦ none | some hash ↦ Store.event_by_hash hash n.store ]
    else first_with_prefix prefix n.store.events

-- "last" is the event that was published last here.
unfoldable pub find_event : Text → Lotid → Option Event
unfolding find_by_hash_prefix bytes_eq hex
find_event ref d =
    if bytes_eq ref last_verb
    then elim d.last_event [ [] ↦ none | b ∷ bs ↦ find_by_hash_prefix (hex (b ∷ bs)) d.node ]
    else find_by_hash_prefix ref d.node

-- The words behind the verb, with a space between two.
unfoldable pub rest_of : List Text → Text
unfolding join_from
rest_of [] = []
rest_of (a ∷ args) = join_from args a

abbrev pub publish_usage : Text
publish_usage =
    117 ∷ 115 ∷ 97 ∷ 103 ∷ 101 ∷ 58 ∷ 32 ∷ 112 ∷ 117 ∷ 98 ∷ 108 ∷ 105 ∷ 115 ∷ 104 ∷ 32 ∷ 60 ∷ 116
    ∷ 101 ∷ 120 ∷ 116 ∷ 62 ∷ []

abbrev pub event_usage : Text
event_usage =
    117 ∷ 115 ∷ 97 ∷ 103 ∷ 101 ∷ 58 ∷ 32 ∷ 101 ∷ 118 ∷ 101 ∷ 110 ∷ 116 ∷ 32 ∷ 60 ∷ 104 ∷ 97 ∷ 115
    ∷ 104 ∷ 124 ∷ 108 ∷ 97 ∷ 115 ∷ 116 ∷ 62 ∷ []

abbrev pub find_usage : Text
find_usage =
    117 ∷ 115 ∷ 97 ∷ 103 ∷ 101 ∷ 58 ∷ 32 ∷ 101 ∷ 118 ∷ 101 ∷ 110 ∷ 116 ∷ 45 ∷ 102 ∷ 105 ∷ 110 ∷ 100
    ∷ 32 ∷ 60 ∷ 116 ∷ 101 ∷ 120 ∷ 116 ∷ 62 ∷ []

abbrev pub no_such_event : Text
no_such_event = 110 ∷ 111 ∷ 32 ∷ 115 ∷ 117 ∷ 99 ∷ 104 ∷ 32 ∷ 101 ∷ 118 ∷ 101 ∷ 110 ∷ 116 ∷ []

abbrev pub no_match : Text
no_match =
    110 ∷ 111 ∷ 32 ∷ 101 ∷ 118 ∷ 101 ∷ 110 ∷ 116 ∷ 32 ∷ 109 ∷ 97 ∷ 116 ∷ 99 ∷ 104 ∷ 101 ∷ 115 ∷ []

abbrev pub event_label : Text
event_label = 101 ∷ 118 ∷ 101 ∷ 110 ∷ 116 ∷ []

abbrev pub creator_key : Text
creator_key = 99 ∷ 114 ∷ 101 ∷ 97 ∷ 116 ∷ 111 ∷ 114 ∷ []

abbrev pub content_label : Text
content_label = 99 ∷ 111 ∷ 110 ∷ 116 ∷ 101 ∷ 110 ∷ 116 ∷ []

abbrev pub size_label : Text
size_label = 115 ∷ 105 ∷ 122 ∷ 101 ∷ []

abbrev pub references_label : Text
references_label = 114 ∷ 101 ∷ 102 ∷ 101 ∷ 114 ∷ 101 ∷ 110 ∷ 99 ∷ 101 ∷ 115 ∷ []

unfoldable pub event_command : List Text → Lotid → Reply
unfolding argument find_event hex hex_id printable to_string
event_command args d =
    if ltb (length args) 2
    then refusal usage_code event_usage
    else elim (find_event (argument args 1) d) [
      | none ↦ refusal not_found_code no_such_event
      | some e ↦ success (
          (event_label, hex e.hash)
          ∷ (creator_key, hex_id e.creator)
          ∷ (content_label, printable e.content)
          ∷ (size_label, to_string (length e.content))
          ∷ (references_label, to_string (length e.referenced_events))
          ∷ [])
    ]

-- Two fields for each event whose content has the text.
unfoldable pub matches : Text → List Event → ControlFields
unfolding includes hex printable
matches needle [] = []
matches needle (e ∷ es) =
    let rest = matches needle es in
    if includes needle e.content
    then (event_label, hex e.hash) ∷ (content_label, printable e.content) ∷ rest
    else rest

unfoldable pub found_or_not : ControlFields → Reply
found_or_not [] = refusal not_found_code no_match
found_or_not (f ∷ fs) = success (f ∷ fs)

unfoldable pub event_find_command : List Text → Lotid → Reply
unfolding rest_of matches found_or_not
event_find_command args d =
    if ltb (length args) 2
    then refusal usage_code find_usage
    else found_or_not (matches (rest_of (drop 1 args)) d.node.store.events)

unfoldable pub event_hashes : List Event → ControlFields
unfolding hex
event_hashes [] = []
event_hashes (e ∷ es) = (event_label, hex e.hash) ∷ event_hashes es

unfoldable pub events_command : Lotid → Reply
unfolding event_hashes
events_command d = success (event_hashes d.node.store.events)

module _ (env : Env) where
  unfoldable pub publish_command : List Text → Lotid → Reply × Lotid
  unfolding rest_of hex
  publish_command args d =
      if ltb (length args) 2
      then (refusal usage_code publish_usage, d)
      else (let (e, n) = publish_event env (rest_of (drop 1 args)) d.node in
          (success ((event_label, hex e.hash) ∷ []), record d { node = n; last_event = e.hash }))
