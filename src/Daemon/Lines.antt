-- ===== src/Daemon/Lines.antt =====
-- src/app/lotid/lotid.cpp: a request as it comes in over a connection, up to its newline, and the dispatch of
-- the commands that need only the node.
use loti.Base.{List, [], ◌∷◌, ◌++◌, Option, none, some, if◌then◌else◌}
use loti.Base.Key.{bytes_eq}
use loti.Node.State.{Env}
use loti.Control.{Text, newline, cut}
use loti.Daemon.{tokenize}
use loti.Daemon.Requests.{argument, publish_verb, event_verb, event_find_verb, events_verb}
use loti.Daemon.Commands.{
  Lotid, Reply, refusal, usage_code, publish_command, event_command, event_find_command,
  events_command,
}

-- The reads of a connection, behind the text that came before: the text in front of the first newline. A
-- read that brings nothing, or fails, closes the connection; none is a connection without a request.
unfoldable pub request_line : Text → List Text → Option Text
unfolding cut
request_line acc [] = none
request_line acc ([] ∷ chunks) = none
request_line acc ((c ∷ cs) ∷ chunks) =
    let longer = acc ++ (c ∷ cs) in
    let later = request_line longer chunks in
    elim (cut newline longer) [ none ↦ later | some (line, rest) ↦ some line ]

-- "empty request"
abbrev pub empty_request : Text
empty_request = 101 ∷ 109 ∷ 112 ∷ 116 ∷ 121 ∷ 32 ∷ 114 ∷ 101 ∷ 113 ∷ 117 ∷ 101 ∷ 115 ∷ 116 ∷ []

module _ (env : Env) where
  -- None is a verb that is not one of these commands.
  unfoldable pub dispatch_local : List Text → Lotid → Option (Reply × Lotid)
  unfolding argument bytes_eq publish_command event_command event_find_command events_command
  dispatch_local args d =
      let verb = argument args 0 in
      if bytes_eq verb publish_verb
      then some (publish_command env args d)
      else if bytes_eq verb event_verb
      then some (event_command args d, d)
      else if bytes_eq verb event_find_verb
      then some (event_find_command args d, d)
      else if bytes_eq verb events_verb
      then some (events_command d, d)
      else none

  -- What is replied to a request's words.
  unfoldable pub reply_to : List Text → Lotid → Option (Reply × Lotid)
  unfolding dispatch_local
  reply_to [] d = some (refusal usage_code empty_request, d)
  reply_to (verb ∷ args) d = dispatch_local (verb ∷ args) d

  unfoldable pub on_control_readable : List Text → Lotid → Option (Reply × Lotid)
  unfolding request_line tokenize reply_to
  on_control_readable chunks d = elim (request_line [] chunks) [
    | none ↦ none
    | some line ↦ reply_to (tokenize line) d
  ]
