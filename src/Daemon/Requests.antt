-- ===== src/Daemon/Requests.antt =====
-- src/app/loti/loti.cpp: the request line that the command line makes of its arguments.
use loti.Base.{
  ℕ, ◌&&◌, List, [], ◌∷◌, ◌++◌, none, some, length, get_elem?, drop, leb, if◌then◌else◌,
}
use loti.Base.Key.{bytes_eq}
use loti.Control.{Text}

-- Each word is spelled by its characters.
abbrev pub status_verb : Text
status_verb = 115 ∷ 116 ∷ 97 ∷ 116 ∷ 117 ∷ 115 ∷ []

abbrev pub events_verb : Text
events_verb = 101 ∷ 118 ∷ 101 ∷ 110 ∷ 116 ∷ 115 ∷ []

abbrev pub publish_verb : Text
publish_verb = 112 ∷ 117 ∷ 98 ∷ 108 ∷ 105 ∷ 115 ∷ 104 ∷ []

abbrev pub bounds_verb : Text
bounds_verb = 98 ∷ 111 ∷ 117 ∷ 110 ∷ 100 ∷ 115 ∷ []

abbrev pub chain_verb : Text
chain_verb = 99 ∷ 104 ∷ 97 ∷ 105 ∷ 110 ∷ []

abbrev pub order_verb : Text
order_verb = 111 ∷ 114 ∷ 100 ∷ 101 ∷ 114 ∷ []

abbrev pub key_verb : Text
key_verb = 107 ∷ 101 ∷ 121 ∷ []

abbrev pub stop_verb : Text
stop_verb = 115 ∷ 116 ∷ 111 ∷ 112 ∷ []

abbrev pub quit_verb : Text
quit_verb = 113 ∷ 117 ∷ 105 ∷ 116 ∷ []

abbrev pub event_verb : Text
event_verb = 101 ∷ 118 ∷ 101 ∷ 110 ∷ 116 ∷ []

abbrev pub show_verb : Text
show_verb = 115 ∷ 104 ∷ 111 ∷ 119 ∷ []

abbrev pub find_verb : Text
find_verb = 102 ∷ 105 ∷ 110 ∷ 100 ∷ []

abbrev pub event_find_verb : Text
event_find_verb = 101 ∷ 118 ∷ 101 ∷ 110 ∷ 116 ∷ 45 ∷ 102 ∷ 105 ∷ 110 ∷ 100 ∷ []

abbrev pub peer_verb : Text
peer_verb = 112 ∷ 101 ∷ 101 ∷ 114 ∷ []

abbrev pub add_verb : Text
add_verb = 97 ∷ 100 ∷ 100 ∷ []

abbrev pub peer_add_verb : Text
peer_add_verb = 112 ∷ 101 ∷ 101 ∷ 114 ∷ 45 ∷ 97 ∷ 100 ∷ 100 ∷ []

abbrev pub ls_verb : Text
ls_verb = 108 ∷ 115 ∷ []

abbrev pub peer_ls_verb : Text
peer_ls_verb = 112 ∷ 101 ∷ 101 ∷ 114 ∷ 45 ∷ 108 ∷ 115 ∷ []

abbrev pub node_verb : Text
node_verb = 110 ∷ 111 ∷ 100 ∷ 101 ∷ []

-- `a[i]`, which is read only where it is there
unfoldable pub argument : List Text → ℕ → Text
argument a i = elim (get_elem? a i) [ none ↦ [] | some s ↦ s ]

-- `r += " " + a[i]` for the arguments
unfoldable pub join_from : List Text → Text → Text
join_from [] r = r
join_from (a ∷ args) r = join_from args (r ++ (32 ∷ a))

-- An unknown or malformed command is the empty line; `range` is the suffix of a window.
unfoldable pub to_request : List Text → Text → Text
unfolding argument join_from bytes_eq
to_request [] range = []
to_request (c ∷ args) range =
    let one = argument args 0 in
    let two = argument args 1 in
    let n = length args in
    let is = λ (w : Text). bytes_eq c w in
    let sub = λ (w : Text). bytes_eq one w in
    if is status_verb
    then status_verb
    else if is events_verb
    then events_verb
    else if is publish_verb && leb 1 n
    then join_from args publish_verb
    else if is bounds_verb && leb 1 n
    then bounds_verb ++ ((32 ∷ one) ++ range)
    else if is chain_verb && leb 1 n
    then chain_verb ++ ((32 ∷ one) ++ range)
    else if is order_verb && leb 2 n
    then order_verb ++ ((32 ∷ one) ++ ((32 ∷ two) ++ range))
    else if is key_verb
    then key_verb
    else if is stop_verb
    then quit_verb
    else if is event_verb && (leb 2 n && sub show_verb)
    then event_verb ++ (32 ∷ two)
    else if is event_verb && (leb 2 n && sub find_verb)
    then join_from (drop 1 args) event_find_verb
    else if is peer_verb && (leb 2 n && sub add_verb)
    then peer_add_verb ++ (32 ∷ two)
    else if is peer_verb && (leb 1 n && sub ls_verb)
    then peer_ls_verb
    else if is node_verb && (leb 1 n && sub status_verb)
    then status_verb
    else if is node_verb && (leb 1 n && sub stop_verb)
    then quit_verb
    else []
