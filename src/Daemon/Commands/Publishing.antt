-- ===== src/Daemon/Commands/Publishing.antt =====
-- src/app/loti/loti.cpp and src/app/lotid/lotid.cpp: what is published is what was typed.
use loti.Base.{
  ℕ, ◌≡◌, ◌≢◌, refl, none, some, Option-cases, inl, inr, Bool-cases, nat_eq, Option, sym,
  append-nil, ap, ◌∙◌, true, false, List, [], ◌∷◌, ◌++◌, append_assoc, All, All-append, length,
  arith, leb, ltb,
}
use loti.Base.Key.{bytes_eq}
use loti.Node.State.{Env}
use loti.Node.Dag.{publish_event}
use loti.Control.{Text, newline, put_before, cut, sent_request}
use loti.Control.RoundTrip.{Lacks, cut-at}
use loti.Daemon.Lines.{request_line, dispatch_local, reply_to, on_control_readable}
use loti.Hex.{hex}
use loti.Daemon.{is_separator}
use loti.Daemon.Replies.{IsWord, join, tokenize-join}
use loti.Daemon.Requests.{argument, join_from, to_request, publish_verb}
use loti.Daemon.Commands.{rest_of, Lotid, Reply, success, event_label, publish_command}

join-longer : (r w : Text) (ws : List Text) → join ((r ++ (32 ∷ w)) ∷ ws) ≡ join (r ∷ w ∷ ws)
unfolding join
join-longer r w [] = refl
join-longer r w (v ∷ ws) = append_assoc r (32 ∷ w) (32 ∷ join (v ∷ ws))

-- The loop that joins puts a space before each further word.
join_from-join : (ws : List Text) (r : Text) → join_from ws r ≡ join (r ∷ ws)
unfolding join_from join
join_from-join [] r = refl
join_from-join (w ∷ ws) r = join_from-join ws (r ++ (32 ∷ w)) ∙ join-longer r w ws

leb-length : (w : Text) (ws : List Text) → leb 1 (length (w ∷ ws)) ≡ true
leb-length w ws = ground arith

ltb-length : (w : Text) (ws : List Text) → ltb (length (publish_verb ∷ w ∷ ws)) 2 ≡ false
ltb-length w ws = ground arith

-- The request is the words, with a space between two.
to_request-publish :
    (w : Text) (ws : List Text)
    → to_request (publish_verb ∷ w ∷ ws) [] ≡ join (publish_verb ∷ w ∷ ws)
unfolding to_request bytes_eq
to_request-publish w ws = rw (leb-length w ws) (join_from-join (w ∷ ws) publish_verb)

-- The event is published and named as the last one, and its hash is the answer.
abbrev pub published : Env → Text → Lotid → Reply × Lotid
published env content d =
    let (e, n) = publish_event env content d.node in
    (success ((event_label, hex e.hash) ∷ []), record d { node = n; last_event = e.hash })

-- The daemon's words are those of the command line.
publish_command-words :
    (env : Env) (w : Text) (ws : List Text) (d : Lotid)
    → publish_command env (publish_verb ∷ w ∷ ws) d ≡ published env (join (w ∷ ws)) d
unfolding publish_command rest_of
publish_command-words env w ws d =
    rw (ltb-length w ws) (ap (λ x. published env x d) (join_from-join ws w))

publish-IsWord : IsWord publish_verb
unfolding is_separator
publish-IsWord = record {
  first = λ e. cc e;
  whole = (refl, (refl, (refl, (refl, (refl, (refl, (refl, tt)))))));
}

-- What comes in over a connection, as one text.
unfoldable pub all_read : List Text → Text
all_read [] = []
all_read (c ∷ cs) = c ++ all_read cs

abbrev cut_with : Text → Option (Text × Text) → Option (Text × Text)
cut_with more none = none
cut_with more (some (a, b)) = some (a, b ++ more)

-- A text that is cut is cut at the same place where more stands behind it.
cut-longer :
    (sep : ℕ) (s more a b : Text)
    → cut sep s ≡ some (a, b)
    → cut sep (s ++ more) ≡ some (a, b ++ more)
unfolding cut put_before
cut-longer sep [] more a b h = cc h
cut-longer sep (c ∷ s) more a b h = elim (Bool-cases (nat_eq c sep)) [
  | inl here ↦
      let same : ◌≡◌ {A = Option (Text × Text)} (some ([], s)) (some (a, b)) = rw here at h in
      rw here (ap (cut_with more) same)
  | inr later ↦ elim (Option-cases (cut sep s)) [
    | inl unread ↦ cc (rw (later, unread) at h)
    | inr ((x, y), found) ↦
        let same : ◌≡◌ {A = Option (Text × Text)} (some (c ∷ x, y)) (some (a, b)) =
          rw (later, found) at h in
        rw (later, cut-longer sep s more x y found) (ap (cut_with more) same)
  ]
]

abbrev first_part : Option (Text × Text) → Option Text
first_part none = none
first_part (some (a, b)) = some a

-- However a line and its newline are cut into reads that each bring something, the line comes out.
request_line-all_read :
    (acc line : Text) (chunks : List Text)
    → All (λ c. c ≢ []) chunks
    → acc ++ all_read chunks ≡ line ++ (newline ∷ [])
    → Lacks newline line
    → cut newline acc ≡ none
    → request_line acc chunks ≡ some line
unfolding request_line all_read cut
request_line-all_read acc line [] h e l n =
    let same : cut newline acc ≡ some (line, []) =
      ap (cut newline) (sym (append-nil acc) ∙ e) ∙ cut-at newline line [] l in
    cc (same, n)
request_line-all_read acc line ([] ∷ chunks) h e l n = absurd (h.0 refl)
request_line-all_read acc line ((c ∷ cs) ∷ chunks) h e l n =
    let longer : Text = acc ++ (c ∷ cs) in
    let whole : longer ++ all_read chunks ≡ line ++ (newline ∷ []) =
      append_assoc acc (c ∷ cs) (all_read chunks) ∙ e in
    elim (Option-cases (cut newline longer)) [
      | inl unread ↦
          rw (request_line, unread) (request_line-all_read longer line chunks h.1 whole l unread)
      | inr ((a, b), found) ↦
          let same : ◌≡◌ {A = Option (Text × Text)} (some (a, b ++ all_read chunks))
              (some (line, [])) =
            sym (cut-longer newline longer (all_read chunks) a b found)
            ∙ ap (cut newline) whole
            ∙ cut-at newline line [] l in
          rw (request_line, found) (ap first_part same)
    ]

-- Words without a newline, with a space between two, have none.
join-Lacks : (ws : List Text) → All (Lacks newline) ws → Lacks newline (join ws)
unfolding join
join-Lacks [] h = tt
join-Lacks (w ∷ []) h = h.0
join-Lacks (w ∷ v ∷ ws) h =
    All-append (λ c. c ≢ newline) w (32 ∷ join (v ∷ ws)) h.0
      ((λ e. omega (arith, e)), join-Lacks (v ∷ ws) h.1)

verb-Lacks : Lacks newline publish_verb
verb-Lacks = ground arith

-- A publish request is dispatched by its verb.
reply_to-publish :
    (env : Env) (w : Text) (ws : List Text) (d : Lotid)
    → reply_to env (publish_verb ∷ w ∷ ws) d ≡ some (published env (join (w ∷ ws)) d)
unfolding reply_to dispatch_local argument bytes_eq
reply_to-publish env w ws d = ap (λ (x : Reply × Lotid). some x) (publish_command-words env w ws d)

-- `loti publish` with one or more words, each with a character and none that separates words or ends a
-- line, makes the daemon publish an event whose content is those words with a space between two, however
-- the request is cut into reads that each bring something.
pub publish_command-as_typed :
    (env : Env) (w : Text) (ws : List Text) (d : Lotid) (chunks : List Text)
    → All IsWord (w ∷ ws)
    → All (Lacks newline) (w ∷ ws)
    → All (λ c. c ≢ []) chunks
    → all_read chunks ≡ sent_request (to_request (publish_verb ∷ w ∷ ws) [])
    → on_control_readable env chunks d ≡ some (published env (join (w ∷ ws)) d)
unfolding on_control_readable sent_request
publish_command-as_typed env w ws d chunks h l n e =
    let line = join (publish_verb ∷ w ∷ ws) in
    let sent : all_read chunks ≡ line ++ (newline ∷ []) =
      e ∙ ap sent_request (to_request-publish w ws) in
    let read : request_line [] chunks ≡ some line =
      request_line-all_read [] line chunks n sent
        (join-Lacks (publish_verb ∷ w ∷ ws) (verb-Lacks, l)) refl in
    let words = tokenize-join (publish_verb ∷ w ∷ ws) (publish-IsWord, h) in
    rw (on_control_readable, read, words) (reply_to-publish env w ws d)
