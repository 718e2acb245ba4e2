-- ===== src/Daemon/Replies.antt =====
-- src/app/lotid/lotid.cpp: the words of a command, and that what a node publishes cannot break the lines
-- of a reply.
use loti.Base.{
  ℕ, suc, ◌+◌, ◌<◌, ◌≡◌, ◌≢◌, refl, sym, ap, ◌∙◌, arith, ℤ, pos, negsuc, false, List, [], ◌∷◌, ◌++◌,
  append_assoc, append-nil, some, All, All-append, length,
}
use loti.Domain.{Bytes, ClockEvent, EventChain}
use loti.Hex.{digit, hex}
use loti.Control.{Text, newline, tab, to_string, int_to_string, parse_reply, format_reply}
use loti.Control.RoundTrip.{Lacks, IsField, to_string-Lacks, reply_of, parse_reply-format_reply}
use loti.Daemon.{
  is_separator, push_word, tokenize_from, tokenize, hex_id, printable, clock_line, clock_fields,
  reference_of, chain_path_fields, creator_label, hash_label, time_label, reference_word,
  lower_word, event_word, content_word, upper_word, clock_events_word,
}

-- A word of a command: it has a character, and none that separates.
pub record IsWord (w : Text) : Type 0 where
  pub first : w ≢ []
  pub whole : All (λ c. is_separator c ≡ false) w

-- The words of a command, with a space between two.
unfoldable pub join : List Text → Text
join [] = []
join (w ∷ []) = w
join (w ∷ v ∷ ws) = w ++ (32 ∷ join (v ∷ ws))

push_word-some : (w : Text) (ws : List Text) → w ≢ [] → push_word w ws ≡ w ∷ ws
unfolding push_word
push_word-some [] ws h = absurd (h refl)
push_word-some (c ∷ w) ws h = refl

-- The characters of a word go on the word so far.
tokenize_from-word :
    (cur w rest : Text)
    → All (λ c. is_separator c ≡ false) w
    → tokenize_from cur (w ++ rest) ≡ tokenize_from (cur ++ w) rest
unfolding tokenize_from
tokenize_from-word cur [] rest h = ap (λ x. tokenize_from x rest) (sym (append-nil cur))
tokenize_from-word cur (c ∷ w) rest h = rw (h.0) (
    tokenize_from-word (cur ++ (c ∷ [])) w rest h.1
    ∙ ap (λ x. tokenize_from x rest) (append_assoc cur (c ∷ []) w))

-- The words of a command that are joined by spaces are the words that the daemon reads, where each has a
-- character and none that separates words.
pub tokenize-join : (ws : List Text) → All IsWord ws → tokenize (join ws) ≡ ws
unfolding tokenize tokenize_from join is_separator
tokenize-join [] h = refl
tokenize-join (w ∷ []) (h, u) =
    ap (tokenize_from []) (sym (append-nil w))
    ∙ tokenize_from-word [] w [] h.whole
    ∙ push_word-some w [] h.first
tokenize-join (w ∷ v ∷ ws) (h, hs) =
    tokenize_from-word [] w (32 ∷ join (v ∷ ws)) h.whole
    ∙ push_word-some w (tokenize_from [] (join (v ∷ ws))) h.first
    ∙ ap (λ (x : List Text). w ∷ x) (tokenize-join (v ∷ ws) hs)

hex-Lacks : (c : ℕ) (bs : Bytes) → c < 48 → Lacks c (hex bs)
unfolding hex digit
hex-Lacks c [] h = tt
hex-Lacks c (b ∷ bs) h = (ground arith, (ground arith, hex-Lacks c bs h))

printable-Lacks : (bs : Bytes) → Lacks newline (printable bs)
unfolding printable
printable-Lacks [] = tt
printable-Lacks (b ∷ bs) = (ground arith, printable-Lacks bs)

int_to_string-Lacks : (t : ℤ) → Lacks newline (int_to_string t)
unfolding int_to_string
int_to_string-Lacks (pos n) = to_string-Lacks newline n (omega arith)
int_to_string-Lacks (negsuc n) =
    (λ e. omega (arith, e), to_string-Lacks newline (suc n) (omega arith))

hex_id-Lacks : (id : Bytes) → Lacks newline (hex_id id)
unfolding hex_id
hex_id-Lacks id =
    (λ e. omega (arith, e), (λ e. omega (arith, e), hex-Lacks newline id (omega arith)))

creator_label-Lacks : Lacks newline creator_label
creator_label-Lacks = ground arith

hash_label-Lacks : Lacks newline hash_label
hash_label-Lacks = ground arith

time_label-Lacks : Lacks newline time_label
time_label-Lacks = ground arith

both-Lack : (a b : Text) → Lacks newline a → Lacks newline b → Lacks newline (a ++ b)
both-Lack a b h k = All-append (λ x. x ≢ newline) a b h k

clock_line-Lacks : (c : ClockEvent) → Lacks newline (clock_line c)
unfolding clock_line
clock_line-Lacks c =
    let stamped = time_label ++ int_to_string c.timestamp in
    let hashed = hex c.hash ++ stamped in
    let rest = hash_label ++ hashed in
    both-Lack creator_label (hex_id c.creator ++ rest) creator_label-Lacks (
      both-Lack (hex_id c.creator) rest (hex_id-Lacks c.creator) (
        both-Lack hash_label hashed hash_label-Lacks (
          both-Lack (hex c.hash) stamped (hex-Lacks newline c.hash (omega arith)) (
            both-Lack time_label (int_to_string c.timestamp) time_label-Lacks
              (int_to_string-Lacks c.timestamp)))))

-- A key of the daemon.
record IsName (k : Text) : Type 0 where
  key : Lacks newline k
  no_tab : Lacks tab k

field : (k v : Text) → IsName k → Lacks newline v → IsField (k, v)
field k v n h = record { key = n.key; no_tab = n.no_tab; value = h }

clock_fields-IsField :
    (k : Text) (cs : List ClockEvent) → IsName k → All IsField (clock_fields k cs)
unfolding clock_fields
clock_fields-IsField k [] n = tt
clock_fields-IsField k (c ∷ cs) n =
    (field k (clock_line c) n (clock_line-Lacks c), clock_fields-IsField k cs n)

reference-IsName : IsName reference_word
reference-IsName = record { key = ground arith; no_tab = ground arith }

lower-IsName : IsName lower_word
lower-IsName = record { key = ground arith; no_tab = ground arith }

event-IsName : IsName event_word
event-IsName = record { key = ground arith; no_tab = ground arith }

content-IsName : IsName content_word
content-IsName = record { key = ground arith; no_tab = ground arith }

upper-IsName : IsName upper_word
upper-IsName = record { key = ground arith; no_tab = ground arith }

clock_events-IsName : IsName clock_events_word
clock_events-IsName = record { key = ground arith; no_tab = ground arith }

chain_path_fields-IsField : (c : EventChain) → All IsField (chain_path_fields c)
unfolding chain_path_fields
chain_path_fields-IsField c =
    let n = length c.lower_bound + length c.upper_bound in
    let last : Text × Text = (clock_events_word, to_string n) in
    let uppers = clock_fields upper_word c.upper_bound ++ (last ∷ []) in
    let event : Text × Text = (event_word, hex c.event.hash) in
    let content : Text × Text = (content_word, printable c.event.content) in
    let uppers_fit : All IsField uppers =
      All-append IsField (clock_fields upper_word c.upper_bound) (last ∷ [])
        (clock_fields-IsField upper_word c.upper_bound upper-IsName)
        (
          field clock_events_word (to_string n) clock_events-IsName
              (to_string-Lacks newline n (omega arith)),
          tt,
        ) in
    let middle_fit : All IsField (event ∷ content ∷ uppers) = (
      field event_word (hex c.event.hash) event-IsName
          (hex-Lacks newline c.event.hash (omega arith)),
      (
        field content_word (printable c.event.content) content-IsName
            (printable-Lacks c.event.content),
        uppers_fit,
      ),
    ) in
    (
      field reference_word (hex_id (reference_of c.lower_bound)) reference-IsName
          (hex_id-Lacks (reference_of c.lower_bound)),
      All-append IsField (clock_fields lower_word c.lower_bound) (event ∷ content ∷ uppers)
          (clock_fields-IsField lower_word c.lower_bound lower-IsName) middle_fit,
    )

-- The path of any chain, whatever bytes its event and its clock events hold, is read by the client field by
-- field as the daemon wrote it.
pub parse_reply-chain_path :
    (code : ℕ) (c : EventChain)
    → parse_reply (format_reply code [] (chain_path_fields c))
      ≡ some (reply_of code [] (chain_path_fields c))
parse_reply-chain_path code c =
    parse_reply-format_reply code [] (chain_path_fields c) tt (chain_path_fields-IsField c)
