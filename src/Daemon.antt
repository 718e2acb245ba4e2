-- ===== src/Daemon.antt =====
-- src/app/lotid/lotid.cpp: the daemon's commands as words, and what it replies of a chain.
pub mod Replies
pub mod Requests
pub mod Commands
pub mod Lines
pub mod Waiting
use loti.Base.{
  ℕ, zero, suc, ◌+◌, ◌*◌, ◌/◌, ◌%◌, ℤ, pos, negsuc, Bool, true, false, ◌&&◌, ◌||◌, List, [], ◌∷◌,
  ◌++◌, Option, none, some, length, leb, ltb, leb_ℤ, nat_eq, if◌then◌else◌,
}
use loti.Domain.{Bytes, NodeId, ClockEvent, EventChain, node_id_of}
use loti.Hex.{hex, unhex}
use loti.Node.State.{ChainConfig}
use loti.Control.{Text, ControlFields, to_string, int_to_string}

-- A space, a tab or a carriage return.
unfoldable pub is_separator : ℕ → Bool
is_separator c = nat_eq c 32 || (nat_eq c 9 || nat_eq c 13)

-- `if (!cur.empty()) out.push_back(cur);`
unfoldable pub push_word : Text → List Text → List Text
push_word [] words = words
push_word (c ∷ cs) words = (c ∷ cs) ∷ words

-- The loop of `tokenize`, with the word so far.
unfoldable pub tokenize_from : Text → Text → List Text
unfolding is_separator push_word
tokenize_from cur [] = push_word cur []
tokenize_from cur (c ∷ cs) =
    let next = push_word cur (tokenize_from [] cs) in
    let longer = tokenize_from (cur ++ (c ∷ [])) cs in if is_separator c then next else longer

unfoldable pub tokenize : Text → List Text
unfolding tokenize_from
tokenize s = tokenize_from [] s

-- The loop of `split`; an empty part counts.
unfoldable pub split_from : ℕ → Text → Text → List Text
split_from sep cur [] = cur ∷ []
split_from sep cur (c ∷ cs) =
    let next = cur ∷ split_from sep [] cs in
    let longer = split_from sep (cur ++ (c ∷ [])) cs in if nat_eq c sep then next else longer

unfoldable pub split : Text → ℕ → List Text
unfolding split_from
split s sep = split_from sep [] s

-- "0x" and the digits
unfoldable pub hex_id : NodeId → Text
unfolding hex
hex_id id = 48 ∷ 120 ∷ hex id

-- The daemon's `unhex`, which takes no empty text.
unfoldable pub unhex_some : Text → Option Bytes
unfolding unhex
unhex_some [] = none
unhex_some (c ∷ cs) = unhex (c ∷ cs)

-- A byte that is not printable becomes a dot.
unfoldable pub printable : Bytes → Text
printable [] = []
printable (c ∷ cs) = (if leb 32 c && ltb c 127 then c else 46) ∷ printable cs

-- "creator="
abbrev pub creator_label : Text
creator_label = 99 ∷ 114 ∷ 101 ∷ 97 ∷ 116 ∷ 111 ∷ 114 ∷ 61 ∷ []

-- " hash="
abbrev pub hash_label : Text
hash_label = 32 ∷ 104 ∷ 97 ∷ 115 ∷ 104 ∷ 61 ∷ []

-- " ts="
abbrev pub time_label : Text
time_label = 32 ∷ 116 ∷ 115 ∷ 61 ∷ []

-- "reference"
abbrev pub reference_word : Text
reference_word = 114 ∷ 101 ∷ 102 ∷ 101 ∷ 114 ∷ 101 ∷ 110 ∷ 99 ∷ 101 ∷ []

-- "lower"
abbrev pub lower_word : Text
lower_word = 108 ∷ 111 ∷ 119 ∷ 101 ∷ 114 ∷ []

-- "event"
abbrev pub event_word : Text
event_word = 101 ∷ 118 ∷ 101 ∷ 110 ∷ 116 ∷ []

-- "content"
abbrev pub content_word : Text
content_word = 99 ∷ 111 ∷ 110 ∷ 116 ∷ 101 ∷ 110 ∷ 116 ∷ []

-- "upper"
abbrev pub upper_word : Text
upper_word = 117 ∷ 112 ∷ 112 ∷ 101 ∷ 114 ∷ []

-- "clockEvents"
abbrev pub clock_events_word : Text
clock_events_word = 99 ∷ 108 ∷ 111 ∷ 99 ∷ 107 ∷ 69 ∷ 118 ∷ 101 ∷ 110 ∷ 116 ∷ 115 ∷ []

unfoldable pub clock_line : ClockEvent → Text
unfolding hex_id hex int_to_string
clock_line c =
    creator_label
    ++ (hex_id c.creator
        ++ (hash_label ++ (hex c.hash ++ (time_label ++ int_to_string c.timestamp))))

-- One field of the key for each clock event.
unfoldable pub clock_fields : Text → List ClockEvent → ControlFields
unfolding clock_line
clock_fields key [] = []
clock_fields key (c ∷ cs) = (key, clock_line c) ∷ clock_fields key cs

-- The creator of the first clock event, 0 where there is none.
unfoldable pub reference_of : List ClockEvent → NodeId
reference_of [] = node_id_of 0
reference_of (c ∷ cs) = c.creator

unfoldable pub chain_path_fields : EventChain → ControlFields
unfolding clock_fields reference_of hex_id hex printable to_string
chain_path_fields c =
    (reference_word, hex_id (reference_of c.lower_bound))
    ∷ (clock_fields lower_word c.lower_bound
        ++ ((event_word, hex c.event.hash)
            ∷ (content_word, printable c.event.content)
            ∷ (clock_fields upper_word c.upper_bound
                ++ ((clock_events_word, to_string (length c.lower_bound + length c.upper_bound))
                    ∷ []))))

-- `interval *= kFactor`, as long as an `int64_t` holds it.
unfoldable pub slower : ℤ → ℤ
slower (pos n) = pos (n * 8)
slower (negsuc n) = negsuc (n * 8 + 7)

-- `levels` chains, each one slower than the one before by a factor of 8.
unfoldable pub schedule_from : ℕ → ℤ → List ChainConfig
unfolding slower
schedule_from zero interval = []
schedule_from (suc k) interval =
    record { interval = interval; keep = 4096 } ∷ schedule_from k (slower interval)

unfoldable pub default_chain_schedule : ℤ → List ChainConfig
unfolding schedule_from
default_chain_schedule clock_ns =
    if leb_ℤ clock_ns (pos 0)
    then record { interval = clock_ns; keep = 0 } ∷ []
    else schedule_from 4 clock_ns
