-- ===== src/Control.antt =====
-- src/adapters/os/control.hpp: the replies of the control protocol, as the daemon writes them and the
-- command line reads them. A text is the list of its character codes; the socket is not modelled.
pub mod RoundTrip
use loti.Base.{
  ℕ, zero, suc, ◌+◌, ◌-◌, ◌*◌, ◌/◌, ◌%◌, ℤ, pos, negsuc, Bool, true, false, not, ◌&&◌, List, [],
  ◌∷◌, ◌++◌, Option, none, some, leb, ltb, nat_eq, if◌then◌else◌,
}
use loti.Base.Key.{bytes_eq}

abbrev pub Text : Type 0
Text = List ℕ

abbrev pub newline : ℕ
newline = 10

abbrev pub tab : ℕ
tab = 9

abbrev pub space : ℕ
space = 32

-- "LOTI/1", "OK" and "ERR"
abbrev pub control_version : Text
control_version = 76 ∷ 79 ∷ 84 ∷ 73 ∷ 47 ∷ 49 ∷ []

abbrev pub ok_word : Text
ok_word = 79 ∷ 75 ∷ []

abbrev pub err_word : Text
err_word = 69 ∷ 82 ∷ 82 ∷ []

abbrev pub ControlFields : Type 0
ControlFields = List (Text × Text)

pub record ControlReply : Type 0 where
  pub ok : Bool
  pub code : ℕ
  pub message : Text
  pub fields : ControlFields

-- The decimal digits of a number below 10 ^ fuel.
unfoldable pub decimal : ℕ → ℕ → Text
decimal zero n = []
decimal (suc k) n =
    let rest = decimal k (n / 10) in
    if ltb n 10 then (48 + n) ∷ [] else rest ++ ((48 + n % 10) ∷ [])

-- `std::to_string` of a number, which has no more digits than the number and one, and of an integer.
unfoldable pub to_string : ℕ → Text
unfolding decimal
to_string n = decimal (suc n) n

unfoldable pub int_to_string : ℤ → Text
unfolding to_string
int_to_string (pos n) = to_string n
int_to_string (negsuc n) = 45 ∷ to_string (suc n)

-- `std::atoi` of a text that starts with neither white space nor a sign: its leading digits.
unfoldable pub atoi_from : ℕ → Text → ℕ
atoi_from v [] = v
atoi_from v (c ∷ cs) =
    let rest = atoi_from (v * 10 + (c - 48)) cs in if leb 48 c && leb c 57 then rest else v

unfoldable pub atoi : Text → ℕ
unfolding atoi_from
atoi s = atoi_from 0 s

-- `out += k + "\t" + v + "\n"`
unfoldable pub format_fields : ControlFields → Text
format_fields [] = []
format_fields ((k, v) ∷ fs) = k ++ (tab ∷ v) ++ (newline ∷ format_fields fs)

unfoldable pub format_status : ℕ → Text → Text
unfolding to_string
format_status code [] = control_version ++ (space ∷ ok_word) ++ (space ∷ to_string code)
format_status code (c ∷ error) =
    control_version ++ (space ∷ err_word) ++ (space ∷ to_string code) ++ (space ∷ c ∷ error)

-- The status line, a line for each field, and a blank line.
unfoldable pub format_reply : ℕ → Text → ControlFields → Text
unfolding format_status format_fields
format_reply code error fields =
    format_status code error ++ (newline ∷ (format_fields fields ++ (newline ∷ [])))

-- `request + "\n"`
unfoldable pub sent_request : Text → Text
sent_request request = request ++ (newline ∷ [])

-- The lines that `next_line` answers, one after the other: a last one without its end counts, if it has
-- a character.
unfoldable pub extend : ℕ → List Text → List Text
extend c [] = (c ∷ []) ∷ []
extend c (l ∷ ls) = (c ∷ l) ∷ ls

unfoldable pub lines : Text → List Text
unfolding extend
lines [] = []
lines (c ∷ cs) = let rest = lines cs in if nat_eq c newline then [] ∷ rest else extend c rest

-- `find(sep)`, the text before it and the text after it.
unfoldable pub put_before : ℕ → Option (Text × Text) → Option (Text × Text)
put_before c none = none
put_before c (some (a, b)) = some (c ∷ a, b)

unfoldable pub cut : ℕ → Text → Option (Text × Text)
unfolding put_before
cut sep [] = none
cut sep (c ∷ cs) =
    let rest = cut sep cs in if nat_eq c sep then some ([], cs) else put_before c rest

-- A field line; one without a tab is a key with an empty value.
unfoldable pub parse_field : Text → Text × Text
unfolding cut
parse_field line = elim (cut tab line) [ none ↦ (line, []) | some kv ↦ kv ]

-- The loop over the lines, up to a blank one.
unfoldable pub parse_fields : List Text → ControlFields
unfolding parse_field
parse_fields [] = []
parse_fields ([] ∷ ls) = []
parse_fields ((c ∷ l) ∷ ls) = parse_field (c ∷ l) ∷ parse_fields ls

-- The code, and the message behind it where the reply is an error.
unfoldable pub parse_code : Bool → Text → ControlFields → ControlReply
unfolding cut atoi
parse_code ok rest fields = elim (cut space rest) [
  | none ↦ record { ok = ok; code = atoi rest; message = []; fields = fields }
  | some (code, message) ↦ record {
    ok = ok;
    code = atoi code;
    message = if ok then [] else message;
    fields = fields;
  }
]

-- What `control_request` makes of the received text; the version is passed over.
unfoldable pub parse_reply : Text → Option ControlReply
unfolding lines cut parse_code parse_fields
parse_reply buf = elim (lines buf) [
  | [] ↦ none
  | status ∷ ls ↦ elim (cut space status) [
    | none ↦ none
    | some (version, after) ↦ elim (cut space after) [
      | none ↦ none
      | some (kind, rest) ↦ some (parse_code (bytes_eq kind ok_word) rest (parse_fields ls))
    ]
  ]
]
