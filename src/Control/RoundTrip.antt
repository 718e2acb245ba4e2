-- ===== src/Control/RoundTrip.antt =====
-- src/adapters/os/control.hpp: what the command line reads of a reply is what the daemon wrote.
use loti.Base.{
  ℕ, zero, suc, ◌+◌, ◌-◌, ◌*◌, ◌/◌, ◌%◌, ◌<◌, ◌≤◌, ◌≡◌, ◌≢◌, refl, ap, ◌∙◌, arith, true, false,
  List, [], ◌∷◌, ◌++◌, append_assoc, none, some, All, All-append, ltb, not_ltb→le, Bool-cases, inl,
  inr,
}
use loti.Base.Key.{bytes_eq}
use loti.Control.{
  Text, newline, tab, space, control_version, ok_word, err_word, ControlFields, ControlReply,
  decimal, to_string, atoi_from, atoi, format_fields, format_status, format_reply, extend, lines,
  put_before, cut, parse_field, parse_fields, parse_code, parse_reply,
}

-- A text without a character.
abbrev pub Lacks : ℕ → Text → Type 0
Lacks c s = All (λ x. x ≢ c) s

-- A field that fits the protocol: no newline in it, and no tab in its key.
pub record IsField (f : Text × Text) : Type 0 where
  pub key : Lacks newline f.0
  pub no_tab : Lacks tab f.0
  pub value : Lacks newline f.1

-- A line, its end, and more.
lines-line : (l rest : Text) → Lacks newline l → lines (l ++ (newline ∷ rest)) ≡ l ∷ lines rest
unfolding lines extend
lines-line [] rest h = refl
lines-line (c ∷ l) rest h = ground (arith, lines-line l rest h.1, h.0)

pub cut-at : (sep : ℕ) (a b : Text) → Lacks sep a → cut sep (a ++ (sep ∷ b)) ≡ some (a, b)
unfolding cut put_before
cut-at sep [] b h = ground arith
cut-at sep (c ∷ a) b h = ground (arith, cut-at sep a b h.1, h.0)

cut-none : (sep : ℕ) (a : Text) → Lacks sep a → cut sep a ≡ none
unfolding cut put_before
cut-none sep [] h = refl
cut-none sep (c ∷ a) h = ground (arith, cut-none sep a h.1, h.0)

-- A decimal digit.
abbrev IsDigit : ℕ → Type 0
IsDigit c = (48 ≤ c) × (c ≤ 57)

decimal-IsDigit : (k n : ℕ) → All IsDigit (decimal k n)
unfolding decimal
decimal-IsDigit zero n = tt
decimal-IsDigit (suc k) n = elim (Bool-cases (ltb n 10)) [
  | inl one ↦ rw one (ground arith)
  | inr more ↦ rw more (
      All-append IsDigit (decimal k (n / 10)) ((48 + n % 10) ∷ []) (decimal-IsDigit k (n / 10))
        ((omega arith, omega arith), tt))
]

atoi_from-append :
    (v : ℕ) (a b : Text) → All IsDigit a → atoi_from v (a ++ b) ≡ atoi_from (atoi_from v a) b
unfolding atoi_from
atoi_from-append v [] b h = refl
atoi_from-append v (c ∷ a) b h = ground (arith, atoi_from-append (v * 10 + (c - 48)) a b h.1, h.0)

atoi-decimal : (k n : ℕ) → n < k → atoi_from 0 (decimal k n) ≡ n
unfolding decimal atoi_from
atoi-decimal zero n h = absurd (omega arith)
atoi-decimal (suc k) n h = elim (Bool-cases (ltb n 10)) [
  | inl one ↦ rw one (ground arith)
  | inr more ↦
      let high : atoi_from 0 (decimal k (n / 10)) ≡ n / 10 =
        atoi-decimal k (n / 10) (omega (arith, not_ltb→le n 10 more)) in
      rw more (
        atoi_from-append 0 (decimal k (n / 10)) ((48 + n % 10) ∷ []) (decimal-IsDigit k (n / 10))
        ∙ rw high (ground arith))
]

-- A number is read back from its decimal digits.
pub atoi-to_string : (n : ℕ) → atoi (to_string n) ≡ n
unfolding atoi to_string
atoi-to_string n = atoi-decimal (suc n) n (omega arith)

digits-Lacks : (c : ℕ) (s : Text) → c < 48 → All IsDigit s → Lacks c s
digits-Lacks c [] h d = tt
digits-Lacks c (x ∷ s) h d = ((λ e. omega (arith, d.0.0, h, e)), digits-Lacks c s h d.1)

pub to_string-Lacks : (c n : ℕ) → c < 48 → Lacks c (to_string n)
unfolding to_string
to_string-Lacks c n h = digits-Lacks c (decimal (suc n) n) h (decimal-IsDigit (suc n) n)

parse_fields-line :
    (k v : Text) (ls : List Text)
    → parse_fields ((k ++ (tab ∷ v)) ∷ ls) ≡ parse_field (k ++ (tab ∷ v)) ∷ parse_fields ls
unfolding parse_fields
parse_fields-line [] v ls = refl
parse_fields-line (c ∷ k) v ls = refl

blank_line : parse_fields (lines (newline ∷ [])) ≡ []
unfolding lines extend parse_fields
blank_line = refl

parse_field-line : (k v : Text) → Lacks tab k → parse_field (k ++ (tab ∷ v)) ≡ (k, v)
unfolding parse_field
parse_field-line k v h = rw (parse_field, cut-at tab k v h) refl

-- The field lines, and the blank one, are read as the fields.
parse_fields-format_fields :
    (fs : ControlFields)
    → All IsField fs
    → parse_fields (lines (format_fields fs ++ (newline ∷ []))) ≡ fs
unfolding format_fields
parse_fields-format_fields [] h = blank_line
parse_fields-format_fields ((k, v) ∷ fs) (f, h) =
    let more = format_fields fs ++ (newline ∷ []) in
    let joined : (k ++ (tab ∷ v) ++ (newline ∷ format_fields fs)) ++ (newline ∷ [])
        ≡ (k ++ (tab ∷ v)) ++ (newline ∷ more) =
      simp append_assoc refl in
    let clear =
      All-append (λ x. x ≢ newline) k (tab ∷ v) f.key ((λ e. omega (arith, e)), f.value) in
    ap (λ x. parse_fields (lines x)) joined
    ∙ rw
        (
          lines-line (k ++ (tab ∷ v)) more clear,
          parse_fields-line k v (lines more),
          parse_fields-format_fields fs h,
          parse_field-line k v f.no_tab,
        )
        refl

-- The reply that the client is to read.
abbrev pub reply_of : ℕ → Text → ControlFields → ControlReply
reply_of code [] fields = record { ok = true; code = code; message = []; fields = fields }
reply_of code (c ∷ error) fields = record {
  ok = false;
  code = code;
  message = c ∷ error;
  fields = fields;
}

version-Lacks : Lacks space control_version
version-Lacks = ground arith

ok-Lacks : Lacks space ok_word
ok-Lacks = ground arith

err-Lacks : Lacks space err_word
err-Lacks = ground arith

ok_prefix-Lacks : Lacks newline (control_version ++ ((space ∷ ok_word) ++ (space ∷ [])))
ok_prefix-Lacks = ground arith

err_prefix-Lacks : Lacks newline (control_version ++ ((space ∷ err_word) ++ (space ∷ [])))
err_prefix-Lacks = ground arith

status-Lacks :
    (code : ℕ) (error : Text) → Lacks newline error → Lacks newline (format_status code error)
unfolding format_status
status-Lacks code [] h =
    All-append (λ x. x ≢ newline) (control_version ++ ((space ∷ ok_word) ++ (space ∷ [])))
      (to_string code) ok_prefix-Lacks (to_string-Lacks newline code (omega arith))
status-Lacks code (c ∷ error) h =
    All-append (λ x. x ≢ newline) (control_version ++ ((space ∷ err_word) ++ (space ∷ [])))
      (to_string code ++ (space ∷ c ∷ error)) err_prefix-Lacks
      (All-append (λ x. x ≢ newline) (to_string code) (space ∷ c ∷ error)
        (to_string-Lacks newline code (omega arith)) ((λ e. omega (arith, e)), h))

-- The parts of a status line, once they are found.
parse_reply-parts :
    (buf status version after kind rest : Text) (ls : List Text)
    → lines buf ≡ status ∷ ls
    → cut space status ≡ some (version, after)
    → cut space after ≡ some (kind, rest)
    → parse_reply buf ≡ some (parse_code (bytes_eq kind ok_word) rest (parse_fields ls))
unfolding parse_reply
parse_reply-parts buf status version after kind rest ls e1 e2 e3 = rw (parse_reply, e1, e2, e3) refl

reply-lines :
    (code : ℕ) (error : Text) (fields : ControlFields)
    → Lacks newline error
    → lines (format_reply code error fields)
      ≡ format_status code error ∷ lines (format_fields fields ++ (newline ∷ []))
unfolding format_reply
reply-lines code error fields h =
    lines-line (format_status code error) (format_fields fields ++ (newline ∷ []))
      (status-Lacks code error h)

parse_code-ok :
    (code : ℕ) (fields : ControlFields)
    → parse_code true (to_string code) fields ≡ reply_of code [] fields
unfolding parse_code
parse_code-ok code fields =
    rw
      (
        parse_code,
        cut-none space (to_string code) (to_string-Lacks space code (omega arith)),
        atoi-to_string code,
      )
      refl

parse_code-err :
    (code c : ℕ) (error : Text) (fields : ControlFields)
    → parse_code false (to_string code ++ (space ∷ c ∷ error)) fields
      ≡ reply_of code (c ∷ error) fields
unfolding parse_code
parse_code-err code c error fields =
    rw
      (
        parse_code,
        cut-at space (to_string code) (c ∷ error) (to_string-Lacks space code (omega arith)),
        atoi-to_string code,
      )
      refl

-- A reply whose error message has no newline, and whose fields have none and no tab in their keys, is read
-- by the client as the daemon wrote it: its kind, its exit code, its message and its fields in order.
pub parse_reply-format_reply :
    (code : ℕ) (error : Text) (fields : ControlFields)
    → Lacks newline error
    → All IsField fields
    → parse_reply (format_reply code error fields) ≡ some (reply_of code error fields)
unfolding format_status bytes_eq
parse_reply-format_reply code [] fields h fs =
    parse_reply-parts (format_reply code [] fields) (format_status code []) control_version
      (ok_word ++ (space ∷ to_string code)) ok_word (to_string code)
      (lines (format_fields fields ++ (newline ∷ []))) (reply-lines code [] fields h)
      (cut-at space control_version (ok_word ++ (space ∷ to_string code)) version-Lacks)
      (cut-at space ok_word (to_string code) ok-Lacks)
    ∙ ap some (
        ap (parse_code true (to_string code)) (parse_fields-format_fields fields fs)
        ∙ parse_code-ok code fields)
parse_reply-format_reply code (c ∷ error) fields h fs =
    let coded = to_string code ++ (space ∷ c ∷ error) in
    parse_reply-parts (format_reply code (c ∷ error) fields) (format_status code (c ∷ error))
      control_version (err_word ++ (space ∷ coded)) err_word coded
      (lines (format_fields fields ++ (newline ∷ []))) (reply-lines code (c ∷ error) fields h)
      (cut-at space control_version (err_word ++ (space ∷ coded)) version-Lacks)
      (cut-at space err_word coded err-Lacks)
    ∙ ap some (
        ap (parse_code false coded) (parse_fields-format_fields fields fs)
        ∙ parse_code-err code c error fields)
