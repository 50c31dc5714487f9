-- ===== src/Sse/Stream.antt =====
-- internal/sse/sse.go: Writer.SendRaw, SendWithID and Comment, which write to the response, and
-- Reader.Next. A text is the list of its bytes. The reader's scanner is bufio.ScanLines: lines end at a
-- line feed, lose a carriage return at their end, and are an error from 4 MiB on.
use ta_platform.Prelude.Results.{Result, ok, err}
use ta_platform.Prelude.{
  ℕ, Bool, true, false, ◌&&◌, ◌||◌, List, [], ◌∷◌, ◌++◌, ◌==◌, leb, length, if◌then◌else◌,
}

pub record SseEvent : Type 0 where
  pub id : List ℕ
  pub name : List ℕ
  pub data_bytes : List ℕ

-- The checks on a newline, or a failed write.
pub data SendError : Type 0 where
  id_newline name_newline comment_newline write_failed : SendError

pub data ReadError : Type 0 where
  eof unexpected_eof line_too_long : ReadError

abbrev pub lf : ℕ
lf = 10

-- strings.ContainsAny(_, "\r\n")
unfoldable pub has_newline : List ℕ → Bool
has_newline [] = false
has_newline (b ∷ bs) = (b == 10 || b == 13) || has_newline bs

-- "event", "data", "id", "message"
abbrev pub event_field : List ℕ
event_field = 101 ∷ 118 ∷ 101 ∷ 110 ∷ 116 ∷ []

abbrev pub data_field : List ℕ
data_field = 100 ∷ 97 ∷ 116 ∷ 97 ∷ []

abbrev pub id_field : List ℕ
id_field = 105 ∷ 100 ∷ []

abbrev pub default_name : List ℕ
default_name = 109 ∷ 101 ∷ 115 ∷ 115 ∷ 97 ∷ 103 ∷ 101 ∷ []

-- "<field>: <value>\n" before the rest.
unfoldable pub field_line : List ℕ → List ℕ → List ℕ → List ℕ
field_line field value rest = field ++ 58 ∷ 32 ∷ (value ++ 10 ∷ rest)

-- The response so far, after a write that may fail.
abbrev pub written : Bool → List ℕ → List ℕ → Result SendError (List ℕ)
written fails text out = if fails then err write_failed else ok (out ++ text)

unfoldable pub event_text : List ℕ → List ℕ → List ℕ
unfolding field_line
event_text name bytes = field_line event_field name (field_line data_field bytes (10 ∷ []))

unfoldable pub event_text_with_id : List ℕ → List ℕ → List ℕ → List ℕ
unfolding field_line event_text
event_text_with_id id name bytes = field_line id_field id (event_text name bytes)

unfoldable pub comment_text : List ℕ → List ℕ
comment_text text = 58 ∷ 32 ∷ (text ++ 10 ∷ 10 ∷ [])

unfoldable pub send_raw : Bool → List ℕ → List ℕ → List ℕ → Result SendError (List ℕ)
unfolding has_newline event_text
send_raw fails name bytes out =
    if has_newline name then err name_newline else written fails (event_text name bytes) out

unfoldable pub send_with_id : Bool → List ℕ → List ℕ → List ℕ → List ℕ → Result SendError (List ℕ)
unfolding has_newline event_text_with_id
send_with_id fails id name bytes out =
    if has_newline id
    then err id_newline
    else if has_newline name
    then err name_newline
    else written fails (event_text_with_id id name bytes) out

unfoldable pub send_comment : Bool → List ℕ → List ℕ → Result SendError (List ℕ)
unfolding has_newline comment_text
send_comment fails text out =
    if has_newline text then err comment_newline else written fails (comment_text text) out

abbrev pub to_first : ℕ → List (List ℕ) → List (List ℕ)
to_first b [] = (b ∷ []) ∷ []
to_first b (l ∷ ls) = (b ∷ l) ∷ ls

-- The lines of a text; what follows the last line feed is a line if it is not empty.
unfoldable pub scan_lines : List ℕ → List (List ℕ)
scan_lines [] = []
scan_lines (b ∷ bs) = let rest = scan_lines bs in if b == 10 then [] ∷ rest else to_first b rest

-- bufio's dropCR
unfoldable pub drop_cr : List ℕ → List ℕ
drop_cr [] = []
drop_cr (b ∷ []) = if b == 13 then [] else b ∷ []
drop_cr (b ∷ c ∷ bs) = b ∷ drop_cr (c ∷ bs)

abbrev pub max_line : ℕ
max_line = 4194304

-- The lines up to the first that is too long, and whether there is one.
unfoldable pub until_long : ℕ → List (List ℕ) → List (List ℕ) × Bool
unfolding drop_cr
until_long limit [] = ([], false)
until_long limit (l ∷ ls) =
    let (rest, long) = until_long limit ls in
    if leb limit (length l) then ([], true) else (drop_cr l ∷ rest, long)

-- A reader: the lines that it has yet to read, and whether they end in an error.
abbrev pub Reader : Type 0
Reader = List (List ℕ) × Bool

unfoldable pub new_reader : ℕ → List ℕ → Reader
unfolding scan_lines until_long
new_reader limit text = until_long limit (scan_lines text)

-- The event under way: `data_lines` is the last line first.
pub record Partial : Type 0 where
  pub id : List ℕ
  pub name : List ℕ
  pub data_lines : List (List ℕ)
  pub seen : Bool

abbrev pub is_nothing : List ℕ → Bool
is_nothing [] = true
is_nothing (b ∷ bs) = false

abbrev pub starts_with_colon : List ℕ → Bool
starts_with_colon [] = false
starts_with_colon (b ∷ bs) = b == 58

unfoldable pub same_bytes : List ℕ → List ℕ → Bool
same_bytes [] [] = true
same_bytes (a ∷ rest) (b ∷ bs) = a == b && same_bytes rest bs
same_bytes _ _ = false

-- strings.Cut at the first colon: the field and the value.
abbrev to_field : ℕ → List ℕ × List ℕ → List ℕ × List ℕ
to_field b (field, value) = (b ∷ field, value)

unfoldable pub cut_colon : List ℕ → List ℕ × List ℕ
cut_colon [] = ([], [])
cut_colon (b ∷ bs) = let rest = cut_colon bs in if b == 58 then ([], bs) else to_field b rest

abbrev pub trim_space : List ℕ → List ℕ
trim_space [] = []
trim_space (b ∷ bs) = if b == 32 then bs else b ∷ bs

-- The switch on the field.
unfoldable pub set_field : List ℕ → List ℕ → Partial → Partial
unfolding same_bytes
set_field field value p =
    if same_bytes field event_field
    then record p { name = value; seen = true }
    else if same_bytes field data_field
    then record p { data_lines = value ∷ p.data_lines; seen = true }
    else if same_bytes field id_field
    then record p { id = value; seen = true }
    else p

unfoldable pub parse_line : List ℕ → Partial → Partial
unfolding cut_colon set_field
parse_line line p = let (field, value) = cut_colon line in set_field field (trim_space value) p

-- strings.Join with "\n", of the last line first.
abbrev pub joined_lines : List (List ℕ) → List ℕ → List ℕ
joined_lines [] text = text
joined_lines (l ∷ ls) text = joined_lines ls (l ++ 10 ∷ text)

abbrev pub join_lines : List (List ℕ) → List ℕ
join_lines [] = []
join_lines (l ∷ ls) = joined_lines ls l

unfoldable pub finished_event : Partial → SseEvent
finished_event p = record {
  id = p.id;
  name = if is_nothing p.name then default_name else p.name;
  data_bytes = join_lines p.data_lines;
}

abbrev pub ended_stream : Bool → Bool → ReadError
ended_stream long seen = if long then line_too_long else if seen then unexpected_eof else eof

-- The loop of Next.
unfoldable pub next_from : Partial → List (List ℕ) → Bool → Result ReadError (SseEvent × Reader)
unfolding parse_line finished_event
next_from p [] long = err (ended_stream long p.seen)
next_from p (line ∷ lines) long =
    let skip = next_from p lines long in
    let more = next_from (parse_line line p) lines long in
    if is_nothing line
    then if p.seen then ok (finished_event p, (lines, long)) else skip
    else if starts_with_colon line
    then skip
    else more

abbrev pub no_event : Partial
no_event = record { id = []; name = []; data_lines = []; seen = false }

unfoldable pub next_event : Reader → Result ReadError (SseEvent × Reader)
unfolding next_from
next_event (lines, long) = next_from no_event lines long
