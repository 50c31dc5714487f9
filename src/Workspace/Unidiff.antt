-- ===== src/Workspace/Unidiff.antt =====
-- internal/candidateworkspace/unidiff.go, on the bytes of a patch. The counters stay below the
-- length of a patch, so they are numbers. An error is `none`; the texts of the errors are left out.
-- The pattern of a hunk header leaves no choice, so its groups are read from left to right.
use ta_platform.Prelude.{
  ℕ, ◌+◌, ◌*◌, ◌-◌, ◌^◌, Bool, true, false, not, ◌&&◌, ◌||◌, Option, none, some, List, [], ◌∷◌, ltb,
  leb, ◌==◌, if◌then◌else◌,
}

abbrev pub Bytes : Type 0
Bytes = List ℕ

-- strings.HasPrefix
abbrev pub starts : Bytes → Bytes → Bool
starts [] line = true
starts (p ∷ ps) [] = false
starts (p ∷ ps) (b ∷ bs) = p == b && starts ps bs

abbrev pub at_at : Bytes
at_at = 64 ∷ 64 ∷ []

-- strings.Split at "\n"; `line` is the line being read, and `first` puts a byte at its front.
abbrev pub to_first : ℕ → List Bytes → List Bytes
to_first b [] = (b ∷ []) ∷ []
to_first b (l ∷ ls) = (b ∷ l) ∷ ls

unfoldable pub split_lines : Bytes → List Bytes
split_lines [] = [] ∷ []
split_lines (b ∷ bs) = let rest = split_lines bs in if b == 10 then [] ∷ rest else to_first b rest

abbrev pub is_nil : Bytes → Bool
is_nil [] = true
is_nil (b ∷ bs) = false

-- strings.TrimSuffix of "\n"
unfoldable pub trim_newline : Bytes → Bytes
trim_newline [] = []
trim_newline (b ∷ bs) = let rest = trim_newline bs in if is_nil bs && b == 10 then [] else b ∷ rest

abbrev pub is_digit : ℕ → Bool
is_digit b = leb 48 b && leb b 57

-- The digits at the front, and what follows them.
abbrev after_digit : ℕ → Bytes × Bytes → Bytes × Bytes
after_digit b (ds, rest) = (b ∷ ds, rest)

unfoldable pub digits : Bytes → Bytes × Bytes
digits [] = ([], [])
digits (b ∷ bs) = let rest = digits bs in if is_digit b then after_digit b rest else ([], b ∷ bs)

-- strconv.Atoi of digits: out of range it returns the greatest int.
abbrev pub at_most_int : ℕ → ℕ
at_most_int n = if ltb n (2 ^ 63) then n else 2 ^ 63 - 1

unfoldable pub value : ℕ → Bytes → ℕ
value n [] = n
value n (d ∷ ds) = value (n * 10 + (d - 48)) ds

unfoldable pub hunk_length : Bytes → ℕ
unfolding value
hunk_length [] = 1
hunk_length (d ∷ ds) = at_most_int (value 0 (d ∷ ds))

-- (\d+)
abbrev pub some_digits : Bytes × Bytes → Option (Bytes × Bytes)
some_digits ([], rest) = none
some_digits (d ∷ ds, rest) = some (d ∷ ds, rest)

-- (?:,(\d+))? ; an empty group is no digits.
abbrev pub or_empty : Bytes → Option (Bytes × Bytes) → Bytes × Bytes
or_empty line none = ([], line)
or_empty line (some r) = r

abbrev pub comma_group : Bytes → Bytes × Bytes
comma_group [] = ([], [])
comma_group (b ∷ bs) = if b == 44 then or_empty (b ∷ bs) (some_digits (digits bs)) else ([], b ∷ bs)

-- What follows a literal text.
abbrev pub skip : Bytes → Bytes → Option Bytes
skip [] line = some line
skip (p ∷ ps) [] = none
skip (p ∷ ps) (b ∷ bs) = let rest = skip ps bs in if p == b then rest else none

-- (\d+)(?:,(\d+))? : the second group, and what follows.
abbrev pub range_tail : Option (Bytes × Bytes) → Option (Bytes × Bytes)
range_tail none = none
range_tail (some (ds, rest)) = some (comma_group rest)

abbrev pub range_at : Option Bytes → Option (Bytes × Bytes)
range_at none = none
range_at (some line) = range_tail (some_digits (digits line))

abbrev pub header_end : Bytes → Bytes → Option Bytes → Option (ℕ × ℕ)
header_end old new none = none
header_end old new (some rest) = some (hunk_length old, hunk_length new)

abbrev pub header_new : Bytes → Option (Bytes × Bytes) → Option (ℕ × ℕ)
header_new old none = none
header_new old (some (new, rest)) = header_end old new (skip (32 ∷ 64 ∷ 64 ∷ []) rest)

abbrev pub header_old : Option (Bytes × Bytes) → Option (ℕ × ℕ)
header_old none = none
header_old (some (old, rest)) = header_new old (range_at (skip (32 ∷ 43 ∷ []) rest))

-- The old and the new count of a hunk header.
unfoldable pub hunk_header : Bytes → Option (ℕ × ℕ)
unfolding digits hunk_length
hunk_header line = header_old (range_at (skip (64 ∷ 64 ∷ 32 ∷ 45 ∷ []) line))

-- The variables of the loops; `hunks` is 0 before the first hunk.
pub record Hunks : Type 0 where
  pub hunks : ℕ
  pub added : ℕ
  pub removed : ℕ
  pub old_count : ℕ
  pub new_count : ℕ
  pub old_seen : ℕ
  pub new_seen : ℕ

abbrev pub no_hunks : Hunks
no_hunks = record {
  hunks = 0;
  added = 0;
  removed = 0;
  old_count = 0;
  new_count = 0;
  old_seen = 0;
  new_seen = 0;
}

-- A line before the first hunk: "--- ", "+++ ", "diff ", "index ".
abbrev pub is_file_header : Bytes → Bool
is_file_header line =
    starts (45 ∷ 45 ∷ 45 ∷ 32 ∷ []) line
    || (starts (43 ∷ 43 ∷ 43 ∷ 32 ∷ []) line
        || (starts (100 ∷ 105 ∷ 102 ∷ 102 ∷ 32 ∷ []) line
            || starts (105 ∷ 110 ∷ 100 ∷ 101 ∷ 120 ∷ 32 ∷ []) line))

abbrev pub is_whole : Hunks → Bool
is_whole s = s.old_seen == s.old_count && s.new_seen == s.new_count

abbrev pub opened : Hunks → Option (ℕ × ℕ) → Option Hunks
opened s none = none
opened s (some (old, new)) =
    some (record s {
      hunks = s.hunks + 1;
      old_count = old;
      new_count = new;
      old_seen = 0;
      new_seen = 0;
    })

-- A line in a hunk.
abbrev pub in_hunk : Bytes → Hunks → Option Hunks
in_hunk [] s = some (record s { old_seen = s.old_seen + 1; new_seen = s.new_seen + 1 })
in_hunk (b ∷ bs) s =
    if b == 43
    then some (record s { added = s.added + 1; new_seen = s.new_seen + 1 })
    else if b == 45
    then some (record s { removed = s.removed + 1; old_seen = s.old_seen + 1 })
    else if b == 32
    then some (record s { old_seen = s.old_seen + 1; new_seen = s.new_seen + 1 })
    else if b == 92
    then some s
    else none

-- One line. A line that begins with "@@" ends the hunk before it, which must be whole.
unfoldable pub read_line : Bytes → Hunks → Option Hunks
unfolding hunk_header
read_line line s =
    if starts at_at line
    then (if is_whole s then opened s (hunk_header line) else none)
    else if s.hunks == 0
    then (if is_file_header line then some s else none)
    else in_hunk line s

unfoldable pub read_lines : List Bytes → Option Hunks → Option Hunks
unfolding read_line
read_lines ls none = none
read_lines [] (some s) = some s
read_lines (l ∷ ls) (some s) = read_lines ls (read_line l s)

abbrev pub counted : Option Hunks → Option (ℕ × ℕ)
counted none = none
counted (some s) =
    if not (is_whole s) then none else if s.hunks == 0 then none else some (s.added, s.removed)

unfoldable pub count_unified_diff : Bytes → Option (ℕ × ℕ)
unfolding read_lines split_lines trim_newline
count_unified_diff patch = counted (read_lines (split_lines (trim_newline patch)) (some no_hunks))
