-- ===== src/Workspace/Counts.antt =====
-- internal/candidateworkspace/unidiff.go: what the counts of an accepted patch are.
use ta_platform.Prelude.{
  ℕ, ◌+◌, ◌≡◌, refl, ap, true, false, Option, none, some, List, [], ◌∷◌, if◌then◌else◌, ◌==◌, arith,
  inl, inr, Bool-cases, Option-cases, some_eq,
}
use ta_platform.Workspace.{
  Bytes, starts, at_at, split_lines, trim_newline, hunk_header, Hunks, no_hunks, is_file_header,
  is_whole, opened, in_hunk, read_line, read_lines, counted, count_unified_diff,
}

-- The lines from the first hunk header on.
abbrev pub hunk_part : List Bytes → List Bytes
hunk_part [] = []
hunk_part (l ∷ ls) = if starts at_at l then l ∷ ls else hunk_part ls

-- The lines that begin with a byte.
abbrev pub beginning : ℕ → List Bytes → ℕ
beginning b [] = 0
beginning b (l ∷ ls) = (if starts (b ∷ []) l then 1 else 0) + beginning b ls

abbrev old_of : Option (ℕ × ℕ) → ℕ
old_of none = 0
old_of (some (old, new)) = old

abbrev new_of : Option (ℕ × ℕ) → ℕ
new_of none = 0
new_of (some (old, new)) = new

-- What all the hunk headers say.
abbrev pub declared_old : List Bytes → ℕ
declared_old [] = 0
declared_old (l ∷ ls) = (if starts at_at l then old_of (hunk_header l) else 0) + declared_old ls

abbrev pub declared_new : List Bytes → ℕ
declared_new [] = 0
declared_new (l ∷ ls) = (if starts at_at l then new_of (hunk_header l) else 0) + declared_new ls

-- From a state within a hunk to the end of a whole hunk.
abbrev IsBalanced : Hunks → List Bytes → Hunks → Type 0
IsBalanced s ls end =
    (end.added ≡ s.added + beginning 43 ls)
    × (end.removed ≡ s.removed + beginning 45 ls)
    × (s.new_count + declared_new ls + beginning 45 ls + s.old_seen
        ≡ s.old_count + declared_old ls + beginning 43 ls + s.new_seen)

in_hunk-IsBalanced :
    (l : Bytes) (s t : Hunks) (ls : List Bytes) (end : Hunks)
    → starts at_at l ≡ false
    → in_hunk l s ≡ some t
    → IsBalanced t ls end
    → IsBalanced s (l ∷ ls) end
in_hunk-IsBalanced [] s t ls end h e b = ground arith
in_hunk-IsBalanced (x ∷ xs) s t ls end h e b = ground arith

in_hunk-hunks : (l : Bytes) (s t : Hunks) → in_hunk l s ≡ some t → t.hunks ≡ s.hunks
in_hunk-hunks [] s t e = ground arith
in_hunk-hunks (x ∷ xs) s t e = ground arith

at_at-first :
    (l : Bytes)
    → starts at_at l ≡ true
    → (starts (43 ∷ []) l ≡ false) × (starts (45 ∷ []) l ≡ false)
at_at-first [] h = absurd (cc)
at_at-first (b ∷ bs) h = ground arith

opened-parts :
    (r : Option (ℕ × ℕ)) (s t : Hunks)
    → opened s r ≡ some t
    → (t.added ≡ s.added)
      × (t.removed ≡ s.removed)
      × (t.hunks ≡ s.hunks + 1)
      × (t.old_count ≡ old_of r)
      × (t.new_count ≡ new_of r)
      × (t.old_seen ≡ 0)
      × (t.new_seen ≡ 0)
opened-parts none s t e = absurd (cc)
opened-parts (some (old, new)) s t e = ground arith

whole : (s : Hunks) → is_whole s ≡ true → (s.old_seen ≡ s.old_count) × (s.new_seen ≡ s.new_count)
whole s w = ground arith

opened-IsBalanced :
    (l : Bytes) (s t : Hunks) (ls : List Bytes) (end : Hunks)
    → starts at_at l ≡ true
    → is_whole s ≡ true
    → opened s (hunk_header l) ≡ some t
    → IsBalanced t ls end
    → IsBalanced s (l ∷ ls) end
opened-IsBalanced l s t ls end h w e b =
    let (plus, minus) = at_at-first l h in
    let (added, removed, count, old, new, old_seen, new_seen) =
      opened-parts (hunk_header l) s t e in
    let (old_whole, new_whole) = whole s w in
    rw (h, plus, minus) (omega arith, omega arith, omega arith)

nil-IsBalanced : (s end : Hunks) → s ≡ end → is_whole end ≡ true → IsBalanced s [] end
nil-IsBalanced s end e w =
    let (old, new) = whole s (rw e w) in (rw e (omega arith), rw e (omega arith), omega arith)

none_not_some : (end : Hunks) → ◌≡◌ {A = Option Hunks} none (some end) → ⊥
none_not_some end h = cc

read_lines-none : (ls : List Bytes) (end : Hunks) → read_lines ls none ≡ some end → ⊥
unfolding read_lines
read_lines-none ls end h = none_not_some end h

-- The lines after the first hunk header, up to the end with the last hunk whole.
read_lines-IsBalanced :
    (ls : List Bytes) (s end : Hunks)
    → (s.hunks == 0) ≡ false
    → is_whole end ≡ true
    → read_lines ls (some s) ≡ some end
    → IsBalanced s ls end
unfolding read_lines read_line
read_lines-IsBalanced [] s end n w e = nil-IsBalanced s end (some_eq s end e) w
read_lines-IsBalanced (l ∷ ls) s end n w e = elim (Bool-cases (starts at_at l)) [
  | inl header ↦ elim (Bool-cases (is_whole s)) [
    | inr broken ↦ absurd (read_lines-none ls end (rw (header, broken) at e))
    | inl closed ↦ elim (Option-cases (opened s (hunk_header l))) [
      | inl bad ↦ absurd (read_lines-none ls end (rw (header, closed, bad) at e))
      | inr (t, good) ↦
          let (added, removed, count, old, new, old_seen, new_seen) =
            opened-parts (hunk_header l) s t good in
          opened-IsBalanced l s t ls end header closed good (
            read_lines-IsBalanced ls t end (rw count (ground arith)) w
              (rw (header, closed, good) at e))
    ]
  ]
  | inr body ↦ elim (Option-cases (in_hunk l s)) [
    | inl bad ↦ absurd (read_lines-none ls end (rw (body, n, bad) at e))
    | inr (t, good) ↦ in_hunk-IsBalanced l s t ls end body good (
        read_lines-IsBalanced ls t end (rw (in_hunk-hunks l s t good) n) w
          (rw (body, n, good) at e))
  ]
]

-- The lines before it leave the counters as they are.
read_lines-start :
    (ls : List Bytes) (end : Hunks)
    → (end.hunks == 0) ≡ false
    → is_whole end ≡ true
    → read_lines ls (some no_hunks) ≡ some end
    → IsBalanced no_hunks (hunk_part ls) end
unfolding read_lines read_line
read_lines-start [] end n w e = nil-IsBalanced no_hunks end (some_eq no_hunks end e) w
read_lines-start (l ∷ ls) end n w e = elim (Bool-cases (starts at_at l)) [
  | inl header ↦ elim (Option-cases (opened no_hunks (hunk_header l))) [
    | inl bad ↦ absurd (read_lines-none ls end (rw (header, bad) at e))
    | inr (t, good) ↦
        let (added, removed, count, old, new, old_seen, new_seen) =
          opened-parts (hunk_header l) no_hunks t good in
        rw header (
          opened-IsBalanced l no_hunks t ls end header refl good
            (read_lines-IsBalanced ls t end (rw count refl) w (rw (header, good) at e)))
  ]
  | inr other ↦ elim (Bool-cases (is_file_header l)) [
    | inl file ↦ rw other (read_lines-start ls end n w (rw (other, file) at e))
    | inr bad ↦ absurd (read_lines-none ls end (rw (other, bad) at e))
  ]
]

counted_parts :
    (s : Hunks) (added removed : ℕ)
    → counted (some s) ≡ some (added, removed)
    → (is_whole s ≡ true) × ((s.hunks == 0) ≡ false) × (s.added ≡ added) × (s.removed ≡ removed)
counted_parts s added removed h = elim (Bool-cases (is_whole s)) [
  | inr broken ↦ absurd (none_pair (rw broken at h))
  | inl closed ↦ elim (Bool-cases (s.hunks == 0)) [
    | inl empty ↦ absurd (none_pair (rw (closed, empty) at h))
    | inr full ↦
        let same = some_eq (s.added, s.removed) (added, removed) (rw (closed, full) at h) in
        (closed, full, ap (λ p. p.0) same, ap (λ p. p.1) same)
  ]
]
  where
    none_pair : ◌≡◌ {A = Option (ℕ × ℕ)} none (some (added, removed)) → ⊥
    none_pair h = cc

counted-some :
    (r : Option Hunks) (added removed : ℕ)
    → counted r ≡ some (added, removed)
    → (s : Hunks) × (r ≡ some s)
      × (is_whole s ≡ true)
      × ((s.hunks == 0) ≡ false)
      × (s.added ≡ added)
      × (s.removed ≡ removed)
counted-some none added removed h = absurd (cc)
counted-some (some s) added removed h =
    let (closed, full, a, r) = counted_parts s added removed h in (s, refl, closed, full, a, r)

-- An accepted patch: from its first hunk header on, the added lines are those that begin with "+",
-- the removed ones those that begin with "-", and what the headers say agrees with them: all new
-- counts together with the removed lines are as many as all old counts with the added lines.
pub count_unified_diff_lem :
    (patch : Bytes) (added removed : ℕ)
    → count_unified_diff patch ≡ some (added, removed)
    → let ls = hunk_part (split_lines (trim_newline patch)) in
      (added ≡ beginning 43 ls)
      × (removed ≡ beginning 45 ls)
      × (declared_new ls + removed ≡ declared_old ls + added)
unfolding count_unified_diff
count_unified_diff_lem patch added removed h =
    let ls = split_lines (trim_newline patch) in
    let (end, read, closed, some_hunk, a, r) =
      counted-some (read_lines ls (some no_hunks)) added removed h in
    let (plus, minus, sum) = read_lines-start ls end some_hunk closed read in
    (omega arith, omega arith, omega arith)
