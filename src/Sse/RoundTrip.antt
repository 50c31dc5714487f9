-- ===== src/Sse/RoundTrip.antt =====
-- What a writer of events wrote, a reader reads.
use ta_platform.Prelude.Results.{Result, ok, err}
use ta_platform.Prelude.{
  ℕ, zero, suc, ◌+◌, ◌<◌, ◌≡◌, refl, sym, ◌∙◌, ap, inl, inr, Bool, true, false, ◌||◌, Option, none,
  some, List, [], ◌∷◌, ◌++◌, Bool-cases, ◌==◌, leb, length, arith, append-nil, All,
}
use ta_platform.Sse.{
  SseEvent, has_newline, event_field, data_field, id_field, field_line, event_text,
  event_text_with_id, comment_text, scan_lines, drop_cr, until_long, Reader, new_reader, is_nothing,
  cut_colon, set_field, same_bytes, parse_line, finished_event, next_from, next_event, eof,
  ReadError, SendError, send_with_id, send_comment,
}

no_tail : (x y : Bool) → (x || y) ≡ false → y ≡ false
no_tail true y h = absurd (ground arith)
no_tail false y h = h

-- A line without newlines is scanned as it was written.
scan_lines-line :
    (l rest : List ℕ) → has_newline l ≡ false → scan_lines (l ++ 10 ∷ rest) ≡ l ∷ scan_lines rest
unfolding scan_lines has_newline
scan_lines-line [] rest h = refl
scan_lines-line (b ∷ bs) rest h = elim (Bool-cases (b == 10)) [
  | inl p ↦ absurd (ground arith)
  | inr p ↦ rw (p, scan_lines-line bs rest (no_tail (b == 10 || b == 13) (has_newline bs) h)) refl
]

no_cr : (b : ℕ) (y : Bool) → ((b == 10 || b == 13) || y) ≡ false → (b == 13) ≡ false
no_cr b y h = ground arith

drop_cr_id : (l : List ℕ) → has_newline l ≡ false → drop_cr l ≡ l
unfolding drop_cr has_newline
drop_cr_id [] h = refl
drop_cr_id (b ∷ []) h = rw (no_cr b false h) refl
drop_cr_id (b ∷ c ∷ bs) h =
    ap (λ l. b ∷ l) (drop_cr_id (c ∷ bs) (no_tail (b == 10 || b == 13) (has_newline (c ∷ bs)) h))

-- A scanned line that is short enough.
until_long-line :
    (limit : ℕ) (l : List ℕ) (ls : List (List ℕ))
    → has_newline l ≡ false
    → length l < limit
    → until_long limit (l ∷ ls) ≡ (l ∷ (until_long limit ls).0, (until_long limit ls).1)
unfolding until_long
until_long-line limit l ls h k = elim (Bool-cases (leb limit (length l))) [
  | inl p ↦ absurd (ground arith)
  | inr p ↦ rw (p, drop_cr_id l h) refl
]

new_reader-line :
    (limit : ℕ) (l rest : List ℕ)
    → has_newline l ≡ false
    → length l < limit
    → new_reader limit (l ++ 10 ∷ rest) ≡ (l ∷ (new_reader limit rest).0, (new_reader limit rest).1)
unfolding new_reader
new_reader-line limit l rest h k =
    rw (scan_lines-line l rest h) (until_long-line limit l (scan_lines rest) h k)

append_assoc : (a b c : List ℕ) → (a ++ b) ++ c ≡ a ++ (b ++ c)
append_assoc [] b c = refl
append_assoc (x ∷ a) b c = ap (λ l. x ∷ l) (append_assoc a b c)

-- A field before the rest of a text.
field_line-append :
    (field value rest more : List ℕ)
    → field_line field value rest ++ more ≡ (field ++ 58 ∷ 32 ∷ value) ++ 10 ∷ (rest ++ more)
unfolding field_line
field_line-append field value rest more =
    append_assoc field (58 ∷ 32 ∷ (value ++ 10 ∷ rest)) more
    ∙ ap (λ l. field ++ 58 ∷ 32 ∷ l) (append_assoc value (10 ∷ rest) more)
    ∙ sym (append_assoc field (58 ∷ 32 ∷ value) (10 ∷ (rest ++ more)))

-- What a client of the writer sends, and what can be sent: no newline, a name, and lines below the
-- scanner's limit.
pub data Sent : Type 0 where
  sent_event : List ℕ → List ℕ → List ℕ → Sent
  sent_comment : List ℕ → Sent

abbrev IsLine : ℕ → List ℕ → Type 0
IsLine limit l = (has_newline l ≡ false) × (length l + 7 < limit)

unfoldable pub IsSendable : ℕ → Sent → Type 0
IsSendable limit (sent_event id name bytes) =
    IsLine limit id × IsLine limit name × (is_nothing name ≡ false) × IsLine limit bytes
IsSendable limit (sent_comment text) = IsLine limit text

abbrev pub send_item : Sent → List ℕ → Result SendError (List ℕ)
send_item (sent_event id name bytes) out = send_with_id false id name bytes out
send_item (sent_comment text) out = send_comment false text out

abbrev text_of : Sent → List ℕ
text_of (sent_event id name bytes) = event_text_with_id id name bytes
text_of (sent_comment text) = comment_text text

abbrev after_send :
    (List ℕ → Result SendError (List ℕ)) → Result SendError (List ℕ) → Result SendError (List ℕ)
after_send more (err e) = err e
after_send more (ok out) = more out

unfoldable pub send_all : List Sent → List ℕ → Result SendError (List ℕ)
unfolding send_with_id send_comment
send_all [] out = ok out
send_all (x ∷ xs) out = after_send (send_all xs) (send_item x out)

abbrev pub events_of : List Sent → List SseEvent
events_of [] = []
events_of (sent_event id name bytes ∷ xs) =
    (record { id = id; name = name; data_bytes = bytes }) ∷ events_of xs
events_of (sent_comment text ∷ xs) = events_of xs

-- A client that calls Next until it fails; `none` is out of fuel.
abbrev read_on :
    (Reader → List SseEvent × Option ReadError)
    → Result ReadError (SseEvent × Reader)
    → List SseEvent × Option ReadError
read_on again (err e) = ([], some e)
read_on again (ok (event, r)) = let (events, e) = again r in (event ∷ events, e)

unfoldable pub read_all : ℕ → Reader → List SseEvent × Option ReadError
unfolding next_event
read_all zero r = ([], none)
read_all (suc n) r = read_on (read_all n) (next_event r)

module _ (limit : ℕ) where
  new_reader-field :
      (field value rest more : List ℕ)
      → has_newline (field ++ 58 ∷ 32 ∷ value) ≡ false
      → length (field ++ 58 ∷ 32 ∷ value) < limit
      → new_reader limit (field_line field value rest ++ more) ≡ (
        (field ++ 58 ∷ 32 ∷ value) ∷ (new_reader limit (rest ++ more)).0,
        (new_reader limit (rest ++ more)).1,
      )
  new_reader-field field value rest more h k =
      ap (new_reader limit) (field_line-append field value rest more)
      ∙ new_reader-line limit (field ++ 58 ∷ 32 ∷ value) (rest ++ more) h k

  blank_line :
      (more : List ℕ)
      → 0 < limit
      → new_reader limit (10 ∷ more) ≡ ([] ∷ (new_reader limit more).0, (new_reader limit more).1)
  unfolding has_newline
  blank_line more k = new_reader-line limit [] more refl k

  -- The lines of an event.
  new_reader-event :
      (id name bytes more : List ℕ)
      → IsSendable limit (sent_event id name bytes)
      → new_reader limit (event_text_with_id id name bytes ++ more) ≡ (
        (id_field ++ 58 ∷ 32 ∷ id)
            ∷ (event_field ++ 58 ∷ 32 ∷ name)
            ∷ (data_field ++ 58 ∷ 32 ∷ bytes)
            ∷ []
            ∷ (new_reader limit more).0,
        (new_reader limit more).1,
      )
  unfolding IsSendable has_newline event_text_with_id event_text
  new_reader-event id name bytes more (h, k, n, d) =
      let tail = field_line data_field bytes (10 ∷ []) in
      let last =
        new_reader-field data_field bytes (10 ∷ []) more d.0 (omega (arith, d.1))
        ∙ ap (λ r. ((data_field ++ 58 ∷ 32 ∷ bytes) ∷ r.0, r.1))
            (blank_line more (omega (arith, d.1))) in
      let middle =
        new_reader-field event_field name tail more k.0 (omega (arith, k.1))
        ∙ ap (λ r. ((event_field ++ 58 ∷ 32 ∷ name) ∷ r.0, r.1)) last in
      new_reader-field id_field id (field_line event_field name tail) more h.0 (omega (arith, h.1))
      ∙ ap (λ r. ((id_field ++ 58 ∷ 32 ∷ id) ∷ r.0, r.1)) middle

  next_event-event :
      (id name bytes : List ℕ) (r : Reader)
      → is_nothing name ≡ false
      → next_event (
        (id_field ++ 58 ∷ 32 ∷ id)
            ∷ (event_field ++ 58 ∷ 32 ∷ name)
            ∷ (data_field ++ 58 ∷ 32 ∷ bytes)
            ∷ []
            ∷ r.0,
        r.1,
      )
        ≡ ok (record { id = id; name = name; data_bytes = bytes }, r)
  unfolding next_event next_from parse_line finished_event cut_colon set_field same_bytes
  next_event-event id name bytes r n = rw n refl

  new_reader-comment :
      (text more : List ℕ)
      → IsSendable limit (sent_comment text)
      → new_reader limit (comment_text text ++ more)
        ≡ ((58 ∷ 32 ∷ text) ∷ [] ∷ (new_reader limit more).0, (new_reader limit more).1)
  unfolding IsSendable comment_text has_newline
  new_reader-comment text more (h, k) =
      ap (λ t. new_reader limit (58 ∷ 32 ∷ t)) (append_assoc text (10 ∷ 10 ∷ []) more)
      ∙ new_reader-line limit (58 ∷ 32 ∷ text) (10 ∷ more) h (omega (arith, k))
      ∙ ap (λ r. ((58 ∷ 32 ∷ text) ∷ r.0, r.1)) (blank_line more (omega (arith, k)))

  next_event-comment :
      (text : List ℕ) (r : Reader) → next_event ((58 ∷ 32 ∷ text) ∷ [] ∷ r.0, r.1) ≡ next_event r
  unfolding next_event next_from
  next_event-comment text r = refl

  -- The texts of all that is sent, one after the other.
  texts_of : List Sent → List ℕ
  texts_of [] = []
  texts_of (x ∷ xs) = text_of x ++ texts_of xs

  send_all-texts_of :
      (xs : List Sent) (out : List ℕ)
      → All (IsSendable limit) xs
      → send_all xs out ≡ ok (out ++ texts_of xs)
  unfolding send_all texts_of IsSendable send_with_id send_comment
  send_all-texts_of [] out h = ap ok (sym (append-nil out))
  send_all-texts_of (sent_event id name bytes ∷ xs) out ((h, k, n, d), hs) =
      rw (h.0, k.0)
        (send_all-texts_of xs (out ++ event_text_with_id id name bytes) hs
          ∙ ap ok (append_assoc out (event_text_with_id id name bytes) (texts_of xs)))
  send_all-texts_of (sent_comment text ∷ xs) out (h, hs) = rw (h.0) (
      send_all-texts_of xs (out ++ comment_text text) hs
      ∙ ap ok (append_assoc out (comment_text text) (texts_of xs)))

  at_end : next_event (new_reader limit []) ≡ err eof
  unfolding new_reader until_long scan_lines next_event next_from
  at_end = refl

  read_all-texts_of :
      (xs : List Sent) (n : ℕ)
      → All (IsSendable limit) xs
      → length xs < n
      → read_all n (new_reader limit (texts_of xs)) ≡ (events_of xs, some eof)
  unfolding read_all texts_of IsSendable
  read_all-texts_of xs zero h k = absurd (omega (arith, k))
  read_all-texts_of [] (suc n) h k = ap (read_on (read_all n)) at_end
  read_all-texts_of (sent_event id name bytes ∷ xs) (suc n) (h, hs) k =
      let e : SseEvent = record { id = id; name = name; data_bytes = bytes } in
      ap (λ r. read_on (read_all n) (next_event r)) (new_reader-event id name bytes (texts_of xs) h)
      ∙ ap (read_on (read_all n))
          (next_event-event id name bytes (new_reader limit (texts_of xs)) h.2)
      ∙ ap (λ y. (e ∷ y.0, y.1)) (read_all-texts_of xs n hs (omega (arith, k)))
  read_all-texts_of (sent_comment text ∷ xs) (suc n) (h, hs) k =
      ap (λ r. read_on (read_all n) (next_event r)) (new_reader-comment text (texts_of xs) h)
      ∙ ap (read_on (read_all n)) (next_event-comment text (new_reader limit (texts_of xs)))
      ∙ read_all-texts_of xs (suc n) hs (omega (arith, k))

-- A client reads back exactly the events that a writer sent, in order, with their ids, names and data,
-- then the end of the stream: for every list of events and comments whose parts hold no newline, whose
-- names are not empty, and whose lines are shorter than the scanner's limit.
pub read_all-send_all :
    (limit : ℕ) (xs : List Sent)
    → All (IsSendable limit) xs
    → (out : List ℕ) × (send_all xs [] ≡ ok out)
      × (read_all (length xs + 1) (new_reader limit out) ≡ (events_of xs, some eof))
read_all-send_all limit xs h = (
  texts_of limit xs,
  send_all-texts_of limit xs [] h,
  read_all-texts_of limit xs (length xs + 1) h (omega arith),
)
