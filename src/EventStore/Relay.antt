-- ===== src/EventStore/Relay.antt =====
-- internal/store/postgres/outbox.go: the relay takes the rows of the outbox in the order in which
-- the transactions wrote them.
use ta_platform.Prelude.Results.{ok}
use ta_platform.Prelude.{
  ℕ, zero, suc, ◌<◌, ◌≡◌, refl, ◌∙◌, ap, Bool, true, false, ◌&&◌, List, [], ◌∷◌, ◌++◌, ◌==◌, All,
  drop, length, arith, sort_stable, insert_sorted, ==_refl,
}
use ta_platform.EventStore.{Row, Db, id_less, limited, any_id, without, selected, drain, drain_rows}

-- Identifiers that increase from row to row and stay below `n`.
abbrev pub IsQueue : ℕ → List Row → Type 0
IsQueue n [] = Unit
IsQueue n (r ∷ rs) = All (λ (s : Row). r.id < s.id) rs × ((r.id < n) × IsQueue n rs)

insert_sorted-queue :
    (r : Row) (rs : List Row)
    → All (λ (s : Row). r.id < s.id) rs
    → insert_sorted id_less r rs ≡ r ∷ rs
unfolding insert_sorted
insert_sorted-queue r [] h = refl
insert_sorted-queue r (s ∷ rs) h =
    let later : id_less s r ≡ false = ground (arith, h.0) in rw later refl

sort_stable-queue : (n : ℕ) (rs : List Row) → IsQueue n rs → sort_stable id_less rs ≡ rs
unfolding sort_stable
sort_stable-queue n [] h = refl
sort_stable-queue n (r ∷ rs) h = rw (sort_stable-queue n rs h.1.1) (insert_sorted-queue r rs h.0)

limited-drop : (n : ℕ) (rs : List Row) → limited n rs ++ drop n rs ≡ rs
unfolding limited
limited-drop zero [] = refl
limited-drop zero (r ∷ rs) = refl
limited-drop (suc n) [] = refl
limited-drop (suc n) (r ∷ rs) = ap (λ l. r ∷ l) (limited-drop n rs)

-- Rows above an identifier do not have it.
any_id-above :
    (id : ℕ) (gone : List Row) → All (λ (s : Row). id < s.id) gone → any_id id gone ≡ false
unfolding any_id
any_id-above id [] h = refl
any_id-above id (g ∷ gs) h = ground (arith, any_id-above id gs h.1)

-- A first row that none of the others has the identifier of need not be looked for.
without-cons :
    (g : Row) (gs rs : List Row)
    → All (λ (s : Row). g.id < s.id) rs
    → without (g ∷ gs) rs ≡ without gs rs
unfolding without any_id
without-cons g gs [] h = refl
without-cons g gs (r ∷ rs) h =
    let other : (r.id == g.id) ≡ false = ground (arith, h.0) in
    rw (other, without-cons g gs rs h.1) refl

without-nil : (rs : List Row) → without [] rs ≡ rs
unfolding without any_id
without-nil [] = refl
without-nil (r ∷ rs) = ap (λ l. r ∷ l) (without-nil rs)

limited-zero : (rs : List Row) → limited 0 rs ≡ []
unfolding limited
limited-zero [] = refl
limited-zero (r ∷ rs) = refl

without-limited : (n k : ℕ) (rs : List Row) → IsQueue n rs → without (limited k rs) rs ≡ drop k rs
unfolding without limited any_id
without-limited n zero rs h = rw (limited-zero rs) (without-nil rs)
without-limited n (suc k) [] h = refl
without-limited n (suc k) (r ∷ rs) h =
    rw (==_refl r.id) (without-cons r (limited k rs) rs h.0 ∙ without-limited n k rs h.1.1)

drain_rows-committed :
    (rows : List Row) (db : Db)
    → drain_rows true true rows db
      ≡ (record db { outbox = without rows db.outbox }, ok (length rows))
unfolding drain_rows
drain_rows-committed [] db = rw (without-nil db.outbox) refl
drain_rows-committed (r ∷ rs) db = refl

drain_rows-uncommitted :
    (published committed : Bool) (rows : List Row) (db : Db)
    → published && committed ≡ false
    → (drain_rows published committed rows db).0 ≡ db
unfolding drain_rows
drain_rows-uncommitted published committed [] db h = refl
drain_rows-uncommitted false committed (r ∷ rs) db h = refl
drain_rows-uncommitted true false (r ∷ rs) db h = refl
drain_rows-uncommitted true true (r ∷ rs) db h = absurd (cc)

-- The outbox is in the order of its identifiers, and those to come are above them.
abbrev pub IsOrdered : Db → Type 0
IsOrdered db = IsQueue db.next_id db.outbox

selected-limited :
    (limit : ℕ) (db : Db) → IsOrdered db → selected limit db ≡ limited limit db.outbox
selected-limited limit db h = ap (limited limit) (sort_stable-queue db.next_id db.outbox h)

pub IsQueue-drop : (n k : ℕ) (rs : List Row) → IsQueue n rs → IsQueue n (drop k rs)
IsQueue-drop n zero rs h = h
IsQueue-drop n (suc k) [] h = h
IsQueue-drop n (suc k) (r ∷ rs) h = IsQueue-drop n k rs h.1.1

-- A turn of the relay that holds the lock hands out the first rows of the outbox, up to the limit.
-- If the broker takes them and the transaction commits, exactly these rows are gone and their
-- number is returned; otherwise the tables are as they were, so the rows are handed out again.
pub drain_lem :
    (limit : ℕ) (published committed : Bool) (db : Db)
    → IsOrdered db
    → (selected limit db ++ drop limit db.outbox ≡ db.outbox)
      × (drain limit true true true db
          ≡ (record db { outbox = drop limit db.outbox }, ok (length (selected limit db))))
      × (published && committed ≡ false → (drain limit true published committed db).0 ≡ db)
unfolding drain
drain_lem limit published committed db h =
    let chosen = selected-limited limit db h in
    (
      rw chosen (limited-drop limit db.outbox),
      rw (drain_rows-committed (selected limit db) db)
          (rw chosen (rw (without-limited db.next_id limit db.outbox h) refl)),
      drain_rows-uncommitted published committed (selected limit db) db,
    )
