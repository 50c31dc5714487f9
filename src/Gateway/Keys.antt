-- ===== src/Gateway/Keys.antt =====
-- internal/aigateway/key.go: Key. A key is shared by pointer, so the keys live in a heap: a pointer
-- is a number below `next`, and `secret` holds the bytes behind it.
use ta_platform.Prelude.{
  ℕ, ◌+◌, Bool, true, false, Option, none, some, List, [], ◌∷◌, ◌==◌, if◌then◌else◌,
}

pub record KeyHeap : Type 0 where
  pub next : ℕ
  pub secret : ℕ → List ℕ

abbrev pub write_key : ℕ → List ℕ → KeyHeap → KeyHeap
write_key k bytes h = record h { secret = λ r. if r == k then bytes else h.secret r }

unfoldable pub new_key : List ℕ → KeyHeap → KeyHeap × ℕ
new_key bytes h = (record (write_key h.next bytes h) { next = h.next + 1 }, h.next)

unfoldable pub reveal : KeyHeap → Option ℕ → List ℕ
reveal h none = []
reveal h (some k) = h.secret k

unfoldable pub clone : ℕ → KeyHeap → KeyHeap × ℕ
unfolding new_key
clone k h = new_key (h.secret k) h

abbrev pub is_nil : List ℕ → Bool
is_nil [] = true
is_nil (b ∷ bs) = false

unfoldable pub is_zeroed : KeyHeap → ℕ → Bool
is_zeroed h k = is_nil (h.secret k)

unfoldable pub zero_key : Option ℕ → KeyHeap → KeyHeap
zero_key none h = h
zero_key (some k) h = write_key k [] h
