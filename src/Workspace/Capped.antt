-- ===== src/Workspace/Capped.antt =====
-- internal/candidateworkspace/run.go: the output that a run leaves in the event log.
use ta_platform.Prelude.{
  ℕ, zero, suc, ◌≤◌, ◌<◌, ◌⊎◌, ◌≡◌, refl, Bool, true, false, [], ◌∷◌, leb, ◌==◌, ==_iff, arith, inl,
  inr, Bool-cases, length, leb→le,
}
use ta_platform.Workspace.{
  Bytes, event_output_bytes, byte_at, rune_start, cut_back, take_bytes, cap_to, cap_output,
}

cut_back-le : (n : ℕ) (output : Bytes) → cut_back n output ≤ n
unfolding cut_back
cut_back-le zero output = omega arith
cut_back-le (suc n) output = ground (arith, cut_back-le n output)

length-take_bytes : (n : ℕ) (bs : Bytes) → length (take_bytes n bs) ≤ n
length-take_bytes zero bs = omega arith
length-take_bytes (suc n) [] = omega arith
length-take_bytes (suc n) (b ∷ bs) = omega (arith, length-take_bytes n bs)

cut_back-first :
    (n : ℕ) (output : Bytes)
    → (cut_back n output ≡ 0) ⊎ (rune_start (byte_at (cut_back n output) output) ≡ true)
unfolding cut_back
cut_back-first zero output = inl refl
cut_back-first (suc n) output = elim (Bool-cases (rune_start (byte_at (suc n) output))) [
  | inl first ↦ rw first (inr first)
  | inr inside ↦ rw inside (cut_back-first n output)
]

cut_back-greatest :
    (n k : ℕ) (output : Bytes)
    → cut_back n output < k
    → k ≤ n
    → rune_start (byte_at k output) ≡ false
unfolding cut_back
cut_back-greatest zero k output l h = absurd (omega arith)
cut_back-greatest (suc n) k output l h = elim (Bool-cases (rune_start (byte_at (suc n) output))) [
  | inl first ↦ absurd (too_far (suc n) k (rw first at l) h)
  | inr inside ↦ elim (Bool-cases (k == suc n)) [
    | inl last ↦ rw ((==_iff k (suc n)).0 last) inside
    | inr before ↦ cut_back-greatest n k output (rw inside at l) (ground arith)
  ]
]
  where
    too_far : (m k : ℕ) → m < k → k ≤ m → ⊥
    too_far m k l h = omega arith

-- A place where output may be cut: the greatest up to the limit at which a character starts, or 0.
abbrev pub IsCut : ℕ → Bytes → ℕ → Type 0
IsCut limit output n =
    (n ≤ limit)
    × ((n ≡ 0) ⊎ (rune_start (byte_at n output) ≡ true))
    × ((k : ℕ) → n < k → k ≤ limit → rune_start (byte_at k output) ≡ false)

cap_to_lem :
    (limit : ℕ) (output : Bytes) (truncated : Bool)
    → let (kept, cut) = cap_to limit output truncated in
      (length kept ≤ limit)
      × (leb (length output) limit ≡ true → (kept ≡ output) × (cut ≡ truncated))
      × (leb (length output) limit ≡ false
          → (cut ≡ true) × ((n : ℕ) × (kept ≡ take_bytes n output) × IsCut limit output n))
unfolding cap_to
cap_to_lem limit output truncated = elim (Bool-cases (leb (length output) limit)) [
  | inl fits ↦ rw fits (leb→le (length output) limit fits, λ h. (refl, refl), λ h. absurd (cc))
  | inr long ↦
      let cut = cut_back limit output in
      let bound = cut_back-le limit output in
      let short = length-take_bytes cut output in
      rw long (
        omega arith,
        λ h. absurd (cc),
        λ h. (
          refl,
          (
            cut,
            refl,
            (bound, cut_back-first limit output, λ k l m. cut_back-greatest limit k output l m),
          ),
        ),
      )
]

-- The output in the event log has at most 64 KiB. An output that fits is kept whole, with its mark.
-- Any other is marked as cut, and cut at the greatest place up to the limit at which a character
-- starts.
pub cap_output_lem :
    (output : Bytes) (truncated : Bool)
    → let (kept, cut) = cap_output output truncated in
      (length kept ≤ event_output_bytes)
      × (leb (length output) event_output_bytes ≡ true → (kept ≡ output) × (cut ≡ truncated))
      × (leb (length output) event_output_bytes ≡ false
          → (cut ≡ true)
            × ((n : ℕ) × (kept ≡ take_bytes n output) × IsCut event_output_bytes output n))
unfolding cap_output
cap_output_lem output truncated = cap_to_lem event_output_bytes output truncated
