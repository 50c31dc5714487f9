-- ===== src/Access/Lifecycle.antt =====
-- internal/domain/model.go: the state machine of a session.
use ta_platform.Prelude.{◌≡◌, refl, true, false}
use ta_platform.EventStore.{SessionState, active, completed, expired, revoked}
use ta_platform.Access.{is_active_state, can_transition_to}

-- Sequences of allowed transitions.
pub data Reaches : SessionState → SessionState → Type 0 where
  stay : {a : SessionState} → Reaches a a
  move :
      {a c : SessionState} (b : SessionState)
      → can_transition_to a b ≡ true
      → Reaches b c
      → Reaches a c

can_transition_to_trans :
    (a b c : SessionState)
    → can_transition_to a b ≡ true
    → can_transition_to b c ≡ true
    → can_transition_to a c ≡ true
unfolding can_transition_to
can_transition_to_trans active b active h k = refl
can_transition_to_trans active b completed h k = refl
can_transition_to_trans active b expired h k = refl
can_transition_to_trans active b revoked h k = refl
can_transition_to_trans completed completed c h k = k
can_transition_to_trans expired expired c h k = k
can_transition_to_trans revoked revoked c h k = k
can_transition_to_trans a b c h k = absurd (cc)

can_transition_to_refl : (a : SessionState) → can_transition_to a a ≡ true
unfolding can_transition_to
can_transition_to_refl active = refl
can_transition_to_refl completed = refl
can_transition_to_refl expired = refl
can_transition_to_refl revoked = refl

terminal-same :
    (a c : SessionState) → can_transition_to a c ≡ true → is_active_state a ≡ false → c ≡ a
unfolding can_transition_to
terminal-same completed completed h t = refl
terminal-same expired expired h t = refl
terminal-same revoked revoked h t = refl
terminal-same a c h t = absurd (cc)

Reaches-can_transition_to : (a c : SessionState) → Reaches a c → can_transition_to a c ≡ true
Reaches-can_transition_to a c stay = can_transition_to_refl a
Reaches-can_transition_to a c (move b h r) =
    can_transition_to_trans a b c h (Reaches-can_transition_to b c r)

-- Whatever a session can come to by any number of allowed transitions, it can come to by one; and
-- a session that is not active stays as it is.
pub reaches_lem :
    (a c : SessionState)
    → Reaches a c
    → (can_transition_to a c ≡ true) × (is_active_state a ≡ false → c ≡ a)
reaches_lem a c r = let h = Reaches-can_transition_to a c r in (h, terminal-same a c h)
