-- ===== src/Session/Order.antt =====
-- The order in which `ClaimNext` looks at the sessions: by creation time, then by identifier.
use harness_core.Base.{◌≡◌, true, false, arith}
use harness_core.Base.Text.{str_ltb_trans, str_ltb_antisymm, str_ltb_asymm}
use harness_core.Base.Sort.{IsOrder}
use harness_core.Session.State.{State}
use harness_core.Session.Store.{before}

before_asymm : (a b : State) → before a b ≡ true → before b a ≡ false
unfolding before
before_asymm a b h = ground (arith, str_ltb_asymm a.session_id b.session_id)

before_trans : (a b c : State) → before b a ≡ false → before c b ≡ false → before c a ≡ false
unfolding before
before_trans a b c h k = ground (arith, str_ltb_trans a.session_id b.session_id c.session_id)

-- The comparison is a strict weak order.
pub before-IsOrder : IsOrder before
before-IsOrder = record { asymm = before_asymm; trans = before_trans }

-- Two sessions that the comparison does not tell apart have one identifier.
pub before_tie :
    (a b : State) → before a b ≡ false → before b a ≡ false → a.session_id ≡ b.session_id
unfolding before
before_tie a b h k = ground (arith, str_ltb_antisymm a.session_id b.session_id)
