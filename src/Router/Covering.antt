-- ===== src/Router/Covering.antt =====
-- What `_check_tiers` of backend/services/auto_router.py accepts: tiers that cover the scale once.
use mister_pilot_proxy.Prelude.{ℕ, ◌+◌, ◌≤◌, ◌≡◌, ◌≢◌, true, List, [], ◌∷◌, arith, eq_iff, ok}
use mister_pilot_proxy.Router.{Tier, max_score, all_known, check_from}

-- The tiers continue at score `e` without a gap or an overlap, and end at 20.
abbrev pub CoversFrom : ℕ → List Tier → Type 0
CoversFrom e [] = e ≡ max_score + 1
CoversFrom e (t ∷ ts) =
    (t.low ≡ e)
    × (t.low ≤ t.high)
    × (t.model ≢ "")
    × (all_known t.efforts ≡ true)
    × CoversFrom (t.high + 1) ts

pub check_from→CoversFrom : (e : ℕ) (ts : List Tier) → check_from e ts ≡ ok tt → CoversFrom e ts
unfolding check_from
check_from→CoversFrom e [] h = ground arith
check_from→CoversFrom e (t ∷ ts) h =
    ground (arith, eq_iff t.model "", check_from→CoversFrom (t.high + 1) ts)

pub CoversFrom→check_from : (e : ℕ) (ts : List Tier) → CoversFrom e ts → check_from e ts ≡ ok tt
unfolding check_from
CoversFrom→check_from e [] h = ground arith
CoversFrom→check_from e (t ∷ ts) (low, fits, named, known, rest) =
    ground (arith, eq_iff t.model "", CoversFrom→check_from (t.high + 1) ts rest)
