-- ===== src/Session/Spend.antt =====
-- The daily spend of backend/services/auto_session.py against the list of all charges.
use mathlib.Core.Path.{subst}
use mister_pilot_proxy.Prelude.{
  sym, ℕ, ◌+◌, ◌≤◌, ◌<◌, String, ◌≡◌, refl, false, Bool-cases, inl, inr, Option, none, some, List,
  [], ◌∷◌, eqb, arith, ◌==◌, eq_iff, if◌then◌else◌, ◌&&◌,
}
use mister_pilot_proxy.Dict
use mister_pilot_proxy.Dict.{get-put}
use mister_pilot_proxy.Session.{Spend, total_on, record_spend, spent_today_usd}

pub record Charge : Type 0 where
  pub tenant : String
  pub day : ℕ
  pub usd : ℕ

-- The charges so far, the last one first.
abbrev pub replay : List Charge → Spend
replay [] = []
replay (c ∷ cs) = record_spend (replay cs) c.tenant c.day c.usd

-- What the tenant was charged on the day.
abbrev pub sum_on : List Charge → String → ℕ → ℕ
sum_on [] tenant day = 0
sum_on (c ∷ cs) tenant day =
    (if (c.tenant == tenant) && eqb c.day day then c.usd else 0) + sum_on cs tenant day

abbrev pub NoLater : ℕ → List Charge → Type 0
NoLater day [] = Unit
NoLater day (c ∷ cs) = (c.day ≤ day) × NoLater day cs

-- Days do not run back.
abbrev pub InOrder : List Charge → Type 0
InOrder [] = Unit
InOrder (c ∷ cs) = NoLater c.day cs × InOrder cs

-- A day after all charges has none.
sum_on-after :
    (cs : List Charge) (tenant : String) (day day' : ℕ)
    → NoLater day cs
    → day < day'
    → sum_on cs tenant day' ≡ 0
sum_on-after [] tenant day day' h lt = refl
sum_on-after (c ∷ cs) tenant day day' (le, h) lt =
    ground (arith, sum_on-after cs tenant day day' h lt)

-- What is stored for a tenant is the day of its last charge, and the total of that day.
abbrev Stored : List Charge → String → Option (ℕ × ℕ) → Type 0
Stored cs tenant none = (day : ℕ) → sum_on cs tenant day ≡ 0
Stored cs tenant (some (day, total)) =
    (total ≡ sum_on cs tenant day)
    × ((day' : ℕ) → day < day' → sum_on cs tenant day' ≡ 0)
    × ((bound : ℕ) → NoLater bound cs → day ≤ bound)

Stored-total :
    (cs : List Charge) (tenant : String) (o : Option (ℕ × ℕ)) (day : ℕ)
    → Stored cs tenant o
    → NoLater day cs
    → total_on day o ≡ sum_on cs tenant day
Stored-total cs tenant none day s h = ground (arith, s day)
Stored-total cs tenant (some (d, t)) day (same, later, bound) h =
    ground (arith, same, later day, bound day h)

Stored-step :
    (cs : List Charge) (c : Charge) (tenant : String) (o : Option (ℕ × ℕ))
    → Stored cs tenant o
    → NoLater c.day cs
    → Stored
        (c ∷ cs)
        tenant
        (if c.tenant == tenant then some (c.day, total_on c.day o + c.usd) else o)
Stored-step cs c tenant o s h = elim (Bool-cases (c.tenant == tenant)) [
  | inl own ↦ rw own (
    ground (arith, own, Stored-total cs tenant o c.day s h),
    λ day' lt. ground (arith, own, sum_on-after cs tenant c.day day' h lt),
    λ bound b. b.0,
  )
  | inr other ↦ rw other (kept o s other)
]
  where
    kept :
        (o : Option (ℕ × ℕ))
        → Stored cs tenant o
        → (c.tenant == tenant) ≡ false
        → Stored (c ∷ cs) tenant o
    kept none s other = λ day. ground (arith, other, s day)
    kept (some (d, t)) (same, later, bound) other = (
      ground (arith, other, same),
      λ day' lt. ground (arith, other, later day' lt),
      λ b n. bound b n.1,
    )

get-replay :
    (cs : List Charge) (c : Charge) (tenant : String)
    → Dict.get (replay (c ∷ cs)) tenant ≡ (
        if c.tenant == tenant
        then some (c.day, total_on c.day (Dict.get (replay cs) tenant) + c.usd)
        else Dict.get (replay cs) tenant)
unfolding record_spend
get-replay cs c tenant = ground (
  arith,
  eq_iff c.tenant tenant,
  get-put (replay cs) c.tenant tenant
      (c.day, total_on c.day (Dict.get (replay cs) c.tenant) + c.usd),
)

stored :
    (cs : List Charge) (tenant : String)
    → InOrder cs
    → Stored cs tenant (Dict.get (replay cs) tenant)
unfolding Dict.get
stored [] tenant h = λ day. refl
stored (c ∷ cs) tenant (late, h) =
    subst (Stored (c ∷ cs) tenant) (sym (get-replay cs c tenant))
      (Stored-step cs c tenant (Dict.get (replay cs) tenant) (stored cs tenant h) late)

-- After charges on days that do not run back, the spend of a tenant on the present day is the sum of
-- its charges of that day: earlier days and other tenants do not count.
pub spent_today-sum :
    (cs : List Charge) (tenant : String) (today : ℕ)
    → InOrder cs
    → NoLater today cs
    → spent_today_usd (replay cs) tenant today ≡ sum_on cs tenant today
unfolding spent_today_usd
spent_today-sum cs tenant today h late =
    Stored-total cs tenant (Dict.get (replay cs) tenant) today (stored cs tenant h) late
