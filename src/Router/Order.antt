-- ===== src/Router/Order.antt =====
-- `sorted` in `_check_tiers` of backend/services/auto_router.py, and the tiers that it accepts in
-- whatever order they are configured.
use mathlib.Core.List.{Perm, Permᴰ}
use mathlib.Core.List.Perm
use mathlib.Core.Logic.{∥∥₁_elim}
use mathlib.Core.Path.{subst}
use text.Mathlib.TextEquality.{IsScalar-prop}
use mister_pilot_proxy.Prelude.{
  ℕ, ◌+◌, ◌<◌, ◌≡◌, refl, sym, ◌∙◌, ◌≢◌, ◌↔◌, inl, inr, Bool-cases, List, [], ◌∷◌, arith, ok, leb,
  Result-cases,
}
use mister_pilot_proxy.Router.{Tier, min_score, insert_tier, sort_tiers, check_from, check_tiers}
use mister_pilot_proxy.Router.Covering.{CoversFrom, check_from→CoversFrom, CoversFrom→check_from}

pub Tier-set : IsSet (List Tier)
Tier-set = hlevel IsScalar-prop

-- No two tiers start at the same score.
abbrev Apart : Tier → List Tier → Type 0
Apart t [] = Unit
Apart t (u ∷ us) = (t.low ≢ u.low) × Apart t us

abbrev Distinct : List Tier → Type 0
Distinct [] = Unit
Distinct (t ∷ ts) = Apart t ts × Distinct ts

insert_tier-perm : (t : Tier) (ts : List Tier) → Perm (insert_tier t ts) (t ∷ ts)
unfolding insert_tier
insert_tier-perm t [] = Perm.refl (t ∷ [])
insert_tier-perm t (u ∷ us) = elim (Bool-cases (leb t.low u.low)) [
  | inl first ↦ rw first (Perm.refl (t ∷ u ∷ us))
  | inr later ↦ rw later (Perm.trans (Perm.cons u (insert_tier-perm t us)) (Perm.swap t u us))
]

pub sort_tiers-perm : (ts : List Tier) → Perm (sort_tiers ts) ts
unfolding sort_tiers
sort_tiers-perm [] = Perm.refl []
sort_tiers-perm (t ∷ ts) =
    Perm.trans (insert_tier-perm t (sort_tiers ts)) (Perm.cons t (sort_tiers-perm ts))

insert_tier_comm :
    (t u : Tier) (ts : List Tier)
    → t.low ≢ u.low
    → insert_tier t (insert_tier u ts) ≡ insert_tier u (insert_tier t ts)
unfolding insert_tier
insert_tier_comm t u [] h = ground arith
insert_tier_comm t u (v ∷ vs) h = ground (arith, insert_tier_comm t u vs h)

Apart-perm : (t : Tier) {ts us : List Tier} → Permᴰ ts us → Apart t ts → Apart t us
Apart-perm t Permᴰ.nil h = h
Apart-perm t (Permᴰ.cons e p) (x, rest) = (rw (← e) x, Apart-perm t p rest)
Apart-perm t (Permᴰ.swap e f) (x, (y, rest)) = (rw (← f) y, (rw (← e) x, rest))
Apart-perm t (Permᴰ.trans p q) h = Apart-perm t q (Apart-perm t p h)

Distinct-perm : {ts us : List Tier} → Permᴰ ts us → Distinct ts → Distinct us
Distinct-perm Permᴰ.nil h = h
Distinct-perm (Permᴰ.cons {b = b} e p) (x, rest) =
    (Apart-perm b p (rw (← e) x), Distinct-perm p rest)
Distinct-perm (Permᴰ.swap {l = l} e f) ((n, x), (y, rest)) = (
  (rw (← e, ← f) (λ q. n (sym q)), subst (λ t. Apart t l) f y),
  (subst (λ t. Apart t l) e x, rest),
)
Distinct-perm (Permᴰ.trans p q) h = Distinct-perm q (Distinct-perm p h)

sort_tiers-eq_of_perm :
    {ts us : List Tier} → Permᴰ ts us → Distinct ts → sort_tiers ts ≡ sort_tiers us
unfolding sort_tiers
sort_tiers-eq_of_perm Permᴰ.nil h = refl
sort_tiers-eq_of_perm (Permᴰ.cons e p) h = cc (e, sort_tiers-eq_of_perm p h.1)
sort_tiers-eq_of_perm (Permᴰ.swap {a = a} {b = b} {l = l} e f) h =
    rw (← e, ← f) (insert_tier_comm a b (sort_tiers l) h.0.0)
sort_tiers-eq_of_perm (Permᴰ.trans p q) h =
    sort_tiers-eq_of_perm p h ∙ sort_tiers-eq_of_perm q (Distinct-perm p h)

-- Every tier of a list that covers from `e` on starts at `e` or later.
Apart-CoversFrom : (t : Tier) (e : ℕ) (ts : List Tier) → t.low < e → CoversFrom e ts → Apart t ts
Apart-CoversFrom t e [] h c = tt
Apart-CoversFrom t e (u ∷ us) h (low, fits, _, _, rest) =
    (omega arith, Apart-CoversFrom t (u.high + 1) us (omega arith) rest)

Distinct-CoversFrom : (e : ℕ) (ts : List Tier) → CoversFrom e ts → Distinct ts
Distinct-CoversFrom e [] c = tt
Distinct-CoversFrom e (t ∷ ts) (low, fits, _, _, rest) = (
  Apart-CoversFrom t (t.high + 1) ts (omega arith) rest,
  Distinct-CoversFrom (t.high + 1) ts rest,
)

sort_tiers-CoversFrom : (e : ℕ) (ts : List Tier) → CoversFrom e ts → sort_tiers ts ≡ ts
unfolding sort_tiers insert_tier
sort_tiers-CoversFrom e [] c = refl
sort_tiers-CoversFrom e (t ∷ []) c = refl
sort_tiers-CoversFrom e (t ∷ u ∷ us) (low, fits, _, _, rest) =
    rw (sort_tiers-CoversFrom (t.high + 1) (u ∷ us) rest, insert_tier) (ground arith)

check_tiers_sound :
    (tiers ordered : List Tier)
    → check_tiers tiers ≡ ok ordered
    → Perm ordered tiers × CoversFrom min_score ordered
unfolding check_tiers
check_tiers_sound tiers ordered h = elim (Result-cases (check_from min_score (sort_tiers tiers))) [
  | inl (u, accepted) ↦
      let same : sort_tiers tiers ≡ ordered = ground (arith, accepted) in
      (
        rw (← same) (sort_tiers-perm tiers),
        rw (← same) (check_from→CoversFrom min_score (sort_tiers tiers) accepted),
      )
  | inr (e, refused) ↦ absurd (ground (arith, refused))
]

check_tiers_complete :
    (tiers ordered : List Tier)
    → Perm ordered tiers
    → CoversFrom min_score ordered
    → check_tiers tiers ≡ ok ordered
unfolding check_tiers
check_tiers_complete tiers ordered p c =
    let sorted : sort_tiers tiers ≡ ordered = ∥∥₁_elim p (Tier-set _ _) (λ d.
      sym (sort_tiers-eq_of_perm d (Distinct-CoversFrom min_score ordered c))
      ∙ sort_tiers-CoversFrom min_score ordered c) in
    rw (sorted, CoversFrom→check_from min_score ordered c)

-- `_check_tiers` accepts a table, in whatever order it is configured, exactly when some
-- arrangement of it covers the scores 1 to 20 once, without gap or overlap, each tier with a model
-- and known effort levels; and it returns that arrangement.
pub check_tiers_iff :
    (tiers ordered : List Tier)
    → (check_tiers tiers ≡ ok ordered) ↔ (Perm ordered tiers × CoversFrom min_score ordered)
check_tiers_iff tiers ordered =
    (check_tiers_sound tiers ordered, λ h. check_tiers_complete tiers ordered h.0 h.1)
