-- ===== src/Access/Upgrades.antt =====
-- `_cache_aware` of backend/services/model_access.py: what it may change of a decision.
use mister_pilot_proxy.Prelude.{
  ℕ, ◌≤◌, ◌<◌, ◌≡◌, refl, ◌⊎◌, inl, inr, String, Bool-cases, true, false, Option, none, some, arith,
  ◌==◌, Result, Result-cases, ok, raise, List, [], ◌∷◌, contains,
}
use mister_pilot_proxy.Router.{
  AutoRouter, RouteDecision, ValueError, effort_unlisted, effort_order, tier_index,
}
use mister_pilot_proxy.Session.{AutoSession}
use mister_pilot_proxy.Access.Warm.{
  WarmConfig, stay_usd, switch_usd, exceeds, index_of_cap, stays, cache_aware, is_claude,
  index_from, max_effort, with_effort,
}

-- Why the chat stays on its model: that is the primary of a higher tier than the decision's, within
-- the cap, and staying costs no more than switching.
pub record Stayed (router : AutoRouter) (cfg : WarmConfig) (decision : RouteDecision)
    (session : AutoSession) (context_tokens : ℕ) (max_model : Option String) : Type 0 where
  pub new : ℕ
  pub old : ℕ
  pub new_tier : tier_index router.tiers decision.model ≡ some new
  pub old_tier : tier_index router.tiers session.model ≡ some old
  pub down : new < old
  pub allowed : exceeds (index_of_cap router max_model) old ≡ false
  pub cheaper :
      stay_usd cfg session.model context_tokens ≤ switch_usd cfg decision.model context_tokens

module _ (router : AutoRouter) (cfg : WarmConfig) (decision : RouteDecision) (session : AutoSession)
    (context_tokens : ℕ) (max_model : Option String) where
  stays-Stayed :
      (new old : Option ℕ)
      → tier_index router.tiers decision.model ≡ new
      → tier_index router.tiers session.model ≡ old
      → stays router cfg decision session context_tokens max_model new old ≡ true
      → Stayed router cfg decision session context_tokens max_model
  stays-Stayed none old e f h = cc
  stays-Stayed (some new) none e f h = cc
  stays-Stayed (some new) (some old) e f h = record {
    new = new;
    old = old;
    new_tier = e;
    old_tier = f;
    down = ground (arith, h);
    allowed = ground (arith, h);
    cheaper = ground (arith, h);
  }

  -- The two efforts are set, and one of them is no level.
  abbrev pub Unlisted : ValueError → Type 0
  Unlisted e =
      (a : String) × (b : String) × (decision.effort ≡ some a)
      × (session.effort ≡ some b)
      × (((e ≡ effort_unlisted a) × (contains effort_order a ≡ false))
          ⊎ ((e ≡ effort_unlisted b) × (contains effort_order b ≡ false)))

  abbrev pub Keeps : Result ValueError RouteDecision → Type 0
  Keeps (raise e) = Unlisted e
  Keeps (ok d) =
      (d.score ≡ decision.score)
      × ((d.model ≡ decision.model)
          ⊎ ((d.model ≡ session.model)
              × Stayed router cfg decision session context_tokens max_model))

  index_from-raise :
      (i : ℕ) (x : String) (e : ValueError) (xs : List String)
      → index_from i x xs ≡ raise e
      → (e ≡ effort_unlisted x) × (contains xs x ≡ false)
  unfolding index_from
  index_from-raise i x e [] h = (cc, refl)
  index_from-raise i x e (y ∷ ys) h = elim (Bool-cases (y == x)) [
    | inl same ↦ absurd (ground (arith, same, h))
    | inr differs ↦
        let (is, out) = index_from-raise (ℕ.suc i) x e ys (rw (index_from, differs) at h) in
        (is, rw differs out)
  ]

  with_effort-Keeps :
      (a b : Option String)
      → decision.effort ≡ a
      → session.effort ≡ b
      → Keeps (with_effort decision (max_effort a b))
  unfolding max_effort
  with_effort-Keeps none b p q = (refl, inl refl)
  with_effort-Keeps (some a) none p q = (refl, inl refl)
  with_effort-Keeps (some a) (some b) p q = elim (Result-cases (index_from 0 a effort_order)) [
    | inr (e, bad) ↦
        rw (max_effort, bad) (a, b, p, q, inl (index_from-raise 0 a e effort_order bad))
    | inl (i, good) ↦ elim (Result-cases (index_from 0 b effort_order)) [
      | inr (e, bad) ↦
          rw (max_effort, good, bad) (a, b, p, q, inr (index_from-raise 0 b e effort_order bad))
      | inl (j, fine) ↦ rw (max_effort, good, fine) (refl, inl refl)
    ]
  ]

  -- The model of a decision is changed only to the chat's own, and only for a step down in tier that
  -- the cap does not force and that would not pay; the score is never changed. So an upgrade always
  -- goes ahead. No decision is made only where the decision and the chat both have an effort and one
  -- of these is no level of the list.
  pub cache_aware-Stayed :
      (fold : String → String)
      → Keeps (cache_aware fold router cfg decision session context_tokens max_model)
  unfolding cache_aware
  cache_aware-Stayed fold = elim (Bool-cases decision.fallback) [
    | inl blind ↦ simp blind (refl, inl refl)
    | inr scored ↦ elim (Bool-cases (decision.model == session.model)) [
      | inl same ↦ elim (Bool-cases (is_claude fold decision.model)) [
        | inl claude ↦
            simp (scored, same, claude) (with_effort-Keeps decision.effort session.effort refl refl)
        | inr other ↦ simp (scored, same, other) (refl, inl refl)
      ]
      | inr differs ↦
          elim (Bool-cases (
            stays router cfg decision session context_tokens max_model
              (tier_index router.tiers decision.model) (tier_index router.tiers session.model))) [
                | inl stay ↦
                    simp (scored, differs, stay) (refl, inr (refl, stays-Stayed _ _ refl refl stay))
                | inr switch ↦ simp (scored, differs, switch) (refl, inl refl)
              ]
    ]
  ]
