-- ===== src/Access/Moves.antt =====
-- `next_auto_access` of backend/services/model_access.py: a failover comes to an end, and the chat moves
-- to the model that serves it.
use mister_pilot_proxy.Prelude.{
  ℕ, ◌-◌, ◌≤◌, ◌<◌, ◌≡◌, refl, ap, inl, inr, String, Bool-cases, true, false, Option-cases, none,
  some, ◌∷◌, sym, ◌∙◌, ltb, length, contains, arith, if◌then◌else◌,
}
use mister_pilot_proxy.Ttl.{TtlStore}
use mister_pilot_proxy.Ttl.Store.{IsValid, get-put_self}
use mister_pilot_proxy.Session.{AutoSession, get_session, save_route}
use mister_pilot_proxy.Access.{Serving, Chosen, first_servable}
use mister_pilot_proxy.Access.Failover.{first_servable-remaining}
use mister_pilot_proxy.Access.Next.{
  ModelAccess, is_auto, is_empty, save_failover, with_chosen, next_auto_access,
}

module _ (serving : Serving) (sessions : TtlStore AutoSession) (now then_at : ℕ)
    (access : ModelAccess) (key : String) (score : ℕ) where
  -- The route of the chat once `next` serves it.
  abbrev pub route : ModelAccess → AutoSession
  route next = record {
    model = next.upstream_model;
    score = score;
    effort = access.effort;
    user_turns = access.user_turns;
  }

  -- What a failover to `next` leaves.
  abbrev pub Moved : TtlStore AutoSession → ModelAccess → Type 0
  Moved after next =
      (length next.fallback_models < length access.fallback_models)
      × (contains next.fallback_models next.upstream_model ≡ false)
      × (is_auto serving.fold next ≡ true)
      × ((get_session after then_at (some key)).1
          ≡ (if ltb sessions.ttl (then_at - now) then none else some (route next)))

  made : Chosen → ModelAccess
  made chosen = record access {
    upstream_model = chosen.model;
    provider = chosen.provider;
    upstream_key = chosen.key;
    auto_route = access.upstream_model ∷ access.auto_route;
    auto_fallback = true;
    fallback_models = chosen.remaining;
  }

  moved :
      (chosen : Chosen)
      → IsValid sessions
      → 1 ≤ sessions.max_items
      → is_auto serving.fold access ≡ true
      → first_servable serving access.fallback_models none ≡ some chosen
      → Moved (save_failover sessions now access chosen.model (some key) (some score)) (made chosen)
  unfolding made is_auto get_session save_route
  moved chosen v room auto found =
      let (short, apart, served) =
        first_servable-remaining serving access.fallback_models none chosen found in
      (
        short,
        apart,
        auto,
        get-put_self sessions now then_at key (route (made chosen)) room v.distinct,
      )

  -- A failover of an Auto request whose chat is tracked leaves fewer models to fail over to, without
  -- the new one, so that it comes to an end; the request is still Auto; and the chat's route, until
  -- its lifetime has passed, is the new model at the old score.
  pub next_auto_access-Moved :
      (after : TtlStore AutoSession) (next : ModelAccess)
      → IsValid sessions
      → 1 ≤ sessions.max_items
      → access.session_key ≡ some key
      → access.auto_score ≡ some score
      → next_auto_access serving sessions now access ≡ (after, some next)
      → Moved after next
  unfolding next_auto_access made
  next_auto_access-Moved after next v room tracked scored h =
      elim (Bool-cases (is_auto serving.fold access)) [
        | inr other ↦ absurd (ground (arith, other, h))
        | inl auto ↦ elim (Bool-cases (is_empty access.fallback_models)) [
          | inl empty ↦ absurd (ground (arith, auto, empty, h))
          | inr some_left ↦
              elim (Option-cases (first_servable serving access.fallback_models none)) [
                | inl nobody ↦ absurd (ground (arith, auto, some_left, nobody, h))
                | inr (chosen, found) ↦
                    let own =
                      save_failover sessions now access chosen.model access.session_key
                        access.auto_score in
                    let saved : own
                        ≡ save_failover sessions now access chosen.model (some key) (some score) =
                      ap (λ o. save_failover sessions now access chosen.model o access.auto_score)
                        tracked
                      ∙ ap (λ o. save_failover sessions now access chosen.model (some key) o)
                          scored in
                    let result : next_auto_access serving sessions now access
                        ≡ (own, some (made chosen)) =
                      rw auto (rw some_left (rw (found, with_chosen) refl)) in
                    let e : (own, some (made chosen)) ≡ (after, some next) = sym result ∙ h in
                    let same_after : own ≡ after = ap (λ p. p.0) e in
                    let same_next : made chosen ≡ next =
                      ap (λ p. elim p.1 [ none ↦ made chosen | some a ↦ a ]) e in
                    rw (← same_after, ← same_next) (rw saved (moved chosen v room auto found))
              ]
        ]
      ]
