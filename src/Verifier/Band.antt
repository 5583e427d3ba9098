-- ===== src/Verifier/Band.antt =====
-- The guard band of `reconcile` in backend/services/complexity_verifier.py.
use mister_pilot_proxy.Prelude.{
  ℕ, ◌≤◌, ◌<◌, ◌≡◌, refl, inl, inr, min, Bool, true, false, String, Option, none, some, List, [],
  ◌∷◌, arith, leb, ltb, if◌then◌else◌, Bool-cases,
}
use mister_pilot_proxy.Prelude.Int.{pos, sub_ℕ}
use mister_pilot_proxy.Complexity.{ComplexityScore}
use mister_pilot_proxy.Verifier.{
  AiVerdict, Status, verified, corrected, clamped, blocked, unverified, skipped, VerifiedScore,
  computed_final, ai_final, distance, at_edge, weighed, within_band, reconcile,
}

abbrev pub OnScale : ℕ → Type 0
OnScale n = (1 ≤ n) × (n ≤ 20)

abbrev pub AiOnScale : Option AiVerdict → Type 0
AiOnScale none = Unit
AiOnScale (some ai) = OnScale ai.complexity_score

-- The verdict is the scorer's, whatever the AI said.
pub record IsComputed (computed : ComplexityScore) (v : VerifiedScore) : Type 0 where
  pub same_score : v.complexity_score ≡ computed.complexity_score
  pub same_task_type : v.task_type ≡ computed.task_type
  pub same_scope : v.scope ≡ computed.scope
  pub same_depth : v.reasoning_depth ≡ computed.reasoning_depth

-- The verdict is the AI's, at a score.
pub record IsAi (ai : AiVerdict) (score : ℕ) (v : VerifiedScore) : Type 0 where
  pub answered : v.ai ≡ some ai
  pub clean : ai.injection_detected ≡ false
  pub score_is : v.complexity_score ≡ score
  pub ai_task_type : v.task_type ≡ ai.task_type
  pub ai_scope : v.scope ≡ ai.scope
  pub ai_depth : v.reasoning_depth ≡ ai.reasoning_depth

-- What each status says of the verdict and of the gap between the AI and the scorer.
abbrev pub Says : ℕ → ComplexityScore → VerifiedScore → Status → Type 0
Says band computed v verified =
    (ai : AiVerdict) × IsAi ai ai.complexity_score v
    × (distance ai.complexity_score computed.complexity_score ≤ min band 2)
Says band computed v corrected =
    (ai : AiVerdict) × IsAi ai ai.complexity_score v
    × (2 < distance ai.complexity_score computed.complexity_score)
    × (distance ai.complexity_score computed.complexity_score ≤ band)
Says band computed v clamped =
    (ai : AiVerdict) × IsAi ai (at_edge computed.complexity_score ai.complexity_score band) v
    × (band < distance ai.complexity_score computed.complexity_score)
Says band computed v blocked = IsComputed computed v
Says band computed v unverified = IsComputed computed v
Says band computed v skipped = IsComputed computed v

pub record Guarded (band : ℕ) (computed : ComplexityScore) (v : VerifiedScore) : Type 0 where
  pub on_scale : OnScale v.complexity_score
  pub near : distance v.complexity_score computed.complexity_score ≤ band
  pub moved : v.shift ≡ sub_ℕ v.complexity_score computed.complexity_score
  pub kept : v.computed ≡ computed
  pub says : Says band computed v v.status

-- The statuses of a verdict that the scorer decides.
abbrev IsOurs : Status → Type 0
IsOurs blocked = Unit
IsOurs unverified = Unit
IsOurs skipped = Unit
IsOurs _ = ⊥

no_shift : (n : ℕ) → pos 0 ≡ sub_ℕ n n
no_shift n = ground arith

ours-Says :
    (band : ℕ) (computed : ComplexityScore) (v : VerifiedScore) (status : Status)
    → IsOurs status
    → IsComputed computed v
    → Says band computed v status
ours-Says band computed v verified h k = absurd h
ours-Says band computed v corrected h k = absurd h
ours-Says band computed v clamped h k = absurd h
ours-Says band computed v blocked h k = k
ours-Says band computed v unverified h k = k
ours-Says band computed v skipped h k = k

pub computed_final-Guarded :
    (band : ℕ) (computed : ComplexityScore) (status : Status) (penalty : ℕ) (ai : Option AiVerdict)
    (injection : List String) (latency : ℕ) (error : Option String)
    → IsOurs status
    → OnScale computed.complexity_score
    → Guarded band computed (computed_final computed status penalty ai injection latency error)
unfolding computed_final
computed_final-Guarded band computed status penalty ai injection latency error ours h = record {
  on_scale = h;
  near = omega arith;
  moved = no_shift computed.complexity_score;
  kept = refl;
  says =
      ours-Says band computed _ status ours
        (record { same_score = refl; same_task_type = refl; same_scope = refl; same_depth = refl });
}

edge_scale : (c a band : ℕ) → OnScale c → OnScale (at_edge c a band)
edge_scale c a band h = omega arith

edge_near : (c a band : ℕ) → OnScale c → distance (at_edge c a band) c ≤ band
edge_near c a band h = ground arith

at_score :
    (computed : ComplexityScore) (ai : AiVerdict) (score confidence : ℕ) (status : Status)
    (latency : ℕ) (error : Option String)
    → ai.injection_detected ≡ false
    → IsAi ai score (ai_final computed ai score confidence status latency error)
at_score computed ai score confidence status latency error c = record {
  answered = refl;
  clean = c;
  score_is = refl;
  ai_task_type = refl;
  ai_scope = refl;
  ai_depth = refl;
}

agreed-Guarded :
    (band : ℕ) (computed : ComplexityScore) (ai : AiVerdict) (agreed : Bool) (latency : ℕ)
    (error : Option String)
    → ai.injection_detected ≡ false
    → OnScale ai.complexity_score
    → distance ai.complexity_score computed.complexity_score ≤ band
    → leb (distance ai.complexity_score computed.complexity_score) 2 ≡ agreed
    → Guarded band computed (
        ai_final computed ai ai.complexity_score
          (weighed ai.confidence agreed)
          (if agreed then verified else corrected)
          latency
          error)
agreed-Guarded band computed ai true latency error c s near e = record {
  on_scale = s;
  near = near;
  moved = refl;
  kept = refl;
  says = (ai, at_score computed ai _ _ verified latency error c, ground arith);
}
agreed-Guarded band computed ai false latency error c s near e = record {
  on_scale = s;
  near = near;
  moved = refl;
  kept = refl;
  says = (ai, at_score computed ai _ _ corrected latency error c, ground arith, near);
}

within_band-Guarded :
    (band : ℕ) (computed : ComplexityScore) (ai : AiVerdict) (latency : ℕ) (error : Option String)
    → ai.injection_detected ≡ false
    → OnScale computed.complexity_score
    → OnScale ai.complexity_score
    → Guarded band computed (within_band band computed ai latency error)
unfolding within_band
within_band-Guarded band computed ai latency error c h s =
    elim (Bool-cases (ltb band (distance ai.complexity_score computed.complexity_score))) [
      | inl far ↦ rw far (record {
        on_scale = edge_scale computed.complexity_score ai.complexity_score band h;
        near = edge_near computed.complexity_score ai.complexity_score band h;
        moved = refl;
        kept = refl;
        says = (ai, at_score computed ai _ _ clamped latency error c, ground arith);
      })
      | inr close ↦
          rw close (agreed-Guarded band computed ai _ latency error c s (ground arith) refl)
    ]

answered-Guarded :
    (band : ℕ) (computed : ComplexityScore) (ai : AiVerdict) (latency : ℕ) (error : Option String)
    (detected : Bool)
    → ai.injection_detected ≡ detected
    → OnScale computed.complexity_score
    → OnScale ai.complexity_score
    → Guarded band computed (
        if detected
        then computed_final computed blocked 20 (some ai) ("reported_by_ai" ∷ []) latency error
        else within_band band computed ai latency error)
answered-Guarded band computed ai latency error true e h s =
    computed_final-Guarded band computed blocked _ _ _ latency error tt h
answered-Guarded band computed ai latency error false e h s =
    within_band-Guarded band computed ai latency error e h s

-- What an answer comes to, if no rule is tripped: whether it reports manipulation.
abbrev pub Reported : AiVerdict → VerifiedScore → Bool → Type 0
Reported ai v true = (v.status ≡ blocked) × (v.injection ≡ "reported_by_ai" ∷ []) × (v.ai ≡ some ai)
Reported ai v false = (v.injection ≡ []) × (v.ai ≡ some ai)

-- The rules come first: what trips one is blocked, with its rules named, and no AI is kept. Without
-- one, no answer leaves the verdict unverified; an answer that reports manipulation is blocked; and
-- any other is kept with the verdict.
abbrev pub Heeds : List String → Option AiVerdict → VerifiedScore → Type 0
Heeds (rule ∷ rules) ai v = (v.status ≡ blocked) × (v.injection ≡ rule ∷ rules) × (v.ai ≡ none)
Heeds [] none v = (v.status ≡ unverified) × (v.injection ≡ []) × (v.ai ≡ none)
Heeds [] (some ai) v = Reported ai v ai.injection_detected

Reported-Reported :
    (band : ℕ) (computed : ComplexityScore) (ai : AiVerdict) (latency : ℕ) (error : Option String)
    (detected : Bool)
    → Reported ai
        (if detected
          then computed_final computed blocked 20 (some ai) ("reported_by_ai" ∷ []) latency error
          else within_band band computed ai latency error)
        detected
unfolding computed_final within_band
Reported-Reported band computed ai latency error true = (refl, refl, refl)
Reported-Reported band computed ai latency error false =
    elim (Bool-cases (ltb band (distance ai.complexity_score computed.complexity_score))) [
      | inl far ↦ rw (within_band, far) (refl, refl)
      | inr close ↦ rw (within_band, close) (refl, refl)
    ]

-- However the AI was persuaded: the verdict keeps to the scale and moves by at most the band from
-- the computed one; its status says who decided it, and how far the two were apart. Where a rule is
-- tripped the verdict is blocked with those rules, whether or not the AI answered; where the AI
-- reports manipulation it is blocked; both leave the computed verdict, as no answer does.
pub reconcile-Guarded :
    (band : ℕ) (computed : ComplexityScore) (ai : Option AiVerdict) (injection : List String)
    (latency : ℕ) (error : Option String)
    → OnScale computed.complexity_score
    → AiOnScale ai
    → Guarded band computed (reconcile band computed ai injection latency error)
      × Heeds injection ai (reconcile band computed ai injection latency error)
unfolding reconcile computed_final
reconcile-Guarded band computed ai (rule ∷ rules) latency error h s =
    (computed_final-Guarded band computed blocked _ _ _ latency error tt h, (refl, refl, refl))
reconcile-Guarded band computed none [] latency error h s =
    (computed_final-Guarded band computed unverified _ _ _ latency error tt h, (refl, refl, refl))
reconcile-Guarded band computed (some ai) [] latency error h s = (
  answered-Guarded band computed ai latency error ai.injection_detected refl h s,
  Reported-Reported band computed ai latency error ai.injection_detected,
)
