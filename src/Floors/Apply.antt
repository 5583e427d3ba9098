-- ===== src/Floors/Apply.antt =====
-- `ContextFloors.apply` of backend/services/auto_context.py: the floors only raise a score.
use mister_pilot_proxy.Prelude.{ℕ, ◌≤◌, min, max, ◌≡◌, Option, none, some, ◌++◌, arith}
use mister_pilot_proxy.Router.{min_score, max_score}
use mister_pilot_proxy.Floors.{
  ContextFloors, apply_list, apply, named_floor, history, sticky, long_context,
}

-- The highest floor, 0 where there is none.
abbrev pub value_of : Option ℕ → ℕ
value_of none = 0
value_of (some n) = n

abbrev pub highest : ContextFloors → ℕ
highest f =
    max (value_of f.history_floor) (max (value_of f.sticky_floor) (value_of f.long_context_floor))

-- A floor that is present is at least 1.
abbrev pub IsFloor : Option ℕ → Type 0
IsFloor none = Unit
IsFloor (some n) = min_score ≤ n

pub record AreFloors (f : ContextFloors) : Type 0 where
  pub history_at_least : IsFloor f.history_floor
  pub sticky_at_least : IsFloor f.sticky_floor
  pub long_context_at_least : IsFloor f.long_context_floor

module _ (score : Option ℕ) (usable : value_of score ≤ max_score) where
  abbrev apply_floors : Option ℕ → Option ℕ → Option ℕ → Option ℕ
  apply_floors h s l =
      (apply_list score
        (named_floor history h ++ (named_floor sticky s ++ named_floor long_context l))).0

  apply_floors-max :
      (h s l : Option ℕ)
      → IsFloor h
      → IsFloor s
      → IsFloor l
      → value_of (apply_floors h s l)
        ≡ max (value_of score) (min max_score (max (value_of h) (max (value_of s) (value_of l))))
  apply_floors-max none none none p q r = omega arith
  apply_floors-max none none (some c) p q r = ground arith
  apply_floors-max none (some b) none p q r = ground arith
  apply_floors-max none (some b) (some c) p q r = ground arith
  apply_floors-max (some a) none none p q r = ground arith
  apply_floors-max (some a) none (some c) p q r = ground arith
  apply_floors-max (some a) (some b) none p q r = ground arith
  apply_floors-max (some a) (some b) (some c) p q r = ground arith

-- For a score of the scale, or none, and floors of at least 1, what comes out is the highest of the
-- score and the floors, but not above 20 for a floor; what is absent counts as 0. So a floor only
-- raises.
pub apply-max :
    (f : ContextFloors) (score : Option ℕ)
    → value_of score ≤ max_score
    → AreFloors f
    → value_of (apply f score).0 ≡ max (value_of score) (min max_score (highest f))
unfolding apply
apply-max f score usable on =
    apply_floors-max score usable f.history_floor f.sticky_floor f.long_context_floor
      on.history_at_least on.sticky_at_least on.long_context_at_least
