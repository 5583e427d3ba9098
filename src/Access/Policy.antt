-- ===== src/Access/Policy.antt =====
-- The policy of backend/services/model_access.py: what is listed is what may be called.
use mister_pilot_proxy.Prelude.{
  ℕ, ◌≡◌, ◌≢◌, refl, inl, inr, String, Bool, Bool-cases, true, false, not, ◌&&◌, ◌||◌, none, some,
  List, [], ◌∷◌, ◌++◌, arith, ◌==◌, eq_iff, contains, ok, raise, Result, if◌then◌else◌,
}
use mister_pilot_proxy.Dict
use mister_pilot_proxy.Dict.{Dict}
use mister_pilot_proxy.Keys.{is_misterpilot_key}
use mister_pilot_proxy.Llm.{Provider, models, is_model, canonical_model}
use mister_pilot_proxy.Cost.{has_pricing}
use mister_pilot_proxy.Access.{
  auto_models, is_auto_model, listed_from, available_models, Allowed, check_access,
}

-- The key is refused by no check that comes before keys are resolved.
abbrev pub passes : Result ℕ Allowed → Bool
passes (ok allowed) = true
passes (raise status) = false

abbrev pub is_allowed : (String → String) → String → String → Bool
is_allowed fold model raw_key = passes (check_access fold model raw_key)

contains-append :
    (xs ys : List String) (m : String) → contains (xs ++ ys) m ≡ (contains xs m || contains ys m)
contains-append [] ys m = refl
contains-append (x ∷ xs) ys m = ground (arith, contains-append xs ys m)

abbrev has_key : Dict Provider → String → Bool
has_key items m = elim (Dict.get items m) [ none ↦ false | some provider ↦ true ]

listed_from-contains :
    (misterpilot : Bool) (items : Dict Provider) (m : String)
    → contains (listed_from misterpilot items) m
      ≡ (has_key items m && not (misterpilot && not (has_pricing (some m))))
unfolding Dict.get
listed_from-contains misterpilot [] m = refl
listed_from-contains misterpilot ((k, provider) ∷ items) m =
    ground (arith, listed_from-contains misterpilot items m, eq_iff k m)

-- No Auto name is the name of a model.
auto_not_model : (m : String) → contains auto_models m ≡ true → has_key models m ≡ false
unfolding Dict.get
auto_not_model m h = elim (Bool-cases ("misterpilot-auto" == m)) [
  | inl same ↦ rw (← (eq_iff "misterpilot-auto" m).0 same) refl
  | inr other ↦ elim (Bool-cases ("misterpilot-auto-economy" == m)) [
    | inl same ↦ rw (← (eq_iff "misterpilot-auto-economy" m).0 same) refl
    | inr another ↦
        let last : ("misterpilot-auto-quality" == m) ≡ true = ground (arith, h, other, another) in
        rw (← (eq_iff "misterpilot-auto-quality" m).0 last) refl
  ]
]

-- For a request with a key, `/v1/models` lists a model, written as the table writes it, exactly if
-- `open_model_access` would not refuse that key and model before it resolves the key.
pub available_models_iff :
    (fold : String → String) (raw_key model : String)
    → raw_key ≢ ""
    → fold model ≡ model
    → contains (available_models raw_key) model ≡ is_allowed fold model raw_key
unfolding available_models check_access is_auto_model canonical_model
available_models_iff fold raw_key model given folded =
    let named : (raw_key == "") ≡ false = ground (arith, given, eq_iff raw_key "") in
    let misterpilot = is_misterpilot_key (some raw_key) in
    let byok = not (raw_key == "") && not misterpilot in
    let auto : is_auto_model fold model ≡ contains auto_models model = rw folded refl in
    let known : canonical_model fold model ≡ (if is_model model then some model else none) =
      rw folded refl in
    rw
      (
        contains-append (if byok then [] else auto_models) (listed_from misterpilot models) model,
        listed_from-contains misterpilot models model,
        known,
        auto,
      )
      (ground (arith, named, auto_not_model model))
