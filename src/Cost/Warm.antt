-- ===== src/Cost/Warm.antt =====
-- Prices of backend/services/cost_service.py that the choice of a model rests on.
use mister_pilot_proxy.Prelude.{
  ap, ◌∙◌, ℕ, ◌+◌, ◌-◌, ◌*◌, ◌≤◌, ◌≡◌, refl, inl, inr, String, Bool, Bool-cases, true, false,
  Option, none, some, [], ◌∷◌, arith, ◌==◌, leb, ◌&&◌,
}
use mister_pilot_proxy.Dict
use mister_pilot_proxy.Dict.{Dict}
use mister_pilot_proxy.Cost.{
  Rates, pricing, name_of, or_fallback, get_rates, write_rate, price_usd, warm_share,
  estimate_turn_usd,
}

-- A token read from the cache costs no more than one that is not, and that no more than one written.
abbrev ordered : Rates → Bool
ordered rates = leb rates.cache_hit rates.cache_miss && leb rates.cache_miss (write_rate rates)

abbrev all_ordered : Dict Rates → Bool
all_ordered [] = true
all_ordered ((name, rates) ∷ items) = ordered rates && all_ordered items

found_ordered :
    (items : Dict Rates) (name : String)
    → all_ordered items ≡ true
    → ordered (or_fallback (Dict.get items name)) ≡ true
unfolding Dict.get
found_ordered [] name h = refl
found_ordered ((k, rates) ∷ items) name h = elim (Bool-cases (k == name)) [
  | inl here ↦ rw here (ground (arith, h))
  | inr other ↦ rw other (found_ordered items name (ground (arith, h)))
]

get_rates-ordered :
    (model : Option String)
    → ((get_rates model).cache_hit ≤ (get_rates model).cache_miss)
      × ((get_rates model).cache_miss ≤ write_rate (get_rates model))
unfolding get_rates
get_rates-ordered model =
    let h = found_ordered pricing (name_of model) refl in (ground (arith, h), ground (arith, h))

mul_mono : (n a b : ℕ) → a ≤ b → n * a ≤ n * b
mul_mono n a b h = grind arith

mul_split : (k m a : ℕ) → k * a + m * a ≡ (k + m) * a
mul_split k m a = grind arith

either : (o : Option ℕ) (x a b : ℕ) → x ≤ a → x ≤ b → x ≤ elim o [ none ↦ a | some rate ↦ b ]
either none x a b h k = h
either (some rate) x a b h k = k

split_price : (n k hit miss : ℕ) → k ≤ n → hit ≤ miss → k * hit + (n - k) * miss ≤ n * miss
split_price n k hit miss h l =
    let whole : k + (n - k) ≡ n = omega arith in
    let e : k * miss + (n - k) * miss ≡ n * miss =
      mul_split k (n - k) miss ∙ ap (λ m. m * miss) whole in
    omega (arith, e, mul_mono k hit miss l)

-- By the table of prices, a warm turn of any model, known or not, is estimated at no more than a cold
-- one of as many tokens.
pub estimate_turn_usd-warm :
    (model : String) (context_tokens output_tokens : ℕ)
    → estimate_turn_usd model context_tokens output_tokens true
      ≤ estimate_turn_usd model context_tokens output_tokens false
unfolding estimate_turn_usd price_usd
estimate_turn_usd-warm model n out =
    let rates = get_rates (some model) in
    let (low, high) = get_rates-ordered (some model) in
    let share : warm_share n ≤ n = omega arith in
    let cheap = split_price n (warm_share n) rates.cache_hit rates.cache_miss share low in
    either rates.cache_write _ _ _ (omega (arith, cheap))
      (omega (arith, cheap, mul_mono n rates.cache_miss (write_rate rates) high))
