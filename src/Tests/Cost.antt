-- ===== src/Tests/Cost.antt =====
-- Prices, the exchange rate and one charge of backend/services/cost_service.py.
use mister_pilot_proxy.Prelude.{ℕ, ◌≡◌, refl, true, false, none, some, [], ◌∷◌}
use mister_pilot_proxy.Cost.Rate.{start, get_inr_rate}
use mister_pilot_proxy.Cost.Charge.{
  Wallet, PostResult, not_connected, answered, fire_charge, deliver, cancelled_at_shutdown, Once,
  fire_charge-Once,
}

asked : (get_inr_rate start none 30000 (none ∷ some 88 ∷ [])).1.1 ≡ true
unfolding get_inr_rate
asked = refl

-- The first post does not connect, the second succeeds, and the closing of the client is cancelled.
abbrev second_time : ℕ → PostResult
second_time ℕ.zero = not_connected
second_time (ℕ.suc n) = answered 200

abbrev wallet : Wallet
wallet = record {
  post = second_time;
  cancelled_in_wait = λ n. false;
  cancelled_before_start = false;
  cancelled_at_close = true;
}

fire_charge-Once_example : Once true (fire_charge true wallet)
fire_charge-Once_example = fire_charge-Once true wallet refl

-- A success, and then a dead letter as the client's closing is cancelled.
both : (fire_charge true wallet).dead ≡ cancelled_at_shutdown ∷ []
unfolding fire_charge deliver
both = refl
