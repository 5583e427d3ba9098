-- ===== src/Tests/Ttl.antt =====
-- `TTLStore` of backend/services/auto_session.py, with room for two items that live for 10 ticks.
use mister_pilot_proxy.Prelude.{
  ℕ, ◌≡◌, refl, ◌≢◌, [], ◌∷◌, arith, eq_iff, some, none, if◌then◌else◌, String,
}
use mister_pilot_proxy.Dict
use mister_pilot_proxy.Ttl.{TtlStore, put}
use mister_pilot_proxy.Ttl.Store.{IsValid, put_frame, is_key, victim}

abbrev full : TtlStore ℕ
full = record { items = ("a", (1, 10)) ∷ ("b", (2, 20)) ∷ []; max_items = 2; ttl = 10 }

full-IsValid : IsValid full
unfolding Dict.get
full-IsValid = record { bounded = omega arith; distinct = (refl, (refl, tt)) }

c_not_a : ◌≢◌ {A = String} "c" "a"
c_not_a e = ground (arith, eq_iff "c" "a", e)

put_frame_example :
    Dict.get (put full 3 (some "c") 30).items "a"
    ≡ (if is_key (victim full "c") "a" then none else Dict.get full.items "a")
put_frame_example = put_frame full 3 "c" "a" 30 full-IsValid c_not_a
