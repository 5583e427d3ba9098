-- ===== src/Pii/Store.antt =====
-- `InMemoryStore` of backend/pii/store.py. The lock makes each call one step.
use mister_pilot_proxy.Prelude.{ℕ, String, Option, [], length}
use mister_pilot_proxy.Dict
use mister_pilot_proxy.Dict.{Dict}

pub record InMemoryStore : Type 0 where
  pub ph2orig : Dict String
  pub orig2ph : Dict String

abbrev pub init : InMemoryStore
init = record { ph2orig = []; orig2ph = [] }

unfoldable pub get_by_original : InMemoryStore → String → Option String
get_by_original store original = Dict.get store.orig2ph original

unfoldable pub get_by_placeholder : InMemoryStore → String → Option String
get_by_placeholder store placeholder = Dict.get store.ph2orig placeholder

unfoldable pub put : InMemoryStore → String → String → InMemoryStore
put store placeholder original = record {
  ph2orig = Dict.put store.ph2orig placeholder original;
  orig2ph = Dict.put store.orig2ph original placeholder;
}

unfoldable pub size : InMemoryStore → ℕ
size store = length store.ph2orig
