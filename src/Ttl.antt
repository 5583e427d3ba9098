-- ===== src/Ttl.antt =====
-- `TTLStore` of backend/services/auto_session.py: an LRU map whose entries expire. The lock makes
-- each call one step. `time.monotonic()` is an argument, in whole ticks, and never runs back.
pub mod Kept
pub mod Items
pub mod Store
use mister_pilot_proxy.Prelude.{
  ℕ, ◌-◌, String, Option, none, some, List, [], ◌∷◌, ◌++◌, ltb, length, if◌then◌else◌,
}
use mister_pilot_proxy.Dict
use mister_pilot_proxy.Dict.{Dict}

-- The items in the order of the `OrderedDict`, the least recently used first.
pub record TtlStore {ℓ} (V : Type ℓ) : Type ℓ where
  pub items : Dict (ℕ × V)
  pub max_items : ℕ
  pub ttl : ℕ

module _ {ℓ} {V : Type ℓ} where
  unfoldable pub init : ℕ → ℕ → TtlStore V
  init max_items ttl_seconds = record { items = []; max_items = max_items; ttl = ttl_seconds }

  -- `items.move_to_end(key)`, for the item of the key
  abbrev pub move_to_end : Dict (ℕ × V) → String → ℕ × V → Dict (ℕ × V)
  move_to_end items key item = Dict.pop items key ++ (key, item) ∷ []

  -- `while len(items) > max: items.popitem(last=False)`
  unfoldable pub trim : ℕ → Dict (ℕ × V) → Dict (ℕ × V)
  trim max_items [] = []
  trim max_items (item ∷ items) =
      let rest = trim max_items items in
      if ltb max_items (length (item ∷ items)) then rest else item ∷ items

  unfoldable pub get_key : TtlStore V → ℕ → String → TtlStore V × Option V
  get_key store now key = elim (Dict.get store.items key) [
    | none ↦ (store, none)
    | some (stored, value) ↦
        if ltb store.ttl (now - stored)
        then (record store { items = Dict.pop store.items key }, none)
        else (record store { items = move_to_end store.items key (stored, value) }, some value)
  ]

  unfoldable pub get : TtlStore V → ℕ → Option String → TtlStore V × Option V
  unfolding get_key
  get store now none = (store, none)
  get store now (some key) = get_key store now key

  unfoldable pub put_key : TtlStore V → ℕ → String → V → TtlStore V
  unfolding trim
  put_key store now key value = record store {
    items =
        trim store.max_items (move_to_end (Dict.put store.items key (now, value)) key (now, value));
  }

  unfoldable pub put : TtlStore V → ℕ → Option String → V → TtlStore V
  unfolding put_key
  put store now none value = store
  put store now (some key) value = put_key store now key value

  unfoldable pub clear : TtlStore V → TtlStore V
  clear store = record store { items = [] }
