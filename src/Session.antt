-- ===== src/Session.antt =====
-- The conversation state and the daily spend of backend/services/auto_session.py. The SHA-256 of a
-- text and Python's `repr` of a value are arguments; money is in whole units of 10⁻¹⁰ USD; a day is
-- its number, which stands for the UTC date text.
pub mod Spend
pub mod Route
use mister_pilot_proxy.Prelude.{
  ℕ, suc, ◌+◌, String, Bool, true, false, Option, none, some, List, [], ◌∷◌, eqb, if◌then◌else◌,
}
use mister_pilot_proxy.Dict
use mister_pilot_proxy.Dict.{Dict}
use mister_pilot_proxy.Json.{Json, arr, str, get_field, to_list, text_is}
use mister_pilot_proxy.Ttl
use mister_pilot_proxy.Ttl.{TtlStore}

pub record AutoSession : Type 0 where
  pub model : String
  pub score : ℕ
  pub effort : Option String
  pub user_turns : ℕ

abbrev pub messages_of : Option Json → List Json
messages_of (some (arr items)) = to_list items
messages_of _ = []

unfoldable pub messages : Json → List Json
messages payload = messages_of (get_field payload "messages")

abbrev pub has_role : String → Json → Bool
has_role role message = text_is (get_field message "role") role

abbrev pub count_role : String → List Json → ℕ
count_role role [] = 0
count_role role (m ∷ ms) = let n = count_role role ms in if has_role role m then suc n else n

unfoldable pub user_turns : Json → ℕ
unfolding messages
user_turns payload = count_role "user" (messages payload)

abbrev pub last_has_role : String → List Json → Bool
last_has_role role [] = false
last_has_role role (m ∷ []) = has_role role m
last_has_role role (m ∷ n ∷ ms) = last_has_role role (n ∷ ms)

unfoldable pub is_tool_step : Json → Bool
unfolding messages
is_tool_step payload = last_has_role "tool" (messages payload)

-- What the code takes from the standard library's hashing and printing.
pub record Digests : Type 0 where
  pub tenant_of : String → String
  pub conversation : String → String → String
  pub repr : Option Json → String

module _ (digests : Digests) where
  abbrev pub content_text : Option Json → String
  content_text (some (str s)) = s
  content_text content = digests.repr content

  abbrev pub first_user_key : String → List Json → Option String
  first_user_key raw_key [] = none
  first_user_key raw_key (m ∷ ms) =
      if has_role "user" m
      then some
          (digests.conversation (digests.tenant_of raw_key) (content_text (get_field m "content")))
      else first_user_key raw_key ms

  unfoldable pub session_key : String → Json → Option String
  unfolding messages
  session_key raw_key payload = first_user_key raw_key (messages payload)

unfoldable pub get_session :
    TtlStore AutoSession → ℕ → Option String → TtlStore AutoSession × Option AutoSession
get_session sessions now key = Ttl.get sessions now key

unfoldable pub save_route :
    TtlStore AutoSession → ℕ → Option String → AutoSession → TtlStore AutoSession
save_route sessions now none route = sessions
save_route sessions now (some key) route = Ttl.put sessions now (some key) route

-- `_spend`: per tenant, the day of the last charge and the total of that day.
abbrev pub Spend : Type 0
Spend = Dict (ℕ × ℕ)

abbrev pub total_on : ℕ → Option (ℕ × ℕ) → ℕ
total_on day none = 0
total_on day (some (seen_day, total)) = if eqb seen_day day then total else 0

unfoldable pub record_spend : Spend → String → ℕ → ℕ → Spend
record_spend spend tenant day usd =
    Dict.put spend tenant (day, total_on day (Dict.get spend tenant) + usd)

unfoldable pub spent_today_usd : Spend → String → ℕ → ℕ
spent_today_usd spend tenant day = total_on day (Dict.get spend tenant)
