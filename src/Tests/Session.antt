-- ===== src/Tests/Session.antt =====
-- A conversation of two turns, and the charges of two days: backend/services/auto_session.py.
use mister_pilot_proxy.Prelude.{
  ◌-◌, ◌≡◌, refl, String, [], ◌∷◌, ◌++◌, List, arith, ltb, some, none, if◌then◌else◌,
}
use mister_pilot_proxy.Json.{Json, field, end, str, obj, arr, nil, cons}
use mister_pilot_proxy.Ttl.{TtlStore}
use mister_pilot_proxy.Ttl.Store.{IsValid}
use mister_pilot_proxy.Session.{
  AutoSession, Digests, messages, user_turns, session_key, get_session, save_route, spent_today_usd,
}
use mister_pilot_proxy.Session.Route.{session_found}
use mister_pilot_proxy.Session.Spend.{Charge, replay, sum_on, spent_today-sum}

abbrev digests : Digests
digests = record { tenant_of = λ key. key; conversation = λ tenant text. text; repr = λ value. "?" }

abbrev ask : String → Json
ask text = obj (field "role" (str "user") (field "content" (str text) end))

abbrev first_turn : Json
first_turn = obj (field "messages" (arr (cons (ask "hi") nil)) end)

abbrev second_turn : Json
second_turn = obj (field "messages" (arr (cons (ask "hi") (cons (ask "more") nil))) end)

one_turn : user_turns first_turn ≡ 1
unfolding user_turns messages
one_turn = refl

grows : messages second_turn ≡ ask "hi" ∷ ask "more" ∷ []
unfolding messages
grows = refl

first_messages : messages first_turn ≡ ask "hi" ∷ []
unfolding messages
first_messages = refl

extends : messages second_turn ≡ messages first_turn ++ ask "more" ∷ []
unfolding messages
extends = refl

abbrev route : AutoSession
route = record { model = "gpt-5.5"; score = 15; effort = some "high"; user_turns = 1 }

abbrev no_sessions : TtlStore AutoSession
no_sessions = record { items = []; max_items = 100; ttl = 3600 }

no_sessions-IsValid : IsValid no_sessions
no_sessions-IsValid = record { bounded = omega arith; distinct = tt }

session_found_example :
    (get_session
      (save_route no_sessions 5 (session_key digests "key" first_turn) route)
      100
      (session_key digests "key" second_turn)).1
    ≡ (if ltb 3600 (100 - 5) then none else some route)
session_found_example =
    session_found digests "key" no_sessions 5 100 first_turn second_turn (ask "more" ∷ []) route
      no_sessions-IsValid (omega arith) (omega (arith, one_turn)) extends

abbrev charges : List Charge
charges =
    record { tenant = "t"; day = 2; usd = 5 }
    ∷ record { tenant = "u"; day = 2; usd = 3 }
    ∷ record { tenant = "t"; day = 2; usd = 4 }
    ∷ record { tenant = "t"; day = 1; usd = 9 }
    ∷ []

spent_today-sum_example : spent_today_usd (replay charges) "t" 2 ≡ sum_on charges "t" 2
spent_today-sum_example =
    spent_today-sum charges "t" 2
      (
        (omega arith, (omega arith, (omega arith, tt))),
        ((omega arith, (omega arith, tt)), ((omega arith, tt), (tt, tt))),
      )
      (omega arith, (omega arith, (omega arith, (omega arith, tt))))
