-- ===== src/Session/Route.antt =====
-- The conversation id and the saved route of backend/services/auto_session.py, over the turns of a
-- conversation.
use mister_pilot_proxy.Prelude.{
  ℕ, ◌+◌, ◌-◌, ◌≤◌, ◌<◌, String, ◌≡◌, refl, Bool-cases, inl, inr, none, some, List, [], ◌∷◌, ◌++◌,
  ltb, arith, if◌then◌else◌,
}
use mister_pilot_proxy.Json.{Json}
use mister_pilot_proxy.Ttl.{TtlStore}
use mister_pilot_proxy.Ttl.Store.{IsValid, get-put_self}
use mister_pilot_proxy.Session.{
  AutoSession, Digests, messages, has_role, count_role, user_turns, first_user_key, session_key,
  get_session, save_route,
}

count_role-append :
    (role : String) (ms later : List Json)
    → count_role role (ms ++ later) ≡ count_role role ms + count_role role later
count_role-append role [] later = omega arith
count_role-append role (m ∷ ms) later = ground (arith, count_role-append role ms later)

module _ (digests : Digests) (raw_key : String) where
  first_user_key-append :
      (ms later : List Json)
      → 0 < count_role "user" ms
      → first_user_key digests raw_key (ms ++ later) ≡ first_user_key digests raw_key ms
  first_user_key-append [] later h = absurd (omega arith)
  first_user_key-append (m ∷ ms) later h = elim (Bool-cases (has_role "user" m)) [
    | inl user ↦ rw user
    | inr other ↦ rw other (first_user_key-append ms later (rw other at h))
  ]

  first_user_key-some :
      (ms : List Json)
      → 0 < count_role "user" ms
      → (key : String) × (first_user_key digests raw_key ms ≡ some key)
  first_user_key-some [] h = absurd (omega arith)
  first_user_key-some (m ∷ ms) h = elim (Bool-cases (has_role "user" m)) [
    | inl user ↦ rw user (_, refl)
    | inr other ↦ rw other (first_user_key-some ms (rw other at h))
  ]

  -- A turn that re-sends a conversation and adds to it has the same conversation id, and counts the
  -- user turns that were added.
  pub session_key_stable :
      (payload next : Json) (later : List Json)
      → 0 < user_turns payload
      → messages next ≡ messages payload ++ later
      → (session_key digests raw_key next ≡ session_key digests raw_key payload)
        × (user_turns next ≡ user_turns payload + count_role "user" later)
  unfolding session_key user_turns
  session_key_stable payload next later h e = (
    rw e (first_user_key-append (messages payload) later h),
    rw e (count_role-append "user" (messages payload) later),
  )

  session_key-some :
      (payload : Json)
      → 0 < user_turns payload
      → (key : String) × (session_key digests raw_key payload ≡ some key)
  unfolding session_key user_turns
  session_key-some payload h = first_user_key-some (messages payload) h

  -- The route saved for a turn is what the next turn of the conversation finds, until the session's
  -- lifetime has passed.
  pub session_found :
      (sessions : TtlStore AutoSession) (now then_at : ℕ) (payload next : Json) (later : List Json)
      (route : AutoSession)
      → IsValid sessions
      → 1 ≤ sessions.max_items
      → 0 < user_turns payload
      → messages next ≡ messages payload ++ later
      → (get_session
          (save_route sessions now (session_key digests raw_key payload) route)
          then_at
          (session_key digests raw_key next)).1
        ≡ (if ltb sessions.ttl (then_at - now) then none else some route)
  unfolding get_session save_route
  session_found sessions now then_at payload next later route v room h e =
      let (same, _) = session_key_stable payload next later h e in
      let (key, found) = session_key-some payload h in
      rw (same, found) (get-put_self sessions now then_at key route room v.distinct)
