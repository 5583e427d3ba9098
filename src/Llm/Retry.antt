-- ===== src/Llm/Retry.antt =====
-- `stream_chat_raw` of backend/llm/llm_client.py: the client of a stream never gets a text twice.
use mister_pilot_proxy.Prelude.{
  ℕ, zero, suc, ◌+◌, ◌<◌, max, ◌≡◌, ◌≢◌, ◌⊎◌, refl, ◌∙◌, ◌↔◌, String, Bool-cases, false, not, ◌||◌,
  inl, inr, Option, none, some, List, [], ◌∷◌, arith,
}
use mister_pilot_proxy.Llm.{
  Call, Streamed, ProviderError, started, transient, after_attempt, stream_from, stream_chat_raw,
}

-- The stream is that of one attempt, the last, and no attempt before it had yielded anything.
pub record OneAttempt (calls : ℕ → Call) (first tries : ℕ) (s : Streamed) : Type 0 where
  pub index : ℕ
  pub within : index < tries
  pub attempts : s.attempts ≡ suc index
  pub yielded : s.yielded ≡ (calls (first + index)).chunks
  pub silent : (j : ℕ) → j < index → (calls (first + j)).chunks ≡ []
  pub ends : (s.error ≡ none) ↔ ((calls (first + index)).end ≡ none)

not_started : (chunks : List String) → started chunks ≡ false → chunks ≡ []
not_started [] h = refl
not_started (c ∷ cs) h = cc

module _ (calls : ℕ → Call) (first left : ℕ) where
  add_zero : first + 0 ≡ first
  add_zero = omega arith

  last_attempt :
      (s : Streamed) (chunks : List String) (end : Option ProviderError)
      → s.yielded ≡ chunks
      → s.attempts ≡ 1
      → chunks ≡ (calls first).chunks
      → end ≡ (calls first).end
      → (s.error ≡ none) ↔ (end ≡ none)
      → OneAttempt calls first (suc left) s
  last_attempt s chunks end y a c e ends = record {
    index = 0;
    within = omega arith;
    attempts = a;
    yielded = rw add_zero (y ∙ c);
    silent = λ j h. absurd (omega (arith, h));
    ends = rw (add_zero, ← e) ends;
  }

  -- What the attempts after this one do: there are none, or one of them is the last.
  abbrev Later : Streamed → Type 0
  Later rest =
      ((left ≡ 0) × (rest.yielded ≡ []) × (rest.attempts ≡ 0) × (rest.error ≢ none))
      ⊎ OneAttempt calls (suc first) left rest

  moved : (k : ℕ) → suc first + k ≡ first + suc k
  moved k = omega arith

  silent_from :
      (k : ℕ)
      → (calls first).chunks ≡ []
      → ((j : ℕ) → j < k → (calls (suc first + j)).chunks ≡ [])
      → (j : ℕ) → j < suc k
      → (calls (first + j)).chunks ≡ []
  silent_from k own later zero h = rw add_zero own
  silent_from k own later (suc j) h = rw (← moved j) (later j (omega arith))

  go_on :
      (rest : Streamed)
      → (calls first).chunks ≡ []
      → OneAttempt calls (suc first) left rest
      → OneAttempt calls first
          (suc left)
          (record { yielded = rest.yielded; attempts = rest.attempts + 1; error = rest.error })
  go_on rest own r = record {
    index = suc r.index;
    within = omega (arith, r.within);
    attempts = omega (arith, r.attempts);
    yielded = rw (← moved r.index) r.yielded;
    silent = silent_from r.index own r.silent;
    ends = rw (← moved r.index) r.ends;
  }

  step :
      (rest : Streamed) (chunks : List String) (end : Option ProviderError)
      → chunks ≡ (calls first).chunks
      → end ≡ (calls first).end
      → Later rest
      → OneAttempt calls first (suc left) (after_attempt chunks end rest)
  step rest chunks none c e later =
      last_attempt _ chunks none refl refl c e ((λ h. refl), (λ h. refl))
  step rest chunks (some e) c f later = elim (Bool-cases (started chunks || not (transient e))) [
    | inl stop ↦ rw stop (last_attempt _ chunks (some e) refl refl c f ((λ h. cc), (λ h. cc)))
    | inr go ↦
        let silent : chunks ≡ [] = not_started chunks (ground (arith, go)) in
        elim later [
          | inl (none_left, nothing, zero_tries, failed) ↦ rw go (
              last_attempt _ chunks (some e) (rw (nothing, silent) refl) (omega (arith, zero_tries))
                c f ((λ h. absurd (failed h)), (λ h. cc)))
          | inr r ↦ rw (go, silent) (go_on rest (cc (c, silent)) r)
        ]
  ]

stream_from-OneAttempt :
    (calls : ℕ → Call) (left first : ℕ) (last : Option ProviderError)
    → OneAttempt calls first (suc left) (stream_from calls (suc left) first last)
unfolding stream_from
stream_from-OneAttempt calls zero first last =
    step calls first 0 (stream_from calls zero (suc first) (calls first).end) (calls first).chunks
      (calls first).end refl refl (inl (refl, refl, refl, λ h. cc))
stream_from-OneAttempt calls (suc left) first last =
    step calls first (suc left) _ (calls first).chunks (calls first).end refl refl
      (inr (stream_from-OneAttempt calls left (suc first) (calls first).end))

-- Whatever the provider does, the client of a stream is given the chunks of one attempt and of no
-- other: the last, and every attempt before it had yielded nothing. There is at least one attempt and
-- there are at most as many as configured, and the stream ends without an error exactly if that
-- attempt did.
pub stream_chat_raw-OneAttempt :
    (max_retries : ℕ) (calls : ℕ → Call)
    → OneAttempt calls 0 (max 1 max_retries) (stream_chat_raw max_retries calls)
unfolding stream_chat_raw
stream_chat_raw-OneAttempt zero calls = stream_from-OneAttempt calls 0 0 none
stream_chat_raw-OneAttempt (suc n) calls =
    let e : max 1 (suc n) ≡ suc n = omega arith in rw e (stream_from-OneAttempt calls n 0 none)
