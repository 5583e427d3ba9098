-- ===== src/Cost/Charge.antt =====
-- `_fire_charge` of backend/services/cost_service.py: the delivery of one charge to the wallet. What
-- each attempt meets is an argument, and so is where the task is cancelled: before it starts, while a
-- post or a wait after it is awaited, or while the client closes.
use mister_pilot_proxy.Prelude.{
  ℕ, zero, suc, ◌+◌, ◌≤◌, ◌≡◌, inl, inr, Bool, Bool-cases, true, false, List, [], ◌∷◌, arith, ltb,
  leb, ◌&&◌, ◌||◌, ◌++◌, refl, length, if◌then◌else◌,
}

-- What a post meets: no connection, another error after it was sent, an answer, or a cancellation
-- while it waits.
pub data PostResult : Type 0 where
  not_connected no_answer cancelled : PostResult
  answered : ℕ → PostResult

-- Why a charge is put in the dead-letter file.
pub data DeadLetter : Type 0 where
  no_url outcome_unknown cancelled_at_shutdown : DeadLetter
  unreachable refused : ℕ → DeadLetter

-- The posts made, in order, the dead letters written, and whether a CancelledError is on its way out.
pub record Delivery : Type 0 where
  pub posts : List PostResult
  pub dead : List DeadLetter
  pub stopped : Bool

-- What the attempts meet, whether the wait after an attempt is cancelled, and whether the task is
-- cancelled before it starts or while the client closes.
pub record Wallet : Type 0 where
  pub post : ℕ → PostResult
  pub cancelled_in_wait : ℕ → Bool
  pub cancelled_before_start : Bool
  pub cancelled_at_close : Bool

-- `len(_CHARGE_RETRY_DELAYS)`
abbrev pub retries : ℕ
retries = 3

abbrev pub is_success : ℕ → Bool
is_success status = leb 200 status && ltb status 300

abbrev pub posted : PostResult → Delivery → Delivery
posted result rest = record rest { posts = result ∷ rest.posts }

abbrev pub ended : PostResult → List DeadLetter → Delivery
ended result letters = record { posts = result ∷ []; dead = letters; stopped = false }

-- The post is the last, as a CancelledError leaves the loop.
abbrev pub stopped_after : PostResult → Delivery
stopped_after result = record { posts = result ∷ []; dead = []; stopped = true }

abbrev pub nothing : Delivery
nothing = record { posts = []; dead = []; stopped = false }

-- One attempt, with the delivery by the attempts after it.
abbrev pub attempt_once : Wallet → ℕ → ℕ → Delivery → PostResult → Delivery
attempt_once wallet left attempt later not_connected =
    if leb left 0
    then ended not_connected (unreachable (attempt + 1) ∷ [])
    else if wallet.cancelled_in_wait attempt
    then stopped_after not_connected
    else posted not_connected later
attempt_once wallet left attempt later no_answer = ended no_answer (outcome_unknown ∷ [])
attempt_once wallet left attempt later cancelled = stopped_after cancelled
attempt_once wallet left attempt later (answered status) =
    ended (answered status) (if is_success status then [] else refused status ∷ [])

-- The loop from an attempt on, with so many attempts left after it.
unfoldable pub deliver : Wallet → ℕ → ℕ → Delivery
deliver wallet zero attempt = attempt_once wallet 0 attempt nothing (wallet.post attempt)
deliver wallet (suc left) attempt =
    attempt_once wallet (suc left) attempt (deliver wallet left (suc attempt)) (wallet.post attempt)

-- The outer handler: a CancelledError that left the loop, or that the closing of the client raises,
-- is written down once.
abbrev pub caught : Bool → Delivery → Delivery
caught at_close d =
    if d.stopped || at_close then record d { dead = d.dead ++ cancelled_at_shutdown ∷ [] } else d

-- The body of the coroutine. `url_set` is whether `USAGE_CHARGE_URL` is; without it no client is
-- opened.
abbrev pub charge_body : Bool → Wallet → Delivery
charge_body false wallet = record nothing { dead = no_url ∷ [] }
charge_body true wallet = caught wallet.cancelled_at_close (deliver wallet retries 0)

-- A task that is cancelled before it starts never enters the coroutine.
unfoldable pub fire_charge : Bool → Wallet → Delivery
fire_charge url_set wallet =
    let body = charge_body url_set wallet in if wallet.cancelled_before_start then nothing else body

-- A post that the wallet may have received.
abbrev pub may_reach : PostResult → Bool
may_reach not_connected = false
may_reach _ = true

abbrev pub reaching : List PostResult → ℕ
reaching [] = 0
reaching (p ∷ ps) = let n = reaching ps in if may_reach p then suc n else n

-- The post was answered with success.
abbrev pub succeeded : PostResult → Bool
succeeded (answered status) = is_success status
succeeded _ = false

abbrev pub succeeding : List PostResult → ℕ
succeeding [] = 0
succeeding (p ∷ ps) = let n = succeeding ps in if succeeded p then suc n else n

abbrev pub bit : Bool → ℕ
bit true = 1
bit false = 0

-- What holds of the loop with so many attempts at most.
abbrev Sound : ℕ → Delivery → Type 0
Sound most d =
    (length d.posts ≤ most)
    × (reaching d.posts ≤ 1)
    × (succeeding d.posts + (length d.dead + bit d.stopped) ≡ 1)

attempt_once-Sound :
    (wallet : Wallet) (left attempt : ℕ) (later : Delivery) (result : PostResult)
    → (1 ≤ left → Sound left later)
    → Sound (suc left) (attempt_once wallet left attempt later result)
attempt_once-Sound wallet left attempt later not_connected h = elim (Bool-cases (leb left 0)) [
  | inl last ↦ rw last (omega arith, omega arith, omega arith)
  | inr more ↦ elim (Bool-cases (wallet.cancelled_in_wait attempt)) [
    | inl stopped ↦ rw (more, stopped) (omega arith, omega arith, omega arith)
    | inr waited ↦
        let (most, once, one) = h (ground (arith, more)) in
        rw (more, waited) (omega (arith, most), once, one)
  ]
]
attempt_once-Sound wallet left attempt later no_answer h = (omega arith, omega arith, omega arith)
attempt_once-Sound wallet left attempt later cancelled h = (omega arith, omega arith, omega arith)
attempt_once-Sound wallet left attempt later (answered status) h =
    elim (Bool-cases (is_success status)) [
      | inl good ↦ rw good (omega arith, omega arith, omega arith)
      | inr bad ↦ rw bad (omega arith, omega arith, omega arith)
    ]

deliver-Sound :
    (wallet : Wallet) (left attempt : ℕ) → Sound (suc left) (deliver wallet left attempt)
unfolding deliver
deliver-Sound wallet zero attempt =
    attempt_once-Sound wallet 0 attempt nothing (wallet.post attempt)
      (λ h. absurd (omega (arith, h)))
deliver-Sound wallet (suc left) attempt =
    attempt_once-Sound wallet (suc left) attempt (deliver wallet left (suc attempt))
      (wallet.post attempt) (λ h. deliver-Sound wallet left (suc attempt))

length-snoc : {A : Type 0} (xs : List A) (x : A) → length (xs ++ x ∷ []) ≡ length xs + 1
length-snoc [] x = refl
length-snoc (y ∷ ys) x = omega (arith, length-snoc ys x)

-- At most four posts, of which at most one may have reached the wallet. The posts answered with
-- success and the dead letters are one in all, or two if the client's closing is cancelled, and then
-- at least one is a dead letter.
abbrev pub Once : Bool → Delivery → Type 0
Once at_close d =
    (length d.posts ≤ 4)
    × (reaching d.posts ≤ 1)
    × (1 ≤ succeeding d.posts + length d.dead)
    × (succeeding d.posts + length d.dead ≤ 1 + bit at_close)
    × (bit at_close ≤ length d.dead)

abbrev delivery : List PostResult → List DeadLetter → Bool → Delivery
delivery posts dead stopped = record { posts = posts; dead = dead; stopped = stopped }

caught-Once :
    (at_close stopped : Bool) (posts : List PostResult) (dead : List DeadLetter)
    → Sound 4 (delivery posts dead stopped)
    → Once at_close (caught at_close (delivery posts dead stopped))
caught-Once true true posts dead (most, once, one) =
    let more = length-snoc dead cancelled_at_shutdown in
    (most, once, omega (arith, more, one), omega (arith, more, one), omega (arith, more))
caught-Once true false posts dead (most, once, one) =
    let more = length-snoc dead cancelled_at_shutdown in
    (most, once, omega (arith, more, one), omega (arith, more, one), omega (arith, more))
caught-Once false true posts dead (most, once, one) =
    let more = length-snoc dead cancelled_at_shutdown in
    (most, once, omega (arith, more, one), omega (arith, more, one), omega (arith, more))
caught-Once false false posts dead (most, once, one) =
    (most, once, omega (arith, one), omega (arith, one), omega arith)

-- Whatever the wallet does, and wherever the delivery is cancelled once its task runs: there are at
-- most four posts, and at most one of them may have reached the wallet. The posts that are answered
-- with success and the dead letters are exactly one in all; only if the closing of the client, which
-- is opened when the URL is set, is cancelled can they be two, and then there is a dead letter for
-- it. So what leaves no dead letter was answered with success. (A dead letter is taken to be written.)
pub fire_charge-Once :
    (url_set : Bool) (wallet : Wallet)
    → wallet.cancelled_before_start ≡ false
    → Once (url_set && wallet.cancelled_at_close) (fire_charge url_set wallet)
unfolding fire_charge
fire_charge-Once false wallet h =
    simp h (omega arith, omega arith, omega arith, omega arith, omega arith)
fire_charge-Once true wallet h =
    let loop = deliver wallet retries 0 in
    simp h (
      caught-Once wallet.cancelled_at_close loop.stopped loop.posts loop.dead
        (deliver-Sound wallet retries 0))
