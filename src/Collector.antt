-- ===== src/Collector.antt =====
-- lib/collector/api.js: the codes of the collector's answers and the attempts to connect. The health
-- reports, the metric of attempts and logging are left out; what an attempt to log in answers is the
-- environment's.
pub mod Retrying
pub mod Codes
use monis_agent.Common.{
  ℕ, zero, suc, ◌-◌, min, List, [], ◌∷◌, ◌++◌, Option, none, some, Bool, true, false, ◌||◌, ◌==◌,
  if◌then◌else◌,
}
use monis_agent.CollectorResponse
use monis_agent.CollectorResponse.{CollectorResponse, AgentRun, shutdown, preserve, restart}

abbrev pub is_among : ℕ → List ℕ → Bool
is_among code [] = false
is_among code (c ∷ codes) = (code == c) || is_among code codes

abbrev pub success_codes : List ℕ
success_codes = 200 ∷ 202 ∷ []

abbrev pub restart_codes : List ℕ
restart_codes = 401 ∷ 409 ∷ []

abbrev pub failure_save_data : List ℕ
failure_save_data = 408 ∷ 429 ∷ 500 ∷ 503 ∷ []

abbrev pub failure_discard_data : List ℕ
failure_discard_data = 400 ∷ 403 ∷ 404 ∷ 405 ∷ 407 ∷ 411 ∷ 413 ∷ 414 ∷ 415 ∷ 417 ∷ 431 ∷ []

-- `BACKOFFS`, by the interval in seconds.
abbrev pub backoffs : List ℕ
backoffs = 15 ∷ 15 ∷ 30 ∷ 60 ∷ 120 ∷ 300 ∷ []

abbrev pub nth : ℕ → List ℕ → ℕ
nth n [] = 0
nth zero (x ∷ xs) = x
nth (suc n) (x ∷ xs) = nth n xs

-- What a log-in calls back with: an error or none, and an answer of the server, or a response of the
-- agent's own that has no status.
pub record Answer (P : Type 0) : Type 0 where
  pub is_error : Bool
  pub has_response : Bool
  pub status : Option ℕ
  pub shuts_down : Bool
  pub payload : Option P

pub record Attempts : Type 0 where
  pub max : ℕ
  pub errors : ℕ
  pub attempts : ℕ

-- `connect`: the context of the first log-in.
unfoldable pub connect : Attempts
connect = record { max = 6; errors = 0; attempts = 1 }

-- What an attempt ends with: a call of the callback, or a wait in seconds before the next one.
pub data Outcome (P : Type 0) : Type 0 where
  done : CollectorResponse P → Outcome P
  again : (seconds : ℕ) → Attempts → Outcome P

abbrev pub count_error : Bool → Attempts → Attempts
count_error true ctx = record ctx { errors = suc ctx.errors }
count_error false ctx = ctx

module _ {P : Type 0} where
  -- The second component says that the agent is stopped first.
  unfoldable pub handle_response_code : (code : ℕ) → Option P → CollectorResponse P × Bool
  unfolding CollectorResponse.success CollectorResponse.reconnect CollectorResponse.discard
      CollectorResponse.error CollectorResponse.fatal
  handle_response_code code payload =
      if is_among code success_codes
      then (CollectorResponse.success payload, false)
      else if is_among code restart_codes
      then (CollectorResponse.reconnect 0 none, false)
      else if is_among code failure_discard_data
      then (CollectorResponse.discard none, false)
      else if is_among code failure_save_data
      then (CollectorResponse.error payload, false)
      else if code == 410
      then (CollectorResponse.fatal payload, true)
      else (CollectorResponse.discard none, false)

  abbrev pub has_status : (ℕ → Bool) → Answer P → Bool
  has_status test a = elim a.status [ none ↦ false | some code ↦ test code ]

  abbrev pub is_success : Answer P → Bool
  is_success a =
      if a.is_error
      then false
      else if a.has_response
      then has_status (λ code. is_among code success_codes) a
      else false

  abbrev pub is_final : Answer P → Bool
  is_final a = if a.has_response then has_status (λ code. code == 410) a || a.shuts_down else false

  -- The end of `_retry`.
  unfoldable pub back_off : Attempts → Outcome P
  back_off ctx =
      again (nth (min ctx.attempts ctx.max - 1) backoffs)
        (record ctx { attempts = suc ctx.attempts })

  -- `_retry` of an answer that is a success, or one that is final, or one to retry.
  unfoldable pub conclude : (success final : Bool) → Attempts → Answer P → Outcome P
  unfolding back_off CollectorResponse.success CollectorResponse.fatal
  conclude true final ctx a = done (CollectorResponse.success a.payload)
  conclude false true ctx a = done (CollectorResponse.fatal a.payload)
  conclude false false ctx a = back_off ctx

  -- `_retry`; a response that is missing is one to retry.
  unfoldable pub retry : Attempts → Answer P → Outcome P
  unfolding conclude
  retry ctx a = conclude (is_success a) (is_final a) (count_error a.is_error ctx) a

  -- The attempts with their answers: the waits, and what the callback is called with.
  unfoldable pub attempt_all : Attempts → List (Answer P) → List ℕ × Option (CollectorResponse P)
  unfolding retry
  attempt_all ctx [] = ([], none)
  attempt_all ctx (a ∷ answers) = elim (retry ctx a) [
    | done response ↦ ([], some response)
    | again seconds next ↦ let rest = attempt_all next answers in (seconds ∷ rest.0, rest.1)
  ]
