-- ===== src/CollectorResponse.antt =====
-- lib/collector/response.js: what to do after an answer of the collector. A delay that is missing is 0.
use monis_agent.Common.{ℕ, Option, Bool, true, false}

pub data AgentRun : Type 0 where
  shutdown : AgentRun
  preserve : AgentRun
  restart : AgentRun

-- `P` is the type of the answers' payloads; null is `none`.
pub record CollectorResponse (P : Type 0) : Type 0 where
  pub retain_data : Bool
  pub retry_after : ℕ
  pub agent_run : AgentRun
  pub payload : Option P

module _ {P : Type 0} where
  unfoldable pub success : Option P → CollectorResponse P
  success payload = record {
    retain_data = false;
    retry_after = 0;
    agent_run = preserve;
    payload = payload;
  }

  unfoldable pub discard : Option P → CollectorResponse P
  unfolding success
  discard payload = success payload

  unfoldable pub error : Option P → CollectorResponse P
  error payload = record {
    retain_data = true;
    retry_after = 0;
    agent_run = preserve;
    payload = payload;
  }

  unfoldable pub fatal : Option P → CollectorResponse P
  fatal payload = record {
    retain_data = false;
    retry_after = 0;
    agent_run = shutdown;
    payload = payload;
  }

  unfoldable pub retry : ℕ → Option P → CollectorResponse P
  retry delay payload = record {
    retain_data = true;
    retry_after = delay;
    agent_run = preserve;
    payload = payload;
  }

  unfoldable pub reconnect : ℕ → Option P → CollectorResponse P
  reconnect delay payload = record {
    retain_data = false;
    retry_after = delay;
    agent_run = restart;
    payload = payload;
  }

  unfoldable pub should_preserve_run : CollectorResponse P → Bool
  should_preserve_run r = elim r.agent_run [ shutdown ↦ false | preserve ↦ true | restart ↦ false ]

  unfoldable pub should_shutdown_run : CollectorResponse P → Bool
  should_shutdown_run r = elim r.agent_run [ shutdown ↦ true | preserve ↦ false | restart ↦ false ]

  unfoldable pub should_restart_run : CollectorResponse P → Bool
  should_restart_run r = elim r.agent_run [ shutdown ↦ false | preserve ↦ false | restart ↦ true ]
