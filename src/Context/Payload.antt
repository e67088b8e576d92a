-- ===== src/Context/Payload.antt =====
-- context/renderers.py and context/compiler.py: the accounting of tokens in a payload, in which the
-- digits of the usage are counted too (`stabilize_payload_usage`, `_stabilize_full_payload`).
-- `json.dumps` of a payload is an argument.
pub mod Accounting
use memory_os.Base.{
  ℕ, zero, suc, ◌-◌, String, Bool, true, false, ◌&&◌, Option, none, some, ◌==◌, if◌then◌else◌,
  Result, ok, raise, runtime_error, ◌>>=◌,
}
use memory_os.Domain.{TokenCounterKind, TruthState}
use memory_os.Context.Delta.{DeltaPlan}

-- The protocol `TokenCounter`.
pub record TokenCounter : Type 0 where
  pub tokenizer_id : String
  pub kind : TokenCounterKind
  pub count_text : String → ℕ

pub data Mode : Type 0 where
  full delta : Mode

-- The numbers of `usage` that the accounting reads or writes, and the others of `make_usage` that
-- are not constants. Latencies are in microseconds.
pub record Usage : Type 0 where
  pub full_context_tokens : ℕ
  pub context_text_tokens : ℕ
  pub payload_overhead_tokens : ℕ
  pub delivered_payload_tokens : ℕ
  pub delta_tokens : ℕ
  pub legacy_equivalent_tokens : ℕ
  pub selection_latency : ℕ
  pub render_latency : ℕ

pub record Payload : Type 0 where
  pub mode : Mode
  pub context_id : ℕ
  pub requires_base_context_id : Option ℕ
  pub retrieval_run_id : ℕ
  pub truth_state : TruthState
  pub text : String
  pub delta_plan : Option DeltaPlan
  pub fallback_reason : Option String
  pub usage : Usage

-- `PAYLOAD_ACCOUNTING_MAX_ROUNDS`
abbrev pub max_rounds : ℕ
max_rounds = 32

abbrev pub delta_part : Mode → ℕ → ℕ
delta_part Mode.full delivered = 0
delta_part Mode.delta delivered = delivered

module _ (counter : TokenCounter) (canonical_json : Payload → String) where
  -- `counter.count_json(payload)`
  unfoldable pub count_json : Payload → ℕ
  count_json p = counter.count_text (canonical_json p)

  -- `all(usage.get(key) == value for key, value in updates.items())`
  unfoldable pub is_accounted : Payload → ℕ → Bool
  is_accounted p delivered =
      p.usage.delivered_payload_tokens == delivered
      && p.usage.payload_overhead_tokens == delivered - p.usage.context_text_tokens
      && p.usage.delta_tokens == delta_part p.mode delivered

  abbrev account : Payload → ℕ → Payload
  account p delivered = record p {
    usage = record (p.usage) {
      delivered_payload_tokens = delivered;
      payload_overhead_tokens = delivered - p.usage.context_text_tokens;
      delta_tokens = delta_part p.mode delivered;
    };
  }

  -- The rounds left of the loop of `stabilize_payload_usage`.
  unfoldable pub settle : ℕ → Payload → Result Payload
  unfolding count_json is_accounted
  settle zero p = raise runtime_error
  settle (suc rounds) p =
      let next = settle rounds (account p (count_json p)) in
      if is_accounted p (count_json p) then ok p else next

  unfoldable pub stabilize_payload_usage : Payload → Result Payload
  unfolding settle
  stabilize_payload_usage p =
      settle max_rounds
        (record p { usage = record (p.usage) { context_text_tokens = counter.count_text p.text } })

  -- The rounds left of the loop of `_stabilize_full_payload`.
  unfoldable pub settle_full : ℕ → Payload → Result Payload
  unfolding stabilize_payload_usage
  settle_full zero p = raise runtime_error
  settle_full (suc rounds) p = stabilize_payload_usage p >>= λ current.
      let delivered = current.usage.delivered_payload_tokens in
      let next =
        settle_full rounds
          (record current { usage = record (current.usage) { full_context_tokens = delivered } }) in
      if current.usage.full_context_tokens == delivered then ok current else next

  unfoldable pub stabilize_full_payload : Payload → Result Payload
  unfolding settle_full
  stabilize_full_payload = settle_full max_rounds
