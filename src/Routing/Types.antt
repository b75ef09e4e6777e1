-- ===== src/Routing/Types.antt =====
-- internal/routing/router.go and events.go: the state of the router. A pointer to a `state`, a
-- `quota` or a router is an address in a heap of the `System`, so that what routers and leases
-- share is shared here too. A counter of running requests is a natural number.
use clash_of_tokens.Base.{ℕ, String, Bool, false, List, [], Option, none, get_or, ◌^◌, ◌%◌}
use clash_of_tokens.Base.Int.{ℤ, pos}
use clash_of_tokens.Config.{Model, Source, Group, Config}
use clash_of_tokens.Protocol.Result.{ExecutionResult}

-- uint64 wraps around.
abbrev pub u64 : ℕ → ℕ
u64 n = n % 2 ^ 64

pub record Target (F : Type 0) : Type 0 where
  pub source : ℕ
  pub model : Model F

pub record State (F : Type 0) : Type 0 where
  pub input_tokens : ℕ
  pub output_tokens : ℕ
  pub total_tokens : ℕ
  pub estimated_cost : F
  pub cost_known : Bool
  pub executions : ℕ
  pub priced_executions : ℕ
  pub last_execution : Option ExecutionResult
  pub ttft_ms : F
  pub last_success : ℕ
  pub last_failure : ℕ
  pub last_http_status : ℤ
  pub virtual_finish : F
  pub enabled : Bool
  pub active : ℕ
  pub cooldown : ℕ
  pub failures : ℕ
  pub completed : ℕ
  pub latency : F
  pub blocked : Bool

pub record Quota (F : Type 0) : Type 0 where
  pub last_dispatch : ℕ
  pub virtual_finish : F
  pub active : ℕ
  pub limit : ℤ
  pub cooldown : ℕ

pub record CompiledGroup (F : Type 0) : Type 0 where
  pub group : Group F
  pub open group use *
  pub members : List (String × ℕ)

pub record Query (F : Type 0) : Type 0 where
  pub probe : Bool
  pub detail : Bool
  pub excluded_sources : List String
  pub affinity : String
  pub model : String
  pub protocol : String
  pub tools : Bool
  pub bytes : ℤ
  pub output_tokens : ℤ
  pub spent_usd : F
  pub stateful : Bool
  pub vision : Bool

-- `id` is the waiter's identity as a pointer, `ctx` the request whose context it waits under, and
-- `ready` whether the channel of capacity one holds a token.
pub record Waiter (F : Type 0) : Type 0 where
  pub id : ℕ
  pub query : Query F
  pub ctx : ℕ
  pub ready : Bool

-- The linked list from `head` to `tail` is the list `waiters`.
pub record Router (F : Type 0) : Type 0 where
  pub cfg : Config F
  pub targets : List (Target F)
  pub groups : List (String × CompiledGroup F)
  pub candidates : List (String × List ℕ)
  pub state : List ℕ
  pub quotas : List ℕ
  pub accounts : List (Option ℕ)
  pub parent_enabled : List Bool
  pub parent_approved : List Bool
  pub pool_strategies : List String
  pub account_weights : List F
  pub has_pools : Bool
  pub waiting : ℕ
  pub retired : Bool
  pub cursor : ℕ
  pub waiters : List (Waiter F)

pub record ExecutionEvent (F : Type 0) : Type 0 where
  pub sequence : ℕ
  pub finished_at : ℕ
  pub source : String
  pub model : String
  pub protocol : String
  pub validation : Bool
  pub status : ℤ
  pub outcome : String
  pub duration_ms : F
  pub ttft_ms : F
  pub execution : Option ExecutionResult

-- What survives a change of the configuration.
pub record Capacity (F : Type 0) : Type 0 where
  pub events : List (ExecutionEvent F)
  pub event_cursor : ℕ
  pub event_sequence : ℕ
  pub active : ℕ
  pub dispatch_sequence : ℕ
  pub source_states : List (String × ℕ)
  pub quota_states : List (String × ℕ)
  pub account_states : List (String × ℕ)
  pub current : ℕ

-- The heap, with the next free address of each kind, and the capacity that the routers share.
pub record System (F : Type 0) : Type 0 where
  pub capacity : Capacity F
  pub open capacity use *
  pub state_at : ℕ → State F
  pub next_state : ℕ
  pub quota_at : ℕ → Quota F
  pub next_quota : ℕ
  pub router_at : ℕ → Router F
  pub next_router : ℕ
  pub next_waiter : ℕ

-- `once` and `first_output` are the two `sync.Once`, true when they have run.
pub record Lease (F : Type 0) : Type 0 where
  pub protocol : String
  pub probe : Bool
  pub execution : Option ExecutionResult
  pub ttft_ms : F
  pub first_output : Bool
  pub router : ℕ
  pub target : Target F
  pub once : Bool
  pub started : ℕ
  pub state : ℕ
  pub quota : ℕ
  pub account : Option ℕ

-- Go's zero values. An index out of range is a panic in the code; here it reads these.
module _ {F : Type 0} where
  abbrev pub no_source : Source F
  no_source = record {
    weight = pos 0;
    account_id = "";
    credential_ref = "";
    credential_type_override = false;
    source_kind = "";
    execution_location = "";
    inference_location = "";
    billing_mode = "";
    credential_mode = "";
    id = "";
    provider = "";
    adapter = "";
    base_url = "";
    key_env = "";
    account_id_env = "";
    organization = "";
    project = "";
    enabled = false;
    auto_approved = false;
    local = false;
    anonymous = false;
    paid = false;
    max_inflight = pos 0;
    quota_domain = "";
    quota_max_inflight = pos 0;
    models = [];
  }

  abbrev pub no_group : CompiledGroup F
  no_group = record {
    group = record {
      require_vision = false;
      max_usd_per_million = none;
      max_usd_per_request = none;
      preferences = [];
      max_attempts = pos 0;
      allow_metered = none;
      allow_subscription = none;
      allow_unknown_cost = none;
      allowed_source_kinds = [];
      id = "";
      type = "";
      sources = [];
      min_tier = "";
      allow_unrated = false;
      allow_paid = false;
      local_only = false;
      require_tools = false;
    };
    members = [];
  }

  abbrev pub no_model : Model F
  no_model = record {
    input_usd_per_million = none;
    output_usd_per_million = none;
    enabled = none;
    auto_approved = none;
    declared_model = "";
    canonical_model = "";
    id = "";
    upstream = "";
    protocols = [];
    tier = "";
    rating_basis = "";
    tools = "";
    vision = false;
    max_input_bytes = pos 0;
  }

  abbrev pub no_target : Target F
  no_target = record { source = 0; model = no_model }

  -- r.cfg.Sources[i], r.state[i], r.quotas[i] and r.accounts[i], the objects read through.
  unfoldable pub source_of : Router F → ℕ → Source F
  source_of r i = get_or r.cfg.sources i no_source

  unfoldable pub target_of : Router F → ℕ → Target F
  target_of r i = get_or r.targets i no_target

  unfoldable pub state_addr : Router F → ℕ → ℕ
  state_addr r i = get_or r.state i 0

  unfoldable pub quota_addr : Router F → ℕ → ℕ
  quota_addr r i = get_or r.quotas i 0

  unfoldable pub account_addr : Router F → ℕ → Option ℕ
  account_addr r i = get_or r.accounts i none

  unfoldable pub state_of : System F → Router F → ℕ → State F
  state_of sys r i = sys.state_at (state_addr r i)

  unfoldable pub quota_of : System F → Router F → ℕ → Quota F
  quota_of sys r i = sys.quota_at (quota_addr r i)
