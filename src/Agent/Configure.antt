-- ===== src/Agent/Configure.antt =====
-- The settings of an agent task: `_validate_agentic_task` of src/qryeval_plus/config.py and the
-- checks of the constructor of src/qryeval_plus/agentic/runtime.py. A setting is what `int` makes
-- of it; an exception of the constructor is `none`. The toolbox is the one that the constructor makes.
-- The provider, the graph, and the trajectory and checkpoint files are left out; the task's type is
-- the Boolean that it is agentic_rag.
pub mod Accepts
use qry_eval_plus.Prelude.{
  Bool, List, Option, [], false, if◌then◌else◌, leb, none, some, true, ℕ, ◌&&◌, ◌++◌, ◌>>=◌, ◌∷◌,
}
use qry_eval_plus.Agent.State.{
  ToolName, search_bm25, search_dense, rerank, fuse_rankings, finish_research, unknown, Config,
}
use qry_eval_plus.Agent.ToolNode.{contains}

-- A setting: absent, a number, a number below 0, or something that `int` refuses.
pub data Setting : Type 0 where
  absent negative unreadable : Setting
  number : ℕ → Setting

pub data Tools : Type 0 where
  absent_tools not_a_list : Tools
  tools : List ToolName → Tools

-- The resume flag: absent, one that `_as_bool` reads, or another value.
pub data Flag : Type 0 where
  absent_flag not_boolean : Flag
  flag : Bool → Flag

pub record Task : Type 0 where
  pub is_agentic : Bool
  pub allowed_tools : Tools
  pub max_turns : Setting
  pub max_retrieval_calls : Setting
  pub max_rerank_calls : Setting
  pub max_fusion_calls : Setting
  pub max_planner_retries : Setting
  pub planner_max_tokens : Setting
  pub max_context_docs : Setting
  pub agent_depth : Setting
  pub retrieval_depth : Setting
  pub psg_len : Setting
  pub psg_stride : Setting
  pub psg_cnt : Setting
  pub max_title_length : Setting
  pub resume : Flag

pub data TaskError : Type 0 where
  tools_missing tools_unknown finish_missing : TaskError
  below_minimum : (minimum : ℕ) → TaskError

abbrev pub is_known : ToolName → Bool
is_known (unknown name) = false
is_known _ = true

-- `set(allowed) - known` is empty.
unfoldable pub all_known : List ToolName → Bool
all_known [] = true
all_known (x ∷ xs) = is_known x && all_known xs

abbrev when_not : Bool → TaskError → List TaskError
when_not true e = []
when_not false e = e ∷ []

unfoldable pub check_tools : Tools → List TaskError
unfolding all_known contains
check_tools absent_tools = tools_missing ∷ []
check_tools not_a_list = tools_missing ∷ []
check_tools (tools []) = tools_missing ∷ []
check_tools (tools (x ∷ xs)) =
    when_not (all_known (x ∷ xs)) tools_unknown
    ++ when_not (contains (x ∷ xs) finish_research) finish_missing

-- A round of the loop over keys and minima; an absent setting is the minimum.
unfoldable pub check_minimum : ℕ → Setting → List TaskError
check_minimum minimum absent = []
check_minimum minimum negative = below_minimum minimum ∷ []
check_minimum minimum unreadable = below_minimum minimum ∷ []
check_minimum minimum (number n) = when_not (leb minimum n) (below_minimum minimum)

unfoldable pub validate_agentic_task : Task → List TaskError
unfolding check_tools check_minimum
validate_agentic_task t =
    check_tools t.allowed_tools
    ++ check_minimum 1 t.max_turns
    ++ check_minimum 1 t.max_retrieval_calls
    ++ check_minimum 0 t.max_rerank_calls
    ++ check_minimum 0 t.max_fusion_calls
    ++ check_minimum 0 t.max_planner_retries
    ++ check_minimum 1 t.max_context_docs
    ++ check_minimum 1 t.agent_depth

-- `_nonnegative_int`
unfoldable pub nonnegative_int : ℕ → Setting → Option ℕ
nonnegative_int default absent = some default
nonnegative_int default (number n) = some n
nonnegative_int default _ = none

-- `_positive_int`
unfoldable pub positive_int : ℕ → Setting → Option ℕ
positive_int default absent = if leb default 0 then none else some default
positive_int default (number n) = if leb n 0 then none else some n
positive_int default _ = none

abbrev pub default_full_tools : List ToolName
default_full_tools = search_bm25 ∷ search_dense ∷ rerank ∷ fuse_rankings ∷ finish_research ∷ []

abbrev checked_tools : List ToolName → Option (List ToolName)
checked_tools [] = none
checked_tools (x ∷ xs) =
    if all_known (x ∷ xs) && contains (x ∷ xs) finish_research then some (x ∷ xs) else none

unfoldable pub read_tools : Tools → Option (List ToolName)
unfolding all_known contains
read_tools absent_tools = checked_tools default_full_tools
read_tools not_a_list = none
read_tools (tools allowed) = checked_tools allowed

-- `int`, which takes a number below 0 too: what is said here is whether it raises.
abbrev pub is_readable : Setting → Bool
is_readable unreadable = false
is_readable _ = true

-- `int(parameters.get(key, default))`, as it stands in the toolbox.
abbrev read_int : Setting → Option Bool
read_int s = if is_readable s then some true else none

-- `parameters.get("agent:maxContextDocs", parameters.get("agentDepth", 5))`
abbrev pub or_depth : Setting → Setting → Setting
or_depth absent depth = depth
or_depth docs depth = docs

-- `AgentToolbox.__init__`: its settings are read, or one of them raises.
unfoldable pub make_toolbox : Task → Option Bool
make_toolbox t = do
  _ ← read_int t.retrieval_depth
  _ ← read_int (or_depth t.max_context_docs t.agent_depth)
  _ ← read_int t.psg_len
  _ ← read_int t.psg_stride
  _ ← read_int t.psg_cnt
  read_int t.max_title_length

-- `_as_bool`, with the default of `agent:resume`.
unfoldable pub as_bool : Flag → Option Bool
as_bool absent_flag = some false
as_bool not_boolean = none
as_bool (flag b) = some b

-- The constructor.
unfoldable pub configure : Task → Option Config
unfolding nonnegative_int positive_int read_tools make_toolbox as_bool
configure t = do
  _ ← if t.is_agentic then some true else none
  _ ← make_toolbox t
  max_turns ← positive_int 6 t.max_turns
  max_retrieval_calls ← positive_int 3 t.max_retrieval_calls
  max_rerank_calls ← nonnegative_int 1 t.max_rerank_calls
  max_fusion_calls ← nonnegative_int 1 t.max_fusion_calls
  _ ← positive_int 256 t.planner_max_tokens
  max_planner_retries ← nonnegative_int 1 t.max_planner_retries
  allowed ← read_tools t.allowed_tools
  _ ← as_bool t.resume
  some (record {
    max_turns = max_turns;
    max_retrieval_calls = max_retrieval_calls;
    max_rerank_calls = max_rerank_calls;
    max_fusion_calls = max_fusion_calls;
    max_planner_retries = max_planner_retries;
    allowed_tools = allowed;
  })
