-- ===== src/Agent/Configure/Accepts.antt =====
-- A task that validates can be run.
use qry_eval_plus.Prelude.{
  Bool, List, [], arith, false, leb, refl, some, true, ℕ, ◌++◌, ◌<◌, ◌∷◌, ◌≡◌, ◌≤◌,
}
use qry_eval_plus.Agent.State.{ToolName, finish_research, Config}
use qry_eval_plus.Agent.ToolNode.{contains}
use qry_eval_plus.Agent.Configure.{
  Setting, absent, negative, unreadable, number, Tools, absent_tools, not_a_list, tools, Task,
  TaskError, below_minimum, all_known, when_not, check_tools, check_minimum, validate_agentic_task,
  nonnegative_int, positive_int, read_tools, checked_tools, configure, is_readable, make_toolbox,
  or_depth, as_bool,
}

append_empty : {A : Type 0} (xs ys : List A) → xs ++ ys ≡ [] → (xs ≡ []) × (ys ≡ [])
append_empty [] ys e = (refl, e)
append_empty (x ∷ xs) ys e = cc

when_not-empty : (b : Bool) (e : TaskError) → when_not b e ≡ [] → b ≡ true
when_not-empty true e h = refl
when_not-empty false e h = cc

positive_of :
    (default : ℕ) (s : Setting)
    → 0 < default
    → check_minimum 1 s ≡ []
    → (n : ℕ) × (positive_int default s ≡ some n) × (1 ≤ n)
unfolding check_minimum positive_int
positive_of default absent d h = (default, ground arith, d)
positive_of default negative d h = cc
positive_of default unreadable d h = cc
positive_of default (number n) d h =
    let le : leb 1 n ≡ true = when_not-empty (leb 1 n) (below_minimum 1) h in
    (n, ground arith, ground arith)

nonnegative_of :
    (default : ℕ) (s : Setting)
    → check_minimum 0 s ≡ []
    → (n : ℕ) × (nonnegative_int default s ≡ some n)
unfolding check_minimum nonnegative_int
nonnegative_of default absent h = (default, refl)
nonnegative_of default negative h = cc
nonnegative_of default unreadable h = cc
nonnegative_of default (number n) h = (n, refl)

tools_of :
    (t : Tools)
    → check_tools t ≡ []
    → (allowed : List ToolName) × (read_tools t ≡ some allowed)
      × (contains allowed finish_research ≡ true)
      × (all_known allowed ≡ true)
unfolding check_tools read_tools
tools_of absent_tools h = cc
tools_of not_a_list h = cc
tools_of (tools []) h = cc
tools_of (tools (x ∷ xs)) h =
    let (k, f) = append_empty (when_not (all_known (x ∷ xs)) _) _ h in
    let known = when_not-empty (all_known (x ∷ xs)) _ k in
    let finish = when_not-empty (contains (x ∷ xs) finish_research) _ f in
    (x ∷ xs, checked x xs known finish, finish, known)
  where
    checked :
        (x : ToolName) (xs : List ToolName)
        → all_known (x ∷ xs) ≡ true
        → contains (x ∷ xs) finish_research ≡ true
        → checked_tools (x ∷ xs) ≡ some (x ∷ xs)
    checked x xs k f = rw (k, f)

-- The tests that found no error, one by one.
record Passed (t : Task) : Type 0 where
  tools_pass : check_tools t.allowed_tools ≡ []
  turns_pass : check_minimum 1 t.max_turns ≡ []
  retrieval_pass : check_minimum 1 t.max_retrieval_calls ≡ []
  rerank_pass : check_minimum 0 t.max_rerank_calls ≡ []
  fusion_pass : check_minimum 0 t.max_fusion_calls ≡ []
  retries_pass : check_minimum 0 t.max_planner_retries ≡ []
  docs_pass : check_minimum 1 t.max_context_docs ≡ []
  depth_pass : check_minimum 1 t.agent_depth ≡ []

passed : (t : Task) → validate_agentic_task t ≡ [] → Passed t
unfolding validate_agentic_task
passed t h =
    let to_turns = check_tools t.allowed_tools ++ check_minimum 1 t.max_turns in
    let to_retrieval = to_turns ++ check_minimum 1 t.max_retrieval_calls in
    let to_rerank = to_retrieval ++ check_minimum 0 t.max_rerank_calls in
    let to_fusion = to_rerank ++ check_minimum 0 t.max_fusion_calls in
    let to_retries = to_fusion ++ check_minimum 0 t.max_planner_retries in
    let to_docs = to_retries ++ check_minimum 1 t.max_context_docs in
    let (h6, i) = append_empty to_docs (check_minimum 1 t.agent_depth) h in
    let (h5, g) = append_empty to_retries (check_minimum 1 t.max_context_docs) h6 in
    let (h4, f) = append_empty to_fusion (check_minimum 0 t.max_planner_retries) h5 in
    let (h3, e) = append_empty to_rerank (check_minimum 0 t.max_fusion_calls) h4 in
    let (h2, d) = append_empty to_retrieval (check_minimum 0 t.max_rerank_calls) h3 in
    let (h1, c) = append_empty to_turns (check_minimum 1 t.max_retrieval_calls) h2 in
    let (a, b) = append_empty (check_tools t.allowed_tools) (check_minimum 1 t.max_turns) h1 in
    record {
      tools_pass = a;
      turns_pass = b;
      retrieval_pass = c;
      rerank_pass = d;
      fusion_pass = e;
      retries_pass = f;
      docs_pass = g;
      depth_pass = i;
    }

-- What the agent relies on in its limits.
pub record IsUsable (cfg : Config) : Type 0 where
  pub some_turn : 1 ≤ cfg.max_turns
  pub some_retrieval : 1 ≤ cfg.max_retrieval_calls
  pub can_finish : contains cfg.allowed_tools finish_research ≡ true
  pub only_known : all_known cfg.allowed_tools ≡ true

-- What `int` reads is read by the toolbox.
checked-is_readable :
    (minimum : ℕ) (s : Setting) → check_minimum minimum s ≡ [] → is_readable s ≡ true
unfolding check_minimum
checked-is_readable minimum absent h = refl
checked-is_readable minimum (number n) h = refl
checked-is_readable minimum negative h = cc
checked-is_readable minimum unreadable h = cc

or_depth-is_readable :
    (docs depth : Setting)
    → is_readable docs ≡ true
    → is_readable depth ≡ true
    → is_readable (or_depth docs depth) ≡ true
or_depth-is_readable absent depth h k = k
or_depth-is_readable negative depth h k = refl
or_depth-is_readable unreadable depth h k = cc
or_depth-is_readable (number n) depth h k = refl

-- The settings that the constructor reads and the validator does not look at.
pub record IsReadable (t : Task) (k : ℕ) (resumes : Bool) : Type 0 where
  pub tokens : positive_int 256 t.planner_max_tokens ≡ some k
  pub retrieval_depth : is_readable t.retrieval_depth ≡ true
  pub psg_len : is_readable t.psg_len ≡ true
  pub psg_stride : is_readable t.psg_stride ≡ true
  pub psg_cnt : is_readable t.psg_cnt ≡ true
  pub max_title_length : is_readable t.max_title_length ≡ true
  pub resume : as_bool t.resume ≡ some resumes

make_toolbox-readable :
    (t : Task) (k : ℕ) (resumes : Bool)
    → IsReadable t k resumes
    → Passed t
    → make_toolbox t ≡ some true
unfolding make_toolbox
make_toolbox-readable t k resumes h p =
    let docs =
      or_depth-is_readable t.max_context_docs t.agent_depth
        (checked-is_readable 1 t.max_context_docs p.docs_pass)
        (checked-is_readable 1 t.agent_depth p.depth_pass) in
    rw (h.retrieval_depth, docs, h.psg_len, h.psg_stride, h.psg_cnt, h.max_title_length)

-- A task of type agentic_rag in which the validator finds no error is accepted by the constructor,
-- with at least one turn and one retrieval, known tools only, and among them the one that finishes,
-- when the settings that the validator does not look at can be read: the planner's token limit is
-- absent or positive; `int` takes the retrieval depth and the length, stride, count and title length
-- of passages; the resume flag is absent or a boolean. The provider and the artifact files, which are
-- not modelled, are left aside.
pub configure-IsUsable :
    (t : Task) (k : ℕ) (resumes : Bool)
    → t.is_agentic ≡ true
    → validate_agentic_task t ≡ []
    → IsReadable t k resumes
    → (cfg : Config) × (configure t ≡ some cfg) × IsUsable cfg
unfolding configure
configure-IsUsable t k resumes kind valid r =
    let p = passed t valid in
    let box = make_toolbox-readable t k resumes r p in
    let (turns, a, low) = positive_of 6 t.max_turns (omega arith) p.turns_pass in
    let (retrievals, b, low') =
      positive_of 3 t.max_retrieval_calls (omega arith) p.retrieval_pass in
    let (reranks, c) = nonnegative_of 1 t.max_rerank_calls p.rerank_pass in
    let (fusions, d) = nonnegative_of 1 t.max_fusion_calls p.fusion_pass in
    let (retries, e) = nonnegative_of 1 t.max_planner_retries p.retries_pass in
    let (allowed, f, finish, known) = tools_of t.allowed_tools p.tools_pass in
    let cfg : Config = record {
      max_turns = turns;
      max_retrieval_calls = retrievals;
      max_rerank_calls = reranks;
      max_fusion_calls = fusions;
      max_planner_retries = retries;
      allowed_tools = allowed;
    } in
    (
      cfg,
      rw (kind, box, a, b, c, d, r.tokens, e, f, r.resume),
      record { some_turn = low; some_retrieval = low'; can_finish = finish; only_known = known },
    )
