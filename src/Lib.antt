-- ===== src/Lib.antt =====
-- A search engine over inverted lists, with a retrieval agent and an inference service on top of it:
-- the Python package src/qryeval_plus.
--
-- The parts and how they meet. A query is a tree of operators. An inverted-list operator evaluates
-- to an inverted list and is then read through a pair of iterators; score operators above it look
-- for documents through those iterators. The agent calls searches as tools of a language model,
-- stores each ranking that a search returns, and answers from the one that was selected.
--
-- Which file models which part, with the source's names:
--   InvList    core/InvList.py: DocPosting, appendPosting, getDocid, getTf. A Boolean result beside
--              the new list; an IndexError is `none`.
--   Cursor     query/QryIop.py: docIteratorAdvanceTo, docIteratorAdvancePast, … and the
--              locIterator methods, on the record of an inverted list and the two indices.
--   MatchAll   query/Qry.py: docIteratorHasMatchAll. Moved arguments are returned, and the cached
--              document.
--   Near       query/QryIopNear.py: evaluate, withinDoc, outOfDoc, findMatch.
--   Window     query/QryIopWindow.py: evaluate.
--   Syn        query/QryIopSyn.py: evaluate.
--   Score      query/Qry.py: docIteratorHasMatchFirst, -Min and -All, the advances and the match cache;
--              query/QrySopScore.py, QrySopOr.py, QrySopAnd.py, QrySopSum.py, QrySopWsum.py:
--              docIteratorHasMatch, and getScore of the Boolean models.
--   Tree       query/Qry.py: appendArg and delArg; query/QryParser.py: _duplicateQry,
--              _optimizeSumToWsum, optimizeQuery. A tree is a data type; an exception, and a query
--              that the optimizer deletes, are `none`.
--   Agent      agentic/state.py (Agent.State), agentic/tools.py (Agent.Toolbox), and
--              agentic/runtime.py: _planner_node and _complete_planner_with_retry (Agent.Planner),
--              _tool_node (Agent.ToolNode), _answer_node, the routes and the graph (Agent.Graph); the
--              constructor's checks, with those of the toolbox that it makes, beside
--              _validate_agentic_task of config.py (Agent.Configure).
--   Rewrite    agentic/rewrite.py: _execute_one, on the state and the toolbox of Agent.
--   Config     config.py: ordered_tasks, over any type of task values.
--   Text       the methods of Python's str and the call of int that the parser makes, on lists of
--              code points.
--   Parser     query/QryParser.py: getQuery, parseString, createOperator, createTerms, popTerm,
--              popSubquery and indexOfBalancingParen. Parser.Printed writes queries down.
--   Ranker     retrieval/Ranker.py: the loop of get_rankings_bow for one query, and
--              _prepare_bow_query.
--   Ranking    core/Ranking.py: add and get_ranking, over any comparisons of scores and ids.
--   ScoreList  core/ScoreList.py: add, getDocid, getDocidScore.
--   Statistics statistics.py: classify_error, over any type of metrics, and holm_adjust.
--   Budget     llm/cached.py: complete, generate and the two tables, for one caller and for several,
--              whose steps are the two locked parts of complete.
--   Split      protocol.py: read_query_file, triviaqa_questions, build_split_payload.
--   Grounding  grounding.py: normalize_text and grounding_status.
--   Passages   rag/PassageBuilder.py: _truncate_tokens and build.
--   Queue      service/queue.py: submit, _worker and close, as steps between two awaits.
--
-- Numbers are natural numbers: document ids, positions, counters. The subtractions of the source
-- are made where the larger number comes first.
--
-- Fuel. `has_match_all` runs on the postings of the first argument and one more, since each round
-- but the last moves that argument; `within_loop` and `window_loop` on all positions and one more,
-- since each round moves an index; `evaluate_loop` of NEAR on the postings of the first argument
-- and one more. The fuel of the agent's `run` is the recursion limit of LangGraph, 25 unless it is
-- set; two nodes for each turn and one more are enough. The queue's worker has two rounds for each job that waits and one for the job that runs. The height of a query is enough
-- for `has_match` of Score where no AND stands in it. Theorems below show that these are enough.
-- The parser's fuel is the length of the query, the windows over a body have one round more than
-- there may be passages, and the loop of the ranker has one more than the leaves hold postings.
-- The outer loops of WINDOW and SYN run on all postings and one more, since each round moves an
-- argument past a posting. The loop of an AND runs on the fuel that its operator is given; no theorem
-- below says that it is enough.
--
-- Parameters: the Lucene analyzer and the reading of a float of the parser, the external id of a
-- document, the search back ends, the reading of evidence passages and the rank fusion that a tool
-- calls, the language model, and the generators of answers are arguments. A back end and the reading
-- of passages may return, fail by a ValueError or raise another exception; the language model returns
-- or fails by an error that the planner catches; nothing else is supposed of them. The lower case of
-- a text is one too; a theorem supposes that a space ends what a letter's case depends on.
--
-- Not modelled: Lucene and everything that reads an index, floating-point scores of the agent's
-- rankings, prompts, JSON texts, files, the command line and the network.
pub mod Prelude
pub mod Agent
pub mod Budget
pub mod Config
pub mod Cursor
pub mod Grounding
pub mod InvList
pub mod MatchAll
pub mod Near
pub mod Parser
pub mod Passages
pub mod Queue
pub mod Ranker
pub mod Ranking
pub mod Rewrite
pub mod Score
pub mod ScoreList
pub mod Split
pub mod Statistics
pub mod Syn
pub mod Text
pub mod Tree
pub mod Window
