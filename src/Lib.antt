-- ===== src/Lib.antt =====
-- A model of the GitHub emulator, a FastAPI service over a SQL database and bare git repositories
-- that answers GitHub's REST, GraphQL, git and Actions interfaces. Modelled is the logic that
-- decides: which events start a workflow, which jobs of a run start, wait, are skipped or
-- superseded and how runs end, what becomes of a job whose runner is gone, what a job's token may
-- do, who may see and write a repository, when a pull request may merge, and how refs are moved.
--
-- The parts meet in the database. An event is matched with the workflows (Triggers); a workflow's
-- jobs are rows that the scheduler moves on after each change (Scheduler); a job's requests are
-- checked against the permissions it declares (Permissions), and every request that names a
-- repository against the rights of its user (RepositoryAccess); merging asks for the readiness of
-- a pull request (MergeReadiness) and closes the issues that it names (ClosingIssues), and
-- updates of several refs go through a plan and one transaction of git (RefUpdates).
--
-- Prelude, with Lists, Rows, Text, Strings and Prefixes: shared names, equality tests as
--   instances, Python's any and all, relations between the rows of two tables, and str methods
--   over lists of code points and over strings.
--
-- Value, with Lookup: JSON and YAML values (dict, list, str, int, bool, None), and dict
--   operations that keep the order of insertion.
--
-- Jobs and Repositories: the rows of src/app/models/actions.py, repository.py, issue.py,
--   pull_request.py and user.py that several parts share, with the columns that the modelled code
--   reads or writes.
--
-- Scheduler: src/app/services/workflow_scheduler.py. Dispatch has dispatch_ready_jobs and
--   _supersede_for_concurrency, Completion has check_run_completion and cancel_workflow_run;
--   Needs, Rows, Turns, Loop, Progress, Liveness, Promotion, Conclusion and Verdict hold the
--   proofs.
--
-- Permissions: src/app/services/job_permissions.py, with Grants and Monotone for the proofs.
--
-- MergeReadiness: src/app/services/merge_readiness_service.py. Rows has the tables, Repository
--   the questions put to git, Checks and Reviews the two groups of requirements, Evaluate
--   evaluate_merge_readiness; Soundness, Requirements and Approvals hold the proofs.
--
-- RefUpdates: src/app/services/ref_update_service.py. Plan has plan with _oid, Apply has apply
--   and what git documents of its transactions; Lines, Checked, Atomic and Planned hold the
--   proofs.
--
-- RepositoryAccess: src/app/services/repository_access.py. Rows has the tables, Paths the pattern
--   on request paths, Access the rights and is_hidden; Roles and Hidden hold the proofs.
--
-- Triggers: src/app/services/workflow_triggers.py. Config has Python's reading of any YAML value,
--   Match evaluate_trigger; Asked says what filters ask of a push, and Filters holds the proofs.
--
-- ClosingIssues: src/app/services/closing_issue_service.py. References has the keywords'
--   references and what they resolve to, Close the closing of issues; Same says when two
--   references are to one issue, and Unique, Counters and Counted hold the proofs.
--
-- LostRunners: src/app/api/actions_dispatch.py, _requeue, _lose_job, _release_held_jobs and the
--   passes over the rows of _requeue_stale_jobs. Released holds the proofs.
--
-- RunnerJobs: src/app/api/actions_dispatch.py, how runners claim jobs (_poll_for_jobs, one round
--   at a time, and _requeue_stale_jobs), report progress and completion (update_job_progress,
--   complete_job) and register again (_release_held_jobs with _conclude_runs).
--
-- Lifecycle: Machine is an abstract machine of a job's life, Steps the histories in which the
--   operations of Scheduler, LostRunners and RunnerJobs follow each other in any order, Rows the
--   lawful changes of a row; Scheduled, Runners and Reports show what each operation makes of a
--   row, and Invariants what follows for histories.
--
-- JobGraph: src/app/services/workflow_service.py. Sort has _topo_sort over any value with a key
--   and needs, Build build_job_graph; Visits, Loop and Total say what one visit does, Listing and
--   Ordered what the sort lists.
--
-- Expressions: src/app/services/workflow_expressions.py, and _combine_conditions of
--   workflow_service.py. Values has Python's reading of values, Tokens the tokenizer, Functions
--   the functions of conditions, Parser the parser that evaluates as it reads, Evaluate
--   evaluate_job_if, Literals _as_literal and Conditions _combine_conditions. Scanned, Total,
--   Ended and Ends show that reading ends; Framed, FramedSteps, Joined, JoinedTokens,
--   ConjunctionText, Combined and Conjoined what a combined condition means; LiteralsRead what is
--   read of a literal.
--
-- Matrix: src/app/services/workflow_service.py. Expand has expand_matrix; Chosen says what a
--   matrix asks of a combination, and Combinations and Bounds hold the proofs.
--
-- NeedsContext: src/app/services/workflow_service.py. Build has build_needs_context, Bare and
--   Entries the proofs.
--
-- CallInputs: src/app/services/workflow_service.py. Apply has apply_workflow_call_inputs with
--   _declared_call_inputs and _coerce_input; Settled says what a declared input comes to, and
--   Resolved holds the proofs.
--
-- OrgVariables: src/app/services/org_variables.py. Context has the variables that a run sees,
--   Precedence the proofs.
--
-- A table is the list of its rows in the order in which the code's queries return them; a query
-- is a filter of it, and an assignment to a row's columns a map over it. A query that expects one
-- row takes the first: ids and the columns that the code treats as unique are taken to be so, and
-- a theorem that needs unique ids says so. Times are numbers. Nothing else changes the tables
-- between the first query of an operation and its commit.
--
-- Arguments of the model are the expression evaluator and the renderer of steps (an interface of
-- the scheduler, taken where they return: a TypeError that evaluate_job_if lets through aborts
-- the real dispatch_ready_jobs, and is not in the scheduler's model), Python's int and str
-- functions, float() of an input's text, and its json module on the values of expressions, the
-- git commands that a service runs, fnmatch, what the pattern of closing keywords finds, what a
-- job's outputs come to, and the printed form of a time. Git's update-ref transactions, on refs
-- by their full names, are a named hypothesis. A decimal number in an expression is where the
-- model of expressions stops, since values have no floats. Text is compared, stripped and folded
-- as ASCII. Messages of errors are data that keep their kind and what they name. An exception
-- that the code lets through is a value.
--
-- Loops over tables, dicts and texts are structural recursion. The recursive visit of _topo_sort
-- has fuel of one more than the number of jobs, which is enough: a visit that recurs marks a job
-- that was not marked. The tokenizer has fuel of one unit for each character, and each match
-- takes a character; the parser has eight units for each token and eight more, and at most seven
-- calls follow each other without taking a token.
--
-- Not modelled are the HTTP, GraphQL and git servers, the schemas and the database layer, which
-- move data to and from these parts; the workflow file reader, the inlining of reusable workflows
-- and the substitution of expressions in texts; the rest of the runner protocol, among it the
-- upstream runner's protocol of actions_distributed_task.py, whose _complete_job writes a
-- conclusion with no regard to a cancellation; webhooks, search and import.
pub mod Prelude
pub mod Value
pub mod Jobs
pub mod Scheduler
pub mod Permissions
pub mod Repositories
pub mod MergeReadiness
pub mod RefUpdates
pub mod RepositoryAccess
pub mod Triggers
pub mod ClosingIssues
pub mod LostRunners
pub mod OrgVariables
pub mod RunnerJobs
pub mod Lifecycle
pub mod JobGraph
pub mod Expressions
pub mod Matrix
pub mod NeedsContext
pub mod CallInputs
