-- ===== src/Lib.antt =====
-- tac-master polls the issues of a list of GitHub repositories and starts a run of a workflow for
-- each issue that qualifies, within budgets of concurrent runs, tokens and runs per day. A daemon
-- alternates a poll with a reaping of the runs that ended; both work on one SQLite store.
--
-- Store (orchestrator/state_store.py) is the database: a record with a list of rows for each table
-- and a function for each method of StateStore. An insert answers with an exception where the
-- schema's keys forbid it. Config (orchestrator/config.py) and Budget (orchestrator/budget.py) are
-- pure functions of the configuration and the store. GitHub (orchestrator/github_client.py) is what
-- a poll reads. Tokens (orchestrator/token_tracker.py) prices transcripts and credits them.
-- Dispatch (orchestrator/dispatcher.py) has the decision whether an issue qualifies
-- (Dispatch.Trigger, _should_dispatch), the launch (Dispatch.Launch, _dispatch), the poll
-- (Dispatch.Poll, poll_once and _poll_repo) and the reaping (Dispatch.Reap, reap_finished_runs
-- with its helpers). Daemon (orchestrator/daemon.py) is the main loop and its start
-- (Daemon.Startup, main and cmd_doctor, on the store and the names of the file's tables), which first
-- checks the files (Config.Validator, orchestrator/config_validator.py), and Webhook
-- (orchestrator/webhook_server.py) the second way to a dispatch. Workflows holds three of the scripts that a run executes, the test phase
-- (adws/adw_test_iso.py), the review loop (adws/adw_review_iso.py) and the zero-touch pipeline
-- (adws/adw_sdlc_zte_iso.py), with the choice of ports (adws/adw_modules/worktree_ops.py), the
-- retries of an agent's prompt (adws/adw_modules/agent.py), the state file
-- (adws/adw_modules/state.py), and the class of an issue, its branch and its spec file
-- (adws/adw_modules/workflow_ops.py). Knowledge (orchestrator/knowledge.py) is the base of lessons
-- from finished runs. Orchestrator is the bridge of the daemon to an agent that stays: Tables,
-- Agents, Instances, Chat and Logs are the repositories (orchestrator/db_repositories.py), Session
-- the session over them (orchestrator/orchestrator_agent.py), Client the client of the claude
-- command (orchestrator/claude_sdk_client.py), Service a turn of the service
-- (orchestrator/orchestrator_service.py), Start the start of the bridge (_OrchestratorBridge of
-- orchestrator/daemon.py), and Conversation the abstract view that a turn refines. Shared has the
-- library's names, tests, tables, the statements that may raise and their invariants; Examples has
-- a sample store and world.
--
-- A handler is a function from the store to a result or an exception, with the store as it stands at
-- that point: a write before an exception stays, and one transaction that raises is rolled back. Each
-- handler reads the clock once, as `now` and `day`; in the daemon's loop `day` is that of all turns.
-- What lies outside enters as arguments: GitHub's answers, and for a launch the clone, the
-- random id, the lessons found, the environment, and the spawned process; for a reaping the
-- probe of the process, its state files, its transcripts, where a line that cannot be taken for usage
-- is a line of its own kind, and the answers of `cleo`. Commands sent
-- out by a reaping are returned in their order. The agents of the test and review
-- phases and the prompt with retries are functions on a state of their own. A turn of the service
-- takes the lines that the claude process prints, each decoded or none where it is blank or not JSON,
-- and how the stream ends, a line that is JSON but no object being such an end; the keys that uuid4 draws are a function of a counter that the service carries,
-- and the posts to the dashboard are returned in their order. The ranking of lessons by the
-- full-text index, the int that pydantic reads of a JSON value, the answers of git to the search for
-- a branch and the checks of the doctor are arguments too.
--
-- A string that the program only stores or compares is a `String`; one that it takes apart is a
-- `Text`, the list of its code points, with ASCII rules for letter case, white space and digits.
-- Numbers are natural, and costs and percentages exact where the program has floats. The ids of
-- issues and events, which the program never reads, are left out, and so are log lines, comments on
-- issues and files that a launch writes into the worktree (_inject_cleo_context), which change nothing in
-- the store. Loops are recursion over the list that they walk; the rounds of tests, the
-- reviews and the retries recurse on the attempts that are left.
--
-- Not modelled: the dry run of the daemon, the routes of the orchestrator's web service and the text
-- of its prompts, the input of a tool in a stored message, the text of the lessons in a prompt, the
-- repository manager, the other workflow scripts and modules under adws/adw_modules, the
-- dashboard and the deployment. They talk to Claude, git, GitHub and the file system, or show the
-- store.
pub mod Shared
pub mod Store
pub mod Config
pub mod Budget
pub mod Tokens
pub mod GitHub
pub mod Dispatch
pub mod Daemon
pub mod Webhook
pub mod Workflows
pub mod Knowledge
pub mod Examples
pub mod Orchestrator
