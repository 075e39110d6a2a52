-- ===== src/Lib.antt =====
-- PolicyLatch (import alias mcp_guard): a local policy gate for the actions of an agent.
--
-- The program decides on an action, or on an MCP tool call, by the patterns of a policy
-- (src/policylatch/evaluator.py, src/policylatch/gateway.py); it asks a human for approval of warnings
-- (src/policylatch/approval.py); and it stands between an MCP client and a server, where it forwards
-- what is allowed or approved (src/policylatch/runtime_gateway.py).
--
-- The files, and the code that each models (paths from the root of the repository):
--   Base, Base/*        native numbers, texts, lists, association lists, integers
--   Json, Result        the values of json.loads, exceptions as values; Json/Same when two dicts are equal,
--                       whatever the order of their keys
--   Models              src/policylatch/models.py: Decision, Reason, decision_for, aggregate
--   Matching            src/policylatch/matching.py; Matching/Glob is the fnmatch of the standard library
--   Url                 urllib.parse.urlparse(..).hostname
--   Validation          src/policylatch/validation.py: validate_action
--   Policy              the validated policy of src/policylatch/policy.py
--   Policy/Validate     src/policylatch/policy.py: _validate_mapping
--   Policy/Merge        src/policylatch/policy.py: _merge and _merge_resolved
--   Policy/Resolve      src/policylatch/policy.py: _resolve_file and what it calls;
--                       Policy/Resolve/Visits the files that a load reads
--   ToolResult/*        src/policylatch/result_scanner.py and src/policylatch/runtime_response.py: checks,
--                       patterns, findings, the outcome, the scan of an MCP response
--   Reports, Receipts   src/policylatch/reports.py and src/policylatch/receipts.py: the checks of a report,
--                       building and checking a decision receipt
--   Jsonl               reading a file of JSON lines, and what stands for json.dumps, json.loads, SHA-256
--   Journal             src/policylatch/journal.py: time stamps and the window; Journal/Entry the checks of
--                       an entry, Journal/File load_journal, Journal/Append append_journal,
--                       Journal/Duplicates _prior_duplicate and replay checks, Journal/Filter filters
--   PolicyTooling       src/policylatch/policy_tooling.py: the tests of a policy by fixtures
--   PolicyDiff          src/policylatch/policy_diff.py: transitions, gates, counts
--   Manifest, Scanner   src/policylatch/validation.py: manifest_entries; src/policylatch/scanners.py
--   Adapters            src/policylatch/adapters.py: hook events and answers, Adapters/Config the hook
--                       configuration, Adapters/Doctor its check
--   Windows             src/policylatch/windows_compare.py and the records that it uses
--   Gateway/Trace       src/policylatch/gateway_trace.py
--   Budgets             src/policylatch/budgets.py: the loops over budgets and records; Budgets/Facts
--                       action_budget_facts, Budgets/Document budget_check_document
--   Evaluator           src/policylatch/evaluator.py: evaluate_action
--   ToolPolicy          src/policylatch/tool_policy.py
--   Gateway             src/policylatch/gateway.py: parse_mcp_tool_call, evaluate_mcp_request
--   Fingerprint         the SHA-256 fingerprints, whose hash function is an argument
--   Approval/*          src/policylatch/approval.py: the grant store, requests, responses, the terminal
--   Runtime/*           src/policylatch/runtime_gateway.py: the session as an explicit state
--   Tests/*             examples
--
-- Exceptions are the values `err e` of Result, and `raised e s` of a run with a state. A raise of
-- TypeError or ValueError that the code does not mean is modelled too. Case tables, NFKC and decimal
-- digits of Unicode, the JSON codec, the hash function, the clock and the terminal are arguments.
-- One pass of the session loop is given what the streams and the terminal return in that pass
-- (Runtime/Turn). The loop has the fuel of the code: its bound on the number of messages.
-- Seconds of the monotonic clock are whole ticks, a parameter gives the ticks of a second.
--
-- The journal file is its bytes, or the reason why it cannot be read; what the operating system makes
-- of a write is an argument of append_journal. The loop of load_journal has one unit of fuel more than
-- the file has bytes, which is enough (Journal/File/Reading); so has the loop over a trace (Jsonl/Loop).
-- JSON text is an argument: json.dumps sorts the keys, so `SortsKeys` asks for one text of equal dicts,
-- and `ReadsBack` for a text without line feed that json.loads reads as a dict equal to the entry, not
-- as one with its keys in the order of the entry.
-- `seen_ids`, a set, is a list of which only membership is read. The test of a number with math.isfinite
-- raises OverflowError at an int too large for a float (`is_huge`).
-- Not modelled: processes, threads and byte-wise writes (only their results are), the command line, the
-- rendering of reports, the reading of Windows state, and git and workspace checks. The YAML reader is
-- an interface (Policy/Resolve). The session takes the scan of a response as an argument, which stands
-- for scan_mcp_tool_response.
pub mod Base
pub mod Journal
pub mod Json
pub mod Jsonl
pub mod Result
pub mod Models
pub mod Matching
pub mod Url
pub mod Manifest
pub mod Scanner
pub mod Adapters
pub mod PolicyTooling
pub mod Windows
pub mod Validation
pub mod Policy
pub mod ToolPolicy
pub mod ToolResult
pub mod Evaluator
pub mod Gateway
pub mod Fingerprint
pub mod Approval
pub mod Runtime
pub mod PolicyDiff
pub mod Receipts
pub mod Reports
pub mod Budgets
pub mod Tests
