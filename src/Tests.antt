-- ===== src/Tests.antt =====
-- Examples of the theorems, on the kinds of input that the tests of the repository use.
mod Verdicts
mod Journals
mod Fixtures
mod Snapshots
mod Traces
mod Hooks
mod Manifests
mod Budgeting
mod Results
mod Approvals
mod Checks
mod Policies
mod Sessions
use mcp_guard.Base.{Unicode, ◌-◌, true, ◌&&◌, ◌||◌, none, some, leb, if◌then◌else◌}

-- Texts without capital letters, ASCII digits, and network locations that need no check.
instance abbrev pub plain_text : Unicode
plain_text = record {
  lower = λ s. s;
  casefold = λ s. s;
  netloc_ok = λ s. true;
  alnum = λ c. (leb 48 c && leb c 57) || (leb 97 c && leb c 122);
  decimal = λ c. if leb 48 c && leb c 57 then some (c - 48) else none;
}
