-- ===== src/Lib.antt =====
-- Verification library of the RevDev daemon and its packages.
--
-- The program: a daemon (packages/daemon) that coordinates coding agents over JSON-RPC, the wire
-- contracts that it shares with its clients (packages/protocol), and a read-only database inspector
-- (packages/db-inspector). A call is checked (identity, license, permission), and then runs a
-- handler that changes a table of the daemon's database or a registry in its memory.
--
-- Files and the code that they model:
--   Base                 shared names; Base/Strings: strings as code units; Base/Number: JavaScript
--                        numbers; Base/Dict: maps and keyed tables; Base/Result: thrown errors;
--                        Base/Param: parameters of a call, str and num of server.ts;
--                        Base/Table and Base/Rows: SQL statements on tables, Base/Prefix: prefixes
--   Loops                packages/daemon/src/loop-guard.ts: LoopGuardRegistry, and the loop.*
--                        handlers of packages/daemon/src/server.ts (Loops/Rpc)
--   Permission           packages/daemon/src/permission.ts. Definitions: Permission/Methods (the action
--                        classes of methods), Paths (deny-list and grant scope), Policy (modes and
--                        decideEnforcement), Tables (rows), Grants, Approvals,
--                        Summary, Gate (enforceSkillTool), Door (the gate for requests) and GrantRequests
--                        with the permission.* handlers of packages/daemon/src/server.ts. Proofs: Floor (the
--                        decision), Decisions and Receipts (one call on
--                        approvals), History (sequences of calls), SingleUse, SelfApproval, Flood;
--                        Uses, Allowance, Issuing and Budget (one call on grants), GrantHistory;
--                        Passage, Refusal, Anchor and Requests (the gates: dispatchRpc of server.ts)
--   Identity             packages/protocol/src/base58.ts (Identity/Base58; digits in a base: Identity/Radix) and
--                        packages/protocol/src/did.ts (Identity/Did). Proofs: Transcode, Alphabet, RoundTrip,
--                        DidRoundTrip
--   Guard                packages/db-inspector/src/guard.ts: guardSelectOnly. Definitions: Guard/Words (word lists,
--                        character tests, reasons), Tokens, Scanners, Scan (scan) and Statement (the checks and
--                        the statement returned). Proofs: Splits, Cover and Spelling (scan), Comments (commentHidesWrite), Balance (the loop
--                        over the body), Skips and Rounds (assertWithSelect), Accepts (guardSelectOnly)
--   Goals                packages/daemon/src/goals and the goal.* handlers of packages/daemon/src/server.ts. Definitions:
--                        Goals/Store (types.ts, GoalStore), Progress (progress, nextActions), Harness and
--                        Criteria (the rest of GoalHarness) and Rpc. Proofs: Calls, Steps and History (what a call may change), Ready and Completion
--                        (progress), Transitions (the status machine), Evidence and Backed (goals that are done)
--   Claims               the tasks.* handlers of packages/daemon/src/server.ts (Claims/Tasks) on the table of tasks that
--                        goals share. Proof: Exclusion
--
-- How the parts interact: an agent's call passes the gate (Permission), which reads the session's
-- mode, decides by the class of the method, and may use up a grant or consume an approval; then the
-- handler runs (Loops, Goals, Claims). Handlers of loops work on a registry in memory, under the
-- verified caller.
-- The inspector's guard and the identity encodings are called by other parts and keep no state.
--
-- Conventions: a table is the list of its rows in order of insertion, UPDATE and SELECT are
-- functions on it, and a call is one atomic step on the tables. Time is a number of milliseconds
-- that is passed in. A throw is a value of Result. The meters of a loop are natural numbers: their
-- sums are the source's doubles up to 2^53, above which the source rounds and this model does not.
-- Loops of the source are structural recursion on the list they read, but for three that run on
-- fuel: the digits of a number (fuel: the number), scan (the length of the text) and the tables of
-- a WITH query (the number of tokens); each round uses up some. A scanner of the guard takes the
-- text from the source's index on, and returns what it read and what is left.
--
-- Not modelled: hashParams (node:crypto), which is a parameter; the verification of the caller's
-- signature and the query for a live session, which are arguments; interleavings of two calls between
-- their statements; the percentage of a goal's progress, a rounded double; the copies of tasks to
-- another database; SQL text, logging, sockets and processes; the other handlers of packages/daemon/src/server.ts, license, graph, file and git access, the
-- HTTP gateway, the client wrappers of packages/protocol, and the connection of packages/db-inspector;
-- apps and scripts.
pub mod Base
pub mod Claims
pub mod Goals
pub mod Guard
pub mod Identity
pub mod Loops
pub mod Permission
