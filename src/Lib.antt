-- ===== src/Lib.antt =====
-- Three parts of EvoHarness. The proof graph (evoharness/proof): goals, the routes that split a goal
-- into subgoals, the attempts made at a goal, and the controller that works a graph down to a proof of
-- its root. The evaluation evidence (evoharness/evaluation): what a grader's report says of a candidate
-- becomes an envelope, which is written to a file and decides what the search may do with the
-- candidate. The population (evoharness/core/population.py): the candidates of a search on their
-- islands, the archive of the best, and the migration between islands.
--
-- Parts, and the files that model them:
--
--   Proof/Graph.antt        evoharness/proof/graph.py: the rows, the enumerations, `goal_status_from`,
--                           `decomposition_status_from`, and `check_acyclic` as `repeated`.
--   Proof/Store.antt        evoharness/proof/store.py, `ProofGraphStore`:
--     Store/State.antt        the tables as one record `Store` of lists of rows; the methods that read;
--     Store/Write.antt        `upsert_goal`, `add_root`, `record_attempt`, `record_certification`,
--                             `set_decomposition_status`;
--     Store/Shape.antt        `ancestor_identities`, `reachable_from`, `add_decomposition`;
--     Store/Propagate.antt    `propagate`;
--     Store/Leases.antt       `claim`, `release`, `force_release`, `stale_leases`, `note_attempt_dir`;
--     Store/Schema.antt       what the schema's constraints say of the rows;
--     Store/Proves.antt       what a proof of a goal is in the graph, apart from every status of a goal;
--     Store/Current.antt      the store between two calls of the controller, write by write.
--   Proof/Solver.antt       evoharness/proof/solver.py, `AttemptResult`.
--   Proof/Controller.antt   evoharness/proof/controller.py, `ProofController` and `FixedDecompositions`;
--                           Controller/Loop.antt has `solve`.
--   Proof/Policy.antt       evoharness/proof/policy.py, `AxiomPolicy`.
--   Proof/Scope.antt        evoharness/proof/scope.py, `GraphScope`, and `_settle_scope` of store.py.
--   Proof/Assembly.antt     evoharness/proof/assembly.py: `_pin_map`, `route_for`, `_direct_proof` and
--                           `_top_route`.
--   Proof/Tests.antt        a small graph, built by the store's operations, and the theorems at it.
--   Evaluation/Faults.antt     evoharness/evaluation/faults.py, and what this part raises.
--   Evaluation/Values.antt     evoharness/evaluation/strictjson.py: Python values, the strict readers, and
--                              `freeze_json` and `thaw_json`.
--   Evaluation/Namespace.antt  evoharness/evaluation/namespace.py, `ScoreNamespace`.
--   Evaluation/Evidence.antt   evoharness/evaluation/evidence.py: `Coverage`, and the tests of
--                              `normalize_and_validate_evidence`;
--   Evaluation/Codec.antt      the same file: the identity, `encode_evidence`, `decode_evidence`.
--   Evaluation/Policy.antt     evoharness/evaluation/policy.py: `decide_search_use` and the three tests.
--   Evaluation/Report.antt     `EvalReport` of evoharness/core/population.py and its JSON form.
--   Evaluation/Sink.antt       evoharness/evaluation/producer.py: `EvidenceJsonlSink`;
--   Evaluation/Strict.antt     the same file: the strict reading at the start of `envelope_from_report`;
--   Evaluation/Producer.antt   the same file: `envelope_from_report`, `EvidenceProducingGrader`.
--   Population/Rows.antt       evoharness/core/population.py, `PopulationStore`: rows, islands, repairs;
--   Population/Archive.antt    `refresh_archive` and `_bucket_elites`;
--   Population/Migration.antt  `maybe_migrate`.
--   Evaluation/Tests.antt, Population/Tests.antt  small envelopes, sinks and populations, and the
--                              theorems at them.
--   Prelude.antt            lists, tables with a key, texts and tests; Prelude/Walk.antt is the walk
--                           that `ancestor_identities` and `reachable_from` share, and
--                           Prelude/Sorting.antt the sorting of the archive.
--
-- The controller calls the store's methods, and reads everything back from it: a method is a function
-- from a store to a result and a store (`Exec`), a step of the controller one of a store and a moment
-- (`Run`). An exception is the result `err`; `with self._conn` is `transaction`:
-- where its body raises, the store from before it is put back.
-- `try … finally` is `leased`.
--
-- The grader wraps another one: it hands the inner grader's report to `envelope_from_report`, which
-- builds an envelope or raises, writes the envelope to the sink, and notes on the candidate what
-- `decide_search_use` says. An inner grader that fails is recorded too. A call of the sink or of the
-- grader gives its result together with the sink and the candidate it leaves.
--
-- How the values of the proof graph are read:
--   * An id is the number that the digits drawn by `_new_id` write. The numbers that a call draws, the
--     clock, and the answers of the solver, the source of sketches and the validator are functions of
--     the moment of the call (`Outside`): the controller is handed them.
--   * Times, costs and budgets, which the code keeps as floats, are natural numbers of a fine unit.
--     Where the code subtracts (`budget - spent`) the difference is not negative.
--   * A table is the list of its rows in the order of insertion, which `ORDER BY created_at` gives
--     under a clock that does not go back. `SELECT DISTINCT` keeps the first of each value.
--   * The edges of a decomposition stand in its row, and its `sketch_json` in a table by its id.
--   * `PRIMARY KEY`, `UNIQUE` and `REFERENCES` are checked by the inserts, which raise IntegrityError.
--   * A set (axioms, seen identities, scopes) is a list, and is only asked for its members.
--
-- How the values of the evaluation are read:
--   * A Python value is a `Value`: null, a bool, an int, a float, a text, a list, a tuple, a dict, a
--     MappingProxyType, or one of which nothing is known. A float is nan, an infinity, or a sign and a
--     multiple of 2 ^ -1074; an int becomes a float by rounding to 53 bits, half to even.
--   * `digest` (SHA-256 of the canonical text), `canonical` (the canonical JSON text of a value) and
--     `loads` (`json.loads`, none where it raises) are parameters. A theorem that needs it says that a
--     digest is not empty, or that a written text reads back as its envelope.
--   * A sink's file is its complete lines and the text behind the last newline. A write either gets
--     to the disk or breaks, and leaves a part behind.
--   * What is blank is what `str.strip` empties; a line of the sink is blank where `bytes.strip` empties
--     it, which takes off white space of ASCII alone.
--   * A field of a report that its class calls a float may be an int too (`Number`), and OverflowError of
--     one that is too large leaves the grader. That the inner grader returns no report is a case of
--     `Graded`; the other fields have the types that their class names.
--
-- How the values of the population are read:
--   * The table is the list of its rows in the order of insertion, with the columns that a modelled
--     operation reads. An id is a number, in the order of the texts; a fitness, a timestamp and a
--     feature is a number of a fine unit.
--   * The island that numpy's generator draws is an argument, and so is `choose`, which gives the
--     positions of the candidates and of the targets that it draws in a migration; a position that is
--     out of range, which numpy never draws, moves nobody; the share of an island that migrates
--     and the bucket of a feature are functions of the configuration.
--
-- Bounds and fuel: the walks take one step more than there are goals, since a step that goes on marks a
-- goal that was not marked. `propagate` takes (goals + decompositions) * decompositions + 1 steps: a
-- round that queues parents settles a goal that was behind or completes a route, and queues at most as
-- many goals as there are decompositions. The loop over the candidates of `solve` takes one step for
-- every candidate, and each takes one off. `solve` itself recurses on `max_iterations`. A negative
-- `max_capability_attempts` is read as 0, as the rule does.
--
-- The rounding of an int takes 1024 steps, one for every binary digit of the largest float.
--
-- A store is current (`IsCurrent`) when its rows fit the schema, every goal has the status that the
-- rules derive from its attempts and routes, no route is behind, and what is marked proved has a proof.
-- A validator answers (`Answers`) when it never raises SketchUnavailable; where it does, a route stays
-- proposed without a call of `propagate`, and a goal that had become exhausted keeps that status until
-- the next `recover`.
--
-- The scope of a graph and the axiom policy stand by themselves: a command settles the scope before it
-- works on the graph, and a certificate reads the axioms of the assembled proof through the policy.
--
-- Not modelled: of evoharness/proof, the envelopes, the addition of missing columns, the text that
-- assembly renders, `worker_id`, the JSON form of sketches, and other processes that write to the same
-- store between two steps of the controller; a solver, a source or a validator that raises any other
-- exception. Of evoharness/evaluation, `ScoreNamespace.from_task` and `to_plain_json`, the lock and
-- `fsync` of the sink, `make_evidence_grader` and `evidence_manifest`. Of the population, the connection
-- and its retries, the columns that are added to old files, `all_signatures`, `fitness_lcb` and the texts
-- for a prompt. Of the repository, all outside the files named above: the other files of
-- evoharness/core, the research, evoplus, guard, contracts, launch, readout, runtime and serve packages,
-- and everything that calls Lean, a language model or the file system.
pub mod Prelude
pub mod Proof
pub mod Evaluation
pub mod Population
