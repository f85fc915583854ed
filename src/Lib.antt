-- ===== src/Lib.antt =====
-- Verification of the incident awareness engine: how Evidence about a host becomes a Fusion result, and how
-- the Fast and the Fusion result of a run become one Hybrid decision.
--
-- The parts, their files and the code (paths from the repository's root):
--   Model.Evidence         src/incident_awareness/common/models/evidence.py: one observation about an entity.
--   Fusion.Score           src/incident_awareness/decision/fusion/simple_score.py: `SimpleScorer`, the share of
--                          the configured evidence types that is active. Fusion.Score.Bounds proves it.
--   Fusion.Window          .../decision/fusion/window_engine.py: `WindowEngine`, a deque of Evidence per run and
--                          entity and two last timestamps per key, as association lists. A call returns its
--                          result beside the engine, since what was assigned before a raise stays assigned.
--                          Fusion.Window.Deque and Fusion.Window.Invariant prove it.
--   Fusion.Stopping        .../decision/fusion/stopping_policy.py: `ThresholdStoppingPolicy`. The locals of
--                          `evaluate` are the record Track, and what it passes to its observer a list. The
--                          children state it as an automaton (Automaton), say when it detects (Detection),
--                          what its episodes are (Episodes), how they are numbered (Numbering) and where
--                          their times come from (Drawn).
--   Fusion.Replay          .../decision/fusion/temporal_replay.py: `TemporalReplayRunner.run`; the engine ingests
--                          what is due, advances and is scored at every step of the clock. Engine, Trajectory
--                          and Run compare it with a specification that has no state.
--   Fusion.Causal          the same file: `run_causal` and `_causal_replay_points`, with Availability, Points and
--                          Run as its proofs.
--   Model.Fusion           .../common/models/fusion.py: the exchanged results with the validators that their
--                          constructors run, as functions into a result type.
--   Fusion.Result          .../decision/fusion/result_builder.py and pipeline.py: from a replay to a FusionResult
--                          and its stopping trace. Snapshots, Episodes, Contract, Trace and Pipeline prove it;
--                          Fusion.Construct shows that the constructors build what its theorems ask for.
--   Model.RunId, Model.Detection, Model.Decision
--                          .../common/models/result.py: run ids, DetectionResult and DecisionResult.
--   Hybrid                 .../decision/hybrid.py: `combine_results`; Table and Combine prove it.
--   Fusion.Config          .../decision/fusion/config.py: the validators of the configuration and the runner that
--                          it builds. Runner proves it, and Pipeline runs the Fusion path with it.
--   Stream                 .../pipeline/r1_stream_boundary.py and what it reads of .../common/models/r1_stream.py:
--                          `R1LateEventGuard` with its two dictionaries; what its sink is given is a list in
--                          the state, and what its clock returns an argument. Stream.Frontier proves it.
--   Delivery.Rows, .Tables, .Frontier, .Ledger, .Closing
--                          .../storage/repositories/r1_stream_delivery_repository.py: the tables as lists of rows,
--                          its queries with the keys of infra/postgres/migrations, and its calls. Append, Marks,
--                          Induct and Growth say what the calls write.
--   Delivery.Ingress       .../pipeline/r1_stream_ingress.py: `R1StreamIngress` on the ledger and the dead letters,
--                          which the sink of the spool writes, once for each chunk.
--                          Admission, Accepted, Written and Chunks specify `accept_chunk`; Frozen, Advance, Coverage and
--                          Received are about closed runs, watermarks, closes and received chunks.
--   Delivery.Contract      .../common/models/r1_stream.py: the validators of the messages; Messages proves what they
--                          ensure.
--   Delivery.Spool         .../pipeline/r1_stream_wiring.py: `consume_spool_once`, with a transaction for each
--                          file. Transaction, Replay, Once, Closed and Exactly show that delivery is exactly
--                          once; Step, Acked, Passes and Recovery are about the acknowledgements.
--   Delivery.PositionClose, .Position
--                          .../storage/repositories/r1_position_close_repository.py with
--                          .../common/models/r1_record_position_close.py: the ledger of position closes. Saved says
--                          what a call went through; Again and Beyond prove it.
--
-- Numbers. A datetime is an instant in microseconds from the first datetime of Python's calendar, with a
-- zone that is absent, UTC or another; a sum past the last datetime and a difference before the first
-- raise. Floats are a parameter (Float): the comparisons and the quotient of two integers, with the
-- documented laws of IEEE 754 that the proofs use as hypotheses (FloatLaws), and an instance in millionths
-- that fulfils them.
--
-- Loops. Loops over lists are structural recursion. The two loops over the clock have a bound on their
-- rounds, `rounds`, one more than the number of steps between the start and the end plus one; that the bound
-- suffices is part of the theorems, since they state that the calls return.
--
-- Not modelled: the messages of exceptions (each is one constructor of an error type), the order in which
-- pydantic collects the errors of several fields, validators of raw JSON input, the JSON schemas, the
-- loading of files, rows of the delivery ledger that are older than its binding columns, and the parts that
-- the other directories hold: collection, the other tables of storage, dashboard, evaluation, detection and
-- the worker processes. The database runs the transactions on one run one after the other, since each takes
-- the lock of the run first, so that a call is a function of the tables; its sessions are in UTC, as the
-- times of its rows come back. The SHA-256 of a canonical JSON is a
-- parameter (Digests).
pub mod Prelude
pub mod Float
pub mod Model
pub mod Fusion
pub mod Hybrid
pub mod Stream
pub mod Delivery
