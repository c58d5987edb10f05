-- ===== src/Lib.antt =====
-- A verification library for the iris-mind runtime: its action delivery, its background jobs, its
-- inference leases, its model call and prompt budgets, its projection of activity, its store of
-- candidates for review, and its delivery gates.
--
-- The parts of the program, and the modules that model them:
--   Delivery   An action for an external client waits in the outbox as an envelope until a poll
--              leases it and a report ends it or sends it back. Types has the records of
--              iris/contracts/delivery.py and iris/contracts/actions.py, Transitions the functions of
--              iris/contracts/delivery_transitions.py, Outbox the class InMemoryDeliveryOutbox of
--              iris/runtime/delivery/in_memory.py, and Broker the class RuntimeAppActionBroker of
--              iris/runtime/delivery/broker.py with the in-memory store of
--              iris/runtime/learning/dispatch.py. The broker calls the outbox and hands accepted
--              results on to learning.
--   Learning   Background jobs: Jobs and Policy have the records of iris/runtime/learning/jobs.py and
--              iris/runtime/learning/policy.py; Records, Queue, Lease, Updates and Metrics the
--              functions and the class InMemoryBackgroundJobQueue of iris/runtime/learning/queue.py;
--              Runner the class BackgroundJobRunner of iris/runtime/learning/runner.py, which takes
--              jobs from the queue and leases from the inference scheduler. An exception that is no
--              Exception leaves it with the jobs and the lease as they are.
--   Inference  Models has iris/runtime/inference/models.py and policy.py, Scheduler and its child the class
--              LocalInferenceResourceScheduler of iris/runtime/inference/scheduler.py.
--   Budget     Config has iris/runtime/config/model_call_budget.py without its parsing of TOML, Gate
--              the class ModelCallBudgetGate of iris/runtime/model_call_budget.py.
--   Prompting  Types has the records of iris/contracts/prompting.py; Config, Toml and Defaults have
--              iris/runtime/config/prompt_budget.py; Render, Items, Section and Policy have the class
--              PromptBudgetPolicy of iris/runtime/prompting/budget.py, which cuts each section to the
--              budget of its kind and then all of them to the total of a validated profile.
--   Activity   Types has the records of iris/contracts/activity.py and iris/contracts/ordering.py, Store
--              and Events the store and the snapshots of iris/runtime/state/interaction_activity.py,
--              Integrator the call of both in iris/runtime/state/activity_integrator.py.
--   Review     Store has the store of candidates of iris/runtime/state/memory_candidates.py.
--   Safety     Engine has iris/safety/policy_engine.py, Gate the three gates of
--              iris/safety/delivery_gate.py that an output passes before it is enqueued for delivery.
--   Model      The descriptors of iris/contracts/model_policy.py, which jobs and budgets share.
--   Prelude    Texts, dictionaries, sorting, results and the lemmas on them.
--
-- A class is a record of its attributes. A method takes the state and returns the new state beside its
-- result, and is one step, since each holds the lock of its object throughout; exceptions are values,
-- and the state that an exception leaves is returned with it. Each names the method it stands for.
-- What is local to a for loop is its accumulator, and the loop recurses on the list, so that no fuel
-- is needed. A dictionary is an association list in insertion order; asking for a missing key gives
-- none or the error that the source raises. Runs are lists of calls.
--
-- An instant is a natural number of microseconds and a text the list of its code points. An integer
-- that the source keeps from being negative is a natural number. A float that is compared only is an
-- integer multiple of the smallest positive float; a duration in seconds, a float, is taken to be a
-- whole number of microseconds and is that number. Parameters stand for what is not in the
-- repository: the sha256 digest, the
-- reading and writing of instants as texts, the time of day in a zone, the lease ids of uuid4, the
-- clock, the payload of a job, a candidate under review and the callbacks of a token.
--
-- Not modelled: the SQLite stores, whose code is SQL; the adapters of language models and of gRPC;
-- logging; the parsing of configuration files but for the table of prompt budgets; and the cognitive
-- modules.
pub mod Activity
pub mod Budget
pub mod Delivery
pub mod Inference
pub mod Learning
pub mod Model
pub mod Prelude
pub mod Prompting
pub mod Review
pub mod Safety
