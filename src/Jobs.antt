-- ===== src/Jobs.antt =====
-- internal/platform/jobs/client.go: the client of the job queues. River is a parameter, and the log
-- is left out.
use skawld_maintenance.Prelude.{
  ℕ, ◌*◌, String, Bool, true, not, Option, none, some, List, [], ◌∷◌, if◌then◌else◌,
}
use skawld_maintenance.Prelude.Int.{ℤ, pos}
use skawld_maintenance.Errors.{Failure, Result, ok, err, driver}
use skawld_maintenance.Config.Settings.{Jobs}

abbrev pub river_schema : String
river_schema = "river"

abbrev pub queue_foundation : String
queue_foundation = "foundation"

abbrev pub queue_embedding : String
queue_embedding = "embedding"

abbrev pub queue_report : String
queue_report = "report"

abbrev pub queue_vision : String
queue_vision = "vision"

abbrev pub queue_transcription : String
queue_transcription = "transcription"

-- `FoundationHealthArgs`; the one field makes a job unique.
pub record FoundationHealthArgs : Type 0 where
  pub idempotency_key : String

abbrev pub kind : String
kind = "foundation.healthcheck"

-- `FoundationHealthWorker.Work` and `Timeout`
abbrev pub work : FoundationHealthArgs → Result (Unit {0})
work args = ok tt

abbrev pub work_timeout : ℕ
work_timeout = 5 * 1000000000

-- `river.ErrorHandlerResult`
pub record HandlerResult : Type 0 where
  pub set_cancelled : Bool

-- `ErrorHandler.HandleError`; nil is `none`, and the test is errors.Is at context.Canceled.
unfoldable pub handle_error : (Failure → Bool) → Failure → Option HandlerResult
handle_error is_canceled e = if is_canceled e then some record { set_cancelled = true } else none

-- `ErrorHandler.HandlePanic`
abbrev pub handle_panic : HandlerResult
handle_panic = record { set_cancelled = true }

-- `river.Config`
pub record ClientConfig : Type 0 where
  pub schema : String
  pub queues : List (String × ℤ)
  pub job_timeout : ℕ

abbrev pub client_config : Jobs → ClientConfig
client_config cfg = record {
  schema = river_schema;
  queues =
      (queue_foundation, pos 1)
      ∷ (queue_embedding, cfg.embedding_concurrency)
      ∷ (queue_report, cfg.report_concurrency)
      ∷ (queue_vision, cfg.vision_concurrency)
      ∷ (queue_transcription, cfg.transcription_concurrency)
      ∷ [];
  job_timeout = 60 * 1000000000;
}

-- `river.InsertOpts`
pub record InsertOpts : Type 0 where
  pub queue : String
  pub max_attempts : ℕ
  pub by_args : Bool

-- River: whether the worker can be added, whether a client can be made, started and stopped, and
-- the insertion of a job (`none`: no error).
pub record River : Type 0 where
  pub add_worker : Bool
  pub new_client : ClientConfig → Bool
  pub start : ClientConfig → Bool
  pub stop : ClientConfig → Bool
  pub insert : FoundationHealthArgs → InsertOpts → Option Failure

module _ (river : River) where
  -- `New`; a client is known by its configuration.
  unfoldable pub new_client : Jobs → Result ClientConfig
  new_client cfg =
      if not river.add_worker
      then err driver
      else if not (river.new_client (client_config cfg))
      then err driver
      else ok (client_config cfg)

  -- `Client.EnqueueFoundationHealth`
  unfoldable pub enqueue_foundation_health : String → Option Failure
  enqueue_foundation_health key =
      river.insert record { idempotency_key = key }
        record { queue = queue_foundation; max_attempts = 3; by_args = true }
