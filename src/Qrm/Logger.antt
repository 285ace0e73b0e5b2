-- ===== src/Qrm/Logger.antt =====
-- examples/qrm_workflow/include/Logger.hpp. `fails` is a parameter, the text of the exception where
-- opening a sink throws, which nobody catches.
use mqss_integration_deploym.Base.{
  String, Bool, true, List, [], ◌∷◌, Option, none, some, is_empty, if◌then◌else◌,
}
use mqss_integration_deploym.Qrm.Run.{Ending, finished, thrown, then_do}

pub data Sink : Type 0 where
  stdout_color : Sink
  basic_file : (path : String) → (truncated : Bool) → Sink

-- The level and the flush level are `info`.
pub record Logger : Type 0 where
  pub name : String
  pub sinks : List Sink

abbrev pub opened_by : Sink → Option String → Ending Sink
opened_by sink none = finished sink
opened_by sink (some what) = thrown what

module _ (fails : Sink → Option String) where
  abbrev pub opened : Sink → Ending Sink
  opened sink = opened_by sink (fails sink)

  -- The file is pushed behind the console.
  abbrev pub with_file : String → Sink → Ending (List Sink)
  with_file log_file console =
      if is_empty log_file
      then finished (console ∷ [])
      else then_do (opened (basic_file log_file true)) λ file. finished (console ∷ file ∷ [])

  unfoldable pub make_logger : (name log_file : String) → Ending Logger
  make_logger name log_file =
      then_do (then_do (opened stdout_color) (with_file log_file))
        λ sinks. finished (record { name = name; sinks = sinks })
