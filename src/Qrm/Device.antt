-- ===== src/Qrm/Device.antt =====
-- The QDMI client of examples/qrm_workflow/src/Submitter.cpp as an interface. `W` is the state of the
-- driver and the devices. A query in two calls, for the size and for the data, is one operation, which
-- fails where either call does.
use mqss_integration_deploym.Base.{ℕ, String, Bool, List, Option}

pub record Qdmi (W Session Device Job : Type 0) : Type 0 where
  pub session_alloc : W → Session × W
  pub session_init : Session → W → W
  pub query_devices : Session → W → List Device × W
  pub query_name : Device → W → Option String × W
  pub create_job : Device → W → Option Job × W
  pub set_program_format : Job → W → Bool × W
  pub set_program : Job → String → W → Bool × W
  pub set_shots_num : Job → (shots : ℕ) → W → Bool × W
  pub submit : Job → W → Bool × W
  pub wait : Job → W → Bool × W
  pub check : Job → W → Bool × W
  pub get_hist_keys : Job → W → Option String × W
  pub get_hist_values : Job → W → Option (List ℕ) × W
  pub job_free : Job → W → W
  pub session_free : Session → W → W
