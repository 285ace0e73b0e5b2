-- ===== src/Qrm/Submitter.antt =====
-- examples/qrm_workflow/src/Submitter.cpp.
pub mod Histogram
pub mod Job
use mqss_integration_deploym.Base.{
  ℕ, zero, suc, ◌+◌, ◌*◌, ◌^◌, String, Bool, true, false, ◌&&◌, List, [], ◌∷◌, ◌++◌, Char, Option,
  none, some, value_or, map, get_elem?, ltb, string_eq, if◌then◌else◌,
}
use mqss_integration_deploym.Dict.{insert_or_assign}
use mqss_integration_deploym.Words.{to_int32}
use mqss_integration_deploym.Mqss.Status.{Status, Result, value, unexpected}
use mqss_integration_deploym.Qoffload.Path.{chars, text}
use mqss_integration_deploym.Qoffload.Proto.{QuantumTask, QuantumResult, blank_result, Counts}
use mqss_integration_deploym.Qrm.Device.{Qdmi}
use mqss_integration_deploym.Qrm.Lines.{tokens}
use mqss_integration_deploym.Qrm.Run.{
  Ending, finished, thrown, crashed, then_do, Run, pure, asserted, required, present, always, ◌>>=◌,
  ◌>>◌, Effect, send_result, not_received, after_send,
}

abbrev pub comma : Char
comma = ","

-- The loop of `std::getline` over the list of keys.
unfoldable pub split_keys : String → List String
unfolding tokens
split_keys key_list = map text (tokens comma (chars key_list))

-- The loop over the keys; `counts[i]` out of range is none.
unfoldable pub gather : List String → List ℕ → Counts → Option Counts
unfolding insert_or_assign
gather [] values counts = some counts
gather (key ∷ keys) [] counts = none
gather (key ∷ keys) (v ∷ values) counts =
    gather keys values (insert_or_assign key (to_int32 v) counts)

-- `num_shots > 0` of an `int`.
abbrev pub is_positive : ℕ → Bool
is_positive n = ltb 0 n && ltb n (2 ^ 31)

-- The eight bytes that are read at an `int`: its own four, and the four above it in memory.
abbrev pub eight_bytes : ℕ → ℕ → ℕ
eight_bytes above n = n + above * 2 ^ 32

abbrev pub result_of : QuantumTask → String → Counts → QuantumResult
result_of task circuit counts = record blank_result {
  task_id = task.task_id;
  executed_circuits = circuit ∷ [];
  execution_status = false;
  results = counts ∷ [];
}

module _ {W Session Device Job : Type 0} (qdmi : Qdmi W Session Device Job) (above : ℕ) where
  abbrev pub set_shots : Job → ℕ → Run W (Unit {0})
  set_shots job num_shots =
      if is_positive num_shots
      then required (qdmi.set_shots_num job (eight_bytes above num_shots))
      else pure tt

  abbrev pub freed : Session → Job → W → Unit {0} × W
  freed session job w = (tt, qdmi.session_free session (qdmi.job_free job w))

  unfoldable pub create_and_submit_qdmi_job_to_qdmi_device : QuantumTask → Run W QuantumResult
  unfolding split_keys gather
  create_and_submit_qdmi_job_to_qdmi_device task = do
    session ← always qdmi.session_alloc
    always (λ w. (tt, qdmi.session_init session w))
    devices ← always (qdmi.query_devices session)
    device ← present (get_elem? devices 1)
    name ← asserted (qdmi.query_name device)
    circuit ← present (get_elem? task.circuit_files 0)
    job ← asserted (qdmi.create_job device)
    required (qdmi.set_program_format job)
    required (qdmi.set_program job circuit)
    set_shots job task.n_shots
    required (qdmi.submit job)
    required (qdmi.wait job)
    required (qdmi.check job)
    key_list ← asserted (qdmi.get_hist_keys job)
    values ← asserted (qdmi.get_hist_values job)
    counts ← present (gather (split_keys key_list) values [])
    always (freed session job)
    pure (result_of task circuit counts)

  abbrev pub answered : QuantumTask → Status → Ending (QuantumResult × W) → Ending (List Effect × W)
  answered task status (finished (result, w)) = finished (
    after_send (send_result task.result_destination result) "Failed to send result: {}" status,
    w,
  )
  answered task status (thrown what) = thrown what
  answered task status crashed = crashed

  -- One round of the loop of `main`. The reason of a failed receive has no place in the format of its
  -- log line.
  unfoldable pub submitter_round : Result QuantumTask → Status → W → Ending (List Effect × W)
  unfolding create_and_submit_qdmi_job_to_qdmi_device
  submitter_round (unexpected error) status w = finished (not_received "Receive error: " error, w)
  submitter_round (value task) status w =
      answered task status (create_and_submit_qdmi_job_to_qdmi_device task w)
