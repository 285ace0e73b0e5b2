-- ===== src/Qrm/Offload.antt =====
-- The offload service of examples/qoffload_service in front of the workflow: what becomes of a task of
-- the control interface that the submitter has run.
use mqss_integration_deploym.Base.{ℕ, ◌^◌, ◌<◌, ◌≡◌, ap, subst, ◌∙◌, if◌then◌else◌}
use mqss_integration_deploym.Qoffload.Config.{Config}
use mqss_integration_deploym.Qoffload.Forward.{
  Forward, next_task_id, create_control_task, process_result,
}
use mqss_integration_deploym.Qoffload.Forward.Correlation.{control_round_trip}
use mqss_integration_deploym.Qoffload.Proto.{QuantumTask, QuantumResult}
use mqss_integration_deploym.Qoffload.TaskStore.{TaskStore, status, completed, cancelled}
use mqss_integration_deploym.Qrm.Device.{Qdmi}
use mqss_integration_deploym.Qrm.Run.{finished}
use mqss_integration_deploym.Qrm.Submitter.{create_and_submit_qdmi_job_to_qdmi_device}
use mqss_integration_deploym.Qrm.Submitter.Job.{Ensures, IsAnswer, job-Ensures}

module _ {W Session Device Job : Type 0} (qdmi : Qdmi W Session Device Job) (above : ℕ) where
  -- A control task whose id is below 2^31, and which the submitter runs to its end on any device, with any
  -- circuits that the workflow has made of it, is shown as cancelled by the offload service.
  pub executed_task_cancelled :
      (task : QuantumTask) (tasks : TaskStore) (config : Config) (f : Forward)
      → (next_task_id f).0 < 2 ^ 31
      → (t : QuantumTask) (w w' : W) (r : QuantumResult)
      → t.task_id ≡ (create_control_task task tasks config f).0.task_id
      → create_and_submit_qdmi_job_to_qdmi_device qdmi above t w ≡ finished (r, w')
      → status (next_task_id f).0 (process_result r (create_control_task task tasks config f).1).1
        ≡ cancelled
  executed_task_cancelled task tasks config f fits t w w' r same ran =
      let answer : IsAnswer t r =
        subst (λ o. Ensures (IsAnswer t) o) ran (job-Ensures qdmi above t w) in
      let trip = control_round_trip task tasks config f r fits (answer.0 ∙ same) in
      trip.1 ∙ ap (λ b. if b then completed else cancelled) answer.3
