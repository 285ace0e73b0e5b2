-- ===== src/Qrm/Compiler.antt =====
-- examples/qrm_workflow/src/Compiler.cpp. MLIR is a parameter: `Module` is what a file is parsed to.
pub mod Laws
use mqss_integration_deploym.Base.{
  ℕ, zero, suc, String, Bool, true, false, List, [], ◌∷◌, ◌++◌, Option, none, some, string_eq,
  nat_eq, ◌==◌, if◌then◌else◌,
}
use mqss_integration_deploym.Dict.{insert_or_assign}
use mqss_integration_deploym.Mqss.Status.{Status, Result, value, unexpected}
use mqss_integration_deploym.Qoffload.Proto.{QuantumTask}
use mqss_integration_deploym.Qrm.Config.{QueueConfig}
use mqss_integration_deploym.Qrm.GateDefs.{strip_spurious_gate_defs}
use mqss_integration_deploym.Qrm.Run.{
  Ending, finished, thrown, crashed, then_do, Effect, send_task, log_error, not_received,
  after_send,
}

pub data Pass : Type 0 where
  o1 : Pass
  basis_conversion : (gates : String) → Pass
  quake_to_qasm2 : Pass

-- `run` is a run of the pass manager with the passes added so far: whether it succeeds, the module that
-- it leaves, and what it prints.
pub record Mlir (Module : Type 0) : Type 0 where
  pub make_temp : Bool
  pub parse_source_file : String → Option Module
  pub run : List Pass → Module → Bool × Module × String

abbrev pub native_gates : String → String
native_gates target_qpu = if target_qpu == "planqc" then "rx,cz,rz" else "phased_rx, cz"

module _ {Module : Type 0} (mlir : Mlir Module) where
  -- The second run repeats the passes of the first. A module that is not there is used all the same.
  abbrev pub lower_module : (target_qpu result_type : String) → Option Module → Ending String
  lower_module target_qpu result_type none = crashed
  lower_module target_qpu result_type (some m) =
      let (optimised, m1, printed) = mlir.run (o1 ∷ []) m in
      let printing = if result_type == "OpenQasm2" then quake_to_qasm2 ∷ [] else [] in
      let (converted, m2, result) =
        mlir.run (o1 ∷ basis_conversion (native_gates target_qpu) ∷ printing) m1 in
      finished result

  unfoldable pub lower_to_output_format :
      (src_path : String) (opt_level : ℕ) (target_qpu result_type : String) → Ending String
  lower_to_output_format src_path opt_level target_qpu result_type =
      if mlir.make_temp
      then lower_module target_qpu result_type (mlir.parse_source_file src_path)
      else thrown "mkstemp failed"

  abbrev pub result_type : String
  result_type = "OpenQasm2"

  abbrev pub stripped : String → String
  stripped out_res =
      if result_type == "OpenQasm2" then strip_spurious_gate_defs out_res else out_res

  -- The first loop: the new text of each circuit by its index.
  unfoldable pub lowered_files :
      QuantumTask → ℕ → List String → List (ℕ × String) → Ending (List (ℕ × String))
  unfolding lower_to_output_format insert_or_assign
  lowered_files task i [] updated = finished updated
  lowered_files task i (file ∷ files) updated =
      then_do (lower_to_output_format file task.optimisation_level task.preferred_qpu result_type)
        (λ out_res.
          lowered_files task (suc i) files (insert_or_assign i (stripped out_res) updated))

  -- `set_circuit_files(index, text)`, for an index in range.
  unfoldable pub set_circuit_file : ℕ → String → List String → List String
  set_circuit_file i s [] = []
  set_circuit_file zero s (file ∷ files) = s ∷ files
  set_circuit_file (suc i) s (file ∷ files) = file ∷ set_circuit_file i s files

  -- The second loop.
  unfoldable pub set_circuit_files : List (ℕ × String) → List String → List String
  unfolding set_circuit_file
  set_circuit_files [] files = files
  set_circuit_files ((i, s) ∷ updated) files =
      set_circuit_files updated (set_circuit_file i s files)

  unfoldable pub apply_optimization_passes : QuantumTask → Ending QuantumTask
  unfolding lowered_files set_circuit_files
  apply_optimization_passes task = then_do (lowered_files task 0 task.circuit_files []) λ updated.
      finished (record task { circuit_files = set_circuit_files updated task.circuit_files })

  abbrev pub compiled : QueueConfig → Status → Ending QuantumTask → Ending (List Effect)
  compiled queues status (finished task) =
      finished (
        after_send (send_task queues.submitter task) "Failed to send result for task {}: {}" status)
  compiled queues status (thrown what) =
      finished (log_error "Failed to process task {}: {}" what ∷ [])
  compiled queues status crashed = crashed

  -- One round of the loop of `main`.
  unfoldable pub compiler_round : QueueConfig → Result QuantumTask → Status → Ending (List Effect)
  unfolding apply_optimization_passes
  compiler_round queues (unexpected error) status =
      finished (not_received "Receive error: {}" error)
  compiler_round queues (value task) status =
      compiled queues status (apply_optimization_passes task)
