-- ===== src/Qrm/Submitter/Job.antt =====
-- The job that the submitter runs for a task.
use mqss_integration_deploym.Base.{
  ℕ, ◌≤◌, ◌≡◌, refl, String, Bool, true, false, List, [], ◌∷◌, Option, none, some, get_elem?,
  length, arith, Bool-cases, inl, inr,
}
use mqss_integration_deploym.Qoffload.Proto.{QuantumTask, QuantumResult}
use mqss_integration_deploym.Qrm.Device.{Qdmi}
use mqss_integration_deploym.Qrm.Run.{
  Ending, finished, thrown, crashed, then_do, Run, asserted, required, present, ◌>>=◌, ◌>>◌,
}
use mqss_integration_deploym.Qrm.Submitter.{
  split_keys, gather, is_positive, eight_bytes, set_shots,
  create_and_submit_qdmi_job_to_qdmi_device,
}
use mqss_integration_deploym.Qrm.Submitter.Histogram.{gather-some}

-- An end of a certain kind, where it ends at all; and an end of this kind.
abbrev pub Ensures : {A W : Type 0} → (A → Type 0) → Ending (A × W) → Type 0
Ensures P (finished (a, w)) = P a
Ensures P (thrown what) = Unit {0}
Ensures P crashed = Unit {0}

abbrev pub Finishes : {A W : Type 0} → (A → Type 0) → Ending (A × W) → Type 0
Finishes P (finished (a, w)) = P a
Finishes P (thrown what) = ⊥
Finishes P crashed = ⊥

module _ {A B W : Type 0} (P : B → Type 0) where
  bind-Ensures :
      (m : Run W A) (k : A → Run W B)
      → ((a : A) (w : W) → Ensures P (k a w))
      → (w : W) → Ensures P ((m >>= k) w)
  bind-Ensures m k h w = bound (m w)
    where
      bound : (o : Ending (A × W)) → Ensures P (then_do o (λ (a, w'). k a w'))
      bound (finished (a, w')) = h a w'
      bound (thrown what) = tt
      bound crashed = tt

  present-Ensures :
      (o : Option A) (k : A → Run W B)
      → ((a : A) → o ≡ some a → (w : W) → Ensures P (k a w))
      → (w : W) → Ensures P ((present o >>= k) w)
  present-Ensures none k h w = tt
  present-Ensures (some a) k h w = h a refl w

abbrev pub first_circuit : List String → List String
first_circuit [] = []
first_circuit (circuit ∷ files) = circuit ∷ []

-- A result for the task: its id, the circuit that ran, and one table of counts; and the status that
-- messages.proto calls a failure.
abbrev pub IsAnswer : QuantumTask → QuantumResult → Type 0
IsAnswer task r =
    (r.task_id ≡ task.task_id)
    × (r.executed_circuits ≡ first_circuit task.circuit_files)
    × (length r.results ≡ 1)
    × (r.execution_status ≡ false)

-- A driver with two devices, whose calls succeed, and which reports a count for each key.
pub record Works {W Session Device Job : Type 0} (qdmi : Qdmi W Session Device Job) : Type 0 where
  pub devices :
      (s : Session) (w : W) → (d : Device) × (get_elem? (qdmi.query_devices s w).0 1 ≡ some d)
  pub named : (d : Device) (w : W) → (name : String) × ((qdmi.query_name d w).0 ≡ some name)
  pub created : (d : Device) (w : W) → (job : Job) × ((qdmi.create_job d w).0 ≡ some job)
  pub formatted : (job : Job) (w : W) → (qdmi.set_program_format job w).0 ≡ true
  pub programmed : (job : Job) (s : String) (w : W) → (qdmi.set_program job s w).0 ≡ true
  pub counted : (job : Job) (n : ℕ) (w : W) → (qdmi.set_shots_num job n w).0 ≡ true
  pub submitted : (job : Job) (w : W) → (qdmi.submit job w).0 ≡ true
  pub waited : (job : Job) (w : W) → (qdmi.wait job w).0 ≡ true
  pub checked : (job : Job) (w : W) → (qdmi.check job w).0 ≡ true
  pub reported :
      (job : Job) (w : W)
      → (keys : String) × (values : List ℕ) × ((qdmi.get_hist_keys job w).0 ≡ some keys)
        × ((qdmi.get_hist_values job (qdmi.get_hist_keys job w).1).0 ≡ some values)
        × (length (split_keys keys) ≤ length values)

module _ {W Session Device Job : Type 0} (qdmi : Qdmi W Session Device Job) (above : ℕ) where
  abbrev submits : QuantumTask → Run W QuantumResult
  submits = create_and_submit_qdmi_job_to_qdmi_device qdmi above

  asserted_step :
      {A B : Type 0} (P : B → Type 0) (call : W → Option A × W) (w : W) (a : A) (k : A → Run W B)
      → (call w).0 ≡ some a
      → Finishes P (k a (call w).1)
      → Finishes P (then_do (asserted call w) (λ (a', w'). k a' w'))
  asserted_step P call w a k h f = rw (Finishes, h) f

  required_step :
      {B : Type 0} (P : B → Type 0) (call : W → Bool × W) (k : Run W B)
      → ((w : W) → (call w).0 ≡ true)
      → ((w : W) → Finishes P (k w))
      → (w : W) → Finishes P ((required call >> k) w)
  required_step P call k h f w = rw (h w) (f (call w).1)

  present_step :
      {A B : Type 0} (P : B → Type 0) (o : Option A) (w : W) (a : A) (k : A → Run W B)
      → o ≡ some a
      → Finishes P (k a w)
      → Finishes P (then_do (present o w) (λ (a', w'). k a' w'))
  present_step P o w a k h f = rw h f

  shots_step :
      {B : Type 0}
      → Works qdmi
      → (P : B → Type 0) (job : Job) (n : ℕ) (k : Run W B) → ((w' : W) → Finishes P (k w'))
      → (w : W) → Finishes P ((set_shots qdmi above job n >> k) w)
  shots_step works P job n k f w = elim (Bool-cases (is_positive n)) [
    | inl h ↦ rw h (
        required_step P (qdmi.set_shots_num job (eight_bytes above n)) k
          (works.counted job (eight_bytes above n)) f w)
    | inr h ↦ rw h (f w)
  ]

  -- With a driver that works, a task with a circuit is answered: with its id, the first of its circuits
  -- and one table of counts, and with the status of a failure.
  pub job-IsAnswer :
      Works qdmi
      → (task : QuantumTask) (circuit : String) (files : List String) (w : W)
      → task.circuit_files ≡ circuit ∷ files
      → Finishes (IsAnswer task) (submits task w)
  unfolding create_and_submit_qdmi_job_to_qdmi_device
  job-IsAnswer works task circuit files w h =
      let (s, w0) = qdmi.session_alloc w in
      let w1 = qdmi.session_init s w0 in
      let (d, there) = works.devices s w1 in
      let w2 = (qdmi.query_devices s w1).1 in
      let (name, named) = works.named d w2 in
      let w3 = (qdmi.query_name d w2).1 in
      let (job, created) = works.created d w3 in
      let first : get_elem? task.circuit_files 0 ≡ some circuit = rw h refl in
      present_step (IsAnswer task) _ _ d _ there (
        asserted_step (IsAnswer task) (qdmi.query_name d) w2 name _ named (
          present_step (IsAnswer task) _ _ circuit _ first (
            asserted_step (IsAnswer task) (qdmi.create_job d) w3 job _ created (
              required_step (IsAnswer task) (qdmi.set_program_format job) _ (works.formatted job)
                (required_step (IsAnswer task) (qdmi.set_program job circuit) _
                  (works.programmed job circuit)
                  (shots_step works (IsAnswer task) job task.n_shots _ (
                    required_step (IsAnswer task) (qdmi.submit job) _ (works.submitted job) (
                      required_step (IsAnswer task) (qdmi.wait job) _ (works.waited job) (
                        required_step (IsAnswer task) (qdmi.check job) _ (works.checked job) (λ w4.
                          let (keys, values, read, counted, enough) = works.reported job w4 in
                          let (counts, gathered) = gather-some (split_keys keys) values [] enough in
                          asserted_step (IsAnswer task) (qdmi.get_hist_keys job) w4 keys _ read (
                            asserted_step (IsAnswer task) (qdmi.get_hist_values job) _ values _
                              counted
                              (present_step (IsAnswer task) _ _ counts _ gathered
                                (refl, rw h refl, refl, refl)))))))))
                (qdmi.create_job d w3).1))))

  first-circuit :
      (files : List String) (circuit : String)
      → get_elem? files 0 ≡ some circuit
      → circuit ∷ [] ≡ first_circuit files
  first-circuit [] circuit h = absurd (ground arith)
  first-circuit (file ∷ files) circuit h = ground arith

  -- Whatever the driver does, a task that is answered is answered so.
  pub job-Ensures : (task : QuantumTask) (w : W) → Ensures (IsAnswer task) (submits task w)
  unfolding create_and_submit_qdmi_job_to_qdmi_device
  job-Ensures task w =
      let P = IsAnswer task in
      let (s, w0) = qdmi.session_alloc w in
      let (devices, w1) = qdmi.query_devices s (qdmi.session_init s w0) in
      present-Ensures P (get_elem? devices 1) _
        (λ device there. bind-Ensures P (asserted (qdmi.query_name device)) _ λ name.
          present-Ensures P (get_elem? task.circuit_files 0) _ λ circuit first.
            bind-Ensures P (asserted (qdmi.create_job device)) _ λ job.
              bind-Ensures P (required (qdmi.set_program_format job)) _ λ u1.
                bind-Ensures P (required (qdmi.set_program job circuit)) _ λ u2.
                  bind-Ensures P (set_shots qdmi above job task.n_shots) _ λ u3.
                    bind-Ensures P (required (qdmi.submit job)) _ λ u4.
                      bind-Ensures P (required (qdmi.wait job)) _ λ u5.
                        bind-Ensures P (required (qdmi.check job)) _ λ u6.
                          bind-Ensures P (asserted (qdmi.get_hist_keys job)) _ λ key_list.
                            bind-Ensures P (asserted (qdmi.get_hist_values job)) _ λ values.
                              present-Ensures P (gather (split_keys key_list) values []) _
                                λ counts gathered w2. (
                                  refl,
                                  first-circuit task.circuit_files circuit first,
                                  refl,
                                  refl,
                                ))
        w1
