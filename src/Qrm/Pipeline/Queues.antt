-- ===== src/Qrm/Pipeline/Queues.antt =====
-- The queues of the broker after a round.
use mqss_integration_deploym.Base.{
  String, ◌≡◌, ◌≢◌, refl, ◌∙◌, List, [], ◌∷◌, ◌++◌, string_eq, beq_refl, beq-false,
}
use mqss_integration_deploym.Qoffload.Proto.{QuantumTask}
use mqss_integration_deploym.Qrm.Pipeline.{Broker, IsFifo}

module _ {N : Type 0} (broker : Broker N) (fifo : IsFifo broker) where
  abbrev pub popped : String → N → N
  popped k n = (broker.pop_task k n).1

  module _ (k : String) (n : N) (e : broker.results_at k n ≡ []) (t : QuantumTask)
      (ts : List QuantumTask) (h : broker.tasks_at k n ≡ t ∷ ts) where
    pub rest_there : broker.tasks_at k (popped k n) ≡ ts
    rest_there = fifo.rest_left k k t ts n e h ∙ rw (beq_refl k) refl

    pub other_left : (j : String) → k ≢ j → broker.tasks_at j (popped k n) ≡ broker.tasks_at j n
    other_left j apart = fifo.rest_left k j t ts n e h ∙ rw (beq-false k j apart) refl

    pub pushed_behind :
        (m : String)
        → k ≢ m
        → (t' : QuantumTask)
        → broker.tasks_at m (broker.push_task m t' (popped k n)) ≡ broker.tasks_at m n ++ t' ∷ []
    pushed_behind m apart t' =
        fifo.task_pushed m m t' (popped k n) ∙ rw (beq_refl m, other_left m apart) refl

    pub rest_moved :
        (m : String)
        → m ≢ k
        → (t' : QuantumTask) → broker.tasks_at k (broker.push_task m t' (popped k n)) ≡ ts
    rest_moved m apart t' =
        fifo.task_pushed m k t' (popped k n) ∙ rw (beq-false m k apart) rest_there

    pub other_moved :
        (m j : String)
        → m ≢ j
        → k ≢ j
        → (t' : QuantumTask)
        → broker.tasks_at j (broker.push_task m t' (popped k n)) ≡ broker.tasks_at j n
    other_moved m j apart apart' t' =
        fifo.task_pushed m j t' (popped k n) ∙ rw (beq-false m j apart) (other_left j apart')

  pub results_moved :
      (k m j : String) (t : QuantumTask) (n : N)
      → broker.results_at k n ≡ []
      → broker.results_at j (broker.push_task m t (popped k n)) ≡ broker.results_at j n
  results_moved k m j t n e = fifo.task_is_no_result m j t (popped k n) ∙ fifo.results_left k j n e
