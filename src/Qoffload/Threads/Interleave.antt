-- ===== src/Qoffload/Threads/Interleave.antt =====
-- examples/qoffload_service: the rounds of the service as one interleaving of its workers.
use mqss_integration_deploym.Base.{◌≡◌, refl, ◌∙◌, List, [], ◌∷◌, ◌++◌, append_assoc}
use mqss_integration_deploym.Qoffload.Service.{
  Service, Round, task_received, request_received, result_received, round, run,
}
use mqss_integration_deploym.Qoffload.Threads.State.{Threads, at_rest}
use mqss_integration_deploym.Qoffload.Threads.Turns.{Turn, turn, play}
use mqss_integration_deploym.Qoffload.Threads.Alone.{alone, task-alone, result-alone, control-alone}

round-alone :
    (r : Round) (s : Service) → play (alone r) (at_rest s) ≡ ((round r s).0, at_rest (round r s).1)
unfolding round
round-alone (task_received received st) s = task-alone received st s
round-alone (request_received received a b) s = control-alone received a b s
round-alone (result_received received st) s = result-alone received st s

play-append :
    (ts us : List Turn) (s : Threads)
    → play (ts ++ us) s ≡ ((play ts s).0 ++ (play us (play ts s).1).0, (play us (play ts s).1).1)
unfolding play
play-append [] us s = refl
play-append (t ∷ ts) us s = simp (play-append ts us (turn t s).1, append_assoc) refl

unfoldable pub all_alone : List Round → List Turn
unfolding alone
all_alone [] = []
all_alone (r ∷ rs) = alone r ++ all_alone rs

-- The rounds of the service are runs of its threads: for any rounds there is an interleaving of the
-- three workers, each round as turns of its worker alone, that sends and logs the same in the same
-- order and, with every worker back at its receive, ends in the same state.
rounds-interleave :
    (rs : List Round) (s : Service)
    → play (all_alone rs) (at_rest s) ≡ ((run rs s).0, at_rest (run rs s).1)
unfolding run all_alone
rounds-interleave [] s = unfold play in refl
rounds-interleave (r ∷ rs) s =
    play-append (alone r) (all_alone rs) (at_rest s)
    ∙ rw (round-alone r s, rounds-interleave rs (round r s).1) refl
