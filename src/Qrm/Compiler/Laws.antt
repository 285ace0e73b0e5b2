-- ===== src/Qrm/Compiler/Laws.antt =====
-- What the compiler makes of a task.
use mqss_integration_deploym.Base.{
  ℕ, suc, ◌<◌, ◌≡◌, refl, sym, ap, ◌∙◌, String, List, [], ◌∷◌, ◌++◌, nat_eq, arith, length,
  length-append, All, append-nil, append_assoc,
}
use mqss_integration_deploym.Dict.{insert_or_assign}
use mqss_integration_deploym.Qoffload.Proto.{QuantumTask}
use mqss_integration_deploym.Qrm.Run.{Ending, finished, thrown, crashed, then_do}
use mqss_integration_deploym.Qrm.Compiler.{
  Mlir, lower_to_output_format, result_type, stripped, lowered_files, set_circuit_file,
  set_circuit_files, apply_optimization_passes,
}

module _ {Module : Type 0} (mlir : Mlir Module) where
  -- The circuits one after the other, each lowered and stripped.
  abbrev pub lowered_all : QuantumTask → List String → Ending (List String)
  lowered_all task [] = finished []
  lowered_all task (file ∷ files) =
      then_do
        (lower_to_output_format mlir file task.optimisation_level task.preferred_qpu
          (result_type mlir))
        (λ out. then_do (lowered_all task files) (λ rest. finished (stripped mlir out ∷ rest)))

  abbrev indexed : ℕ → List String → List (ℕ × String)
  indexed i [] = []
  indexed i (s ∷ rest) = (i, s) ∷ indexed (suc i) rest

  abbrev Below : ℕ → List (ℕ × String) → Type 0
  Below i = All (λ entry. entry.0 < i)

  insert-Below :
      (i : ℕ) (s : String) (updated : List (ℕ × String))
      → Below i updated
      → insert_or_assign i s updated ≡ updated ++ (i, s) ∷ []
  unfolding insert_or_assign
  insert-Below i s [] below = refl
  insert-Below i s ((j, t) ∷ updated) (h, below) = ground (arith, h, insert-Below i s updated below)

  append-Below :
      (i : ℕ) (s : String) (updated : List (ℕ × String))
      → Below i updated
      → Below (suc i) (updated ++ (i, s) ∷ [])
  append-Below i s [] below = (omega arith, tt)
  append-Below i s ((j, t) ∷ updated) (h, below) =
      (omega (arith, h), append-Below i s updated below)

  then_do_assoc :
      {A B C : Type 0} (o : Ending A) (f : A → Ending B) (g : B → Ending C)
      → then_do (then_do o f) g ≡ then_do o (λ a. then_do (f a) g)
  then_do_assoc (finished a) f g = refl
  then_do_assoc (thrown what) f g = refl
  then_do_assoc crashed f g = refl

  then_do_same :
      {A B : Type 0} (o : Ending A) (f g : A → Ending B)
      → ((a : A) → f a ≡ g a)
      → then_do o f ≡ then_do o g
  then_do_same (finished a) f g h = h a
  then_do_same (thrown what) f g h = refl
  then_do_same crashed f g h = refl

  lowered_files-indexed :
      (task : QuantumTask) (i : ℕ) (files : List String) (updated : List (ℕ × String))
      → Below i updated
      → lowered_files mlir task i files updated
        ≡ then_do (lowered_all task files) (λ fs. finished (updated ++ indexed i fs))
  unfolding lowered_files
  lowered_files-indexed task i [] updated below = ap (λ u. finished u) (sym (append-nil updated))
  lowered_files-indexed task i (file ∷ files) updated below =
      then_do_same
        (lower_to_output_format mlir file task.optimisation_level task.preferred_qpu
          (result_type mlir))
        _ _
        (λ out.
          ap (lowered_files mlir task (suc i) files)
            (insert-Below i (stripped mlir out) updated below)
          ∙ lowered_files-indexed task (suc i) files (updated ++ (i, stripped mlir out) ∷ [])
              (append-Below i (stripped mlir out) updated below)
          ∙ then_do_same (lowered_all task files) _ _ (λ rest.
            ap (λ u. finished u)
              (append_assoc updated ((i, stripped mlir out) ∷ []) (indexed (suc i) rest)))
          ∙ sym (
              then_do_assoc (lowered_all task files) (λ rest. finished (stripped mlir out ∷ rest))
                (λ fs. finished (updated ++ indexed i fs))))
      ∙ sym (
          then_do_assoc
            (lower_to_output_format mlir file task.optimisation_level task.preferred_qpu
              (result_type mlir))
            _ _)

  length-lowered_all :
      (task : QuantumTask) (files fs : List String)
      → lowered_all task files ≡ finished fs
      → length fs ≡ length files
  length-lowered_all task [] fs h = ground arith
  length-lowered_all task (file ∷ files) fs h =
      next
        (lower_to_output_format mlir file task.optimisation_level task.preferred_qpu
          (result_type mlir))
        (lowered_all task files) (length-lowered_all task files) h
    where
      next :
          (o : Ending String) (more : Ending (List String))
          → ((rest : List String) → more ≡ finished rest → length rest ≡ length files)
          → then_do o (λ out. then_do more (λ rest. finished (stripped mlir out ∷ rest)))
            ≡ finished fs
          → length fs ≡ suc (length files)
      next (finished out) (finished rest) same e = ground (arith, same rest refl)
      next (finished out) (thrown what) same e = absurd (ground arith)
      next (finished out) crashed same e = absurd (ground arith)
      next (thrown what) more same e = absurd (ground arith)
      next crashed more same e = absurd (ground arith)

  set_circuit_file_at :
      (before after : List String) (old s : String)
      → set_circuit_file mlir (length before) s (before ++ old ∷ after) ≡ before ++ s ∷ after
  unfolding set_circuit_file
  set_circuit_file_at [] after old s = refl
  set_circuit_file_at (b ∷ before) after old s = ap (◌∷◌ b) (set_circuit_file_at before after old s)

  length_snoc :
      (before : List String) (s : String) → length (before ++ s ∷ []) ≡ suc (length before)
  length_snoc before s = omega (arith, length-append before (s ∷ []))

  set_circuit_files-indexed :
      (before files fs : List String)
      → length fs ≡ length files
      → set_circuit_files mlir (indexed (length before) fs) (before ++ files) ≡ before ++ fs
  unfolding set_circuit_files
  set_circuit_files-indexed before [] [] h = refl
  set_circuit_files-indexed before [] (s ∷ fs) h = absurd (omega arith)
  set_circuit_files-indexed before (file ∷ files) [] h = absurd (omega arith)
  set_circuit_files-indexed before (file ∷ files) (s ∷ fs) h =
      ap (set_circuit_files mlir (indexed (suc (length before)) fs))
        (set_circuit_file_at before files file s ∙ sym (append_assoc before (s ∷ []) files))
      ∙ ap (λ n. set_circuit_files mlir (indexed n fs) ((before ++ s ∷ []) ++ files))
          (sym (length_snoc before s))
      ∙ set_circuit_files-indexed (before ++ s ∷ []) files fs (omega (arith, h))
      ∙ append_assoc before (s ∷ []) fs

  -- The compiler lowers and strips each circuit on its own: the task that it hands on has the new texts in
  -- the order of the old ones and is otherwise the task that came in, and the first circuit that fails
  -- fails the task.
  pub apply_optimization_passes-lowered_all :
      (task : QuantumTask)
      → apply_optimization_passes mlir task
        ≡ then_do
            (lowered_all task task.circuit_files)
            (λ fs. finished (record task { circuit_files = fs }))
  unfolding apply_optimization_passes
  apply_optimization_passes-lowered_all task =
      ap
        (λ o. then_do o (λ updated.
          finished
            (record task { circuit_files = set_circuit_files mlir updated task.circuit_files })))
        (lowered_files-indexed task 0 task.circuit_files [] tt)
      ∙ then_do_assoc (lowered_all task task.circuit_files) _ _
      ∙ replaced (lowered_all task task.circuit_files) (length-lowered_all task task.circuit_files)
    where
      replaced :
          (o : Ending (List String))
          → ((fs : List String) → o ≡ finished fs → length fs ≡ length task.circuit_files)
          → then_do o (λ fs. finished (record task {
            circuit_files = set_circuit_files mlir (indexed 0 fs) task.circuit_files;
          }))
            ≡ then_do o (λ fs. finished (record task { circuit_files = fs }))
      replaced (finished fs) same =
          ap (λ files. finished (record task { circuit_files = files }))
            (set_circuit_files-indexed [] task.circuit_files fs (same fs refl))
      replaced (thrown what) same = refl
      replaced crashed same = refl
