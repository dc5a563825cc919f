-- ===== src/Master/Experiment/Outcome.antt =====
-- The outcome of a record, and the cause that it can name.
use faultforge.Prelude.{
  ◌≡◌, ◌≢◌, ◌⊎◌, ◌↔◌, refl, Bool, true, false, some, List, [], ◌∷◌, any, all, find, All, is_some,
  Bool-cases, inl, inr, arith,
}
use faultforge.Fault.State.{InstanceState}
use faultforge.Master.Experiment.{
  ExperimentOutcome, completed, aborted, error, InstanceRecord, is_terminal, TaintedHost,
}
use faultforge.Master.Experiment.Record.{has_state, any_live, outcome_in, cause_in}

-- An entry that the test holds for is found.
any_found {ℓ} :
    {A : Type ℓ} (p : A → Bool) (xs : List A) → any p xs ≡ true → is_some (find p xs) ≡ true
any_found p [] h = cc
any_found p (x ∷ xs) h = ground (arith, any_found p xs)

aborted_found :
    (is : List InstanceRecord)
    → any_live is ≡ false
    → any (has_state InstanceState.error) is ≡ false
    → all (has_state InstanceState.done) is ≡ false
    → is_some (find (has_state InstanceState.aborted) is) ≡ true
aborted_found [] l e d = cc
aborted_found (i ∷ is) l e d = ground (arith, aborted_found is)

-- An outcome other than COMPLETED has a cause that the record can name.
pub cause_found :
    (is : List InstanceRecord) (ts : List TaintedHost) (o : ExperimentOutcome)
    → outcome_in is ts ≡ some o
    → o ≢ completed
    → is_some (cause_in is ts o) ≡ true
unfolding outcome_in cause_in
cause_found is ts completed h n = absurd (n refl)
cause_found is [] error h n = ground (arith, any_found (has_state InstanceState.error) is)
cause_found is (t ∷ ts) error h n = ground arith
cause_found is ts aborted h n = ground (arith, aborted_found is)

abbrev pub IsDone : InstanceRecord → Type 0
IsDone i = i.state ≡ InstanceState.done

-- Some entry of the list satisfies `P`.
abbrev pub Some {ℓ} : {A : Type ℓ} → (A → Type 0) → List A → Type 0
Some P [] = ⊥
Some P (x ∷ xs) = P x ⊎ Some P xs

abbrev pub IsFailed : InstanceRecord → Type 0
IsFailed i = i.state ≡ InstanceState.error

abbrev pub IsOver : InstanceRecord → Type 0
IsOver i = is_terminal i ≡ true

-- The documented lattice: every instance terminal, ERROR before ABORTED before COMPLETED.
abbrev pub IsOutcome : ExperimentOutcome → List InstanceRecord → List TaintedHost → Type 0
IsOutcome error is ts = All IsOver is × (Some IsFailed is ⊎ (ts ≢ []))
IsOutcome aborted is ts = All IsOver is × (¬ Some IsFailed is) × (ts ≡ []) × (¬ All IsDone is)
IsOutcome completed is ts = All IsDone is × (ts ≡ [])

IsOver-of_quiet : (is : List InstanceRecord) → any_live is ≡ false → All IsOver is
IsOver-of_quiet [] h = tt
IsOver-of_quiet (i ∷ is) h = ground (arith, IsOver-of_quiet is)

IsFailed-of_any :
    (is : List InstanceRecord) → any (has_state InstanceState.error) is ≡ true → Some IsFailed is
IsFailed-of_any [] h = cc
IsFailed-of_any (i ∷ is) h = ground (arith, IsFailed-of_any is)

not-IsFailed_of_none :
    (is : List InstanceRecord) → any (has_state InstanceState.error) is ≡ false → ¬ Some IsFailed is
not-IsFailed_of_none [] h f = f
not-IsFailed_of_none (i ∷ is) h (inl e) = ground arith
not-IsFailed_of_none (i ∷ is) h (inr f) = not-IsFailed_of_none is (ground arith) f

done_of_all :
    (is : List InstanceRecord) → all (has_state InstanceState.done) is ≡ true → All IsDone is
done_of_all [] h = tt
done_of_all (i ∷ is) h = ground (arith, done_of_all is)

all_of_done :
    (is : List InstanceRecord) → All IsDone is → all (has_state InstanceState.done) is ≡ true
all_of_done [] h = refl
all_of_done (i ∷ is) h = ground (arith, all_of_done is h.1)

quiet_of_over : (is : List InstanceRecord) → All IsOver is → any_live is ≡ false
quiet_of_over [] h = refl
quiet_of_over (i ∷ is) h = ground (arith, quiet_of_over is h.1)

any_of_failed :
    (is : List InstanceRecord) → Some IsFailed is → any (has_state InstanceState.error) is ≡ true
any_of_failed [] h = elim h [ ]
any_of_failed (i ∷ is) (inl e) = ground arith
any_of_failed (i ∷ is) (inr f) = ground (arith, any_of_failed is f)

none_of_not_failed :
    (is : List InstanceRecord) → ¬ Some IsFailed is → any (has_state InstanceState.error) is ≡ false
none_of_not_failed is h = elim (Bool-cases (any (has_state InstanceState.error) is)) [
  | inl e ↦ absurd (h (IsFailed-of_any is e))
  | inr e ↦ e
]

IsOver-of_done : (is : List InstanceRecord) → All IsDone is → All IsOver is
IsOver-of_done [] h = tt
IsOver-of_done (i ∷ is) h = (ground arith, IsOver-of_done is h.1)

none_of_done :
    (is : List InstanceRecord) → All IsDone is → any (has_state InstanceState.error) is ≡ false
none_of_done [] h = refl
none_of_done (i ∷ is) h = ground (arith, none_of_done is h.1)

not_all_of_not_done :
    (is : List InstanceRecord) → ¬ All IsDone is → all (has_state InstanceState.done) is ≡ false
not_all_of_not_done is h = elim (Bool-cases (all (has_state InstanceState.done) is)) [
  | inl e ↦ absurd (h (done_of_all is e))
  | inr e ↦ e
]

IsOutcome-sound :
    (is : List InstanceRecord) (ts : List TaintedHost) (o : ExperimentOutcome)
    → outcome_in is ts ≡ some o
    → IsOutcome o is ts
unfolding outcome_in
IsOutcome-sound is [] error h = ground (arith, IsOver-of_quiet is, IsFailed-of_any is)
IsOutcome-sound is (t ∷ ts) error h = (ground (arith, IsOver-of_quiet is), inr (λ e. cc))
IsOutcome-sound is [] aborted h = (
  ground (arith, IsOver-of_quiet is),
  not-IsFailed_of_none is (ground arith),
  refl,
  λ d. ground (arith, all_of_done is d),
)
IsOutcome-sound is (t ∷ ts) aborted h = ground arith
IsOutcome-sound is [] completed h = ground (arith, done_of_all is)
IsOutcome-sound is (t ∷ ts) completed h = ground arith

IsOutcome-complete :
    (is : List InstanceRecord) (ts : List TaintedHost) (o : ExperimentOutcome)
    → IsOutcome o is ts
    → outcome_in is ts ≡ some o
unfolding outcome_in
IsOutcome-complete is [] error (over, inl f) =
    ground (arith, quiet_of_over is over, any_of_failed is f)
IsOutcome-complete is [] error (over, inr n) = absurd (n refl)
IsOutcome-complete is (t ∷ ts) error (over, _) = ground (arith, quiet_of_over is over)
IsOutcome-complete is [] aborted (over, f, _, d) =
    ground (arith, quiet_of_over is over, none_of_not_failed is f, not_all_of_not_done is d)
IsOutcome-complete is (t ∷ ts) aborted (_, _, e, _) = cc
IsOutcome-complete is [] completed (d, _) =
    ground (arith, quiet_of_over is (IsOver-of_done is d), none_of_done is d, all_of_done is d)
IsOutcome-complete is (t ∷ ts) completed (_, e) = cc

-- The computed outcome is `o` exactly when the documented lattice says so: ERROR if every instance
-- is terminal and one failed or a host was tainted, COMPLETED if every instance is done and no host
-- was tainted, ABORTED if every instance is terminal and neither of these holds.
pub IsOutcome-iff :
    (is : List InstanceRecord) (ts : List TaintedHost) (o : ExperimentOutcome)
    → (outcome_in is ts ≡ some o) ↔ IsOutcome o is ts
IsOutcome-iff is ts o = (IsOutcome-sound is ts o, IsOutcome-complete is ts o)
