-- ===== src/Main/ExitCodes.antt =====
-- What the exit codes say.
use czi_pyramidizer.Prelude.{
  ℕ, ◌≡◌, ◌≢◌, refl, ap, ◌∙◌, sym, ◌↔◌, ◌⊎◌, inl, inr, List, [], ◌∷◌, ◌++◌, Bool, true, false,
  subst, arith,
}
use czi_pyramidizer.Prelude.Outcome.{Outcome, ok, err, Error}
use czi_pyramidizer.Console.{Text, codes, ConsoleCall, write_line_std_out, write_line_std_err}
use czi_pyramidizer.Operation.{Result, no_operation_necessary, operation_successful}
use czi_pyramidizer.Main.{
  ParseResult, Command, parsed, exit, parse_error, invalid_command, check_only, pyramidize,
  is_exception, exit_code_of, run_command, catch_exception, run_parsed,
}

-- A command that returns has one of the codes 0, 10 and 11.
abbrev IsReturned : ℕ → Type 0
IsReturned code = (code ≡ 0) ⊎ ((code ≡ 10) ⊎ (code ≡ 11))

Outcome-cases : {A : Type 0} (o : Outcome A) → ((a : A) × (o ≡ ok a)) ⊎ ((e : Error) × (o ≡ err e))
Outcome-cases (ok a) = inl (a, refl)
Outcome-cases (err e) = inr (e, refl)

never_both : {A : Type 0} (a : A) (e : Error) → ok a ≢ err e
never_both a e h = cc h

exit_code_of-IsReturned : (r : Result) → IsReturned (exit_code_of r)
unfolding exit_code_of
exit_code_of-IsReturned no_operation_necessary = inr (inr refl)
exit_code_of-IsReturned operation_successful = inl refl

-- Either an error, or a code of a command that returns.
Ends : Outcome (List ConsoleCall × ℕ) → Type 0
Ends (ok result) = IsReturned result.1
Ends (err e) = Unit

run_command-Ends :
    {Stream : Type 0} (command : Command) (source : Outcome Stream)
    (operation : Stream → Outcome (List ConsoleCall × Result)) (needs : Stream → Outcome Bool)
    → Ends (run_command command source operation needs)
unfolding run_command Ends
run_command-Ends invalid_command source operation needs = inl refl
run_command-Ends pyramidize (err e) operation needs = tt
run_command-Ends pyramidize (ok stream) operation needs = elim (Outcome-cases (operation stream)) [
  | inl (r, h) ↦ rw h (exit_code_of-IsReturned r.1)
  | inr (e, h) ↦ rw h tt
]
run_command-Ends check_only (err e) operation needs = tt
run_command-Ends check_only (ok stream) operation needs = elim (Outcome-cases (needs stream)) [
  | inl (true, h) ↦ rw h (inr (inl refl))
  | inl (false, h) ↦ rw h (inl refl)
  | inr (e, h) ↦ rw h tt
]

IsReturned-other : (code : ℕ) → IsReturned code → (code ≢ 99) × (code ≢ 1)
IsReturned-other code (inl h) = omega arith
IsReturned-other code (inr (inl h)) = omega arith
IsReturned-other code (inr (inr h)) = omega arith

Ends-IsReturned :
    (o : Outcome (List ConsoleCall × ℕ)) (r : List ConsoleCall × ℕ)
    → o ≡ ok r
    → Ends o
    → IsReturned r.1
unfolding Ends
Ends-IsReturned o r h ends = subst Ends h ends

returned_unchanged :
    (what : Error → Text) (o : Outcome (List ConsoleCall × ℕ)) (r : List ConsoleCall × ℕ)
    → o ≡ ok r
    → catch_exception what o ≡ ok (r.0, r.1)
unfolding catch_exception
returned_unchanged what o r h = rw h refl

exception_reported :
    (what : Error → Text) (o : Outcome (List ConsoleCall × ℕ)) (e : Error)
    → o ≡ err e
    → is_exception e ≡ true
    → (calls : List ConsoleCall) × (catch_exception what o ≡ ok (calls, 1))
unfolding catch_exception
exception_reported what o e h is = (_, ap (catch_exception what) h ∙ caught)
  where
    caught :
        catch_exception what (err e)
        ≡ ok (
          write_line_std_out []
              ∷ write_line_std_out []
              ∷ write_line_std_err (codes "An unhandled exception occurred : " ++ what e)
              ∷ [],
          1,
        )
    caught = rw is refl

-- Where every error of the command is an exception, `libmain` returns once `Parse` has. Its exit code is 99 just when
-- the command line is wrong, and 1 just when it is right and the command has thrown.
pub run_parsed-exit_code :
    {Stream : Type 0} (what : Error → Text) (parse_result : ParseResult) (command : Command)
    (source : Outcome Stream) (operation : Stream → Outcome (List ConsoleCall × Result))
    (needs : Stream → Outcome Bool)
    → ((e : Error) → run_command command source operation needs ≡ err e → is_exception e ≡ true)
    → (calls : List ConsoleCall) × (code : ℕ) × (run_parsed what parse_result command source
          operation needs
        ≡ ok (calls, code))
      × ((code ≡ 99) ↔ (parse_result ≡ parse_error))
      × ((code ≡ 1) ↔ (
          (parse_result ≡ parsed)
          × ((e : Error) × (run_command command source operation needs ≡ err e))))
unfolding run_parsed catch_exception
run_parsed-exit_code what exit command source operation needs thrown = (
  [],
  0,
  refl,
  (λ h. absurd (omega arith), λ h. cc h),
  (λ h. absurd (omega arith), λ h. cc (h.0)),
)
run_parsed-exit_code what parse_error command source operation needs thrown =
    ([], 99, refl, (λ h. refl, λ h. refl), (λ h. absurd (omega arith), λ h. cc (h.0)))
run_parsed-exit_code what parsed command source operation needs thrown =
    elim (Outcome-cases (run_command command source operation needs)) [
      | inl (r, h) ↦
          let (not_99, not_1) = IsReturned-other r.1 (
            Ends-IsReturned (run_command command source operation needs) r h
              (run_command-Ends command source operation needs)) in
          (
            r.0,
            r.1,
            returned_unchanged what (run_command command source operation needs) r h,
            (λ c. absurd (not_99 c), λ p. cc p),
            (λ c. absurd (not_1 c), λ p. absurd (never_both r p.1.0 (sym h ∙ p.1.1))),
          )
      | inr (e, h) ↦
          let (calls, c) =
            exception_reported what (run_command command source operation needs) e h (thrown e h) in
          (calls, 1, c, (λ x. absurd (omega arith), λ p. cc p), (λ x. (refl, (e, h)), λ p. refl))
    ]
