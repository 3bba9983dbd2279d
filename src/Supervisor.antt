-- ===== src/Supervisor.antt =====
-- autostart.rs: what the supervisor is asked to run, and running its commands. What a command answers
-- is given.
use ig.Base.{ℕ, Option, List, [], ◌∷◌, ◌++◌, if◌then◌else◌, is_empty}
use ig.Base.Text.{Text, text}
use ig.Base.Lines.{trim}
use ig.Failure.{Error, Result, ok, err, fail, anyhow, unavailable}
use ig.Console.{Json}
use ig.Disk.{Action}

-- How a command ended: it could not be run, it failed with this on its standard error, or it
-- succeeded.
pub data Ended : Type 0 where
  unrun : Text → Ended
  failed : Text → Ended
  succeeded : Ended

pub data Step : Type 0 where
  file : Action → Step
  ran : Text → List Text → Step

-- What a step after others comes to: the steps, and how the last ended.
abbrev pub Course : Type 0
Course = List Step × Result (Unit {0})

-- The two outcomes of creating, writing and unlinking the unit, and what a file is created with.
pub record Setting : Type 0 where
  pub exe : Result Text
  pub command : Text → List Text → Ended
  pub pretty : Json → Result Text
  pub mkdir : Option Text
  pub opening : Option Text
  pub written : ℕ
  pub write : Option Text
  pub unlinking : Option Text
  pub default_mode : ℕ

pub record Plan : Type 0 where
  pub exe : Text
  pub socket : Text
  pub args : List Text

unfoldable pub argv : Plan → List Text
argv p = p.exe ∷ text "--socket" ∷ p.socket ∷ text "daemon" ∷ p.args

-- `args.join(" ")`.
unfoldable pub join_words : List Text → Text
join_words [] = []
join_words (w ∷ []) = w
join_words (w ∷ v ∷ ws) = w ++ 32 ∷ join_words (v ∷ ws)

command_failed : Text → List Text → Text → Error
command_failed program args stderr = anyhow (
    program
    ++ (text " "
        ++ (join_words args
            ++ (text " failed: " ++ (if is_empty stderr then text "no output" else stderr)))))

command_result : Text → List Text → Ended → Result (Unit {0})
unfolding command_failed
command_result program args (unrun e) = err (
    fail unavailable
      (text "cannot run " ++ (program ++ (text ": " ++ (e ++ text "; is it installed?")))))
command_result program args (failed stderr) = err (command_failed program args (trim stderr))
command_result program args succeeded = ok tt

-- The function of the source named `run`.
unfoldable pub run_command : Setting → Text → List Text → Course
unfolding command_result
run_command s program args =
    (ran program args ∷ [], command_result program args (s.command program args))

-- One course after another, which is cut short by an error.
unfoldable pub then_do : Course → Course → Course
then_do (steps, err e) next = (steps, err e)
then_do (steps, ok _) (more, r) = (steps ++ more, r)
