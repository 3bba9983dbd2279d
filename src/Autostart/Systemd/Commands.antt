-- ===== src/Autostart/Systemd/Commands.antt =====
-- autostart.rs, systemd: the commands that its functions run.
use ig.Base.{◌≡◌, refl, Option, List, [], ◌∷◌, ◌++◌, map, All, ap, ◌∙◌}
use ig.Base.Text.{Text}
use ig.Failure.{ok, err}
use ig.Supervisor.{Step, ran, Course, Setting, run_command, then_do}
use ig.Autostart.Steps.{IsCommand, OnlyCommands}
use ig.Autostart.Installing.{then_do-ok}
use ig.Autostart.Systemd.{platform, load, load_plan, run_plan, unload, systemctl}

joined : (xs ys : List Step) → All IsCommand xs → All IsCommand ys → All IsCommand (xs ++ ys)
joined [] ys h k = k
joined (x ∷ xs) ys h k = (h.0, joined xs ys h.1 k)

then_do-only :
    (c d : Course) → All IsCommand c.0 → All IsCommand d.0 → All IsCommand (then_do c d).0
unfolding then_do
then_do-only (xs, err e) d h k = h
then_do-only (xs, ok _) (ys, r) h k = joined xs ys h k

run_plan-only : (s : Setting) (plan : List (List Text)) → All IsCommand (run_plan s plan).0
unfolding run_plan
run_plan-only s [] = tt
run_plan-only s (args ∷ plan) =
    then_do-only (run_command s systemctl args) (run_plan s plan) (unfold run_command in (tt, tt))
      (run_plan-only s plan)

pub platform-OnlyCommands : (xdg home : Option Text) → OnlyCommands (platform xdg home)
unfolding platform
platform-OnlyCommands xdg home = record {
  loads = λ s path. unfold load in run_plan-only s load_plan;
  unloads = λ s path. unfold unload run_command in (tt, tt);
}

run_plan-all :
    (s : Setting) (plan : List (List Text))
    → (run_plan s plan).1 ≡ ok tt
    → (run_plan s plan).0 ≡ map (ran systemctl) plan
unfolding run_plan run_command
run_plan-all s [] h = refl
run_plan-all s (args ∷ plan) h =
    let (one, rest, steps) = then_do-ok (run_command s systemctl args) (run_plan s plan) h in
    steps ∙ ap (◌∷◌ (ran systemctl args)) (run_plan-all s plan rest)

-- Loading that succeeds has run the whole plan in its order, the restart of the unit last.
pub load-plan :
    (s : Setting) (path : Text)
    → (load s path).1 ≡ ok tt
    → (load s path).0 ≡ map (ran systemctl) load_plan
unfolding load
load-plan s path h = run_plan-all s load_plan h
