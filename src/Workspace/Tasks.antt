-- ===== src/Workspace/Tasks.antt =====
-- workspace/workspace.go: opening a workspace, and the life of a task's worktree.
use agentgarage.Prelude.{
  zero, suc, none, some, List, [], ◌∷◌, ◌++◌, Text, codes, text_eq, itoa, Attempt, failure, success,
  if◌then◌else◌,
}
use agentgarage.Sandbox.Types.{Command, ExecResult}
use agentgarage.Bridge.Lines.{trim_space}
use agentgarage.Workspace.{
  Config, Workspace, Task, PullRequest, exited, broken, Outcome, Stat, there, missing, other, Host,
  plain_name, commit_sha, path_of, redact, environ, head_of, trim_prefix, not_plain, Step, ◌>>=◌,
  ◌>>◌, guard, done,
}

module _ {W : Type 0} (host : Host W) where
  -- What `run` makes of a program's end.
  unfoldable pub ran : Config → Text → List Text → Outcome → Attempt Text
  unfolding redact trim_space head_of
  ran cfg name args o = elim o.ended [
    | exited code ↦ elim code [
      | zero ↦ success (trim_space (redact cfg.env o.stdout))
      | suc n ↦ failure (
          name
          ++ (codes " "
              ++ (head_of args
                  ++ (codes ": exit status "
                      ++ (itoa (suc n) ++ (codes "\n" ++ redact cfg.env o.stderr))))))
    ]
    | broken e ↦ failure (
        name
        ++ (codes " "
            ++ (head_of args ++ (codes ": " ++ (e ++ (codes "\n" ++ redact cfg.env o.stderr))))))
  ]

  unfoldable pub run : Workspace → Text → Text → List Text → Step W Text
  unfolding ran
  run ws dir name args w = (
    ran ws.config name args (host.run dir ws.env name args w).0,
    (host.run dir ws.env name args w).1,
  )

  unfoldable make_dir : Text → Step W (Unit {0})
  make_dir dir w = elim (host.mkdir_all dir w).0 [
    | none ↦ (success tt, (host.mkdir_all dir w).1)
    | some e ↦ (failure e, (host.mkdir_all dir w).1)
  ]

  abbrev pub git : Text
  git = codes "git"

  abbrev pub origin : Text → Text
  origin s = codes "origin/" ++ s

  unfoldable fetch : Workspace → Step W Text
  unfolding run
  fetch ws = run ws ws.repo git (codes "fetch" ∷ codes "-q" ∷ codes "origin" ∷ [])

  unfoldable clone : Workspace → Step W Text
  unfolding run make_dir path_of
  clone ws = do
    make_dir (path_of (ws.config.root ∷ ws.config.name ∷ []))
    run ws [] git (codes "clone" ∷ codes "-q" ∷ ws.config.remote ∷ ws.repo ∷ [])

  unfoldable with_defaults : Config → Config
  with_defaults cfg = record cfg {
    gh = if text_eq cfg.gh [] then codes "gh" else cfg.gh;
    mise = if text_eq cfg.mise [] then codes "mise" else cfg.mise;
  }

  unfoldable pub unopened : Config → Workspace
  unfolding with_defaults path_of environ
  unopened cfg =
      let c = with_defaults cfg in
      record {
        config = c;
        repo = path_of (c.root ∷ c.name ∷ codes "repo" ∷ []);
        base = [];
        env = environ host.lookup_env c;
      }

  unfoldable fetched : Workspace → Step W Text
  unfolding clone fetch
  fetched ws w = elim (host.stat ws.repo w) [ missing ↦ clone ws w | _ ↦ fetch ws w ]

  unfoldable open_workspace : Config → Step W Workspace
  unfolding plain_name unopened fetched run trim_prefix
  open_workspace cfg = do
    guard (plain_name cfg.name) (not_plain (codes "name") (host.quoted cfg.name))
    let ws = unopened cfg
    fetched ws
    head ← run ws ws.repo git (codes "rev-parse" ∷ codes "--abbrev-ref" ∷ codes "origin/HEAD" ∷ [])
    done (record ws { base = trim_prefix (codes "origin/") head })

  unfoldable pub task_of : Workspace → Text → Text → Task
  unfolding path_of
  task_of ws id branch = record {
    id = id;
    branch = branch;
    dir = path_of (ws.config.root ∷ ws.config.name ∷ codes "tasks" ∷ id ∷ []);
  }

  abbrev garage : Text → Text
  garage id = codes "garage/" ++ id

  abbrev plain_task : Text → Step W (Unit {0})
  plain_task id = guard (plain_name id) (not_plain (codes "task id") (host.quoted id))

  unfoldable pub start : Workspace → Text → Step W Task
  unfolding plain_name fetch task_of run
  start ws id = do
    plain_task id
    fetch ws
    let t = task_of ws id (garage id)
    run ws ws.repo git (
        codes "worktree"
        ∷ codes "add"
        ∷ codes "-q"
        ∷ codes "-b"
        ∷ t.branch
        ∷ t.dir
        ∷ origin ws.base
        ∷ [])
    run ws t.dir ws.config.mise (codes "install" ∷ [])
    done t

  abbrev no_worktree : Text → Text → Text
  no_worktree id e = codes "workspace: no worktree for task " ++ (id ++ (codes ": " ++ e))

  unfoldable pub found : Task → Stat → Attempt Task
  found t there = success t
  found t missing = failure (no_worktree t.id (codes "no such file or directory"))
  found t (other e) = failure (no_worktree t.id e)

  unfoldable pub resume : Workspace → Text → Step W Task
  unfolding plain_name found task_of
  resume ws id = do
    plain_task id
    λ w. (found (task_of ws id (garage id)) (host.stat (task_of ws id (garage id)).dir w), w)

  -- A command whose failure has a text of its own.
  unfoldable run_or : Text → Workspace → List Text → Step W Text
  unfolding run
  run_or e ws args w = elim (run ws ws.repo git args w).0 [
    | failure f ↦ (failure e, (run ws ws.repo git args w).1)
    | success out ↦ (success out, (run ws ws.repo git args w).1)
  ]

  unfoldable pub merged : Workspace → Text → Step W Text
  unfolding commit_sha fetch run_or
  merged ws rev = do
    guard (commit_sha rev) (codes "workspace: " ++ (host.quoted rev ++ codes " is not a commit"))
    fetch ws
    sha ← run_or (codes "workspace: " ++ (rev ++ codes " is not a commit here")) ws (
        codes "rev-parse"
        ∷ codes "--verify"
        ∷ codes "--end-of-options"
        ∷ (rev ++ codes "^{commit}")
        ∷ [])
    run_or (codes "workspace: " ++ (rev ++ (codes " is not on " ++ ws.base))) ws
        (codes "merge-base" ∷ codes "--is-ancestor" ∷ sha ∷ origin ws.base ∷ [])
    done sha

  unfoldable pub checkout : Workspace → Text → PullRequest → Step W Task
  unfolding plain_name fetch task_of run
  checkout ws id pr = do
    plain_task id
    fetch ws
    let t = task_of ws id pr.head
    run ws ws.repo git
        (codes "worktree" ∷ codes "add" ∷ codes "-q" ∷ codes "--detach" ∷ t.dir ∷ pr.head_sha ∷ [])
    run ws ws.repo git (codes "config" ∷ codes "extensions.worktreeConfig" ∷ codes "true" ∷ [])
    run ws t.dir git (
        codes "config"
        ∷ codes "--worktree"
        ∷ codes "remote.origin.pushurl"
        ∷ codes "read-only://checkouts-do-not-push"
        ∷ [])
    run ws t.dir ws.config.mise (codes "install" ∷ [])
    done t

  unfoldable close_task : Workspace → Task → Step W Text
  unfolding run
  close_task ws t =
      run ws ws.repo git (codes "worktree" ∷ codes "remove" ∷ codes "--force" ∷ t.dir ∷ [])

  unfoldable pub answered : Config → Outcome → Attempt ExecResult
  unfolding redact
  answered cfg o = elim o.ended [
    | broken e ↦ failure e
    | exited code ↦ success (record {
      stdout = redact cfg.env o.stdout;
      stderr = redact cfg.env o.stderr;
      exit_code = code;
    })
  ]

  -- A command of an agent in the worktree.
  unfoldable pub exec : Workspace → Task → Command → Step W ExecResult
  unfolding answered
  exec ws t c w =
      let args = codes "exec" ∷ codes "--" ∷ c.cmd ∷ c.args in
      (
        answered ws.config (host.run t.dir ws.env ws.config.mise args w).0,
        (host.run t.dir ws.env ws.config.mise args w).1,
      )
