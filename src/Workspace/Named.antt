-- ===== src/Workspace/Named.antt =====
-- A task's worktree lies under its workspace.
use agentgarage.Prelude.{
  ◌≡◌, ◌≢◌, refl, Bool, true, false, [], ◌∷◌, Text, codes, All, arith, Attempt, failure, success,
}
use agentgarage.Workspace.{
  Workspace, Task, PullRequest, Stat, there, missing, other, Host, is_alnum, is_plain_rest,
  plain_name, path_of, Step, and_then, ◌>>=◌, ◌>>◌, guard, done,
}
use agentgarage.Workspace.Tasks.{task_of, start, resume, found, checkout}

-- One name of a directory: not empty, without a slash, and not that of the directory or its parent.
abbrev IsPlain : Text → Type 0
IsPlain id = (id ≢ []) × All (λ c. c ≢ b'/') id × (id ≢ codes ".") × (id ≢ codes "..")

rest-no_slash : (s : Text) → is_plain_rest s ≡ true → All (λ c. c ≢ b'/') s
unfolding is_plain_rest is_alnum
rest-no_slash [] h = tt
rest-no_slash (c ∷ s) h = ((λ e. ground (arith, h, e)), rest-no_slash s (ground (arith, h)))

plain_name-IsPlain : (id : Text) → plain_name id ≡ true → IsPlain id
unfolding plain_name is_alnum
plain_name-IsPlain [] h = ground (arith, h)
plain_name-IsPlain (c ∷ s) h = (
  (λ e. cc (e)),
  ((λ e. ground (arith, h, e)), rest-no_slash s (ground (arith, h))),
  (λ e. ground (arith, h, e)),
  (λ e. ground (arith, h, e)),
)

-- The directory of a task, if there is one, is that of a plain name under the workspace's tasks.
unfoldable pub Inside : Workspace → Attempt Task → Type 0
Inside ws (failure e) = Unit
Inside ws (success t) =
    (t.dir ≡ path_of (ws.config.root ∷ ws.config.name ∷ codes "tasks" ∷ t.id ∷ [])) × IsPlain t.id

module _ {W : Type 0} (host : Host W) (ws : Workspace) where
  -- A step hands out such a task or none, in every world.
  Always : Step W Task → Type 0
  Always k = (w : W) → Inside ws (k w).0

  then-Always :
      (m : Step W Text) (f : Text → Step W Task) → ((a : Text) → Always (f a)) → Always (m >>= f)
  unfolding Always Inside
  then-Always m f h w = by_step (m w).0
    where
      by_step : (a : Attempt Text) → Inside ws (and_then a f (m w).1).0
      by_step (failure e) = tt
      by_step (success a) = h a (m w).1

  guarded-Always :
      (b : Bool) (e : Text) (k : Step W Task) → (b ≡ true → Always k) → Always (guard b e >> k)
  unfolding Always Inside
  guarded-Always true e k h w = h refl w
  guarded-Always false e k h w = tt

  task_of-Inside :
      (id branch : Text) → plain_name id ≡ true → Always (done (task_of host ws id branch))
  unfolding task_of Always Inside
  task_of-Inside id branch p w = (refl, plain_name-IsPlain id p)

  start-Always : (id : Text) → Always (start host ws id)
  unfolding start
  start-Always id =
      guarded-Always (plain_name id) _ _ λ p. search (then-Always, task_of-Inside id _ p) depth 8

  checkout-Always : (id : Text) (pr : PullRequest) → Always (checkout host ws id pr)
  unfolding checkout
  checkout-Always id pr =
      guarded-Always (plain_name id) _ _ λ p. search (then-Always, task_of-Inside id _ p) depth 8

  found-Inside :
      (id branch : Text) (o : Stat)
      → plain_name id ≡ true
      → Inside ws (found host (task_of host ws id branch) o)
  unfolding found Inside task_of
  found-Inside id branch there p = (refl, plain_name-IsPlain id p)
  found-Inside id branch missing p = tt
  found-Inside id branch (other e) p = tt

  resume-Always : (id : Text) → Always (resume host ws id)
  unfolding resume Always
  resume-Always id = guarded-Always (plain_name id) _ _ λ p w. found-Inside id _ (host.stat _ w) p

  -- Whatever id is asked for, and whatever the host's programs do: the worktree of a task that `Start`,
  -- `Resume` or `Checkout` hands out is the directory of a plain name under the workspace's tasks, so
  -- that no id leads elsewhere.
  pub tasks-Inside :
      (id : Text) (pr : PullRequest) (w : W)
      → Inside ws (start host ws id w).0
        × Inside ws (resume host ws id w).0
        × Inside ws (checkout host ws id pr w).0
  unfolding Always
  tasks-Inside id pr w = (start-Always id w, resume-Always id w, checkout-Always id pr w)
