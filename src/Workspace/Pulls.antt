-- ===== src/Workspace/Pulls.antt =====
-- workspace/workspace.go: pull requests, through gh and git.
use agentgarage.Prelude.{
  not, [], ◌∷◌, ◌++◌, Text, codes, text_eq, Attempt, failure, success, if◌then◌else◌,
}
use agentgarage.Tools.Strings.{split}
use agentgarage.Workspace.{
  Workspace, Task, PullRequest, Host, last_of, Step, ◌>>=◌, ◌>>◌, guard, done,
}
use agentgarage.Workspace.Tasks.{git, origin, run}

module _ {W : Type 0} (host : Host W) where
  -- `json.Unmarshal` of what gh prints.
  unfoldable pub parsed : Text → Attempt PullRequest → Attempt PullRequest
  parsed ref (success pr) = success pr
  parsed ref (failure e) = failure (codes "gh pr view " ++ (ref ++ (codes ": " ++ e)))

  unfoldable view : Workspace → Text → Text → Step W PullRequest
  unfolding run parsed
  view ws dir ref = do
    out ← run host ws dir ws.config.gh (
        codes "pr"
        ∷ codes "view"
        ∷ ref
        ∷ codes "--json"
        ∷ codes "url,state,headRefName,headRefOid,baseRefName"
        ∷ [])
    λ w. (parsed ref (host.read_pull_request out), w)

  unfoldable pull_request : Workspace → Text → Step W PullRequest
  unfolding view
  pull_request ws url = view ws ws.repo url

  unfoldable comment : Workspace → Text → Text → Step W Text
  unfolding run
  comment ws url body =
      run host ws ws.repo ws.config.gh
        (codes "pr" ∷ codes "comment" ∷ url ∷ codes "--body" ∷ body ∷ [])

  unfoldable pub create : Workspace → Task → Text → Text → Step W Text
  unfolding run last_of split
  create ws t title body = do
    out ← run host ws t.dir ws.config.gh (
        codes "pr"
        ∷ codes "create"
        ∷ codes "--head"
        ∷ t.branch
        ∷ codes "--base"
        ∷ ws.base
        ∷ codes "--title"
        ∷ title
        ∷ codes "--body"
        ∷ body
        ∷ [])
    done (last_of (split (codes "\n") out))

  -- After the push: the pull request that is open already, or a new one.
  unfoldable open_or_create : Workspace → Task → Text → Text → Attempt PullRequest → Step W Text
  unfolding create
  open_or_create ws t title body (failure e) = create ws t title body
  open_or_create ws t title body (success pr) =
      if text_eq pr.state (codes "OPEN") then done pr.url else create ws t title body

  unfoldable pub push : Workspace → Task → Step W Text
  unfolding run
  push ws t =
      run host ws t.dir (git host)
        (codes "push" ∷ codes "-q" ∷ codes "origin" ∷ (codes "HEAD:refs/heads/" ++ t.branch) ∷ [])

  unfoldable open_pr : Workspace → Task → Text → Text → Step W Text
  unfolding run push view open_or_create
  open_pr ws t title body = do
    status ← run host ws t.dir (git host) (codes "status" ∷ codes "--porcelain" ∷ [])
    guard (text_eq status []) (codes "uncommitted changes, commit them first:\n" ++ status)
    ahead ←
        run host ws t.dir (git host)
          (codes "rev-list" ∷ codes "--count" ∷ (origin host ws.base ++ codes "..HEAD") ∷ [])
    guard (not (text_eq ahead (codes "0")))
        (codes "nothing committed on " ++ (t.branch ++ codes " yet"))
    push ws t
    λ w. open_or_create ws t title body (view ws t.dir t.branch w).0 (view ws t.dir t.branch w).1
