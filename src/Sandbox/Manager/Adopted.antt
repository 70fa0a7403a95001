-- ===== src/Sandbox/Manager/Adopted.antt =====
-- The adoption pass, and a command that makes it first, keep the manager's invariant.
use agentgarage.Prelude.{refl, true, Option, none, some, List, [], ◌∷◌, arith, length}
use agentgarage.Sandbox.Types.{
  Err, Spec, Backend, Config, Request, Command, Result, ok, err, BackendSandbox, BackendState,
}
use agentgarage.Sandbox.Entry.{serve}
use agentgarage.Sandbox.Entry.Invariant.{Admissible}
use agentgarage.Sandbox.Manager.{
  sorted, listed, take_listed, and_then-keeps, pass_done, found_state, observed_answer, take_in_at,
  Manager, ask, Report, take_in, take_in_all, pass, reconcile, ensure_adopted, Handle, handle_exec,
}
use agentgarage.Sandbox.Manager.Names.{adopt-cases, enrol}
use agentgarage.Sandbox.Manager.Invariant.{WellFormed, WellFormed-ext, enrol-WellFormed}
use agentgarage.Sandbox.Manager.Preserved.{ask-WellFormed, exec-WellFormed}

module _ {W : Type 0} (b : Backend W) (cfg : Config) where
  pub Admissible-found : (found : BackendState) → Admissible (Request.observe (found_state found))
  unfolding found_state
  Admissible-found BackendState.running = tt
  Admissible-found BackendState.stopped = tt

  observed_answer-WellFormed :
      (bs : BackendSandbox) (report : Report) (o : Option Err) (m : Manager W)
      → WellFormed cfg m
      → WellFormed cfg (observed_answer b cfg bs report o m).1
  unfolding observed_answer
  observed_answer-WellFormed bs report none m v = v
  observed_answer-WellFormed bs report (some e) m v = v

  take_in-WellFormed :
      (bs : BackendSandbox) (report : Report) (m : Manager W)
      → WellFormed cfg m
      → WellFormed cfg (take_in b cfg bs report m).1
  unfolding take_in serve
  take_in-WellFormed bs report m v =
      let spec : Spec = record { name = bs.name; image = bs.image } in
      adopt-cases (λ r. WellFormed cfg (take_in_at b cfg bs report r).1) spec m (λ c. v)
        (λ p c k. v)
        λ c k.
          let r = Request.observe (found_state bs.state) in
          let m' = enrol spec m in
          observed_answer-WellFormed bs report (ask b cfg (length m.heap) r m').0.error _ (
            ask-WellFormed b cfg (length m.heap) r m' (λ e. refl) (Admissible-found bs.state)
              (enrol-WellFormed cfg spec m c k v))

  take_in_all-WellFormed :
      (found : List BackendSandbox) (report : Report) (m : Manager W)
      → WellFormed cfg m
      → WellFormed cfg (take_in_all b cfg found report m).1
  unfolding take_in_all
  take_in_all-WellFormed [] report m v = v
  take_in_all-WellFormed (bs ∷ rest) report m v =
      and_then-keeps (WellFormed cfg) (take_in b cfg bs report m) (take_in_all b cfg rest)
        (take_in-WellFormed bs report m v) (take_in_all-WellFormed rest)

  take_listed-WellFormed :
      (found : List BackendSandbox) (m : Manager W)
      → WellFormed cfg m
      → WellFormed cfg (take_listed b cfg found m).1
  unfolding take_listed
  take_listed-WellFormed found m v =
      let none_yet : Report = record { adopted = []; asleep = [] } in
      and_then-keeps {B = Report} (WellFormed cfg) (take_in_all b cfg found none_yet m)
        (λ report m'. (ok (sorted report), m')) (take_in_all-WellFormed found none_yet m v)
        (λ report m' v'. v')

  pass-WellFormed : (m : Manager W) → WellFormed cfg m → WellFormed cfg (pass b cfg m).1
  unfolding pass
  pass-WellFormed m v =
      let (found, error, w) = b.list_all m.world in
      and_then-keeps (WellFormed cfg) (listed found error, record m { world = w })
        (take_listed b cfg) (WellFormed-ext cfg m (record m { world = w }) refl refl refl refl v)
        take_listed-WellFormed

  pub reconcile-WellFormed :
      (m : Manager W) → WellFormed cfg m → WellFormed cfg (reconcile b cfg m).1
  unfolding reconcile
  reconcile-WellFormed m v = ground (
    arith,
    and_then-keeps {B = Report} (WellFormed cfg) (pass b cfg m)
        (λ report m'. (ok report, record m' { adopted = true })) (pass-WellFormed m v)
        (λ report m' v'.
          WellFormed-ext cfg m' (record m' { adopted = true }) refl refl refl refl v'),
  )

  pass_done-WellFormed :
      (r : Result Report × Manager W) → WellFormed cfg r.1 → WellFormed cfg (pass_done b cfg r)
  unfolding pass_done
  pass_done-WellFormed (ok report, m) v = WellFormed-ext cfg m _ refl refl refl refl v
  pass_done-WellFormed (err e, m) v =
      WellFormed-ext cfg m _ (ground arith) (ground arith) (ground arith) (ground arith) v

  ensure_adopted-WellFormed :
      (m : Manager W) → WellFormed cfg m → WellFormed cfg (ensure_adopted b cfg m)
  unfolding ensure_adopted
  ensure_adopted-WellFormed m v =
      ground (arith, pass_done-WellFormed (pass b cfg m) (pass-WellFormed m v))

  pub handle_exec-WellFormed :
      (cmd : Command) (h : Handle) (m : Manager W)
      → WellFormed cfg m
      → WellFormed cfg (handle_exec b cfg cmd h m).1
  unfolding handle_exec
  handle_exec-WellFormed cmd h m v = ground (
    arith,
    exec-WellFormed b cfg h.entry cmd (ensure_adopted b cfg m) (ensure_adopted-WellFormed m v),
  )
