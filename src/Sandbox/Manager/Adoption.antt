-- ===== src/Sandbox/Manager/Adoption.antt =====
-- What the adoption pass leaves alone.
use agentgarage.Prelude.{
  ℕ, ◌≡◌, refl, ◌∙◌, true, Option, none, some, List, [], ◌∷◌, Text, arith, text_eq_iff, length,
  get_elem?, get_elem?-lt, get_elem?-set_ne, get_elem?-append_left,
}
use agentgarage.Sandbox.Types.{Err, ok, Spec, Backend, BackendSandbox, Config, Request}
use agentgarage.Sandbox.Entry.{Entry}
use agentgarage.Sandbox.Manager.{
  lookup, Manager, and_then-keeps, ask, Report, found_state, observed_answer, take_in_at, take_in,
  take_in_all, take_listed, listed, sorted, pass, reconcile,
}
use agentgarage.Sandbox.Manager.Names.{ask-cases, adopt-cases, enrol}

module _ {W : Type 0} where
  -- Every name that m knows leads in m' to the same sandbox, which is as it was.
  pub record Keeps (m m' : Manager W) : Type 0 where
    pub names : (n : Text) (p : ℕ) → lookup n m.table ≡ some p → lookup n m'.table ≡ some p
    pub entries : (p : ℕ) (e : Entry) → get_elem? m.heap p ≡ some e → get_elem? m'.heap p ≡ some e

  Keeps-refl : (m : Manager W) → Keeps m m
  Keeps-refl m = record { names = λ n p h. h; entries = λ p e h. h }

  Keeps-trans : (m1 m2 m3 : Manager W) → Keeps m1 m2 → Keeps m2 m3 → Keeps m1 m3
  Keeps-trans m1 m2 m3 h k = record {
    names = λ n p l. k.names n p (h.names n p l);
    entries = λ p e g. k.entries p e (h.entries p e g);
  }

  Keeps-enrol :
      (spec : Spec) (m : Manager W) → lookup spec.name m.table ≡ none → Keeps m (enrol spec m)
  unfolding lookup
  Keeps-enrol spec m fresh = record {
    names = λ n p l. ground (arith, text_eq_iff spec.name n, fresh, l);
    entries = λ p e g. get_elem?-append_left m.heap _ p (get_elem?-lt m.heap p g) ∙ g;
  }

module _ {W : Type 0} (b : Backend W) (cfg : Config) where
  -- A request to a sandbox that m does not have leaves what m has.
  Keeps-ask :
      (r : Request) (m m' : Manager W) → Keeps m m' → Keeps m (ask b cfg (length m.heap) r m').1
  Keeps-ask r m m' k = ask-cases b cfg (Keeps m) (length m.heap) r m' k λ e at live. record {
    names = k.names;
    entries = λ p x g.
        get_elem?-set_ne m'.heap _ (λ same. ground (arith, same, get_elem?-lt m.heap p g))
        ∙ k.entries p x g;
  }

  observed_answer-same :
      (bs : BackendSandbox) (report : Report) (o : Option Err) (m : Manager W)
      → (observed_answer b cfg bs report o m).1 ≡ m
  unfolding observed_answer
  observed_answer-same bs report none m = refl
  observed_answer-same bs report (some e) m = refl

  take_in-Keeps :
      (bs : BackendSandbox) (report : Report) (m : Manager W)
      → Keeps m (take_in b cfg bs report m).1
  unfolding take_in
  take_in-Keeps bs report m =
      let spec : Spec = record { name = bs.name; image = bs.image } in
      let r = Request.observe (found_state bs.state) in
      adopt-cases (λ x. Keeps m (take_in_at b cfg bs report x).1) spec m (λ c. Keeps-refl m)
        (λ p c k. Keeps-refl m)
        λ c k.
          rw (observed_answer-same bs report (ask b cfg (length m.heap) r (enrol spec m)).0.error _)
            (Keeps-ask r m (enrol spec m) (Keeps-enrol spec m k))

  take_in_all-Keeps :
      (found : List BackendSandbox) (report : Report) (m : Manager W)
      → Keeps m (take_in_all b cfg found report m).1
  unfolding take_in_all
  take_in_all-Keeps [] report m = Keeps-refl m
  take_in_all-Keeps (bs ∷ rest) report m =
      and_then-keeps (Keeps m) (take_in b cfg bs report m) (take_in_all b cfg rest)
        (take_in-Keeps bs report m)
        (λ report' m' k. Keeps-trans m m' _ k (take_in_all-Keeps rest report' m'))

  take_listed-Keeps :
      (found : List BackendSandbox) (m : Manager W) → Keeps m (take_listed b cfg found m).1
  unfolding take_listed
  take_listed-Keeps found m =
      let none_yet : Report = record { adopted = []; asleep = [] } in
      and_then-keeps {B = Report} (Keeps m) (take_in_all b cfg found none_yet m)
        (λ report m'. (ok (sorted report), m')) (take_in_all-Keeps found none_yet m) (λ r m' k. k)

  pass-Keeps : (m : Manager W) → Keeps m (pass b cfg m).1
  unfolding pass
  pass-Keeps m =
      let (found, error, w) = b.list_all m.world in
      and_then-keeps (Keeps m) (listed found error, record m { world = w }) (take_listed b cfg)
        (record { names = λ n p h. h; entries = λ p e h. h })
        (λ bss m' k. Keeps-trans m m' _ k (take_listed-Keeps bss m'))

  -- Whatever the backend answers, `Reconcile` leaves every sandbox that the manager tracks, and the
  -- name that leads to it, exactly as they are.
  reconcile-Keeps : (m : Manager W) → Keeps m (reconcile b cfg m).1
  unfolding reconcile
  reconcile-Keeps m = ground (
    arith,
    Keeps-refl m,
    and_then-keeps {B = Report} (Keeps m) (pass b cfg m)
        (λ report m'. (ok report, record m' { adopted = true })) (pass-Keeps m)
        (λ report m' k. record { names = k.names; entries = k.entries }),
  )
