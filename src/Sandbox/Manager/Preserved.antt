-- ===== src/Sandbox/Manager/Preserved.antt =====
-- Commands, wakeups, opening and closing keep the manager's invariant.
use agentgarage.Prelude.{
  ℕ, zero, suc, ◌≡◌, ◌≢◌, refl, ap, ◌∙◌, true, false, Option, none, some, List, [], ◌∷◌, map, Text,
  arith, get_elem?,
}
use agentgarage.Sandbox.Types.{Spec, Backend, Config, Request, Command, ok}
use agentgarage.Sandbox.Entry.{Entry, exit, serve}
use agentgarage.Sandbox.Entry.Invariant.{Admissible}
use agentgarage.Sandbox.Manager.{
  and_then-keeps, Manager, adopt, ask, open_name, wake, close, shut, Handle,
}
use agentgarage.Sandbox.Manager.Names.{served, ask-cases}
use agentgarage.Sandbox.Manager.Invariant.{WellFormed, adopt-WellFormed, store-Base, store-Live}

pub get_elem?-map {ℓ κ} :
    {A : Type ℓ} {B : Type κ} (f : A → B) (xs : List A) (i : ℕ) {y : B}
    → get_elem? (map f xs) i ≡ some y
    → (x : A) × (get_elem? xs i ≡ some x) × (y ≡ f x)
get_elem?-map f [] i h = ground arith
get_elem?-map f (x ∷ xs) zero h = (x, refl, ground arith)
get_elem?-map f (x ∷ xs) (suc i) h = get_elem?-map f xs i h

map-get_elem? {ℓ κ} :
    {A : Type ℓ} {B : Type κ} (f : A → B) (xs : List A) (i : ℕ) {x : A}
    → get_elem? xs i ≡ some x
    → get_elem? (map f xs) i ≡ some (f x)
map-get_elem? f [] i h = ground arith
map-get_elem? f (y ∷ xs) zero h = ground arith
map-get_elem? f (y ∷ xs) (suc i) h = map-get_elem? f xs i h

pub shut-ne-none : (e : Entry) → (shut e).why ≢ none
unfolding shut exit
shut-ne-none e = ground arith

pub shut-spec : (e : Entry) → (shut e).spec ≡ e.spec
unfolding shut exit
shut-spec e = ground arith

module _ {W : Type 0} (b : Backend W) (cfg : Config) where
  -- A request that cannot end its sandbox.
  pub ask-WellFormed :
      (p : ℕ) (r : Request) (m : Manager W)
      → ((e : Entry) → (served b cfg r e m).1 ≡ false)
      → Admissible r
      → WellFormed cfg m
      → WellFormed cfg (ask b cfg p r m).1
  ask-WellFormed p r m stays adm v = ask-cases b cfg (WellFormed cfg) p r m v λ e at live. record {
    base = store-Base b cfg p r e m at live adm v.base;
    live = store-Live b cfg p r e m at live (stays e) v.live;
    over = v.over;
  }

  pub exec-WellFormed :
      (p : ℕ) (cmd : Command) (m : Manager W)
      → WellFormed cfg m
      → WellFormed cfg (ask b cfg p (Request.exec cmd) m).1
  unfolding serve
  exec-WellFormed p cmd m v = ask-WellFormed p (Request.exec cmd) m (λ e. refl) tt v

  pub wake-WellFormed :
      (p : ℕ) (due : Option ℕ) (m : Manager W)
      → WellFormed cfg m
      → WellFormed cfg (wake b cfg p due m)
  unfolding serve wake
  wake-WellFormed p due m v = ask-WellFormed p (Request.idle due) m (λ e. refl) tt v

  pub open_name-WellFormed :
      (name : Text) (m : Manager W) → WellFormed cfg m → WellFormed cfg (open_name b cfg name m).1
  unfolding open_name
  open_name-WellFormed name m v =
      let spec : Spec = record { name = name; image = cfg.image } in
      ground (
        arith,
        and_then-keeps {B = Handle} (WellFormed cfg) (adopt spec m)
            (λ at m'. (ok (record { entry = at.0; closed = false }), m'))
            (adopt-WellFormed cfg spec m v) (λ at m' v'. v'),
      )

  shut-WellFormed :
      (m : Manager W) (closed : Option Text) (w : W)
      → WellFormed cfg m
      → WellFormed cfg
          (record m { closing = true; heap = map shut m.heap; world = w; closed = some closed })
  shut-WellFormed m closed w v = record {
    base = record {
      distinct = v.base.distinct;
      named = λ n p l.
          let (e, g, s) = v.base.named n p l in
          (shut e, map-get_elem? shut m.heap p g, ap (λ (t : Spec). t.name) (shut-spec e) ∙ s);
      kept = λ p x g h.
          let (e, at, eq) = get_elem?-map shut m.heap p g in
          absurd (shut-ne-none e (ground (arith, h, eq)));
      refuses = λ d. refl;
      shut_down = λ c p x g h.
          let (e, at, eq) = get_elem?-map shut m.heap p g in shut-ne-none e (ground (arith, h, eq));
    };
    live = λ n p e l g c. ground (arith, c);
    over = λ c e. ground (arith, e);
  }

  pub close-WellFormed : (m : Manager W) → WellFormed cfg m → WellFormed cfg (close b cfg m).1
  unfolding close
  close-WellFormed m v = ground (arith, shut-WellFormed m (b.close m.world).0 (b.close m.world).1 v)
