-- ===== src/Sandbox/Manager/Invariant.antt =====
-- The manager's invariant: its names lead to their own sandboxes, each live one keeps the
-- invariant of one sandbox, and none is live once the manager is closing.
use agentgarage.Prelude.{
  ℕ, zero, suc, ◌⊎◌, ◌≡◌, ◌≢◌, refl, sym, ap, ◌∙◌, true, false, none, some, List, [], ◌∷◌, ◌++◌,
  Text, arith, text_eq, text_eq_iff, length, get_elem?, set, get_elem?-lt, get_elem?-append_left,
  get_elem?-append_length, get_elem?-set_self, get_elem?-set_ne, Bool-cases, inl, inr, ◌==◌, ==_iff,
  ◌<◌,
}
use agentgarage.Sandbox.Types.{Spec, Backend, Config, Request}
use agentgarage.Sandbox.Entry.{Entry, Machine, new_entry, exit}
use agentgarage.Sandbox.Entry.Invariant.{
  Inv, new_entry-Inv, Admissible, serve-Inv, serve-spec, serve-why,
}
use agentgarage.Sandbox.Entry.History.{Recorded, new_entry-Recorded, serve-Recorded}
use agentgarage.Sandbox.Manager.{lookup, Manager, new_manager, adopt}
use agentgarage.Sandbox.Manager.Names.{served, left_entry, store, Distinct, adopt-cases, enrol}

-- What holds of one entry: it is made under the name that leads to it, and, while its goroutine
-- runs, it keeps the invariant of one sandbox.
abbrev pub Kept : Config → Entry → Type 0
Kept cfg e = e.why ≡ none → Inv cfg e × Recorded e

-- An entry in a heap that has grown by one is an old entry or the new one.
pub grown :
    (heap : List Entry) (new : Entry) (p : ℕ) (e : Entry)
    → get_elem? (heap ++ new ∷ []) p ≡ some e
    → (get_elem? heap p ≡ some e) ⊎ ((p ≡ length heap) × (e ≡ new))
grown [] new zero e h = inr (refl, ground arith)
grown [] new (suc p) e h = ground arith
grown (x ∷ heap) new zero e h = inl h
grown (x ∷ heap) new (suc p) e h = ground (arith, grown heap new p e h)

-- An entry read after a write is the one written or an old one.
pub set-cases :
    (heap : List Entry) (p q : ℕ) {e x : Entry}
    → get_elem? (set heap p e) q ≡ some x
    → p < length heap
    → ((q ≡ p) × (x ≡ e)) ⊎ (get_elem? heap q ≡ some x)
set-cases [] p q g h = elim h [ ]
set-cases (y ∷ heap) zero zero g h = inl (refl, ground arith)
set-cases (y ∷ heap) zero (suc q) g h = inr g
set-cases (y ∷ heap) (suc p) zero g h = inr g
set-cases (y ∷ heap) (suc p) (suc q) g h = ground (arith, set-cases heap p q g (omega arith))

module _ {W : Type 0} where
  -- Every name that a manager in service knows has a goroutine.
  abbrev Live : Manager W → Type 0
  Live m =
      (n : Text) (p : ℕ) (e : Entry)
      → lookup n m.table ≡ some p
      → get_elem? m.heap p ≡ some e
      → m.closing ≡ false
      → e.why ≡ none

module _ {W : Type 0} (cfg : Config) where
  pub record Base (m : Manager W) : Type 0 where
    pub distinct : Distinct m.table
    pub named :
        (n : Text) (p : ℕ)
        → lookup n m.table ≡ some p
        → (e : Entry) × (get_elem? m.heap p ≡ some e) × (e.spec.name ≡ n)
    pub kept : (p : ℕ) (e : Entry) → get_elem? m.heap p ≡ some e → Kept cfg e
    pub refuses : m.closed ≢ none → m.closing ≡ true
    pub shut_down :
        m.closed ≢ none → (p : ℕ) (e : Entry) → get_elem? m.heap p ≡ some e → e.why ≢ none

  -- What holds in addition where each call ends before the next begins.
  pub record WellFormed (m : Manager W) : Type 0 where
    pub base : Base m
    pub live : Live m
    pub over : m.closing ≡ true → m.closed ≢ none

  pub new_manager-WellFormed : (w : W) → WellFormed (new_manager w)
  unfolding new_manager lookup
  new_manager-WellFormed w = record {
    base = record {
      distinct = tt;
      named = λ n p h. cc;
      kept = λ p e h. cc;
      refuses = λ c. absurd (c refl);
      shut_down = λ c. absurd (c refl);
    };
    live = λ n p e h. cc;
    over = λ c. cc;
  }

  -- The world, the events, the flag of the adoption pass: no part of the invariant.
  pub Base-ext :
      (m m' : Manager W)
      → m'.table ≡ m.table
      → m'.heap ≡ m.heap
      → m'.closing ≡ m.closing
      → m'.closed ≡ m.closed
      → Base m
      → Base m'
  Base-ext m m' t h c k v = record {
    distinct = rw t v.distinct;
    named = λ n p l. rw h (v.named n p (rw (← t) l));
    kept = λ p e g. v.kept p e (rw (← h) g);
    refuses = λ d. c ∙ v.refuses (λ e. d (k ∙ e));
    shut_down = λ d p e g. v.shut_down (λ q. d (k ∙ q)) p e (rw (← h) g);
  }

  pub WellFormed-ext :
      (m m' : Manager W)
      → m'.table ≡ m.table
      → m'.heap ≡ m.heap
      → m'.closing ≡ m.closing
      → m'.closed ≡ m.closed
      → WellFormed m
      → WellFormed m'
  WellFormed-ext m m' t h c k v = record {
    base = Base-ext m m' t h c k v.base;
    live = λ n p e l g d. v.live n p e (rw (← t) l) (rw (← h) g) (rw (← c) d);
    over = λ d e. v.over (rw (← c) d) (sym k ∙ e);
  }

  pub enrol-Base :
      (spec : Spec) (m : Manager W)
      → m.closing ≡ false
      → lookup spec.name m.table ≡ none
      → Base m
      → Base (enrol spec m)
  unfolding lookup new_entry
  enrol-Base spec m c fresh v = record {
    distinct = (fresh, v.distinct);
    named = λ n p l. elim (Bool-cases (text_eq spec.name n)) [
      | inl same ↦ (
        new_entry spec,
        ground (arith, same, l, get_elem?-append_length m.heap (new_entry spec)),
        (text_eq_iff spec.name n).0 same,
      )
      | inr other ↦
          let (e, g, s) = v.named n p (ground arith) in
          (e, get_elem?-append_left m.heap _ p (get_elem?-lt m.heap p g) ∙ g, s)
    ];
    kept = λ p e g. elim (grown m.heap (new_entry spec) p e g) [
      | inl old ↦ v.kept p e old
      | inr (at, new) ↦ rw new (λ w. (new_entry-Inv cfg spec, new_entry-Recorded spec))
    ];
    refuses = v.refuses;
    shut_down = λ d. absurd (ground (arith, v.refuses d, c));
  }

  pub enrol-WellFormed :
      (spec : Spec) (m : Manager W)
      → m.closing ≡ false
      → lookup spec.name m.table ≡ none
      → WellFormed m
      → WellFormed (enrol spec m)
  unfolding lookup new_entry
  enrol-WellFormed spec m c fresh v = record {
    base = enrol-Base spec m c fresh v.base;
    over = v.over;
    live = λ n p e l g d. elim (grown m.heap (new_entry spec) p e g) [
      | inl old ↦ v.live n p e (ground (arith, get_elem?-lt m.heap p old, l)) old d
      | inr (at, new) ↦ rw new refl
    ];
  }

  pub adopt-WellFormed : (spec : Spec) (m : Manager W) → WellFormed m → WellFormed (adopt spec m).1
  adopt-WellFormed spec m v =
      adopt-cases (λ r. WellFormed r.1) spec m (λ c. v) (λ p c k. v)
        (λ c k. enrol-WellFormed spec m c k v)

module _ {W : Type 0} (b : Backend W) (cfg : Config) where
  -- What a request leaves of an entry that was live.
  pub served-name :
      (r : Request) (e : Entry) (m : Manager W)
      → (left_entry (served b cfg r e m).1 (served b cfg r e m).2.entry).spec ≡ e.spec
  unfolding exit
  served-name r e m =
      ground (arith, serve-spec b cfg r (record { entry = e; world = m.world; events = m.events }))

  served-Kept :
      (r : Request) (e : Entry) (m : Manager W)
      → Inv cfg e
      → Recorded e
      → Admissible r
      → Kept cfg (left_entry (served b cfg r e m).1 (served b cfg r e m).2.entry)
  unfolding exit
  served-Kept r e m v h a =
      let s : Machine W = record { entry = e; world = m.world; events = m.events } in
      ground (arith, serve-Inv b cfg r s v a, serve-Recorded b cfg r s v a h)

  pub store-Base :
      (p : ℕ) (r : Request) (e : Entry) (m : Manager W)
      → get_elem? m.heap p ≡ some e
      → e.why ≡ none
      → Admissible r
      → Base cfg m
      → Base cfg (store p (served b cfg r e m) m)
  store-Base p r e m at live a v = record {
    distinct = v.distinct;
    named = λ n q l.
        let (x, g, s) = v.named n q l in
        elim (Bool-cases (q == p)) [
          | inl same ↦
              let e' = left_entry (served b cfg r e m).1 (served b cfg r e m).2.entry in
              let q-eq-p = (==_iff q p).0 same in
              (
                e',
                rw q-eq-p (get_elem?-set_self m.heap p e' (get_elem?-lt m.heap p at)),
                ap (λ (t : Spec). t.name) (served-name r e m) ∙ ground (arith, at, g, q-eq-p, s),
              )
          | inr other ↦ (x, get_elem?-set_ne m.heap _ (λ t. ground (arith, t, other)) ∙ g, s)
        ];
    kept = λ q x g. elim (set-cases m.heap p q g (get_elem?-lt m.heap p at)) [
      | inl (same, new) ↦ rw new (served-Kept r e m (v.kept p e at live).0 (v.kept p e at live).1 a)
      | inr old ↦ v.kept q x old
    ];
    refuses = v.refuses;
    shut_down = λ c q x g. absurd (v.shut_down c p e at live);
  }

  pub store-Live :
      (p : ℕ) (r : Request) (e : Entry) (m : Manager W)
      → get_elem? m.heap p ≡ some e
      → e.why ≡ none
      → (served b cfg r e m).1 ≡ false
      → Live m
      → Live (store p (served b cfg r e m) m)
  store-Live p r e m at live stays v n q x l g c =
      elim (set-cases m.heap p q g (get_elem?-lt m.heap p at)) [
        | inl (same, new) ↦
            let s : Machine W = record { entry = e; world = m.world; events = m.events } in
            ground (arith, serve-why b cfg r s, stays, new, live)
        | inr old ↦ v n q x l old c
      ]
