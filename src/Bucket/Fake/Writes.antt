-- ===== src/Bucket/Fake/Writes.antt =====
-- What conditional writes to the store in memory promise: a version that was replaced never comes
-- back.
use agentgarage.Prelude.{
  ℕ, suc, ◌≤◌, ◌≡◌, ◌≢◌, refl, sym, ap, ◌∙◌, ◌⊎◌, inl, inr, true, false, some, List, [], ◌∷◌, Text,
  arith, text_eq, text_eq_iff, text_eq_refl, itoa-inj, Option-cases, Bool-cases,
}
use mathlib.Core.List.{append_cancel_right}
use agentgarage.Bucket.Types.{Object, Cond, Err, err, find, assign}
use mathlib.Core.List.{tail-eq_of_cons-eq}
use mathlib.Core.Option.{some_inj}
use agentgarage.Bucket.Fake.{Fake, new_fake, put, outdated, refused, etag_of}

module _ {A : Type 0} where
  pub find-assign : (k : Text) (a : A) (m : List (Text × A)) → find k (assign k a m) ≡ some a
  unfolding find assign
  find-assign k a [] = ground (arith, text_eq_refl k)
  find-assign k a ((n, x) ∷ m) = ground (arith, find-assign k a m, text_eq_iff n k)

  pub find-assign_ne :
      (k l : Text) (a : A) (m : List (Text × A)) → k ≢ l → find l (assign k a m) ≡ find l m
  unfolding find assign
  find-assign_ne k l a [] ne = ground (arith, ne, text_eq_iff k l)
  find-assign_ne k l a ((n, x) ∷ m) ne =
      ground (arith, find-assign_ne k l a m ne, text_eq_iff n k, text_eq_iff n l, ne)

etag_of-inj : (m n : ℕ) → etag_of m ≡ etag_of n → m ≡ n
unfolding etag_of
etag_of-inj m n h = itoa-inj m n (append_cancel_right _ _ (b'"' ∷ []) (tail-eq_of_cons-eq h))

abbrev IsVersion : Text → ℕ → Type 0
IsVersion etag n = (v : ℕ) × (etag ≡ etag_of v) × (v ≤ n)

-- Every stored version's number is at most the last one given.
abbrev Numbered : Fake → Type 0
Numbered f = (k : Text) (o : Object) → find k f.objects ≡ some o → IsVersion o.etag f.version

-- A version of the key that is not there any more.
pub record Retired (key etag : Text) (f : Fake) : Type 0 where
  pub known : IsVersion etag f.version
  pub gone : (o : Object) → find key f.objects ≡ some o → o.etag ≢ etag

IsVersion-suc : {e : Text} {n : ℕ} → IsVersion e n → IsVersion e (suc n)
IsVersion-suc (v, h, l) = (v, h, omega (arith, l))

-- Both outcomes of a write.
put-cases :
    (P : Fake → Type 0) (k : Text) (x : Object) (cond : Cond) (f : Fake)
    → (refused (find k f.objects) cond ≡ true → P (record f { counts = (put k x cond f).1.counts }))
    → (refused (find k f.objects) cond ≡ false
        → P (record {
          objects = assign k (record x { etag = etag_of (suc f.version) }) f.objects;
          version = suc f.version;
          counts = (put k x cond f).1.counts;
        }))
    → P (put k x cond f).1
unfolding put
put-cases P k x cond f kept written = ground (arith, kept, written)

-- What a text that a write leaves at a key is.
find-write :
    (k l : Text) (x o : Object) (m : List (Text × Object))
    → find l (assign k x m) ≡ some o
    → ((k ≡ l) × (x ≡ o)) ⊎ (find l m ≡ some o)
find-write k l x o m h = elim (Bool-cases (text_eq k l)) [
  | inl same ↦
      let e = (text_eq_iff k l).0 same in
      inl (e, some_inj.0 (sym (find-assign k x m) ∙ ap (λ j. find j (assign k x m)) e ∙ h))
  | inr other ↦
      inr (sym (find-assign_ne k l x m (λ e. ground (arith, e, other, text_eq_iff k l))) ∙ h)
]

put-Numbered :
    (k : Text) (x : Object) (cond : Cond) (f : Fake) → Numbered f → Numbered (put k x cond f).1
put-Numbered k x cond f n =
    put-cases Numbered k x cond f (λ r. n)
      λ r l o h. elim (find-write k l (record x { etag = etag_of (suc f.version) }) o f.objects h) [
        | inl (e, same) ↦ (suc f.version, ap (λ o. o.etag) (sym same), omega arith)
        | inr old ↦ IsVersion-suc (n l o old)
      ]

put-Retired :
    (key etag : Text) (k : Text) (x : Object) (cond : Cond) (f : Fake)
    → Retired key etag f
    → Retired key etag (put k x cond f).1
put-Retired key etag k x cond f t =
    put-cases (Retired key etag) k x cond f (λ r. record { known = t.known; gone = t.gone })
      λ r. record {
        known = IsVersion-suc t.known;
        gone = λ o h same.
            elim (find-write k key (record x { etag = etag_of (suc f.version) }) o f.objects h) [
              | inl (e, new) ↦
                  let (v, is, le) = t.known in
                  let again = etag_of-inj (suc f.version) v (ap (λ o. o.etag) new ∙ same ∙ is) in
                  omega (arith, again, le)
              | inr old ↦ t.gone o old same
            ];
      }

abbrev pub Write : Type 0
Write = Text × Object × Cond

abbrev pub writes : List Write → Fake → Fake
writes [] f = f
writes ((k, x, cond) ∷ ws) f = writes ws (put k x cond f).1

writes-Numbered : (ws : List Write) (f : Fake) → Numbered f → Numbered (writes ws f)
writes-Numbered [] f n = n
writes-Numbered ((k, x, cond) ∷ ws) f n = writes-Numbered ws _ (put-Numbered k x cond f n)

writes-Retired :
    (key etag : Text) (ws : List Write) (f : Fake)
    → Retired key etag f
    → Retired key etag (writes ws f)
writes-Retired key etag [] f t = t
writes-Retired key etag ((k, x, cond) ∷ ws) f t =
    writes-Retired key etag ws _ (put-Retired key etag k x cond f t)

-- An accepted write retires the version it replaces.
accepted-Retired :
    (key : Text) (x o : Object) (cond : Cond) (f : Fake)
    → Numbered f
    → find key f.objects ≡ some o
    → refused (some o) cond ≡ false
    → Retired key o.etag (put key x cond f).1
accepted-Retired key x o cond f n h a =
    put-cases (Retired key o.etag) key x cond f (λ r. absurd (ground (arith, h, a, r)))
      λ r. record {
        known = IsVersion-suc (n key o h);
        gone = λ p g same.
            let new = find-assign key (record x { etag = etag_of (suc f.version) }) f.objects in
            let (v, is, le) = n key o h in
            let again =
              etag_of-inj (suc f.version) v
                (ap (λ o. o.etag) (some_inj.0 (sym new ∙ g)) ∙ same ∙ is) in
            omega (arith, again, le);
      }

Retired-refused :
    (key etag : Text) (f : Fake)
    → etag ≢ []
    → Retired key etag f
    → outdated (find key f.objects) etag ≡ true
unfolding outdated
Retired-refused key [] f ne t = absurd (ne refl)
Retired-refused key (x ∷ xs) f ne t = elim (Option-cases (find key f.objects)) [
  | inl gone ↦ ground (arith, gone)
  | inr (o, h) ↦ ground (arith, h, t.gone o h, text_eq_iff o.etag (x ∷ xs))
]

put-outdated :
    (key : Text) (x : Object) (etag : Text) (f : Fake)
    → outdated (find key f.objects) etag ≡ true
    → let r = put key x (record { if_none_match = false; if_match = etag }) f in
      (r.0 ≡ err Err.precondition) × (r.1.objects ≡ f.objects)
unfolding put refused
put-outdated key x etag f h = ground (arith, h)

etag_of-ne : (n : ℕ) → etag_of n ≢ []
unfolding etag_of
etag_of-ne n h = ground (arith, h)

new_fake-Numbered : Numbered new_fake
unfolding find
new_fake-Numbered k o h = ground (arith, h)

-- In the store in memory, after any writes from its start: once a write to a key was accepted, the
-- version it replaced never comes back. Whatever is written afterwards, to this key or to others, a
-- write that asks for that version is refused, and changes no object.
pub stale_etag :
    (before after : List Write) (key : Text) (o x y : Object) (cond : Cond)
    → let f = writes before new_fake in
      find key f.objects ≡ some o
      → refused (some o) cond ≡ false
      → let f' = writes after (put key x cond (writes before new_fake)).1 in
        let r = put key y (record { if_none_match = false; if_match = o.etag }) f' in
        (r.0 ≡ err Err.precondition) × (r.1.objects ≡ f'.objects)
stale_etag before after key o x y cond h a =
    let f = writes before new_fake in
    let n = writes-Numbered before new_fake new_fake-Numbered in
    let f' = writes after (put key x cond f).1 in
    put-outdated key y o.etag f' (
      Retired-refused key o.etag f' (λ e. let (v, is, le) = n key o h in etag_of-ne v (sym is ∙ e))
        (writes-Retired key o.etag after _ (accepted-Retired key x o cond f n h a)))
