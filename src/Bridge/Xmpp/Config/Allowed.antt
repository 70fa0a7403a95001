-- ===== src/Bridge/Xmpp/Config/Allowed.antt =====
-- Whom an accepted configuration lets in.
use agentgarage.Prelude.{
  ◌≡◌, ◌≢◌, refl, sym, ap, ◌∙◌, inl, inr, Bool, true, false, not, ◌||◌, Option, none, some, List,
  [], ◌∷◌, ◌++◌, Text, text_eq, text_eq_iff, text_eq_refl, map, if◌then◌else◌, Attempt, failure,
  success, arith, Bool-cases,
}
use mathlib.Core.Path.{subst}
use agentgarage.Bridge.Lines.{trim_space}
use agentgarage.Bridge.Xmpp.Schedule.{ScheduleError, validate}
use agentgarage.Bridge.Xmpp.Stanzas.{Addresses, is_allowed}
use agentgarage.Bridge.Xmpp.Config.{
  Config, ConfigError, Checked, refused, accepted, bad_jid, bad_username, empty_username,
  empty_password, nil_agent, nil_sandboxes, empty_sandbox_name, empty_model, nobody_allowed, Parser,
  user_address, with_bare, allow_all, for_account, by_schedule, for_user, check, is_none,
}

module _ {J : Type 0} (a : Addresses J) (p : Parser J) where
  -- No address twice.
  abbrev pub Distinct : List Text → Type 0
  unfolding is_allowed
  Distinct [] = Unit
  Distinct (t ∷ ts) = (is_allowed ts t ≡ false) × Distinct ts

  abbrev shown_of : Attempt J → Text
  shown_of (failure e) = []
  shown_of (success j) = a.shown (a.bare j)

  -- The bare address that a text is read as.
  abbrev bare_text : Text → Text
  unfolding user_address
  bare_text raw = shown_of (user_address a p (trim_space raw))

  is_allowed-append :
      (ts us : List Text) (t : Text)
      → is_allowed (ts ++ us) t ≡ (is_allowed ts t || is_allowed us t)
  unfolding is_allowed
  is_allowed-append [] us t = refl
  is_allowed-append (x ∷ xs) us t = rw (is_allowed-append xs us t) ground arith

  text_eq_sym : (x y : Text) → text_eq x y ≡ text_eq y x
  text_eq_sym x y = elim (Bool-cases (text_eq x y)) [
    | inl h ↦ let e = (text_eq_iff x y).0 h in rw e refl
    | inr h ↦ h ∙ sym (differ h)
  ]
    where
      differ : text_eq x y ≡ false → text_eq y x ≡ false
      differ h = elim (Bool-cases (text_eq y x)) [
        | inl k ↦
            absurd
              (ground (arith, h, ap (λ z. text_eq x z) ((text_eq_iff y x).0 k), text_eq_refl x))
        | inr k ↦ k
      ]

  Distinct-append :
      (ts : List Text) (t : Text) → is_allowed ts t ≡ false → Distinct ts → Distinct (ts ++ t ∷ [])
  unfolding is_allowed Distinct
  Distinct-append [] t new d = (refl, tt)
  Distinct-append (x ∷ xs) t new d = (
    is_allowed-append xs (t ∷ []) x ∙ ground (arith, d.0, new, text_eq_sym x t),
    Distinct-append xs t (ground (arith, new)) d.1,
  )

  abbrev texts : List J → List Text
  texts allowed = map a.shown allowed

  accepted-inj : {A : Type 0} {x y : A} → accepted x ≡ accepted y → x ≡ y
  accepted-inj {A} {x} h = ap (λ r. elim r [ accepted z ↦ z | refused e ↦ x ]) h

  texts-append : (js ks : List J) → texts (js ++ ks) ≡ texts js ++ texts ks
  texts-append [] ks = refl
  texts-append (j ∷ js) ks = ap (◌∷◌ (a.shown j)) (texts-append js ks)

  with_bare-Distinct :
      (j : J) (allowed : List J)
      → Distinct (texts allowed)
      → Distinct (texts (with_bare a p j allowed))
  unfolding with_bare
  with_bare-Distinct j allowed d =
      elim (Bool-cases (is_allowed (texts allowed) (a.shown (a.bare j)))) [
        | inl there ↦ rw there d
        | inr new ↦
            rw (new, texts-append allowed (a.bare j ∷ []))
              (Distinct-append (texts allowed) (a.shown (a.bare j)) new d)
      ]

  listed :
      (ts : List Text) (x t : Text)
      → is_allowed ts x ≡ true
      → is_allowed ts t ≡ (is_allowed ts t || text_eq x t)
  listed ts x t h = elim (Bool-cases (text_eq x t)) [
    | inl same ↦ rw (same, sym ((text_eq_iff x t).0 same), h) refl
    | inr other ↦ rw other (ground arith)
  ]

  with_bare_lem :
      (j : J) (allowed : List J) (t : Text)
      → is_allowed (texts (with_bare a p j allowed)) t
        ≡ (is_allowed (texts allowed) t || text_eq (a.shown (a.bare j)) t)
  unfolding with_bare
  with_bare_lem j allowed t = elim (Bool-cases (is_allowed (texts allowed) (a.shown (a.bare j)))) [
    | inl there ↦ rw there (listed (texts allowed) (a.shown (a.bare j)) t there)
    | inr new ↦
        rw
          (
            new,
            texts-append allowed (a.bare j ∷ []),
            is_allowed-append (texts allowed) (a.shown (a.bare j) ∷ []) t,
          )
          (ground arith)
  ]

  -- What an accepted list lets in, beside those that were let in before.
  abbrev Lets : List J → List Text → List J → Type 0
  Lets before rs out =
      Distinct (texts out)
      × ((t : Text)
          → is_allowed (texts out) t
            ≡ (is_allowed (texts before) t || is_allowed (map bare_text rs) t))

  allow_all-Lets :
      (rs : List Text) (before out : List J)
      → Distinct (texts before)
      → allow_all a p rs before ≡ accepted out
      → Lets before rs out
  unfolding allow_all
  allow_all-Lets [] before out d h = subst (Lets before []) (accepted-inj h) (d, λ t. ground arith)
  allow_all-Lets (raw ∷ rs) before out d h =
      by_address (λ js. allow_all-Lets rs js out) (user_address a p (trim_space raw)) refl h
    where
      by_address :
          (rest : (js : List J)
            → Distinct (texts js)
            → allow_all a p rs js ≡ accepted out
            → Lets js rs out)
          (r : Attempt J)
          → user_address a p (trim_space raw) ≡ r
          → elim r [
            | failure e ↦ refused (bad_jid (trim_space raw) e)
            | success j ↦ allow_all a p rs (with_bare a p j before)
          ]
            ≡ accepted out
          → Lets before (raw ∷ rs) out
      by_address rest (failure e) same h = absurd (ground (arith, h))
      by_address rest (success j) same h =
          let (distinct, lets) = rest (with_bare a p j before) (with_bare-Distinct j before d) h in
          (distinct, λ t. lets t ∙ rw (same, with_bare_lem j before t) (ground arith))

  let_through :
      {A : Type 0} (b : Bool) (e : ConfigError) (x : Checked A) (y : A)
      → (if b then refused e else x) ≡ accepted y
      → (b ≡ false) × (x ≡ accepted y)
  let_through true e x y h = absurd (ground (arith, h))
  let_through false e x y h = (refl, h)

  for_user-allow_all :
      (c : Config) (user account : J) (allowed : List J)
      → for_user a p c user ≡ accepted (account, allowed)
      → (is_none a p c.allowed_jids ≡ false) × (allow_all a p c.allowed_jids [] ≡ accepted allowed)
  unfolding for_user
  for_user-allow_all c user account allowed h =
      let h1 = (let_through (text_eq c.password []) empty_password _ _ h).1 in
      let h2 = (let_through (not c.has_agent) nil_agent _ _ h1).1 in
      let h3 = (let_through (not c.has_sandboxes) nil_sandboxes _ _ h2).1 in
      let h4 = (let_through (text_eq (trim_space c.sandbox_name) []) empty_sandbox_name _ _ h3).1 in
      let h5 = (let_through (text_eq (trim_space c.model) []) empty_model _ _ h4).1 in
      let (somebody, h6) = let_through (is_none a p c.allowed_jids) nobody_allowed _ _ h5 in
      (somebody, by_schedule_error (validate c.schedule) h6)
    where
      by_list :
          (r : Checked (List J))
          → for_account a p user r ≡ accepted (account, allowed)
          → r ≡ accepted allowed
      by_list (refused e) h = absurd (ground (arith, h))
      by_list (accepted js) h = ap (λ r. accepted r.1) (accepted-inj h)

      by_schedule_error :
          (e : Option ScheduleError)
          → by_schedule a p c user e ≡ accepted (account, allowed)
          → allow_all a p c.allowed_jids [] ≡ accepted allowed
      by_schedule_error (some e) h = absurd (ground (arith, h))
      by_schedule_error none h = by_list (allow_all a p c.allowed_jids []) h

  check-for_user :
      (c : Config) (r : J × List J)
      → check a p c ≡ accepted r
      → (user : J) × (for_user a p c user ≡ accepted r)
  unfolding check
  check-for_user c r h =
      by_address (user_address a p (trim_space c.username))
        (let_through (text_eq (trim_space c.username) []) empty_username _ _ h).1
    where
      by_address :
          (u : Attempt J)
          → elim u [
            | failure e ↦ refused (bad_username (trim_space c.username) e)
            | success account ↦ for_user a p c account
          ]
            ≡ accepted r
          → (user : J) × (for_user a p c user ≡ accepted r)
      by_address (failure e) h = absurd (ground (arith, h))
      by_address (success user) h = (user, h)

  -- The people that an accepted configuration lets in are the bare addresses of those that it names,
  -- each once; it names somebody, and each it names is a user at a domain.
  check-Lets :
      (c : Config) (account : J) (allowed : List J)
      → check a p c ≡ accepted (account, allowed)
      → Distinct (texts allowed)
        × ((t : Text) → is_allowed (texts allowed) t ≡ is_allowed (map bare_text c.allowed_jids) t)
        × (c.allowed_jids ≢ [])
  unfolding Distinct
  check-Lets c account allowed h =
      let (user, h1) = check-for_user c (account, allowed) h in
      let (somebody, h2) = for_user-allow_all c user account allowed h1 in
      let (distinct, lets) = allow_all-Lets c.allowed_jids [] allowed tt h2 in
      (distinct, lets, λ none_named. ground (arith, somebody, none_named))
