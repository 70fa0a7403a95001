-- ===== src/Bucket/Mail/Folding.antt =====
-- What a callback that never fails makes of the mail: what it makes of the messages one after the
-- other.
use agentgarage.Prelude.{
  ℕ, zero, suc, ◌≡◌, refl, sym, ap, ◌∙◌, Option, none, some, List, [], ◌∷◌, ◌++◌, Text,
}
use agentgarage.Bucket.Types.{Err, Store}
use agentgarage.Bucket.Client.{Crypto, Client, Sent, get}
use agentgarage.Bucket.Mail.{Message, Codec, key, Move, Read, receive, move}
use agentgarage.Bucket.Mail.Receiving.{keep}

module _ {V : Type 0} (f : ℕ → Message → V → V) where
  abbrev pub folded : List (ℕ × Message) → V → V
  folded [] v = v
  folded ((n, m) ∷ l) v = folded l (f n m v)

  folded-append :
      (l : List (ℕ × Message)) (n : ℕ) (m : Message) (v : V)
      → folded (l ++ (n, m) ∷ []) v ≡ f n m (folded l v)
  folded-append [] n m v = refl
  folded-append ((k, x) ∷ l) n m v = folded-append l n m (f k x v)

  abbrev pub never_fails : ℕ → Message → V → Option Err × V
  never_fails n m v = (none, f n m v)

  abbrev pub through : {W : Type 0} → V → Option (Read (List (ℕ × Message)) W) → Option (Read V W)
  through v none = none
  through v (some r) =
      some (record { next = r.next; error = r.error; seen = folded r.seen v; sent = r.sent })

module _ {V W : Type 0} (c : Crypto) (store : Store W) (cl : Client) (name : Text) (j : Codec)
    (f : ℕ → Message → V → V) (box : Text) where
  pub receive-folded :
      (fuel n : ℕ) (v : V) (seen : List (ℕ × Message)) (s : Sent W)
      → receive c store cl name j (never_fails f) box fuel n (folded f seen v) s
        ≡ through f v (receive c store cl name j keep box fuel n seen s)
  unfolding receive
  receive-folded zero n v seen s = refl
  receive-folded (suc fuel) n v seen s =
      let s' = (get c store cl name (key box n) s).1 in
      by_move (move j (get c store cl name (key box n) s).0)
        (λ seen. receive-folded fuel (suc n) v seen s')
    where
      by_move :
          (k : Move)
          → ((seen' : List (ℕ × Message))
              → receive c store cl name j
                  (never_fails f)
                  box
                  fuel
                  (suc n)
                  (folded f seen' v)
                  (get c store cl name (key box n) s).1
                ≡ through f v (
                    receive c store cl name j keep box fuel
                      (suc n)
                      seen'
                      (get c store cl name (key box n) s).1))
          → elim k [
            | Move.stop ↦ some (record {
              next = n;
              error = none;
              seen = folded f seen v;
              sent = (get c store cl name (key box n) s).1;
            })
            | Move.skip ↦
                receive c store cl name j
                  (never_fails f)
                  box
                  fuel
                  (suc n)
                  (folded f seen v)
                  (get c store cl name (key box n) s).1
            | Move.give_up e ↦ some (record {
              next = n;
              error = some e;
              seen = folded f seen v;
              sent = (get c store cl name (key box n) s).1;
            })
            | Move.take m ↦
                receive c store cl name j
                  (never_fails f)
                  box
                  fuel
                  (suc n)
                  (f n m (folded f seen v))
                  (get c store cl name (key box n) s).1
          ]
            ≡ through f v (elim k [
              | Move.stop ↦ some (record {
                next = n;
                error = none;
                seen = seen;
                sent = (get c store cl name (key box n) s).1;
              })
              | Move.skip ↦
                  receive c store cl name j keep box fuel
                    (suc n)
                    seen
                    (get c store cl name (key box n) s).1
              | Move.give_up e ↦ some (record {
                next = n;
                error = some e;
                seen = seen;
                sent = (get c store cl name (key box n) s).1;
              })
              | Move.take m ↦
                  receive c store cl name j keep box fuel
                    (suc n)
                    (seen ++ (n, m) ∷ [])
                    (get c store cl name (key box n) s).1
            ])
      by_move Move.stop go = refl
      by_move Move.skip go = go seen
      by_move (Move.give_up e) go = refl
      by_move (Move.take m) go =
          ap
            (λ x.
              receive c store cl name j (never_fails f) box fuel (suc n) x
                (get c store cl name (key box n) s).1)
            (sym (folded-append f seen n m v))
          ∙ go (seen ++ (n, m) ∷ [])
