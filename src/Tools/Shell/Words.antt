-- ===== src/Tools/Shell/Words.antt =====
-- A shell reads a quoted text as one word.
use mathlib.Core.Path.{subst}
use agentgarage.Prelude.{
  ◌<◌, sym, ◌∙◌, ap, List, [], ◌∷◌, ◌++◌, Text, length, All, append-nil, arith, append_assoc, codes,
}
use agentgarage.Tools.Strings.{join, replace_all}
use agentgarage.Tools.Strings.Pieces.{Free, replace_all-join, split-Free, join-split, split-cons}
use agentgarage.Tools.Shell.{quote, quoted_quote, shell_quote}

abbrev pub one : 0 < length quote
one = omega arith

-- `Reads t w`: in the text t a shell reads the word w, and then what follows the word.
module _ (Reads : Text → Text → Type 0)
    (quoted : (t s w : Text)
      → Free quote one t
      → Reads s w
      → Reads (quote ++ (t ++ (quote ++ s))) (t ++ w))
    (escaped : (s w : Text) → Reads s w → Reads (codes "\\'" ++ s) (quote ++ w)) where
  pieces-Reads :
      (p : Text) (ps : List Text) (rest : Text)
      → Reads rest []
      → All (Free quote one) (p ∷ ps)
      → Reads (quote ++ (join quoted_quote (p ∷ ps) ++ (quote ++ rest))) (join quote (p ∷ ps))
  unfolding join
  pieces-Reads p [] rest e f =
      subst (Reads (quote ++ (p ++ (quote ++ rest)))) (append-nil p) (quoted p rest [] f.0 e)
  pieces-Reads p (q ∷ ps) rest e f =
      subst (λ t. Reads (quote ++ t) (p ++ (quote ++ join quote (q ∷ ps))))
        (sym (append_assoc p (quoted_quote ++ join quoted_quote (q ∷ ps)) (quote ++ rest)))
        (quoted p (codes "\\'" ++ (quote ++ (join quoted_quote (q ∷ ps) ++ (quote ++ rest))))
          (quote ++ join quote (q ∷ ps)) f.0 (escaped _ _ (pieces-Reads q ps rest e f.1)))

  -- Where a shell takes what stands between two single quotes, and no quote among it, as it is, and
  -- a backslash before a quote for the quote: a text that `shellQuote` quoted is read as the text
  -- itself, whatever it contains, in front of everything that ends a word.
  pub shell_quote-Reads : (s rest : Text) → Reads rest [] → Reads (shell_quote s ++ rest) s
  unfolding shell_quote
  shell_quote-Reads s rest e =
      let (p, ps, cons) = split-cons quote one s in
      subst (λ t. Reads (quote ++ t) s)
        (ap (λ ts. join quoted_quote ts ++ (quote ++ rest)) (sym cons)
          ∙ ap (λ t. t ++ (quote ++ rest)) (sym (replace_all-join quote one quoted_quote s))
          ∙ sym (append_assoc (replace_all quote quoted_quote s) quote rest))
        (subst (Reads (quote ++ (join quoted_quote (p ∷ ps) ++ (quote ++ rest))))
          (ap (join quote) (sym cons) ∙ join-split quote one s)
          (pieces-Reads p ps rest e (subst (All (Free quote one)) cons (split-Free quote one s))))
