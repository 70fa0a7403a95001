-- ===== src/Tools/Read/Paging.antt =====
-- Reading a file window by window.
use agentgarage.Prelude.{
  ℕ, zero, suc, ◌+◌, ◌-◌, ◌^◌, ◌≤◌, ◌<◌, ◌≡◌, ◌≢◌, refl, sym, ap, ◌∙◌, ltb, leb, true, false, List,
  [], ◌∷◌, ◌++◌, Text, inl, inr, Bool-cases, text_eq, text_eq_iff, length, length-take, length-drop,
  take-append-drop, take, drop, arith, if◌then◌else◌, append_assoc, codes, itoa,
}
use agentgarage.Tools.Strings.Pieces.{length-split}
use agentgarage.Tools.Read.{
  trim_newline, ℤ, pos, negsuc, number_lines, window, last_line, row, rows, between, lines_of,
  before, int64, clip_line, pad,
}

-- The number after a window's last line, if more lines follow it.
abbrev after : ℤ → ℕ
after (pos n) = suc n
after (negsuc n) = 0

-- The texts of the windows that a reader gets who follows each window's note to its next.
unfoldable pub pages : ℕ → Text → ℕ → ℕ → Text
pages zero content limit offset = []
pages (suc fuel) content limit offset =
    let w = number_lines content offset limit in
    let rest = pages fuel content limit (after w.to) in
    if before w.to w.total then w.text ++ rest else w.text

abbrev blanks : ℕ → Text
blanks zero = []
blanks (suc n) = 32 ∷ blanks n

-- What is shown of a line.
abbrev pub text_shown : Text → Text
text_shown line =
    if ltb 2000 (length line)
    then take 2000 line
      ++ (codes "… [line clipped: " ++ (itoa (length line) ++ codes " characters total]"))
    else line

-- Numbered lines: each number right-aligned in six columns, a tab, the line, a newline.
abbrev pub numbered : ℕ → List Text → Text
numbered i [] = []
numbered i (line ∷ ls) =
    (blanks (6 - length (itoa i)) ++ (itoa i ++ (9 ∷ (text_shown line ++ (10 ∷ [])))))
    ++ numbered (suc i) ls

take-blanks : (n k : ℕ) → n ≤ k → take n (blanks k) ≡ blanks n
take-blanks zero k h = refl
take-blanks (suc n) zero h = absurd (omega arith)
take-blanks (suc n) (suc k) h = ap (λ t. 32 ∷ t) (take-blanks n k (omega arith))

clip_line-shown : (line : Text) → (clip_line line).0 ≡ text_shown line
unfolding clip_line
clip_line-shown line = elim (Bool-cases (ltb 2000 (length line))) [
  | inl long ↦ let e : leb (length line) 2000 ≡ false = ground (arith, long) in rw (long, e) refl
  | inr fits ↦ let e : leb (length line) 2000 ≡ true = ground (arith, fits) in rw (fits, e) refl
]

row-numbered :
    (i : ℕ) (line : Text)
    → row i line ≡ blanks (6 - length (itoa i)) ++ (itoa i ++ (9 ∷ (text_shown line ++ (10 ∷ []))))
unfolding row pad
row-numbered i line =
    ap (λ t. (take (6 - length (itoa i)) (codes "      ") ++ itoa i) ++ (9 ∷ (t ++ (10 ∷ []))))
      (clip_line-shown line)
    ∙ append_assoc (take (6 - length (itoa i)) (codes "      ")) (itoa i)
        (9 ∷ (text_shown line ++ (10 ∷ [])))
    ∙ ap (λ t. t ++ (itoa i ++ (9 ∷ (text_shown line ++ (10 ∷ [])))))
        (take-blanks (6 - length (itoa i)) 6 (omega arith))

rows-numbered : (i : ℕ) (ls : List Text) → rows i ls ≡ numbered i ls
unfolding rows
rows-numbered i [] = refl
rows-numbered i (line ∷ ls) =
    ap (λ t. t ++ rows (suc i) ls) (row-numbered i line)
    ∙ ap
        (λ t.
          (blanks (6 - length (itoa i)) ++ (itoa i ++ (9 ∷ (text_shown line ++ (10 ∷ []))))) ++ t)
        (rows-numbered (suc i) ls)

rows-append : (i : ℕ) (ls ms : List Text) → rows i (ls ++ ms) ≡ rows i ls ++ rows (i + length ls) ms
unfolding rows
rows-append i [] ms = ap (λ n. rows n ms) (let e : i ≡ i + 0 = omega arith in e)
rows-append i (l ∷ ls) ms =
    ap (λ t. row i l ++ t)
      (rows-append (suc i) ls ms
        ∙ ap (λ n. rows (suc i) ls ++ rows n ms)
            (let e : suc i + length ls ≡ i + suc (length ls) = omega arith in e))
    ∙ sym (append_assoc (row i l) (rows (suc i) ls) (rows (i + suc (length ls)) ms))

rows-cut :
    (i n : ℕ) (ls : List Text)
    → n ≤ length ls
    → rows i (take n ls) ++ rows (i + n) (drop n ls) ≡ rows i ls
rows-cut i n ls h =
    ap (λ k. rows i (take n ls) ++ rows (i + k) (drop n ls))
      (let e : n ≡ length (take n ls) = omega (arith, length-take n ls) in e)
    ∙ sym (rows-append i (take n ls) (drop n ls))
    ∙ ap (rows i) (take-append-drop n ls)

module _ {ℓ} {A : Type ℓ} where
  drop-nil : (n : ℕ) → drop {A = A} n [] ≡ []
  drop-nil zero = refl
  drop-nil (suc n) = refl

  drop-drop : (m n : ℕ) (xs : List A) → drop n (drop m xs) ≡ drop (m + n) xs
  drop-drop zero n xs = ap (λ k. drop k xs) (let e : n ≡ 0 + n = omega arith in e)
  drop-drop (suc m) n [] = drop-nil n ∙ sym (drop-nil (suc m + n))
  drop-drop (suc m) n (x ∷ xs) =
      drop-drop m n xs
      ∙ ap (λ k. drop k (x ∷ xs)) (let e : suc (m + n) ≡ suc m + n = omega arith in e)

  take-all : (n : ℕ) (xs : List A) → length xs ≤ n → take n xs ≡ xs
  take-all zero [] h = refl
  take-all zero (x ∷ xs) h = absurd (omega arith)
  take-all (suc n) [] h = refl
  take-all (suc n) (x ∷ xs) h = ap (λ t. x ∷ t) (take-all n xs (omega arith))

-- A file of lines, with a limit that 64 bits can add to each of their numbers.
module _ (content : Text) (limit : ℕ) (some_lines : 0 < limit)
    (fits : length (lines_of content) + limit < 2 ^ 63) where
  abbrev ls : List Text
  ls = lines_of content

  last_line-more :
      (from : ℕ)
      → from + limit - 1 < length ls
      → last_line from limit (length ls) ≡ pos (from + limit - 1)
  unfolding last_line int64 before
  last_line-more from h = ground arith

  last_line-end :
      (from : ℕ)
      → from ≤ length ls
      → length ls ≤ from + limit - 1
      → last_line from limit (length ls) ≡ pos (length ls)
  unfolding last_line int64 before
  last_line-end from le h = ground arith

  next :
      (from n m : ℕ) (rest : Text)
      → m ≡ from + n
      → 0 < from
      → from - 1 + n ≤ length ls
      → rest ≡ rows m (drop (m - 1) ls)
      → rows from (take n (drop (from - 1) ls)) ++ rest ≡ rows from (drop (from - 1) ls)
  next from n m rest e p h ih =
      ap (λ t. rows from (take n (drop (from - 1) ls)) ++ t)
        (ih
          ∙ ap (λ k. rows k (drop (k - 1) ls)) e
          ∙ ap (λ k. rows (from + n) (drop k ls))
              (let e' : from + n - 1 ≡ from - 1 + n = omega (arith, p) in e')
          ∙ ap (rows (from + n)) (sym (drop-drop (from - 1) n ls)))
      ∙ rows-cut from n (drop (from - 1) ls) (omega (arith, length-drop (from - 1) ls))

  pages_from-rows :
      (fuel from : ℕ)
      → content ≢ []
      → 0 < from
      → from ≤ length ls
      → length ls < fuel + from
      → pages fuel content limit from ≡ rows from (drop (from - 1) ls)
  unfolding pages number_lines window between before
  pages_from-rows zero from c p le f = absurd (omega arith)
  pages_from-rows (suc fuel) from c p le f =
      let written : text_eq content [] ≡ false = ground (arith, text_eq_iff content [], c) in
      let low : ltb from 1 ≡ false = ground (arith, p) in
      let inside : ltb (length ls) from ≡ false = ground (arith, le) in
      let not_after : ltb (length ls) (length ls) ≡ false = ground arith in
      elim (Bool-cases (ltb (from + limit - 1) (length ls))) [
        | inl more ↦
            rw (written, low, inside, last_line-more from (ground (arith, more)), more)
              (next from (suc (from + limit - 1) - from) (suc (from + limit - 1)) _ (omega arith) p
                (ground (arith, more))
                (pages_from-rows fuel (suc (from + limit - 1)) c (omega arith)
                  (ground (arith, more)) (omega arith)))
        | inr none_left ↦
            rw (written, low, inside, last_line-end from le (ground (arith, none_left)), not_after)
              (ap (rows from) (take-all _ _ (omega (arith, length-drop (from - 1) ls))))
      ]

  lines_of-some : 0 < length ls
  unfolding lines_of
  lines_of-some = omega (arith, length-split (codes "\n") (omega arith) (trim_newline content))

  -- For a file that is not empty and a positive limit, below 2^63 together with the number of its
  -- lines: reading window by window, each from where the note of the last one says, ends within as
  -- many windows as there are lines, and shows every line once, in order, behind its number in six
  -- columns and a tab; a line of more than 2000 characters is clipped to its first 2000, with a note
  -- of how many it has.
  pub pages-numbered : content ≢ [] → pages (length ls) content limit 1 ≡ numbered 1 ls
  pages-numbered c =
      pages_from-rows (length ls) 1 c (omega arith) lines_of-some (omega arith) ∙ rows-numbered 1 ls

-- For a line number inside the file and a limit of 64 bits whose sum, less one, is 2^63 or more: the
-- last line wraps round to a negative number, and the window is empty, though the line is there.
pub overflow_hides :
    (content : Text) (offset limit : ℕ)
    → content ≢ []
    → 0 < offset
    → offset ≤ length (lines_of content)
    → length (lines_of content) < 2 ^ 63
    → limit < 2 ^ 63
    → 2 ^ 63 ≤ offset + limit - 1
    → ((number_lines content offset limit).text ≡ [])
      × ((number_lines content offset limit).to ≡ negsuc (2 ^ 64 - 1 - (offset + limit - 1)))
      × ((number_lines content offset limit).total ≡ length (lines_of content))
unfolding number_lines window last_line int64 before rows between
overflow_hides content offset limit c p le total small big =
    let written : text_eq content [] ≡ false = ground (arith, text_eq_iff content [], c) in
    let low : ltb offset 1 ≡ false = ground (arith, p) in
    let inside : ltb (length (lines_of content)) offset ≡ false = ground (arith, le) in
    let asked : ltb 0 limit ≡ true = ground (arith, small, big, le, total) in
    let wraps : ltb (offset + limit - 1) (2 ^ 63) ≡ false = ground (arith, big) in
    rw (written, low, inside, asked, wraps) (refl, refl, refl)
