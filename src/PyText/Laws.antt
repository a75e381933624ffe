-- ===== src/PyText/Laws.antt =====
-- Laws of the text functions of PyText.
use prover.Prelude.{
  ℕ, ◌+◌, ◌-◌, ◌*◌, ◌≡◌, refl, Bool, true, false, none, some, [], ◌∷◌, ◌++◌, Text, ◌==◌, All, arith,
  ap, ◌∙◌, sym, subst, All-mono,
}
use prover.Prelude.Decimal.{
  is_digit, decimal, value_after, value_after-decimal, decimal-digits, decimal-cons,
}
use prover.Prelude.Int.{pos}
use prover.PyText.{
  is_space, lstrip_by, rstrip_by, strip, split_first, split_last, scan_digits, signed, int_of,
}

-- A text with no space is its own `strip`.
rstrip_by_none : (p : ℕ → Bool) (s : Text) → All (λ c. p c ≡ false) s → rstrip_by p s ≡ s
unfolding rstrip_by
rstrip_by_none p [] h = refl
rstrip_by_none p (c ∷ cs) (h, hs) = ground (arith, rstrip_by_none p cs hs)

lstrip_by_none : (p : ℕ → Bool) (s : Text) → All (λ c. p c ≡ false) s → lstrip_by p s ≡ s
unfolding lstrip_by
lstrip_by_none p [] h = refl
lstrip_by_none p (c ∷ cs) (h, hs) = ground arith

pub strip_none : (s : Text) → All (λ c. is_space c ≡ false) s → strip s ≡ s
unfolding strip
strip_none s h = ap (rstrip_by is_space) (lstrip_by_none is_space s h) ∙ rstrip_by_none is_space s h

-- After the last separator there is none.
split_last-none : (sep : ℕ) (s : Text) → All (λ c. (c == sep) ≡ false) s → split_last sep s ≡ none
unfolding split_last
split_last-none sep [] h = refl
split_last-none sep (c ∷ cs) (h, hs) = ground (arith, split_last-none sep cs hs)

pub split_last-append :
    (sep : ℕ) (s t : Text)
    → All (λ c. (c == sep) ≡ false) t
    → split_last sep (s ++ sep ∷ t) ≡ some (s, t)
unfolding split_last
split_last-append sep [] t h = ground (arith, split_last-none sep t h)
split_last-append sep (c ∷ cs) t h = ground (arith, split_last-append sep cs t h)

pub split_first-append :
    (sep : ℕ) (s t : Text)
    → All (λ c. (c == sep) ≡ false) s
    → split_first sep (s ++ sep ∷ t) ≡ some (s, t)
unfolding split_first
split_first-append sep [] t h = ground arith
split_first-append sep (c ∷ cs) t (h, hs) = ground (arith, split_first-append sep cs t hs)

scan_digits-value_after :
    (n : ℕ) (s : Text)
    → All (λ c. is_digit c ≡ true) s
    → scan_digits true n s ≡ some (value_after n s)
unfolding scan_digits value_after
scan_digits-value_after n [] h = refl
scan_digits-value_after n (c ∷ cs) (h, hs) =
    ground (arith, scan_digits-value_after (n * 10 + (c - 48)) cs hs)

signed-digits :
    (c : ℕ) (cs : Text)
    → All (λ c. is_digit c ≡ true) (c ∷ cs)
    → signed (c ∷ cs) ≡ some (pos (value_after 0 (c ∷ cs)))
unfolding signed value_after
signed-digits c cs (h, hs) = ground (arith, scan_digits-value_after (0 * 10 + (c - 48)) cs hs)

pub digit_is_no_space : (c : ℕ) → is_digit c ≡ true → is_space c ≡ false
unfolding is_space
digit_is_no_space c h = ground arith

-- `int` of a text of digits is the number they denote.
pub int_of-digits :
    (c : ℕ) (cs : Text)
    → All (λ c. is_digit c ≡ true) (c ∷ cs)
    → int_of (c ∷ cs) ≡ some (pos (value_after 0 (c ∷ cs)))
unfolding int_of
int_of-digits c cs h =
    ap signed (strip_none (c ∷ cs) (All-mono (λ c h. digit_is_no_space c h) (c ∷ cs) h))
    ∙ signed-digits c cs h

pub decimal_no_space : (n : ℕ) → All (λ c. is_space c ≡ false) (decimal n)
decimal_no_space n = All-mono (λ c h. digit_is_no_space c h) (decimal n) (decimal-digits n)

pub decimal_no_colon : (n : ℕ) → All (λ c. (c == b':') ≡ false) (decimal n)
decimal_no_colon n =
    All-mono (λ c (h : is_digit c ≡ true). ground arith) (decimal n) (decimal-digits n)

signed-decimal : (n : ℕ) → signed (decimal n) ≡ some (pos n)
signed-decimal n =
    let (d, ds, e) = decimal-cons n in
    ap signed e
    ∙ signed-digits d ds (subst (All (λ c. is_digit c ≡ true)) e (decimal-digits n))
    ∙ ap (λ s. some (pos (value_after 0 s))) (sym e)
    ∙ ap (λ k. some (pos k)) (value_after-decimal n)

-- `int` reads what `str` prints.
pub int_of-decimal : (n : ℕ) → int_of (decimal n) ≡ some (pos n)
unfolding int_of
int_of-decimal n = ap signed (strip_none (decimal n) (decimal_no_space n)) ∙ signed-decimal n

module _ (P : ℕ → Type 0) where
  pub All-append : (s t : Text) → All P s → All P t → All P (s ++ t)
  All-append [] t h k = k
  All-append (c ∷ cs) t (h, hs) k = (h, All-append cs t hs k)
