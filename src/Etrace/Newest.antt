-- ===== src/Etrace/Newest.antt =====
-- Lists of samples, and their sums in 64 bits.
use rabbits.Base.{
  ℕ, zero, suc, ◌+◌, ◌≤◌, ◌≡◌, ◌∙◌, refl, sym, ap, ap₂, List, [], ◌∷◌, ◌++◌, length, set, take,
  length-append, arith,
}
use rabbits.Etrace.{word64}
use rabbits.Etrace.Cells.{word64_left}
use rabbits.Etrace.Average.{accumulate}

abbrev pub sum : List ℕ → ℕ
sum [] = 0
sum (x ∷ xs) = x + sum xs

pub word64_idem : (a : ℕ) → word64 (word64 a) ≡ word64 a
unfolding word64
word64_idem a = omega arith

pub accumulate-eq :
    (acc : ℕ) (xs : List ℕ) → word64 acc ≡ acc → accumulate acc xs ≡ word64 (acc + sum xs)
unfolding accumulate
accumulate-eq acc [] h = sym h ∙ ap word64 (omega arith)
accumulate-eq acc (x ∷ xs) h =
    accumulate-eq (word64 (acc + x)) xs (word64_idem (acc + x))
    ∙ word64_left (acc + x) (sum xs)
    ∙ ap word64 (omega arith)

pub sum-append : (xs ys : List ℕ) → sum (xs ++ ys) ≡ sum xs + sum ys
sum-append [] ys = omega arith
sum-append (x ∷ xs) ys = omega (arith, sum-append xs ys)

abbrev pub rev : List ℕ → List ℕ
rev [] = []
rev (x ∷ xs) = rev xs ++ x ∷ []

pub sum-rev : (xs : List ℕ) → sum (rev xs) ≡ sum xs
sum-rev [] = refl
sum-rev (x ∷ xs) = omega (arith, sum-append (rev xs) (x ∷ []), sum-rev xs)

pub length-rev : (xs : List ℕ) → length (rev xs) ≡ length xs
length-rev [] = refl
length-rev (x ∷ xs) = omega (arith, length-append (rev xs) (x ∷ []), length-rev xs)

pub rev-snoc : (xs : List ℕ) (x : ℕ) → rev (xs ++ x ∷ []) ≡ x ∷ rev xs
rev-snoc [] x = refl
rev-snoc (y ∷ ys) x = ap (λ zs. zs ++ y ∷ []) (rev-snoc ys x)

pub take_all : (n : ℕ) (xs : List ℕ) → length xs ≤ n → take n xs ≡ xs
take_all zero [] h = refl
take_all zero (x ∷ xs) h = absurd (omega arith)
take_all (suc n) [] h = refl
take_all (suc n) (x ∷ xs) h = ap (λ ys. x ∷ ys) (take_all n xs (omega arith))

pub take-append : (xs ys : List ℕ) → take (length xs) (xs ++ ys) ≡ xs
take-append [] ys = refl
take-append (x ∷ xs) ys = ap (λ zs. x ∷ zs) (take-append xs ys)

pub set-append : (xs ys : List ℕ) (a b : ℕ) → set (xs ++ a ∷ ys) (length xs) b ≡ xs ++ b ∷ ys
set-append [] ys a b = refl
set-append (x ∷ xs) ys a b = ap (λ zs. x ∷ zs) (set-append xs ys a b)

pub append_assoc : (xs ys zs : List ℕ) → (xs ++ ys) ++ zs ≡ xs ++ (ys ++ zs)
append_assoc [] ys zs = refl
append_assoc (x ∷ xs) ys zs = ap (λ l. x ∷ l) (append_assoc xs ys zs)

abbrev pub tail : List ℕ → List ℕ
tail [] = []
tail (_ ∷ xs) = xs

abbrev pub first : List ℕ → ℕ
first [] = 0
first (x ∷ _) = x

-- The first `n` of `n + 1` elements.
pub take_before :
    (n : ℕ) (xs ys : List ℕ) (b : ℕ)
    → take (suc n) xs ≡ ys ++ b ∷ []
    → length ys ≡ n
    → take n xs ≡ ys
take_before zero xs [] b h size = refl
take_before zero xs (y ∷ ys) b h size = absurd (omega arith)
take_before (suc n) [] [] b h size = absurd (omega arith)
take_before (suc n) [] (y ∷ ys) b h size = absurd (omega (arith, ap (λ l. length l) h))
take_before (suc n) (x ∷ xs) [] b h size = absurd (omega arith)
take_before (suc n) (x ∷ xs) (y ∷ ys) b h size =
    ap₂ (λ e l. e ∷ l) (ap first h) (take_before n xs ys b (ap tail h) (omega arith))

pub empty_of_length : (xs : List ℕ) → length xs ≡ 0 → xs ≡ []
empty_of_length [] h = refl
empty_of_length (x ∷ xs) h = absurd (omega arith)

pub append_nil : (xs : List ℕ) → xs ++ [] ≡ xs
append_nil [] = refl
append_nil (x ∷ xs) = ap (λ l. x ∷ l) (append_nil xs)

pub take_written :
    (older : List ℕ) (x : ℕ) (oldest : List ℕ)
    → take (length older + 1) (older ++ x ∷ oldest) ≡ older ++ x ∷ []
take_written older x oldest =
    ap₂ (λ n l. take n l) (sym (length-append older (x ∷ [])))
      (sym (append_assoc older (x ∷ []) oldest))
    ∙ take-append (older ++ x ∷ []) oldest
