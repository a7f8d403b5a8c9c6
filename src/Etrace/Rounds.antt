-- ===== src/Etrace/Rounds.antt =====
-- The rolling average is the mean of the last samples.
use rabbits.Base.{
  ℕ, suc, ◌+◌, ◌/◌, ◌%◌, ◌≤◌, ◌<◌, min, ◌≡◌, ◌∙◌, refl, sym, ap, ap₂, Bool, true, false, List, [],
  ◌∷◌, ◌++◌, returns, length, set, take, replicate, store-eq, length-append, ◌==◌, if◌then◌else◌,
  arith, lt_or_le, inl, inr, ==_of_ne,
}
use mathlib.Core.Path.{subst}
use rabbits.Etrace.{word64, max_history}
use rabbits.Etrace.Cells.{word64_of_lt}
use rabbits.Etrace.Average.{Average, new_average, accumulate, mean, roll_average, after}
use rabbits.Etrace.Newest.{
  sum, accumulate-eq, sum-append, rev, sum-rev, length-rev, rev-snoc, take_all, set-append,
  append_assoc, take_before, empty_of_length, append_nil, take_written,
}

-- The mean of the last ten samples, or of as many as there are.
abbrev pub mean_of_last : List ℕ → ℕ
mean_of_last xs = word64 (sum (take max_history xs)) / min max_history (length xs)

-- `xs` are all samples, the newest first. The history is `older`, the place that is written next, and
-- `oldest`, the samples that are left of the round before.
abbrev pub Recency : Bool → (older oldest xs : List ℕ) → Type 0
Recency true older oldest xs = (take 9 xs ≡ rev older ++ rev oldest) × (9 ≤ length xs)
Recency false older oldest xs = (xs ≡ rev older) × (length older < 9)

abbrev pub Recent : Average → List ℕ → Type 0
Recent a xs =
    (older : List ℕ) × (next : ℕ) × (oldest : List ℕ) × (a.history ≡ older ++ next ∷ oldest)
    × (length older ≡ a.curr_idx)
    × (length older + suc (length oldest) ≡ 10)
    × Recency a.full_average older oldest xs

new_average-Recent : Recent new_average []
unfolding new_average
new_average-Recent = ([], 0, replicate 9 0, refl, refl, refl, (refl, omega arith))

mean-Recency :
    (full : Bool) (x : ℕ) (older oldest xs : List ℕ)
    → length older + suc (length oldest) ≡ 10
    → Recency full older oldest xs
    → mean full (length older) (older ++ x ∷ oldest) ≡ mean_of_last (x ∷ xs)
mean-Recency true x older oldest xs size (recent, enough) =
    ap₂ (λ s d. s / d)
      (accumulate-eq 0 (older ++ x ∷ oldest) (word64_of_lt 0 (omega arith))
        ∙ ap word64 (
            omega (
              arith,
              sum-append older (x ∷ oldest),
              ap sum recent,
              sum-append (rev older) (rev oldest),
              sum-rev older,
              sum-rev oldest,
            )))
      (omega arith)
mean-Recency false x older oldest xs size (recent, few) =
    let whole : length xs ≡ length older = ap (λ l. length l) recent ∙ length-rev older in
    ap₂ (λ s d. s / d)
      (ap (accumulate 0) (take_written older x oldest)
        ∙ accumulate-eq 0 (older ++ x ∷ []) (word64_of_lt 0 (omega arith))
        ∙ ap word64 (
            omega (
              arith,
              sum-append older (x ∷ []),
              ap sum recent,
              sum-rev older,
              ap sum (take_all 10 (x ∷ xs) (omega arith)),
            )))
      (omega arith)

either_true : (b : Bool) → (if b then true else true) ≡ true
either_true true = refl
either_true false = refl

abbrev still_full : (full : Bool) (i : ℕ) → Bool
still_full full i = if i == 9 then true else full

-- The samples of a full history after the oldest of them is dropped.
recent_full :
    (x : ℕ) (older oldest xs : List ℕ) (b : ℕ)
    → length older + length oldest ≡ 8
    → take 9 xs ≡ rev older ++ (rev oldest ++ b ∷ [])
    → take 9 (x ∷ xs) ≡ rev (older ++ x ∷ []) ++ rev oldest
recent_full x older oldest xs b size recent =
    let left : length (rev older ++ rev oldest) ≡ 8 =
      omega (arith, length-append (rev older) (rev oldest), length-rev older, length-rev oldest) in
    ap (λ l. x ∷ l)
      (take_before 8 xs (rev older ++ rev oldest) b
        (recent ∙ sym (append_assoc (rev older) (rev oldest) (b ∷ []))) left)
    ∙ ap (λ l. l ++ rev oldest) (sym (rev-snoc older x))

growing-Recency :
    (x : ℕ) (older oldest xs : List ℕ)
    → length older + length oldest ≡ 8
    → xs ≡ rev older
    → Recency (still_full false (length older + 1)) (older ++ x ∷ []) oldest (x ∷ xs)
growing-Recency x older oldest xs size recent =
    let grown = ap (λ l. x ∷ l) recent ∙ sym (rev-snoc older x) in
    let whole : length xs ≡ length older = ap (λ l. length l) recent ∙ length-rev older in
    elim (lt_or_le (length older + 1) 9) [
      | inl few ↦
          rw (==_of_ne (length older + 1) 9 (λ e. absurd (omega arith)))
            (grown, omega (arith, length-append older (x ∷ [])))
      | inr last ↦
          let nine : length older + 1 ≡ 9 = omega arith in
          let none_left : oldest ≡ [] = empty_of_length oldest (omega arith) in
          rw (nine, none_left)
            (
              take_all 9 (x ∷ xs) (omega arith) ∙ grown ∙ sym (append_nil (rev (older ++ x ∷ []))),
              omega arith,
            )
    ]

next-Recency :
    (full : Bool) (x : ℕ) (older oldest xs : List ℕ) (b : ℕ)
    → length older + length oldest ≡ 8
    → Recency full older (b ∷ oldest) xs
    → Recency (still_full full (length older + 1)) (older ++ x ∷ []) oldest (x ∷ xs)
next-Recency true x older oldest xs b size (recent, enough) =
    subst (λ f. Recency f (older ++ x ∷ []) oldest (x ∷ xs)) (sym (either_true _))
      (recent_full x older oldest xs b size recent, omega arith)
next-Recency false x older oldest xs b size (recent, few) =
    growing-Recency x older oldest xs size recent

-- The round goes on behind the sample that is written, or ends with it.
step-Recent :
    (full : Bool) (x : ℕ) (older oldest xs : List ℕ)
    → length older + suc (length oldest) ≡ 10
    → Recency full older oldest xs
    → Recent
        (record {
          full_average = still_full full ((length older + 1) % 10);
          curr_idx = (length older + 1) % 10;
          history = older ++ x ∷ oldest;
        })
        (x ∷ xs)
step-Recent full x older (b ∷ oldest) xs size recency =
    let below : (length older + 1) % 10 ≡ length older + 1 = omega arith in
    (
      older ++ x ∷ [],
      b,
      oldest,
      sym (append_assoc older (x ∷ []) (b ∷ oldest)),
      omega (arith, length-append older (x ∷ [])),
      omega (arith, length-append older (x ∷ [])),
      rw below (next-Recency full x older oldest xs b (omega arith) recency),
    )
step-Recent true x (a ∷ older) [] xs size (recent, enough) = (
  [],
  a,
  older ++ x ∷ [],
  refl,
  omega arith,
  omega (arith, length-append older (x ∷ [])),
  subst (λ f. Recency f [] (older ++ x ∷ []) (x ∷ xs)) (sym (either_true _))
      (
        ap (λ l. x ∷ l)
              (take_before 8 xs (rev older) a (recent ∙ append_nil (rev (a ∷ older)))
                (omega (arith, length-rev older)))
            ∙ sym (rev-snoc older x),
        omega arith,
      ),
)
step-Recent true x [] [] xs size recency = absurd (omega arith)
step-Recent false x older [] xs size (recent, few) = absurd (omega arith)

pub roll_average-Recent :
    (a : Average) (x : ℕ) (xs : List ℕ)
    → Recent a xs
    → (a' : Average) × (roll_average a x ≡ returns (mean_of_last (x ∷ xs), a')) × Recent a' (x ∷ xs)
unfolding roll_average
roll_average-Recent a x xs (older, next, oldest, held, at, size, recency) =
    let inside : a.curr_idx < length a.history =
      omega (arith, ap (λ l. length l) held, length-append older (next ∷ oldest)) in
    let written : set a.history a.curr_idx x ≡ older ++ x ∷ oldest =
      ap₂ (λ l i. set l i x) held (sym at) ∙ set-append older oldest next x in
    (
      record {
        full_average = still_full a.full_average ((length older + 1) % 10);
        curr_idx = (length older + 1) % 10;
        history = older ++ x ∷ oldest;
      },
      rw (store-eq a.history a.curr_idx x inside, written, sym at)
          (ap
            (λ m. returns (
              m,
              record {
                full_average = still_full a.full_average ((length older + 1) % 10);
                curr_idx = (length older + 1) % 10;
                history = older ++ x ∷ oldest;
              },
            ))
            (mean-Recency a.full_average x older oldest xs size recency)),
      step-Recent a.full_average x older oldest xs size recency,
    )

after-Recent : (xs : List ℕ) → (a : Average) × (after xs ≡ returns a) × Recent a xs
unfolding after
after-Recent [] = (new_average, refl, new_average-Recent)
after-Recent (x ∷ xs) =
    let (a, runs, recent) = after-Recent xs in
    let (a', rolls, recent') = roll_average-Recent a x xs recent in
    (a', rw (runs, rolls) refl, recent')

-- Whatever samples came before, `roll_average` returns, within its array, the mean of the new sample
-- and the nine before it, or of all samples while there are fewer than ten; their sum is in 64 bits.
pub roll_average-mean :
    (x : ℕ) (xs : List ℕ)
    → (a : Average) × (a' : Average) × (after xs ≡ returns a)
      × (roll_average a x ≡ returns (mean_of_last (x ∷ xs), a'))
roll_average-mean x xs =
    let (a, runs, recent) = after-Recent xs in
    let (a', rolls, recent') = roll_average-Recent a x xs recent in (a, a', runs, rolls)
