-- ===== src/Etrace/Register.antt =====
-- The registration of the peripherals, `etrace_if::add_periph`, and their numbering when the display
-- starts, the loop of `etrace_if::display_init` that sets `idx`.
use rabbits.Base.{
  ℕ, zero, suc, ◌+◌, ◌-◌, ◌*◌, ◌%◌, ◌^◌, ◌≤◌, ◌<◌, ◌≡◌, ◌∙◌, refl, sym, ap, Option, none, some,
  List, [], ◌∷◌, ◌++◌, length-append, Outcome, returns, faults, ◌>>=◌, length, leb, ◌==◌, ==_refl,
  if◌then◌else◌, leb_of_lt, leb_of_le, lt_or_le, Bool-cases, inl, inr, arith,
}
use rabbits.Etrace.{Periph, PeriphClass, ScopeState}
use rabbits.Etrace.Bill.{Apart, Distinct}

-- Behind the last peripheral whose group is not later.
unfoldable pub insert : Periph → List Periph → List Periph
insert p [] = p ∷ []
insert p (q ∷ qs) = if leb q.group_id p.group_id then q ∷ insert p qs else p ∷ q ∷ qs

abbrev pub new_periph : (handle : ℕ) → PeriphClass → (group_id : ℕ) → Periph
new_periph handle pclass group_id = record {
  handle = handle;
  pclass = pclass;
  group_id = group_id;
  idx = 0;
  last_change_stamp = 0;
  curr_mode = 0;
  curr_fvset = 0;
}

abbrev pub group_of : ScopeState → Option ℕ → ℕ
group_of scope none = scope.nb_groups
group_of scope (some g) = g

abbrev groups_after : ScopeState → Option ℕ → ℕ
groups_after scope none = suc scope.nb_groups
groups_after scope (some g) = scope.nb_groups

-- `group_id` is `none` for a negative number, which asks for a group of its own; it is a reference
-- parameter, and the caller's variable holds the group afterwards, the second result.
unfoldable pub add_periph : ScopeState → (handle : ℕ) → PeriphClass → Option ℕ → ScopeState × ℕ
add_periph scope handle pclass group_id =
    let p = new_periph handle pclass (group_of scope group_id) in
    (
      record scope {
        nb_periphs = suc scope.nb_periphs;
        nb_groups = groups_after scope group_id;
        periphs = insert p scope.periphs;
      },
      group_of scope group_id,
    )

-- The peripherals of a group at the head of the list, numbered from `j`; the next number; the others.
unfoldable pub number_group : (group j : ℕ) → List Periph → List Periph × ℕ × List Periph
number_group group j [] = ([], j, [])
number_group group j (p ∷ ps) =
    let (done, next, others) = number_group group (suc j) ps in
    if p.group_id == group then (record p { idx = j } ∷ done, next, others) else ([], j, p ∷ ps)

-- `max_energy_ms` is an `int`, kept as its 32 bits.
unfoldable pub number : (rounds i max_energy : ℕ) → List Periph → Outcome (List Periph × ℕ)
number zero i max_energy [] = returns ([], max_energy)
number zero i max_energy (p ∷ ps) = faults
number (suc n) i max_energy [] = returns ([], max_energy)
number (suc n) i max_energy (p ∷ ps) =
    let (done, j, others) = number_group p.group_id i (p ∷ ps) in
    number n j ((max_energy + (j - i) * p.pclass.max_energy_ms) % 2 ^ 32) others >>= λ r.
    returns (done ++ r.0, r.1)

unfoldable pub display_init : ScopeState → Outcome ScopeState
display_init scope = number (length scope.periphs) 0 scope.max_energy_ms scope.periphs >>= λ r.
    returns (record scope { periphs = r.0; max_energy_ms = r.1 })

abbrev pub AllGroups : (ℕ → Type 0) → List Periph → Type 0
AllGroups P [] = Unit
AllGroups P (p ∷ ps) = P p.group_id × AllGroups P ps

-- The groups of the list do not decrease.
abbrev pub Sorted : List Periph → Type 0
Sorted [] = Unit
Sorted (p ∷ ps) = AllGroups (λ g. p.group_id ≤ g) ps × Sorted ps

-- What `insert` makes of a sorted list.
abbrev pub Placed : Periph → List Periph → List Periph → Type 0
Placed p ps ps' =
    (before : List Periph) × (after : List Periph) × (ps ≡ before ++ after)
    × (ps' ≡ before ++ p ∷ after)
    × AllGroups (λ g. g ≤ p.group_id) before
    × AllGroups (λ g. p.group_id < g) after

AllGroups-mono :
    {P Q : ℕ → Type 0} (ps : List Periph) → ((g : ℕ) → P g → Q g) → AllGroups P ps → AllGroups Q ps
AllGroups-mono [] f all = tt
AllGroups-mono (p ∷ ps) f (h, all) = (f p.group_id h, AllGroups-mono ps f all)

insert-Placed : (p : Periph) (ps : List Periph) → Sorted ps → Placed p ps (insert p ps)
unfolding insert
insert-Placed p [] sorted = ([], [], refl, refl, tt, tt)
insert-Placed p (q ∷ qs) (low, sorted) = elim (lt_or_le p.group_id q.group_id) [
  | inl before_q ↦
      rw (leb_of_lt q.group_id p.group_id before_q)
        ([], q ∷ qs, refl, refl, tt, (before_q, AllGroups-mono qs (λ g le. omega arith) low))
  | inr behind_q ↦
      let (before, after, was, now, le, gt) = insert-Placed p qs sorted in
      rw (leb_of_le q.group_id p.group_id behind_q)
        (q ∷ before, after, ap (λ xs. q ∷ xs) was, ap (λ xs. q ∷ xs) now, (behind_q, le), gt)
]

insert-AllGroups :
    (P : ℕ → Type 0) (p : Periph) (ps : List Periph)
    → P p.group_id
    → AllGroups P ps
    → AllGroups P (insert p ps)
unfolding insert
insert-AllGroups P p [] h all = (h, tt)
insert-AllGroups P p (q ∷ qs) h (hq, all) = elim (Bool-cases (leb q.group_id p.group_id)) [
  | inl e ↦ rw e (hq, insert-AllGroups P p qs h all)
  | inr e ↦ rw e (h, (hq, all))
]

insert-Sorted : (p : Periph) (ps : List Periph) → Sorted ps → Sorted (insert p ps)
unfolding insert
insert-Sorted p [] sorted = (tt, tt)
insert-Sorted p (q ∷ qs) (low, sorted) = elim (lt_or_le p.group_id q.group_id) [
  | inl before_q ↦
      rw (leb_of_lt q.group_id p.group_id before_q)
        ((omega arith, AllGroups-mono qs (λ g le. omega arith) low), (low, sorted))
  | inr behind_q ↦
      rw (leb_of_le q.group_id p.group_id behind_q)
        (insert-AllGroups (λ g. q.group_id ≤ g) p qs behind_q low, insert-Sorted p qs sorted)
]

-- Every group of the list has been given out.
abbrev pub Registered : ScopeState → Type 0
Registered scope = Sorted scope.periphs × AllGroups (λ g. g < scope.nb_groups) scope.periphs

-- `add_periph`, called with no group or with one that it has given out, puts the peripheral behind
-- those of its group and of the earlier ones and before the later ones, whose order it keeps. The list
-- stays sorted, and a group that is asked for by a negative number is one that no peripheral is in.
pub add_periph-Placed :
    (scope : ScopeState) (handle : ℕ) (pclass : PeriphClass) (group_id : Option ℕ)
    → Registered scope
    → ((g : ℕ) → group_id ≡ some g → g < scope.nb_groups)
    → let (scope', group) = add_periph scope handle pclass group_id in
      Placed (new_periph handle pclass group) scope.periphs scope'.periphs
      × Registered scope'
      × (group_id ≡ none → AllGroups (λ g. g < group) scope.periphs)
unfolding add_periph
add_periph-Placed scope handle pclass none (sorted, below) given =
    let p = new_periph handle pclass scope.nb_groups in
    (
      insert-Placed p scope.periphs sorted,
      (
        insert-Sorted p scope.periphs sorted,
        insert-AllGroups (λ g. g < suc scope.nb_groups) p scope.periphs (omega arith)
            (AllGroups-mono scope.periphs (λ g lt. omega arith) below),
      ),
      λ e. below,
    )
add_periph-Placed scope handle pclass (some g) (sorted, below) given =
    let p = new_periph handle pclass g in
    (
      insert-Placed p scope.periphs sorted,
      (
        insert-Sorted p scope.periphs sorted,
        insert-AllGroups (λ g. g < scope.nb_groups) p scope.periphs (given g refl) below,
      ),
      λ e. cc,
    )

-- `idx` counts the positions.
abbrev pub numbered : ℕ → List Periph → List Periph
numbered i [] = []
numbered i (p ∷ ps) = record p { idx = i } ∷ numbered (suc i) ps

numbered-append :
    (i : ℕ) (xs ys : List Periph)
    → numbered i (xs ++ ys) ≡ numbered i xs ++ numbered (i + length xs) ys
numbered-append i [] ys = ap (λ k. numbered k ys) (omega arith)
numbered-append i (x ∷ xs) ys =
    ap (λ zs. record x { idx = i } ∷ zs)
      (numbered-append (suc i) xs ys ∙ ap (λ k. numbered (suc i) xs ++ numbered k ys) (omega arith))

-- What the inner loop makes of the list.
abbrev Grouped : ℕ → List Periph → List Periph × ℕ × List Periph → Type 0
Grouped j ps r =
    (pre : List Periph) × (post : List Periph) × (ps ≡ pre ++ post)
    × (r ≡ (numbered j pre, j + length pre, post))

number_group-Grouped : (group j : ℕ) (ps : List Periph) → Grouped j ps (number_group group j ps)
unfolding number_group
number_group-Grouped group j [] = ([], [], refl, ap (λ k. ([], k, [])) (omega arith))
number_group-Grouped group j (p ∷ ps) = elim (Bool-cases (p.group_id == group)) [
  | inl e ↦
      let (pre, post, was, now) = number_group-Grouped group (suc j) ps in
      rw e (
        p ∷ pre,
        post,
        ap (λ xs. p ∷ xs) was,
        ap (λ r. (record p { idx = j } ∷ r.0, r.1, r.2)) now
            ∙ ap (λ k. (record p { idx = j } ∷ numbered (suc j) pre, k, post)) (omega arith),
      )
  | inr e ↦ rw e ([], p ∷ ps, refl, ap (λ k. ([], k, p ∷ ps)) (omega arith))
]

number-numbered :
    (n i max_energy : ℕ) (ps : List Periph)
    → length ps ≤ n
    → (total : ℕ) × (number n i max_energy ps ≡ returns (numbered i ps, total))
unfolding number number_group
number-numbered zero i max_energy [] enough = (max_energy, refl)
number-numbered zero i max_energy (p ∷ ps) enough = absurd (omega arith)
number-numbered (suc n) i max_energy [] enough = (max_energy, refl)
number-numbered (suc n) i max_energy (p ∷ ps) enough =
    let (pre, post, was, now) = number_group-Grouped p.group_id (suc i) ps in
    let shorter : length post ≤ n =
      omega (arith, length-append pre post, ap (λ xs. length xs) was) in
    let max_energy' = (max_energy + (suc i + length pre - i) * p.pclass.max_energy_ms) % 2 ^ 32 in
    let (total, runs) = number-numbered n (suc i + length pre) max_energy' post shorter in
    (
      total,
      rw (==_refl p.group_id, now, runs)
          (ap (λ xs. returns (record p { idx = i } ∷ xs, total))
            (sym (ap (numbered (suc i)) was ∙ numbered-append (suc i) pre post))),
    )

numbered-Apart : (k i : ℕ) (ps : List Periph) → k < i → Apart k (numbered i ps)
numbered-Apart k i [] lt = tt
numbered-Apart k i (p ∷ ps) lt =
    (λ e. absurd (omega arith), numbered-Apart k (suc i) ps (omega arith))

numbered-Distinct : (i : ℕ) (ps : List Periph) → Distinct (numbered i ps)
numbered-Distinct i [] = tt
numbered-Distinct i (p ∷ ps) =
    (numbered-Apart i (suc i) ps (omega arith), numbered-Distinct (suc i) ps)

-- `display_init` ends, and has given each peripheral its position in the list as its cell: no two
-- share a cell. Of the peripherals it changes nothing else.
pub display_init-numbered :
    (scope : ScopeState)
    → (total : ℕ) × (display_init scope
        ≡ returns (record scope { periphs = numbered 0 scope.periphs; max_energy_ms = total }))
      × Distinct (numbered 0 scope.periphs)
unfolding display_init
display_init-numbered scope =
    let (total, runs) =
      number-numbered (length scope.periphs) 0 scope.max_energy_ms scope.periphs (omega arith) in
    (total, rw runs refl, numbered-Distinct 0 scope.periphs)
