-- ===== src/Etrace/Change.antt =====
-- A change of mode keeps the scope ready for its next sample, and a refused one changes nothing.
use rabbits.Base.{
  ℕ, ◌^◌, ◌≤◌, ◌<◌, ◌≡◌, ◌≢◌, ◌⊎◌, ◌∙◌, refl, sym, ap, true, false, some, List, [], ◌∷◌, Outcome,
  returns, ◌>>=◌, ◌==◌, ==_iff, lt→ltb, ltb_of_le, Bool-cases, arith, lt_or_le, if◌then◌else◌, inl,
  inr,
}
use mathlib.Core.Path.{subst}
use mathlib.Core.Option.{some-injective}
use rabbits.Etrace.{Periph, Sample, ScopeState, update_samples, first_or_new}
use rabbits.Etrace.Bill.{Timely, AllTimely, Distinct, Apart, cell_flag}
use rabbits.Etrace.Window.{head, stop, Ready, Changed, update_samples-Changed, unchanged}
use rabbits.Etrace.Modes.{
  mode_change, mode_change_at, change_energy_mode, refused, retuned, put, find, mode_of, fvset_of,
}

module _ (h : ℕ) (p : Periph) where
  -- The peripheral that `find` returns is the first of the list, or it is found in the rest.
  find-cases :
      (q : Periph) (qs : List Periph)
      → find h (q ∷ qs) ≡ some p
      → (((q.handle == h) ≡ true) × (q ≡ p)) ⊎ (((q.handle == h) ≡ false) × (find h qs ≡ some p))
  unfolding find
  find-cases q qs at = elim (Bool-cases (q.handle == h)) [
    | inl e ↦ inl (e, some-injective q p (sym (ap (λ b. if b then some q else find h qs) e) ∙ at))
    | inr e ↦ inr (e, sym (ap (λ b. if b then some q else find h qs) e) ∙ at)
  ]

  find-handle : (qs : List Periph) → find h qs ≡ some p → p.handle ≡ h
  unfolding find
  find-handle [] at = cc
  find-handle (q ∷ qs) at = elim (find-cases q qs at) [
    | inl (e, eq) ↦ ap (λ x. x.handle) (sym eq) ∙ (==_iff q.handle h).0 e
    | inr (e, later) ↦ find-handle qs later
  ]

  find-Timely :
      (last end : ℕ) (sample : Sample) (qs : List Periph)
      → AllTimely last end sample qs
      → find h qs ≡ some p
      → Timely last end sample p
  unfolding find
  find-Timely last end sample [] all at = cc
  find-Timely last end sample (q ∷ qs) (timely, all) at = elim (find-cases q qs at) [
    | inl (e, eq) ↦ subst (λ x. Timely last end sample x) eq timely
    | inr (e, later) ↦ find-Timely last end sample qs all later
  ]

  find-Apart : (i : ℕ) (qs : List Periph) → Apart i qs → find h qs ≡ some p → p.idx ≢ i
  unfolding find
  find-Apart i [] apart at = cc
  find-Apart i (q ∷ qs) (ne, apart) at = elim (find-cases q qs at) [
    | inl (e, eq) ↦ subst (λ x. x.idx ≢ i) eq ne
    | inr (e, later) ↦ find-Apart i qs apart later
  ]

  module _ (p' : Periph) (at_h : p'.handle ≡ h) (at_idx : p'.idx ≡ p.idx) where
    put-Apart : (i : ℕ) (qs : List Periph) → find h qs ≡ some p → Apart i qs → Apart i (put p' qs)
    unfolding put find
    put-Apart i [] at apart = cc
    put-Apart i (q ∷ qs) at (ne, apart) = elim (find-cases q qs at) [
      | inl (e, eq) ↦ rw (at_h, e) (λ same. ne (ap (λ x. x.idx) eq ∙ sym at_idx ∙ same), apart)
      | inr (e, later) ↦ rw (at_h, e) (ne, put-Apart i qs later apart)
    ]

    put-Distinct : (qs : List Periph) → find h qs ≡ some p → Distinct qs → Distinct (put p' qs)
    unfolding put find
    put-Distinct [] at distinct = cc
    put-Distinct (q ∷ qs) at (apart, distinct) = elim (find-cases q qs at) [
      | inl (e, eq) ↦
          rw (at_h, e) (subst (λ i. Apart i qs) (ap (λ x. x.idx) eq ∙ sym at_idx) apart, distinct)
      | inr (e, later) ↦
          rw (at_h, e) (put-Apart q.idx qs later apart, put-Distinct qs later distinct)
    ]

    module _ (last end : ℕ) (sample sample' : Sample)
        (others : (q : Periph)
          → p.idx ≢ q.idx
          → Timely last end sample q
          → Timely last end sample' q) where
      all_others :
          (qs : List Periph)
          → Apart p.idx qs
          → AllTimely last end sample qs
          → AllTimely last end sample' qs
      all_others [] apart all = tt
      all_others (q ∷ qs) (ne, apart) (timely, all) =
          (others q (λ e. ne (sym e)) timely, all_others qs apart all)

      put-Timely :
          (qs : List Periph)
          → find h qs ≡ some p
          → Distinct qs
          → AllTimely last end sample qs
          → Timely last end sample' p'
          → AllTimely last end sample' (put p' qs)
      unfolding put find
      put-Timely [] at distinct all mine = cc
      put-Timely (q ∷ qs) at (apart, distinct) (timely, all) mine = elim (find-cases q qs at) [
        | inl (e, eq) ↦
            rw (at_h, e) (mine, all_others qs (subst (λ x. Apart x.idx qs) eq apart) all)
        | inr (e, later) ↦
            rw (at_h, e)
              (
                others q (find-Apart q.idx qs apart later) timely,
                put-Timely qs later distinct all mine,
              )
      ]

-- A change that is not refused is to a mode of the class, and not before the last change.
accepted :
    (p : Periph) (mode time : ℕ)
    → refused p mode time ≡ false
    → (mode_of mode < p.pclass.nmodes)
      × (fvset_of mode < p.pclass.nfvsets)
      × (p.last_change_stamp ≤ time)
unfolding refused
accepted p mode time h = ground arith

retuned-Timely :
    (last end : ℕ) (p : Periph) (mode time : ℕ) (sample sample' : Sample)
    → refused p mode time ≡ false
    → time ≤ end
    → (time ≤ last → cell_flag p.idx sample' ≡ cell_flag p.idx sample)
    → Timely last end sample p
    → Timely last end sample' (retuned p mode time)
retuned-Timely last end p mode time sample sample' ok within kept
      (slot, (m, f, room), before, fresh) =
    let (mode_ok, fvset_ok, order) = accepted p mode time ok in
    (slot, (mode_ok, fvset_ok, room), within, λ early. kept early ∙ fresh (omega arith))

abbrev commit : Periph → (mode time : ℕ) → Outcome ScopeState → Outcome ScopeState
commit p mode time o =
    o >>= λ s. returns (record s { periphs = put (retuned p mode time) s.periphs })

-- The scope after the samples are brought up to date and the peripheral has its new mode.
retune-Ready :
    (scope : ScopeState) (h : ℕ) (p : Periph) (mode time : ℕ) (o : Outcome ScopeState)
    → Ready scope
    → find h scope.periphs ≡ some p
    → refused p mode time ≡ false
    → time ≤ stop scope
    → Changed scope p time o
    → (scope' : ScopeState) × (commit p mode time o ≡ returns scope')
      × (stop scope' ≡ stop scope)
      × Ready scope'
retune-Ready scope h p mode time o (pos, chain, single, all, distinct) at ok within
      (samples, eq, chain', single', others, idle) =
    let last = scope.last_measure_stamp in
    let end = stop scope in
    let sample' = first_or_new scope.sample_period last samples in
    let named = find-handle h p scope.periphs at in
    let timely = find-Timely h p last end (head scope) scope.periphs all at in
    let p' = retuned p mode time in
    (
      record scope { samples = samples; periphs = put p' scope.periphs },
      ap (commit p mode time) eq,
      refl,
      (
        pos,
        chain',
        single',
        put-Timely h p p' named refl last end (head scope) sample'
            (λ q ne (slot, table, before, fresh).
              (slot, table, before, λ early. others q.idx ne ∙ fresh early))
            scope.periphs at distinct all
            (retuned-Timely last end p mode time (head scope) sample' ok within idle timely),
        put-Distinct h p p' named refl scope.periphs at distinct,
      ),
    )

mode_change-Ready :
    (scope : ScopeState) (periph_id mode now : ℕ) (p : Periph)
    → Ready scope
    → find periph_id scope.periphs ≡ some p
    → stop scope < 2 ^ 64
    → now ≤ stop scope
    → (scope' : ScopeState) × (mode_change scope p mode now ≡ returns scope')
      × (stop scope' ≡ stop scope)
      × Ready scope'
unfolding mode_change
mode_change-Ready scope periph_id mode now p ready at fits within =
    elim (Bool-cases (refused p mode now)) [
      | inl stays ↦ rw stays (scope, refl, refl, ready)
      | inr ok ↦
          let timely =
            find-Timely periph_id p scope.last_measure_stamp (stop scope) (head scope) scope.periphs
              (ready.3) at in
          elim (lt_or_le p.last_change_stamp now) [
            | inl later ↦
                rw (ok, lt→ltb p.last_change_stamp now later)
                  (retune-Ready scope periph_id p mode now (update_samples scope p now) ready at ok
                    within (update_samples-Changed scope p now ready timely fits within))
            | inr same ↦
                rw (ok, ltb_of_le p.last_change_stamp now same)
                  (retune-Ready scope periph_id p mode now (returns scope) ready at ok within
                    (unchanged scope p now ready))
          ]
    ]

-- `change_energy_mode` on a peripheral of the scope returns, whatever the mode and the time up to the
-- end of the sample: it leaves the same sample to come, and the scope ready for it.
pub change_energy_mode-Ready :
    (scope : ScopeState) (periph_id mode now : ℕ) (p : Periph)
    → Ready scope
    → find periph_id scope.periphs ≡ some p
    → stop scope < 2 ^ 64
    → now ≤ stop scope
    → (scope' : ScopeState) × (change_energy_mode scope periph_id mode now ≡ returns scope')
      × (stop scope' ≡ stop scope)
      × Ready scope'
unfolding change_energy_mode
change_energy_mode-Ready scope periph_id mode now p ready at fits within =
    let (scope', runs, same, ready') =
      mode_change-Ready scope periph_id mode now p ready at fits within in
    (scope', ap (λ o. mode_change_at scope o mode now) at ∙ runs, same, ready')
