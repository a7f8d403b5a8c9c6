-- ===== src/Devices/SlTty/Output.antt =====
-- What the terminals receive.
use rabbits.Base.{
  ℕ, ◌*◌, ◌%◌, ◌^◌, ◌≤◌, ◌<◌, ◌≡◌, ◌∙◌, inl, inr, refl, sym, ap, List, [], ◌∷◌, ◌++◌, returns,
  length, get_or, set, length-set, get_or-set_self, get_or-set_ne, load-eq, store-eq, leb_of_lt,
  ◌==◌, ==_iff, if◌then◌else◌, Bool-cases, arith,
}
use mathlib.Core.Path.{subst}
use mathlib.Core.Bool.{false≢true}
use rabbits.Bytes.{word32, reg_index}
use rabbits.Devices.SlTty.{SlTty, put_char, tty_of, write, Print, print_all}

-- The state after terminal `k` is sent a byte.
abbrev sent : SlTty → (k value : ℕ) → SlTty
sent s k value = record s {
  terminals = set s.terminals k (get_or s.terminals k [] ++ value % 256 ∷ []);
}

put_char-eq :
    (s : SlTty) (k value : ℕ)
    → k < length s.terminals
    → put_char s k value ≡ returns (sent s k value)
unfolding put_char
put_char-eq s k value inside =
    rw
      (
        load-eq s.terminals k [] inside,
        store-eq s.terminals k (get_or s.terminals k [] ++ value % 256 ∷ []) inside,
      )
      refl

write-eq :
    (s : SlTty) (k : ℕ) (bytes : List ℕ)
    → k < length s.terminals
    → k < 256
    → write s (16 * k) 0x0F bytes ≡ returns (sent s k (word32 bytes 0))
unfolding write
write-eq s k bytes inside small =
    let at : tty_of (reg_index (16 * k) 0x0F % 2 ^ 32) ≡ k = omega arith in
    let reg : reg_index (16 * k) 0x0F % 2 ^ 32 % 4 ≡ 0 = omega arith in
    rw (at, leb_of_lt (length s.terminals) k inside, reg) (put_char-eq s k (word32 bytes 0) inside)

-- The bytes of a list of writes that go to terminal `j`.
abbrev pub chars : (j : ℕ) → List Print → List ℕ
chars j [] = []
chars j (p ∷ ps) = if p.tty == j then word32 p.packet 0 % 256 ∷ chars j ps else chars j ps

abbrev pub AllBelow : ℕ → List Print → Type 0
AllBelow n [] = Unit
AllBelow n (p ∷ ps) = (p.tty < n) × AllBelow n ps

append_assoc : (xs ys zs : List ℕ) → (xs ++ ys) ++ zs ≡ xs ++ (ys ++ zs)
append_assoc [] ys zs = refl
append_assoc (x ∷ xs) ys zs = ap (λ l. x ∷ l) (append_assoc xs ys zs)

append_nil : (xs : List ℕ) → xs ++ [] ≡ xs
append_nil [] = refl
append_nil (x ∷ xs) = ap (λ l. x ∷ l) (append_nil xs)

chars-sent :
    (s : SlTty) (p : Print) (ps : List Print) (j : ℕ)
    → p.tty < length s.terminals
    → get_or (sent s p.tty (word32 p.packet 0)).terminals j [] ++ chars j ps
      ≡ get_or s.terminals j [] ++ chars j (p ∷ ps)
chars-sent s p ps j inside =
    let held = get_or s.terminals p.tty [] in
    let c = word32 p.packet 0 % 256 in
    elim (Bool-cases (p.tty == j)) [
      | inl e ↦
          let same = (==_iff p.tty j).0 e in
          rw e (
            ap (λ l. l ++ chars j ps)
              (ap (λ i. get_or (set s.terminals p.tty (held ++ c ∷ [])) i []) (sym same)
                ∙ get_or-set_self s.terminals p.tty (held ++ c ∷ []) [] inside)
            ∙ append_assoc held (c ∷ []) (chars j ps)
            ∙ ap (λ i. get_or s.terminals i [] ++ (c ∷ chars j ps)) same)
      | inr e ↦ rw e (
          ap (λ l. l ++ chars j ps)
            (get_or-set_ne s.terminals p.tty j (held ++ c ∷ []) []
              (λ h. false≢true (sym e ∙ (==_iff p.tty j).1 h))))
    ]

-- Writes to the write registers of up to 256 terminals all return, and each terminal receives the low
-- bytes of the words that are written to it, in their order, behind what it had received.
pub print_all-chars :
    (s : SlTty) (ps : List Print)
    → length s.terminals ≤ 256
    → AllBelow (length s.terminals) ps
    → (s' : SlTty) × (print_all s ps ≡ returns s')
      × (length s'.terminals ≡ length s.terminals)
      × ((j : ℕ) → get_or s'.terminals j [] ≡ get_or s.terminals j [] ++ chars j ps)
unfolding print_all
print_all-chars s [] few all = (s, refl, refl, λ j. sym (append_nil (get_or s.terminals j [])))
print_all-chars s (p ∷ ps) few (inside, all) =
    let t = sent s p.tty (word32 p.packet 0) in
    let size : length t.terminals ≡ length s.terminals =
      length-set s.terminals p.tty (get_or s.terminals p.tty [] ++ word32 p.packet 0 % 256 ∷ []) in
    let (s', runs, size', received) =
      print_all-chars t ps (omega arith) (subst (λ n. AllBelow n ps) (sym size) all) in
    (
      s',
      rw (write-eq s p.tty p.packet inside (omega arith)) runs,
      size' ∙ size,
      λ j. received j ∙ chars-sent s p ps j inside,
    )
