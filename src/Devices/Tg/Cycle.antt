-- ===== src/Devices/Tg/Cycle.antt =====
-- The bytes of the file, over and over.
use rabbits.Base.{
  inl, inr, ℕ, zero, suc, ◌+◌, ◌-◌, ◌%◌, ◌<◌, ◌≤◌, ◌≡◌, ◌^◌, refl, ◌∙◌, ap, true, false, some,
  returns, ltb, List, ◌==◌, if◌then◌else◌, length, get_or, set, get_elem?-eq-get_or, arith,
  Bool-cases, ==_iff,
}
use rabbits.Devices.Tg.{word_mod, Tg, reset_input, new, refill, read_byte, read_bytes}

-- The device with the byte `p` of its file before it.
abbrev pub playing : List ℕ → ℕ → Tg
playing file p = record { file = file; pos = p; bytes_left = length file - p }

-- The byte that is played from there: behind the last one comes the first.
abbrev here : List ℕ → ℕ → ℕ
here file p = if p == length file then 0 else p

-- The bytes of `n` rounds.
abbrev pub played : List ℕ → ℕ → ℕ → ℕ → List ℕ → List ℕ
played file zero p i bytes = bytes
played file (suc n) p i bytes =
    played file n (here file p + 1) (i + 1) (set bytes i (get_or file (here file p) 0))

-- Where `n` rounds end.
abbrev pub advance : List ℕ → ℕ → ℕ → ℕ
advance file zero p = p
advance file (suc n) p = advance file n (here file p + 1)

module _ (file : List ℕ) (some_bytes : 0 < length file) (small : length file < 2 ^ 31) where
  measured : ltb (length file) (2 ^ 31) ≡ true
  measured = ground arith

  refill-playing : (p : ℕ) → p ≤ length file → refill (playing file p) ≡ playing file (here file p)
  unfolding reset_input
  refill-playing p inside = elim (Bool-cases (p == length file)) [
    | inl e ↦
        let last : p ≡ length file = (==_iff p (length file)).0 e in
        let none_left : length file - p ≡ 0 = omega arith in
        let whole : (0 + length file) % word_mod ≡ length file - 0 = omega arith in
        rw (e, none_left, measured, whole) refl
    | inr e ↦ let more : (length file - p == 0) ≡ false = ground arith in rw (e, more) refl
  ]

  read_byte-here :
      (p i : ℕ) (bytes : List ℕ)
      → p ≤ length file
      → read_byte (playing file p) i bytes
        ≡ (set bytes i (get_or file (here file p) 0), playing file (here file p + 1))
  unfolding read_byte
  read_byte-here p i bytes inside =
      let q : ℕ = here file p in
      let low : q < length file = ground arith in
      let left : (length file - q + word_mod - 1) % word_mod ≡ length file - (q + 1) =
        omega arith in
      rw (refill-playing p inside, get_elem?-eq-get_or file q 0 low, left) refl

  -- From any byte of the file, or from its end.
  read_bytes_lem :
      (n p i : ℕ) (bytes : List ℕ)
      → p ≤ length file
      → read_bytes n (playing file p) i bytes
        ≡ (played file n p i bytes, playing file (advance file n p))
  unfolding read_bytes
  read_bytes_lem zero p i bytes inside = refl
  read_bytes_lem (suc n) p i bytes inside =
      let q : ℕ = here file p in
      let on : q + 1 ≤ length file = ground arith in
      ap (λ r. read_bytes n r.1 (i + 1) r.0) (read_byte-here p i bytes inside)
      ∙ (read_bytes_lem n (q + 1) (i + 1) (set bytes i (get_or file q 0)) on)

  new-playing : new (some file) ≡ returns (playing file 0)
  unfolding new reset_input
  new-playing =
      let whole : (0 + length file) % word_mod ≡ length file - 0 = omega arith in
      rw (measured, whole) refl

  -- Over a file that opens, is not empty and is shorter than 2 ^ 31 bytes, the construction returns, and
  -- from there any number of rounds of the loop gives the bytes of the file in order, the first again
  -- behind the last, none left out and none twice; the device stands then before the byte that comes
  -- next.
  pub plays_file :
      (n i : ℕ) (bytes : List ℕ)
      → (t : Tg) × (new (some file) ≡ returns t)
        × (read_bytes n t i bytes ≡ (played file n 0 i bytes, playing file (advance file n 0)))
  plays_file n i bytes = (playing file 0, new-playing, read_bytes_lem n 0 i bytes (omega arith))
