-- ===== src/Devices/Sem/Word.antt =====
-- A word of the semaphores that holds a lock: what each access to it leaves.
use rabbits.Base.{
  ℕ, ◌+◌, ◌^◌, ◌≤◌, ◌<◌, ◌≡◌, refl, Bool, true, false, List, [], ◌∷◌, none, some, ◌==◌,
  if◌then◌else◌, Outcome, returns, ◌>>=◌, length, length-set, leb_of_le, ltb_of_le, arith,
}
use rabbits.Bytes.{word_at, set_word_at, word_at-set_word_at}
use rabbits.Slave.{Served}
use rabbits.Devices.Lanes.{switch_be}
use rabbits.Devices.Sem.{
  Sem, load_word, store_word, relock, write_word, read_word, write, read, rcv_rqst,
}
use rabbits.Devices.Sem.Lock.{Act, test, release, lock, Lock, free, held, held_twice, Answer, code}

-- The byte enables of the two words of a line, the word's place in it, and 8 bytes of data that
-- carry a small number in both words.
abbrev pub enable : Bool → ℕ
enable false = 0x0F
enable true = 0xF0

abbrev pub place : Bool → ℕ
place false = 0
place true = 4

abbrev pub carrying : ℕ → List ℕ
carrying v = v ∷ 0 ∷ 0 ∷ 0 ∷ v ∷ 0 ∷ 0 ∷ 0 ∷ []

-- An access to the word: a test is granted when it reads 0.
abbrev pub access : Sem → ℕ → Bool → Act → Outcome (Sem × Answer)
access s ofs upper test = do
  r ← rcv_rqst s ofs (enable upper) (carrying 0) false
  returns (r.state, some (word_at r.bytes (place upper) == 0))
access s ofs upper release = do
  r ← rcv_rqst s ofs (enable upper) (carrying 0) true
  returns (r.state, none)
access s ofs upper lock = do
  r ← rcv_rqst s ofs (enable upper) (carrying 1) true
  returns (r.state, none)

abbrev pub accesses : Sem → ℕ → Bool → List Act → Outcome (List Answer)
accesses s ofs upper [] = returns []
accesses s ofs upper (a ∷ rest) = do
  (s', answer) ← access s ofs upper a
  answers ← accesses s' ofs upper rest
  returns (answer ∷ answers)

-- The word lies in the memory and holds the lock.
pub record Holds (ofs : ℕ) (upper : Bool) (s : Sem) (l : Lock) : Type 0 where
  pub inside : ofs + place upper + 4 ≤ length s.mem
  pub low : ofs ≤ s.size
  pub value : word_at s.mem (ofs + place upper) ≡ code l

carried : (v : ℕ) (upper : Bool) → word_at (carrying v) (place upper) ≡ v
carried v false = omega arith
carried v true = omega arith

in_packet : (upper : Bool) → place upper + 4 ≤ 8
in_packet false = omega arith
in_packet true = omega arith

-- The accesses to either word take the branch for 4 bytes.
write_enabled :
    (s : Sem) (ofs : ℕ) (upper : Bool) (v : ℕ)
    → ofs ≤ s.size
    → write s ofs (enable upper) (carrying v) ≡ write_word s (ofs + place upper) v
unfolding write switch_be
write_enabled s ofs false v low = rw (ltb_of_le s.size ofs low, carried v false) refl
write_enabled s ofs true v low = rw (ltb_of_le s.size ofs low, carried v true) refl

read_enabled :
    (s : Sem) (ofs : ℕ) (upper : Bool)
    → ofs ≤ s.size
    → read s ofs (enable upper) (carrying 0)
      ≡ read_word s (ofs + place upper) (place upper) (carrying 0)
unfolding read switch_be
read_enabled s ofs false low = rw (ltb_of_le s.size ofs low) refl
read_enabled s ofs true low = rw (ltb_of_le s.size ofs low) refl

module _ (s : Sem) (ofs : ℕ) (upper : Bool) (l : Lock) (h : Holds ofs upper s l) where
  abbrev p : ℕ
  p = ofs + place upper

  abbrev pub storing : ℕ → Sem
  storing v = record s { mem = set_word_at s.mem p v }

  pub loads : load_word s.mem p ≡ returns (code l)
  unfolding load_word
  loads = rw (leb_of_le (p + 4) (length s.mem) h.inside, h.value) refl

  stores : (v : ℕ) → store_word s.mem p v ≡ returns (set_word_at s.mem p v)
  unfolding store_word
  stores v = rw (leb_of_le (p + 4) (length s.mem) h.inside) refl

  -- The word holds the lock whose code is stored.
  pub storing-Holds : (l' : Lock) → code l' < 2 ^ 32 → Holds ofs upper (storing (code l')) l'
  storing-Holds l' fits = record {
    inside = omega (arith, h, length-set {0});
    low = h.low;
    value = word_at-set_word_at s.mem p (code l') h.inside fits;
  }

  release_stores :
      rcv_rqst s ofs (enable upper) (carrying 0) true
      ≡ returns (record { state = storing 0; bytes = carrying 0; error = false })
  unfolding rcv_rqst write_word
  release_stores = rw (write_enabled s ofs upper 0 h.low, stores 0) refl

  -- What a write of 1 leaves over each lock.
  abbrev relocked : Lock → Outcome (Served Sem)
  relocked k = relock (code k) >>= λ v.
      returns (record { state = storing v; bytes = carrying 1; error = false })

  pub lock_stores :
      (k : Lock)
      → load_word s.mem p ≡ returns (code k)
      → rcv_rqst s ofs (enable upper) (carrying 1) true ≡ relocked k
  unfolding rcv_rqst write_word relock
  lock_stores free at = rw (write_enabled s ofs upper 1 h.low, at, stores 1) refl
  lock_stores held at = rw (write_enabled s ofs upper 1 h.low, at, stores 2) refl
  lock_stores held_twice at = rw (write_enabled s ofs upper 1 h.low, at) refl

  -- What a test answers, and the memory that it leaves.
  abbrev tested : Lock → Served Sem
  tested k = record {
    state = if code k == 0 then storing 1 else s;
    bytes = set_word_at (carrying 0) (place upper) (if code k == 2 then 1 else code k);
    error = false;
  }

  pub test_answers :
      (k : Lock)
      → load_word s.mem p ≡ returns (code k)
      → rcv_rqst s ofs (enable upper) (carrying 0) false ≡ returns (tested k)
  unfolding rcv_rqst read_word
  test_answers free at = rw (read_enabled s ofs upper h.low, at, stores 1) refl
  test_answers held at = rw (read_enabled s ofs upper h.low, at) refl
  test_answers held_twice at = rw (read_enabled s ofs upper h.low, at) refl

pub answered :
    (upper : Bool) (v : ℕ)
    → v < 2 ^ 32
    → word_at (set_word_at (carrying 0) (place upper) v) (place upper) ≡ v
answered upper v fits = word_at-set_word_at (carrying 0) (place upper) v (in_packet upper) fits

pub released :
    (s : Sem) (ofs : ℕ) (upper : Bool) (l : Lock) (h : Holds ofs upper s l)
    → (s' : Sem) × (access s ofs upper release ≡ returns (s', none)) × Holds ofs upper s' free
released s ofs upper l h = (
  storing s ofs upper l h 0,
  rw (release_stores s ofs upper l h) refl,
  storing-Holds s ofs upper l h free (omega arith),
)
