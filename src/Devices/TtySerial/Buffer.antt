-- ===== src/Devices/TtySerial/Buffer.antt =====
-- The ring of received characters as a bounded queue.
use rabbits.Base.{
  ℕ, suc, ◌+◌, ◌-◌, ◌%◌, ◌≤◌, ◌<◌, ◌≡◌, ◌≢◌, inl, inr, refl, sym, ◌∙◌, List, [], ◌∷◌, ◌++◌, none,
  some, ◌==◌, if◌then◌else◌, Outcome, returns, ◌>>=◌, load, get_elem?, length, length-set,
  length-append, set, store-eq, bit_and, bit_or, arith, Bool-cases, ==_of_ne,
}
use native.Mathlib.Decide.{ℕ_discrete}
use rabbits.Bits.{complement}
use rabbits.Noc.Queue
use rabbits.Noc.Queue.{Attempt, done, waits, Op, put, get, Reply, step_full, step_free}
use rabbits.Noc.Fifo.{next}
use rabbits.Noc.Fifo.Refine.{Slots, Slots-set}
use rabbits.Devices.TtySerial.{Tty, read_buf_size, tty_int_read, receive, take, read_reg}

-- The ring holds the characters `q`, and the interrupt level says whether there are any.
pub record Holds (t : Tty) (q : List ℕ) : Type 0 where
  pub storage : length t.read_buf ≡ read_buf_size
  pub pos_in : t.read_pos < read_buf_size
  pub count : t.read_count ≡ length q
  pub fits : length q ≤ read_buf_size
  pub slots : Slots t.read_buf read_buf_size t.read_pos q
  pub level : t.int_level ≡ (if length q == 0 then 0 else tty_int_read)

-- A character that arrives, or a program that polls register 2 and then reads register 0.
abbrev pub apply : Tty → Op ℕ → Outcome (Reply ℕ × Tty)
apply t (put ch) = do
  r ← receive t ch
  elim r [ done t' ↦ returns (done none, t') | waits ↦ returns (waits, t) ]
apply t get = do
  (ready, t') ← read_reg t 2
  if ready == 0
      then returns (waits, t')
      else (do (c, t'') ← read_reg t' 0; returns (done (some c), t''))

abbrev pub run : Tty → List (Op ℕ) → Outcome (List (Reply ℕ))
run t [] = returns []
run t (op ∷ ops) = do (reply, t') ← apply t op; replies ← run t' ops; returns (reply ∷ replies)

pub record Follows (t : Tty) (q : List ℕ) (op : Op ℕ) : Type 0 where
  pub after : Tty
  pub runs : apply t op ≡ returns ((Queue.step read_buf_size q op).0, after)
  pub holds : Holds after (Queue.step read_buf_size q op).1

loads : (xs : List ℕ) (i c : ℕ) → get_elem? xs i ≡ some c → load xs i ≡ returns c
unfolding load
loads xs i c at = rw (at, load) refl

next_pos :
    (i : ℕ)
    → i < read_buf_size
    → (if i + 1 == read_buf_size then 0 else i + 1) ≡ next read_buf_size i
next_pos i below = ground arith

raised : (v n : ℕ) → v ≡ (if n == 0 then 0 else tty_int_read) → bit_or v tty_int_read ≡ 1
raised v n level = elim (Bool-cases (n == 0)) [
  | inl e ↦ let zero_level : v ≡ 0 = level ∙ rw e refl in rw zero_level refl
  | inr e ↦ let one_level : v ≡ 1 = level ∙ rw e refl in rw one_level refl
]

lowered : bit_and 1 (complement 32 tty_int_read) ≡ 0
lowered = refl

-- The state after a character that finds room.
abbrev received : Tty → ℕ → Tty
received t ch = record t {
  read_buf = set t.read_buf ((t.read_pos + t.read_count) % read_buf_size) ch;
  read_count = t.read_count + 1;
  int_level = bit_or t.int_level tty_int_read;
}

module _ (t : Tty) (q : List ℕ) (h : Holds t q) where
  receive_full : (ch : ℕ) → length q ≡ read_buf_size → receive t ch ≡ returns waits
  unfolding receive
  receive_full ch full = rw (h.count, full) refl

  receive_free : (ch : ℕ) → length q ≢ read_buf_size → receive t ch ≡ returns (done (received t ch))
  unfolding receive
  receive_free ch room =
      rw
        (
          ==_of_ne t.read_count read_buf_size (λ e. room (sym h.count ∙ e)),
          store-eq t.read_buf ((t.read_pos + t.read_count) % read_buf_size) ch (omega (arith, h)),
        )
        refl

  received-Holds : (ch : ℕ) → length q ≢ read_buf_size → Holds (received t ch) (q ++ (ch ∷ []))
  received-Holds ch room = record {
    storage = length-set t.read_buf ((t.read_pos + t.read_count) % read_buf_size) ch ∙ h.storage;
    pos_in = h.pos_in;
    count = omega (arith, h, length-append q (ch ∷ []));
    fits = omega (arith, h, length-append q (ch ∷ []));
    slots =
        Slots-set read_buf_size t.read_buf ch q t.read_pos
          ((t.read_pos + t.read_count) % read_buf_size) h.storage h.pos_in (omega arith)
          (omega (arith, h)) (omega (arith, h)) h.slots;
    level =
        rw (==_of_ne (length (q ++ (ch ∷ []))) 0 (omega (arith, length-append q (ch ∷ []))))
          (raised t.int_level (length q) h.level);
  }

take-eq :
    (t : Tty)
    → t.read_count ≢ 0
    → take t ≡ record t {
      read_count = t.read_count - 1;
      read_pos = if t.read_pos + 1 == read_buf_size then 0 else t.read_pos + 1;
      int_level =
          if t.read_count - 1 == 0
          then bit_and t.int_level (complement 32 tty_int_read)
          else t.int_level;
    }
unfolding take
take-eq t some_char = rw (==_of_ne t.read_count 0 some_char) refl

take-Holds : (t : Tty) (c : ℕ) (q : List ℕ) → Holds t (c ∷ q) → Holds (take t) q
take-Holds t c q h = rw (take-eq t (omega (arith, h))) (record {
  storage = h.storage;
  pos_in = ground (arith, h.pos_in);
  count = omega (arith, h);
  fits = omega (arith, h);
  slots = rw (next_pos t.read_pos h.pos_in) h.slots.1;
  level =
      let left : t.read_count - 1 ≡ length q = omega (arith, h) in
      let one_level : t.int_level ≡ 1 =
        h.level ∙ rw (==_of_ne (suc (length q)) 0 (omega arith)) refl in
      rw (left, one_level) refl;
})

poll_empty : (t : Tty) → t.read_count ≡ 0 → apply t get ≡ returns (waits, t)
unfolding read_reg
poll_empty t none_left = rw none_left refl

poll_some :
    (t : Tty) (c : ℕ)
    → t.read_count ≢ 0
    → get_elem? t.read_buf t.read_pos ≡ some c
    → apply t get ≡ returns (done (some c), take t)
unfolding read_reg
poll_some t c some_left at =
    rw (==_of_ne t.read_count 0 some_left, loads t.read_buf t.read_pos c at) refl

pub apply-Follows : (t : Tty) (q : List ℕ) (op : Op ℕ) → Holds t q → Follows t q op
unfolding Queue.step Queue.read
apply-Follows t q (put ch) h = elim (ℕ_discrete (length q) read_buf_size) [
  | yes full ↦ record {
    after = t;
    runs = rw (receive_full t q h ch full, step_full read_buf_size q ch (rw full refl)) refl;
    holds = rw (step_full read_buf_size q ch (rw full refl)) h;
  }
  | no room ↦ record {
    after = received t ch;
    runs =
        rw
          (
            receive_free t q h ch room,
            step_free read_buf_size q ch (==_of_ne (length q) read_buf_size room),
          )
          refl;
    holds =
        rw (step_free read_buf_size q ch (==_of_ne (length q) read_buf_size room))
          (received-Holds t q h ch room);
  }
]
apply-Follows t [] get h = record { after = t; runs = poll_empty t h.count; holds = h }
apply-Follows t (c ∷ q) get h = record {
  after = take t;
  runs = poll_some t c (omega (arith, h)) h.slots.0;
  holds = take-Holds t c q h;
}

-- Whatever arrives and whatever a polling program reads, the terminal answers as a queue of 256
-- characters does: in order, none lost, holding back what arrives exactly when the queue is full,
-- and telling the program to wait exactly when it is empty.
pub run-Queue :
    (ops : List (Op ℕ)) (t : Tty) (q : List ℕ)
    → Holds t q
    → run t ops ≡ returns (Queue.run read_buf_size q ops)
unfolding Queue.run
run-Queue [] t q h = refl
run-Queue (op ∷ ops) t q h =
    let step = apply-Follows t q op h in rw (step.runs, run-Queue ops step.after _ step.holds) refl
