-- ===== src/Noc/Fifo/Refine.antt =====
-- A fifo of the network behaves as the bounded queue of the items that it holds.
use native.Mathlib.Nat.{mod-eq_of_lt, mod_self}
use mathlib.Core.Bool.{false≢true}
use native.Mathlib.Decide.{dec_lt}
use rabbits.Base.{
  ℕ, ◌+◌, ◌-◌, ◌<◌, ◌≡◌, ◌⊎◌, inl, inr, refl, List, [], ◌∷◌, ◌++◌, some, ◌==◌, returns, arith, ◌≢◌,
  length-append, length-set, sym, store-eq, load, ==_refl, ==_of_ne, Bool-cases, true, false,
  ==_iff, length, get_elem?, set, get_elem?-set_self, get_elem?-set_ne, length-replicate, ◌∙◌,
}
use rabbits.Noc.Queue
use rabbits.Noc.Queue.{Attempt, done, waits, Op, put, get, Reply}
use rabbits.Noc.Fifo.{Fifo, next, new, reset, is_empty, is_full, read, write, apply, run}

next_cases :
    (size i : ℕ)
    → i < size
    → ((next size i ≡ i + 1) × (i + 1 < size)) ⊎ ((next size i ≡ 0) × (i + 1 ≡ size))
next_cases size i h = elim (dec_lt (i + 1) size) [
  | yes p ↦ inl (mod-eq_of_lt p, p)
  | no p ↦ let e : i + 1 ≡ size = omega arith in inr (rw e (mod_self size), e)
]

-- The items of `q` stand in the slots from `h` on, going round at `size`.
abbrev pub Slots {ℓ} : {A : Type ℓ} → List A → ℕ → ℕ → List A → Type ℓ
Slots buf size h [] = Unit
Slots buf size h (x ∷ q) = (get_elem? buf h ≡ some x) × Slots buf size (next size h) q

-- `n` slots lie from `h` to `w`.
abbrev pub Span : ℕ → ℕ → ℕ → ℕ → Type 0
Span size h n w = (h + n ≡ w) ⊎ (h + n ≡ w + size)

-- The fifo holds the queue `q`: its indices are in range and count the items.
pub record Refines {ℓ} {A : Type ℓ} (f : Fifo A) (q : List A) : Type ℓ where
  pub storage : length f.buf ≡ f.size
  pub read_in : f.idx_read < f.size
  pub write_in : f.idx_write < f.size
  pub fits : length q < f.size
  pub span : Span f.size f.idx_read (length q) f.idx_write
  pub slots : Slots f.buf f.size f.idx_read q

module _ {ℓ} {A : Type ℓ} where
  -- A write just behind the items of `q` adds one item to them.
  pub Slots-set :
      (size : ℕ) (buf : List A) (x : A) (q : List A) (h w : ℕ)
      → length buf ≡ size
      → h < size
      → w < size
      → length q < size
      → Span size h (length q) w
      → Slots buf size h q
      → Slots (set buf w x) size h (q ++ (x ∷ []))
  Slots-set size buf x [] h w len hh hw fits span slots =
      let same : h ≡ w = omega arith in (rw same (get_elem?-set_self buf w x (omega arith)), tt)
  Slots-set size buf x (y ∷ q) h w len hh hw fits span slots = (
    get_elem?-set_ne buf w h x (omega arith) ∙ slots.0,
    Slots-set size buf x q (next size h) w len (omega (arith, next_cases size h hh)) hw
        (omega arith) (omega (arith, next_cases size h hh)) slots.1,
  )

  pub new-Refines : (n : ℕ) (junk : A) → Refines (new n junk) []
  unfolding new
  new-Refines n junk = record {
    storage = length-replicate (n + 1) junk;
    read_in = omega arith;
    write_in = omega arith;
    fits = omega arith;
    span = omega arith;
    slots = tt;
  }

  pub reset-Refines : {f : Fifo A} {q : List A} → Refines f q → Refines (reset f) []
  unfolding reset
  reset-Refines r = record {
    storage = r.storage;
    read_in = omega (arith, r.read_in);
    write_in = omega (arith, r.read_in);
    fits = omega (arith, r.read_in);
    span = omega arith;
    slots = tt;
  }

  -- `IsFull` holds exactly when the queue has reached the capacity given to the constructor.
  pub is_full_iff : {f : Fifo A} {q : List A} → Refines f q → is_full f ≡ (length q == f.size - 1)
  unfolding is_full
  is_full_iff {f} {q} r =
      ground (arith, next_cases f.size f.idx_write r.write_in, r.span, r.fits, r.read_in)

  pub is_empty_iff : {f : Fifo A} {q : List A} → Refines f q → is_empty f ≡ (length q == 0)
  unfolding is_empty
  is_empty_iff {f} {q} r = ground (arith, r.span, r.fits, r.read_in, r.write_in)

  -- What a call on the queue leaves behind is held by what the call on the fifo leaves behind.
  pub record Follows (f : Fifo A) (q : List A) (op : Op A) : Type ℓ where
    pub after : Fifo A
    pub runs : apply f op ≡ returns ((Queue.step (f.size - 1) q op).0, after)
    pub holds : Refines after (Queue.step (f.size - 1) q op).1
    pub sized : after.size ≡ f.size

  pub write-Refines : {f : Fifo A} {q : List A} (x : A) → Refines f q → Follows f q (put x)
  unfolding apply write
  write-Refines {f} {q} x r = elim (Bool-cases (is_full f)) [
    | inl full ↦
        let stays = Queue.step_full (f.size - 1) q x (sym (is_full_iff r) ∙ full) in
        record { after = f; runs = rw (full, stays); holds = rw stays r; sized = refl }
    | inr free ↦
        let grows = Queue.step_free (f.size - 1) q x (sym (is_full_iff r) ∙ free) in
        record {
          after = written;
          runs =
              rw (free, grows, store-eq f.buf f.idx_write x (omega (arith, r.storage, r.write_in)));
          holds = rw grows (written-Refines free);
          sized = refl;
        }
  ]
    where
      written : Fifo A
      written = record f { buf = set f.buf f.idx_write x; idx_write = next f.size f.idx_write }

      written-Refines : is_full f ≡ false → Refines written (q ++ (x ∷ []))
      written-Refines free =
          let room : length q ≢ f.size - 1 =
            λ e. false≢true (sym free ∙ is_full_iff r ∙ (==_iff _ _).1 e) in
          record {
            storage = length-set f.buf f.idx_write x ∙ r.storage;
            read_in = r.read_in;
            write_in = omega (arith, next_cases f.size f.idx_write r.write_in);
            fits = omega (arith, r.fits, length-append q (x ∷ []));
            span = omega (
              arith,
              r.span,
              r.fits,
              r.read_in,
              length-append q (x ∷ []),
              next_cases f.size f.idx_write r.write_in,
            );
            slots =
                Slots-set f.size f.buf x q f.idx_read f.idx_write r.storage r.read_in r.write_in
                  r.fits r.span r.slots;
          }

  pub read-Refines : {f : Fifo A} {q : List A} → Refines f q → Follows f q get
  unfolding apply read Queue.step load
  read-Refines {f} {q = []} r =
      let empty : is_empty f ≡ true = is_empty_iff r ∙ ==_refl 0 in
      record { after = f; runs = rw empty; holds = r; sized = refl }
  read-Refines {f} {q = x ∷ q} r =
      let some_left : is_empty f ≡ false =
        is_empty_iff r ∙ ==_of_ne (length (x ∷ q)) 0 (omega arith) in
      record {
        after = record f { idx_read = next f.size f.idx_read };
        runs = rw (some_left, r.slots.0, load);
        holds = record {
          storage = r.storage;
          read_in = omega (arith, next_cases f.size f.idx_read r.read_in);
          write_in = r.write_in;
          fits = omega (arith, r.fits);
          span = omega (arith, r.span, r.fits, r.write_in, next_cases f.size f.idx_read r.read_in);
          slots = r.slots.1;
        };
        sized = refl;
      }

  pub apply-Refines : {f : Fifo A} {q : List A} (op : Op A) → Refines f q → Follows f q op
  apply-Refines (put x) r = write-Refines x r
  apply-Refines get r = read-Refines r

  -- From any fifo that holds the queue `q`, every list of calls runs without leaving the array, and
  -- is answered as the bounded queue of capacity `size - 1` answers it: in order, nothing lost,
  -- blocking exactly when the queue is full or empty.
  pub run-Refines :
      (ops : List (Op A)) {f : Fifo A} {q : List A}
      → Refines f q
      → run f ops ≡ returns (Queue.run (f.size - 1) q ops)
  unfolding run Queue.run
  run-Refines [] r = refl
  run-Refines (op ∷ ops) {f} {q} r =
      let step = apply-Refines op r in rw (step.runs, run-Refines ops step.holds, step.sized)
