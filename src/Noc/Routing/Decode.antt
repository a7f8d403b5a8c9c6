-- ===== src/Noc/Routing/Decode.antt =====
-- The readings of one address map against one another.
use rabbits.Base.{
  ℕ, ◌+◌, ◌-◌, ◌<◌, ◌≤◌, ◌≡◌, ◌≢◌, ◌↔◌, ◌⊎◌, inl, inr, refl, ◌∙◌, true, false, List, [], ◌∷◌, none,
  some, leb, ◌==◌, if◌then◌else◌, returns, exits, faults, arith, length, Bool-cases, ==_iff,
}
use rabbits.Noc.Packet.{Request, word_mod}
use rabbits.Noc.Routing.{
  MapEl, Scan, map_capacity, read_map, maps, decode, to_internal, translate, to_linear,
  get_liniar_address, get_slave_id_for_mem_addr,
}

-- `addr` lies in the range of `m`.
abbrev pub Covers : MapEl → ℕ → Type 0
Covers m addr = (m.begin_address ≤ addr) × (addr < m.end_address)

abbrev pub All {ℓ κ} : {E : Type ℓ} (holds : E → Type κ) (els : List E) → Type κ
All holds [] = Unit
All holds (e ∷ rest) = holds e × All holds rest

-- The ranges of an element and of each later one share no address.
abbrev pub Apart : MapEl → MapEl → Type 0
Apart m n = (m.end_address ≤ n.begin_address) ⊎ (n.end_address ≤ m.begin_address)

abbrev pub Disjoint : List MapEl → Type 0
Disjoint [] = Unit
Disjoint (m ∷ rest) = All (Apart m) rest × Disjoint rest

-- The elements that the lines spell.
abbrev pub elements : List Scan → List MapEl
elements [] = []
elements (s ∷ rest) = s.element ∷ elements rest

-- All of the element's fields are words.
abbrev pub IsWords : MapEl → Type 0
IsWords m = (m.begin_address < word_mod) × (m.end_address < word_mod) × (m.intern_offset < word_mod)

pub maps_iff_true : (m : MapEl) (addr : ℕ) → maps m addr ≡ true → Covers m addr
unfolding maps
maps_iff_true m addr h = ground arith

pub maps_of_Covers : (m : MapEl) (addr : ℕ) → Covers m addr → maps m addr ≡ true
unfolding maps
maps_of_Covers m addr h = ground arith

pub maps-false : (m : MapEl) (addr : ℕ) → ¬ Covers m addr → maps m addr ≡ false
unfolding maps
maps-false m addr h = ground arith

-- The first element that covers the address is the one found.
pub decode-Covers :
    (map : List MapEl) (addr : ℕ) {m : MapEl} → decode map addr ≡ some m → Covers m addr
unfolding decode
decode-Covers [] addr h = cc
decode-Covers (n ∷ rest) addr {m} h =
    ground (arith, maps_iff_true n addr, decode-Covers rest addr {m = m})

-- A request is routed to an element that covers its address: it takes that element's slave, keeps
-- its own address as the initial one, and its new address lies as far behind the element's
-- internal offset as the old one behind the start of its range. Nothing else of it changes. The
-- element's fields are words and its internal range does not wrap.
pub translate_lem :
    (map : List MapEl) (req : Request) {m : MapEl} {out : Request}
    → decode map req.address ≡ some m
    → IsWords m
    → m.intern_offset + (m.end_address - m.begin_address) ≤ word_mod
    → translate map req ≡ returns out
    → Covers m req.address
      × (out.slave_id ≡ m.slave_id)
      × (out.address + m.begin_address ≡ req.address + m.intern_offset)
      × (out.address < m.intern_offset + (m.end_address - m.begin_address))
      × (record out { address = 0; slave_id = 0 }
          ≡ record req { address = 0; slave_id = 0; initial_address = req.address })
unfolding translate to_internal
translate_lem map req {m} {out} found words room h =
    ground (arith, decode-Covers map req.address found)

decode-none_iff :
    (map : List MapEl) (addr : ℕ) → (decode map addr ≡ none) ↔ All (λ m. ¬ Covers m addr) map
unfolding decode
decode-none_iff [] addr = ground arith
decode-none_iff (m ∷ rest) addr = elim (Bool-cases (maps m addr)) [
  | inl hit ↦ (λ h. ground (arith), λ away. absurd (away.0 (maps_iff_true m addr hit)))
  | inr miss ↦ (
    λ h. (
      λ c. ground (arith, maps_of_Covers m addr c),
      (decode-none_iff rest addr).0 (ground arith),
    ),
    λ away. ground (arith, (decode-none_iff rest addr).1 away.1),
  )
]

pub translate-srcid :
    (map : List MapEl) (req : Request) {out : Request}
    → translate map req ≡ returns out
    → out.srcid ≡ req.srcid
unfolding translate
translate-srcid map req h = ground arith

-- The simulation ends for want of a slave exactly when no element covers the address.
translate-exits_iff :
    (map : List MapEl) (req : Request)
    → (translate map req ≡ exits) ↔ All (λ m. ¬ Covers m req.address) map
unfolding translate
translate-exits_iff map req = ground (arith, decode-none_iff map req.address)

decode_head :
    (m : MapEl) (rest : List MapEl) (addr : ℕ)
    → maps m addr ≡ true
    → decode (m ∷ rest) addr ≡ some m
unfolding decode
decode_head m rest addr h = ground arith

decode_tail :
    (m : MapEl) (rest : List MapEl) (addr : ℕ)
    → maps m addr ≡ false
    → decode (m ∷ rest) addr ≡ decode rest addr
unfolding decode
decode_tail m rest addr h = ground arith

-- What covers an address lies outside the ranges that are apart from it.
Apart-misses :
    (m : MapEl) (rest : List MapEl) (addr : ℕ) {n : MapEl}
    → All (Apart m) rest
    → decode rest addr ≡ some n
    → maps m addr ≡ false
unfolding decode
Apart-misses m [] addr apart h = cc
Apart-misses m (n ∷ rest) addr {n = k} apart h = ground (
  arith,
  apart.0,
  maps_iff_true n addr,
  maps_iff_true m addr,
  Apart-misses m rest addr {n = k} apart.1,
)

to_internal-to_linear :
    (m : MapEl) (offset : ℕ)
    → IsWords m
    → offset < word_mod
    → to_internal m (to_linear m offset) ≡ offset
unfolding to_internal to_linear
to_internal-to_linear m offset words fits = omega arith

-- `addr` is routed to `offset` in the slave.
abbrev Routed : List MapEl → ℕ → ℕ → ℕ → Type 0
Routed map slave offset addr =
    (m : MapEl) × (decode map addr ≡ some m) × (m.slave_id ≡ slave) × (to_internal m addr ≡ offset)

-- `get_liniar_address` inverts the routing: an address that it finds for a slave and an offset is
-- routed back to that slave at that offset, in a map of words whose ranges are disjoint.
pub get_liniar_address_inverts :
    (map : List MapEl) (slave offset addr addr' : ℕ)
    → Disjoint map
    → All IsWords map
    → offset < word_mod
    → get_liniar_address map slave offset addr ≡ (true, addr')
    → (m : MapEl) × (decode map addr' ≡ some m)
      × (m.slave_id ≡ slave)
      × (to_internal m addr' ≡ offset)
unfolding get_liniar_address
get_liniar_address_inverts [] slave offset addr addr' apart words fits h = cc
get_liniar_address_inverts (m ∷ rest) slave offset addr addr' apart words fits h =
    elim (Bool-cases (m.slave_id == slave)) [
      | inl mine ↦ elim (Bool-cases (maps m (to_linear m offset))) [
        | inl hit ↦
            let at : to_linear m offset ≡ addr' = ground arith in
            (
              m,
              rw (← at) (decode_head m rest (to_linear m offset) hit),
              (==_iff m.slave_id slave).0 mine,
              rw (← at) (to_internal-to_linear m offset words.0 fits),
            )
        | inr miss ↦ later (
            get_liniar_address_inverts rest slave offset (to_linear m offset) addr' apart.1 words.1
              fits (ground arith))
      ]
      | inr other ↦ later (
          get_liniar_address_inverts rest slave offset addr addr' apart.1 words.1 fits
            (ground arith))
    ]
  where
    later : Routed rest slave offset addr' → Routed (m ∷ rest) slave offset addr'
    later (n, found, same, back) =
        (n, decode_tail m rest addr' (Apart-misses m rest addr' apart.0 found) ∙ found, same, back)

-- Away from the end addresses of the elements the two searches for a slave agree.
get_slave_id-decode :
    (map : List MapEl) (addr : ℕ)
    → All (λ m. addr ≢ m.end_address) map
    → get_slave_id_for_mem_addr map addr
      ≡ elim (decode map addr) [ none ↦ none | some m ↦ some (m.slave_id, to_internal m addr) ]
unfolding get_slave_id_for_mem_addr decode maps
get_slave_id-decode [] addr away = refl
get_slave_id-decode (m ∷ rest) addr away = ground (arith, get_slave_id-decode rest addr away.1)

-- At the end address of an element they do not: `get_slave_id_for_mem_addr` counts it in, and
-- routing gives it to the later element that begins there.
get_slave_id_at_end :
    (m : MapEl) (rest : List MapEl) {n : MapEl}
    → m.begin_address ≤ m.end_address
    → decode rest m.end_address ≡ some n
    → (get_slave_id_for_mem_addr (m ∷ rest) m.end_address
        ≡ some (m.slave_id, to_internal m m.end_address))
      × (decode (m ∷ rest) m.end_address ≡ some n)
unfolding get_slave_id_for_mem_addr decode maps
get_slave_id_at_end m rest order found = ground arith

-- Complete lines are all read while they fit the 50 elements; one more is stored past the array.
read_map_lem :
    (scans : List Scan) (i : ℕ)
    → All (λ s. s.fields ≡ 4) scans
    → i ≤ map_capacity
    → read_map i scans
      ≡ (if leb (i + length scans) map_capacity then returns (elements scans) else faults)
unfolding read_map
read_map_lem [] i full h = ground arith
read_map_lem (s ∷ rest) i full h = ground (arith, read_map_lem rest (i + 1) full.1)
