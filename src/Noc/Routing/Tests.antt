-- ===== src/Noc/Routing/Tests.antt =====
-- The address maps at concrete inputs: two memories side by side, and one register bank.
use rabbits.Base.{ℕ, ◌≡◌, ◌+◌, ◌-◌, ◌<◌, refl, inl, true, List, [], ◌∷◌, some, returns, arith}
use rabbits.Noc.Packet.{Request}
use rabbits.Noc.Routing.{
  MapEl, Scan, maps, decode, to_internal, translate, to_linear, get_liniar_address,
}
use rabbits.Noc.Routing.Decode.{Covers, translate_lem, get_liniar_address_inverts}

abbrev low : MapEl
low = record { slave_id = 0; begin_address = 0; end_address = 0x1000; intern_offset = 0 }

abbrev high : MapEl
high = record { slave_id = 1; begin_address = 0x1000; end_address = 0x3000; intern_offset = 0x100 }

abbrev map : List MapEl
map = low ∷ high ∷ []

abbrev query : Request
query = record {
  address = 0x1010;
  be = 0x0F;
  cmd = 1;
  wdata = 0 ∷ 0 ∷ 0 ∷ 0 ∷ 0 ∷ 0 ∷ 0 ∷ 0 ∷ [];
  eop = true;
  plen = 1;
  srcid = 3;
  trdid = 9;
  initial_address = 0;
  slave_id = 0;
}

abbrev routed : Request
routed = record query { initial_address = 0x1010; slave_id = 1; address = 0x110 }

finds : decode map 0x1010 ≡ some high
unfolding decode maps
finds = refl

routes : translate map query ≡ returns routed
unfolding translate decode maps to_internal
routes = refl

translate_lem_example :
    Covers high 0x1010
    × (◌≡◌ {A = ℕ} 1 1)
    × (◌≡◌ {A = ℕ} (0x110 + 0x1000) (0x1010 + 0x100))
    × (0x110 < 0x100 + (0x3000 - 0x1000))
    × (record routed { address = 0; slave_id = 0 }
        ≡ record query { address = 0; slave_id = 0; initial_address = 0x1010 })
translate_lem_example = translate_lem map query finds (omega arith) (omega arith) routes

asks : get_liniar_address map 1 0x110 0 ≡ (true, 0x1010)
unfolding get_liniar_address maps to_linear
asks = refl

get_liniar_address_inverts_example :
    (m : MapEl) × (decode map 0x1010 ≡ some m) × (m.slave_id ≡ 1) × (to_internal m 0x1010 ≡ 0x110)
get_liniar_address_inverts_example =
    get_liniar_address_inverts map 1 0x110 0 0x1010 ((inl (omega arith), tt), (tt, tt))
      (omega arith) (omega arith) asks

ends : decode (high ∷ []) 0x1000 ≡ some high
unfolding decode maps
ends = refl

abbrev line : Scan
line = record { fields = 4; element = low }
