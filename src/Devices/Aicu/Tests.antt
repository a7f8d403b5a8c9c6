-- ===== src/Devices/Aicu/Tests.antt =====
-- The interrupt controller at concrete inputs: one output, two local interrupts, one global.
use rabbits.Base.{
  ℕ, ◌≡◌, refl, true, false, [], ◌∷◌, some, returns, arith, get_elem?, load, ◌==◌, if◌then◌else◌,
}
use rabbits.Bits.{bit}
use rabbits.Devices.Aicu.{
  Output, Aicu, read_local, Edge, rose, steady, input_of, irq_update, update_output, update_outputs,
  scan_edges, apply_edge, find_irq,
}
use rabbits.Devices.Aicu.Update.{Updated, irq_update_lem}

abbrev quiet : Output
quiet = record { stat = 0; mask = 7; crt_irq = 0; line = false }

abbrev running : Aicu
running = record {
  nb_global = 1;
  nb_local = 2;
  control = 1;
  handlers = 100 ∷ 101 ∷ 102 ∷ [];
  outputs = quiet ∷ [];
}

-- The second local input and the global one rise.
abbrev two_rise : ℕ → Edge
two_rise i = if i == 0 then steady else rose

raises :
    irq_update running 1 two_rise
    ≡ record running { outputs = record { stat = 6; mask = 7; crt_irq = 1; line = true } ∷ [] }
unfolding irq_update update_outputs update_output scan_edges apply_edge find_irq input_of
raises = refl

irq_update_lem_example :
    (bit 1 0 ≡ 0 → irq_update running 1 two_rise ≡ running)
    × (bit 1 0 ≡ 1
        → (o' : Output) × (get_elem? (irq_update running 1 two_rise).outputs 0 ≡ some o')
          × Updated 3 (λ k. two_rise (input_of running 1 0 k)) quiet o')
irq_update_lem_example = irq_update_lem running 1 two_rise 0 (omega arith) (omega arith) refl

abbrev raised : Output
raised = record { stat = 6; mask = 7; crt_irq = 1; line = true }

acknowledges :
    read_local (100 ∷ 101 ∷ 102 ∷ []) raised 2 ≡ returns (101, record raised { stat = 4 })
unfolding read_local load
acknowledges = refl
