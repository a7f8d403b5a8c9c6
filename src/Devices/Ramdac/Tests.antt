-- ===== src/Devices/Ramdac/Tests.antt =====
-- The display controller at concrete inputs.
use rabbits.Base.{ℕ, ◌≡◌, refl, true, false, List, [], ◌∷◌, returns, arith}
use rabbits.Devices.DoubleBuffer.{blank}
use rabbits.Devices.Ramdac.{Ramdac, new, receive_size, write_all}
use rabbits.Devices.Ramdac.Raster.{Good}
use rabbits.Devices.Ramdac.Frame.{Fills, write_all-Fills}

-- Two lines of one word.
abbrev two_lines : Ramdac
two_lines = record {
  m_x = 0;
  m_y = 0;
  width = 4;
  height = 2;
  components = 1;
  ii = 0;
  ready = true;
  images = blank 8;
  nb_images = 0;
  signals = 0;
}

sized : receive_size (receive_size (receive_size (new 0) 4) 2) 1 ≡ two_lines
unfolding new receive_size
sized = refl

two_lines-Good : Good two_lines
two_lines-Good = (refl, omega arith, omega arith, omega arith, omega arith, (refl, refl))

abbrev colours : List ℕ
colours = 0x01020304 ∷ 0x05060708 ∷ []

write_all-Fills_example :
    (s' : Ramdac) × (write_all 0 two_lines colours ≡ returns s') × Fills two_lines colours s'
write_all-Fills_example =
    write_all-Fills 0 two_lines colours two_lines-Good (omega arith, (omega arith, tt))
      (omega arith) refl (λ e. absurd (e refl))

-- When the memory of the object held a number other than 0 the third size is not taken, and the viewer
-- never starts.
never_ready : (receive_size (receive_size (receive_size (new 7) 4) 2) 1).ready ≡ false
unfolding new receive_size
never_ready = refl
