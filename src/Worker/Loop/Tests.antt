-- ===== src/Worker/Loop/Tests.antt =====
-- A minute's interval, and a server that is down for five ticks.
use ai_email_broadcast_hw.Base.{◌≡◌, refl, true, false, List, [], ◌∷◌, Bool}
use ai_email_broadcast_hw.Worker.Loop.{waits}

abbrev ticks : List Bool
ticks = true ∷ false ∷ false ∷ false ∷ false ∷ false ∷ true ∷ []

backs_off : waits 60000 0 ticks ≡ 60000 ∷ 5000 ∷ 10000 ∷ 20000 ∷ 40000 ∷ 60000 ∷ 60000 ∷ []
unfolding waits
backs_off = refl
