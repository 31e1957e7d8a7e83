-- ===== src/Ipc/Delivery/Tests.antt =====
-- Tests of the delivery, and the theorem's witness.
use puc.Base.{◌≡◌, refl, true, List, [], ◌∷◌, arith}
use puc.Base.Bytes.{bytes}
use puc.Ipc.Delivery.{new, attach_delivery, enqueue_region}
use puc.Ipc.Delivery.Bounded.{Region, attaching, enqueuing, run, enter, IsBounded, run-IsBounded}

abbrev three : List Region
three = attaching true ∷ enqueuing (bytes "a") ∷ enqueuing (bytes "b") ∷ enqueuing (bytes "c") ∷ []

keeps_newest : (run 2 three new).pending ≡ bytes "b" ∷ bytes "c" ∷ []
unfolding run enter attach_delivery enqueue_region
keeps_newest = refl

run-IsBounded_example : IsBounded 2 (run 2 three new)
run-IsBounded_example = run-IsBounded 2 three (omega arith)
