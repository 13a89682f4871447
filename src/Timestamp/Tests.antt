-- ===== src/Timestamp/Tests.antt =====
-- A time before the epoch and one behind it.
use turbo_net.Common.{done, ℕ, ◌/◌, ◌%◌, ◌≡◌, ◌≢◌, ◌↔◌, refl, List, ◌∷◌, arith}
use turbo_net.Timestamp.Text.{to_string}
use turbo_net.Timestamp.Samples.{printing, printing-Laws}
use turbo_net.Timestamp.Reading.{at_ns, after_dot, to_string-roundtrip}
use turbo_net.Common.Int.{ℤ, pos, negsuc}
use turbo_net.Timestamp.{Timestamp, cut, time_since_epoch_seconds, add_time, fits64}
use turbo_net.Timestamp.Order.{Compared, compare_lem}

abbrev before : Timestamp
before = record { time_since_epoch = negsuc 1499999999 }

abbrev behind : Timestamp
behind = record { time_since_epoch = pos 500000000 }

seconds_before : time_since_epoch_seconds before ≡ negsuc 0
unfolding time_since_epoch_seconds cut
seconds_before = refl

added : add_time (λ d. d) before (pos 2000000) ≡ done behind
unfolding add_time fits64
added = refl

compare_lem_example : Compared (λ (d : ℤ). d) before behind
compare_lem_example = compare_lem (λ (d : ℤ). d) before behind

to_string-roundtrip_example :
    ((rest : List ℕ) × (after_dot (to_string printing (at_ns (negsuc 1499999999))) ≡ b'-' ∷ rest))
    ↔ (1500000000 / 1000 % 1000000 ≢ 0)
to_string-roundtrip_example =
    to_string-roundtrip printing (negsuc 1499999999) printing-Laws (omega arith)
