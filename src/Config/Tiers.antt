-- ===== src/Config/Tiers.antt =====
-- internal/config/config.go: Tier.
use clash_of_tokens.Base.{String, if◌then◌else◌, ◌==◌}
use clash_of_tokens.Base.Int.{ℤ, pos, minus_one}

unfoldable pub tier : String → ℤ
tier s =
    if s == "bronze"
    then pos 0
    else if s == "silver"
    then pos 1
    else if s == "gold"
    then pos 2
    else if s == "platinum"
    then pos 3
    else if s == "diamond"
    then pos 4
    else minus_one
