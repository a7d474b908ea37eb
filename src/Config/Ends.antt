-- ===== src/Config/Ends.antt =====
-- The loop of `parse` ends on every file.
use sniffdogsniff.Shared.{Bool, true, false}
use sniffdogsniff.Config.{Parsed, out_of_fuel}

-- Within the fuel.
abbrev ends : Parsed → Bool
ends out_of_fuel = false
ends p = true
