-- ===== src/Models/Tests.antt =====
-- The round trip of an amount at 4.20 XSGD.
use cpfbuddies.Prelude.{◌≡◌, arith}
use cpfbuddies.Errors.{ok}
use cpfbuddies.Models.Money.{Money, xsgd, minor_units}
use cpfbuddies.Models.Amounts.{from_minor_units}
use cpfbuddies.Models.Money.RoundTrip.{minor_units-from_minor_units}

minor_units-from_minor_units_example :
    (m : Money) × (from_minor_units 4_200_000 xsgd ≡ ok m)
    × (m.currency ≡ xsgd)
    × (minor_units m ≡ 4_200_000)
minor_units-from_minor_units_example = minor_units-from_minor_units 4_200_000 xsgd (omega arith)
