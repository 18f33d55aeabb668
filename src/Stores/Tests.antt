-- ===== src/Stores/Tests.antt =====
-- The kill switch at concrete principals.
use cpfbuddies.Prelude.{true, ◌≡◌, refl, [], ◌||◌, ◌==◌, if◌then◌else◌}
use cpfbuddies.Prelude.Text.{lower}
use cpfbuddies.Stores.KillSwitch.{
  is_active, set_for_principal, contains, global_scope, is_active-set_for_principal,
}
use cpfbuddies.Samples.{buyer, shop_address}

is_active-set_for_principal_example : is_active shop_address (set_for_principal buyer true []) ≡ (
    if lower buyer == lower shop_address
    then contains global_scope [] || true
    else is_active shop_address [])
unfolding lower
is_active-set_for_principal_example = is_active-set_for_principal shop_address buyer true [] refl
