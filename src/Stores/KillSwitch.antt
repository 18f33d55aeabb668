-- ===== src/Stores/KillSwitch.antt =====
-- `InMemoryKillSwitchStore`: a set of scopes.
use cpfbuddies.Prelude.{
  String, Bool, true, false, ◌||◌, ◌≡◌, List, [], ◌∷◌, ◌==◌, eq_iff, arith, if◌then◌else◌,
}
use cpfbuddies.Prelude.Text.{lower}

abbrev pub KillSwitchStore : Type 0
KillSwitchStore = List String

abbrev pub global_scope : String
global_scope = "global"

-- `scope in self._active`
unfoldable pub contains : String → List String → Bool
contains scope [] = false
contains scope (x ∷ xs) = x == scope || contains scope xs

abbrev pub add : String → List String → List String
add scope active = if contains scope active then active else scope ∷ active

abbrev pub discard : String → List String → List String
discard scope [] = []
discard scope (x ∷ xs) = let rest = discard scope xs in if x == scope then rest else x ∷ rest

-- `_set`
unfoldable pub set_scope : String → Bool → KillSwitchStore → KillSwitchStore
set_scope scope active s = if active then add scope s else discard scope s

unfoldable pub is_active : String → KillSwitchStore → Bool
is_active principal s = contains global_scope s || contains (lower principal) s

unfoldable pub set_global : Bool → KillSwitchStore → KillSwitchStore
set_global active s = set_scope global_scope active s

unfoldable pub set_for_principal : String → Bool → KillSwitchStore → KillSwitchStore
set_for_principal principal active s = set_scope (lower principal) active s

contains-discard :
    (j k : String) (s : List String)
    → contains j (discard k s) ≡ (if k == j then false else contains j s)
unfolding contains
contains-discard j k [] = ground arith
contains-discard j k (x ∷ xs) =
    ground (arith, contains-discard j k xs, eq_iff x k, eq_iff x j, eq_iff k j)

-- A write sets the membership of its scope and leaves the others.
pub contains-set_scope :
    (j k : String) (active : Bool) (s : List String)
    → contains j (set_scope k active s) ≡ (if k == j then active else contains j s)
unfolding set_scope contains
contains-set_scope j k false s = contains-discard j k s
contains-set_scope j k true s = ground (arith, eq_iff k j)

-- Halting or releasing one principal changes what `is_active` says of that principal alone, under
-- whatever case its address is written; the global switch still halts it. An address is not the text
-- of the global scope.
pub is_active-set_for_principal :
    (p q : String) (active : Bool) (s : KillSwitchStore)
    → (lower q == global_scope) ≡ false
    → is_active p (set_for_principal q active s)
      ≡ (if lower q == lower p then contains global_scope s || active else is_active p s)
unfolding is_active set_for_principal
is_active-set_for_principal p q active s h =
    simp (contains-set_scope, h) (ground (arith, eq_iff (lower q) (lower p)))
