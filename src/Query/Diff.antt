-- ===== src/Query/Diff.antt =====
-- `diff` of internal/query/relations.go: what to add and what to remove to get from one list of
-- names to another.
use permissions_api.Base.{
  String, ◌≡◌, ◌↔◌, ◌⊎◌, Bool, true, false, not, ◌&&◌, List, [], ◌∷◌, arith, is_empty,
  if◌then◌else◌, eq_iff, Exists, foldl,
}
use permissions_api.Dict.{Dict, lookup, has, insert, lookup-insert}
use permissions_api.Iapl.Rbac.{set_of, add_name}

-- The loop that appends what is not in the set.
unfoldable pub without : Dict (Unit {0}) → List String → List String
without set [] = []
without set (x ∷ xs) = if has x set then without set xs else x ∷ without set xs

unfoldable pub diff : List String → List String → Bool → List String × List String
diff current incoming allow_empty_incoming =
    if is_empty incoming && not allow_empty_incoming
    then ([], [])
    else (without (set_of current) incoming, without (set_of incoming) current)

abbrev pub IsIn : String → List String → Type 0
IsIn x xs = Exists (λ y. y ≡ x) xs

has-foldl_iff :
    (d : Dict (Unit {0})) (xs : List String) (x : String)
    → (has x (foldl add_name d xs) ≡ true) ↔ (IsIn x xs ⊎ (has x d ≡ true))
has-foldl_iff d [] x = ground arith
has-foldl_iff d (y ∷ xs) x =
    ground (arith, has-foldl_iff (insert y tt d) xs x, lookup-insert {0} y x tt d, eq_iff y x)

has-set_of_iff : (xs : List String) (x : String) → (has x (set_of xs) ≡ true) ↔ IsIn x xs
unfolding set_of lookup
has-set_of_iff xs x = ground (arith, has-foldl_iff [] xs x)

without_iff :
    (xs ys : List String) (x : String) → IsIn x (without (set_of ys) xs) ↔ (IsIn x xs × ¬ IsIn x ys)
unfolding without
without_iff [] ys x = ground arith
without_iff (y ∷ xs) ys x =
    ground (arith, without_iff xs ys x, has-set_of_iff ys y, has-set_of_iff ys x)

-- If there are incoming names, or none are allowed, a name is to be added exactly if it is incoming
-- and not current, and to be removed exactly if it is current and not incoming; so adding and
-- removing lead from the current names to the incoming ones.
pub diff_lem :
    (current incoming : List String) (allow_empty_incoming : Bool) (x : String)
    → (is_empty incoming && not allow_empty_incoming) ≡ false
    → let (add, rem) = diff current incoming allow_empty_incoming in
      (IsIn x add ↔ (IsIn x incoming × ¬ IsIn x current))
      × (IsIn x rem ↔ (IsIn x current × ¬ IsIn x incoming))
      × (IsIn x incoming ↔ (IsIn x add ⊎ (IsIn x current × ¬ IsIn x rem)))
unfolding diff
diff_lem current incoming allow x h = rw h (
  without_iff incoming current x,
  without_iff current incoming x,
  ground (
    arith,
    without_iff incoming current x,
    without_iff current incoming x,
    has-set_of_iff current x,
    has-set_of_iff incoming x,
  ),
)
