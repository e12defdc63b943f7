-- ===== src/Config/Values.antt =====
-- The map of the environment: of several pairs with one key the last counts.
use yral_onboarding_hello_wo.Prelude.{
  ◌≡◌, ◌≢◌, refl, List, [], ◌∷◌, ◌++◌, some, Text, text_eq_iff, arith,
}
use yral_onboarding_hello_wo.Config.{Values, get, collect_from, collect}

collect_from-append :
    (values : Values) (xs ys : List (Text × Text))
    → collect_from values (xs ++ ys) ≡ collect_from (collect_from values xs) ys
unfolding collect_from
collect_from-append values [] ys = refl
collect_from-append values ((k, v) ∷ xs) ys = collect_from-append ((k, v) ∷ values) xs ys

pub collect-append :
    (xs ys : List (Text × Text)) → collect (xs ++ ys) ≡ collect_from (collect xs) ys
unfolding collect
collect-append xs ys = collect_from-append [] xs ys

-- A pair with another key does not change what a key is looked up to.
pub get-collect-ne :
    (key : Text) (pairs : List (Text × Text)) (k v : Text)
    → k ≢ key
    → get key (collect (pairs ++ (k, v) ∷ [])) ≡ get key (collect pairs)
unfolding get collect_from
get-collect-ne key pairs k v h =
    rw (collect-append pairs ((k, v) ∷ [])) (ground (arith, text_eq_iff k key))

-- The last pair decides.
pub get-collect_last :
    (key : Text) (pairs : List (Text × Text)) (v : Text)
    → get key (collect (pairs ++ (key, v) ∷ [])) ≡ some v
unfolding get collect_from
get-collect_last key pairs v =
    rw (collect-append pairs ((key, v) ∷ [])) (ground (arith, text_eq_iff key key))
