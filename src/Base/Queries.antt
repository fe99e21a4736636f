-- ===== src/Base/Queries.antt =====
-- How the queries of a table meet its updates.
use mathlib.Core.Path.{◌≡◌, refl}
use mathlib.Core.Logic.{inl, inr}
use mathlib.Core.Bool.{Bool, true, false, ◌&&◌, ◌||◌}
use mathlib.Core.Option.{Option, none, some}
use mathlib.Core.List.{List, [], ◌∷◌, ◌++◌, map}
use native.Mathlib.Omega.{arith}
use lazarus.Base.Tests.{Bool-cases, eqb}
use lazarus.Base.Lists.{length, any, select, find, update, update_first}

abbrev pub map_option {ℓ κ} : {A : Type ℓ} {B : Type κ} → (A → B) → Option A → Option B
map_option f none = none
map_option f (some a) = some (f a)

module _ {ℓ} {A : Type ℓ} where
  pub select-append :
      (p : A → Bool) (xs ys : List A) → select p (xs ++ ys) ≡ select p xs ++ select p ys
  select-append p [] ys = refl
  select-append p (x ∷ xs) ys = elim (Bool-cases (p x)) [
    | inl e ↦ rw (e, select-append p xs ys)
    | inr e ↦ rw (e, select-append p xs ys)
  ]

  pub any-append : (p : A → Bool) (xs ys : List A) → any p (xs ++ ys) ≡ (any p xs || any p ys)
  any-append p [] ys = refl
  any-append p (x ∷ xs) ys = ground (arith, any-append p xs ys)

  -- an update that the query does not see
  pub find-update_first :
      (p q : A → Bool) (f : A → A)
      → ((x : A) → q (f x) ≡ q x)
      → ((x : A) → p x ≡ true → q x ≡ false)
      → (xs : List A) → find q (update_first p f xs) ≡ find q xs
  find-update_first p q f keeps apart [] = refl
  find-update_first p q f keeps apart (x ∷ xs) =
      ground (arith, keeps x, apart x, find-update_first p q f keeps apart xs)

  -- the query that selects the row of the update
  pub find-update_first_self :
      (p : A → Bool) (f : A → A)
      → ((x : A) → p (f x) ≡ p x)
      → (xs : List A) → find p (update_first p f xs) ≡ map_option f (find p xs)
  find-update_first_self p f keeps [] = refl
  find-update_first_self p f keeps (x ∷ xs) =
      ground (arith, keeps x, find-update_first_self p f keeps xs)

  pub select-update_first :
      (p q : A → Bool) (f : A → A)
      → ((x : A) → q (f x) ≡ q x)
      → ((x : A) → p x ≡ true → q x ≡ false)
      → (xs : List A) → select q (update_first p f xs) ≡ select q xs
  select-update_first p q f keeps apart [] = refl
  select-update_first p q f keeps apart (x ∷ xs) =
      ground (arith, keeps x, apart x, select-update_first p q f keeps apart xs)

  -- the row of the update is among the selected
  pub select-update_first_in :
      (p q : A → Bool) (f : A → A)
      → ((x : A) → q (f x) ≡ q x)
      → ((x : A) → p x ≡ true → q x ≡ true)
      → (xs : List A) → select q (update_first p f xs) ≡ update_first p f (select q xs)
  select-update_first_in p q f keeps inside [] = refl
  select-update_first_in p q f keeps inside (x ∷ xs) =
      ground (arith, keeps x, inside x, select-update_first_in p q f keeps inside xs)

  pub select-update :
      (q : A → Bool) (f : A → A)
      → ((x : A) → q (f x) ≡ q x)
      → (xs : List A) → select q (update q f xs) ≡ map f (select q xs)
  select-update q f keeps [] = refl
  select-update q f keeps (x ∷ xs) = ground (arith, keeps x, select-update q f keeps xs)

  pub select-update_other :
      (p q : A → Bool) (f : A → A)
      → ((x : A) → q (f x) ≡ q x)
      → ((x : A) → p x ≡ true → q x ≡ false)
      → (xs : List A) → select q (update p f xs) ≡ select q xs
  select-update_other p q f keeps apart [] = refl
  select-update_other p q f keeps apart (x ∷ xs) =
      ground (arith, keeps x, apart x, select-update_other p q f keeps apart xs)

  pub none_selected :
      (p : A → Bool) (xs : List A) → eqb (length (select p xs)) 0 ≡ true → any p xs ≡ false
  none_selected p [] h = refl
  none_selected p (x ∷ xs) h = ground (arith, none_selected p xs)

  -- a found row passes the query
  pub find-holds : (p : A → Bool) (xs : List A) {x : A} → find p xs ≡ some x → p x ≡ true
  find-holds p [] h = cc
  find-holds p (y ∷ xs) {x} h = elim (Bool-cases (p y)) [
    | inl e ↦ ground (arith, e, h)
    | inr e ↦ find-holds p xs (ground (arith, e, h))
  ]

  pub find-any-none : (p : A → Bool) (xs : List A) → any p xs ≡ false → find p xs ≡ none
  find-any-none p [] h = refl
  find-any-none p (x ∷ xs) h = ground (arith, find-any-none p xs)

  pub find-append_none :
      (p : A → Bool) (xs ys : List A) → find p xs ≡ none → find p (xs ++ ys) ≡ find p ys
  find-append_none p [] ys h = refl
  find-append_none p (x ∷ xs) ys h = ground (arith, find-append_none p xs ys)

  pub find-append_some :
      (p : A → Bool) (xs ys : List A) {x : A} → find p xs ≡ some x → find p (xs ++ ys) ≡ some x
  find-append_some p [] ys h = cc
  find-append_some p (y ∷ xs) ys {x} h = ground (arith, find-append_some p xs ys {x = x})

  -- a narrower query on selected rows
  pub find-select :
      (p q : A → Bool)
      → ((x : A) → p x ≡ true → q x ≡ true)
      → (xs : List A) → find p (select q xs) ≡ find p xs
  find-select p q inside [] = refl
  find-select p q inside (x ∷ xs) = ground (arith, inside x, find-select p q inside xs)

  pub update_first-missing :
      (p : A → Bool) (f : A → A) (xs : List A) → find p xs ≡ none → update_first p f xs ≡ xs
  update_first-missing p f [] h = refl
  update_first-missing p f (x ∷ xs) h = ground (arith, update_first-missing p f xs)

module _ {ℓ κ} {A : Type ℓ} {B : Type κ} where
  pub map-update_first :
      (p : A → Bool) (f : A → A) (q : B → Bool) (g : B → B) (h : A → B)
      → ((x : A) → q (h x) ≡ p x)
      → ((x : A) → h (f x) ≡ g (h x))
      → (xs : List A) → map h (update_first p f xs) ≡ update_first q g (map h xs)
  map-update_first p f q g h same step [] = refl
  map-update_first p f q g h same step (x ∷ xs) =
      ground (arith, same x, step x, map-update_first p f q g h same step xs)

  pub find-map :
      (p : A → Bool) (q : B → Bool) (h : A → B)
      → ((x : A) → q (h x) ≡ p x)
      → (xs : List A) → find q (map h xs) ≡ map_option h (find p xs)
  find-map p q h same [] = refl
  find-map p q h same (x ∷ xs) = ground (arith, same x, find-map p q h same xs)

  pub length-map : (h : A → B) (xs : List A) → length (map h xs) ≡ length xs
  length-map h [] = refl
  length-map h (x ∷ xs) = ground (arith, length-map h xs)

  pub map-append : (h : A → B) (xs ys : List A) → map h (xs ++ ys) ≡ map h xs ++ map h ys
  map-append h [] ys = refl
  map-append h (x ∷ xs) ys = ground (arith, map-append h xs ys)

-- A view of the selected rows, by key: `p` picks the row that `q` selects and `n` names.
module _ {ℓ κ} {A : Type ℓ} {B : Type κ} (p q : A → Bool) (n : B → Bool) (h : A → B)
    (key : (x : A) → p x ≡ (q x && n (h x))) where
  pub view-update_first :
      (f : A → A) (g : B → B)
      → ((x : A) → q (f x) ≡ q x)
      → ((x : A) → h (f x) ≡ g (h x))
      → (xs : List A)
      → map h (select q (update_first p f xs)) ≡ update_first n g (map h (select q xs))
  view-update_first f g keeps step [] = refl
  view-update_first f g keeps step (x ∷ xs) =
      ground (arith, keeps x, step x, key x, view-update_first f g keeps step xs)

  pub find-view : (xs : List A) → find n (map h (select q xs)) ≡ map_option h (find p xs)
  find-view [] = refl
  find-view (x ∷ xs) = ground (arith, key x, find-view xs)
